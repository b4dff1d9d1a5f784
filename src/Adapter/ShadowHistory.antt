-- ===== src/Adapter/ShadowHistory.antt =====
-- internal/adapter/shadowhistory/file.go: the recorder that keeps shadow evidence in a file of JSON
-- lines. The calls of the operating system that fail are an input; a write that breaks off in the
-- middle of a line is not modelled.
pub mod Poison
use veto.Shared.{
  ℕ, suc, String, Bool, true, false, Option, none, some, List, [], ◌∷◌, ◌++◌, length, leb, nat_eq,
  if◌then◌else◌,
}
use veto.Shared.Int.{ℤ}
use veto.Shared.Float.{Float64}
use veto.Shared.Text.{Unicode}
use veto.Shadow.Records as Records
use veto.Shadow.Records.{KnownFloat, Telemetry, DecisionEvidence, RouteComparison, Event}
use veto.Shadow.Evidence.{schema_version, route_comparison_type, execution_label_type}
use veto.Shadow.Stream.{Codec, StreamError, loaded, append, load}
use veto.Shadow.Stream as Stream
use veto.Router.Decision.{DecisionProbability, DecisionTelemetry}
use veto.Router.ShadowRoutes as ShadowRoutes
use veto.Router.Shadowing as Shadowing
use veto.Router.Shadowing.{ShadowRecordStatus, ShadowDecisionRecord, ShadowComparisonRecord}

abbrev pub default_max_events : ℕ
default_max_events = 2000

-- What goes wrong in a call.
pub data Fault : Type 0 where
  no_fault at_inspect at_directory at_open at_permissions at_write at_close : Fault

pub data RecordError : Type 0 where
  not_appended : StreamError → RecordError
  not_loaded : StreamError → RecordError
  fault : Fault → RecordError
  limit_reached : RecordError

-- FileRecorder, with its file: `none` where there is none.
pub record FileRecorder : Type 0 where
  pub file : Option (List String)
  pub max_events : ℕ
  pub counted : Bool
  pub events : ℕ
  pub failed : Option RecordError

-- NewFileRecorder
unfoldable pub new_file_recorder : Option (List String) → ℕ → FileRecorder
new_file_recorder file max_events = record {
  file = file;
  max_events = if nat_eq max_events 0 then default_max_events else max_events;
  counted = false;
  events = 0;
  failed = none;
}

abbrev pub status_of : ShadowRecordStatus → Records.DecisionStatus
status_of Shadowing.selected = Records.selected
status_of Shadowing.no_selection = Records.no_selection
status_of Shadowing.error = Records.error
status_of Shadowing.unavailable = Records.unavailable
status_of Shadowing.timeout = Records.timeout
status_of Shadowing.canceled = Records.canceled
status_of Shadowing.malformed = Records.malformed

module _ {F : Type 0} where
  abbrev pub known_float : DecisionProbability F → KnownFloat F
  known_float p = record { known = p.known; value = p.value }

  abbrev pub telemetry_of : DecisionTelemetry F → Telemetry F
  telemetry_of t = record {
    usage = record {
      known = t.usage_known;
      input_tokens = t.input_tokens;
      output_tokens = t.output_tokens;
      total_tokens = t.total_tokens;
    };
    cost_usd = record { known = t.cost_known; value = t.cost_usd };
    latency = record { known = t.latency_known; millis = t.latency_ms };
  }

  -- decision
  unfoldable pub decision : ShadowDecisionRecord F → DecisionEvidence F
  decision r = record {
    status = status_of r.status;
    selected_candidate = r.selected_candidate;
    probability = known_float r.probability;
    confidence = known_float r.confidence;
    telemetry = telemetry_of r.telemetry;
    error_code = r.error_code;
  }

  -- The comparison and the event of RecordShadowComparison
  unfoldable pub comparison_of : ShadowComparisonRecord F → RouteComparison F
  unfolding decision
  comparison_of r = record {
    route_id = r.route_id;
    observed_at = r.observed_at;
    task_kind = r.task_kind;
    risk = r.risk;
    candidates = r.candidates;
    authority_strategy = r.authority_strategy;
    shadow_strategy = r.shadow_strategy;
    authority = decision r.authority;
    shadow = decision r.shadow;
  }

  unfoldable pub comparison_event : ShadowComparisonRecord F → Event F
  unfolding comparison_of
  comparison_event r = record {
    schema_version = schema_version;
    type = route_comparison_type;
    comparison = some (comparison_of r);
    label = none;
  }

  -- The event of RecordShadowExecutionLabel, for the time that the label is given
  unfoldable pub label_event : ℤ → ShadowRoutes.ExecutionLabel F → Event F
  label_event now r = record {
    schema_version = schema_version;
    type = execution_label_type;
    comparison = none;
    label = some (record {
      route_id = r.route_id;
      observed_at = now;
      candidate = r.candidate;
      success = elim r.success [
        | none ↦ record { known = false; value = false }
        | some value ↦ record { known = true; value = value }
      ];
      score = known_float r.score;
      usage = (telemetry_of r.telemetry).usage;
      cost_usd = (telemetry_of r.telemetry).cost_usd;
      latency = (telemetry_of r.telemetry).latency;
    });
  }

abbrev pub fails : RecordError → FileRecorder → FileRecorder × Option RecordError
fails e r = (record r { failed = some e }, some e)

-- poison: the first failure stays.
unfoldable pub poison : RecordError → FileRecorder → FileRecorder
poison e r = elim r.failed [ none ↦ record r { failed = some e } | some first ↦ r ]

abbrev pub lines_of : Option (List String) → List String
lines_of none = []
lines_of (some lines) = lines

-- The calls of the operating system, and the count.
unfoldable pub write_line : Fault → List String → FileRecorder → FileRecorder × Option RecordError
write_line at_directory line r = fails (fault at_directory) r
write_line at_open line r = fails (fault at_open) r
write_line at_permissions line r =
    fails (fault at_permissions) (record r { file = some (lines_of r.file) })
write_line at_write line r = fails (fault at_write) (record r { file = some (lines_of r.file) })
write_line at_close line r =
    fails (fault at_close) (record r { file = some (lines_of r.file ++ line) })
write_line no_fault line r =
    (record r { file = some (lines_of r.file ++ line); events = suc r.events }, none)
write_line at_inspect line r =
    (record r { file = some (lines_of r.file ++ line); events = suc r.events }, none)

abbrev is_inspect : Fault → Bool
is_inspect at_inspect = true
is_inspect _ = false

module _ {F : Type 0} ⦃fl : Float64 F⦄ ⦃u : Unicode⦄ (codec : Codec F) where
  unfoldable pub count_events : List String → FileRecorder → FileRecorder × Option RecordError
  unfolding load
  count_events lines r = elim (load codec lines) [
    | Stream.failed bad ↦ (r, some (not_loaded bad))
    | loaded events ↦ (record r { counted = true; events = length events }, none)
  ]

  -- ensureCount
  unfoldable pub ensure_count : Fault → FileRecorder → FileRecorder × Option RecordError
  unfolding count_events
  ensure_count f r = if r.counted then (r, none) else elim r.file [
    | none ↦ (record r { counted = true }, none)
    | some lines ↦ if is_inspect f then (r, some (fault at_inspect)) else count_events lines r
  ]

  -- FileRecorder.append, under the lock
  unfoldable pub append_line :
      Fault → List String → FileRecorder → FileRecorder × Option RecordError
  unfolding ensure_count write_line
  append_line f line r = elim r.failed [
    | some e ↦ (r, some e)
    | none ↦
        let (counted, err) = ensure_count f r in
        elim err [
          | some e ↦ fails e counted
          | none ↦
              if leb counted.max_events counted.events
              then (counted, some limit_reached)
              else write_line f line counted
        ]
  ]

  -- FileRecorder.append, from the result of shadow.Append on an empty buffer on,
  unfoldable pub append_result :
      Fault → List String × Option StreamError → FileRecorder → FileRecorder × Option RecordError
  unfolding append_line poison
  append_result f (line, some bad) r = (poison (not_appended bad) r, some (not_appended bad))
  append_result f (line, none) r = append_line f line r

  -- and the whole.
  unfoldable pub append_event : Fault → Event F → FileRecorder → FileRecorder × Option RecordError
  unfolding append append_result
  append_event f event r = append_result f (append codec event []) r

  -- RecordShadowComparison
  unfoldable pub record_shadow_comparison :
      Fault → ShadowComparisonRecord F → FileRecorder → FileRecorder × Option RecordError
  unfolding append_event comparison_event
  record_shadow_comparison f c r = append_event f (comparison_event c) r
