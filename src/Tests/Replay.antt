-- ===== src/Tests/Replay.antt =====
-- Recorded shadow evidence: validation, replay and the stream, on a route with two labels.
use veto.Shared.{
  ◌≡◌, refl, String, Bool, true, false, none, some, List, [], ◌∷◌, All, if◌then◌else◌,
}
use veto.Shared.Int.{pos}
use veto.Shared.Text.{◌==◌, trim_space}
use veto.Shadow.Records.{
  selected, no_selection, KnownFloat, KnownUsage, KnownDuration, DecisionEvidence, RouteComparison,
  ExecutionLabel, Event, Dataset,
}
use veto.Shadow.Evidence.{validate_comparison, validate_event}
use veto.Shadow.Evidence.Sound.{IsSound, validate_comparison-IsSound}
use veto.Shadow.Replay.{replayed, materialize}
use veto.Shadow.Replay.Consistent.{IsConsistent, materialize-IsConsistent}
use veto.Shadow.Replay.Latest.{comparisons, compared_in, label_of, latest, materialize-latest}
use veto.Shadow.Readiness.{Report, ReadinessGate, ready, verdict}
use veto.Shadow.Promotion.{statuses}
use veto.Shadow.Evaluate.{evaluated, evaluate}
use veto.Shadow.Evaluate.Total.{evaluate-materialize}
use veto.Shadow.Stream.{Codec, load, loaded}
use veto.Shadow.Stream.Keys.{Format, event_json, IsAscii}
use veto.Shadow.Stream.RoundTrip.{IsWritten, append_each, load-append_each}
use veto.Tests.Numbers.{Milli, number, milli_float64, milli-IsIeee}
use veto.Tests.Data.{caseless}
use veto.Tests.Evidence.{milli_math, milli_math-IsTruncation}

abbrev unknown_float : KnownFloat Milli
unknown_float = record { known = false; value = number (pos 0) }

abbrev half : KnownFloat Milli
half = record { known = true; value = number (pos 500) }

abbrev no_usage : KnownUsage
no_usage = record {
  known = false;
  input_tokens = pos 0;
  output_tokens = pos 0;
  total_tokens = pos 0;
}

abbrev short : KnownDuration
short = record { known = true; millis = pos 40 }

abbrev picked : DecisionEvidence Milli
picked = record {
  status = selected;
  selected_candidate = "c-1";
  probability = half;
  confidence = unknown_float;
  telemetry = record { usage = no_usage; cost_usd = unknown_float; latency = short };
  error_code = "";
}

abbrev two_candidates : RouteComparison Milli
two_candidates = record {
  route_id = "r-1";
  observed_at = pos 7;
  task_kind = "debug";
  risk = "low";
  candidates = "c-1" ∷ "c-2" ∷ [];
  authority_strategy = "sequential-admission";
  shadow_strategy = "";
  authority = picked;
  shadow = record picked {
    status = no_selection;
    selected_candidate = "";
    probability = unknown_float;
  };
}

abbrev outcome : Bool → ExecutionLabel Milli
outcome success = record {
  route_id = "r-1";
  observed_at = pos 9;
  candidate = "c-1";
  success = record { known = true; value = success };
  score = half;
  usage = no_usage;
  cost_usd = unknown_float;
  latency = short;
}

abbrev compared : Event Milli
compared = record {
  schema_version = pos 1;
  type = "route_comparison";
  comparison = some two_candidates;
  label = none;
}

abbrev pub labeled : Bool → Event Milli
labeled success = record {
  schema_version = pos 1;
  type = "execution_label";
  comparison = none;
  label = some (outcome success);
}

abbrev three_events : List (Event Milli)
three_events = compared ∷ labeled false ∷ labeled true ∷ []

abbrev one_record : Dataset Milli
one_record = record { comparison = two_candidates; labels = ("c-1", outcome true) ∷ [] } ∷ []

two_candidates-valid : validate_comparison two_candidates ≡ none
unfolding validate_comparison
two_candidates-valid = refl

three_events-replayed : materialize three_events ≡ replayed one_record
unfolding materialize
three_events-replayed = refl

validate_comparison-IsSound_example : IsSound two_candidates
validate_comparison-IsSound_example =
    validate_comparison-IsSound two_candidates two_candidates-valid

materialize-IsConsistent_example : IsConsistent one_record
materialize-IsConsistent_example =
    materialize-IsConsistent three_events one_record three_events-replayed

materialize-latest_example :
    (comparisons one_record ≡ compared_in three_events)
    × ((route key : String) → label_of route key one_record ≡ latest route key three_events none)
materialize-latest_example = materialize-latest three_events one_record three_events-replayed

evaluate-materialize_example :
    (report : Report Milli) × (gs : List (String × ReadinessGate Milli)) × (evaluate one_record
        (number (pos 800))
      ≡ evaluated report gs (verdict ready (statuses gs)))
evaluate-materialize_example =
    evaluate-materialize milli-IsIeee milli_math-IsTruncation (number (pos 800)) three_events
      one_record refl three_events-replayed

abbrev plain_format : Format Milli
plain_format = record { of_int = λ n. "0"; of_float = λ x. "0"; of_time = λ t. "0001" }

-- A codec of two lines, one for each event.
abbrev pub two_lines : Codec Milli
two_lines = record {
  encode = λ (e : Event Milli). if e.type == "execution_label" then some "label" else some "route";
  parse =
      λ line. some (event_json plain_format (if line == "label" then labeled true else compared));
  decode = λ line. some (if line == "label" then labeled true else compared);
  ends = λ line. true;
}

abbrev is_ascii : IsAscii caseless
is_ascii = record { keeps = λ c h. refl }

abbrev two_events : List (Event Milli)
two_events = compared ∷ labeled true ∷ []

two_events-IsWritten : All (IsWritten two_lines plain_format) two_events
unfolding validate_event trim_space event_json
two_events-IsWritten = (
  record {
    valid = refl;
    line = "route";
    encoded = refl;
    trimmed = refl;
    not_blank = refl;
    parsed = refl;
    decoded = refl;
    ended = refl;
  },
  (
    record {
      valid = refl;
      line = "label";
      encoded = refl;
      trimmed = refl;
      not_blank = refl;
      parsed = refl;
      decoded = refl;
      ended = refl;
    },
    tt,
  ),
)

load-append_each_example :
    ((append_each two_lines two_events []).1 ≡ none)
    × (load two_lines (append_each two_lines two_events []).0 ≡ loaded two_events)
load-append_each_example =
    load-append_each two_lines plain_format is_ascii two_events two_events-IsWritten
