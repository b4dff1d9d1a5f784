-- ===== src/Router/Stats.antt =====
-- pkg/router/store.go: the recorded events and their running aggregates.
-- The map of aggregates is an association list.
use veto.Shared.{String, Bool, not, ◌&&◌, Option, none, some, List, [], ◌∷◌, if◌then◌else◌}
use veto.Shared.Int.{ℤ}
use veto.Shared.Float.{Float64, fzero}
use veto.Shared.Text.{◌==◌}
use veto.Router.Types.{TaskKind}

pub data EventClass : Type 0 where
  decision result : EventClass

-- routingEvent; its `kind` is `class` here.
pub record RoutingEvent (F : Type 0) : Type 0 where
  pub class : EventClass
  pub task_id : String
  pub model_name : String
  pub task_kind : TaskKind
  pub accepted : Bool
  pub score : F
  pub score_known : Bool
  pub status : String
  pub input_tokens : ℤ
  pub output_tokens : ℤ
  pub total_tokens : ℤ
  pub usage_known : Bool
  pub cost_usd : F
  pub cost_known : Bool
  pub latency_ms : ℤ
  pub latency_known : Bool

pub record StatsKey : Type 0 where
  pub model_name : String
  pub task_kind : TaskKind

pub record ModelStats (F : Type 0) : Type 0 where
  pub decision_total : F
  pub accepted : F
  pub result_total : F
  pub known_results : F
  pub completed : F
  pub score_sum : F
  pub score_count : F
  pub input_tokens : F
  pub output_tokens : F
  pub total_tokens : F
  pub usage_count : F
  pub cost_sum : F
  pub cost_count : F
  pub latency_sum : F
  pub latency_count : F

abbrev pub StatsMap : Type 0 → Type 0
StatsMap F = List (StatsKey × ModelStats F)

abbrev pub same_key : StatsKey → StatsKey → Bool
same_key a b = a.model_name == b.model_name && a.task_kind == b.task_kind

unfoldable pub find : {F : Type 0} → StatsKey → StatsMap F → Option (ModelStats F)
find key [] = none
find key ((k, st) ∷ m) = let rest = find key m in if same_key k key then some st else rest

unfoldable pub put : {F : Type 0} → StatsKey → ModelStats F → StatsMap F → StatsMap F
put key st [] = (key, st) ∷ []
put key st ((k, old) ∷ m) =
    let rest = put key st m in if same_key k key then (k, st) ∷ m else (k, old) ∷ rest

abbrev pub event_key : {F : Type 0} → RoutingEvent F → StatsKey
event_key e = record { model_name = e.model_name; task_kind = e.task_kind }

module _ {F : Type 0} ⦃fl : Float64 F⦄ where
  abbrev pub no_stats : ModelStats F
  no_stats = record {
    decision_total = fzero;
    accepted = fzero;
    result_total = fzero;
    known_results = fzero;
    completed = fzero;
    score_sum = fzero;
    score_count = fzero;
    input_tokens = fzero;
    output_tokens = fzero;
    total_tokens = fzero;
    usage_count = fzero;
    cost_sum = fzero;
    cost_count = fzero;
    latency_sum = fzero;
    latency_count = fzero;
  }

  -- x++
  abbrev increment : F → F
  increment x = fl.add x (fl.lit 1 0)

  abbrev count_if : Bool → F → F
  count_if b x = if b then increment x else x

  abbrev add_if : Bool → F → F → F
  add_if b x y = if b then fl.add x y else x

  -- The body of accumulate, on the entry of the event's key.
  unfoldable pub update : RoutingEvent F → ModelStats F → ModelStats F
  update e st = elim e.class [
    | decision ↦ record st {
      decision_total = increment st.decision_total;
      accepted = count_if e.accepted st.accepted;
    }
    | result ↦ record st {
      result_total = increment st.result_total;
      known_results =
          count_if (not (e.status == "") && not (e.status == "completed")) st.known_results;
      completed = count_if (e.status == "success") st.completed;
      score_count = count_if e.score_known st.score_count;
      score_sum = add_if e.score_known st.score_sum e.score;
      usage_count = count_if e.usage_known st.usage_count;
      input_tokens = add_if e.usage_known st.input_tokens (fl.of_int e.input_tokens);
      output_tokens = add_if e.usage_known st.output_tokens (fl.of_int e.output_tokens);
      total_tokens = add_if e.usage_known st.total_tokens (fl.of_int e.total_tokens);
      cost_count = count_if e.cost_known st.cost_count;
      cost_sum = add_if e.cost_known st.cost_sum e.cost_usd;
      latency_count = count_if e.latency_known st.latency_count;
      latency_sum = add_if e.latency_known st.latency_sum (fl.of_int e.latency_ms);
    }
  ]

  abbrev pub or_no_stats : Option (ModelStats F) → ModelStats F
  or_no_stats none = no_stats
  or_no_stats (some st) = st

  -- MemoryStore.accumulate, with statFor
  unfoldable pub accumulate : RoutingEvent F → StatsMap F → StatsMap F
  unfolding find put update
  accumulate e stats = put (event_key e) (update e (or_no_stats (find (event_key e) stats))) stats

  unfoldable pub accumulate_all : List (RoutingEvent F) → StatsMap F → StatsMap F
  unfolding accumulate
  accumulate_all [] stats = stats
  accumulate_all (e ∷ es) stats = accumulate_all es (accumulate e stats)
