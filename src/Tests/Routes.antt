-- ===== src/Tests/Routes.antt =====
-- Routing: the theorems on filters, engines and routes, at the small world.
use mathlib.Core.List.{Mem, Perm}
use mathlib.Core.Option as Option
use veto.Shared.{
  ℕ, ◌+◌, ◌≤◌, ◌≡◌, refl, sym, if◌then◌else◌, ◌↔◌, String, Bool, true, false, Option, none, some,
  List, [], ◌∷◌, ◌++◌, ◌≢◌, arith, All, filter, take, map,
}
use veto.Shared.Int.{pos, max_int, ◌≤ℤ◌, ◌+ℤ◌, ◌-ℤ◌}
use veto.Shared.Sort.{IsSorted}
use veto.Shared.Text.{◌==◌}
use veto.Router.Filter.{hard_filter, filter_reason}
use veto.Router.Filter.Capable.{IsCapable, mem-hard_filter_iff, hard_filter-filter_reason}
use veto.Router.Preferences.{prioritize}
use veto.Router.Preferences.Order.{
  is_model_favorite, is_provider_favorite, is_other, prioritize_groups,
}
use veto.Router.Scorer.{rank_candidates}
use veto.Router.Scorer.Ranking.{compare_models, rank_candidates-IsRanking}
use veto.Router.Decision.{validate_request, validate_telemetry}
use veto.Router.Decision.Requests.{IsWellFormed, validate_request_iff}
use veto.Router.Decision.Measured.{IsMeasured, validate_telemetry_iff}
use veto.Router.Telemetry.{merge_decision_telemetry, add_nonnegative_int}
use veto.Router.Telemetry.Validity.{merge-valid, add_nonnegative_int_iff}
use veto.Router.Admission.{ask_with_timeout_measured, supports_execution_options}
use veto.Router.Admission.Policy.{
  RespectsPolicy, IsMonotonic, ask-RespectsPolicy, ask-telemetry_valid,
}
use veto.Router.Sequential.{decide}
use veto.Router.Sequential.Validity.{IsContractual, decide-IsContractual}
use veto.Router.Sequential.Selection.{Selects, first_accepting, decide-first_accepting}
use veto.Router.Shortlist.{with_complexity, candidates}
use veto.Router.Shortlist.Candidates.{candidate, is_untried, candidates-take}
use veto.Router.Routing.{
  RouteResult, routed, Manager, route, new_manager, not_routed, unsupported_execution_options,
}
use veto.Router.Routing.Trusted.{IsTrusted, route-IsTrusted}
use veto.Router.Routing.Preflight.{ranking, route-unsupported_iff}
use veto.Tests.Numbers.{Milli, milli_float64, milli-IsIeee}
use veto.Tests.Data.{
  caseless, fix_bug, keen_model, two_models, idle_clock, test_gate, neutral, no_preferences,
  two_offers, some_usage, speaker,
}

abbrev two_names : List String
two_names = "sonnet" ∷ "opus" ∷ []

mem-hard_filter_iff_example :
    Mem keen_model (hard_filter fix_bug two_models)
    ↔ (Mem keen_model two_models × IsCapable fix_bug keen_model)
mem-hard_filter_iff_example = mem-hard_filter_iff fix_bug two_models keen_model

fix_bug-filter_reason :
    hard_filter fix_bug two_models ≡ filter (λ m. filter_reason m fix_bug == "") two_models
fix_bug-filter_reason = hard_filter-filter_reason fix_bug two_models

prioritize_groups_example :
    (prioritize no_preferences two_models
      ≡ (filter (is_model_favorite no_preferences) two_models
          ++ filter (is_provider_favorite no_preferences) two_models)
        ++ filter (is_other no_preferences) two_models)
    × Perm (prioritize no_preferences two_models) two_models
prioritize_groups_example = prioritize_groups no_preferences two_models

rank_candidates-IsRanking_example :
    Perm (rank_candidates fix_bug two_models neutral) (hard_filter fix_bug two_models)
    × IsSorted (compare_models fix_bug neutral) (rank_candidates fix_bug two_models neutral)
rank_candidates-IsRanking_example =
    rank_candidates-IsRanking milli-IsIeee fix_bug two_models neutral

validate_request_iff_example : (validate_request two_offers ≡ none) ↔ IsWellFormed two_offers
validate_request_iff_example = validate_request_iff two_offers

validate_telemetry_iff_example : (validate_telemetry some_usage ≡ none) ↔ IsMeasured some_usage
validate_telemetry_iff_example = validate_telemetry_iff some_usage

sum-add_nonnegative_int :
    (add_nonnegative_int (pos 2) (pos 3) ≡ some (pos 5))
    ↔ ((pos 0 ≤ℤ pos 2) × (pos 0 ≤ℤ pos 3) × (pos 2 +ℤ pos 3 ≤ℤ max_int) × (pos 5 ≡ pos 2 +ℤ pos 3))
sum-add_nonnegative_int = add_nonnegative_int_iff (pos 2) (pos 3) (pos 5) (omega arith)

some_usage_valid : validate_telemetry some_usage ≡ none
unfolding validate_telemetry
some_usage_valid = refl

merge-valid_example :
    validate_telemetry (merge_decision_telemetry some_usage some_usage false) ≡ none
merge-valid_example =
    merge-valid milli-IsIeee some_usage some_usage false some_usage_valid some_usage_valid

idle_clock-IsMonotonic : IsMonotonic idle_clock
idle_clock-IsMonotonic name exec e timeout prompt w = later (name == "keen") (name == "shy") e
  where
    later :
        (a b : Bool)
        → (if a then some (speaker "{yes") else if b then some (speaker "{no") else none)
          ≡ some exec
        → w ≤ (exec.run timeout prompt w).0
    later true b e' =
        let same : speaker "{yes" ≡ exec = ground (arith, e') in rw (sym same) (omega arith)
    later false true e' =
        let same : speaker "{no" ≡ exec = ground (arith, e') in rw (sym same) (omega arith)
    later false false e' = ground (arith, e')

keen_accepts :
    (ask_with_timeout_measured idle_clock test_gate fix_bug keen_model (pos 0) 7).1.decision.accept
    ≡ true
unfolding ask_with_timeout_measured
keen_accepts = refl

ask-RespectsPolicy_example :
    RespectsPolicy fix_bug
      (ask_with_timeout_measured idle_clock test_gate fix_bug keen_model (pos 0) 7).1
ask-RespectsPolicy_example =
    ask-RespectsPolicy idle_clock test_gate fix_bug keen_model (pos 0) 7 keen_accepts

ask-telemetry_valid_example :
    validate_telemetry
      (ask_with_timeout_measured idle_clock test_gate fix_bug keen_model (pos 0) 7).1.telemetry
    ≡ none
ask-telemetry_valid_example =
    ask-telemetry_valid idle_clock test_gate milli-IsIeee idle_clock-IsMonotonic fix_bug keen_model
      (pos 0) 7

decide-IsContractual_example :
    IsContractual two_offers (decide idle_clock test_gate two_offers (pos 0) 7).1
decide-IsContractual_example =
    decide-IsContractual idle_clock test_gate milli-IsIeee idle_clock-IsMonotonic two_offers (pos 0)
      7

two_offers_valid : validate_request two_offers ≡ none
unfolding validate_request
two_offers_valid = refl

decide-first_accepting_example :
    Selects
      (first_accepting idle_clock test_gate fix_bug (pos 0) two_offers.candidates 7)
      (decide idle_clock test_gate two_offers (pos 0) 7).1
decide-first_accepting_example =
    decide-first_accepting idle_clock test_gate (λ w. refl) two_offers (pos 0) 7 two_offers_valid

candidates-take_example :
    candidates idle_clock test_gate fix_bug 1 two_models []
    ≡ map
        (candidate idle_clock test_gate fix_bug)
        (take 1 (filter (is_untried idle_clock test_gate fix_bug) two_models))
candidates-take_example = candidates-take idle_clock test_gate fix_bug 1 (omega arith) two_models

abbrev chosen : RouteResult Milli → String
chosen (routed m d) = m.name
chosen (not_routed e) = ""

abbrev small_manager : Manager Milli ℕ
small_manager = new_manager idle_clock two_models test_gate neutral

-- The route takes the model that accepts.
route_keen : chosen (route idle_clock small_manager fix_bug (pos 0) 7).result ≡ "keen"
unfolding route new_manager veto.Shared.Sort.sort hard_filter veto.Router.Shortlist.matches_filters
    veto.Router.Preferences.is_eligible veto.Router.Preferences.matches_model
    veto.Router.Filter.passes_hard_filter veto.Router.Filter.has_required_tools
    veto.Router.Filter.context_known veto.Router.Filter.cost_known veto.Router.Filter.estimated_cost
    ◌+ℤ◌ veto.Router.Complexity.tier_meets_complexity veto.Router.Filter.is_weak_kind
    veto.Shared.Float.fcompare veto.Router.Scorer.score veto.Router.Scorer.kind_match
    veto.Router.Scorer.cost_fit ◌-ℤ◌ veto.Shared.Sort.insert decide veto.Router.Preferences.bucket
    supports_execution_options ask_with_timeout_measured veto.Router.Decision.validate_probability
    validate_telemetry veto.Router.Measurement.clean_cost veto.Router.Measurement.clean_cached_input
    veto.Router.Measurement.clean_usage veto.Router.Decision.validate_reasons
    veto.Router.Decision.validate_selection
route_keen = refl

route-IsTrusted_example :
    IsTrusted idle_clock small_manager
      (with_complexity fix_bug)
      (route idle_clock small_manager fix_bug (pos 0) 7).result
route-IsTrusted_example = route-IsTrusted idle_clock small_manager fix_bug (pos 0) 7

route-unsupported_iff_example :
    ((route idle_clock small_manager fix_bug (pos 0) 7).result
      ≡ not_routed unsupported_execution_options)
    ↔ ((ranking small_manager (with_complexity fix_bug) ≢ [])
        × All
            (λ c.
              supports_execution_options idle_clock small_manager.gate (with_complexity fix_bug) c
              ≡ false)
            (ranking small_manager (with_complexity fix_bug)))
route-unsupported_iff_example = route-unsupported_iff idle_clock small_manager fix_bug (pos 0) 7
