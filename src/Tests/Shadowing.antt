-- ===== src/Tests/Shadowing.antt =====
-- A shadow beside the engine of the small manager, with the file of its recorder.
use veto.Shared.{ℕ, ◌≡◌, refl, String, true, false, none, some, List, [], ◌∷◌, arith}
use mathlib.Core.List.{Mem}
use veto.Shared.Int.{pos, negsuc}
use veto.Shared.Dict.{get}
use veto.Shadow.Evidence.{EvidenceError}
use veto.Shadow.Stream.{invalid_event}
use veto.Router.Decision.{has_candidate}
use veto.Router.Sequential.{failed, engine_error}
use veto.Router.Routing.{Manager, new_manager, sequential_engine}
use veto.Router.Shadowing as Shadowing
use veto.Router.Shadowing.{
  Keys, ShadowResult, ShadowingEngine, CandidateMemory, no_telemetry, no_probability, key_in,
  key_map, keys_of,
}
use veto.Router.Shadowing.Offered.{key_in-offered}
use veto.Router.Shadowing.Bounds.{IsBounded, remember_all, remember_all-IsBounded}
use veto.Adapter.ShadowHistory.{
  no_fault, FileRecorder, new_file_recorder, not_appended, record_shadow_comparison,
}
use veto.Adapter.ShadowHistory.Poison.{IsPoisoned, append_all, negative-poisons}
use veto.Tests.Numbers.{Milli, milli_float64}
use veto.Tests.Data.{caseless, two_models, idle_clock, test_gate, neutral, two_offers}
use veto.Tests.Replay.{two_lines, labeled}

abbrev plain_keys : Keys Milli
plain_keys = record { route_key = some (λ route_id. "abc"); code_of = λ key c. c.model.name }

-- A shadow that answers at once, with a total of -1 tokens.
abbrev negative_answer : ShadowResult Milli
negative_answer = record {
  prediction = record {
    selected_candidate = "";
    probability = no_probability;
    confidence = no_probability;
    telemetry = record no_telemetry { total_tokens = negsuc 0 };
  };
  err = none;
  panicked = false;
}

abbrev pub small_manager : Manager Milli ℕ
small_manager = new_manager idle_clock two_models test_gate neutral

abbrev beside : ShadowingEngine Milli ℕ
beside = record {
  authority = sequential_engine idle_clock test_gate;
  observed = λ request w. (w, negative_answer);
  authority_strategy = "sequential-admission";
  shadow_strategy = "shadow";
  keys = plain_keys;
  now = λ w. pos w;
  new_route_id = λ w. (w, "r-1");
}

abbrev empty_memory : CandidateMemory
empty_memory = record { candidate_keys = []; candidate_key_order = [] }

empty_memory-IsBounded : IsBounded empty_memory
unfolding get
empty_memory-IsBounded = record { order = omega arith; ordered = λ id h. cc }

keen-offered :
    Mem
      (key_in (key_map plain_keys "r-1" two_offers.candidates []) "keen")
      (keys_of plain_keys "r-1" two_offers.candidates)
unfolding has_candidate
keen-offered = key_in-offered plain_keys "r-1" two_offers.candidates [] "keen" refl

-- The keys are those of HMAC's codes.
keen_key : key_in (key_map plain_keys "r-1" two_offers.candidates []) "keen" ≡ "c-keen"
unfolding key_in key_map keys_of
keen_key = refl

abbrev two_routes : List (String × List (String × String))
two_routes = ("r-1", ("keen", "c-keen") ∷ []) ∷ ("r-2", []) ∷ []

two_routes-IsBounded : IsBounded (remember_all two_routes empty_memory)
two_routes-IsBounded = remember_all-IsBounded two_routes empty_memory empty_memory-IsBounded

abbrev empty_file : FileRecorder
empty_file = new_file_recorder none 0

negative-poisons_example :
    (bad : EvidenceError) × IsPoisoned two_lines
      (append_all two_lines
        ((no_fault, labeled true) ∷ [])
        (record_shadow_comparison two_lines no_fault
          (Shadowing.comparison_of beside "r-1"
            (pos 7)
            two_offers
            (failed (engine_error "refused"))
            negative_answer)
          empty_file).0)
      (not_appended (invalid_event bad))
      none
unfolding new_file_recorder
negative-poisons_example =
    negative-poisons two_lines beside "r-1" (pos 7) two_offers (failed (engine_error "refused"))
      negative_answer no_fault empty_file ((no_fault, labeled true) ∷ [])
      (record { answered = refl; no_error = refl; negative = refl }) refl
