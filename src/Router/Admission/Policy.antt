-- ===== src/Router/Admission/Policy.antt =====
-- What an answer of the gate guarantees, whatever the model said.
use veto.Shared.{ℕ, String, ◌≡◌, refl, ◌≤◌, true, false, Option, none, some, arith}
use veto.Shared.Int.{ℤ, pos, sub_ℕ, ◌≤ℤ◌}
use veto.Shared.Float.{Float64, IsIeee, fzero, gt}
use veto.Router.Types.{TaskSpec, ModelCapabilities}
use veto.Router.Decision.{validate_telemetry}
use veto.Router.Executors.{Environment, Executor, AdmissionResult, AdmissionJson}
use veto.Router.Prompt.{AdmissionPrompt, build_admission_prompt}
use veto.Router.Admission.{
  AdmissionGate, Asked, check_policy, judge, ask_with_timeout_measured, ask_found, call, advertised,
  effective_timeout,
}
use veto.Router.Measurement.{clean_usage, clean_cached_input, clean_cost, measured, milliseconds}

elapsed_nonneg : (a b : ℕ) → a ≤ b → pos 0 ≤ℤ milliseconds (sub_ℕ b a)
unfolding milliseconds
elapsed_nonneg a b h = ground arith

module _ {F : Type 0} ⦃fl : Float64 F⦄ where
  measured-valid :
      IsIeee F
      → (result : AdmissionResult F) (latency : ℤ) → pos 0 ≤ℤ latency
      → validate_telemetry (measured result latency) ≡ none
  unfolding measured clean_usage clean_cached_input clean_cost validate_telemetry
  measured-valid laws result latency h =
      ground (arith, laws.zero_finite, laws.eq_zero, laws.lt_irrefl fzero)

  -- The answer respects the policy: if it accepts, then the call did not fail, the confidence is not
  -- below 0.7, and the estimated cost is not above a ceiling that the task sets.
  pub record RespectsPolicy (task : TaskSpec F) (asked : Asked F) : Type 0 where
    pub answered : asked.error ≡ none
    pub confident : fl.lt asked.decision.confidence (fl.lit 7 1) ≡ false
    pub affordable :
        gt task.max_cost_usd fzero ≡ true
        → gt asked.decision.estimated_cost_usd task.max_cost_usd ≡ false

  judge-RespectsPolicy :
      (decode : String → Option (AdmissionJson F)) (task : TaskSpec F) (result : AdmissionResult F)
      (latency : ℤ)
      → (judge decode task result latency).decision.accept ≡ true
      → RespectsPolicy task (judge decode task result latency)
  unfolding judge check_policy
  judge-RespectsPolicy decode task result latency h = ground arith

  telemetry-judge :
      (decode : String → Option (AdmissionJson F)) (task : TaskSpec F) (result : AdmissionResult F)
      (latency : ℤ)
      → (judge decode task result latency).telemetry ≡ measured result latency
  unfolding judge
  telemetry-judge decode task result latency = ground arith

  -- time.Since never goes backwards: the clock is monotonic over a call of a registered executor.
  abbrev pub IsMonotonic : {W : Type 0} → Environment F W → Type 0
  IsMonotonic {W} env =
      (name : String) (exec : Executor F W)
      → env.executor_for name ≡ some exec
      → (timeout : ℤ) (prompt : AdmissionPrompt) (w : W)
      → env.clock w ≤ env.clock (exec.run timeout prompt w).0

  module _ {W : Type 0} (env : Environment F W) (g : AdmissionGate) where
    found-RespectsPolicy :
        (found : Option (Executor F W)) (task : TaskSpec F) (model : ModelCapabilities F)
        (timeout : ℤ) (w : W)
        → (ask_found env g found task model timeout w).1.decision.accept ≡ true
        → RespectsPolicy task (ask_found env g found task model timeout w).1
    unfolding ask_found
    found-RespectsPolicy none task model timeout w h = cc
    found-RespectsPolicy (some exec) task model timeout w h =
        judge-RespectsPolicy env.decode task (call env g exec task model timeout w).1
          (milliseconds (sub_ℕ (env.clock (call env g exec task model timeout w).0) (env.clock w)))
          h

    -- A model is accepted only by an executor that answered without an error, with a confidence
    -- that is not below 0.7, and with an estimated cost that is not above the task's ceiling.
    pub ask-RespectsPolicy :
        (task : TaskSpec F) (model : ModelCapabilities F) (timeout : ℤ) (w : W)
        → (ask_with_timeout_measured env g task model timeout w).1.decision.accept ≡ true
        → RespectsPolicy task (ask_with_timeout_measured env g task model timeout w).1
    unfolding ask_with_timeout_measured
    ask-RespectsPolicy task model timeout w h =
        found-RespectsPolicy (env.executor_for model.name) task model timeout w h

    found-telemetry_valid :
        IsIeee F
        → IsMonotonic env
        → (found : Option (Executor F W)) (task : TaskSpec F) (model : ModelCapabilities F)
          (timeout : ℤ) (w : W)
        → env.executor_for model.name ≡ found
        → validate_telemetry (ask_found env g found task model timeout w).1.telemetry ≡ none
    unfolding ask_found call
    found-telemetry_valid laws mono none task model timeout w found =
        unfold validate_telemetry in
        ground (arith, laws.zero_finite, laws.eq_zero, laws.lt_irrefl fzero)
    found-telemetry_valid laws mono (some exec) task model timeout w found =
        let result = (call env g exec task model timeout w).1 in
        let latency : ℤ =
          milliseconds (sub_ℕ (env.clock (call env g exec task model timeout w).0) (env.clock w)) in
        rw (telemetry-judge env.decode task result latency) (
          measured-valid laws result latency (
            elapsed_nonneg _ _ (
              mono model.name exec found (effective_timeout g timeout)
                (build_admission_prompt task model (advertised env g exec).tools
                  (advertised env g exec).known)
                w)))

    -- The telemetry of every admission call is valid, failed calls included, given the laws of
    -- float64 and a clock that does not go backwards.
    pub ask-telemetry_valid :
        IsIeee F
        → IsMonotonic env
        → (task : TaskSpec F) (model : ModelCapabilities F) (timeout : ℤ) (w : W)
        → validate_telemetry (ask_with_timeout_measured env g task model timeout w).1.telemetry
          ≡ none
    unfolding ask_with_timeout_measured
    ask-telemetry_valid laws mono task model timeout w =
        found-telemetry_valid laws mono (env.executor_for model.name) task model timeout w refl
