-- ===== src/Shadow/Evidence/Sound.antt =====
-- What valid evidence is: the consequences of RouteComparison.validate.
use mathlib.Core.List.{Mem, Nodup}
use veto.Shared.{
  ◌≡◌, refl, ap, inl, inr, ◌≤◌, String, true, false, not, ◌||◌, none, List, [], length, ◌⊎◌, nat_eq,
  ltb, All,
}
use veto.Shared.Float.{Float64}
use veto.Shared.Text.{contains}
use veto.Shared.Members.{contains_iff}
use veto.Shadow.Records.{
  DecisionStatus, selected, no_selection, error, unavailable, timeout, canceled, malformed,
  other_status, DecisionEvidence, RouteComparison,
}
use veto.Shadow.Evidence.{
  Role, authority_role, shadow_role, ◌or_next◌, is_selection, is_failure, is_machine_code,
  allowed_task_kinds, validate_id, validate_keys, validate_fraction, validate_telemetry,
  validate_selection, validate_failure, validate_decision, validate_comparison, has_status, fail_if,
  unsupported_status, candidate_count, unsupported_task_kind, route_id, no_time, allowed_risks,
  unsupported_risk, authority_strategy, shadow_strategy, validate_strategy,
}
use veto.Shadow.Evidence.Checked.{
  IsAmount, IsDuration, IsFraction, IsOpaque, IsUsage, IsZeroUnknown, count_checked,
  failure_checked, id_checked, kind_checked, or_next-eq-none, risk_checked, selection_checked,
  status_checked, status_passed, statuses_of, strategy_checked, telemetry_checked, time_checked,
  validate_fraction-IsFraction, validate_fraction-IsZeroUnknown, validate_keys-IsOpaque,
  validate_keys-Nodup,
}
use veto.Shared.Int.{pos, is_zero}

unselected : (status : DecisionStatus) → ¬ (status ≡ selected) → is_selection status ≡ false
unselected selected other = absurd (other refl)
unselected no_selection other = refl
unselected error other = refl
unselected unavailable other = refl
unselected timeout other = refl
unselected canceled other = refl
unselected malformed other = refl
unselected (other_status text) other = refl

has_failed :
    (status : DecisionStatus)
    → ¬ (status ≡ selected)
    → ¬ (status ≡ no_selection)
    → is_failure status ≡ true
has_failed selected other none_chosen = absurd (other refl)
has_failed no_selection other none_chosen = absurd (none_chosen refl)
has_failed error other none_chosen = refl
has_failed unavailable other none_chosen = refl
has_failed timeout other none_chosen = refl
has_failed canceled other none_chosen = refl
has_failed malformed other none_chosen = refl
has_failed (other_status text) other none_chosen = refl

has_worked :
    (status : DecisionStatus)
    → (status ≡ selected) ⊎ (status ≡ no_selection)
    → is_failure status ≡ false
has_worked status (inl e) = ap is_failure e
has_worked status (inr e) = ap is_failure e

module _ {F : Type 0} ⦃fl : Float64 F⦄ where
  -- A decision has a status of its role. It chooses a candidate exactly where it has the status for
  -- it, one that failed has a code and no confidence, and no other has a code.
  pub record IsSoundDecision (role : Role) (keys : List String) (d : DecisionEvidence F)
      : Type 0 where
    pub status : Mem d.status (statuses_of role)
    pub chosen : d.status ≡ selected → Mem d.selected_candidate keys
    pub unchosen :
        ¬ (d.status ≡ selected) → (d.selected_candidate ≡ "") × (d.probability.known ≡ false)
    pub failed :
        ¬ (d.status ≡ selected)
        → ¬ (d.status ≡ no_selection)
        → (is_machine_code d.error_code ≡ true) × (d.confidence.known ≡ false)
    pub worked : (d.status ≡ selected) ⊎ (d.status ≡ no_selection) → d.error_code ≡ ""
    pub probability : IsFraction d.probability
    pub confidence : IsFraction d.confidence
    pub unknown : IsZeroUnknown d.probability × IsZeroUnknown d.confidence
    pub tokens : IsUsage d.telemetry.usage
    pub cost : IsAmount d.telemetry.cost_usd
    pub latency : IsDuration d.telemetry.latency

  pub record IsSound (c : RouteComparison F) : Type 0 where
    pub some_candidate : 1 ≤ length c.candidates
    pub few_candidates : length c.candidates ≤ 3
    pub distinct : Nodup c.candidates
    pub known_kind : Mem c.task_kind allowed_task_kinds
    pub id : IsOpaque c.route_id
    pub keys : All IsOpaque c.candidates
    pub time : ¬ (c.observed_at ≡ pos 0)
    pub known_risk : Mem c.risk allowed_risks
    pub strategies :
        ((c.authority_strategy ≡ "") ⊎ IsOpaque c.authority_strategy)
        × ((c.shadow_strategy ≡ "") ⊎ IsOpaque c.shadow_strategy)
    pub authority : IsSoundDecision authority_role c.candidates c.authority
    pub shadow : IsSoundDecision shadow_role c.candidates c.shadow

  validate_decision-IsSoundDecision :
      (role : Role) (keys : List String) (d : DecisionEvidence F)
      → validate_decision role keys d ≡ none
      → IsSoundDecision role keys d
  unfolding validate_decision
  validate_decision-IsSoundDecision role keys d h =
      let status = fail_if (not (has_status role d.status)) (unsupported_status role) in
      let failure = validate_failure role d in
      let selection = validate_selection role keys d in
      let telemetry = validate_telemetry d.telemetry in
      let confidence = validate_fraction d.confidence in
      let probability = validate_fraction d.probability in
      let checks = telemetry or_next selection or_next failure in
      let (e, h1) = or_next-eq-none status (probability or_next confidence or_next checks) h in
      let (p, h2) = or_next-eq-none probability (confidence or_next checks) h1 in
      let (c, h3) = or_next-eq-none confidence checks h2 in
      let (t, h4) = or_next-eq-none telemetry (selection or_next failure) h3 in
      let (s, f) = or_next-eq-none selection failure h4 in
      let (chosen, unchosen) = selection_checked role keys d s in
      let (failed, worked) = failure_checked role d f in
      let (usage, cost, latency) = telemetry_checked d.telemetry t in
      record {
        status = status_checked role d.status (status_passed role d.status e);
        chosen = λ e. (contains_iff keys d.selected_candidate).0 (chosen (ap is_selection e));
        unchosen = λ other. unchosen (unselected d.status other);
        failed = λ other none_chosen. failed (has_failed d.status other none_chosen);
        worked = λ w. worked (has_worked d.status w);
        probability = validate_fraction-IsFraction d.probability p;
        confidence = validate_fraction-IsFraction d.confidence c;
        unknown = (
          validate_fraction-IsZeroUnknown d.probability p,
          validate_fraction-IsZeroUnknown d.confidence c,
        );
        tokens = usage;
        cost = cost;
        latency = latency;
      }

  -- A valid comparison has an id and one to three distinct candidates, all of them opaque ids, a time,
  -- a known kind of task and a known risk, and its strategies are empty or opaque ids. Each of its
  -- two decisions has a status of its role. A candidate of the route is selected exactly where the
  -- status says so, a failure has an error code and no confidence, other decisions have no code, the
  -- estimates are between 0 and 1, costs are finite, no cost, latency or count of tokens is negative,
  -- and each of these numbers is 0 where it is not known.
  pub validate_comparison-IsSound :
      (c : RouteComparison F) → validate_comparison c ≡ none → IsSound c
  unfolding validate_comparison
  validate_comparison-IsSound c h =
      let id = validate_id route_id c.route_id in
      let time = fail_if (is_zero c.observed_at) no_time in
      let kind = fail_if (not (contains allowed_task_kinds c.task_kind)) unsupported_task_kind in
      let risk = fail_if (not (contains allowed_risks c.risk)) unsupported_risk in
      let first = validate_strategy authority_strategy c.authority_strategy in
      let second = validate_strategy shadow_strategy c.shadow_strategy in
      let n = length c.candidates in
      let count = fail_if (nat_eq n 0 || ltb 3 n) candidate_count in
      let keys = validate_keys [] c.candidates in
      let authority = validate_decision authority_role c.candidates c.authority in
      let shadow = validate_decision shadow_role c.candidates c.shadow in
      let lists = count or_next keys or_next authority or_next shadow in
      let strategies = first or_next second or_next lists in
      let (i, h1) = or_next-eq-none id (time or_next kind or_next risk or_next strategies) h in
      let (o, h2) = or_next-eq-none time (kind or_next risk or_next strategies) h1 in
      let (k, h3) = or_next-eq-none kind (risk or_next strategies) h2 in
      let (r, h4) = or_next-eq-none risk strategies h3 in
      let (p, h5) = or_next-eq-none first (second or_next lists) h4 in
      let (q, h6) = or_next-eq-none second lists h5 in
      let (m, h7) = or_next-eq-none count (keys or_next authority or_next shadow) h6 in
      let (distinct, h8) = or_next-eq-none keys (authority or_next shadow) h7 in
      let (a, s) = or_next-eq-none authority shadow h8 in
      let (least, most) = count_checked n m in
      record {
        id = id_checked route_id c.route_id i;
        keys = validate_keys-IsOpaque [] c.candidates distinct;
        time = time_checked c.observed_at o;
        known_risk = (contains_iff allowed_risks c.risk).0 (risk_checked c.risk r);
        strategies = (
          strategy_checked authority_strategy c.authority_strategy p,
          strategy_checked shadow_strategy c.shadow_strategy q,
        );
        some_candidate = least;
        few_candidates = most;
        distinct = validate_keys-Nodup [] c.candidates distinct;
        known_kind = (contains_iff allowed_task_kinds c.task_kind).0 (kind_checked c.task_kind k);
        authority = validate_decision-IsSoundDecision authority_role c.candidates c.authority a;
        shadow = validate_decision-IsSoundDecision shadow_role c.candidates c.shadow s;
      }
