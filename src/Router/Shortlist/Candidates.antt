-- ===== src/Router/Shortlist/Candidates.antt =====
-- Which models become candidates.
use mathlib.Core.List.{Mem, append_assoc, append-nil}
use mathlib.Core.List.Perm
use mathlib.Core.Logic.Iff
use veto.Shared.{
  ℕ, zero, suc, ◌+◌, ◌≤◌, ◌≡◌, sym, ◌∙◌, ◌↔◌, Bool, true, false, not, ◌||◌, List, [], ◌∷◌, ◌++◌,
  String, map, arith, leb, length, length-append, filter, take, All, All-append, Bool-cases, inl,
  inr, if◌then◌else◌,
}
use veto.Shared.Float.{Float64}
use veto.Shared.Members.{mem-filter_iff}
use veto.Shared.Text.{contains}
use veto.Router.Types.{TaskSpec, TaskKind, ModelCapabilities, RoutingSignal}
use veto.Router.Filter.{hard_filter}
use veto.Router.Filter.Capable.{IsCapable, mem-hard_filter_iff}
use veto.Router.Preferences.{CandidatePreferences, is_eligible, filter_eligible}
use veto.Router.Preferences.Order.{prioritize_groups}
use veto.Router.Scorer.{rank_candidates}
use veto.Router.Scorer.Ranking.{rank_candidates-eq-sort, compare_models}
use veto.Router.Decision.{DecisionCandidate}
use veto.Router.Executors.{Environment}
use veto.Router.Admission.{AdmissionGate, gate_tools}
use veto.Router.Shortlist.{preferred, candidates}
use veto.Shared.Sort.{sort, sort-perm}

module _ {F : Type 0} ⦃fl : Float64 F⦄ where
  -- The ranking has just the models of `all` that the preferences allow and the task can use.
  pub mem-preferred_iff :
      (p : CandidatePreferences) (signals : String → TaskKind → RoutingSignal F) (task : TaskSpec F)
      (all : List (ModelCapabilities F)) (m : ModelCapabilities F)
      → Mem m (preferred p signals task all)
        ↔ ((Mem m all × (is_eligible p m ≡ true)) × IsCapable task m)
  unfolding preferred filter_eligible
  mem-preferred_iff p signals task all m =
      let eligible = filter_eligible p all in
      let by_group =
        Perm.mem_iff {a = m} (prioritize_groups p (rank_candidates task eligible signals)).1 in
      let by_rank : Mem m (rank_candidates task eligible signals)
          ↔ Mem m (sort (compare_models task signals) (hard_filter task eligible)) =
        rw rank_candidates-eq-sort Iff.rfl in
      let by_score =
        Perm.mem_iff {a = m}
          (sort-perm (compare_models task signals) (hard_filter task eligible)) in
      let by_hard = mem-hard_filter_iff task eligible m in
      let by_preference = mem-filter_iff (is_eligible p) m all in
      (
        λ h.
            let (inside, capable) = by_hard.0 (by_score.0 (by_rank.0 (by_group.0 h))) in
            (by_preference.0 inside, capable),
        λ h. by_group.1 (by_rank.1 (by_score.1 (by_hard.1 (by_preference.1 h.0, h.1)))),
      )

  module _ {W : Type 0} (env : Environment F W) (g : AdmissionGate) (task : TaskSpec F) where
    abbrev pub is_untried : ModelCapabilities F → Bool
    is_untried m = not (contains task.skip_models m.name)

    abbrev pub candidate : ModelCapabilities F → DecisionCandidate F
    candidate m = record { model = m; tools = gate_tools env g m }

    -- From `chosen` on, the loop adds the untried models in order while there is room.
    candidates-after :
        (room n : ℕ)
        → n ≤ 3
        → (ms : List (ModelCapabilities F)) (chosen : List (DecisionCandidate F))
        → length chosen + room ≡ n
        → candidates env g task n ms chosen
          ≡ chosen ++ map candidate (take room (filter is_untried ms))
    unfolding candidates
    candidates-after zero n small [] chosen e = sym (append-nil _)
    candidates-after (suc room) n small [] chosen e = sym (append-nil _)
    candidates-after room n small (m ∷ ms) chosen e =
        elim (Bool-cases (contains task.skip_models m.name)) [
          | inl tried ↦ rw (tried, candidates) (candidates-after room n small ms chosen e)
          | inr untried ↦
              rw (untried, candidates)
                (with_room (λ k e'. candidates-after k n small ms (chosen ++ candidate m ∷ []) e')
                  room e)
        ]
      where
        with_room :
            ((k : ℕ)
              → length (chosen ++ candidate m ∷ []) + k ≡ n
              → candidates env g task n ms (chosen ++ candidate m ∷ [])
                ≡ (chosen ++ candidate m ∷ []) ++ map candidate (take k (filter is_untried ms)))
            → (k : ℕ) → length chosen + k ≡ n
            → (if leb n (length chosen) || leb 3 (length chosen)
                then chosen
                else candidates env g task n ms (chosen ++ candidate m ∷ []))
              ≡ chosen ++ map candidate (take k (m ∷ filter is_untried ms))
        with_room rest zero e' =
            let full : leb n (length chosen) ≡ true = ground (arith, e') in
            rw full (sym (append-nil chosen))
        with_room rest (suc k) e' =
            let open_n : leb n (length chosen) ≡ false = ground (arith, e') in
            let open_3 : leb 3 (length chosen) ≡ false = ground (arith, e', small) in
            rw (open_n, open_3)
              (rest k (omega (arith, length-append chosen (candidate m ∷ []), e'))
                ∙ append_assoc chosen (candidate m ∷ [])
                    (map candidate (take k (filter is_untried ms))))

    -- The candidates of a request are the first models of the ranking that were not tried before,
    -- as many as the admission budget allows, in the ranking's order, each with its tools.
    pub candidates-take :
        (n : ℕ)
        → n ≤ 3
        → (ranked : List (ModelCapabilities F))
        → candidates env g task n ranked [] ≡ map candidate (take n (filter is_untried ranked))
    candidates-take n small ranked = candidates-after n n small ranked [] (omega arith)

    -- Every candidate is an untried model of the list.
    pub candidates-All :
        (P : ModelCapabilities F → Type 0) (n : ℕ) (ms : List (ModelCapabilities F))
        (chosen : List (DecisionCandidate F))
        → All P ms
        → All (λ c. P c.model × (contains task.skip_models c.model.name ≡ false)) chosen
        → All
            (λ c. P c.model × (contains task.skip_models c.model.name ≡ false))
            (candidates env g task n ms chosen)
    unfolding candidates
    candidates-All P n [] chosen a b = b
    candidates-All P n (m ∷ ms) chosen (p, a) b =
        elim (Bool-cases (contains task.skip_models m.name)) [
          | inl tried ↦ rw (tried, candidates) (candidates-All P n ms chosen a b)
          | inr untried ↦
              rw (untried, candidates)
                (elim (Bool-cases (leb n (length chosen) || leb 3 (length chosen))) [
                  | inl full ↦ rw full b
                  | inr room ↦ rw room (
                      candidates-All P n ms (chosen ++ candidate m ∷ []) a
                        (All-append _ chosen (candidate m ∷ []) b ((p, untried), tt)))
                ])
        ]
