-- ===== src/Router/Preferences/Order.antt =====
-- What Prioritize does to a ranking: three runs of it, each in the ranking's order.
use mathlib.Core.List.{Perm, append_assoc, append-nil, perm_middle}
use mathlib.Core.List.Perm
use veto.Shared.{◌≡◌, refl, ◌∙◌, ap, Bool, true, false, not, ◌&&◌, List, [], ◌∷◌, ◌++◌, filter}
use veto.Shared.Text.{contains}
use veto.Router.Types.{ModelCapabilities}
use veto.Router.Preferences.{
  CandidatePreferences, Buckets, bucket, bucket_all, prioritize, matches_model,
}

module _ {F : Type 0} (p : CandidatePreferences) where
  abbrev pub is_model_favorite : ModelCapabilities F → Bool
  is_model_favorite m = matches_model p.favorite_models m

  abbrev pub is_provider_favorite : ModelCapabilities F → Bool
  is_provider_favorite m = not (is_model_favorite m) && contains p.favorite_providers m.provider

  abbrev pub is_other : ModelCapabilities F → Bool
  is_other m = not (is_model_favorite m) && not (contains p.favorite_providers m.provider)

  -- The buckets after a loop over `ms`.
  abbrev after : List (ModelCapabilities F) → Buckets F → Buckets F
  after ms b = record {
    model_favorites = b.model_favorites ++ filter is_model_favorite ms;
    provider_favorites = b.provider_favorites ++ filter is_provider_favorite ms;
    others = b.others ++ filter is_other ms;
  }

  bucket_all-eq-after :
      (ms : List (ModelCapabilities F)) (b : Buckets F) → bucket_all p ms b ≡ after ms b
  unfolding bucket_all bucket
  bucket_all-eq-after [] b = simp append-nil
  bucket_all-eq-after (m ∷ ms) b =
      bucket_all-eq-after ms (bucket p m b)
      ∙ after-bucket (matches_model p.favorite_models m) (contains p.favorite_providers m.provider)
          refl refl
    where
      after-bucket :
          (x y : Bool)
          → matches_model p.favorite_models m ≡ x
          → contains p.favorite_providers m.provider ≡ y
          → after ms (bucket p m b) ≡ after (m ∷ ms) b
      after-bucket true y hx hy = rw hx (simp append_assoc)
      after-bucket false true hx hy = rw hx (rw hy (simp append_assoc))
      after-bucket false false hx hy = rw hx (rw hy (simp append_assoc))

  three_runs : List (ModelCapabilities F) → List (ModelCapabilities F)
  three_runs ms =
      (filter is_model_favorite ms ++ filter is_provider_favorite ms) ++ filter is_other ms

  three_runs-perm : (ms : List (ModelCapabilities F)) → Perm (three_runs ms) ms
  unfolding three_runs
  three_runs-perm [] = Perm.refl _
  three_runs-perm (m ∷ ms) =
      place (matches_model p.favorite_models m) (contains p.favorite_providers m.provider) refl refl
        (three_runs-perm ms)
    where
      a : List (ModelCapabilities F)
      a = filter is_model_favorite ms

      b : List (ModelCapabilities F)
      b = filter is_provider_favorite ms

      c : List (ModelCapabilities F)
      c = filter is_other ms

      place :
          (x y : Bool)
          → matches_model p.favorite_models m ≡ x
          → contains p.favorite_providers m.provider ≡ y
          → Perm ((a ++ b) ++ c) ms
          → Perm (three_runs (m ∷ ms)) (m ∷ ms)
      place true y hx hy h = rw hx (Perm.cons m h)
      place false true hx hy h =
          rw hx (rw hy (Perm.trans (Perm.append_right c (perm_middle a b)) (Perm.cons m h)))
      place false false hx hy h =
          rw hx (rw hy (Perm.trans (perm_middle (a ++ b) c) (Perm.cons m h)))

  -- Prioritize loses and repeats no candidate: it returns the favorite models, then the other
  -- models of favorite providers, then the rest, each group in the order of the ranking.
  pub prioritize_groups :
      (ranked : List (ModelCapabilities F))
      → (prioritize p ranked
          ≡ (filter is_model_favorite ranked ++ filter is_provider_favorite ranked)
            ++ filter is_other ranked)
        × Perm (prioritize p ranked) ranked
  unfolding prioritize three_runs
  prioritize_groups ranked =
      let start : Buckets F = record {
        model_favorites = [];
        provider_favorites = [];
        others = [];
      } in
      let e =
        ap (λ (b : Buckets F). (b.model_favorites ++ b.provider_favorites) ++ b.others)
          (bucket_all-eq-after ranked start) in
      (e, rw e (three_runs-perm ranked))
