-- ===== src/Router/Preferences.antt =====
-- pkg/router/preferences.go: the user's pins, favorites, allowlists and exclusions.
pub mod Order
use veto.Shared.{
  ℕ, String, Bool, true, false, not, ◌&&◌, ◌||◌, List, [], ◌∷◌, ◌++◌, length, ltb, nat_eq, filter,
  if◌then◌else◌,
}
use veto.Shared.Text.{◌==◌, contains}
use veto.Router.Types.{ModelCapabilities}

pub record CandidatePreferences : Type 0 where
  pub pinned_models : List String
  pub pinned_providers : List String
  pub favorite_models : List String
  pub favorite_providers : List String
  pub allowed_models : List String
  pub allowed_providers : List String
  pub disabled_models : List String
  pub excluded_models : List String
  pub excluded_providers : List String

-- The three buckets of Prioritize.
pub record Buckets (F : Type 0) : Type 0 where
  pub model_favorites : List (ModelCapabilities F)
  pub provider_favorites : List (ModelCapabilities F)
  pub others : List (ModelCapabilities F)

module _ {F : Type 0} where
  unfoldable pub matches_model : List String → ModelCapabilities F → Bool
  unfolding contains
  matches_model names model =
      contains names model.name || (not (model.api_model == "") && contains names model.api_model)

  unfoldable pub excluded : CandidatePreferences → ModelCapabilities F → Bool
  excluded p model =
      matches_model p.disabled_models model
      || matches_model p.excluded_models model
      || contains p.excluded_providers model.provider

  unfoldable pub allowed : CandidatePreferences → ModelCapabilities F → Bool
  allowed p model =
      if ltb 0 (length p.allowed_models) && not (matches_model p.allowed_models model)
      then false
      else nat_eq (length p.allowed_providers) 0 || contains p.allowed_providers model.provider

  unfoldable pub pinned : CandidatePreferences → ModelCapabilities F → Bool
  pinned p model =
      if nat_eq (length p.pinned_models) 0 && nat_eq (length p.pinned_providers) 0
      then true
      else matches_model p.pinned_models model || contains p.pinned_providers model.provider

  -- CandidatePreferences.Filter: its loop's test, and the loop.
  unfoldable pub is_eligible : CandidatePreferences → ModelCapabilities F → Bool
  unfolding excluded allowed pinned
  is_eligible p model =
      if excluded p model || not (allowed p model) || not (pinned p model) then false else true

  unfoldable pub filter_eligible :
      CandidatePreferences → List (ModelCapabilities F) → List (ModelCapabilities F)
  filter_eligible p models = filter (is_eligible p) models

  unfoldable pub bucket : CandidatePreferences → ModelCapabilities F → Buckets F → Buckets F
  bucket p model b =
      if matches_model p.favorite_models model
      then record b { model_favorites = b.model_favorites ++ model ∷ [] }
      else if contains p.favorite_providers model.provider
      then record b { provider_favorites = b.provider_favorites ++ model ∷ [] }
      else record b { others = b.others ++ model ∷ [] }

  unfoldable pub bucket_all :
      CandidatePreferences → List (ModelCapabilities F) → Buckets F → Buckets F
  bucket_all p [] b = b
  bucket_all p (model ∷ models) b = bucket_all p models (bucket p model b)

  -- CandidatePreferences.Prioritize
  unfoldable pub prioritize :
      CandidatePreferences → List (ModelCapabilities F) → List (ModelCapabilities F)
  unfolding bucket_all
  prioritize p ranked =
      let b =
        bucket_all p ranked
          (record { model_favorites = []; provider_favorites = []; others = [] }) in
      (b.model_favorites ++ b.provider_favorites) ++ b.others
