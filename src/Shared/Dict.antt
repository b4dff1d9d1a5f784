-- ===== src/Shared/Dict.antt =====
-- Go's maps from texts, as association lists: a missing key has no value.
use Prim.Native.String.{String}
use mathlib.Core.Path.{◌≡◌, refl}
use mathlib.Core.Option.{Option, none, some}
use mathlib.Core.List.{List, [], ◌∷◌}
use native.Mathlib.Omega.{arith}
use veto.Shared.Tests.{if◌then◌else◌}
use veto.Shared.Text.{◌==◌, eq_iff}

module _ {A : Type 0} where
  unfoldable pub get : String → List (String × A) → Option A
  get key [] = none
  get key ((k, a) ∷ d) = let rest = get key d in if k == key then some a else rest

  -- d[key] = a
  unfoldable pub set : String → A → List (String × A) → List (String × A)
  set key a [] = (key, a) ∷ []
  set key a ((k, b) ∷ d) = let rest = set key a d in if k == key then (k, a) ∷ d else (k, b) ∷ rest

  -- delete(d, key), for all entries of the key
  unfoldable pub delete : String → List (String × A) → List (String × A)
  delete key [] = []
  delete key ((k, a) ∷ d) = let rest = delete key d in if k == key then rest else (k, a) ∷ rest

  pub get-set :
      (other key : String) (a : A) (d : List (String × A))
      → get other (set key a d) ≡ (if key == other then some a else get other d)
  unfolding get set
  get-set other key a [] = refl
  get-set other key a ((k, b) ∷ d) =
      ground (arith, get-set other key a d, eq_iff k key, eq_iff k other, eq_iff key other)

  pub get-delete :
      (other key : String) (d : List (String × A))
      → get other (delete key d) ≡ (if key == other then none else get other d)
  unfolding get delete
  get-delete other key [] = ground arith
  get-delete other key ((k, b) ∷ d) =
      ground (arith, get-delete other key d, eq_iff k key, eq_iff k other, eq_iff key other)
