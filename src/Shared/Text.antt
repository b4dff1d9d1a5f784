-- ===== src/Shared/Text.antt =====
-- The functions of Go's `strings`, `slices` and `unicode` packages that the program uses. A text is
-- a list of code points. Go's tables of letters are a parameter.
use Prim.Native.Nat.{ℕ, ◌+◌, Ordering}
use Prim.Native.Char.{Char, code}
use Prim.Native.String.{String, compare, ◌++◌}
use mathlib.Core.Bool.{Bool, true, false, ◌&&◌, ◌||◌}
use mathlib.Core.List.{List, [], ◌∷◌}
use veto.Shared.Tests.{leb, ltb, nat_eq, is_some, if◌then◌else◌}
use text.Mathlib.Text.{find?}
pub use text.Mathlib.Text.{◌==◌}
pub use text.Mathlib.TextEquality.{eq_iff}

-- unicode.ToLower, and equality of two runes under simple case folding.
pub record Unicode : Type 0 where
  pub to_lower : Char → Char
  pub folds : Char → Char → Bool

-- unicode.IsSpace
unfoldable pub is_space : Char → Bool
is_space c =
    let n = code c in
    (leb 9 n && leb n 13)
    || nat_eq 32 n
    || nat_eq 0x85 n
    || nat_eq 0xa0 n
    || nat_eq 0x1680 n
    || (leb 0x2000 n && leb n 0x200a)
    || nat_eq 0x2028 n
    || nat_eq 0x2029 n
    || nat_eq 0x202f n
    || nat_eq 0x205f n
    || nat_eq 0x3000 n

unfoldable pub trim_left : String → String
unfolding is_space
trim_left String.[] = String.[]
trim_left (String.◌∷◌ c s) = let rest = trim_left s in if is_space c then rest else String.◌∷◌ c s

unfoldable pub trim_right : String → String
unfolding is_space
trim_right String.[] = String.[]
trim_right (String.◌∷◌ c s) =
    let rest = trim_right s in if rest == "" && is_space c then String.[] else String.◌∷◌ c rest

-- strings.TrimSpace
unfoldable pub trim_space : String → String
unfolding trim_left trim_right
trim_space s = trim_right (trim_left s)

-- a + b
abbrev pub concat : String → String → String
concat a b = a ++ b

-- strings.Contains
abbrev pub includes : String → String → Bool
includes s sub = is_some (find? s sub)

-- len(text), in bytes of UTF-8
abbrev pub width : Char → ℕ
width c =
    let n = code c in
    if ltb n 0x80 then 1 else if ltb n 0x800 then 2 else if ltb n 0x1_0000 then 3 else 4

unfoldable pub byte_length : String → ℕ
byte_length String.[] = 0
byte_length (String.◌∷◌ c s) = width c + byte_length s

-- slices.Contains
unfoldable pub contains : List String → String → Bool
contains [] a = false
contains (x ∷ xs) a = x == a || contains xs a

-- a <= b, by bytes
abbrev pub str_le : String → String → Bool
str_le a b = elim (compare a b) [ Ordering.gt ↦ false | _ ↦ true ]

module _ ⦃u : Unicode⦄ where
  -- strings.ToLower
  unfoldable pub to_lower : String → String
  to_lower String.[] = String.[]
  to_lower (String.◌∷◌ c s) = String.◌∷◌ (u.to_lower c) (to_lower s)

  -- strings.EqualFold
  unfoldable pub equal_fold : String → String → Bool
  equal_fold String.[] String.[] = true
  equal_fold String.[] (String.◌∷◌ d t) = false
  equal_fold (String.◌∷◌ c s) String.[] = false
  equal_fold (String.◌∷◌ c s) (String.◌∷◌ d t) = u.folds c d && equal_fold s t
