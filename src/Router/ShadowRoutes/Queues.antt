-- ===== src/Router/ShadowRoutes/Queues.antt =====
-- The queues of route ids are bounded, first in first out, and independent of each other.
use mathlib.Core.List.{Mem}
use veto.Shared.{
  ap, ltb, nat_eq, Bool, Bool-cases, ◌⊎◌, inl, inr, ℕ, ◌+◌, ◌-◌, ◌≤◌, ◌≡◌, refl, String, true,
  false, not, ◌&&◌, List, [], ◌∷◌, ◌++◌, arith, length, if◌then◌else◌,
}
use veto.Shared.Text.{◌==◌, eq_iff, contains}
use veto.Shared.Members.{contains_iff}
use veto.Shared.Dict.{get-set, get-delete}
use veto.Router.ShadowRoutes.{
  ShadowState, queue, drop, remove, last_of, remember_shadow_route, put_back, take_first,
  take_shadow_route,
}

pub length-drop : (n : ℕ) (xs : List String) → n ≤ length xs → length (drop n xs) + n ≡ length xs
unfolding drop
length-drop n [] h = omega arith
length-drop n (x ∷ xs) h = ground (arith, length-drop (n - 1) xs)

pub length-last_of : (n : ℕ) (xs : List String) → length (last_of n xs) ≤ n
unfolding last_of
length-last_of n xs = ground (arith, length-drop (length xs - n) xs)

pub length-remove : (a : String) (xs : List String) → length (remove a xs) ≤ length xs
unfolding remove
length-remove a [] = omega arith
length-remove a (x ∷ xs) = ground (arith, length-remove a xs)

remove-absent : (a : String) (xs : List String) → contains xs a ≡ false → remove a xs ≡ xs
unfolding remove contains
remove-absent a [] h = refl
remove-absent a (x ∷ xs) h = ground (arith, remove-absent a xs)

-- What is left of a queue after a take: without the preferred id, or without its head.
abbrev pub left_over : String → List String → List String
left_over preferred ids =
    if preferred == "" then elim ids [ [] ↦ [] | id ∷ rest ↦ rest ] else remove preferred ids

-- What a take returns: the preferred id, or the head.
abbrev pub taken : String → List String → String
taken preferred ids = if preferred == "" then elim ids [ [] ↦ "" | id ∷ rest ↦ id ] else preferred

-- The queue `kept` has the id behind the queue `ids`, of which ids are dropped from the front
-- only where 32 are left; without an id to remember, it is the queue.
abbrev pub IsRemembered : Bool → String → List String → List String → Type 0
IsRemembered false id ids kept = kept ≡ ids
IsRemembered true id ids kept =
    (dropped : List String) × (dropped ++ kept ≡ ids ++ id ∷ [])
    × (length kept ≤ 32)
    × ((dropped ≡ []) ⊎ (length kept ≡ 32))

drop-suffix : (n : ℕ) (xs : List String) → (dropped : List String) × (dropped ++ drop n xs ≡ xs)
unfolding drop
drop-suffix n [] = ([], refl)
drop-suffix n (x ∷ xs) = elim (Bool-cases (nat_eq n 0)) [
  | inl e ↦ ([], rw e refl)
  | inr e ↦
      let (dropped, same) = drop-suffix (n - 1) xs in (x ∷ dropped, rw e (ap (λ ys. x ∷ ys) same))
]

last_of-IsRemembered :
    (b : Bool) (id : String) (ids : List String)
    → IsRemembered b id ids (if b then last_of 32 (ids ++ id ∷ []) else ids)
unfolding last_of
last_of-IsRemembered false id ids = refl
last_of-IsRemembered true id ids =
    let all = ids ++ id ∷ [] in
    elim (Bool-cases (ltb 32 (length all))) [
      | inl long ↦
          let (dropped, same) = drop-suffix (length all - 32) all in
          let count = length-drop (length all - 32) all (omega arith) in
          rw long (dropped, same, ground arith, inr (ground arith))
      | inr short ↦ rw short ([], refl, ground arith, inl refl)
    ]

-- What a take returns, and what it leaves of the queue `ids`.
pub data IsTaking (preferred : String) (ids : List String) (id : String) (rest : List String)
    : Type 0 where
  nothing : preferred ≡ "" → ids ≡ [] → id ≡ "" → rest ≡ [] → IsTaking preferred ids id rest
  oldest : preferred ≡ "" → ids ≡ id ∷ rest → IsTaking preferred ids id rest
  absent :
      (preferred == "") ≡ false
      → id ≡ preferred
      → ¬ Mem preferred ids
      → rest ≡ ids
      → IsTaking preferred ids id rest
  found :
      (before after : List String)
      → (preferred == "") ≡ false
      → id ≡ preferred
      → ¬ Mem preferred before
      → ids ≡ before ++ preferred ∷ after
      → rest ≡ before ++ after
      → IsTaking preferred ids id rest

remove-present :
    (a : String) (xs : List String)
    → contains xs a ≡ true
    → (before after : List String) × (contains before a ≡ false)
      × (xs ≡ before ++ a ∷ after)
      × (remove a xs ≡ before ++ after)
unfolding remove contains
remove-present a [] h = cc
remove-present a (x ∷ xs) h = elim (Bool-cases (x == a)) [
  | inl e ↦ ([], xs, refl, ap (λ y. y ∷ xs) ((eq_iff x a).0 e), rw e refl)
  | inr e ↦
      let (before, after, fresh, split, rest) = remove-present a xs (ground arith) in
      (x ∷ before, after, ground arith, ap (λ ys. x ∷ ys) split, rw e (ap (λ ys. x ∷ ys) rest))
]

unlisted : (a : String) (xs : List String) → contains xs a ≡ false → ¬ Mem a xs
unlisted a xs h m = let there = (contains_iff xs a).1 m in cc

oldest-IsTaking :
    (preferred : String) (ids : List String)
    → preferred ≡ ""
    → IsTaking preferred ids
        (elim ids [ [] ↦ "" | id ∷ rest ↦ id ])
        (elim ids [ [] ↦ [] | id ∷ rest ↦ rest ])
oldest-IsTaking preferred [] e = nothing e refl refl refl
oldest-IsTaking preferred (id ∷ ids) e = oldest e refl

left_over-IsTaking :
    (preferred : String) (ids : List String)
    → IsTaking preferred ids (taken preferred ids) (left_over preferred ids)
left_over-IsTaking preferred ids = elim (Bool-cases (preferred == "")) [
  | inl e ↦ rw e (oldest-IsTaking preferred ids ((eq_iff preferred "").0 e))
  | inr e ↦ elim (Bool-cases (contains ids preferred)) [
    | inl there ↦
        let (before, after, fresh, split, rest) = remove-present preferred ids there in
        rw e (found before after e refl (unlisted preferred before fresh) split rest)
    | inr gone ↦
        rw e (absent e refl (unlisted preferred ids gone) (remove-absent preferred ids gone))
  ]
]

module _ {F : Type 0} where
  queue-put_back :
      (other key : String) (ids : List String) (s : ShadowState F)
      → queue other (put_back key ids s) ≡ (if key == other then ids else queue other s)
  unfolding put_back
  queue-put_back other key [] s = ground (arith, get-delete other key s.routes)
  queue-put_back other key (id ∷ ids) s = ground (arith, get-set other key (id ∷ ids) s.routes)

  -- The queue that remains, through `last_of`.
  pub queue-remember_body :
      (other key id : String) (s : ShadowState F)
      → queue other (remember_shadow_route key id s) ≡ (
          if not (id == "") && key == other
          then last_of 32 (queue other s ++ id ∷ [])
          else queue other s)
  unfolding remember_shadow_route
  queue-remember_body other key id s =
      ground
        (arith, eq_iff key other, get-set other key (last_of 32 (queue key s ++ id ∷ [])) s.routes)

  -- After an id is remembered, the queue of its key is the end of the old queue with the id behind
  -- it: ids are dropped only from the front, and only where exactly 32 are left. An empty id changes
  -- no queue, and no id changes the queue of another key.
  pub queue-remember_shadow_route :
      (other key id : String) (s : ShadowState F)
      → IsRemembered
          (not (id == "") && key == other)
          id
          (queue other s)
          (queue other (remember_shadow_route key id s))
  queue-remember_shadow_route other key id s =
      rw (queue-remember_body other key id s)
        (last_of-IsRemembered (not (id == "") && key == other) id (queue other s))

  queue-take_first :
      (other key : String) (ids : List String) (s : ShadowState F)
      → (key == other ≡ true → queue other s ≡ ids)
      → ((take_first key ids s).1 ≡ taken "" ids)
        × (queue other (take_first key ids s).0
            ≡ (if key == other then left_over "" ids else queue other s))
  unfolding take_first
  queue-take_first other key [] s e = (refl, ground arith)
  queue-take_first other key (id ∷ ids) s e = (refl, queue-put_back other key ids s)

  -- The queue that remains, through `remove`.
  pub queue-take_body :
      (other key preferred : String) (s : ShadowState F)
      → ((take_shadow_route key preferred s).1 ≡ taken preferred (queue key s))
        × (queue other (take_shadow_route key preferred s).0
            ≡ (if key == other then left_over preferred (queue other s) else queue other s))
  unfolding take_shadow_route
  queue-take_body other key preferred s = ground (
    arith,
    eq_iff key other,
    eq_iff preferred "",
    queue-take_first other key (queue key s) s,
    queue-put_back other key (remove preferred (queue key s)) s,
    remove-absent preferred (queue key s),
  )

  -- A take with a preferred id returns it, and takes its first occurrence out of the queue, if there
  -- is one. Without a preferred id it returns and takes out the head of the queue, or returns the
  -- empty text where the queue is empty. The queues of other keys stay.
  pub queue-take_shadow_route :
      (other key preferred : String) (s : ShadowState F)
      → IsTaking preferred
          (queue key s)
          (take_shadow_route key preferred s).1
          (queue key (take_shadow_route key preferred s).0)
        × ((key ≡ other) ⊎ (queue other (take_shadow_route key preferred s).0 ≡ queue other s))
  queue-take_shadow_route other key preferred s =
      let (id, left) = queue-take_body key key preferred s in
      let same = (eq_iff key key).1 refl in
      let rest = rw same at left in
      (
        rw id (rw rest (left_over-IsTaking preferred (queue key s))),
        elim (Bool-cases (key == other)) [
          | inl e ↦ inl ((eq_iff key other).0 e)
          | inr e ↦ inr (rw e at (queue-take_body other key preferred s).1)
        ],
      )
