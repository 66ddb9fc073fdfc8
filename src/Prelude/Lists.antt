-- ===== src/Prelude/Lists.antt =====
-- Lists measured by native numbers, with Boolean tests for their predicates.
use Prim.Native.Nat.{ℕ, suc, ◌+◌, ◌≤◌}
use mathlib.Core.Path.{◌≡◌, refl, ap, sym, subst, ◌∙◌}
use mathlib.Core.Logic.{◌↔◌, ◌⊎◌, inl, inr}
use mathlib.Core.Bool.{Bool, true, false, ◌&&◌, ◌||◌}
use mathlib.Core.List.{List, [], ◌∷◌, ◌++◌, map}
use mathlib.Core.Option.{Option, none, some}
use native.Mathlib.Omega.{arith}
use omarchy_vault.Prelude.Tests.{if◌then◌else◌, Bool-cases}

module _ {ℓ} {A : Type ℓ} where
  abbrev pub length : List A → ℕ
  length [] = 0
  length (x ∷ xs) = suc (length xs)

  abbrev pub all : (A → Bool) → List A → Bool
  all p [] = true
  all p (x ∷ xs) = p x && all p xs

  abbrev pub any : (A → Bool) → List A → Bool
  any p [] = false
  any p (x ∷ xs) = p x || any p xs

  -- The elements that pass, in their order.
  abbrev pub filter : (A → Bool) → List A → List A
  filter p [] = []
  filter p (x ∷ xs) = let rest = filter p xs in if p x then x ∷ rest else rest

  -- The first element that passes.
  abbrev pub find? : (A → Bool) → List A → Option A
  find? p [] = none
  find? p (x ∷ xs) = if p x then some x else find? p xs

  pub length-append : (xs ys : List A) → length (xs ++ ys) ≡ length xs + length ys
  length-append [] ys = omega arith
  length-append (x ∷ xs) ys = omega (arith, length-append xs ys)

  pub length-filter-le : (p : A → Bool) (xs : List A) → length (filter p xs) ≤ length xs
  length-filter-le p [] = omega arith
  length-filter-le p (x ∷ xs) = ground (arith, length-filter-le p xs)

module _ {ℓ κ} {A : Type ℓ} (P : A → Type κ) where
  abbrev pub All : List A → Type κ
  All [] = Unit
  All (x ∷ xs) = P x × All xs

  pub All-pure : ((x : A) → P x) → (xs : List A) → All xs
  All-pure h [] = tt
  All-pure h (x ∷ xs) = (h x, All-pure h xs)

  pub All-append : (xs ys : List A) → All xs → All ys → All (xs ++ ys)
  All-append [] ys _ h = h
  All-append (x ∷ xs) ys (p, k) h = (p, All-append xs ys k h)

  pub All-filter : (p : A → Bool) (xs : List A) → All xs → All (filter p xs)
  All-filter p [] h = tt
  All-filter p (x ∷ xs) (q, h) =
      elim (p x) as (λ b. All (if b then x ∷ filter p xs else filter p xs)) [
        | true ↦ (q, All-filter p xs h)
        | false ↦ All-filter p xs h
      ]

module _ {A : Type 0} where
  abbrev pub In : A → List A → Type 0
  In a [] = ⊥
  In a (x ∷ xs) = (a ≡ x) ⊎ In a xs

  pub In-filter : (p : A → Bool) (a : A) (xs : List A) → In a xs → p a ≡ true → In a (filter p xs)
  In-filter p a [] m h = elim m [ ]
  In-filter p a (x ∷ xs) (inl e) h = ground (arith, ap p e)
  In-filter p a (x ∷ xs) (inr m) h = ground (arith, In-filter p a xs m h)

  pub In-of_filter :
      (p : A → Bool) (a : A) (xs : List A) → In a (filter p xs) → In a xs × (p a ≡ true)
  In-of_filter p a [] m = elim m [ ]
  In-of_filter p a (x ∷ xs) m = elim (Bool-cases (p x)) [
    | inl kept ↦ from_cons (In-of_filter p a xs) kept (rw kept at m)
    | inr dropped ↦ let (i, e) = In-of_filter p a xs (rw dropped at m) in (inr i, e)
  ]
    where
      from_cons :
          (In a (filter p xs) → In a xs × (p a ≡ true))
          → p x ≡ true
          → (a ≡ x) ⊎ In a (filter p xs)
          → ((a ≡ x) ⊎ In a xs) × (p a ≡ true)
      from_cons ih h (inl e) = (inl e, rw e h)
      from_cons ih h (inr i) = let (j, e) = ih i in (inr j, e)

  pub All-In : (P : A → Type 0) (a : A) (xs : List A) → All P xs → In a xs → P a
  All-In P a [] h m = elim m [ ]
  All-In P a (x ∷ xs) (p, h) (inl e) = subst P (sym e) p
  All-In P a (x ∷ xs) (p, h) (inr m) = All-In P a xs h m

module _ {A : Type 0} (p : A → Bool) where
  pub In-of_find? : (a : A) (xs : List A) → find? p xs ≡ some a → In a xs × (p a ≡ true)
  In-of_find? a [] h = cc
  In-of_find? a (x ∷ xs) h = elim (Bool-cases (p x)) [
    | inl here ↦ let e : x ≡ a = ground arith in (inl (sym e), rw (← e) here)
    | inr later ↦ let (i, e) = In-of_find? a xs (rw later at h) in (inr i, e)
  ]

  pub find?-append_none : (xs ys : List A) → find? p xs ≡ none → find? p (xs ++ ys) ≡ find? p ys
  find?-append_none [] ys h = refl
  find?-append_none (x ∷ xs) ys h = ground (arith, find?-append_none xs ys)

module _ {A B : Type 0} (f : A → B) where
  pub In-map : (b : B) (xs : List A) → In b (map f xs) ↔ ((a : A) × In a xs × (f a ≡ b))
  In-map b [] = (λ m. elim m [ ], λ (a, m, _). elim m [ ])
  In-map b (x ∷ xs) = (to (In-map b xs).0, from (In-map b xs).1)
    where
      to :
          (In b (map f xs) → (a : A) × In a xs × (f a ≡ b))
          → (b ≡ f x) ⊎ In b (map f xs)
          → (a : A) × ((a ≡ x) ⊎ In a xs) × (f a ≡ b)
      to ih (inl e) = (x, inl refl, sym e)
      to ih (inr m) = let (a, i, e) = ih m in (a, inr i, e)

      from :
          ((a : A) × In a xs × (f a ≡ b) → In b (map f xs))
          → (a : A) × ((a ≡ x) ⊎ In a xs) × (f a ≡ b)
          → (b ≡ f x) ⊎ In b (map f xs)
      from ih (a, inl e, h) = inl (sym h ∙ ap f e)
      from ih (a, inr i, h) = inr (ih (a, i, h))

module _ {A : Type 0} (p q : A → Bool) where
  -- A filter that keeps the first element that passes `p` keeps it first.
  pub find?-filter :
      (xs : List A) (a : A) → find? p xs ≡ some a → q a ≡ true → find? p (filter q xs) ≡ some a
  find?-filter [] a h k = h
  find?-filter (x ∷ xs) a h k = elim (Bool-cases (p x)) [
    | inl here ↦ let e : x ≡ a = ground arith in ground (arith, ap q e, ap p e)
    | inr later ↦ let ih = find?-filter xs a (rw later at h) k in ground (arith, ih)
  ]

module _ {A : Type 0} where
  pub In-append_left : (a : A) (xs ys : List A) → In a xs → In a (xs ++ ys)
  In-append_left a [] ys m = elim m [ ]
  In-append_left a (x ∷ xs) ys (inl e) = inl e
  In-append_left a (x ∷ xs) ys (inr m) = inr (In-append_left a xs ys m)

  pub In-append_right : (a : A) (xs ys : List A) → In a ys → In a (xs ++ ys)
  In-append_right a [] ys m = m
  In-append_right a (x ∷ xs) ys m = inr (In-append_right a xs ys m)

  pub In-append_cases : (a : A) (xs ys : List A) → In a (xs ++ ys) → In a xs ⊎ In a ys
  In-append_cases a [] ys m = inr m
  In-append_cases a (x ∷ xs) ys (inl e) = inl (inl e)
  In-append_cases a (x ∷ xs) ys (inr m) = elim (In-append_cases a xs ys m) [
    | inl l ↦ inl (inr l)
    | inr r ↦ inr r
  ]
