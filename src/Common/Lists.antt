-- ===== src/Common/Lists.antt =====
-- Lists measured and cut by native numbers, under the library's names.
use Prim.Native.Nat.{ℕ, zero, suc, ◌+◌, ◌≤◌, min}
use mathlib.Core.Path.{◌≡◌, refl, ap}
use mathlib.Core.List.{List, [], ◌∷◌, ◌++◌}
use mathlib.Core.Logic.{◌⊎◌, inl, inr}
use mathlib.Core.Bool.{Bool, true, false}
use mathlib.Core.Option.{Option, none, some}
use native.Mathlib.Omega.{arith}
use cloud_mesh.Common.Tests.{Bool-cases}

module _ {ℓ} {A : Type ℓ} where
  abbrev pub length : List A → ℕ
  length [] = 0
  length (x ∷ xs) = suc (length xs)

  abbrev pub take : ℕ → List A → List A
  take zero xs = []
  take (suc n) [] = []
  take (suc n) (x ∷ xs) = x ∷ take n xs

  abbrev pub get_elem? : List A → ℕ → Option A
  get_elem? [] i = none
  get_elem? (x ∷ xs) zero = some x
  get_elem? (x ∷ xs) (suc i) = get_elem? xs i

  abbrev pub get_last? : List A → Option A
  get_last? [] = none
  get_last? (x ∷ []) = some x
  get_last? (x ∷ y ∷ xs) = get_last? (y ∷ xs)

  -- `array.filter`, over a Boolean test.
  abbrev pub filter : (A → Bool) → List A → List A
  filter p [] = []
  filter p (x ∷ xs) = elim (p x) [ true ↦ x ∷ filter p xs | false ↦ filter p xs ]

  -- `array.some`.
  abbrev pub any : (A → Bool) → List A → Bool
  any p [] = false
  any p (x ∷ xs) = elim (p x) [ true ↦ true | false ↦ any p xs ]

  abbrev pub All {κ} : (A → Type κ) → List A → Type κ
  All P [] = Unit
  All P (x ∷ xs) = P x × All P xs

  pub length-append : (xs ys : List A) → length (xs ++ ys) ≡ length xs + length ys
  length-append [] ys = omega arith
  length-append (x ∷ xs) ys = omega (arith, length-append xs ys)

  pub length-take : (n : ℕ) (xs : List A) → length (take n xs) ≡ min n (length xs)
  length-take zero xs = omega arith
  length-take (suc n) [] = omega arith
  length-take (suc n) (x ∷ xs) = omega (arith, length-take n xs)

  pub length-filter-le : (p : A → Bool) (xs : List A) → length (filter p xs) ≤ length xs
  length-filter-le p [] = omega arith
  length-filter-le p (x ∷ xs) = ground (arith, length-filter-le p xs)

  -- What the test is good for, of the elements that pass it.
  pub filter-All {κ} :
      (p : A → Bool) (P : A → Type κ) (xs : List A)
      → ((x : A) → p x ≡ true → P x)
      → All P (filter p xs)
  filter-All p P [] h = tt
  filter-All p P (x ∷ xs) h = elim (Bool-cases (p x)) [
    | inl passes ↦ rw (filter, passes) (h x passes, filter-All p P xs h)
    | inr fails ↦ rw (filter, fails) (filter-All p P xs h)
  ]

  pub All-filter {κ} :
      (p : A → Bool) (P Q : A → Type κ) (xs : List A)
      → ((x : A) → P x → p x ≡ true → Q x)
      → All P xs
      → All Q (filter p xs)
  All-filter p P Q [] f h = tt
  All-filter p P Q (x ∷ xs) f (h, hs) = elim (Bool-cases (p x)) [
    | inl passes ↦ rw (filter, passes) (f x h passes, All-filter p P Q xs f hs)
    | inr fails ↦ rw (filter, fails) (All-filter p P Q xs f hs)
  ]

  -- A second test that is at least as strict makes the first one needless.
  pub filter-filter :
      (p q : A → Bool) (xs : List A)
      → ((x : A) → q x ≡ true → p x ≡ true)
      → filter q (filter p xs) ≡ filter q xs
  filter-filter p q [] h = refl
  filter-filter p q (x ∷ xs) h = elim (Bool-cases (q x)) [
    | inl in_both ↦
        rw (filter, h x in_both, filter, in_both) (ap (λ l. x ∷ l) (filter-filter p q xs h))
    | inr out ↦ elim (Bool-cases (p x)) [
      | inl passes ↦ rw (filter, passes, filter, out) (filter-filter p q xs h)
      | inr fails ↦ rw (filter, fails, filter, out) (filter-filter p q xs h)
    ]
  ]

  pub All-map {κ} : (P Q : A → Type κ) (xs : List A) → ((x : A) → P x → Q x) → All P xs → All Q xs
  All-map P Q [] f h = tt
  All-map P Q (x ∷ xs) f (h, hs) = (f x h, All-map P Q xs f hs)

module _ {A : Type 0} where
  -- Membership.
  abbrev pub IsIn : A → List A → Type 0
  IsIn a [] = true ≡ false
  IsIn a (x ∷ xs) = (x ≡ a) ⊎ IsIn a xs

  pub append-IsIn : (a : A) (xs ys : List A) → IsIn a xs → IsIn a (xs ++ ys)
  append-IsIn a [] ys h = cc
  append-IsIn a (x ∷ xs) ys (inl same) = inl same
  append-IsIn a (x ∷ xs) ys (inr later) = inr (append-IsIn a xs ys later)
