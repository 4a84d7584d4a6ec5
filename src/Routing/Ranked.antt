-- ===== src/Routing/Ranked.antt =====
-- Sorting candidates by their exact scores puts a best one first.
use native.Mathlib.Nat.{le_of_mul-le-mul_right, mul-le-mul_right}
use cloud_mesh.Common.{
  ℕ, ◌*◌, ◌≤◌, ◌<◌, ◌≡◌, true, false, List, [], ◌∷◌, arith, leb, All, Bool-cases, inl, inr, leb→le,
  IsIn, refl, subst,
}
use cloud_mesh.Billing.Pricing.{ModelPricing}
use cloud_mesh.Routing.Select.{
  Score, ScoredCandidate, at_most, place, ranked, compute_routing_score, ProviderStats,
  RoutingWeights,
}

le→leb : (a b : ℕ) → a ≤ b → leb a b ≡ true
le→leb a b h = ground arith

-- Fractions are compared across; the middle one has a denominator.
cross : (an ad bn bd cn cd : ℕ) → an * bd ≤ bn * ad → bn * cd ≤ cn * bd → 0 < bd → an * cd ≤ cn * ad
cross an ad bn bd cn cd h k pos =
    let first : an * bd * cd ≤ bn * ad * cd = mul-le-mul_right cd h in
    let second : bn * cd * ad ≤ cn * bd * ad = mul-le-mul_right ad k in
    let both : an * cd * bd ≤ cn * ad * bd = omega (arith, first, second) in
    le_of_mul-le-mul_right both pos

at_most_trans :
    (a b c : Score) → at_most a b ≡ true → at_most b c ≡ true → 0 < b.den → at_most a c ≡ true
at_most_trans a b c h k pos =
    le→leb (a.num * c.den) (c.num * a.den)
      (cross a.num a.den b.num b.den c.num c.den (leb→le _ _ h) (leb→le _ _ k) pos)

at_most_total : (a b : Score) → at_most a b ≡ false → at_most b a ≡ true
at_most_total a b h = ground arith

abbrev pub HasValue : ScoredCandidate → Type 0
HasValue x = 0 < x.score.den

abbrev pub Below : Score → ScoredCandidate → Type 0
Below top x = at_most x.score top ≡ true

abbrev pub IsRanked : List ScoredCandidate → Type 0
IsRanked [] = Unit {0}
IsRanked (x ∷ xs) = All (Below x.score) xs × IsRanked xs

module _ (P : ScoredCandidate → Type 0) where
  place-All :
      (x : ScoredCandidate) (xs : List ScoredCandidate) → P x → All P xs → All P (place x xs)
  place-All x [] h hs = (h, tt)
  place-All x (y ∷ ys) h (k, ks) = elim (Bool-cases (at_most y.score x.score)) [
    | inl here ↦ rw (here, place) (h, (k, ks))
    | inr later ↦ rw (later, place) (k, place-All x ys h ks)
  ]

  All-place :
      (x : ScoredCandidate) (xs : List ScoredCandidate) → All P (place x xs) → P x × All P xs
  All-place x [] h = h
  All-place x (y ∷ ys) h = elim (Bool-cases (at_most y.score x.score)) [
    | inl here ↦ let h' : All P (x ∷ y ∷ ys) = rw (here, place) at h in h'
    | inr later ↦
        let h' : All P (y ∷ place x ys) = rw (later, place) at h in
        let (p, ps) = All-place x ys h'.1 in (p, (h'.0, ps))
  ]

  pub ranked-All : (xs : List ScoredCandidate) → All P xs → All P (ranked xs)
  ranked-All [] h = tt
  ranked-All (x ∷ xs) (h, hs) = place-All x (ranked xs) h (ranked-All xs hs)

  pub All-ranked : (xs : List ScoredCandidate) → All P (ranked xs) → All P xs
  All-ranked [] h = tt
  All-ranked (x ∷ xs) h = let (p, ps) = All-place x (ranked xs) h in (p, All-ranked xs ps)

place-here : (x : ScoredCandidate) (xs : List ScoredCandidate) → IsIn x (place x xs)
place-here x [] = inl refl
place-here x (y ∷ ys) = elim (Bool-cases (at_most y.score x.score)) [
  | inl here ↦ rw (here, place) (inl refl)
  | inr later ↦ rw (later, place) (inr (place-here x ys))
]

place-IsIn : (x z : ScoredCandidate) (xs : List ScoredCandidate) → IsIn z xs → IsIn z (place x xs)
place-IsIn x z [] h = cc
place-IsIn x z (y ∷ ys) h = elim (Bool-cases (at_most y.score x.score)) [
  | inl here ↦ rw (here, place) (inr h)
  | inr later ↦
      rw (later, place) (elim h [ inl same ↦ inl same | inr there ↦ inr (place-IsIn x z ys there) ])
]

-- Nothing is lost in the sort.
pub ranked-IsIn : (x : ScoredCandidate) (xs : List ScoredCandidate) → IsIn x xs → IsIn x (ranked xs)
ranked-IsIn x [] h = cc
ranked-IsIn x (y ∷ ys) (inl same) =
    subst (λ z. IsIn z (ranked (y ∷ ys))) same (place-here y (ranked ys))
ranked-IsIn x (y ∷ ys) (inr there) = place-IsIn y x (ranked ys) (ranked-IsIn x ys there)

Below-trans :
    (x y : ScoredCandidate) (zs : List ScoredCandidate)
    → HasValue y
    → at_most y.score x.score ≡ true
    → All (Below y.score) zs
    → All (Below x.score) zs
Below-trans x y [] v h hs = tt
Below-trans x y (z ∷ zs) v h (k, ks) =
    (at_most_trans z.score y.score x.score k h v, Below-trans x y zs v h ks)

place-IsRanked :
    (x : ScoredCandidate) (xs : List ScoredCandidate)
    → All HasValue xs
    → IsRanked xs
    → IsRanked (place x xs)
place-IsRanked x [] v r = (tt, tt)
place-IsRanked x (y ∷ ys) (v, vs) (top, r) = elim (Bool-cases (at_most y.score x.score)) [
  | inl here ↦ rw (here, place) ((here, Below-trans x y ys v here top), (top, r))
  | inr later ↦
      rw (later, place)
        (
          place-All (Below y.score) x ys (at_most_total y.score x.score later) top,
          place-IsRanked x ys vs r,
        )
]

pub ranked-IsRanked : (xs : List ScoredCandidate) → All HasValue xs → IsRanked (ranked xs)
ranked-IsRanked [] v = tt
ranked-IsRanked (x ∷ xs) (v, vs) =
    place-IsRanked x (ranked xs) (ranked-All HasValue xs vs) (ranked-IsRanked xs vs)

positive : (a b c : ℕ) → 0 < a → 0 < b → 0 < c → 0 < a * b * c
positive a b c h k l = grind arith

pub compute_routing_score_value :
    (stats : ProviderStats) (p : ModelPricing) (w : RoutingWeights)
    → 0 < (compute_routing_score stats p w).den
unfolding compute_routing_score
compute_routing_score_value stats p w = positive _ _ _ (ground arith) (ground arith) (ground arith)
