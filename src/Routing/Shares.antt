-- ===== src/Routing/Shares.antt =====
-- The share of the draws that falls to a variant.
use cloud_mesh.Common.{
  ℕ, ◌+◌, ◌-◌, ◌*◌, ◌≤◌, ◌<◌, ◌≡◌, refl, ap, ◌∙◌, ◌⊎◌, inl, inr, false, List, [], ◌∷◌, ◌++◌, leb,
  leb→le, Bool-cases, arith,
}
use cloud_mesh.Routing.Select.{Candidate, pick, total_weight}

abbrev pub weight_sum : List (Candidate × ℕ) → ℕ
weight_sum [] = 0
weight_sum (v ∷ vs) = v.1 + weight_sum vs

pub total_weight-weight_sum : (vs : List (Candidate × ℕ)) → total_weight vs ≡ weight_sum vs
total_weight-weight_sum [] = refl
total_weight-weight_sum ((c, w) ∷ vs) = ap (λ n. w + n) (total_weight-weight_sum vs)

-- The roll, in units of `1 / parts`, lies above the weights of the variants before this one and
-- within its own; the first variant has all rolls below too, and the last one all above.
abbrev pub IsShare : ℕ → ℕ → List (Candidate × ℕ) → Candidate × ℕ → Type 0
IsShare parts roll vs v =
    (before : List (Candidate × ℕ)) × (after : List (Candidate × ℕ)) × (vs ≡ before ++ v ∷ after)
    × ((before ≡ []) ⊎ (weight_sum before * parts < roll))
    × ((after ≡ []) ⊎ (roll ≤ (weight_sum before + v.1) * parts))

beyond : (roll w parts : ℕ) → leb roll (w * parts) ≡ false → w * parts < roll
beyond roll w parts h = ground arith

later_low :
    (parts roll : ℕ) (c : Candidate) (w : ℕ) (before : List (Candidate × ℕ))
    → w * parts < roll
    → (before ≡ []) ⊎ (weight_sum before * parts < roll - w * parts)
    → weight_sum ((c, w) ∷ before) * parts < roll
later_low parts roll c w before past (inl none_before) =
    let nothing : weight_sum before ≡ 0 = ap weight_sum none_before in
    let same : (w + weight_sum before) * parts ≡ w * parts =
      ap (λ n. (w + n) * parts) nothing ∙ omega arith in
    omega (arith, past, same)
later_low parts roll c w before past (inr low) = omega (arith, past, low)

later_high :
    (parts roll w u t : ℕ) → roll - w * parts ≤ (t + u) * parts → roll ≤ (w + t + u) * parts
later_high parts roll w u t high = omega (arith, high)

pub pick-IsShare :
    (parts roll : ℕ) (v : Candidate × ℕ) (vs : List (Candidate × ℕ))
    → IsShare parts roll (v ∷ vs) (pick parts roll v vs)
pick-IsShare parts roll (c, w) [] = ([], [], refl, inl refl, inl refl)
pick-IsShare parts roll (c, w) (next ∷ more) = elim (Bool-cases (leb roll (w * parts))) [
  | inl used_up ↦
      rw (pick, used_up)
        ([], next ∷ more, refl, inl refl, inr (omega (arith, leb→le roll (w * parts) used_up)))
  | inr left ↦
      let past = beyond roll w parts left in
      let (before, after, is, low, high) = pick-IsShare parts (roll - w * parts) next more in
      rw (pick, left)
        (
          (c, w) ∷ before,
          after,
          ap (λ vs. (c, w) ∷ vs) is,
          inr (later_low parts roll c w before past low),
          elim high [
            | inl last ↦ inl last
            | inr within ↦ inr (
                later_high parts roll w (pick parts (roll - w * parts) next more).1
                  (weight_sum before) within)
          ],
        )
]
