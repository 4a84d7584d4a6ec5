-- ===== src/Routing/Split.antt =====
-- `selectAbVariant`: a draw picks the variant in whose share of the total weight it falls.
use cloud_mesh.Common.{
  ℕ, ◌≡◌, refl, ap, some, List, [], ◌⊎◌, ◌∷◌, ◌++◌, ◌+◌, ◌*◌, ◌-◌, ◌≤◌, ◌<◌, arith, leb, inl, inr,
  true, false, ◌∙◌,
}
use cloud_mesh.Common.KeyValue.{KeyValue}
use cloud_mesh.CircuitBreaker.{Circuit}
use cloud_mesh.Routing.{ModelRegistry}
use cloud_mesh.Routing.Select.{
  Candidate, AbConfig, total_weight, pick, pick_variant, open_variants, select_ab_variant,
}

over : (roll w p : ℕ) → w * p < roll → leb roll (w * p) ≡ false
over roll w p h = ground arith

within : (roll w p : ℕ) → roll ≤ w * p → leb roll (w * p) ≡ true
within roll w p h = ground arith

abbrev pick_in : ℕ → ℕ → Candidate × ℕ → List (Candidate × ℕ) → Candidate × ℕ
pick_in parts roll v [] = v
pick_in parts roll v (first ∷ rest) = pick parts roll first rest

pick_here :
    (parts roll : ℕ) (c : Candidate) (w : ℕ) (after : List (Candidate × ℕ))
    → roll ≤ w * parts
    → pick parts roll (c, w) after ≡ (c, w)
pick_here parts roll c w [] h = refl
pick_here parts roll c w (next ∷ more) h = rw (within roll w parts h, pick) refl

pick_later :
    (parts roll : ℕ) (c d : Candidate) (w u : ℕ) (more after : List (Candidate × ℕ))
    → u * parts < roll
    → pick parts roll (d, u) (more ++ (c, w) ∷ after)
      ≡ pick_in parts (roll - u * parts) (c, w) (more ++ (c, w) ∷ after)
pick_later parts roll c d w u [] after h = rw (over roll u parts h, pick) refl
pick_later parts roll c d w u (x ∷ xs) after h = rw (over roll u parts h, pick) refl

shares :
    (u t w p roll : ℕ)
    → (u + t) * p < roll
    → roll ≤ (u + t + w) * p
    → (u * p < roll) × (t * p < roll - u * p) × (roll - u * p ≤ (t + w) * p)
shares u t w p roll lo hi = (omega arith, omega arith, omega arith)

-- The roll is used up by the variant after `before`.
pick_share :
    (parts roll : ℕ) (before : List (Candidate × ℕ)) (c : Candidate) (w : ℕ)
    (after : List (Candidate × ℕ))
    → (before ≡ []) ⊎ (total_weight before * parts < roll)
    → roll ≤ (total_weight before + w) * parts
    → pick_in parts roll (c, w) (before ++ (c, w) ∷ after) ≡ (c, w)
pick_share parts roll [] c w after lo hi = pick_here parts roll c w after (omega (arith, hi))
pick_share parts roll ((d, u) ∷ before) c w after (inl none_before) hi = cc
pick_share parts roll ((d, u) ∷ before) c w after (inr lo) hi =
    let (first, lo', hi') = shares u (total_weight before) w parts roll lo hi in
    pick_later parts roll c d w u before after first
    ∙ pick_share parts (roll - u * parts) before c w after (inr lo') hi'

module _ (redis : KeyValue Circuit) (registry : ModelRegistry) where
  pick_variant_shares :
      (parts draw : ℕ) (before : List (Candidate × ℕ)) (c : Candidate) (w : ℕ)
      (after : List (Candidate × ℕ))
      → (before ≡ [])
        ⊎ (total_weight before * parts < draw * total_weight (before ++ (c, w) ∷ after))
      → draw * total_weight (before ++ (c, w) ∷ after) ≤ (total_weight before + w) * parts
      → pick_variant redis registry parts draw (before ++ (c, w) ∷ after)
        ≡ some (c, w, total_weight (before ++ (c, w) ∷ after))
  pick_variant_shares parts draw [] c w after lo hi =
      let total = total_weight ((c, w) ∷ after) in
      ap (λ (q : Candidate × ℕ). some (q.0, q.1, total))
        (pick_share parts (draw * total) [] c w after lo hi)
  pick_variant_shares parts draw (v ∷ before) c w after lo hi =
      let total = total_weight (v ∷ before ++ (c, w) ∷ after) in
      ap (λ (q : Candidate × ℕ). some (q.0, q.1, total))
        (pick_share parts (draw * total) (v ∷ before) c w after lo hi)

  module _ (s : redis.Store) where
    -- The available variants, in the order of the configuration, share the draws in proportion to
    -- their weights: a draw in the share of a variant, above the weights before it and up to its own,
    -- picks that variant, with the total weight of the available ones. A draw of 0 picks the first.
    pub select_ab_variant_shares :
        (config : AbConfig) (parts draw : ℕ) (before : List (Candidate × ℕ)) (c : Candidate) (w : ℕ)
        (after : List (Candidate × ℕ))
        → open_variants redis registry s config ≡ before ++ (c, w) ∷ after
        → (before ≡ [])
          ⊎ (total_weight before * parts
              < draw * total_weight (open_variants redis registry s config))
        → draw * total_weight (open_variants redis registry s config)
          ≤ (total_weight before + w) * parts
        → select_ab_variant redis registry parts draw s config
          ≡ some (c, w, total_weight (open_variants redis registry s config))
    unfolding select_ab_variant
    select_ab_variant_shares config parts draw before c w after e lo hi =
        let all = before ++ (c, w) ∷ after in
        let lo' : (before ≡ []) ⊎ (total_weight before * parts < draw * total_weight all) =
          rw e at lo in
        let hi' : draw * total_weight all ≤ (total_weight before + w) * parts = rw e at hi in
        rw e (pick_variant_shares parts draw before c w after lo' hi')
