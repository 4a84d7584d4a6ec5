-- ===== src/Flags/Split.antt =====
-- Whatever an organization's flags say, its A/B split is one that can be drawn from.
use cloud_mesh.Common.{
  ℕ, zero, suc, ◌≤◌, ◌<◌, ◌≡◌, ap, subst, String, true, some, List, [], ◌∷◌, All, take, get_elem?,
  arith, Bool-cases, inl, inr, get_or,
}
use cloud_mesh.Common.KeyValue.{KeyValue}
use cloud_mesh.CircuitBreaker.{Circuit}
use cloud_mesh.Routing.{ModelRegistry}
use cloud_mesh.Routing.Select.{
  Candidate, AbConfig, total_weight, pick_variant, open_variants, select_ab_variant,
}
use cloud_mesh.Routing.Variants.{open_variants-All, picked}
use cloud_mesh.Json.{
  JsonValue, Fields, no_fields, field, null, boolean, number, negative, text, array, object,
}
use cloud_mesh.Flags.{
  is_variant, add_variant, variants, some_variants, coerce_ab_config, ab_config_max_weight,
  ab_config_max_variants,
}

-- A weight that a split may have.
abbrev pub IsWeight : String × ℕ → Type 0
IsWeight (name, weight) = (0 < weight) × (weight ≤ ab_config_max_weight)

is_variant-IsWeight :
    (name : String) (weight : ℕ) → is_variant name weight ≡ true → IsWeight (name, weight)
is_variant-IsWeight name weight h = (ground arith, ground arith)

add_variant-All :
    (name : String) (value : JsonValue) (config : AbConfig)
    → All IsWeight config
    → All IsWeight (add_variant name value config)
add_variant-All name (number weight) config hs = elim (Bool-cases (is_variant name weight)) [
  | inl good ↦ rw good (is_variant-IsWeight name weight good, hs)
  | inr bad ↦ rw bad hs
]
add_variant-All name null config hs = hs
add_variant-All name (boolean b) config hs = hs
add_variant-All name negative config hs = hs
add_variant-All name (text t) config hs = hs
add_variant-All name array config hs = hs
add_variant-All name (object entries) config hs = hs

variants-All : (entries : Fields) → All IsWeight (variants entries)
variants-All no_fields = tt
variants-All (field name value more) =
    add_variant-All name value (variants more) (variants-All more)

take-All : (n : ℕ) (config : AbConfig) → All IsWeight config → All IsWeight (take n config)
take-All zero config hs = tt
take-All (suc n) [] hs = tt
take-All (suc n) (v ∷ vs) (h, hs) = (h, take-All n vs hs)

some_variants-All :
    (all config : AbConfig)
    → All IsWeight all
    → some_variants all ≡ some config
    → All IsWeight config
some_variants-All [] config hs h = cc
some_variants-All (v ∷ vs) config hs h =
    subst (All IsWeight) (ap (λ o. get_or o config) h) (take-All ab_config_max_variants (v ∷ vs) hs)

coerce_ab_config-All :
    (raw : JsonValue) (config : AbConfig) → coerce_ab_config raw ≡ some config → All IsWeight config
unfolding coerce_ab_config
coerce_ab_config-All (object entries) config h =
    some_variants-All (variants entries) config (variants-All entries) h
coerce_ab_config-All null config h = cc
coerce_ab_config-All (boolean b) config h = cc
coerce_ab_config-All (number n) config h = cc
coerce_ab_config-All negative config h = cc
coerce_ab_config-All (text t) config h = cc
coerce_ab_config-All array config h = cc

get_elem-All :
    (config : AbConfig) (i : ℕ) (v : String × ℕ)
    → All IsWeight config
    → get_elem? config i ≡ some v
    → IsWeight v
get_elem-All [] i v hs h = cc
get_elem-All (x ∷ xs) zero v (k, ks) h = subst IsWeight (ap (λ o. get_or o v) h) k
get_elem-All (x ∷ xs) (suc i) v (k, ks) h = get_elem-All xs i v ks h

within_total : (vs : List (Candidate × ℕ)) (n : ℕ) → total_weight vs ≤ n → All (λ v. v.1 ≤ n) vs
within_total [] n h = tt
within_total ((c, w) ∷ vs) n h = (omega arith, within_total vs n (omega arith))

module _ (redis : KeyValue Circuit) (registry : ModelRegistry) (s : redis.Store) where
  pick_variant_total :
      (parts draw : ℕ) (vs : List (Candidate × ℕ)) (c : Candidate) (w total : ℕ)
      → pick_variant redis registry parts draw vs ≡ some (c, w, total)
      → total_weight vs ≡ total
  pick_variant_total parts draw [] c w total h = cc
  pick_variant_total parts draw (v ∷ vs) c w total h =
      ap (λ o. let q : Candidate × ℕ × ℕ = get_or o (c, w, total) in q.2) h

  -- Whatever JSON the flags were read from, a variant that is picked by its split has a positive
  -- weight which is at most the total, so that its normalized weight is a positive fraction of 1.
  pub select_ab_variant_normalized :
      (raw : JsonValue) (config : AbConfig) (parts draw : ℕ) (c : Candidate) (w total : ℕ)
      → coerce_ab_config raw ≡ some config
      → select_ab_variant redis registry parts draw s config ≡ some (c, w, total)
      → (0 < w) × (w ≤ total)
  unfolding select_ab_variant
  select_ab_variant_normalized raw config parts draw c w total is h =
      let vs = open_variants redis registry s config in
      let weights = coerce_ab_config-All raw config is in
      let positive : 0 < w =
        picked redis registry s (λ v. 0 < v.1) parts draw vs c w total
          (open_variants-All redis registry s (λ v. 0 < v.1) config
            (λ i m u d at e. (get_elem-All config i (m, u) weights at).0))
          h in
      let at_most : w ≤ total_weight vs =
        picked redis registry s (λ v. v.1 ≤ total_weight vs) parts draw vs c w total
          (within_total vs (total_weight vs) (omega arith)) h in
      (positive, subst (λ n. w ≤ n) (pick_variant_total parts draw vs c w total h) at_most)
