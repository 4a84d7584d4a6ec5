-- ===== src/Routing/Variants.antt =====
-- The variants of an A/B split that are available, and the one that is picked.
use cloud_mesh.Common.{
  ℕ, ◌≡◌, refl, ap, String, true, false, Option, none, some, List, [], ◌∷◌, All, Bool-cases, get_or,
  subst, inl, inr, leb, ◌*◌, ◌-◌, suc, get_elem?, ◌⊎◌, sym, ◌∙◌,
}
use cloud_mesh.Common.KeyValue.{KeyValue}
use cloud_mesh.CircuitBreaker.{Circuit}
use cloud_mesh.Routing.{ModelRegistry}
use cloud_mesh.Routing.Select.{
  Candidate, AbConfig, candidate_of, cons_some, resolve_open_candidates, weighted_some,
  open_variants, pick, pick_variant, select_ab_variant, variant_of, total_weight,
}
use cloud_mesh.Routing.Resolved.{IsAvailable, IsShut, candidate_of-IsAvailable, candidate_of-IsShut}
use cloud_mesh.Routing.Shares.{weight_sum, total_weight-weight_sum, IsShare, pick-IsShare}

pub pick-All :
    (P : Candidate × ℕ → Type 0) (parts roll : ℕ) (v : Candidate × ℕ) (vs : List (Candidate × ℕ))
    → P v
    → All P vs
    → P (pick parts roll v vs)
pick-All P parts roll (c, w) [] h hs = h
pick-All P parts roll (c, w) (next ∷ more) h (k, ks) = elim (Bool-cases (leb roll (w * parts))) [
  | inl used_up ↦ rw (used_up, pick) h
  | inr left ↦ rw (left, pick) (pick-All P parts (roll - w * parts) next more k ks)
]

module _ (redis : KeyValue Circuit) (registry : ModelRegistry) (s : redis.Store) where
  -- No available candidate among the models.
  abbrev pub NoneAvailable : List String → Type 0
  NoneAvailable ms = All (IsShut redis registry s) ms

  abbrev pub Exhausted : Option AbConfig → Type 0
  Exhausted none = Unit
  Exhausted (some config) = All (λ v. IsShut redis registry s v.0) config

  -- The available variants, each with its weight and in the order of the configuration.
  abbrev pub AreOpen : AbConfig → List (Candidate × ℕ) → Type 0
  AreOpen [] vs = vs ≡ []
  AreOpen ((m, w) ∷ config) vs =
      (IsShut redis registry s m × AreOpen config vs)
      ⊎ ((c : Candidate) × (rest : List (Candidate × ℕ)) × (c.model ≡ m)
          × IsAvailable redis registry s c
          × (vs ≡ (c, w) ∷ rest)
          × AreOpen config rest)

  -- The variant is the one in whose share of the available variants' total weight the draw falls.
  abbrev pub IsDrawn : Option AbConfig → ℕ → ℕ → Candidate → ℕ → ℕ → Type 0
  IsDrawn none parts draw c w total = true ≡ false
  IsDrawn (some config) parts draw c w total =
      (vs : List (Candidate × ℕ)) × AreOpen config vs
      × (total ≡ weight_sum vs)
      × IsShare parts (draw * total) vs (c, w)

  weighted_some-All :
      (P : Candidate × ℕ → Type 0) (o : Option Candidate) (w : ℕ) (cs : List (Candidate × ℕ))
      → ((c : Candidate) → o ≡ some c → P (c, w))
      → All P cs
      → All P (weighted_some redis registry o w cs)
  weighted_some-All P none w cs h hs = hs
  weighted_some-All P (some c) w cs h hs = (h c refl, hs)

  pub open_variants-All :
      (P : Candidate × ℕ → Type 0) (config : AbConfig)
      → ((i : ℕ) (m : String) (w : ℕ) (c : Candidate)
          → get_elem? config i ≡ some (m, w)
          → candidate_of redis registry s m ≡ some c
          → P (c, w))
      → All P (open_variants redis registry s config)
  unfolding open_variants
  open_variants-All P [] h = tt
  open_variants-All P ((m, w) ∷ config) h =
      weighted_some-All P (candidate_of redis registry s m) w _ (λ c e. h 0 m w c refl e)
        (open_variants-All P config (λ i n v c at e. h (suc i) n v c at e))

  weighted_some-empty :
      (o : Option Candidate) (w : ℕ) (cs : List (Candidate × ℕ))
      → weighted_some redis registry o w cs ≡ []
      → (o ≡ none) × (cs ≡ [])
  weighted_some-empty none w cs h = (refl, h)
  weighted_some-empty (some c) w cs h = cc

  open_variants-empty :
      (config : AbConfig) → open_variants redis registry s config ≡ [] → Exhausted (some config)
  unfolding open_variants
  open_variants-empty [] h = tt
  open_variants-empty ((m, w) ∷ config) h =
      let (here, later) = weighted_some-empty (candidate_of redis registry s m) w _ h in
      (candidate_of-IsShut redis registry s m here, open_variants-empty config later)

  cons_some-empty :
      (o : Option Candidate) (cs : List Candidate)
      → cons_some redis registry o cs ≡ []
      → (o ≡ none) × (cs ≡ [])
  cons_some-empty none cs h = (refl, h)
  cons_some-empty (some c) cs h = cc

  pub resolve_open_candidates-empty :
      (ms : List String) → resolve_open_candidates redis registry s ms ≡ [] → NoneAvailable ms
  unfolding resolve_open_candidates
  resolve_open_candidates-empty [] h = tt
  resolve_open_candidates-empty (m ∷ ms) h =
      let (here, later) = cons_some-empty (candidate_of redis registry s m) _ h in
      (candidate_of-IsShut redis registry s m here, resolve_open_candidates-empty ms later)

  pick_variant-empty :
      (parts draw : ℕ) (vs : List (Candidate × ℕ))
      → pick_variant redis registry parts draw vs ≡ none
      → vs ≡ []
  pick_variant-empty parts draw [] h = refl
  pick_variant-empty parts draw (v ∷ vs) h = cc

  pub variant_of-Exhausted :
      (parts draw : ℕ) (config : Option AbConfig)
      → variant_of redis registry parts draw s config ≡ none
      → Exhausted config
  unfolding select_ab_variant
  variant_of-Exhausted parts draw none h = tt
  variant_of-Exhausted parts draw (some config) h =
      open_variants-empty config
        (pick_variant-empty parts draw (open_variants redis registry s config) h)

  pub picked :
      (P : Candidate × ℕ → Type 0) (parts draw : ℕ) (vs : List (Candidate × ℕ)) (c : Candidate)
      (w total : ℕ)
      → All P vs
      → pick_variant redis registry parts draw vs ≡ some (c, w, total)
      → P (c, w)
  picked P parts draw [] c w total hs h = cc
  picked P parts draw (v ∷ vs) c w total (p, ps) h =
      let taken = pick parts (draw * total_weight (v ∷ vs)) v vs in
      let is : taken ≡ (c, w) =
        ap (λ o. let q : Candidate × ℕ × ℕ = get_or o (c, w, total) in (q.0, q.1)) h in
      subst P is (pick-All P parts (draw * total_weight (v ∷ vs)) v vs p ps)

  weighted_some-AreOpen :
      (m : String) (o : Option Candidate) (w : ℕ) (config : AbConfig) (vs : List (Candidate × ℕ))
      → candidate_of redis registry s m ≡ o
      → AreOpen config vs
      → AreOpen ((m, w) ∷ config) (weighted_some redis registry o w vs)
  weighted_some-AreOpen m none w config vs is h = inl (candidate_of-IsShut redis registry s m is, h)
  weighted_some-AreOpen m (some c) w config vs is h =
      let (same, available) = candidate_of-IsAvailable redis registry s m c is in
      inr (c, vs, same, available, refl, h)

  open_variants-AreOpen :
      (config : AbConfig) → AreOpen config (open_variants redis registry s config)
  unfolding open_variants
  open_variants-AreOpen [] = refl
  open_variants-AreOpen ((m, w) ∷ config) =
      weighted_some-AreOpen m (candidate_of redis registry s m) w config _ refl
        (open_variants-AreOpen config)

  pick_variant-IsShare :
      (parts draw : ℕ) (vs : List (Candidate × ℕ)) (c : Candidate) (w total : ℕ)
      → pick_variant redis registry parts draw vs ≡ some (c, w, total)
      → (total ≡ weight_sum vs) × IsShare parts (draw * total) vs (c, w)
  pick_variant-IsShare parts draw [] c w total h = cc
  pick_variant-IsShare parts draw (v ∷ vs) c w total h =
      let taken = pick parts (draw * total_weight (v ∷ vs)) v vs in
      let is : taken ≡ (c, w) =
        ap (λ o. let q : Candidate × ℕ × ℕ = get_or o (c, w, total) in (q.0, q.1)) h in
      let sum : total_weight (v ∷ vs) ≡ total =
        ap (λ o. let q : Candidate × ℕ × ℕ = get_or o (c, w, total) in q.2) h in
      (
        sym sum ∙ total_weight-weight_sum (v ∷ vs),
        subst (λ (t : ℕ). IsShare parts (draw * t) (v ∷ vs) (c, w)) sum
            (subst (IsShare parts (draw * total_weight (v ∷ vs)) (v ∷ vs)) is
              (pick-IsShare parts (draw * total_weight (v ∷ vs)) v vs)),
      )

  pub variant_of-IsDrawn :
      (parts draw : ℕ) (config : Option AbConfig) (c : Candidate) (w total : ℕ)
      → variant_of redis registry parts draw s config ≡ some (c, w, total)
      → IsDrawn config parts draw c w total
  unfolding select_ab_variant
  variant_of-IsDrawn parts draw none c w total h = cc
  variant_of-IsDrawn parts draw (some config) c w total h =
      let vs = open_variants redis registry s config in
      let (sum, share) = pick_variant-IsShare parts draw vs c w total h in
      (vs, open_variants-AreOpen config, sum, share)
