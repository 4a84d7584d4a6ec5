-- ===== src/Routing/Select.antt =====
-- apps/gateway/src/lib/routing.ts, routingScoring.ts and resolveModel.ts. A weight of a preset is a
-- number of tenths, a score an exact fraction of a tenth, and the weights of an A/B split whole
-- numbers of a common unit. A random number is `draw` parts out of `parts`.
use cloud_mesh.Common.{
  ℕ, ◌+◌, ◌-◌, ◌*◌, max, String, Bool, true, false, Option, none, some, is_some, List, [], ◌∷◌, leb,
  ltb, any, str_eq, if◌then◌else◌,
}
use cloud_mesh.Common.KeyValue.{KeyValue}
use cloud_mesh.CircuitBreaker.{
  Circuit, CircuitState, opened, get_circuit_state, Outcome, returned, threw,
}
use cloud_mesh.Billing.Pricing.{ModelPricing, get_model_pricing}
use cloud_mesh.Routing.{ResolvedModel, ModelRegistry, resolve}

pub record RoutingWeights : Type 0 where
  pub latency : ℕ
  pub cost : ℕ
  pub reliability : ℕ

pub data RoutingPresetName : Type 0 where
  cost_optimized latency_optimized balanced : RoutingPresetName

abbrev pub routing_presets : RoutingPresetName → RoutingWeights
routing_presets cost_optimized = record { latency = 2; cost = 6; reliability = 2 }
routing_presets latency_optimized = record { latency = 6; cost = 1; reliability = 3 }
routing_presets balanced = record { latency = 3; cost = 4; reliability = 3 }

-- `successRate` is `successes` out of `sample_count`.
pub record ProviderStats : Type 0 where
  pub sample_count : ℕ
  pub p99_ms : ℕ
  pub successes : ℕ

pub record Score : Type 0 where
  pub num : ℕ
  pub den : ℕ

abbrev pub at_most : Score → Score → Bool
at_most a b = leb (a.num * b.den) (b.num * a.den)

-- The inverse of the cost of a thousand tokens is `2_000_000` over the sum of the two rates, of
-- which the floor on the cost leaves at least 2.
unfoldable pub compute_routing_score : ProviderStats → ModelPricing → RoutingWeights → Score
compute_routing_score stats p w =
    let known = ltb 0 stats.sample_count in
    let p99 = if known then max stats.p99_ms 1 else 1000 in
    let successes = if known then stats.successes else 95 in
    let samples = if known then stats.sample_count else 100 in
    let rate = max (p.input_per_million + p.output_per_million) 2 in
    record {
      num =
          w.latency * rate * samples
          + w.cost * 2_000_000 * p99 * samples
          + w.reliability * successes * p99 * rate;
      den = p99 * rate * samples;
    }

pub record Candidate : Type 0 where
  pub model : String
  pub resolved : ResolvedModel

pub record ScoredCandidate : Type 0 where
  pub candidate : Candidate
  pub score : Score

pub data RouteError : Type 0 where
  unknown_model : String → RouteError
  all_providers_unavailable : RouteError

pub data RouteDecision : Type 0 where
  explicit : ResolvedModel → RouteDecision
  ab_variant : Candidate → ℕ → ℕ → RouteDecision
  scored : ScoredCandidate → RoutingPresetName → List ScoredCandidate → RouteDecision

abbrev pub AbConfig : Type 0
AbConfig = List (String × ℕ)

-- `available`, each with its weight.
abbrev pub total_weight : List (Candidate × ℕ) → ℕ
total_weight [] = 0
total_weight ((c, w) ∷ cs) = w + total_weight cs

-- The loop that takes weights off the roll, all in units of `1 / parts`; the last variant is taken
-- if the roll is never used up.
abbrev pub pick : ℕ → ℕ → Candidate × ℕ → List (Candidate × ℕ) → Candidate × ℕ
pick parts roll (c, w) [] = (c, w)
pick parts roll (c, w) (next ∷ more) =
    if leb roll (w * parts) then (c, w) else pick parts (roll - w * parts) next more

-- A stable sort, best first.
abbrev pub place : ScoredCandidate → List ScoredCandidate → List ScoredCandidate
place x [] = x ∷ []
place x (y ∷ ys) = if at_most y.score x.score then x ∷ y ∷ ys else y ∷ place x ys

abbrev pub ranked : List ScoredCandidate → List ScoredCandidate
ranked [] = []
ranked (x ∷ xs) = place x (ranked xs)

module _ (redis : KeyValue Circuit) (registry : ModelRegistry) where
  open redis use {Store}

  abbrev pub is_open : CircuitState → Bool
  is_open opened = true
  is_open _ = false

  abbrev pub if_available : Store → String → Option ResolvedModel → Option Candidate
  if_available s model none = none
  if_available s model (some r) =
      if is_open (get_circuit_state redis s r.provider)
      then none
      else some (record { model = model; resolved = r })

  unfoldable pub candidate_of : Store → String → Option Candidate
  candidate_of s model = if_available s model (resolve registry model)

  abbrev pub cons_some {ℓ} : {A : Type ℓ} → Option A → List A → List A
  cons_some none xs = xs
  cons_some (some x) xs = x ∷ xs

  unfoldable pub resolve_open_candidates : Store → List String → List Candidate
  unfolding candidate_of
  resolve_open_candidates s [] = []
  resolve_open_candidates s (m ∷ ms) = cons_some (candidate_of s m) (resolve_open_candidates s ms)

  -- The statistics of each provider come from Redis as well.
  unfoldable pub score_of :
      (String → ProviderStats) → RoutingPresetName → Candidate → ScoredCandidate
  unfolding compute_routing_score
  score_of stats preset c = record {
    candidate = c;
    score =
        compute_routing_score (stats c.resolved.provider)
          (get_model_pricing c.resolved.provider_model) (routing_presets preset);
  }

  abbrev pub scored_all :
      (String → ProviderStats) → RoutingPresetName → List Candidate → List ScoredCandidate
  scored_all stats preset [] = []
  scored_all stats preset (c ∷ cs) = score_of stats preset c ∷ scored_all stats preset cs

  unfoldable pub score_candidates :
      (String → ProviderStats) → RoutingPresetName → Store → List String → List ScoredCandidate
  unfolding resolve_open_candidates score_of
  score_candidates stats preset s models =
      ranked (scored_all stats preset (resolve_open_candidates s models))

  abbrev pub weighted_some : Option Candidate → ℕ → List (Candidate × ℕ) → List (Candidate × ℕ)
  weighted_some none w cs = cs
  weighted_some (some c) w cs = (c, w) ∷ cs

  unfoldable pub open_variants : Store → AbConfig → List (Candidate × ℕ)
  unfolding candidate_of
  open_variants s [] = []
  open_variants s ((m, w) ∷ config) = weighted_some (candidate_of s m) w (open_variants s config)

  abbrev pub pick_variant : ℕ → ℕ → List (Candidate × ℕ) → Option (Candidate × ℕ × ℕ)
  pick_variant parts draw [] = none
  pick_variant parts draw (v ∷ vs) =
      let total = total_weight (v ∷ vs) in
      let (c, w) = pick parts (draw * total) v vs in some (c, w, total)

  unfoldable pub select_ab_variant : ℕ → ℕ → Store → AbConfig → Option (Candidate × ℕ × ℕ)
  unfolding open_variants
  select_ab_variant parts draw s config = pick_variant parts draw (open_variants s config)

  abbrev pub best_of :
      RoutingPresetName → Bool → List ScoredCandidate → Outcome RouteError RouteDecision
  best_of preset resolvable (best ∷ others) = returned (scored best preset (best ∷ others))
  best_of preset true [] = threw all_providers_unavailable
  best_of preset false [] = threw (unknown_model "auto")

  abbrev pub or_scored :
      Option (Candidate × ℕ × ℕ)
      → Outcome RouteError RouteDecision
      → Outcome RouteError RouteDecision
  or_scored none by_score = by_score
  or_scored (some (c, w, total)) by_score = returned (ab_variant c w total)

  abbrev pub explicitly : String → Option ResolvedModel → Outcome RouteError RouteDecision
  explicitly model none = threw (unknown_model model)
  explicitly model (some r) = returned (explicit r)

  abbrev pub variant_of : ℕ → ℕ → Store → Option AbConfig → Option (Candidate × ℕ × ℕ)
  variant_of parts draw s none = none
  variant_of parts draw s (some config) = select_ab_variant parts draw s config

  -- `candidates` is the default model and the fallbacks of the environment.
  unfoldable pub resolve_model_with_fallback :
      (String → ProviderStats)
      → RoutingPresetName
      → Option AbConfig
      → List String
      → ℕ
      → ℕ
      → Store
      → String
      → Outcome RouteError RouteDecision
  unfolding select_ab_variant score_candidates
  resolve_model_with_fallback stats preset ab candidates parts draw s model =
      let resolvable = any (λ m. is_some (resolve registry m)) candidates in
      if str_eq model "auto"
      then or_scored (variant_of parts draw s ab)
          (best_of preset resolvable (score_candidates stats preset s candidates))
      else explicitly model (resolve registry model)
