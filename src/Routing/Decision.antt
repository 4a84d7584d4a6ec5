-- ===== src/Routing/Decision.antt =====
-- The whole of `resolveModelWithFallback`: what each of its answers says.
use cloud_mesh.Common.{
  ℕ, ◌≡◌, String, true, false, Option, none, some, is_some, List, ◌∷◌, All, str_eq, any, ◌⊎◌,
}
use cloud_mesh.Common.KeyValue.{KeyValue}
use cloud_mesh.CircuitBreaker.{Circuit, Outcome, returned, threw}
use cloud_mesh.Routing.{ModelRegistry, resolve}
use cloud_mesh.Routing.Select.{
  ScoredCandidate, ProviderStats, RoutingPresetName, RouteError, unknown_model,
  all_providers_unavailable, RouteDecision, explicit, ab_variant, scored, AbConfig,
}
use cloud_mesh.Routing.Ranked.{IsRanked}
use cloud_mesh.Routing.Considered.{IsBest, IsScored, HasAll}
use cloud_mesh.Routing.Variants.{NoneAvailable, Exhausted, IsDrawn}

module _ (redis : KeyValue Circuit) (registry : ModelRegistry) (s : redis.Store) where
  module _ (stats : String → ProviderStats) (preset : RoutingPresetName)
      (ab : Option AbConfig) where
    -- What an answer means, for the model and the candidates that were asked for and the draw.
    abbrev pub IsJustified :
        ℕ → ℕ → String → List String → Outcome RouteError RouteDecision → Type 0
    IsJustified parts draw model ms (returned (explicit r)) =
        (str_eq model "auto" ≡ false) × (resolve registry model ≡ some r)
    IsJustified parts draw model ms (returned (ab_variant c w total)) =
        (str_eq model "auto" ≡ true) × IsDrawn redis registry s ab parts draw c w total
    IsJustified parts draw model ms (returned (scored best used considered)) =
        (str_eq model "auto" ≡ true)
        × Exhausted redis registry s ab
        × (used ≡ preset)
        × IsBest redis registry s stats preset best ms
        × ((others : List ScoredCandidate) × (considered ≡ best ∷ others))
        × All (IsScored redis registry s stats preset) considered
        × HasAll redis registry s stats preset ms considered
        × IsRanked considered
    IsJustified parts draw model ms (threw all_providers_unavailable) =
        (str_eq model "auto" ≡ true)
        × Exhausted redis registry s ab
        × NoneAvailable redis registry s ms
        × (any (λ m. is_some (resolve registry m)) ms ≡ true)
    IsJustified parts draw model ms (threw (unknown_model m)) =
        ((str_eq model "auto" ≡ false) × (m ≡ model) × (resolve registry model ≡ none))
        ⊎ ((str_eq model "auto" ≡ true)
            × Exhausted redis registry s ab
            × (any (λ m. is_some (resolve registry m)) ms ≡ false))
