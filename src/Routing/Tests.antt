-- ===== src/Routing/Tests.antt =====
-- Runs of the router, and its theorems at concrete inputs.
use cloud_mesh.Common.{
  ◌≡◌, refl, String, true, Option, none, some, List, [], ◌∷◌, str_eq, if◌then◌else◌,
}
use cloud_mesh.Common.KeyValue.{KeyValue, memory, blank}
use cloud_mesh.CircuitBreaker.{Circuit, opened, returned, threw, get_circuit_state}
use cloud_mesh.Billing.Pricing.{get_model_pricing, compute_cost}
use cloud_mesh.Routing.{ModelRegistry, resolve, build_registry}
use cloud_mesh.Routing.Select
use cloud_mesh.Routing.Select.{
  Candidate, ProviderStats, RoutingPresetName, cost_optimized, latency_optimized, RouteError,
  unknown_model, all_providers_unavailable, RouteDecision, explicit, ab_variant, scored, AbConfig,
  candidate_of, resolve_open_candidates, score_of, score_candidates, open_variants,
  select_ab_variant, resolve_model_with_fallback,
}

abbrev registry : ModelRegistry
registry = build_registry true "gpt-4o"

abbrev circuits : KeyValue Circuit
circuits = memory Circuit

abbrev broken : Circuit
broken = record {
  state = some opened;
  window_start = none;
  opened_at = some 12;
  probe_taken = none;
  failures = some 5;
  ttl = some 3600;
}

-- The circuit of OpenAI is open.
abbrev outage : String → Option Circuit
outage = circuits.put blank "circuit:openai" broken

abbrev measured : String → ProviderStats
measured name =
    if str_eq name "anthropic"
    then record { sample_count = 100; p99_ms = 800; successes = 99 }
    else if str_eq name "gemini"
    then record { sample_count = 100; p99_ms = 2000; successes = 90 }
    else record { sample_count = 0; p99_ms = 0; successes = 0 }

abbrev split : AbConfig
split = ("gpt-4o", 5) ∷ ("claude-3-5-haiku-20241022", 7) ∷ ("gemini-1.5-flash", 3) ∷ []

abbrev candidates : List String
candidates = "gpt-4o" ∷ "claude-3-5-haiku-20241022" ∷ "gemini-1.5-flash" ∷ []

abbrev claude : Candidate
claude = record {
  model = "claude-3-5-haiku-20241022";
  resolved = record { provider = "anthropic"; provider_model = "claude-3-5-haiku-20241022" };
}

abbrev gemini : Candidate
gemini = record {
  model = "gemini-1.5-flash";
  resolved = record { provider = "gemini"; provider_model = "gemini-1.5-flash" };
}

open_of_split : open_variants circuits registry outage split ≡ (claude, 7) ∷ (gemini, 3) ∷ []
unfolding open_variants candidate_of build_registry resolve get_circuit_state
open_of_split = refl

-- The cheaper model costs less and wins under the preset for costs.
cheapest :
    resolve_model_with_fallback circuits registry measured cost_optimized none candidates 10 0
      outage "auto"
    ≡ returned (
        scored (score_of circuits registry measured cost_optimized gemini) cost_optimized (
          score_of circuits registry measured cost_optimized gemini
          ∷ score_of circuits registry measured cost_optimized claude
          ∷ []))
unfolding resolve_model_with_fallback score_candidates resolve_open_candidates candidate_of
    build_registry resolve get_circuit_state score_of Select.compute_routing_score get_model_pricing
cheapest = refl

no_provider :
    resolve_model_with_fallback circuits registry measured cost_optimized none
      ("gpt-4o" ∷ [])
      10
      0
      outage
      "auto"
    ≡ threw all_providers_unavailable
unfolding resolve_model_with_fallback score_candidates resolve_open_candidates candidate_of
    build_registry resolve get_circuit_state
no_provider = refl

cost : compute_cost "gpt-4o-mini" (record { prompt_tokens = 1000; completion_tokens = 500 }) ≡ 450
unfolding compute_cost get_model_pricing
cost = refl

-- A draw of 0.8 of a total of 10.
