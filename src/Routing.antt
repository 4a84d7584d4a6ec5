-- ===== src/Routing.antt =====
-- apps/gateway/src/providers/registry.ts and index.ts, lib/routing.ts, routingScoring.ts and
-- resolveModel.ts: which model and provider serve a request. A provider is known by its name.
pub mod Select
pub mod Ranked
pub mod Scores
pub mod Shares
pub mod Variants
pub mod Decision
pub mod Split
pub mod Resolved
pub mod Considered
mod Tests
use cloud_mesh.Common.{
  ℕ, String, Bool, true, false, ◌||◌, Option, none, some, is_some, List, [], ◌∷◌, ◌++◌, str_eq,
  if◌then◌else◌,
}
use cloud_mesh.Stream.{Text, codes, strip}

pub record ResolvedModel : Type 0 where
  pub provider : String
  pub provider_model : String

pub record ProviderRule : Type 0 where
  pub provider : String
  pub matches : String → Bool

pub record ModelRegistry : Type 0 where
  pub rules : List ProviderRule
  pub default_model : String

-- `rules.find`
abbrev pub find_rule : List ProviderRule → String → Option ProviderRule
find_rule [] target = none
find_rule (r ∷ rs) target = if r.matches target then some r else find_rule rs target

abbrev pub resolved_by : String → Option ProviderRule → Option ResolvedModel
resolved_by target none = none
resolved_by target (some r) = some (record { provider = r.provider; provider_model = target })

unfoldable pub resolve : ModelRegistry → String → Option ResolvedModel
resolve registry model =
    let target = if str_eq model "auto" then registry.default_model else model in
    resolved_by target (find_rule registry.rules target)

abbrev pub starts_with : String → String → Bool
starts_with prefix model = is_some (strip (codes prefix) (codes model))

abbrev pub mock_rules : Bool → List ProviderRule
mock_rules true = record { provider = "mock"; matches = starts_with "mock-" } ∷ []
mock_rules false = []

-- `buildRegistry`: Ollama, which takes every name, comes last.
unfoldable pub build_registry : Bool → String → ModelRegistry
build_registry enable_mock default_model = record {
  rules =
      record {
        provider = "openai";
        matches = λ m.
            starts_with "gpt-" m || starts_with "o1" m || starts_with "o3" m || starts_with "o4" m;
      }
      ∷ record { provider = "anthropic"; matches = starts_with "claude-" }
      ∷ record { provider = "gemini"; matches = starts_with "gemini-" }
      ∷ (mock_rules enable_mock ++ record { provider = "ollama"; matches = λ m. true } ∷ []);
  default_model = default_model;
}
