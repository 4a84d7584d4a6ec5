-- ===== src/Billing/Pricing.antt =====
-- apps/gateway/src/lib/pricing.ts. Rates are thousandths of a dollar per million tokens, costs are
-- whole micro-dollars. The names that every JavaScript object inherits are no names of models here.
use cloud_mesh.Common.{
  ℕ, ◌+◌, ◌*◌, ◌/◌, String, Option, none, some, List, [], ◌∷◌, get_or, str_eq, if◌then◌else◌,
}

pub record ModelPricing : Type 0 where
  pub input_per_million : ℕ
  pub output_per_million : ℕ

abbrev rates : ℕ → ℕ → ModelPricing
rates input output = record { input_per_million = input; output_per_million = output }

abbrev pub pricing : List (String × ModelPricing)
pricing =
    ("gpt-4o", rates 5000 15000)
    ∷ ("gpt-4o-mini", rates 150 600)
    ∷ ("claude-3-5-sonnet-20241022", rates 3000 15000)
    ∷ ("claude-3-5-haiku-20241022", rates 800 4000)
    ∷ ("gemini-1.5-pro", rates 1250 5000)
    ∷ ("gemini-1.5-flash", rates 75 300)
    ∷ []

abbrev pub free : ModelPricing
free = rates 0 0

abbrev pub price_in : List (String × ModelPricing) → String → Option ModelPricing
price_in [] model = none
price_in ((name, p) ∷ table) model = if str_eq name model then some p else price_in table model

unfoldable pub get_model_pricing : String → ModelPricing
get_model_pricing model = get_or (price_in pricing model) free

pub record UnifiedUsage : Type 0 where
  pub prompt_tokens : ℕ
  pub completion_tokens : ℕ

-- `Math.round` of the cost in micro-dollars.
unfoldable pub compute_cost : String → UnifiedUsage → ℕ
unfolding get_model_pricing
compute_cost model usage =
    let p = get_model_pricing model in
    (usage.prompt_tokens * p.input_per_million
      + usage.completion_tokens * p.output_per_million
      + 500)
    / 1000
