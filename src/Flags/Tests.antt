-- ===== src/Flags/Tests.antt =====
-- Flags read from JSON, and the theorem at a concrete split.
use cloud_mesh.Common.{◌<◌, ◌≤◌, ◌≡◌, refl, true, false, none, some, [], ◌∷◌}
use cloud_mesh.Common.KeyValue.{memory, blank}
use cloud_mesh.CircuitBreaker.{Circuit, get_circuit_state}
use cloud_mesh.Routing.{build_registry, resolve}
use cloud_mesh.Routing.Select.{
  Candidate, balanced, AbConfig, candidate_of, open_variants, select_ab_variant,
}
use cloud_mesh.Chat.{OrgFeatureFlags}
use cloud_mesh.Json.{JsonValue, no_fields, field, boolean, number, negative, text, object}
use cloud_mesh.Flags.{coerce_ab_config, coerce, get_org_feature_flags}
use cloud_mesh.Flags.Split.{select_ab_variant_normalized}

-- A weight of zero, a negative one and a text are no weights.
abbrev raw : JsonValue
raw = object (
    field "gpt-4o" (number 7) (
      field "o1" (number 0) (
        field "o3" negative
          (field "gemini-1.5-flash" (text "3") (field "claude-3-5-haiku" (number 3) no_fields)))))

abbrev split : AbConfig
split = ("gpt-4o", 7) ∷ ("claude-3-5-haiku", 3) ∷ []

split_of_raw : coerce_ab_config raw ≡ some split
unfolding coerce_ab_config
split_of_raw = refl

flags_of_raw :
    (get_org_feature_flags
      (memory OrgFeatureFlags)
      "acme"
      (some (
        object (
          field "semantic_cache" (text "true") (
            field "request_dedup"
              (boolean true)
              (field "routing_preset" (text "balanced") (field "ab_config" raw no_fields))))))
      blank).1
    ≡ record {
      semantic_cache = false;
      request_dedup = true;
      cache_ttl_days = none;
      billing_enforcement = false;
      routing_preset = balanced;
      ab_config = some split;
    }
unfolding get_org_feature_flags coerce coerce_ab_config
flags_of_raw = refl

abbrev claude : Candidate
claude = record {
  model = "claude-3-5-haiku";
  resolved = record { provider = "anthropic"; provider_model = "claude-3-5-haiku" };
}

claude_picked :
    select_ab_variant (memory Circuit) (build_registry false "gpt-4o") 10 8 blank split
    ≡ some (claude, 3, 10)
unfolding select_ab_variant open_variants candidate_of build_registry resolve get_circuit_state
claude_picked = refl

select_ab_variant_normalized_example : (0 < 3) × (3 ≤ 10)
select_ab_variant_normalized_example =
    select_ab_variant_normalized (memory Circuit) (build_registry false "gpt-4o") blank raw split 10
      8 claude 3 10 split_of_raw claude_picked
