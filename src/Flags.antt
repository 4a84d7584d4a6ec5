-- ===== src/Flags.antt =====
-- apps/gateway/src/lib/featureFlags.ts: an organization's flags, read from JSON that anybody may
-- have written, and cached. Numbers are whole, the weights of a split in a common unit.
pub mod Split
mod Tests
use Prim.Native.String.{◌++◌ as ◌+++◌}
use cloud_mesh.Common.{
  ℕ, ltb, leb, String, Bool, true, false, not, ◌&&◌, Option, none, some, List, [], ◌∷◌, filter,
  take, get_or, str_eq, if◌then◌else◌,
}
use cloud_mesh.Common.KeyValue.{KeyValue}
use cloud_mesh.Routing.Select.{
  RoutingPresetName, cost_optimized, latency_optimized, balanced, AbConfig,
}
use cloud_mesh.Chat.{OrgFeatureFlags}
use cloud_mesh.Json.{
  JsonValue, Fields, null, boolean, number, text, object, no_fields, field, get_field,
}

abbrev pub ab_config_max_variants : ℕ
ab_config_max_variants = 10

abbrev pub ab_config_max_weight : ℕ
ab_config_max_weight = 1_000_000

abbrev pub is_variant : String → ℕ → Bool
is_variant name weight = ltb 0 weight && (leb weight ab_config_max_weight && not (str_eq name ""))

abbrev pub add_variant : String → JsonValue → AbConfig → AbConfig
add_variant name (number weight) config =
    if is_variant name weight then (name, weight) ∷ config else config
add_variant name _ config = config

-- The entries that pass the filter.
abbrev pub variants : Fields → AbConfig
variants no_fields = []
variants (field name value more) = add_variant name value (variants more)

abbrev pub some_variants : AbConfig → Option AbConfig
some_variants [] = none
some_variants (v ∷ vs) = some (take ab_config_max_variants (v ∷ vs))

unfoldable pub coerce_ab_config : JsonValue → Option AbConfig
coerce_ab_config (object fields) = some_variants (variants fields)
coerce_ab_config _ = none

abbrev pub is_true : JsonValue → Bool
is_true (boolean b) = b
is_true _ = false

abbrev pub positive_number : JsonValue → Option ℕ
positive_number (number n) = if ltb 0 n then some n else none
positive_number _ = none

abbrev pub preset_of : JsonValue → RoutingPresetName
preset_of (text name) =
    if str_eq name "latency_optimized"
    then latency_optimized
    else if str_eq name "balanced"
    then balanced
    else cost_optimized
preset_of _ = cost_optimized

abbrev pub defaults : OrgFeatureFlags
defaults = record {
  semantic_cache = false;
  request_dedup = false;
  cache_ttl_days = none;
  billing_enforcement = false;
  routing_preset = cost_optimized;
  ab_config = none;
}

-- An array has none of these fields.
unfoldable pub coerce : JsonValue → OrgFeatureFlags
unfolding coerce_ab_config
coerce (object fields) = record {
  semantic_cache = is_true (get_field "semantic_cache" fields);
  request_dedup = is_true (get_field "request_dedup" fields);
  cache_ttl_days = positive_number (get_field "cache_ttl_days" fields);
  billing_enforcement = is_true (get_field "billing_enforcement" fields);
  routing_preset = preset_of (get_field "routing_preset" fields);
  ab_config = coerce_ab_config (get_field "ab_config" fields);
}
coerce _ = defaults

module _ (redis : KeyValue OrgFeatureFlags) where
  open redis use {Store, get, put}

  abbrev pub flags_by_cache :
      String → Option OrgFeatureFlags → Option JsonValue → Store → Store × OrgFeatureFlags
  flags_by_cache key (some flags) stored s = (s, flags)
  flags_by_cache key none stored s =
      let flags = coerce (get_or stored null) in (put s key flags, flags)

  -- `stored` is the organization's column, if there is such an organization.
  unfoldable pub get_org_feature_flags : String → Option JsonValue → Store → Store × OrgFeatureFlags
  unfolding coerce
  get_org_feature_flags org stored s =
      let key = "feature_flags:" +++ org in flags_by_cache key (get s key) stored s
