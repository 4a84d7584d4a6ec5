-- ===== src/Chat/Cache.antt =====
-- apps/gateway/src/lib/semanticCache.ts. The table is the newest row first. pgvector's distance is
-- an argument, in whole parts of `1 / unit`, and so are the hash of a prompt and its embedding. Times
-- are whole days.
use Prim.Native.String.{◌++◌ as ◌+++◌}
use cloud_mesh.Common.{
  ℕ, ◌+◌, ltb, leb, String, Bool, not, ◌&&◌, Option, none, some, List, [], ◌∷◌, filter, get_or,
  str_eq, if◌then◌else◌,
}
use cloud_mesh.Common.KeyValue.{KeyValue}
use cloud_mesh.CircuitBreaker.{Outcome, returned, threw}
use cloud_mesh.Chat.{CacheRow, UnifiedChatResponse, CallFailure}

pub record SemanticCacheLookupOptions : Type 0 where
  pub similarity_threshold : ℕ
  pub ttl_days : ℕ

-- `org_id = … AND model = … AND created_at > now() - ttl`
abbrev pub is_visible : String → String → ℕ → ℕ → CacheRow → Bool
is_visible org model today ttl r =
    str_eq r.org_id org && (str_eq r.model model && ltb today (r.created_day + ttl))

abbrev pub first_response : List CacheRow → Option UnifiedChatResponse
first_response [] = none
first_response (r ∷ rs) = some r.response

abbrev pub if_similar : ℕ → Option (CacheRow × ℕ) → Option UnifiedChatResponse
if_similar threshold none = none
if_similar threshold (some (r, similarity)) =
    if leb threshold similarity then some r.response else none

module _ {Vector : Type 0} (nearest : Vector → List CacheRow → Option (CacheRow × ℕ)) where
  abbrev pub by_vector :
      ℕ
      → List CacheRow
      → Outcome CallFailure Vector
      → Outcome CallFailure (Option UnifiedChatResponse)
  by_vector threshold rows (threw e) = threw e
  by_vector threshold rows (returned v) = returned (if_similar threshold (nearest v rows))

  -- The embedding is asked for only where no row has the very hash.
  abbrev pub or_similar :
      Option UnifiedChatResponse
      → Outcome CallFailure (Option UnifiedChatResponse)
      → Outcome CallFailure (Option UnifiedChatResponse)
  or_similar (some r) similar = returned (some r)
  or_similar none similar = similar

  unfoldable pub lookup_cache :
      String
      → String
      → String
      → Outcome CallFailure Vector
      → SemanticCacheLookupOptions
      → ℕ
      → List CacheRow
      → Outcome CallFailure (Option UnifiedChatResponse)
  lookup_cache org model hash embedding opts today rows =
      let own = filter (is_visible org model today opts.ttl_days) rows in
      or_similar (first_response (filter (λ r. str_eq r.prompt_hash hash) own))
        (by_vector opts.similarity_threshold own embedding)

unfoldable pub store_cache :
    String → String → String → UnifiedChatResponse → ℕ → List CacheRow → List CacheRow
store_cache org model hash response today rows =
    record {
      org_id = org;
      model = model;
      prompt_hash = hash;
      response = response;
      created_day = today;
    }
    ∷ rows

-- Without a model to keep, every row of the organization goes.
abbrev pub is_flushed : String → Option String → CacheRow → Bool
is_flushed org none r = str_eq r.org_id org
is_flushed org (some keep) r = str_eq r.org_id org && not (str_eq r.model keep)

unfoldable pub flush_cache : String → Option String → List CacheRow → List CacheRow
flush_cache org keep rows = filter (λ r. not (is_flushed org keep r)) rows

module _ (counts : KeyValue ℕ) where
  open counts use {Store, get, put}

  -- `INCR`
  abbrev pub incr : String → Store → Store
  incr key s = put s key (get_or (get s key) 0 + 1)

  unfoldable pub record_cache_outcome : String → String → Store → Store
  record_cache_outcome org outcome s = incr ("cache_stats:" +++ (org +++ (":" +++ outcome))) s

  unfoldable pub get_cache_stats : String → Store → ℕ × ℕ
  get_cache_stats org s = (
    get_or (get s ("cache_stats:" +++ (org +++ ":hit"))) 0,
    get_or (get s ("cache_stats:" +++ (org +++ ":miss"))) 0,
  )
