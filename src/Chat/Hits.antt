-- ===== src/Chat/Hits.antt =====
-- What the chat route answers from its cache, and what it does not.
use cloud_mesh.Common.{
  ◌≡◌, ◌≢◌, refl, true, false, Option, none, some, Bool-cases, inl, inr, get_or, ap, ◌∙◌,
  if◌then◌else◌,
}
use cloud_mesh.CircuitBreaker.{Outcome, returned, threw}
use cloud_mesh.Routing.{ResolvedModel}
use cloud_mesh.Chat.{
  Redis, Serving, ChatWorld, ChatRequest, OrgFeatureFlags, UnifiedChatResponse, CallFailure,
}
use cloud_mesh.Chat.Dedup.{Served}
use cloud_mesh.Chat.Cache.{lookup_cache}
use cloud_mesh.Chat.Answer.{Caller, Services, cached_after, uncached, by_lookup, serve}

abbrev pub hit_in : Outcome CallFailure (Option UnifiedChatResponse) → Option UnifiedChatResponse
hit_in (returned found) = found
hit_in (threw e) = none

module _ (redis : Redis) (W Vector : Type 0) (api : Services redis W Vector)
    (flags : OrgFeatureFlags) (caller : Caller) (req : ChatRequest) where
  -- What the cache answers.
  abbrev pub found_in_cache :
      ResolvedModel → ChatWorld redis W → Outcome CallFailure (Option UnifiedChatResponse)
  found_in_cache resolved w =
      lookup_cache api.nearest caller.org_id resolved.provider_model
        (api.prompt_hash resolved.provider_model req.messages) (api.embed req.messages)
        (record {
          similarity_threshold = api.similarity_threshold;
          ttl_days = get_or flags.cache_ttl_days api.cache_ttl_days;
        })
        api.today w.serving.cache

  -- The response that the cache has for the request, if it is on.
  abbrev pub cached_reply : ResolvedModel → ChatWorld redis W → Option UnifiedChatResponse
  cached_reply resolved w =
      if flags.semantic_cache then hit_in (found_in_cache resolved w) else none

  module _ (resolved : ResolvedModel) where
    cached_after_called :
        (v : Served redis W) (x : UnifiedChatResponse)
        → (cached_after redis W Vector api flags caller resolved req v).1 ≢ returned (x, true)
    cached_after_called (s, returned y) x h = cc
    cached_after_called (s, threw e) x h = cc

    uncached_called :
        (v : Served redis W) (x : UnifiedChatResponse)
        → (uncached redis W Vector api flags caller resolved req v).1 ≢ returned (x, true)
    uncached_called (s, returned y) x h = cc
    uncached_called (s, threw e) x h = cc

    by_lookup_found :
        (o : Outcome CallFailure (Option UnifiedChatResponse)) (s : Serving redis W)
        (x : UnifiedChatResponse)
        → (by_lookup redis W Vector api flags caller resolved req o s).1 ≡ returned (x, true)
        → o ≡ returned (some x)
    by_lookup_found (threw e) s x h = cc
    by_lookup_found (returned (some y)) s x h = cc
    by_lookup_found (returned none) s x h = absurd (cached_after_called _ x h)

    by_lookup_fresh :
        (o : Outcome CallFailure (Option UnifiedChatResponse)) (s : Serving redis W)
        (x : UnifiedChatResponse)
        → (by_lookup redis W Vector api flags caller resolved req o s).1 ≡ returned (x, false)
        → hit_in o ≡ none
    by_lookup_fresh (threw e) s x h = refl
    by_lookup_fresh (returned none) s x h = refl
    by_lookup_fresh (returned (some y)) s x h = cc

    pub serve_found :
        (w : ChatWorld redis W) (counters : redis.counts.Store) (x : UnifiedChatResponse)
        → (serve redis W Vector api flags caller resolved req
            (record w.serving { counters = counters })).1
          ≡ returned (x, true)
        → cached_reply resolved w ≡ some x
    unfolding serve
    serve_found w counters x h = elim (Bool-cases flags.semantic_cache) [
      | inl on ↦
          let found =
            by_lookup_found (found_in_cache resolved w) (record w.serving { counters = counters }) x
              (rw on at h) in
          ap (λ b. if b then hit_in (found_in_cache resolved w) else none) on ∙ ap hit_in found
      | inr off ↦ absurd (uncached_called _ x (rw off at h))
    ]

    pub serve_fresh :
        (w : ChatWorld redis W) (counters : redis.counts.Store) (x : UnifiedChatResponse)
        → (serve redis W Vector api flags caller resolved req
            (record w.serving { counters = counters })).1
          ≡ returned (x, false)
        → cached_reply resolved w ≡ none
    unfolding serve
    serve_fresh w counters x h = elim (Bool-cases flags.semantic_cache) [
      | inl on ↦
          ap (λ b. if b then hit_in (found_in_cache resolved w) else none) on
          ∙ by_lookup_fresh (found_in_cache resolved w) (record w.serving { counters = counters }) x
              (rw on at h)
      | inr off ↦ ap (λ b. if b then hit_in (found_in_cache resolved w) else none) off
    ]
