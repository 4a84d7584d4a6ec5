-- ===== src/Chat/CacheTenancy.antt =====
-- The semantic cache answers an organization from its own rows, and from none after a flush.
use cloud_mesh.Common.{
  IsIn, ℕ, ◌+◌, ◌<◌, ◌≡◌, refl, ap, subst, String, Bool, true, false, ◌&&◌, Option, none, some,
  List, [], ◌∷◌, filter, get_or, str_eq, eq_iff, Bool-cases, inl, inr, leb, ltb→lt, ◌⊎◌,
}
use cloud_mesh.CircuitBreaker.{Outcome, returned, threw}
use cloud_mesh.Chat.{CacheRow, UnifiedChatResponse, CallFailure}
use cloud_mesh.Chat.Cache.{
  SemanticCacheLookupOptions, is_visible, first_response, if_similar, by_vector, or_similar,
  lookup_cache,
}

filter_kept :
    (p : CacheRow → Bool) (x : CacheRow) (xs : List CacheRow)
    → p x ≡ true
    → filter p (x ∷ xs) ≡ x ∷ filter p xs
filter_kept p x xs h = rw (h, filter) refl

filter_dropped :
    (p : CacheRow → Bool) (x : CacheRow) (xs : List CacheRow)
    → p x ≡ false
    → filter p (x ∷ xs) ≡ filter p xs
filter_dropped p x xs h = rw (h, filter) refl

-- A row that a filter keeps stood in the list and passed.
filter-IsIn :
    (p : CacheRow → Bool) (xs : List CacheRow) (r : CacheRow)
    → IsIn r (filter p xs)
    → IsIn r xs × (p r ≡ true)
filter-IsIn p [] r h = cc
filter-IsIn p (x ∷ xs) r h = elim (Bool-cases (p x)) [
  | inl kept ↦
      let h' : (x ≡ r) ⊎ IsIn r (filter p xs) = subst (IsIn r) (filter_kept p x xs kept) h in
      elim h' [
        | inl same ↦ (inl same, rw (← same) kept)
        | inr later ↦ let (q, k) = filter-IsIn p xs r later in (inr q, k)
      ]
  | inr dropped ↦
      let h' : IsIn r (filter p xs) = subst (IsIn r) (filter_dropped p x xs dropped) h in
      let (q, k) = filter-IsIn p xs r h' in (inr q, k)
]

first-IsIn :
    (xs : List CacheRow) (x : UnifiedChatResponse)
    → first_response xs ≡ some x
    → (r : CacheRow) × IsIn r xs × (r.response ≡ x)
first-IsIn [] x h = cc
first-IsIn (r ∷ rs) x h = (r, inl refl, ap (λ o. get_or o x) h)

both_true : (a b : Bool) → (a && b) ≡ true → (a ≡ true) × (b ≡ true)
both_true true b h = (refl, h)
both_true false b h = cc

module _ {Vector : Type 0} (nearest : Vector → List CacheRow → Option (CacheRow × ℕ)) where
  -- The search answers with a row of the table.
  abbrev pub IsSearch : Type 0
  IsSearch =
      (v : Vector) (rows : List CacheRow) (r : CacheRow) (similarity : ℕ)
      → nearest v rows ≡ some (r, similarity)
      → IsIn r rows

  similar-IsIn :
      (threshold : ℕ) (rows : List CacheRow) (found : Option (CacheRow × ℕ))
      (x : UnifiedChatResponse)
      → ((r : CacheRow) (similarity : ℕ) → found ≡ some (r, similarity) → IsIn r rows)
      → if_similar threshold found ≡ some x
      → (r : CacheRow) × IsIn r rows × (r.response ≡ x)
  similar-IsIn threshold rows none x s h = cc
  similar-IsIn threshold rows (some (r, d)) x s h = elim (Bool-cases (leb threshold d)) [
    | inl near ↦
        let h' : some r.response ≡ some x = rw near at h in (r, s r d refl, ap (λ o. get_or o x) h')
    | inr far ↦ let h' : none ≡ some x = rw far at h in cc
  ]

  found-IsIn :
      (threshold : ℕ) (rows : List CacheRow) (exact : Option UnifiedChatResponse)
      (embedding : Outcome CallFailure Vector) (x : UnifiedChatResponse)
      → IsSearch
      → (exact ≡ some x → (r : CacheRow) × IsIn r rows × (r.response ≡ x))
      → or_similar nearest exact (by_vector nearest threshold rows embedding) ≡ returned (some x)
      → (r : CacheRow) × IsIn r rows × (r.response ≡ x)
  found-IsIn threshold rows (some y) embedding x s k h = k cc
  found-IsIn threshold rows none (threw e) x s k h = cc
  found-IsIn threshold rows none (returned v) x s k h =
      similar-IsIn threshold rows (nearest v rows) x (λ r d e. s v rows r d e) cc

  -- A response that the cache gives is that of a row of this organization and model, younger than
  -- the time to live, whatever the embedding; the search is one that answers with a row that it was
  -- given.
  pub lookup_cache-IsIn :
      (org model hash : String) (embedding : Outcome CallFailure Vector)
      (opts : SemanticCacheLookupOptions) (today : ℕ) (rows : List CacheRow)
      (x : UnifiedChatResponse)
      → IsSearch
      → lookup_cache nearest org model hash embedding opts today rows ≡ returned (some x)
      → (r : CacheRow) × IsIn r rows
        × (r.response ≡ x)
        × (r.org_id ≡ org)
        × (r.model ≡ model)
        × (today < r.created_day + opts.ttl_days)
  unfolding lookup_cache
  lookup_cache-IsIn org model hash embedding opts today rows x search h =
      let own = filter (is_visible org model today opts.ttl_days) rows in
      let exact = filter (λ r. str_eq r.prompt_hash hash) own in
      let (r, at, same) =
        found-IsIn opts.similarity_threshold own (first_response exact) embedding x search
          (λ e.
            let (r, at, same) = first-IsIn exact x e in
            let (at', hashed) = filter-IsIn (λ r. str_eq r.prompt_hash hash) own r at in
            (r, at', same))
          h in
      let (there, visible) = filter-IsIn (is_visible org model today opts.ttl_days) rows r at in
      let (o, rest) = both_true _ _ visible in
      let (m, young) = both_true _ _ rest in
      (
        r,
        there,
        same,
        (eq_iff r.org_id org).0 o,
        (eq_iff r.model model).0 m,
        ltb→lt today (r.created_day + opts.ttl_days) young,
      )
