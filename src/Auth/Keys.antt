-- ===== src/Auth/Keys.antt =====
-- A key is accepted only while its row is active, whatever the cache holds.
use text.Mathlib.TextLemmas.{append_cancel_left}
use cloud_mesh.Common.{
  ℕ, ◌≡◌, ◌≢◌, refl, sym, ap, ◌∙◌, String, Bool, true, false, Option, none, some, List, [], ◌∷◌,
  str_eq, eq_iff, IsIn, append-IsIn, Bool-cases, inl, inr, ◌⊎◌, get_or, if◌then◌else◌,
}
use cloud_mesh.Common.KeyValue.{KeyValue}
use cloud_mesh.Auth.{
  ApiKeyRow, ApiKeyContext, KeyTables, lookup_by_hash, context_of, api_key_cache_key,
  GeneratedApiKey, is_key, deactivate, find_key, or_lookup, by_cache, resolve_api_key,
  create_api_key, revoke_found, revoke_api_key,
}

lookup_by_hash-IsIn :
    (h : String) (rs : List ApiKeyRow) (r : ApiKeyRow)
    → lookup_by_hash h rs ≡ some r
    → IsIn r rs × (r.key_hash ≡ h)
lookup_by_hash-IsIn h [] r e = cc
lookup_by_hash-IsIn h (x ∷ xs) r e = elim (Bool-cases (str_eq x.key_hash h)) [
  | inl same ↦
      let e' : some x ≡ some r = rw (same, lookup_by_hash) at e in
      let is : x ≡ r = ap (λ o. get_or o x) e' in (inl is, rw (← is) ((eq_iff x.key_hash h).0 same))
  | inr other ↦
      let e' : lookup_by_hash h xs ≡ some r = rw (other, lookup_by_hash) at e in
      let (at, is) = lookup_by_hash-IsIn h xs r e' in (inr at, is)
]

-- An active row is still there after another was deactivated, unless it was that one.
deactivate-IsIn :
    (org id : String) (rs : List ApiKeyRow) (k r : ApiKeyRow)
    → find_key org id rs ≡ some k
    → IsIn r rs
    → (r ≡ k) ⊎ IsIn r (deactivate org id rs)
deactivate-IsIn org id [] k r e h = cc
deactivate-IsIn org id (x ∷ xs) k r e h = elim (Bool-cases (is_key org id x)) [
  | inl found ↦
      let e' : some x ≡ some k = rw (found, find_key) at e in
      let is : x ≡ k = ap (λ o. get_or o x) e' in
      elim h [
        | inl same ↦ inl (sym same ∙ is)
        | inr later ↦ inr (rw (found, deactivate) (inr later))
      ]
  | inr other ↦
      let e' : find_key org id xs ≡ some k = rw (other, find_key) at e in
      elim h [
        | inl same ↦ inr (rw (other, deactivate) (inl same))
        | inr later ↦ elim (deactivate-IsIn org id xs k r e' later) [
          | inl is ↦ inl is
          | inr kept ↦ inr (rw (other, deactivate) (inr kept))
        ]
      ]
]

module _ (hash_api_key : String → String) (redis : KeyValue ApiKeyContext) where
  open redis use {Store, get, put, del, get-put, get-del}

  abbrev pub State : Type 0
  State = KeyTables × Store

  abbrev pub IsActiveKey : KeyTables → String → ApiKeyContext → ApiKeyRow → Type 0
  IsActiveKey db key ctx r =
      IsIn r db.rows
      × (r.is_active ≡ true)
      × (api_key_cache_key r.key_hash ≡ key)
      × (ctx ≡ context_of r)

  -- Whatever is cached is what the active row with that hash says.
  abbrev pub IsBacked : State → Type 0
  IsBacked (db, s) =
      (key : String) (ctx : ApiKeyContext)
      → get s key ≡ some ctx
      → (r : ApiKeyRow) × IsActiveKey db key ctx r

  put_seen :
      (s : Store) (k j : String) (v c : ApiKeyContext)
      → get (put s k v) j ≡ some c
      → ((k ≡ j) × (v ≡ c)) ⊎ (get s j ≡ some c)
  put_seen s k j v c h =
      let e : (if str_eq k j then some v else get s j) ≡ some c = sym (get-put s k j v) ∙ h in
      elim (Bool-cases (str_eq k j)) [
        | inl same ↦
            let e' : some v ≡ some c = rw same at e in
            inl ((eq_iff k j).0 same, ap (λ o. get_or o c) e')
        | inr other ↦ inr (rw other at e)
      ]

  del_seen :
      (s : Store) (k j : String) (c : ApiKeyContext)
      → get (del s k) j ≡ some c
      → (k ≢ j) × (get s j ≡ some c)
  del_seen s k j c h =
      let e : (if str_eq k j then none else get s j) ≡ some c = sym (get-del s k j) ∙ h in
      elim (Bool-cases (str_eq k j)) [
        | inl same ↦ let e' : none ≡ some c = rw same at e in cc
        | inr other ↦ (
          λ is. let t = (eq_iff k j).1 is in let u : true ≡ false = sym t ∙ other in cc,
          rw other at e,
        )
      ]

  chosen :
      (b : Bool) (s t : Store) (c ctx : ApiKeyContext)
      → ((if◌then◌else◌ {A = Store × Option ApiKeyContext} b (s, some c) (t, none)).1 ≡ some ctx)
      → (b ≡ true) × (c ≡ ctx)
  chosen true s t c ctx h = (refl, ap (λ o. get_or o ctx) h)
  chosen false s t c ctx h = cc

  or_lookup-IsActiveKey :
      (db : KeyTables) (s : Store) (h : String) (o : Option ApiKeyRow) (ctx : ApiKeyContext)
      → lookup_by_hash h db.rows ≡ o
      → (or_lookup hash_api_key redis (api_key_cache_key h) o s).1 ≡ some ctx
      → (r : ApiKeyRow) × IsActiveKey db (api_key_cache_key h) ctx r
  or_lookup-IsActiveKey db s h none ctx e k = cc
  or_lookup-IsActiveKey db s h (some r) ctx e k =
      let (at, is) = lookup_by_hash-IsIn h db.rows r e in
      let (active, same) =
        chosen r.is_active (put s (api_key_cache_key h) (context_of r)) s (context_of r) ctx k in
      (r, (at, active, ap api_key_cache_key is, sym same))

  by_cache-IsActiveKey :
      (db : KeyTables) (s : Store) (h : String) (cached : Option ApiKeyContext)
      (ctx : ApiKeyContext)
      → IsBacked (db, s)
      → get s (api_key_cache_key h) ≡ cached
      → (by_cache hash_api_key redis (api_key_cache_key h) cached (lookup_by_hash h db.rows) s).1
        ≡ some ctx
      → (r : ApiKeyRow) × IsActiveKey db (api_key_cache_key h) ctx r
  by_cache-IsActiveKey db s h none ctx backed e k =
      or_lookup-IsActiveKey db s h (lookup_by_hash h db.rows) ctx refl k
  by_cache-IsActiveKey db s h (some c) ctx backed e k = backed (api_key_cache_key h) ctx (e ∙ k)

  in_either :
      (db : KeyTables) (b : Bool) (t u : Store) (c : ApiKeyContext)
      → (b ≡ true → IsBacked (db, t))
      → IsBacked (db, u)
      → IsBacked (db, (if◌then◌else◌ {A = Store × Option ApiKeyContext} b (t, some c) (u, none)).0)
  in_either db true t u c f g = f refl
  in_either db false t u c f g = g

  or_lookup-keeps :
      (db : KeyTables) (s : Store) (h : String) (o : Option ApiKeyRow)
      → lookup_by_hash h db.rows ≡ o
      → IsBacked (db, s)
      → IsBacked (db, (or_lookup hash_api_key redis (api_key_cache_key h) o s).0)
  or_lookup-keeps db s h none e backed = backed
  or_lookup-keeps db s h (some r) e backed =
      in_either db r.is_active (put s (api_key_cache_key h) (context_of r)) s (context_of r)
        (λ active key ctx k.
          let (at, is) = lookup_by_hash-IsIn h db.rows r e in
          elim (put_seen s (api_key_cache_key h) key (context_of r) ctx k) [
            | inl seen ↦ (r, (at, active, ap api_key_cache_key is ∙ seen.0, sym seen.1))
            | inr before ↦ backed key ctx before
          ])
        backed

  by_cache-keeps :
      (db : KeyTables) (s : Store) (h : String) (cached : Option ApiKeyContext)
      → IsBacked (db, s)
      → IsBacked (
        db,
        (by_cache hash_api_key redis (api_key_cache_key h) cached (lookup_by_hash h db.rows) s).0,
      )
  by_cache-keeps db s h (some c) backed = backed
  by_cache-keeps db s h none backed = or_lookup-keeps db s h (lookup_by_hash h db.rows) refl backed

  revoke_found-keeps :
      (org id : String) (o : Option ApiKeyRow) (w : State)
      → find_key org id w.0.rows ≡ o
      → IsBacked w
      → IsBacked (revoke_found hash_api_key redis org id o w).0
  revoke_found-keeps org id none w e backed = backed
  revoke_found-keeps org id (some k) (db, s) e backed = λ key ctx seen.
      let (other, before) = del_seen s (api_key_cache_key k.key_hash) key ctx seen in
      let (r, (at, active, is, same)) = backed key ctx before in
      elim (deactivate-IsIn org id db.rows k r e at) [
        | inl revoked ↦
            absurd (other (ap (λ (q : ApiKeyRow). api_key_cache_key q.key_hash) (sym revoked) ∙ is))
        | inr kept ↦ (r, (kept, active, is, same))
      ]

  -- What the services do, in any order.
  pub data KeyStep : Type 0 where
    creates : String → List String → Option ℕ → GeneratedApiKey → KeyStep
    revokes : String → String → KeyStep
    resolves : String → KeyStep

  unfoldable pub key_step : KeyStep → State → State
  unfolding create_api_key revoke_api_key resolve_api_key
  key_step (creates org scopes rpm new) (db, s) =
      ((create_api_key hash_api_key redis org scopes rpm new db).0, s)
  key_step (revokes org id) w = (revoke_api_key hash_api_key redis org id w).0
  key_step (resolves raw) (db, s) = (db, (resolve_api_key hash_api_key redis raw (db, s)).0)

  unfoldable pub key_run : List KeyStep → State → State
  unfolding key_step
  key_run [] w = w
  key_run (x ∷ xs) w = key_run xs (key_step x w)

  key_step-IsBacked : (x : KeyStep) (w : State) → IsBacked w → IsBacked (key_step x w)
  unfolding key_step create_api_key revoke_api_key resolve_api_key
  key_step-IsBacked (creates org scopes rpm new) (db, s) backed = λ key ctx seen.
      let (r, (at, active, is, same)) = backed key ctx seen in
      (r, (append-IsIn r db.rows _ at, active, is, same))
  key_step-IsBacked (revokes org id) (db, s) backed =
      revoke_found-keeps org id (find_key org id db.rows) (db, s) refl backed
  key_step-IsBacked (resolves raw) (db, s) backed =
      let h = hash_api_key raw in by_cache-keeps db s h (get s (api_key_cache_key h)) backed

  key_run-IsBacked : (xs : List KeyStep) (w : State) → IsBacked w → IsBacked (key_run xs w)
  unfolding key_run
  key_run-IsBacked [] w backed = backed
  key_run-IsBacked (x ∷ xs) w backed =
      key_run-IsBacked xs (key_step x w) (key_step-IsBacked x w backed)

  -- After any creations, revocations and resolutions, one after another, a key is resolved only to
  -- an active row with that key's hash, with its organization, scopes and rate as the row has them:
  -- a revocation takes effect at once, in spite of the cache. The cache is backed by active rows
  -- at the start, as an empty one is.
  pub resolve_api_key-IsActive :
      (xs : List KeyStep) (w : State) (raw : String) (ctx : ApiKeyContext)
      → IsBacked w
      → (resolve_api_key hash_api_key redis raw (key_run xs w)).1 ≡ some ctx
      → (r : ApiKeyRow) × IsIn r (key_run xs w).0.rows
        × (r.is_active ≡ true)
        × (r.key_hash ≡ hash_api_key raw)
        × (ctx ≡ context_of r)
  unfolding resolve_api_key
  resolve_api_key-IsActive xs w raw ctx backed k =
      let h = hash_api_key raw in
      let (db, s) = key_run xs w in
      let (r, (at, active, is, same)) =
        by_cache-IsActiveKey db s h (get s (api_key_cache_key h)) ctx (key_run-IsBacked xs w backed)
          refl k in
      (r, at, active, append_cancel_left "auth:" r.key_hash h is, same)
