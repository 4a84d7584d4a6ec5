-- ===== src/Auth/Tests.antt =====
-- Runs of the keys and the sessions, and their theorems at concrete inputs.
use Prim.Native.String.{◌++◌ as ◌+++◌}
use cloud_mesh.Common.{
  ◌≡◌, ◌≢◌, refl, String, true, false, Option, none, some, List, [], ◌∷◌, IsIn, inl, eq_iff,
}
use cloud_mesh.Common.KeyValue.{KeyValue, memory, blank}
use cloud_mesh.CircuitBreaker.{returned, threw}
use cloud_mesh.Auth.{
  ApiKeyRow, ApiKeyContext, context_of, GeneratedApiKey, create_api_key, resolve_api_key,
  revoke_api_key, by_cache, lookup_by_hash, api_key_cache_key,
}
use cloud_mesh.Auth.Keys.{
  State, KeyStep, creates, revokes, resolves, key_step, key_run, resolve_api_key-IsActive,
}
use cloud_mesh.Auth.Sessions.{User, token_revoked, Tokens, issue_token_pair, refresh}
use cloud_mesh.Auth.Rotation.{logs_in, logs_out, session_run, refresh_once}

-- A hash that marks its argument.
abbrev hash : String → String
hash k = "#" +++ k

abbrev cache : KeyValue ApiKeyContext
cache = memory ApiKeyContext

abbrev empty : State hash cache
empty = (record { rows = []; outbox = [] }, blank)

abbrev new : String → GeneratedApiKey
new id = record { id = id; raw_key = "cm_live_" +++ id; key_prefix = "cm_live_" }

abbrev steps : List (KeyStep hash cache)
steps =
    creates "acme" ("chat" ∷ []) none (new "k1")
    ∷ creates "acme" [] (some 10) (new "k2")
    ∷ resolves "cm_live_k1"
    ∷ resolves "cm_live_k2"
    ∷ []

-- The cache knew the key when it was revoked, and another organization cannot revoke it.
revoked_refused :
    (resolve_api_key hash cache "cm_live_k1"
      (key_run hash cache (revokes "acme" "k1" ∷ []) (key_run hash cache steps empty))).1
    ≡ none
unfolding key_run key_step create_api_key resolve_api_key revoke_api_key
revoked_refused = refl

others_kept : (revoke_api_key hash cache "globex" "k1" (key_run hash cache steps empty)).1 ≡ false
unfolding key_run key_step create_api_key resolve_api_key revoke_api_key
others_kept = refl

abbrev expected : ApiKeyContext
expected = record { api_key_id = "k2"; org_id = "acme"; scopes = []; rate_limit_rpm = 10 }

k2_found :
    (resolve_api_key hash cache "cm_live_k2" (key_run hash cache steps empty)).1 ≡ some expected
unfolding key_run key_step create_api_key resolve_api_key
k2_found = refl

nothing_cached :
    (key : String) (ctx : ApiKeyContext)
    → cache.get blank key ≡ some ctx
    → (r : ApiKeyRow) × (IsIn r []
        × (r.is_active ≡ true)
        × (api_key_cache_key r.key_hash ≡ key)
        × (ctx ≡ context_of r))
nothing_cached key ctx h = cc

resolve_api_key-IsActive_example :
    (r : ApiKeyRow) × IsIn r (key_run hash cache steps empty).0.rows
    × (r.is_active ≡ true)
    × (r.key_hash ≡ hash "cm_live_k2")
    × (expected ≡ context_of r)
resolve_api_key-IsActive_example =
    resolve_api_key-IsActive hash cache steps empty "cm_live_k2" expected nothing_cached k2_found

-- A resolution that read the row before the revocation and wrote the cache after it: the revoked
-- key is accepted from the cache.
late_write :
    (let before = key_run hash cache (creates "acme" [] none (new "k1") ∷ []) empty in
      let row = lookup_by_hash (hash "cm_live_k1") before.0.rows in
      let (w, done) = revoke_api_key hash cache "acme" "k1" before in
      let (s, answer) = by_cache hash cache (api_key_cache_key (hash "cm_live_k1")) none row w.1 in
      (resolve_api_key hash cache "cm_live_k1" (w.0, s)).1)
    ≡ some (record { api_key_id = "k1"; org_id = "acme"; scopes = []; rate_limit_rpm = 60 })
unfolding key_run key_step create_api_key resolve_api_key revoke_api_key
late_write = refl

-- Tokens that say what they are for.
abbrev jwt : Tokens
jwt = record {
  sign_access = λ p. p.sub;
  sign_refresh = λ p. p.jti;
  verify_refresh = λ token. some (record { sub = "ada"; org_id = "acme"; jti = token });
}

abbrev ada : User
ada = record { id = "ada"; org_id = "acme"; role = "OWNER" }

abbrev sessions : KeyValue String
sessions = memory String

abbrev session : String → Option String
session = sessions.put blank "refresh:u1" "ada"

exchanged_then_refused : refresh jwt sessions "u2" (λ id. some ada) "u1" session ≡ (
  sessions.put (sessions.del session "refresh:u1") "refresh:u2" "ada",
  returned (record { access_token = "ada"; refresh_token = "u2" }),
)
unfolding refresh issue_token_pair
exchanged_then_refused = refl

u2_u1 : ◌≢◌ {A = String} "u2" "u1"
u2_u1 e = let t = (eq_iff "u2" "u1").1 e in cc

u3_u1 : ◌≢◌ {A = String} "u3" "u1"
u3_u1 e = let t = (eq_iff "u3" "u1").1 e in cc

refresh_once_example :
    refresh jwt sessions "u4"
      (λ id. some ada)
      "u1"
      (session_run jwt sessions
        (logs_in "u3" (some ada) true ∷ logs_out "u3" ∷ [])
        (sessions.put (sessions.del session "refresh:u1") "refresh:u2" "ada"))
    ≡ (
      session_run jwt sessions
          (logs_in "u3" (some ada) true ∷ logs_out "u3" ∷ [])
          (sessions.put (sessions.del session "refresh:u1") "refresh:u2" "ada"),
      threw token_revoked,
    )
refresh_once_example =
    refresh_once jwt sessions "u1" "u2" (λ id. some ada)
      (record { sub = "ada"; org_id = "acme"; jti = "u1" }) session
      (sessions.put (sessions.del session "refresh:u1") "refresh:u2" "ada")
      (record { access_token = "ada"; refresh_token = "u2" })
      (logs_in "u3" (some ada) true ∷ logs_out "u3" ∷ []) "u4" (λ id. some ada) refl u2_u1
      (inl exchanged_then_refused) (u3_u1, (tt, tt))
