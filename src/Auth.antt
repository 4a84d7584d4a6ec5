-- ===== src/Auth.antt =====
-- packages/auth/src/resolveApiKey.ts and apiKey.ts, with the keys' service of
-- apps/api/src/modules/apiKeys/service.ts. The hash is an argument, and so are the random parts of
-- a new key. A row is found by its id within its organization, as row-level security has it.
pub mod Keys
pub mod Sessions
pub mod Rotation
mod Tests
use Prim.Native.String.{◌++◌ as ◌+++◌}
use cloud_mesh.Common.{
  ℕ, String, Bool, true, false, not, ◌&&◌, Option, none, some, List, [], ◌∷◌, ◌++◌, get_or, str_eq,
  if◌then◌else◌,
}
use cloud_mesh.Common.KeyValue.{KeyValue}
use cloud_mesh.CircuitBreaker.{Outcome, returned, threw}

pub record ApiKeyRow : Type 0 where
  pub id : String
  pub org_id : String
  pub key_hash : String
  pub key_prefix : String
  pub scopes : List String
  pub is_active : Bool
  pub rate_limit_rpm : ℕ

pub record ApiKeyContext : Type 0 where
  pub api_key_id : String
  pub org_id : String
  pub scopes : List String
  pub rate_limit_rpm : ℕ

pub data KeyEvent : Type 0 where
  api_key_created api_key_revoked : String → String → String → KeyEvent

pub record KeyTables : Type 0 where
  pub rows : List ApiKeyRow
  pub outbox : List KeyEvent

-- `lookup_api_key_by_hash`
abbrev pub lookup_by_hash : String → List ApiKeyRow → Option ApiKeyRow
lookup_by_hash h [] = none
lookup_by_hash h (r ∷ rs) = if str_eq r.key_hash h then some r else lookup_by_hash h rs

abbrev pub context_of : ApiKeyRow → ApiKeyContext
context_of r = record {
  api_key_id = r.id;
  org_id = r.org_id;
  scopes = r.scopes;
  rate_limit_rpm = r.rate_limit_rpm;
}

abbrev pub api_key_cache_key : String → String
api_key_cache_key h = "auth:" +++ h

-- What `generateApiKey` and the database choose for a new key.
pub record GeneratedApiKey : Type 0 where
  pub id : String
  pub raw_key : String
  pub key_prefix : String

pub record CreatedApiKey : Type 0 where
  pub id : String
  pub raw_key : String
  pub key_prefix : String
  pub scopes : List String
  pub rate_limit_rpm : ℕ

abbrev pub is_key : String → String → ApiKeyRow → Bool
is_key org id r = str_eq r.id id && str_eq r.org_id org

-- The update by primary key: the row that it changed, as it was found.
abbrev pub deactivate : String → String → List ApiKeyRow → List ApiKeyRow
deactivate org id [] = []
deactivate org id (r ∷ rs) =
    if is_key org id r then record r { is_active = false } ∷ rs else r ∷ deactivate org id rs

abbrev pub find_key : String → String → List ApiKeyRow → Option ApiKeyRow
find_key org id [] = none
find_key org id (r ∷ rs) = if is_key org id r then some r else find_key org id rs

module _ (hash_api_key : String → String) (redis : KeyValue ApiKeyContext) where
  open redis use {Store, get, put, del}

  abbrev pub or_lookup : String → Option ApiKeyRow → Store → Store × Option ApiKeyContext
  or_lookup key none s = (s, none)
  or_lookup key (some r) s =
      if r.is_active then (put s key (context_of r), some (context_of r)) else (s, none)

  abbrev pub by_cache :
      String → Option ApiKeyContext → Option ApiKeyRow → Store → Store × Option ApiKeyContext
  by_cache key (some ctx) row s = (s, some ctx)
  by_cache key none row s = or_lookup key row s

  unfoldable pub resolve_api_key : String → KeyTables × Store → Store × Option ApiKeyContext
  resolve_api_key raw_key (db, s) =
      let h = hash_api_key raw_key in
      let key = api_key_cache_key h in by_cache key (get s key) (lookup_by_hash h db.rows) s

  unfoldable pub create_api_key :
      String → List String → Option ℕ → GeneratedApiKey → KeyTables → KeyTables × CreatedApiKey
  create_api_key org scopes rpm new db =
      let rate = get_or rpm 60 in
      let row : ApiKeyRow = record {
        id = new.id;
        org_id = org;
        key_hash = hash_api_key new.raw_key;
        key_prefix = new.key_prefix;
        scopes = scopes;
        is_active = true;
        rate_limit_rpm = rate;
      } in
      (
        record {
          rows = db.rows ++ row ∷ [];
          outbox = db.outbox ++ api_key_created org new.id new.key_prefix ∷ [];
        },
        record {
          id = new.id;
          raw_key = new.raw_key;
          key_prefix = new.key_prefix;
          scopes = scopes;
          rate_limit_rpm = rate;
        },
      )

  -- `false` is a `NotFoundError`, the same for another organization's key.
  abbrev pub revoke_found :
      String → String → Option ApiKeyRow → KeyTables × Store → (KeyTables × Store) × Bool
  revoke_found org id none w = (w, false)
  revoke_found org id (some r) (db, s) = (
    (
      record {
        rows = deactivate org id db.rows;
        outbox = db.outbox ++ api_key_revoked org id r.key_prefix ∷ [];
      },
      del s (api_key_cache_key r.key_hash),
    ),
    true,
  )

  unfoldable pub revoke_api_key : String → String → KeyTables × Store → (KeyTables × Store) × Bool
  revoke_api_key org id (db, s) = revoke_found org id (find_key org id db.rows) (db, s)
