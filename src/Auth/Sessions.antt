-- ===== src/Auth/Sessions.antt =====
-- apps/api/src/modules/auth/service.ts: sessions by refresh tokens. Signing and verifying a token
-- is an argument, as is the check of a password; the UUID of a new token is an argument of each
-- operation. A token's identifier is stored in Redis while the token may be used.
use Prim.Native.String.{◌++◌ as ◌+++◌}
use cloud_mesh.Common.{String, Bool, true, false, Option, none, some, str_eq, if◌then◌else◌}
use cloud_mesh.Common.KeyValue.{KeyValue}
use cloud_mesh.CircuitBreaker.{Outcome, returned, threw}

pub record User : Type 0 where
  pub id : String
  pub org_id : String
  pub role : String

pub record AccessTokenPayload : Type 0 where
  pub sub : String
  pub org_id : String
  pub role : String

pub record RefreshTokenPayload : Type 0 where
  pub sub : String
  pub org_id : String
  pub jti : String

pub record TokenPair : Type 0 where
  pub access_token : String
  pub refresh_token : String

pub data AuthError : Type 0 where
  invalid_credentials invalid_token token_revoked account_gone : AuthError

pub record Tokens : Type 0 where
  pub sign_access : AccessTokenPayload → String
  pub sign_refresh : RefreshTokenPayload → String
  pub verify_refresh : String → Option RefreshTokenPayload

abbrev pub refresh_key : String → String
refresh_key jti = "refresh:" +++ jti

module _ (jwt : Tokens) (redis : KeyValue String) where
  open redis use {Store, get, put, del}

  unfoldable pub issue_token_pair : String → User → Store → Store × TokenPair
  issue_token_pair jti user s = (
    put s (refresh_key jti) user.id,
    record {
      access_token =
          jwt.sign_access (record { sub = user.id; org_id = user.org_id; role = user.role });
      refresh_token = jwt.sign_refresh (record { sub = user.id; org_id = user.org_id; jti = jti });
    },
  )

  abbrev pub issued : Store × TokenPair → Store × Outcome AuthError TokenPair
  issued (s, pair) = (s, returned pair)

  -- The user found by the address, and whether the password is right.
  unfoldable pub login : String → Option User → Bool → Store → Store × Outcome AuthError TokenPair
  unfolding issue_token_pair
  login jti (some user) true s = issued (issue_token_pair jti user s)
  login jti (some user) false s = (s, threw invalid_credentials)
  login jti none valid s = (s, threw invalid_credentials)

  abbrev pub for_user : String → Option User → Store → Store × Outcome AuthError TokenPair
  for_user jti none s = (s, threw account_gone)
  for_user jti (some user) s = issued (issue_token_pair jti user s)

  abbrev pub is_stored : String → Option String → Bool
  is_stored sub none = false
  is_stored sub (some user) = str_eq user sub

  -- `users` is the table of users by id.
  abbrev pub rotated :
      String
      → (String → Option User)
      → Option RefreshTokenPayload
      → Store
      → Store × Outcome AuthError TokenPair
  rotated jti users none s = (s, threw invalid_token)
  rotated jti users (some p) s =
      if is_stored p.sub (get s (refresh_key p.jti))
      then for_user jti (users p.sub) (del s (refresh_key p.jti))
      else (s, threw token_revoked)

  unfoldable pub refresh :
      String → (String → Option User) → String → Store → Store × Outcome AuthError TokenPair
  unfolding issue_token_pair
  refresh jti users token s = rotated jti users (jwt.verify_refresh token) s

  abbrev pub forgotten : Option RefreshTokenPayload → Store → Store
  forgotten none s = s
  forgotten (some p) s = del s (refresh_key p.jti)

  unfoldable pub logout : String → Store → Store
  logout token s = forgotten (jwt.verify_refresh token) s
