-- ===== src/Auth/Rotation.antt =====
-- A refresh token is good for one use.
use text.Mathlib.TextLemmas.{append_cancel_left}
use cloud_mesh.Common.{
  ◌≡◌, ◌≢◌, ◌⊎◌, subst, ap, ◌∙◌, String, Bool, true, false, Option, none, some, List, [], ◌∷◌, All,
  str_eq, eq_iff, eq_refl, Bool-cases, inl, inr, if◌then◌else◌,
}
use cloud_mesh.Common.KeyValue.{KeyValue}
use cloud_mesh.CircuitBreaker.{Outcome, returned, threw}
use cloud_mesh.Auth.Sessions.{
  User, RefreshTokenPayload, TokenPair, AuthError, token_revoked, Tokens, refresh_key,
  issue_token_pair, login, for_user, is_stored, rotated, refresh, forgotten, logout,
}

module _ (jwt : Tokens) (redis : KeyValue String) where
  open redis use {Store, get, put, del, get-put, get-del}

  abbrev pub IsGone : String → Store → Type 0
  IsGone jti s = get s (refresh_key jti) ≡ none

  other_key : (a b : String) → a ≢ b → str_eq (refresh_key a) (refresh_key b) ≡ false
  other_key a b ne = elim (Bool-cases (str_eq (refresh_key a) (refresh_key b))) [
    | inl same ↦
        absurd
          (ne (append_cancel_left "refresh:" a b ((eq_iff (refresh_key a) (refresh_key b)).0 same)))
    | inr other ↦ other
  ]

  put-IsGone :
      (s : Store) (jti new user : String)
      → new ≢ jti
      → IsGone jti s
      → IsGone jti (put s (refresh_key new) user)
  put-IsGone s jti new user ne gone =
      get-put s (refresh_key new) (refresh_key jti) user
      ∙ ap (λ b. if b then some user else get s (refresh_key jti)) (other_key new jti ne)
      ∙ gone

  pub del_same-IsGone : (s : Store) (jti : String) → IsGone jti (del s (refresh_key jti))
  del_same-IsGone s jti =
      get-del s (refresh_key jti) (refresh_key jti)
      ∙ ap (λ b. if b then none else get s (refresh_key jti)) (eq_refl (refresh_key jti))

  del-IsGone : (s : Store) (jti key : String) → IsGone jti s → IsGone jti (del s key)
  del-IsGone s jti key gone = elim (Bool-cases (str_eq key (refresh_key jti))) [
    | inl same ↦
        get-del s key (refresh_key jti) ∙ ap (λ b. if b then none else get s (refresh_key jti)) same
    | inr other ↦
        get-del s key (refresh_key jti)
        ∙ ap (λ b. if b then none else get s (refresh_key jti)) other
        ∙ gone
  ]

  for_user-IsGone :
      (s : Store) (jti new : String) (user : Option User)
      → new ≢ jti
      → IsGone jti s
      → IsGone jti (for_user jwt redis new user s).0
  unfolding issue_token_pair
  for_user-IsGone s jti new none ne gone = gone
  for_user-IsGone s jti new (some user) ne gone = put-IsGone s jti new user.id ne gone

  in_either :
      (b : Bool) (jti : String) (p q : Store × Outcome AuthError TokenPair)
      → IsGone jti p.0
      → IsGone jti q.0
      → IsGone jti (if b then p else q).0
  in_either true jti p q g h = g
  in_either false jti p q g h = h

  -- A session operation, with the UUID that it draws.
  pub data SessionStep : Type 0 where
    logs_in : String → Option User → Bool → SessionStep
    refreshes : String → (String → Option User) → String → SessionStep
    logs_out : String → SessionStep

  abbrev pub IsFresh : String → SessionStep → Type 0
  IsFresh jti (logs_in new user valid) = new ≢ jti
  IsFresh jti (refreshes new users token) = new ≢ jti
  IsFresh jti (logs_out token) = Unit {0}

  unfoldable pub session_step : SessionStep → Store → Store
  unfolding login refresh logout
  session_step (logs_in new user valid) s = (login jwt redis new user valid s).0
  session_step (refreshes new users token) s = (refresh jwt redis new users token s).0
  session_step (logs_out token) s = logout jwt redis token s

  unfoldable pub session_run : List SessionStep → Store → Store
  unfolding session_step
  session_run [] s = s
  session_run (x ∷ xs) s = session_run xs (session_step x s)

  rotated-IsGone :
      (s : Store) (jti new : String) (users : String → Option User) (o : Option RefreshTokenPayload)
      → new ≢ jti
      → IsGone jti s
      → IsGone jti (rotated jwt redis new users o s).0
  rotated-IsGone s jti new users none ne gone = gone
  rotated-IsGone s jti new users (some p) ne gone =
      in_either (is_stored jwt redis p.sub (get s (refresh_key p.jti))) jti
        (for_user jwt redis new (users p.sub) (del s (refresh_key p.jti))) (s, threw token_revoked)
        (for_user-IsGone (del s (refresh_key p.jti)) jti new (users p.sub) ne
          (del-IsGone s jti (refresh_key p.jti) gone))
        gone

  forgotten-IsGone :
      (s : Store) (jti : String) (o : Option RefreshTokenPayload)
      → IsGone jti s
      → IsGone jti (forgotten jwt redis o s)
  forgotten-IsGone s jti none gone = gone
  forgotten-IsGone s jti (some p) gone = del-IsGone s jti (refresh_key p.jti) gone

  session_step-IsGone :
      (jti : String) (x : SessionStep) (s : Store)
      → IsFresh jti x
      → IsGone jti s
      → IsGone jti (session_step x s)
  unfolding session_step login refresh logout issue_token_pair
  session_step-IsGone jti (logs_in new (some user) true) s ne gone =
      put-IsGone s jti new user.id ne gone
  session_step-IsGone jti (logs_in new (some user) false) s ne gone = gone
  session_step-IsGone jti (logs_in new none valid) s ne gone = gone
  session_step-IsGone jti (refreshes new users token) s ne gone =
      rotated-IsGone s jti new users (jwt.verify_refresh token) ne gone
  session_step-IsGone jti (logs_out token) s ne gone =
      forgotten-IsGone s jti (jwt.verify_refresh token) gone

  session_run-IsGone :
      (jti : String) (xs : List SessionStep) (s : Store)
      → All (IsFresh jti) xs
      → IsGone jti s
      → IsGone jti (session_run xs s)
  unfolding session_run
  session_run-IsGone jti [] s h gone = gone
  session_run-IsGone jti (x ∷ xs) s (h, hs) gone =
      session_run-IsGone jti xs (session_step x s) hs (session_step-IsGone jti x s h gone)

  gone_revoked :
      (s : Store) (p : RefreshTokenPayload) (new : String) (users : String → Option User)
      → IsGone p.jti s
      → rotated jwt redis new users (some p) s ≡ (s, threw token_revoked)
  gone_revoked s p new users gone =
      ap
        (λ o.
          if is_stored jwt redis p.sub o
          then for_user jwt redis new (users p.sub) (del s (refresh_key p.jti))
          else (s, threw token_revoked))
        gone

  exchanged :
      (b : Bool) (jti : String) (s : Store) (p : Store × Outcome AuthError TokenPair)
      (pair : TokenPair)
      → IsGone jti p.0
      → (if b then p else (s, threw token_revoked)).1 ≡ returned pair
      → IsGone jti (if b then p else (s, threw token_revoked)).0
  exchanged true jti s p pair g h = g
  exchanged false jti s p pair g h = cc

  used-IsGone :
      (s : Store) (p : RefreshTokenPayload) (new : String) (users : String → Option User)
      (pair : TokenPair)
      → new ≢ p.jti
      → (rotated jwt redis new users (some p) s).1 ≡ returned pair
      → IsGone p.jti (rotated jwt redis new users (some p) s).0
  used-IsGone s p new users pair ne h =
      exchanged (is_stored jwt redis p.sub (get s (refresh_key p.jti))) p.jti s
        (for_user jwt redis new (users p.sub) (del s (refresh_key p.jti))) pair
        (for_user-IsGone (del s (refresh_key p.jti)) p.jti new (users p.sub) ne
          (del_same-IsGone s p.jti))
        h

  -- A refresh token that was exchanged for a new pair, or with which a session was ended, is refused
  -- ever after, whatever logs in, refreshes and logs out in between, and the attempt changes nothing.
  -- Operations follow one another, and no later one draws the token's own UUID.
  pub refresh_once :
      (token new : String) (users : String → Option User) (p : RefreshTokenPayload) (s s' : Store)
      (pair : TokenPair) (xs : List SessionStep) (again : String) (users' : String → Option User)
      → jwt.verify_refresh token ≡ some p
      → new ≢ p.jti
      → (refresh jwt redis new users token s ≡ (s', returned pair))
        ⊎ (logout jwt redis token s ≡ s')
      → All (IsFresh p.jti) xs
      → refresh jwt redis again users' token (session_run xs s')
        ≡ (session_run xs s', threw token_revoked)
  unfolding refresh logout
  refresh_once token new users p s s' pair xs again users' is ne ended fresh =
      let gone : IsGone p.jti s' = elim ended [
        | inl e ↦
            let e' : rotated jwt redis new users (some p) s ≡ (s', returned pair) = rw is at e in
            subst (IsGone p.jti) (ap (λ q. q.0) e')
              (used-IsGone s p new users pair ne (ap (λ q. q.1) e'))
        | inr e ↦
            let e' : del s (refresh_key p.jti) ≡ s' = rw is at e in
            subst (IsGone p.jti) e' (del_same-IsGone s p.jti)
      ] in
      rw is (
        gone_revoked (session_run xs s') p again users' (session_run-IsGone p.jti xs s' fresh gone))
