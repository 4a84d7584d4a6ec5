-- ===== src/RateLimiter/Announced.antt =====
-- How often an organization is told that its requests are refused.
use cloud_mesh.Common.{
  ℕ, ◌+◌, ◌≤◌, ◌≡◌, refl, sym, ap, ◌∙◌, Bool, true, false, Option, none, some, List, [], ◌∷◌, ◌++◌,
  map, arith, str_eq, eq_iff, eq_refl, Bool-cases, inl, inr, All, All-map,
}
use cloud_mesh.Common.KeyValue.{KeyValue}
use cloud_mesh.Tenant.{is_uuid, with_tenant}
use cloud_mesh.CircuitBreaker.{Outcome, returned, threw}
use cloud_mesh.RateLimiter.TokenBucket.{Bucket}
use cloud_mesh.RateLimiter.Gate.{require_rate_limit}
use cloud_mesh.RateLimiter.Rejected.{
  RateLimitedEvent, GatedRequest, rate_limited_key, bucket_key, is_held, claim_dedupe_slot,
  emit_rate_limited_event, GateWorld, rejection_of, after_bucket, gate,
}

-- The later event is a minute after the earlier one, if both are of one organization.
abbrev pub IsApart : RateLimitedEvent → RateLimitedEvent → Type 0
IsApart e f = e.org_id ≡ f.org_id → e.occurred_at + 60_000 ≤ f.occurred_at

abbrev pub IsSpaced : List RateLimitedEvent → Type 0
IsSpaced [] = Unit {0}
IsSpaced (e ∷ es) = All (IsApart e) es × IsSpaced es

last-All :
    (P : RateLimitedEvent → Type 0) (es : List RateLimitedEvent) (f : RateLimitedEvent)
    → All P es
    → P f
    → All P (es ++ f ∷ [])
last-All P [] f h p = (p, tt)
last-All P (e ∷ es) f (h, hs) p = (h, last-All P es f hs p)

last-IsSpaced :
    (es : List RateLimitedEvent) (f : RateLimitedEvent)
    → IsSpaced es
    → All (λ e. IsApart e f) es
    → IsSpaced (es ++ f ∷ [])
last-IsSpaced [] f s h = (tt, tt)
last-IsSpaced (e ∷ es) f (s, ss) (h, hs) = (last-All (IsApart e) es f s h, last-IsSpaced es f ss hs)

module _ (redis : KeyValue ℕ) where
  -- The slot of an event's organization is taken for a minute from the event on.
  abbrev pub IsKept : redis.Store → RateLimitedEvent → Type 0
  IsKept s e =
      (expires : ℕ) × (redis.get s (rate_limited_key e.org_id) ≡ some expires)
      × (e.occurred_at + 60_000 ≤ expires)

  abbrev pub IsRecorded : redis.Store → List RateLimitedEvent → Type 0
  IsRecorded s es = IsSpaced es × All (IsKept s) es

  expired :
      (now expires : ℕ) (o : Option ℕ) → o ≡ some expires → is_held now o ≡ false → expires ≤ now
  expired now expires none h free = cc
  expired now expires (some t) h free = grind arith

  kept_before :
      (s : redis.Store) (e f : RateLimitedEvent)
      → is_held f.occurred_at (redis.get s (rate_limited_key f.org_id)) ≡ false
      → IsKept s e
      → rate_limited_key f.org_id ≡ rate_limited_key e.org_id
      → e.occurred_at + 60_000 ≤ f.occurred_at
  kept_before s e f free (expires, held, late) same =
      let past = expired f.occurred_at expires _ (ap (redis.get s) same ∙ held) free in
      omega (arith, late, past)

  claimed-IsKept :
      (s : redis.Store) (e f : RateLimitedEvent)
      → is_held f.occurred_at (redis.get s (rate_limited_key f.org_id)) ≡ false
      → IsKept s e
      → IsKept (redis.put s (rate_limited_key f.org_id) (f.occurred_at + 60_000)) e
  claimed-IsKept s e f free (expires, held, late) =
      elim (Bool-cases (str_eq (rate_limited_key f.org_id) (rate_limited_key e.org_id))) [
        | inl same ↦ (
          f.occurred_at + 60_000,
          rw (redis.get-put s _ (rate_limited_key e.org_id) (f.occurred_at + 60_000), same) refl,
          omega (arith, kept_before s e f free (expires, held, late) ((eq_iff _ _).0 same)),
        )
        | inr differs ↦ (
          expires,
          rw (redis.get-put s _ (rate_limited_key e.org_id) (f.occurred_at + 60_000), differs) held,
          late,
        )
      ]

  -- After the slot was taken, with the event or without it.
  claimed-IsRecorded :
      (s : redis.Store) (es : List RateLimitedEvent) (f : RateLimitedEvent)
      → is_held f.occurred_at (redis.get s (rate_limited_key f.org_id)) ≡ false
      → IsRecorded s es
      → let s' = redis.put s (rate_limited_key f.org_id) (f.occurred_at + 60_000) in
        IsRecorded s' es × IsRecorded s' (es ++ f ∷ [])
  claimed-IsRecorded s es f free (spaced, kept) =
      let s' = redis.put s (rate_limited_key f.org_id) (f.occurred_at + 60_000) in
      let kept' = All-map (IsKept s) (IsKept s') es (λ e h. claimed-IsKept s e f free h) kept in
      let f_kept : IsKept s' f = (
        f.occurred_at + 60_000,
        rw
            (
              redis.get-put s _ (rate_limited_key f.org_id) (f.occurred_at + 60_000),
              eq_refl (rate_limited_key f.org_id),
            )
            refl,
        omega arith,
      ) in
      (
        (spaced, kept'),
        (
          last-IsSpaced es f spaced (
              All-map (IsKept s) (λ e. IsApart e f) es
                (λ e h same. kept_before s e f free h (ap rate_limited_key (sym same))) kept),
          last-All (IsKept s') es f kept' f_kept,
        ),
      )

  emit-IsRecorded :
      (claim_fails write_fails : Bool) (f : RateLimitedEvent) (s : redis.Store)
      (es : List RateLimitedEvent)
      → IsRecorded s es
      → let emitted = emit_rate_limited_event redis claim_fails write_fails f s es in
        IsRecorded emitted.0 emitted.1
  unfolding emit_rate_limited_event claim_dedupe_slot with_tenant
  emit-IsRecorded true write_fails f s es h = h
  emit-IsRecorded false write_fails f s es h =
      elim (Bool-cases (is_held f.occurred_at (redis.get s (rate_limited_key f.org_id)))) [
        | inl held ↦ rw held h
        | inr free ↦
            let (without, with_event) = claimed-IsRecorded s es f free h in
            elim (Bool-cases (is_uuid f.org_id)) [
              | inl valid ↦ elim (Bool-cases write_fails) [
                | inl fails ↦ rw (free, valid, fails) without
                | inr works ↦ rw (free, valid, works) with_event
              ]
              | inr invalid ↦ rw (free, invalid) without
            ]
      ]

  module _ (buckets : KeyValue Bucket) where
    -- Requests one after another, and what each is answered.
    unfoldable pub gate_all :
        List GatedRequest
        → GateWorld redis buckets
        → GateWorld redis buckets × List (Outcome ℕ (Unit {0}))
    unfolding gate
    gate_all [] w = (w, [])
    gate_all (r ∷ rs) w =
        let here = gate redis buckets r w in
        let later = gate_all rs here.0 in (later.0, here.1 ∷ later.1)

    -- The same requests at the buckets alone, each with the event of its refusal.
    unfoldable pub ask_all :
        List GatedRequest → buckets.Store → List (RateLimitedEvent × Outcome ℕ (Unit {0}))
    unfolding require_rate_limit
    ask_all [] s = []
    ask_all (r ∷ rs) s =
        let stored = buckets.get s (bucket_key r.api_key_id) in
        let answer = require_rate_limit r.rate_limit_rpm r.now r.clock stored in
        (rejection_of redis buckets r stored, answer.1)
        ∷ ask_all rs (buckets.put s (bucket_key r.api_key_id) answer.0)

    after_bucket_reply :
        (r : GatedRequest) (stored : Option Bucket) (w : GateWorld redis buckets)
        (o : Outcome ℕ (Unit {0}))
        → (after_bucket redis buckets r stored w o).1 ≡ o
    after_bucket_reply r stored w (returned passed) = refl
    after_bucket_reply r stored w (threw seconds) = refl

    pub after_bucket_held :
        (r : GatedRequest) (stored : Option Bucket) (w : GateWorld redis buckets)
        (o : Outcome ℕ (Unit {0}))
        → (after_bucket redis buckets r stored w o).0.buckets_held ≡ w.buckets_held
    after_bucket_held r stored w (returned passed) = refl
    after_bucket_held r stored w (threw seconds) = refl

    after_bucket-IsRecorded :
        (r : GatedRequest) (stored : Option Bucket) (w : GateWorld redis buckets)
        (o : Outcome ℕ (Unit {0}))
        → IsRecorded w.slots w.outbox
        → IsRecorded
            (after_bucket redis buckets r stored w o).0.slots
            (after_bucket redis buckets r stored w o).0.outbox
    after_bucket-IsRecorded r stored w (returned passed) h = h
    after_bucket-IsRecorded r stored w (threw seconds) h =
        emit-IsRecorded r.claim_fails r.write_fails (rejection_of redis buckets r stored) w.slots
          w.outbox h

    gate_all-IsRecorded :
        (rs : List GatedRequest) (w : GateWorld redis buckets)
        → IsRecorded w.slots w.outbox
        → IsRecorded (gate_all rs w).0.slots (gate_all rs w).0.outbox
    unfolding gate_all gate
    gate_all-IsRecorded [] w h = h
    gate_all-IsRecorded (r ∷ rs) w h =
        gate_all-IsRecorded rs (gate redis buckets r w).0 (after_bucket-IsRecorded r _ _ _ h)

    replies_same :
        (rs : List GatedRequest) (w : GateWorld redis buckets)
        → (gate_all rs w).1 ≡ map (λ a. a.1) (ask_all rs w.buckets_held)
    unfolding gate_all gate ask_all
    replies_same [] w = refl
    replies_same (r ∷ rs) w =
        let stored = buckets.get w.buckets_held (bucket_key r.api_key_id) in
        let answer = require_rate_limit r.rate_limit_rpm r.now r.clock stored in
        let next : GateWorld redis buckets = record w {
          buckets_held = buckets.put w.buckets_held (bucket_key r.api_key_id) answer.0;
        } in
        rw (after_bucket_reply r stored next answer.1) (
          ap (λ later. answer.1 ∷ later)
            (replies_same rs (gate redis buckets r w).0
              ∙ ap (λ s. map (λ a. a.1) (ask_all rs s)) (after_bucket_held r stored next answer.1)))

    -- Whatever requests pass the gate, at which times and from which organizations, and whatever of
    -- the claims and the writes fails: two events of one organization are at least 60 seconds
    -- apart, and each request is answered as its bucket alone says. Beforehand each event's slot is
    -- taken for a minute from the event on, as where there is none.
    pub gate_all-IsSpaced :
        (rs : List GatedRequest) (w : GateWorld redis buckets)
        → IsRecorded w.slots w.outbox
        → IsSpaced (gate_all rs w).0.outbox
          × ((gate_all rs w).1 ≡ map (λ a. a.1) (ask_all rs w.buckets_held))
    gate_all-IsSpaced rs w h = ((gate_all-IsRecorded rs w h).0, replies_same rs w)
