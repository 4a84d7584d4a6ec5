-- ===== src/Routing/Considered.antt =====
-- The candidates that the gateway considers, their scores and the best of them.
use cloud_mesh.Common.{
  ◌≡◌, ap, get_or, ◌∙◌, ◌*◌, ◌≤◌, leb→le, String, Option, none, some, List, [], ◌∷◌, All, inl, inr,
  IsIn, subst, refl,
}
use cloud_mesh.Common.KeyValue.{KeyValue}
use cloud_mesh.CircuitBreaker.{Circuit}
use cloud_mesh.Routing.{ModelRegistry}
use cloud_mesh.Billing.Pricing.{get_model_pricing}
use cloud_mesh.Routing.Select.{
  routing_presets, Score, Candidate, ScoredCandidate, ProviderStats, RoutingPresetName,
  candidate_of, cons_some, resolve_open_candidates, score_of, scored_all, ranked,
}
use cloud_mesh.Routing.Ranked.{HasValue, Below, ranked-IsIn, compute_routing_score_value}
use cloud_mesh.Routing.Resolved.{IsAvailable, IsAvailable-candidate_of}
use cloud_mesh.Routing.Scores.{wanted_score, compute_routing_score-wanted_score}

module _ (redis : KeyValue Circuit) (registry : ModelRegistry) (s : redis.Store)
    (stats : String → ProviderStats) (preset : RoutingPresetName) where
  abbrev pub scored_by : Candidate → ScoredCandidate
  scored_by = score_of redis registry stats preset

  abbrev pub wanted_by : Candidate → Score
  wanted_by c =
      wanted_score (stats c.resolved.provider) (get_model_pricing c.resolved.provider_model)
        (routing_presets preset)

  pub scored_by_wanted : (c : Candidate) → (scored_by c).score ≡ wanted_by c
  unfolding score_of
  scored_by_wanted c =
      compute_routing_score-wanted_score (stats c.resolved.provider).sample_count
        (stats c.resolved.provider) (get_model_pricing c.resolved.provider_model)
        (routing_presets preset) refl

  scored_by_candidate : (c : Candidate) → (scored_by c).candidate ≡ c
  unfolding score_of
  scored_by_candidate c = refl

  -- An available candidate with its own score.
  abbrev pub IsScored : ScoredCandidate → Type 0
  IsScored x = IsAvailable redis registry s x.candidate × (x.score ≡ wanted_by x.candidate)

  pub scored_by-IsScored : (c : Candidate) → IsAvailable redis registry s c → IsScored (scored_by c)
  unfolding score_of
  scored_by-IsScored c a = (a, scored_by_wanted c)

  -- Each available candidate for one of these models is among the scored ones.
  abbrev pub HasAll : List String → List ScoredCandidate → Type 0
  HasAll ms xs =
      All
        (λ m.
          (c : Candidate)
          → c.model ≡ m
          → IsAvailable redis registry s c
          → (x : ScoredCandidate) × IsIn x xs × (x.candidate ≡ c))
        ms

  -- No available candidate for one of these models has a score above this one's.
  abbrev pub IsBest : ScoredCandidate → List String → Type 0
  IsBest best ms =
      All
        (λ m.
          (c : Candidate)
          → c.model ≡ m
          → IsAvailable redis registry s c
          → (wanted_by c).num * best.score.den ≤ best.score.num * (wanted_by c).den)
        ms

  cons_some-IsIn :
      (o : Option Candidate) (c : Candidate) (cs : List Candidate)
      → o ≡ some c
      → IsIn c (cons_some redis registry o cs)
  cons_some-IsIn none c cs h = cc
  cons_some-IsIn (some d) c cs h = inl (ap (λ o. get_or o c) h)

  cons_some-later :
      (o : Option Candidate) (c : Candidate) (cs : List Candidate)
      → IsIn c cs
      → IsIn c (cons_some redis registry o cs)
  cons_some-later none c cs h = h
  cons_some-later (some d) c cs h = inr h

  scored_all-IsIn :
      (c : Candidate) (cs : List Candidate)
      → IsIn c cs
      → IsIn (scored_by c) (scored_all redis registry stats preset cs)
  scored_all-IsIn c [] h = cc
  scored_all-IsIn c (d ∷ cs) (inl same) = inl (ap scored_by same)
  scored_all-IsIn c (d ∷ cs) (inr h) = inr (scored_all-IsIn c cs h)

  -- The candidates of some models are scored, whichever models come before.
  abbrev Covered : List Candidate → String → Type 0
  Covered cs m =
      (c : Candidate)
      → c.model ≡ m
      → IsAvailable redis registry s c
      → (x : ScoredCandidate) × IsIn x (ranked (scored_all redis registry stats preset cs))
        × (x.candidate ≡ c)

  covered :
      (m : String) (cs : List Candidate)
      → ((c : Candidate) → c.model ≡ m → IsAvailable redis registry s c → IsIn c cs)
      → Covered cs m
  covered m cs h c same available = (
    scored_by c,
    ranked-IsIn (scored_by c) (scored_all redis registry stats preset cs)
        (scored_all-IsIn c cs (h c same available)),
    scored_by_candidate c,
  )

  each_model :
      (P : String → Type 0) (cs : List Candidate)
      → ((m : String)
          → ((c : Candidate) → c.model ≡ m → IsAvailable redis registry s c → IsIn c cs)
          → P m)
      → (ms : List String)
      → ((c : Candidate) → IsIn c (resolve_open_candidates redis registry s ms) → IsIn c cs)
      → All P ms
  unfolding resolve_open_candidates
  each_model P cs f [] inside = tt
  each_model P cs f (m ∷ ms) inside = (
    f m (λ c same available. inside c (
        cons_some-IsIn (candidate_of redis registry s m) c _
          (IsAvailable-candidate_of redis registry s m c same available))),
    each_model P cs f ms
        (λ c h. inside c (cons_some-later (candidate_of redis registry s m) c _ h)),
  )

  pub ranked-HasAll :
      (ms : List String)
      → HasAll ms (
          ranked
            (scored_all redis registry stats preset (resolve_open_candidates redis registry s ms)))
  ranked-HasAll ms =
      let cs = resolve_open_candidates redis registry s ms in
      each_model (Covered cs) cs (λ m h. covered m cs h) ms (λ c h. h)

  bounded_score :
      (top : ScoredCandidate) (xs : List ScoredCandidate) (m : String) (c : Candidate)
      (x : ScoredCandidate)
      → All (Below top.score) xs
      → All IsScored xs
      → IsIn x xs
      → x.candidate ≡ c
      → (wanted_by c).num * top.score.den ≤ top.score.num * (wanted_by c).den
  bounded_score top [] m c x hs own h is = cc
  bounded_score top (y ∷ xs) m c x (h, hs) (o, os) (inl same) is =
      let score : y.score ≡ wanted_by c =
        o.1 ∙ (ap (λ (z : ScoredCandidate). wanted_by z.candidate) same ∙ ap wanted_by is) in
      subst (λ (q : Score). q.num * top.score.den ≤ top.score.num * q.den) score (leb→le _ _ h)
  bounded_score top (y ∷ xs) m c x (h, hs) (o, os) (inr later) is =
      bounded_score top xs m c x hs os later is

  pub top-IsBest :
      (top : ScoredCandidate) (xs : List ScoredCandidate) (ms : List String)
      → All (Below top.score) xs
      → All IsScored xs
      → HasAll ms xs
      → IsBest top ms
  top-IsBest top xs [] below own all = tt
  top-IsBest top xs (m ∷ ms) below own (here, later) = (
    λ c same available.
        let (x, there, is) = here c same available in bounded_score top xs m c x below own there is,
    top-IsBest top xs ms below own later,
  )

  pub scored_by-HasValue : (c : Candidate) → HasValue (scored_by c)
  unfolding score_of
  scored_by-HasValue c =
      compute_routing_score_value (stats c.resolved.provider)
        (get_model_pricing c.resolved.provider_model) (routing_presets preset)

  pub scored_all-All :
      (P : ScoredCandidate → Type 0) (cs : List Candidate)
      → All (λ c. P (scored_by c)) cs
      → All P (scored_all redis registry stats preset cs)
  scored_all-All P [] h = tt
  scored_all-All P (c ∷ cs) (h, hs) = (h, scored_all-All P cs hs)

  pub All-mono :
      (P Q : Candidate → Type 0) (cs : List Candidate)
      → ((c : Candidate) → P c → Q c)
      → All P cs
      → All Q cs
  All-mono P Q [] f h = tt
  All-mono P Q (c ∷ cs) f (h, hs) = (f c h, All-mono P Q cs f hs)

  pub every : (P : Candidate → Type 0) (cs : List Candidate) → ((c : Candidate) → P c) → All P cs
  every P [] f = tt
  every P (c ∷ cs) f = (f c, every P cs f)
