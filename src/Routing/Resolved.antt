-- ===== src/Routing/Resolved.antt =====
-- What `resolveModelWithFallback` promises of the model that it picks, and of its errors.
use cloud_mesh.Common.{
  ◌≡◌, ◌⊎◌, ◌≢◌, refl, ap, get_or, ◌++◌, ◌||◌, String, Bool, true, Option, none, some, List, [],
  ◌∷◌, All, str_eq, Bool-cases, inl, inr, ◌∙◌, if◌then◌else◌,
}
use cloud_mesh.Common.KeyValue.{KeyValue}
use cloud_mesh.CircuitBreaker.{Circuit, CircuitState, closed, opened, half_open, get_circuit_state}
use cloud_mesh.Routing.{
  ResolvedModel, ProviderRule, ModelRegistry, find_rule, resolved_by, starts_with, mock_rules,
  resolve, build_registry,
}
use cloud_mesh.Routing.Select.{
  Candidate, is_open, if_available, candidate_of, cons_some, resolve_open_candidates,
}

find_rule_last :
    (rs : List ProviderRule) (r : ProviderRule) (target : String)
    → r.matches target ≡ true
    → (q : ProviderRule) × (find_rule (rs ++ r ∷ []) target ≡ some q)
find_rule_last [] r target h = (r, rw (h, find_rule) refl)
find_rule_last (x ∷ rs) r target h = elim (Bool-cases (x.matches target)) [
  | inl found ↦ (x, rw (found, find_rule) refl)
  | inr not_found ↦ let (q, e) = find_rule_last rs r target h in (q, rw (not_found, find_rule) e)
]

-- With the registry that the gateway builds, every name has a provider.
pub build_registry_resolves :
    (enable_mock : Bool) (default_model model : String)
    → (r : ResolvedModel) × (resolve (build_registry enable_mock default_model) model ≡ some r)
unfolding build_registry resolve
build_registry_resolves enable_mock default_model model =
    let target = if str_eq model "auto" then default_model else model in
    let named =
      record {
        provider = "openai";
        matches = λ m.
            starts_with "gpt-" m || starts_with "o1" m || starts_with "o3" m || starts_with "o4" m;
      }
      ∷ record { provider = "anthropic"; matches = starts_with "claude-" }
      ∷ record { provider = "gemini"; matches = starts_with "gemini-" }
      ∷ mock_rules enable_mock in
    let (q, e) =
      find_rule_last named (record { provider = "ollama"; matches = λ m. true }) target refl in
    (record { provider = q.provider; provider_model = target }, ap (resolved_by target) e)

module _ (redis : KeyValue Circuit) (registry : ModelRegistry) (s : redis.Store) where
  -- The candidate's model resolves, to a provider whose circuit is not open.
  abbrev pub IsAvailable : Candidate → Type 0
  IsAvailable c =
      (resolve registry c.model ≡ some c.resolved)
      × (get_circuit_state redis s c.resolved.provider ≢ opened)

  if_available-IsAvailable :
      (m : String) (found : Option ResolvedModel) (c : Candidate)
      → resolve registry m ≡ found
      → if_available redis registry s m found ≡ some c
      → (c.model ≡ m) × IsAvailable c
  if_available-IsAvailable m none c same h = cc
  if_available-IsAvailable m (some r) c same h =
      elim (Bool-cases (is_open redis registry (get_circuit_state redis s r.provider))) [
        | inl broken ↦ let e : none ≡ some c = rw broken at h in cc
        | inr working ↦
            let e : some (record { model = m; resolved = r }) ≡ some c = rw working at h in
            let is : record { model = m; resolved = r } ≡ c = ap (λ o. get_or o c) e in
            rw (← is) (refl, (same, λ k. cc))
      ]

  pub candidate_of-IsAvailable :
      (m : String) (c : Candidate)
      → candidate_of redis registry s m ≡ some c
      → (c.model ≡ m) × IsAvailable c
  unfolding candidate_of
  candidate_of-IsAvailable m c h = if_available-IsAvailable m (resolve registry m) c refl h

  -- A model that does not resolve, or whose provider's circuit is open.
  abbrev pub IsShut : String → Type 0
  IsShut m =
      (resolve registry m ≡ none)
      ⊎ ((r : ResolvedModel) × (resolve registry m ≡ some r)
          × (get_circuit_state redis s r.provider ≡ opened))

  open_state : (state : CircuitState) → is_open redis registry state ≡ true → state ≡ opened
  open_state opened h = refl
  open_state closed h = cc
  open_state half_open h = cc

  if_available-IsShut :
      (m : String) (found : Option ResolvedModel)
      → resolve registry m ≡ found
      → if_available redis registry s m found ≡ none
      → IsShut m
  if_available-IsShut m none same h = inl same
  if_available-IsShut m (some r) same h =
      elim (Bool-cases (is_open redis registry (get_circuit_state redis s r.provider))) [
        | inl broken ↦ inr (r, same, open_state (get_circuit_state redis s r.provider) broken)
        | inr working ↦
            let c : Candidate = record { model = m; resolved = r } in
            let e : some c ≡ none = rw working at h in cc
      ]

  pub candidate_of-IsShut : (m : String) → candidate_of redis registry s m ≡ none → IsShut m
  unfolding candidate_of
  candidate_of-IsShut m h = if_available-IsShut m (resolve registry m) refl h

  pub IsAvailable-candidate_of :
      (m : String) (c : Candidate)
      → c.model ≡ m
      → IsAvailable c
      → candidate_of redis registry s m ≡ some c
  unfolding candidate_of
  IsAvailable-candidate_of m c same (found, working) =
      elim (Bool-cases (is_open redis registry (get_circuit_state redis s c.resolved.provider))) [
        | inl broken ↦
            absurd (working (open_state (get_circuit_state redis s c.resolved.provider) broken))
        | inr fine ↦ rw⁻¹ same (ap (if_available redis registry s c.model) found ∙ rw fine refl)
      ]

  cons_some-All :
      (P : Candidate → Type 0) (o : Option Candidate) (cs : List Candidate)
      → ((c : Candidate) → o ≡ some c → P c)
      → All P cs
      → All P (cons_some redis registry o cs)
  cons_some-All P none cs h hs = hs
  cons_some-All P (some c) cs h hs = (h c refl, hs)

  pub resolve_open_candidates-IsAvailable :
      (ms : List String) → All IsAvailable (resolve_open_candidates redis registry s ms)
  unfolding resolve_open_candidates
  resolve_open_candidates-IsAvailable [] = tt
  resolve_open_candidates-IsAvailable (m ∷ ms) =
      cons_some-All IsAvailable (candidate_of redis registry s m) _
        (λ c e. (candidate_of-IsAvailable m c e).1) (resolve_open_candidates-IsAvailable ms)
