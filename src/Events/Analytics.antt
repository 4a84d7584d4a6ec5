-- ===== src/Events/Analytics.antt =====
-- The daily counters of the analytics subscriber.
use Prim.Native.String.{count}
use cloud_mesh.Common.{
  ℕ, ◌+◌, ◌≡◌, refl, ap, subst, sym, ◌∙◌, String, true, false, ◌&&◌, none, List, [], ◌∷◌, get_or,
  str_eq, eq_iff, eq_refl, All, Bool-cases, both-true, inl, inr, if◌then◌else◌,
}
use cloud_mesh.Common.KeyValue.{KeyValue}
use cloud_mesh.Events.Subscribers.{
  UsageRecordedEvent, total_tokens, analytics_key, DailyAnalytics, incrby, count_usage,
  get_daily_analytics,
}
use text.Mathlib.TextLemmas.{append_inj, append_cancel_left}

differ : (a b : String) → (a ≡ b → true ≡ false) → str_eq a b ≡ false
differ a b ne = elim (Bool-cases (str_eq a b)) [
  | inl same ↦ let e : true ≡ false = ne ((eq_iff a b).0 same) in cc
  | inr other ↦ other
]

-- A day is ten characters, and an organization's id, a UUID, thirty-six.
abbrev pub IsWide : String → String → Type 0
IsWide org_id day = (count org_id ≡ 36) × (count day ≡ 10)

keys_same :
    (o d m o' d' m' : String)
    → IsWide o d
    → IsWide o' d'
    → analytics_key o d m ≡ analytics_key o' d' m'
    → (o ≡ o') × (d ≡ d') × (m ≡ m')
keys_same o d m o' d' m' (ol, dl) (ol', dl') same =
    let (os, after) = append_inj (append_cancel_left "analytics:" _ _ same) (ol ∙ sym ol') in
    let (ds, metric) = append_inj (append_cancel_left ":" _ _ after) (dl ∙ sym dl') in
    (os, ds, append_cancel_left ":" _ _ metric)

metrics_differ :
    (o d m m' : String)
    → IsWide o d
    → str_eq m m' ≡ false
    → str_eq (analytics_key o d m) (analytics_key o d m') ≡ false
metrics_differ o d m m' wide other = differ _ _ (λ same.
    let (os, ds, ms) = keys_same o d m o d m' wide wide same in sym ((eq_iff m m').1 ms) ∙ other)

others_differ :
    (o d m o' d' m' : String)
    → IsWide o d
    → IsWide o' d'
    → (str_eq o o' && str_eq d d') ≡ false
    → str_eq (analytics_key o d m) (analytics_key o' d' m') ≡ false
others_differ o d m o' d' m' wide wide' other = differ _ _ (λ same.
    let (os, ds, ms) = keys_same o d m o' d' m' wide wide' same in
    let e : (str_eq o o' && str_eq d d') ≡ true =
      rw ((eq_iff o o').1 os, (eq_iff d d').1 ds) refl in
    sym e ∙ other)

abbrev pub add_usage : UsageRecordedEvent → DailyAnalytics → DailyAnalytics
add_usage e a = record {
  requests = a.requests + 1;
  tokens = a.tokens + total_tokens e;
  cost_micros = a.cost_micros + e.cost_micros;
}

-- The sums over the events of one organization that were counted on one day.
abbrev pub add_all :
    String → String → List (String × UsageRecordedEvent) → DailyAnalytics → DailyAnalytics
add_all org_id day [] a = a
add_all org_id day ((d, e) ∷ es) a =
    add_all org_id day es (if str_eq e.org_id org_id && str_eq d day then add_usage e a else a)

abbrev pub AreWide : List (String × UsageRecordedEvent) → Type 0
AreWide es = All (λ p. IsWide p.1.org_id p.0) es

module _ (redis : KeyValue ℕ) where
  open redis use {Store, get, put, get-put}

  unfoldable pub count_all : List (String × UsageRecordedEvent) → Store → Store
  count_all [] s = s
  count_all ((d, e) ∷ es) s = count_all es (count_usage redis none d e s).0

  abbrev counter : String → Store → ℕ
  counter key s = get_or (get s key) 0

  counter-same :
      (k j : String) (n : ℕ) (s : Store) → k ≡ j → counter j (incrby redis k n s) ≡ counter j s + n
  counter-same k j n s same = rw (get-put s k j (counter k s + n), same, eq_refl j) refl

  counter-other :
      (k j : String) (n : ℕ) (s : Store)
      → str_eq k j ≡ false
      → counter j (incrby redis k n s) ≡ counter j s
  counter-other k j n s other = rw (get-put s k j (counter k s + n), other) refl

  DailyAnalytics-ext :
      (a b : DailyAnalytics)
      → a.requests ≡ b.requests
      → a.tokens ≡ b.tokens
      → a.cost_micros ≡ b.cost_micros
      → a ≡ b
  DailyAnalytics-ext a b r t c = cc

  -- A counter that no command names stays as it was.
  untouched :
      (d j : String) (e : UsageRecordedEvent) (s : Store)
      → str_eq (analytics_key e.org_id d "requests") j ≡ false
      → str_eq (analytics_key e.org_id d "tokens") j ≡ false
      → str_eq (analytics_key e.org_id d "cost_micros") j ≡ false
      → counter j (count_usage redis none d e s).0 ≡ counter j s
  untouched d j e s requests tokens cost =
      let s₁ = incrby redis (analytics_key e.org_id d "requests") 1 s in
      let s₂ = incrby redis (analytics_key e.org_id d "tokens") (total_tokens e) s₁ in
      counter-other (analytics_key e.org_id d "cost_micros") j e.cost_micros s₂ cost
      ∙ counter-other (analytics_key e.org_id d "tokens") j (total_tokens e) s₁ tokens
      ∙ counter-other (analytics_key e.org_id d "requests") j 1 s requests

  -- The counters of another organization or day.
  count_usage-apart :
      (d org_id day : String) (e : UsageRecordedEvent) (s : Store)
      → IsWide e.org_id d
      → IsWide org_id day
      → (str_eq e.org_id org_id && str_eq d day) ≡ false
      → get_daily_analytics redis org_id day (count_usage redis none d e s).0
        ≡ get_daily_analytics redis org_id day s
  unfolding get_daily_analytics
  count_usage-apart d org_id day e s wide wide' other =
      let apart =
        λ (m : String) (m' : String). others_differ e.org_id d m org_id day m' wide wide' other in
      let kept = λ (m : String).
        untouched d (analytics_key org_id day m) e s (apart "requests" m) (apart "tokens" m)
          (apart "cost_micros" m) in
      DailyAnalytics-ext _ _ (kept "requests") (kept "tokens") (kept "cost_micros")

  -- Those of the same organization and day grow by what the event says.
  count_usage-own :
      (d : String) (e : UsageRecordedEvent) (s : Store)
      → IsWide e.org_id d
      → get_daily_analytics redis e.org_id d (count_usage redis none d e s).0
        ≡ add_usage e (get_daily_analytics redis e.org_id d s)
  unfolding get_daily_analytics
  count_usage-own d e s wide =
      let key = analytics_key e.org_id d in
      let s₁ = incrby redis (key "requests") 1 s in
      let s₂ = incrby redis (key "tokens") (total_tokens e) s₁ in
      let other = λ (m : String) (m' : String) (h : str_eq m m' ≡ false).
        metrics_differ e.org_id d m m' wide h in
      DailyAnalytics-ext _ _
        (counter-other (key "cost_micros") (key "requests") e.cost_micros s₂
            (other "cost_micros" "requests" refl)
          ∙ counter-other (key "tokens") (key "requests") (total_tokens e) s₁
              (other "tokens" "requests" refl)
          ∙ counter-same (key "requests") (key "requests") 1 s refl)
        (counter-other (key "cost_micros") (key "tokens") e.cost_micros s₂
            (other "cost_micros" "tokens" refl)
          ∙ counter-same (key "tokens") (key "tokens") (total_tokens e) s₁ refl
          ∙ ap (λ n. n + total_tokens e)
              (counter-other (key "requests") (key "tokens") 1 s (other "requests" "tokens" refl)))
        (counter-same (key "cost_micros") (key "cost_micros") e.cost_micros s₂ refl
          ∙ ap (λ n. n + e.cost_micros)
              (counter-other (key "tokens") (key "cost_micros") (total_tokens e) s₁
                  (other "tokens" "cost_micros" refl)
                ∙ counter-other (key "requests") (key "cost_micros") 1 s
                    (other "requests" "cost_micros" refl)))

  count_usage-adds :
      (d org_id day : String) (e : UsageRecordedEvent) (s : Store)
      → IsWide e.org_id d
      → IsWide org_id day
      → get_daily_analytics redis org_id day (count_usage redis none d e s).0 ≡ (
          if str_eq e.org_id org_id && str_eq d day
          then add_usage e (get_daily_analytics redis org_id day s)
          else get_daily_analytics redis org_id day s)
  count_usage-adds d org_id day e s wide wide' =
      elim (Bool-cases (str_eq e.org_id org_id && str_eq d day)) [
        | inl same ↦
            let (o, t) = both-true (str_eq e.org_id org_id) (str_eq d day) same in
            rw same (
              subst {A = String × String}
                (λ p.
                  get_daily_analytics redis p.0 p.1 (count_usage redis none d e s).0
                  ≡ add_usage e (get_daily_analytics redis p.0 p.1 s))
                (ap (λ x. (x, d)) ((eq_iff e.org_id org_id).0 o)
                  ∙ ap (λ x. (org_id, x)) ((eq_iff d day).0 t))
                (count_usage-own d e s wide))
        | inr other ↦ rw other (count_usage-apart d org_id day e s wide wide' other)
      ]

  -- However the events of organizations and days are mixed, the report of an organization's day has
  -- the sums over its own events of that day: their number, their tokens and their cost, exactly.
  -- Ids are 36 characters long, as UUIDs are, and a day has 10.
  pub get_daily_analytics_sums :
      (es : List (String × UsageRecordedEvent)) (org_id day : String) (s : Store)
      → AreWide es
      → IsWide org_id day
      → get_daily_analytics redis org_id day (count_all es s)
        ≡ add_all org_id day es (get_daily_analytics redis org_id day s)
  unfolding count_all
  get_daily_analytics_sums [] org_id day s wide wide' = refl
  get_daily_analytics_sums ((d, e) ∷ es) org_id day s (w, ws) wide' =
      get_daily_analytics_sums es org_id day (count_usage redis none d e s).0 ws wide'
      ∙ ap (add_all org_id day es) (count_usage-adds d org_id day e s w wide')
