-- ===== src/Routing/Scores.antt =====
-- A candidate's score, term by term: each weight over its measure, and their sum.
use cloud_mesh.Common.{ℕ, zero, suc, ◌+◌, ◌*◌, max, ◌≡◌, ap, arith, true, ltb, lt→ltb}
use cloud_mesh.Billing.Pricing.{ModelPricing}
use cloud_mesh.Routing.Select.{Score, ProviderStats, RoutingWeights, compute_routing_score}

abbrev pub plus : Score → Score → Score
plus a b = record { num = a.num * b.den + b.num * a.den; den = a.den * b.den }

-- A provider without samples counts as one with 1000 ms and 95 successes of 100.
abbrev pub measured : ℕ → ProviderStats → ProviderStats
measured zero stats = record { sample_count = 100; p99_ms = 1000; successes = 95 }
measured (suc n) stats = record {
  sample_count = suc n;
  p99_ms = max stats.p99_ms 1;
  successes = stats.successes;
}

abbrev pub sum_of_terms : ProviderStats → ℕ → RoutingWeights → Score
sum_of_terms m rate w =
    plus
      (plus (record { num = w.latency; den = m.p99_ms })
        (record { num = w.cost * 2_000_000; den = rate }))
      (record { num = w.reliability * m.successes; den = m.sample_count })

-- The latency's weight over the p99, the cost's over the mean price of a thousand tokens, of which
-- there is a least one, and the reliability's weight times the rate of successes.
abbrev pub wanted_score : ProviderStats → ModelPricing → RoutingWeights → Score
wanted_score stats p w =
    sum_of_terms (measured stats.sample_count stats)
      (max (p.input_per_million + p.output_per_million) 2) w

numerator :
    (l r s c p k u : ℕ)
    → l * r * s + c * p * s + k * u * p * r ≡ (l * r + c * p) * s + k * u * (p * r)
numerator l r s c p k u = omega arith

same_terms :
    (m : ProviderStats) (rate : ℕ) (w : RoutingWeights)
    → record {
      num =
          w.latency * rate * m.sample_count
          + w.cost * 2_000_000 * m.p99_ms * m.sample_count
          + w.reliability * m.successes * m.p99_ms * rate;
      den = m.p99_ms * rate * m.sample_count;
    }
      ≡ sum_of_terms m rate w
same_terms m rate w =
    ap (λ n. record { num = n; den = m.p99_ms * rate * m.sample_count })
      (numerator w.latency rate m.sample_count (w.cost * 2_000_000) m.p99_ms w.reliability
        m.successes)

pub compute_routing_score-wanted_score :
    (n : ℕ) (stats : ProviderStats) (p : ModelPricing) (w : RoutingWeights)
    → stats.sample_count ≡ n
    → compute_routing_score stats p w ≡ wanted_score stats p w
unfolding compute_routing_score
compute_routing_score-wanted_score zero stats p w is =
    rw is (same_terms (measured 0 stats) (max (p.input_per_million + p.output_per_million) 2) w)
compute_routing_score-wanted_score (suc n) stats p w is =
    let some_samples : ltb 0 (suc n) ≡ true = lt→ltb 0 (suc n) (omega arith) in
    rw (is, some_samples)
      (same_terms (measured (suc n) stats) (max (p.input_per_million + p.output_per_million) 2) w)
