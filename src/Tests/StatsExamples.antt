-- ===== src/Tests/StatsExamples.antt =====
-- The theorems on statistics at three samples.
use netquality.Prelude.{◌≡◌, false, [], ◌∷◌, ℤ, pos, arith}
use netquality.Float.Micro.{Micro, micro_float}
use netquality.Engine.Samples.{Sample, durations_of, compute_latency_stats}
use netquality.Engine.Order.{IsOrderly, compute_latency_stats-IsOrderly}
use netquality.Engine.Reorder.{swaps}
use netquality.Engine.Bag.{bag_of, bag_stats, compute_latency_stats-bag}

abbrev of_total : ℤ → Sample
of_total t = record {
  total = t;
  dns = pos 0;
  connect = pos 0;
  tls = pos 0;
  tls_rtts = pos 0;
  ttfb = pos 0;
  http = t;
  staged = false;
}

compute_latency_stats-IsOrderly_example :
    let samples = of_total (pos 30) ∷ of_total (pos 10) ∷ of_total (pos 20) ∷ [] in
    let st = compute_latency_stats Micro samples in
    (st.samples ≡ 3) × IsOrderly Micro (durations_of samples (λ s. s.total)) st
unfolding durations_of
compute_latency_stats-IsOrderly_example =
    compute_latency_stats-IsOrderly Micro (of_total (pos 30))
      (of_total (pos 10) ∷ of_total (pos 20) ∷ [])
      ((omega arith, omega arith), ((omega arith, omega arith), ((omega arith, omega arith), tt)))

compute_latency_stats-bag_example :
    (bag_of (of_total (pos 30) ∷ of_total (pos 10) ∷ [])
      ≡ bag_of (of_total (pos 10) ∷ of_total (pos 30) ∷ []))
    × (compute_latency_stats Micro (of_total (pos 10) ∷ of_total (pos 30) ∷ [])
        ≡ bag_stats Micro (bag_of (of_total (pos 30) ∷ of_total (pos 10) ∷ [])))
compute_latency_stats-bag_example =
    compute_latency_stats-bag Micro
      (swaps {x = of_total (pos 30)} {y = of_total (pos 10)} {zs = []})
