-- ===== src/Engine/Bag.antt =====
-- The statistics of internal/engine/stats.go as a function of the bag of samples, which has no order.
use mathlib.Core.Quot
use mathlib.Core.Quot.{Quot, Quot-set}
use netquality.Prelude.{◌≡◌, refl, sym, ap, ◌∙◌, List, [], ◌∷◌}
use netquality.Float.{Float}
use netquality.Engine.Samples.{Sample, LatencyStats, compute_latency_stats}
use netquality.Engine.Reorder.{
  Reordered, same, keeps, swaps, chains, compute_latency_stats-Reordered,
}

-- Samples, as often as they were filed, in no order.
abbrev pub Bag : Type 0
Bag = Quot (Reordered {A = Sample})

abbrev pub no_samples : Bag
no_samples = Quot.mk []

unfoldable pub put : Sample → Bag → Bag
put s = Quot.lift Quot-set (λ xs. Quot.mk (s ∷ xs)) (λ xs ys r. Quot.sound (keeps r))

-- In the bag, the order in which two samples are filed is an equation.
put_comm : (s t : Sample) (b : Bag) → put s (put t b) ≡ put t (put s b)
unfolding put
put_comm s t = Quot.ind (λ b. Quot-set _ _) (λ xs. Quot.sound swaps)

unfoldable pub bag_of : List Sample → Bag
bag_of [] = no_samples
bag_of (s ∷ xs) = put s (bag_of xs)

bag_of-Reordered : {xs ys : List Sample} → Reordered xs ys → bag_of xs ≡ bag_of ys
unfolding bag_of
bag_of-Reordered same = refl
bag_of-Reordered (keeps {x} r) = ap (put x) (bag_of-Reordered r)
bag_of-Reordered (swaps {x} {y} {zs}) = put_comm x y (bag_of zs)
bag_of-Reordered (chains r s) = bag_of-Reordered r ∙ bag_of-Reordered s

bag_of-mk : (xs : List Sample) → bag_of xs ≡ Quot.mk xs
unfolding bag_of put
bag_of-mk [] = refl
bag_of-mk (s ∷ xs) = ap (put s) (bag_of-mk xs)

LatencyStats-set : IsSet LatencyStats
LatencyStats-set = hlevel

module _ (F : Type 0) ⦃d : Float F⦄ where
  -- What the statistics promise: a value for each bag.
  unfoldable pub bag_stats : Bag → LatencyStats
  unfolding LatencyStats-set
  bag_stats =
      Quot.lift LatencyStats-set (compute_latency_stats F)
        (λ xs ys r. compute_latency_stats-Reordered F r)

  -- Samples in any order are one bag, and the statistics that the code computes from them are that bag's.
  pub compute_latency_stats-bag :
      {xs ys : List Sample}
      → Reordered xs ys
      → (bag_of xs ≡ bag_of ys) × (compute_latency_stats F ys ≡ bag_stats (bag_of xs))
  unfolding bag_stats
  compute_latency_stats-bag {xs} {ys} r =
      let one_bag = bag_of-Reordered r in (one_bag, sym (ap bag_stats (one_bag ∙ bag_of-mk ys)))
