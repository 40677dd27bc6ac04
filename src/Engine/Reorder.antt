-- ===== src/Engine/Reorder.antt =====
-- The statistics of samples do not depend on the order in which the probes delivered them.
use netquality.Prelude.{
  ◌≡◌, refl, ap, ◌∙◌, inl, inr, Bool, List, [], ◌∷◌, map, ℤ, eq_of_parts, arith, Bool-cases,
  filter_by,
}
use netquality.Float.{Float}
use netquality.Engine.Samples.{
  Sample, insert, sorted_copy, durations_of, stage_medians, stats_of, stats_of_sorted,
  compute_latency_stats, tls_per_rtt,
}

-- The same elements in another order, by exchanges of neighbours.
pub data Reordered {A : Type 0} : List A → List A → Type 0 where
  same : {xs : List A} → Reordered xs xs
  keeps : {x : A} {xs ys : List A} → Reordered xs ys → Reordered (x ∷ xs) (x ∷ ys)
  swaps : {x y : A} {zs : List A} → Reordered (x ∷ y ∷ zs) (y ∷ x ∷ zs)
  chains : {xs ys zs : List A} → Reordered xs ys → Reordered ys zs → Reordered xs zs

map-Reordered :
    {A : Type 0} {B : Type 0} (f : A → B) {xs ys : List A}
    → Reordered xs ys
    → Reordered (map f xs) (map f ys)
map-Reordered f same = same
map-Reordered f (keeps r) = keeps (map-Reordered f r)
map-Reordered f swaps = swaps
map-Reordered f (chains r s) = chains (map-Reordered f r) (map-Reordered f s)

filter_by-Reordered :
    {A : Type 0} (p : A → Bool) {xs ys : List A}
    → Reordered xs ys
    → Reordered (filter_by p xs) (filter_by p ys)
filter_by-Reordered p same = same
filter_by-Reordered p (keeps {x} r) = elim (Bool-cases (p x)) [
  | inl e ↦ rw e (keeps (filter_by-Reordered p r))
  | inr e ↦ rw e (filter_by-Reordered p r)
]
filter_by-Reordered p (swaps {x} {y}) = elim (Bool-cases (p x)) [
  | inl e ↦ elim (Bool-cases (p y)) [ inl k ↦ rw (e, k) swaps | inr k ↦ rw (e, k) same ]
  | inr e ↦ elim (Bool-cases (p y)) [ inl k ↦ rw (e, k) same | inr k ↦ rw (e, k) same ]
]
filter_by-Reordered p (chains r s) = chains (filter_by-Reordered p r) (filter_by-Reordered p s)

insert_comm : (x y : ℤ) (zs : List ℤ) → insert x (insert y zs) ≡ insert y (insert x zs)
unfolding insert
insert_comm x y [] = ground (arith, eq_of_parts x y)
insert_comm x y (z ∷ zs) = ground (arith, eq_of_parts x y, insert_comm x y zs)

sorted_copy-Reordered : {xs ys : List ℤ} → Reordered xs ys → sorted_copy xs ≡ sorted_copy ys
unfolding sorted_copy
sorted_copy-Reordered same = refl
sorted_copy-Reordered (keeps {x} r) = ap (insert x) (sorted_copy-Reordered r)
sorted_copy-Reordered (swaps {x} {y} {zs}) = insert_comm x y (sorted_copy zs)
sorted_copy-Reordered (chains r s) = sorted_copy-Reordered r ∙ sorted_copy-Reordered s

sorted_durations-Reordered :
    {xs ys : List Sample} (f : Sample → ℤ)
    → Reordered xs ys
    → sorted_copy (durations_of xs f) ≡ sorted_copy (durations_of ys f)
unfolding durations_of
sorted_durations-Reordered f r = sorted_copy-Reordered (map-Reordered f r)

-- The medians of two sets of staged samples that are not empty.
medians-Reordered :
    (x y : Sample) (xs ys : List Sample)
    → Reordered (x ∷ xs) (y ∷ ys)
    → stage_medians (x ∷ xs) ≡ stage_medians (y ∷ ys)
unfolding stage_medians
medians-Reordered x y xs ys r = rw (
  sorted_durations-Reordered (λ s. s.dns) r,
  sorted_durations-Reordered (λ s. s.connect) r,
  sorted_durations-Reordered (λ s. s.tls) r,
  sorted_durations-Reordered tls_per_rtt r,
  sorted_durations-Reordered (λ s. s.ttfb) r,
)

stage_medians-Reordered :
    {xs ys : List Sample} → Reordered xs ys → stage_medians xs ≡ stage_medians ys
stage_medians-Reordered same = refl
stage_medians-Reordered (chains r s) = stage_medians-Reordered r ∙ stage_medians-Reordered s
stage_medians-Reordered (keeps {x} {xs} {ys} r) = medians-Reordered x x xs ys (keeps r)
stage_medians-Reordered (swaps {x} {y} {zs}) = medians-Reordered x y (y ∷ zs) (x ∷ zs) swaps

module _ (F : Type 0) ⦃d : Float F⦄ where
  stats_of-Reordered : {xs ys : List ℤ} → Reordered xs ys → stats_of F xs ≡ stats_of F ys
  unfolding stats_of
  stats_of-Reordered same = refl
  stats_of-Reordered (keeps {x} {xs} {ys} r) =
      ap (stats_of_sorted F) (sorted_copy-Reordered {xs = x ∷ xs} {ys = x ∷ ys} (keeps r))
  stats_of-Reordered (swaps {x} {y} {zs}) =
      ap (stats_of_sorted F) (sorted_copy-Reordered {xs = x ∷ y ∷ zs} {ys = y ∷ x ∷ zs} swaps)
  stats_of-Reordered (chains r s) = stats_of-Reordered r ∙ stats_of-Reordered s

  -- The statistics of the same samples in another order are the same: probes run concurrently, and
  -- the order in which their samples are filed says nothing.
  pub compute_latency_stats-Reordered :
      {xs ys : List Sample}
      → Reordered xs ys
      → compute_latency_stats F xs ≡ compute_latency_stats F ys
  unfolding compute_latency_stats durations_of
  compute_latency_stats-Reordered r = rw (
    stats_of-Reordered (map-Reordered (λ (s : Sample). s.total) r),
    stage_medians-Reordered (filter_by-Reordered (λ (s : Sample). s.staged) r),
  )
