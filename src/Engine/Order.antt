-- ===== src/Engine/Order.antt =====
-- The order statistics of a set of samples: sorting, medians and percentiles.
use netquality.Prelude.{
  ℕ, zero, suc, ◌-◌, ◌/◌, ◌%◌, ◌^◌, ◌<◌, ◌≡◌, refl, ap, ◌∙◌, ◌⊎◌, inl, inr, false, List, [], ◌∷◌,
  map, ℤ, pos, negsuc, ◌≤ℤ◌, ◌<ℤ◌, leb_ℤ, leb, ◌+ℤ◌, add64, quot, wrap, arith, length, length-map,
  get_or, last_or, All, All-map, Bool-cases, ◌==◌,
}
use netquality.Float.{Float}
use netquality.Engine.Samples.{
  Sample, LatencyStats, insert, sorted_copy, median_duration, clamp, rank_of, percentile, stats_of,
  stats_of_sorted, percentile_from, durations_of, compute_latency_stats,
}

IsSorted : List ℤ → Type 0
IsSorted [] = Unit
IsSorted (x ∷ xs) = All (λ y. x ≤ℤ y) xs × IsSorted xs

All-insert : (P : ℤ → Type 0) (x : ℤ) (xs : List ℤ) → P x → All P xs → All P (insert x xs)
unfolding insert
All-insert P x [] p ps = (p, tt)
All-insert P x (y ∷ ys) p (q, qs) = elim (Bool-cases (leb_ℤ x y)) [
  | inl e ↦ rw e (p, (q, qs))
  | inr e ↦ rw e (q, All-insert P x ys p qs)
]

All-insert_inv : (P : ℤ → Type 0) (x : ℤ) (xs : List ℤ) → All P (insert x xs) → P x × All P xs
unfolding insert
All-insert_inv P x [] (p, _) = (p, tt)
All-insert_inv P x (y ∷ ys) h = elim (Bool-cases (leb_ℤ x y)) [
  | inl e ↦ ground (arith, h)
  | inr e ↦ ground (arith, h, All-insert_inv P x ys)
]

insert-IsSorted : (x : ℤ) (xs : List ℤ) → IsSorted xs → IsSorted (insert x xs)
unfolding insert IsSorted
insert-IsSorted x [] s = (tt, tt)
insert-IsSorted x (y ∷ ys) (above, s) = elim (Bool-cases (leb_ℤ x y)) [
  | inl e ↦
      let le : x ≤ℤ y = ground arith in
      rw e ((le, All-map (λ z h. omega (arith, le)) ys above), (above, s))
  | inr e ↦ rw e (All-insert (λ z. y ≤ℤ z) x ys (ground arith) above, insert-IsSorted x ys s)
]

sorted_copy-IsSorted : (xs : List ℤ) → IsSorted (sorted_copy xs)
unfolding sorted_copy IsSorted
sorted_copy-IsSorted [] = tt
sorted_copy-IsSorted (x ∷ xs) = insert-IsSorted x (sorted_copy xs) (sorted_copy-IsSorted xs)

All-sorted_copy_inv : (P : ℤ → Type 0) (xs : List ℤ) → All P (sorted_copy xs) → All P xs
unfolding sorted_copy
All-sorted_copy_inv P [] h = tt
All-sorted_copy_inv P (x ∷ xs) h =
    let (p, ps) = All-insert_inv P x (sorted_copy xs) h in (p, All-sorted_copy_inv P xs ps)

All-sorted_copy : (P : ℤ → Type 0) (xs : List ℤ) → All P xs → All P (sorted_copy xs)
unfolding sorted_copy
All-sorted_copy P [] h = tt
All-sorted_copy P (x ∷ xs) (p, ps) = All-insert P x (sorted_copy xs) p (All-sorted_copy P xs ps)

length-insert : (x : ℤ) (xs : List ℤ) → length (insert x xs) ≡ suc (length xs)
unfolding insert
length-insert x [] = refl
length-insert x (y ∷ ys) = ground (arith, length-insert x ys)

length-sorted_copy : (xs : List ℤ) → length (sorted_copy xs) ≡ length xs
unfolding sorted_copy
length-sorted_copy [] = refl
length-sorted_copy (x ∷ xs) = length-insert x (sorted_copy xs) ∙ ap suc (length-sorted_copy xs)

All-get_or :
    (P : ℤ → Type 0) (xs : List ℤ) (i : ℕ) (d : ℤ) → All P xs → i < length xs → P (get_or xs i d)
All-get_or P [] i d h k = absurd (omega arith)
All-get_or P (x ∷ xs) zero d (p, ps) k = p
All-get_or P (x ∷ xs) (suc i) d (p, ps) k = All-get_or P xs i d ps (omega arith)

-- The first of a sorted list is its least value and the last its greatest.
abbrev pub IsWithin : ℤ → ℤ → ℤ → Type 0
IsWithin lo hi x = (lo ≤ℤ x) × (x ≤ℤ hi)

last_or-above : (x : ℤ) (xs : List ℤ) → IsSorted (x ∷ xs) → x ≤ℤ last_or xs x
unfolding IsSorted
last_or-above x [] s = omega arith
last_or-above x (y ∷ ys) ((le, above), s) = omega (arith, le, last_or-above y ys s)

sorted-IsWithin :
    (x : ℤ) (xs : List ℤ) → IsSorted (x ∷ xs) → All (IsWithin x (last_or xs x)) (x ∷ xs)
unfolding IsSorted
sorted-IsWithin x [] s = ((omega arith, omega arith), tt)
sorted-IsWithin x (y ∷ ys) ((le, above), s) = (
  (omega arith, omega (arith, le, last_or-above y ys s)),
  All-map (λ z (lo, hi). (omega (arith, le), hi)) (y ∷ ys) (sorted-IsWithin y ys s),
)

clamp-small : (n : ℕ) (rank : ℤ) → 0 < n → clamp n rank < n
unfolding clamp
clamp-small n rank h = ground arith

All-last : (P : ℤ → Type 0) (x : ℤ) (xs : List ℤ) → All P (x ∷ xs) → P (last_or xs x)
All-last P x [] (p, _) = p
All-last P x (y ∷ ys) (p, ps) = All-last P y ys ps

-- A time, with room for a sum of two.
abbrev pub IsTime : ℤ → Type 0
IsTime v = (pos 0 ≤ℤ v) × (v <ℤ pos (2 ^ 62))

half-IsWithin :
    (lo hi a b : ℤ)
    → IsTime a
    → IsTime b
    → IsTime hi
    → IsWithin lo hi a
    → IsWithin lo hi b
    → IsWithin lo hi (quot (add64 a b) 2)
unfolding quot add64 wrap ◌+ℤ◌
half-IsWithin lo hi (pos a) (pos b) ta tb th wa wb = ground arith
half-IsWithin lo hi (negsuc a) b ta tb th wa wb = ground arith
half-IsWithin lo hi a (negsuc b) ta tb th wa wb = ground arith

median-IsWithin :
    (lo hi x : ℤ) (xs : List ℤ)
    → IsTime hi
    → All IsTime (x ∷ xs)
    → All (IsWithin lo hi) (x ∷ xs)
    → IsWithin lo hi (median_duration (x ∷ xs))
unfolding median_duration
median-IsWithin lo hi x xs th t w =
    let n = length (x ∷ xs) in
    let not_empty : (n == 0) ≡ false = ground arith in
    let time = λ (i : ℕ). All-get_or IsTime (x ∷ xs) i (pos 0) t in
    let within = λ (i : ℕ). All-get_or (IsWithin lo hi) (x ∷ xs) i (pos 0) w in
    elim (Bool-cases (n % 2 == 1)) [
      | inl odd ↦ rw (not_empty, odd, median_duration) (within (n / 2) (omega arith))
      | inr even ↦
          let more : 1 < n = ground arith in
          rw (not_empty, even, median_duration)
            (half-IsWithin lo hi (get_or (x ∷ xs) (n / 2 - 1) (pos 0))
              (get_or (x ∷ xs) (n / 2) (pos 0)) (time (n / 2 - 1) (omega (arith, more)))
              (time (n / 2) (omega arith)) th (within (n / 2 - 1) (omega (arith, more)))
              (within (n / 2) (omega arith)))
    ]

module _ {F : Type 0} ⦃d : Float F⦄ where
  -- A percentile is one of the samples.
  All-percentile :
      (P : ℤ → Type 0) (x : ℤ) (xs : List ℤ) (p : F) → All P (x ∷ xs) → P (percentile (x ∷ xs) p)
  unfolding percentile
  All-percentile P x xs p h = elim (Bool-cases (d.le p (d.lit 0 0))) [
    | inl e ↦ rw (e, percentile) h.0
    | inr e ↦
        rw (e, percentile)
          (All-get_or P (x ∷ xs) (clamp (length (x ∷ xs)) (rank_of (length (x ∷ xs)) p)) (pos 0) h
            (clamp-small (length (x ∷ xs)) (rank_of (length (x ∷ xs)) p) (omega arith)))
  ]

module _ (F : Type 0) ⦃d : Float F⦄ where
  -- What the statistics of sorted values satisfy.
  abbrev pub IsOrderly : List ℤ → LatencyStats → Type 0
  IsOrderly xs st =
      All (IsWithin st.min st.max) xs
      × IsWithin st.min st.max st.median
      × ((st.p80 ≡ pos 0) ⊎ IsWithin st.min st.max st.p80)
      × ((st.p90 ≡ pos 0) ⊎ IsWithin st.min st.max st.p90)
      × ((st.p95 ≡ pos 0) ⊎ IsWithin st.min st.max st.p95)
      × ((st.p99 ≡ pos 0) ⊎ IsWithin st.min st.max st.p99)

  percentile_from-IsWithin :
      (lo hi x : ℤ) (xs : List ℤ) (least : ℕ) (p : F)
      → All (IsWithin lo hi) (x ∷ xs)
      → (percentile_from F least (x ∷ xs) p ≡ pos 0)
        ⊎ IsWithin lo hi (percentile_from F least (x ∷ xs) p)
  percentile_from-IsWithin lo hi x xs least p w = elim (Bool-cases (leb least (length (x ∷ xs)))) [
    | inl e ↦ rw (e, percentile_from) (inr (All-percentile (IsWithin lo hi) x xs p w))
    | inr e ↦ rw (e, percentile_from) (inl refl)
  ]

  sorted-IsOrderly :
      (xs : List ℤ)
      → IsSorted xs
      → 0 < length xs
      → All IsTime xs
      → IsOrderly xs (stats_of_sorted F xs)
  unfolding stats_of_sorted
  sorted-IsOrderly [] s some_value t = absurd (omega arith)
  sorted-IsOrderly (x ∷ xs) s some_value t =
      let hi = last_or xs x in
      let w = sorted-IsWithin x xs s in
      (
        w,
        median-IsWithin x hi x xs (All-last IsTime x xs t) t w,
        percentile_from-IsWithin x hi x xs 5 (d.lit 80 0) w,
        percentile_from-IsWithin x hi x xs 10 (d.lit 90 0) w,
        percentile_from-IsWithin x hi x xs 20 (d.lit 95 0) w,
        percentile_from-IsWithin x hi x xs 100 (d.lit 99 0) w,
      )

  -- The statistics of some samples, times below 2^62, count them all; no sample is below the minimum
  -- or above the maximum, and the median and every percentile that is present lie between the two.
  pub compute_latency_stats-IsOrderly :
      (x : Sample) (xs : List Sample)
      → All IsTime (durations_of (x ∷ xs) (λ s. s.total))
      → let st = compute_latency_stats F (x ∷ xs) in
        (st.samples ≡ length (x ∷ xs)) × IsOrderly (durations_of (x ∷ xs) (λ s. s.total)) st
  unfolding compute_latency_stats durations_of
  compute_latency_stats-IsOrderly x xs t =
      let ds = map (λ (s : Sample). s.total) (x ∷ xs) in
      let sorted = sorted_copy ds in
      let counted = length-sorted_copy ds ∙ length-map (x ∷ xs) (λ (s : Sample). s.total) in
      let (within, middle, p80, p90, p95, p99) =
        sorted-IsOrderly sorted (sorted_copy-IsSorted ds) (omega (arith, counted))
          (All-sorted_copy IsTime ds t) in
      unfold stats_of stats_of_sorted in
      (counted, (All-sorted_copy_inv _ ds within, middle, p80, p90, p95, p99))
