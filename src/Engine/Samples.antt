-- ===== src/Engine/Samples.antt =====
-- Latency samples and their statistics: internal/engine/stats.go.
use netquality.Prelude.{
  ℕ, ◌-◌, ◌/◌, ◌%◌, Bool, List, [], ◌∷◌, map, foldl, Option, none, some, ℤ, pos, pos_part, leb,
  ltb_ℤ, leb_ℤ, quot, add64, sub64, ◌==◌, if◌then◌else◌, length, get_or, last_or, filter_by,
}
use netquality.Float.{Float, nought}

-- LatencySample; times are nanoseconds
pub record Sample : Type 0 where
  pub total : ℤ
  pub dns : ℤ
  pub connect : ℤ
  pub tls : ℤ
  pub tls_rtts : ℤ
  pub ttfb : ℤ
  pub http : ℤ
  pub staged : Bool

pub record StageMedians : Type 0 where
  pub dns : ℤ
  pub connect : ℤ
  pub tls : ℤ
  pub tls_per_rtt : ℤ
  pub ttfb : ℤ

-- 0 in a percentile is a percentile that is absent.
pub record LatencyStats : Type 0 where
  pub samples : ℕ
  pub min : ℤ
  pub median : ℤ
  pub mean : ℤ
  pub p80 : ℤ
  pub p90 : ℤ
  pub p95 : ℤ
  pub p99 : ℤ
  pub max : ℤ
  pub jitter : ℤ
  pub stages : Option StageMedians

-- The method TLSPerRTT.
unfoldable pub tls_per_rtt : Sample → ℤ
tls_per_rtt s = if leb_ℤ s.tls_rtts (pos 0) then pos 0 else quot s.tls (pos_part s.tls_rtts)

unfoldable pub durations_of : List Sample → (Sample → ℤ) → List ℤ
durations_of samples f = map f samples

unfoldable pub insert : ℤ → List ℤ → List ℤ
insert x [] = x ∷ []
insert x (y ∷ ys) = if leb_ℤ x y then x ∷ y ∷ ys else y ∷ insert x ys

-- sort.Slice by `<`: the ascending order of a list of integers is one list, whatever the algorithm.
unfoldable pub sorted_copy : List ℤ → List ℤ
unfolding insert
sorted_copy [] = []
sorted_copy (x ∷ xs) = insert x (sorted_copy xs)

unfoldable pub median_duration : List ℤ → ℤ
median_duration sorted =
    let n = length sorted in
    if n == 0
    then pos 0
    else if n % 2 == 1
    then get_or sorted (n / 2) (pos 0)
    else quot (add64 (get_or sorted (n / 2 - 1) (pos 0)) (get_or sorted (n / 2) (pos 0))) 2

-- The loop of trimmedMean over sorted values, up to its `break`.
unfoldable take_until : ℤ → List ℤ → List ℤ
take_until cut [] = []
take_until cut (v ∷ vs) = if ltb_ℤ cut v then [] else v ∷ take_until cut vs

-- An index that is negative or past the end becomes the first or the last.
unfoldable pub clamp : ℕ → ℤ → ℕ
clamp n rank =
    let r = if ltb_ℤ rank (pos 0) then pos 0 else rank in
    if leb_ℤ (pos n) r then n - 1 else pos_part r

abbrev no_stats : LatencyStats
no_stats = record {
  samples = 0;
  min = pos 0;
  median = pos 0;
  mean = pos 0;
  p80 = pos 0;
  p90 = pos 0;
  p95 = pos 0;
  p99 = pos 0;
  max = pos 0;
  jitter = pos 0;
  stages = none;
}

-- `med` of ComputeLatencyStats
abbrev med : List Sample → (Sample → ℤ) → ℤ
med staged f = median_duration (sorted_copy (durations_of staged f))

unfoldable pub stage_medians : List Sample → Option StageMedians
unfolding median_duration sorted_copy durations_of tls_per_rtt
stage_medians [] = none
stage_medians (s ∷ ss) =
    let staged = s ∷ ss in
    some (record {
      dns = med staged (λ s. s.dns);
      connect = med staged (λ s. s.connect);
      tls = med staged (λ s. s.tls);
      tls_per_rtt = med staged tls_per_rtt;
      ttfb = med staged (λ s. s.ttfb);
    })

module _ {F : Type 0} ⦃d : Float F⦄ where
  -- `rank` of percentile, before it is clamped
  unfoldable pub rank_of : ℕ → F → ℤ
  rank_of n p = sub64 (d.to_int (d.ceil (d.mul (d.div p (d.lit 100 0)) (d.of_int (pos n))))) (pos 1)

  unfoldable pub percentile : List ℤ → F → ℤ
  unfolding rank_of clamp
  percentile [] p = pos 0
  percentile (x ∷ xs) p =
      let n = length (x ∷ xs) in
      if d.le p nought then x else get_or (x ∷ xs) (clamp n (rank_of n p)) (pos 0)

module _ (F : Type 0) ⦃d : Float F⦄ where
  abbrev sum_durations : List ℤ → F
  sum_durations = foldl (λ s v. d.add s (d.of_int v)) nought

  unfoldable mean_duration : List ℤ → ℤ
  mean_duration [] = pos 0
  mean_duration (x ∷ xs) =
      d.to_int (d.div (sum_durations (x ∷ xs)) (d.of_int (pos (length (x ∷ xs)))))

  unfoldable pub trimmed_mean : List ℤ → F → ℤ
  unfolding mean_duration percentile sorted_copy take_until
  trimmed_mean ds p =
      let sorted = sorted_copy ds in mean_duration (take_until (percentile sorted p) sorted)

  abbrev sum_deviations : ℤ → List ℤ → F
  sum_deviations mean = foldl (λ s v. d.add s (d.abs (d.of_int (sub64 v mean)))) nought

  -- percentileMinSamples guards each percentile.
  abbrev pub percentile_from : ℕ → List ℤ → F → ℤ
  percentile_from least sorted p = if leb least (length sorted) then percentile sorted p else pos 0

  unfoldable pub stats_of_sorted : List ℤ → LatencyStats
  unfolding mean_duration median_duration percentile
  stats_of_sorted sorted =
      let mean = mean_duration sorted in
      record {
        samples = length sorted;
        min = get_or sorted 0 (pos 0);
        median = median_duration sorted;
        mean = mean;
        p80 = percentile_from 5 sorted (d.lit 80 0);
        p90 = percentile_from 10 sorted (d.lit 90 0);
        p95 = percentile_from 20 sorted (d.lit 95 0);
        p99 = percentile_from 100 sorted (d.lit 99 0);
        max = last_or sorted (pos 0);
        jitter = d.to_int (d.div (sum_deviations mean sorted) (d.of_int (pos (length sorted))));
        stages = none;
      }

  unfoldable pub stats_of : List ℤ → LatencyStats
  unfolding stats_of_sorted sorted_copy
  stats_of [] = no_stats
  stats_of (x ∷ xs) = stats_of_sorted (sorted_copy (x ∷ xs))

  unfoldable pub compute_latency_stats : List Sample → LatencyStats
  unfolding stats_of stage_medians durations_of
  compute_latency_stats samples =
      let st = stats_of (durations_of samples (λ s. s.total)) in
      record st { stages = stage_medians (filter_by (λ s. s.staged) samples) }

module _ {F : Type 0} ⦃d : Float F⦄ where
  -- The method HighestPercentile.
  unfoldable pub highest_percentile : LatencyStats → F × ℤ
  highest_percentile s =
      if ltb_ℤ (pos 0) s.p99
      then (d.lit 99 0, s.p99)
      else if ltb_ℤ (pos 0) s.p95
      then (d.lit 95 0, s.p95)
      else if ltb_ℤ (pos 0) s.p90
      then (d.lit 90 0, s.p90)
      else if ltb_ℤ (pos 0) s.p80
      then (d.lit 80 0, s.p80)
      else (nought, pos 0)
