-- ===== src/Engine/Rating.antt =====
-- The confidence of a tracker, and the criterion behind it.
use netquality.Prelude.{◌≤◌, ◌<◌, ◌≡◌, ◌↔◌, true, false, arith, length, last_or, last_or-append}
use netquality.Float.{Float, nought}
use netquality.Engine.Tracker.{
  Tracker, Confidence, push, current, moving_average, stable, series, stddev, last_n, confidence,
  count_intervals,
}
use netquality.Engine.Invariant.{IsPaired}

module _ {F : Type 0} ⦃d : Float F⦄ where
  -- The average that a push returns is the current one afterwards.
  current-push : (t : Tracker F) (v : F) → current (push t v) ≡ moving_average t v
  unfolding current push
  current-push t v = last_or-append t.averages (moving_average t v) nought

  -- In a tracker that has an average for each value, confidence is high exactly for a stable series, low exactly while fewer than MAD intervals ran,
  -- and medium for the others: a stable series has at least MAD intervals.
  confidence_iff :
      (t : Tracker F)
      → IsPaired t
      → ((confidence t ≡ Confidence.high) ↔ (stable t ≡ true))
        × ((confidence t ≡ Confidence.low) ↔ (count_intervals t < t.mad))
        × ((confidence t ≡ Confidence.medium) ↔ ((stable t ≡ false) × (t.mad ≤ count_intervals t)))
  unfolding confidence stable count_intervals
  confidence_iff t h = ground arith

  -- A series is stable only if it has MAD values, its last one is positive, and the deviation of
  -- the last MAD is within tolerance of it.
  stable_iff :
      (t : Tracker F)
      → let last = last_or (series t) nought in
        (stable t ≡ true) ↔ (
          (t.mad ≤ length t.averages)
          × (d.le last nought ≡ false)
          × (d.lt (stddev (last_n t.mad (series t))) (d.mul t.tolerance last) ≡ true))
  unfolding stable
  stable_iff t = ground arith
