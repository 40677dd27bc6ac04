-- ===== src/Client/Report/Window.antt =====
-- Which intervals the reported loaded window covers.
use netquality.Prelude.{
  ℕ, ◌+◌, ◌-◌, ◌^◌, ◌≤◌, ◌<◌, ◌≡◌, ◌∙◌, ◌⊎◌, inl, inr, List, none, some, pos, ◌+ℤ◌, ◌-ℤ◌, ◌==◌,
  add64, sub64, mul64, add64_small, sub64_small, arith, Bool-cases,
}
use Prim.Native.Nat.{min}
use netquality.Float.{Float}
use netquality.Engine.Samples.{Sample}
use netquality.Engine.State.{Engine, distance}
use netquality.Engine.Summary.{Summary, summary}
use netquality.Engine.Invariant.{IsConsistent}
use netquality.Engine.Report.{summary_window}
use netquality.Client.Options.{StabilityParams}
use netquality.Client.Report.{PhaseEnd, loaded_window_of, report}

sub64-pos : (a b : ℕ) → b ≤ a → a ≤ 2 ^ 62 → sub64 (pos a) (pos b) ≡ pos (a - b)
unfolding ◌-ℤ◌
sub64-pos a b h k =
    sub64_small (pos a) (pos b) (omega arith) (omega arith) (omega arith) (omega arith)
    ∙ ground arith

add64-pos : (a b : ℕ) → a ≤ 2 ^ 62 → b < 2 ^ 62 → add64 (pos a) (pos b) ≡ pos (a + b)
unfolding ◌+ℤ◌
add64-pos a b h k =
    add64_small (pos a) (pos b) (omega arith) (omega arith) (omega arith) (omega arith)
    ∙ ground arith

module _ {F : Type 0} ⦃d : Float F⦄ where
  -- A window that begins in a phase is the rest of it.
  loaded_window_of-rest :
      (sp : StabilityParams F) (sum : Summary F)
      → 1 ≤ sum.window_from
      → sum.window_from ≤ sum.intervals
      → sum.intervals < 2 ^ 62
      → let n = sum.intervals + 1 - sum.window_from in
        loaded_window_of sp sum
        ≡ some (record {
          start = mul64 (pos (sum.intervals - n)) sp.interval;
          duration = mul64 (pos n) sp.interval;
          intervals = pos n;
        })
  unfolding loaded_window_of
  loaded_window_of-rest sp sum lo hi small = ground (
    arith,
    sub64-pos sum.window_from 1,
    sub64-pos sum.intervals sum.window_from,
    add64-pos (sum.intervals - sum.window_from) 1,
  )

  -- The loaded window of a phase is absent if no interval completed; otherwise it is the phase's
  -- last intervals, at least as many as the moving average takes or all there were, and its start
  -- and its length add up to them.
  pub loaded_window-trailing :
      (sp : StabilityParams F) (p : PhaseEnd) (e : Engine F) (f s : List Sample)
      → IsConsistent e
      → e.intervals < 2 ^ 62
      → let r = report sp p (summary e f s) in
        ((e.intervals ≡ 0) × (r.loaded_window ≡ none))
        ⊎ ((n : ℕ) × (1 ≤ n)
            × (n ≤ e.intervals)
            × (min (distance e.p) e.intervals ≤ n)
            × (r.loaded_window
                ≡ some (record {
                  start = mul64 (pos (e.intervals - n)) sp.interval;
                  duration = mul64 (pos n) sp.interval;
                  intervals = pos n;
                })))
  unfolding report summary loaded_window_of
  loaded_window-trailing sp p e f s c small =
      let sum = summary e f s in
      let (lo, hi, _) = summary_window e f s c in
      elim (Bool-cases (e.intervals == 0)) [
        | inl none_yet ↦ inl (ground arith, ground arith)
        | inr some_yet ↦ inr (
          e.intervals + 1 - sum.window_from,
          ground (arith, c.distance_pos, hi),
          omega (arith, lo),
          ground (arith, c.distance_pos, hi),
          loaded_window_of-rest sp sum lo (ground (arith, c.distance_pos, hi)) small,
        )
      ]
