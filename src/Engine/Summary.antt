-- ===== src/Engine/Summary.antt =====
-- The readings of a phase: `Summary`, `ProbeGap` and `Stopped` of internal/engine/engine.go.
use netquality.Prelude.{
  ℕ, ◌+◌, ◌-◌, ◌^◌, Bool, ◌&&◌, List, [], ◌∷◌, ◌++◌, ℤ, pos, pos_part, ltb, ltb_ℤ, ◌==◌, add64,
  quot, if◌then◌else◌, length,
}
use Prim.Native.Nat.{max}
use netquality.Float.{Float, nought}
use netquality.Engine.Tracker.{Confidence, current, stable, confidence}
use netquality.Engine.Samples.{Sample}
use netquality.Engine.Responsiveness.{responsiveness}
use netquality.Engine.State.{Engine, distance, window}

pub record Summary (F : Type 0) : Type 0 where
  pub intervals : ℕ
  pub throughput_bps : F
  pub peak_throughput_bps : F
  pub throughput_stable : Bool
  pub responsiveness_stable : Bool
  pub throughput_confidence : Confidence
  pub responsiveness_confidence : Confidence
  pub rpm : F
  pub foreign_rpm : F
  pub self_rpm : F
  pub foreign : List Sample
  pub self : List Sample
  pub lower_bound_bps : F
  pub lower_bound_start : ℕ
  pub lower_bound_intervals : ℕ
  pub rpm_upper_bound : F
  pub window_from : ℕ
  pub phase_foreign : ℕ
  pub phase_self : ℕ

-- The lengths of all intervals' samples together.
unfoldable pub total_length : List (List Sample) → ℕ
total_length [] = 0
total_length (xs ∷ xss) = length xs + total_length xss

-- The first interval of the working-conditions window: the trailing window, or earlier if goodput
-- became stable before it.
unfoldable pub steady_window : {F : Type 0} → Engine F → ℕ
steady_window e =
    let from = max (e.intervals + 1 - distance e.p) 1 in
    if e.goodput_stable && (ltb 0 e.steady_from && ltb e.steady_from from)
    then e.steady_from
    else from

-- The samples that the final figures are computed from, with the interval where they begin.
pub record Chosen : Type 0 where
  pub foreign : List Sample
  pub self : List Sample
  pub from : ℕ

unfoldable pub choose : {F : Type 0} → Engine F → List Sample → List Sample → Chosen
choose e current_foreign current_self =
    let from = steady_window e in
    let w = window e (e.intervals + 1 - from) in
    let whole = window e (length e.foreign) in
    if length w.0 + length w.1 == 0
    then record { foreign = whole.0 ++ current_foreign; self = whole.1 ++ current_self; from = 1 }
    else record { foreign = w.0; self = w.1; from = from }

unfoldable pub has_stopped : {F : Type 0} → Engine F → Bool
has_stopped e = e.stopped

module _ {F : Type 0} ⦃d : Float F⦄ where
  unfoldable pub summary : Engine F → List Sample → List Sample → Summary F
  summary e current_foreign current_self =
      let c = choose e current_foreign current_self in
      let r = responsiveness c.foreign c.self e.p.trimmed_mean_percent in
      record {
        intervals = e.intervals;
        throughput_bps = current e.tp;
        peak_throughput_bps = e.peak;
        throughput_stable = stable e.tp;
        responsiveness_stable = stable e.rp;
        throughput_confidence = confidence e.tp;
        responsiveness_confidence = if e.goodput_stable then confidence e.rp else Confidence.low;
        rpm = r.total;
        foreign_rpm = r.foreign_rpm;
        self_rpm = r.self_rpm;
        foreign = c.foreign;
        self = c.self;
        lower_bound_bps = e.lb.bps;
        lower_bound_start = e.lb.start;
        lower_bound_intervals = e.lb.intervals;
        rpm_upper_bound = e.lb.rpm_upper;
        window_from = c.from;
        phase_foreign = total_length e.foreign + length current_foreign;
        phase_self = total_length e.self + length current_self;
      }

  -- The stretched gap of ProbeGap.
  unfoldable pub stretched : F → F → ℤ → ℤ → ℤ
  stretched capacity bps foreign_bytes self_bytes =
      let per_probe =
        d.mul (d.div (d.of_int (add64 foreign_bytes self_bytes)) (d.lit 2 0)) (d.lit 8 0) in
      d.to_int (d.mul (d.div per_probe (d.mul capacity bps)) (d.of_int (pos (10 ^ 9))))

  unfoldable pub probe_gap : Engine F → ℤ → ℤ → ℤ
  probe_gap e foreign_bytes self_bytes =
      let gap = quot (pos (10 ^ 9)) (pos_part e.p.max_probes_per_second) in
      let bps = current e.tp in
      let g = stretched e.p.probe_capacity_percent bps foreign_bytes self_bytes in
      if d.lt nought bps && ltb_ℤ gap g then g else gap
