-- ===== src/Engine/Invariant.antt =====
-- The bookkeeping of a phase is consistent after any sequence of intervals.
use netquality.Prelude.{
  suc, ◌+◌, ◌-◌, ◌≤◌, ◌<◌, ◌≡◌, refl, ◌⊎◌, inl, inr, Bool, true, false, [], ◌∷◌, ℤ, arith, length,
  length-append, length-drop, Bool-cases,
}
use netquality.Float.{Float}
use netquality.Engine.Params.{Params, with_defaults-IsProper}
use netquality.Engine.Tracker.{Tracker, push, last_n, new_tracker}
use netquality.Engine.State.{Engine, distance, new, no_bound, bound_over, update_bound}
use netquality.Engine.Interval.{
  Observation, record_interval, restart, raise_peak, detect_change, log_goodput, measure,
  mark_steady, take_in, is_drain, goodput_of, current_rpm, measured, track_rpm, after_rpm, ramp,
  stops, interval,
}
use netquality.Engine.Frame.{take_in-IsCounted, measured-IsCounted}
use netquality.Engine.Ascending.{
  Ascending, Ascending-mono, Ascending-snoc, Ascending-drop, window_range,
}

-- A tracker has a moving average for each value.
abbrev pub IsPaired : {F : Type 0} → Tracker F → Type 0
IsPaired t = length t.averages ≡ length t.raw

-- The lower bound is absent, or its window is MAD intervals long and all of them have completed.
abbrev IsWindow : {F : Type 0} → Engine F → Type 0
IsWindow e =
    (e.lb.intervals ≡ 0)
    ⊎ ((e.lb.intervals ≡ distance e.p)
        × (1 ≤ e.lb.start)
        × (e.lb.start + e.lb.intervals ≤ suc e.intervals))

pub record IsConsistent {F : Type 0} (e : Engine F) : Type 0 where
  pub distance_pos : 1 ≤ distance e.p
  pub foreign_count : length e.foreign ≡ e.intervals
  pub self_count : length e.self ≡ e.intervals
  pub tp_paired : IsPaired e.tp
  pub rp_paired : IsPaired e.rp
  pub tp_mad : e.tp.mad ≡ distance e.p
  pub rp_mad : e.rp.mad ≡ distance e.p
  pub rp_count : length e.rp.raw ≤ e.intervals
  pub hold_g_count : length e.hold_g ≡ length e.tp.raw
  pub hold_idx_count : length e.hold_idx ≡ length e.hold_g
  pub hold_ascending : Ascending 1 (suc e.intervals) e.hold_idx
  pub steady_le : e.steady_from ≤ e.intervals
  pub steady_stable : e.goodput_stable ≡ true → 1 ≤ e.steady_from
  pub unsteady : e.goodput_stable ≡ false → e.steady_from ≡ 0
  pub window : IsWindow e

module _ {F : Type 0} ⦃d : Float F⦄ where
  push-IsPaired : (t : Tracker F) (v : F) → IsPaired t → IsPaired (push t v)
  unfolding push
  push-IsPaired t v h =
      omega (arith, length-append t.raw (v ∷ []), length-append t.averages (_ ∷ []))

  length-push : (t : Tracker F) (v : F) → length (push t v).raw ≡ suc (length t.raw)
  unfolding push
  length-push t v = omega (arith, length-append t.raw (v ∷ []))

  push-mad : (t : Tracker F) (v : F) → (push t v).mad ≡ t.mad
  unfolding push
  push-mad t v = refl

  pub new-IsConsistent : (p : Params F) (limit : ℤ) → IsConsistent (new p limit)
  unfolding new
  new-IsConsistent p limit = ground (arith, (with_defaults-IsProper p).distance_pos)

  -- Between the head of Interval and the end of `measure`: the interval is counted and its own
  -- number may be appended.
  record_interval-IsConsistent :
      (e : Engine F) (o : Observation) → IsConsistent e → IsConsistent (record_interval e o)
  unfolding record_interval
  record_interval-IsConsistent e o h = record {
    distance_pos = h.distance_pos;
    foreign_count = omega (arith, length-append e.foreign (o.foreign ∷ []), h.foreign_count);
    self_count = omega (arith, length-append e.self (o.self ∷ []), h.self_count);
    tp_paired = h.tp_paired;
    rp_paired = h.rp_paired;
    tp_mad = h.tp_mad;
    rp_mad = h.rp_mad;
    rp_count = omega arith;
    hold_g_count = h.hold_g_count;
    hold_idx_count = h.hold_idx_count;
    hold_ascending = Ascending-mono 1 e.hold_idx (omega arith) h.hold_ascending;
    steady_le = omega arith;
    steady_stable = h.steady_stable;
    unsteady = h.unsteady;
    window = ground arith;
  }

  mark_steady-IsConsistent :
      (e : Engine F) → 1 ≤ e.intervals → IsConsistent e → IsConsistent (mark_steady e)
  unfolding mark_steady
  mark_steady-IsConsistent e some h = ground arith

  update_bound-IsWindow :
      (e : Engine F)
      → 1 ≤ distance e.p
      → length e.hold_idx ≡ length e.hold_g
      → Ascending 1 (suc e.intervals) e.hold_idx
      → IsWindow e
      → IsWindow (update_bound e)
  unfolding update_bound bound_over
  update_bound-IsWindow e some same asc w =
      let n = distance e.p in
      let idx = last_n n e.hold_idx in
      let asc' = Ascending-drop 1 (suc e.intervals) (length e.hold_idx - n) e.hold_idx asc in
      let len = length-drop (length e.hold_idx - n) e.hold_idx in
      ground (arith, window_range 1 (suc e.intervals) (n - 1) idx asc')

  -- An interval that has been counted and not yet measured: its number is in no list.
  abbrev IsUnlogged : Engine F → Type 0
  IsUnlogged e = (1 ≤ e.intervals) × Ascending 1 e.intervals e.hold_idx

  raise_peak-IsConsistent : (e : Engine F) (g : F) → IsConsistent e → IsConsistent (raise_peak e g)
  unfolding raise_peak
  raise_peak-IsConsistent e g h = ground arith

  raise_peak-IsUnlogged : (e : Engine F) (g : F) → IsUnlogged e → IsUnlogged (raise_peak e g)
  unfolding raise_peak
  raise_peak-IsUnlogged e g u = ground arith

  detect_change-IsConsistent :
      (e : Engine F) (hold : Bool) (g : F)
      → IsConsistent e
      → IsUnlogged e
      → IsConsistent (detect_change e hold g) × IsUnlogged (detect_change e hold g)
  unfolding detect_change restart new_tracker no_bound
  detect_change-IsConsistent e hold g h u = ground arith

  log_goodput-IsConsistent :
      (e : Engine F) (g : F) → IsConsistent e → IsUnlogged e → IsConsistent (log_goodput e g)
  unfolding log_goodput push
  log_goodput-IsConsistent e g h u =
      let idx = length-append e.hold_idx (e.intervals ∷ []) in
      let gs = length-append e.hold_g (g ∷ []) in
      record {
        distance_pos = h.distance_pos;
        foreign_count = h.foreign_count;
        self_count = h.self_count;
        tp_paired = push-IsPaired e.tp g h.tp_paired;
        rp_paired = h.rp_paired;
        tp_mad = h.tp_mad;
        rp_mad = h.rp_mad;
        rp_count = h.rp_count;
        hold_g_count = omega (arith, length-append e.tp.raw (g ∷ []), h.hold_g_count);
        hold_idx_count = omega (arith, h.hold_idx_count);
        hold_ascending = Ascending-snoc 1 e.intervals e.hold_idx u.0 u.1;
        steady_le = h.steady_le;
        steady_stable = h.steady_stable;
        unsteady = h.unsteady;
        window = h.window;
      }

  update_bound-IsConsistent : (e : Engine F) → IsConsistent e → IsConsistent (update_bound e)
  unfolding update_bound
  update_bound-IsConsistent e h =
      ground
        (arith, update_bound-IsWindow e h.distance_pos h.hold_idx_count h.hold_ascending h.window)

  record_interval-IsUnlogged :
      (e : Engine F) (o : Observation) → IsConsistent e → IsUnlogged (record_interval e o)
  unfolding record_interval
  record_interval-IsUnlogged e o h = (omega arith, h.hold_ascending)

  measure-IsConsistent :
      (e : Engine F) (hold : Bool) (g : F)
      → IsConsistent e
      → IsUnlogged e
      → IsConsistent (measure e hold g)
  unfolding measure
  measure-IsConsistent e hold g h u =
      let peak = raise_peak-IsConsistent e g h in
      let (changed, fresh) =
        detect_change-IsConsistent (raise_peak e g) hold g peak (raise_peak-IsUnlogged e g u) in
      update_bound-IsConsistent _ (log_goodput-IsConsistent _ g changed fresh)

  take_in-IsConsistent :
      (e : Engine F) (o : Observation) → IsConsistent e → IsConsistent (take_in e o)
  unfolding take_in
  take_in-IsConsistent e o h =
      let counted = record_interval-IsConsistent e o h in
      elim (Bool-cases (is_drain e o)) [
        | inl drain ↦ rw (drain, take_in) counted
        | inr kept ↦
            rw (kept, take_in)
              (measure-IsConsistent _ _ _ counted (record_interval-IsUnlogged e o h))
      ]

  measured-IsConsistent :
      (e : Engine F) (o : Observation) → IsConsistent e → IsConsistent (measured e o)
  unfolding measured
  measured-IsConsistent e o h =
      mark_steady-IsConsistent _ (rw (take_in-IsCounted e o).intervals_eq (omega arith))
        (take_in-IsConsistent e o h)

  after_rpm-IsConsistent :
      (e : Engine F) → IsConsistent e → length e.rp.raw < e.intervals → IsConsistent (after_rpm e)
  unfolding after_rpm track_rpm
  after_rpm-IsConsistent e h i =
      let v = current_rpm e in
      ground (arith, push-IsPaired e.rp v h.rp_paired, length-push e.rp v, push-mad e.rp v)

  ramp-IsConsistent :
      (e : Engine F) (o : Observation) (drain : Bool) (g : F)
      → IsConsistent e
      → IsConsistent (ramp e o drain g).0
  unfolding ramp
  ramp-IsConsistent e o drain g h = ground arith

  -- Every interval, whatever it observes, keeps the bookkeeping consistent.
  pub interval-IsConsistent :
      (e : Engine F) (o : Observation) → IsConsistent e → IsConsistent (interval e o).0
  unfolding interval
  interval-IsConsistent e o h =
      let counted = measured-IsCounted e o in
      let waits : length (measured e o).rp.raw < (measured e o).intervals =
        rw (counted.rp_eq, counted.intervals_eq) (omega (arith, h.rp_count)) in
      let rated = after_rpm-IsConsistent (measured e o) (measured-IsConsistent e o h) waits in
      let ramped =
        ramp-IsConsistent (after_rpm (measured e o)) o (is_drain e o) (goodput_of e o) rated in
      elim (Bool-cases (stops (measured e o))) [
        | inl e ↦ rw (e, interval) (ground (arith, rated))
        | inr e ↦ rw (e, interval) ramped
      ]
