-- ===== src/Engine/Interval.antt =====
-- The step of the algorithm: the method Interval of internal/engine/engine.go, in the order of its
-- statements.
use netquality.Prelude.{
  ℕ, suc, Bool, true, false, not, ◌&&◌, ◌||◌, List, [], ◌∷◌, ◌++◌, ℤ, pos, ltb_ℤ, leb_ℤ, eqb_ℤ, leb,
  ◌==◌, add64, sub64, mul64, if◌then◌else◌,
}
use netquality.Float.{Float, nought, seconds}
use netquality.Engine.Tracker.{push, current, count_intervals, stable}
use netquality.Engine.Samples.{Sample}
use netquality.Engine.Responsiveness.{responsiveness}
use netquality.Engine.State.{Engine, distance, window, no_bound, fresh_tp, update_bound}

pub record Observation : Type 0 where
  pub elapsed : ℤ
  pub bytes : ℤ
  pub flows : ℤ
  pub foreign : List Sample
  pub self : List Sample

pub record Decision (F : Type 0) : Type 0 where
  pub add_flows : ℤ
  pub stop : Bool
  pub interval : ℕ
  pub throughput_bps : F
  pub rpm : F
  pub throughput_stable : Bool
  pub responsiveness_stable : Bool
  pub hold : Bool
  pub drain : Bool

module _ {F : Type 0} ⦃d : Float F⦄ where
  -- Bits per second of the interval.
  unfoldable pub goodput_of : Engine F → Observation → F
  goodput_of e o =
      let elapsed = if leb_ℤ o.elapsed (pos 0) then e.p.interval else o.elapsed in
      d.div (d.mul (d.of_int (sub64 o.bytes e.last_bytes)) (d.lit 8 0)) (seconds elapsed)

  -- The interval is inflated by send-buffer credit.
  unfoldable pub is_drain : Engine F → Observation → Bool
  is_drain e o =
      ltb_ℤ (pos 0) e.drain_credit
      && d.lt (d.mul e.p.std_dev_tolerance (d.of_int (sub64 o.bytes e.last_bytes)))
          (d.of_int e.drain_credit)

  unfoldable pub is_hold : Engine F → Observation → Bool
  is_hold e o = not (is_drain e o) && eqb_ℤ e.added_into (pos 0)

  -- The bookkeeping at the head.
  unfoldable pub record_interval : Engine F → Observation → Engine F
  record_interval e o = record e {
    last_bytes = o.bytes;
    intervals = suc e.intervals;
    foreign = e.foreign ++ o.foreign ∷ [];
    self = e.self ++ o.self ∷ [];
    drain_credit = pos 0;
    added_into = pos 0;
  }

  -- A hold interval's goodput fell below the moving average beyond tolerance.
  unfoldable pub is_drop : Engine F → Bool → F → Bool
  is_drop e hold goodput =
      hold
      && leb (distance e.p) (count_intervals e.tp)
      && d.lt goodput (d.mul (d.sub (d.lit 1 0) e.p.change_tolerance) (current e.tp))

  unfoldable pub restart : Engine F → Engine F
  restart e = record e {
    tp = fresh_tp e.p;
    goodput_stable = false;
    steady_from = 0;
    hold_g = [];
    hold_idx = [];
    lb = no_bound;
  }

  unfoldable pub raise_peak : Engine F → F → Engine F
  raise_peak e goodput = if d.lt e.peak goodput then record e { peak = goodput } else e

  unfoldable pub detect_change : Engine F → Bool → F → Engine F
  detect_change e hold goodput = if is_drop e hold goodput then restart e else e

  unfoldable pub log_goodput : Engine F → F → Engine F
  log_goodput e goodput = record e {
    tp = push e.tp goodput;
    hold_g = e.hold_g ++ goodput ∷ [];
    hold_idx = e.hold_idx ++ e.intervals ∷ [];
  }

  -- The body under `if !d.Drain`.
  unfoldable pub measure : Engine F → Bool → F → Engine F
  measure e hold goodput =
      update_bound (log_goodput (detect_change (raise_peak e goodput) hold goodput) goodput)

  unfoldable pub mark_steady : Engine F → Engine F
  mark_steady e =
      if not e.goodput_stable && stable e.tp
      then record e {
        goodput_stable = true;
        steady_from = if e.steady_from == 0 then e.intervals else e.steady_from;
      }
      else e

  -- The RPM over the trailing window.
  unfoldable pub current_rpm : Engine F → F
  current_rpm e =
      let w = window e (distance e.p) in (responsiveness w.0 w.1 e.p.trimmed_mean_percent).total

  -- The responsiveness block, up to the stop decision: the engine and the stable flag.
  unfoldable pub track_rpm : Engine F → Engine F
  track_rpm e =
      if d.lt nought (current_rpm e) then record e { rp = push e.rp (current_rpm e) } else e

  -- The size of the next ramp step: the flow count doubles, up to max_flows.
  unfoldable pub ramp_step : Engine F → Observation → ℤ
  ramp_step e o =
      let add = if ltb_ℤ o.flows e.p.flow_increment then e.p.flow_increment else o.flows in
      if ltb_ℤ e.max_flows (add64 o.flows add) then sub64 e.max_flows o.flows else add

  -- The last add bought too little goodput.
  unfoldable pub is_saturated : Engine F → F → Bool
  is_saturated e goodput =
      e.await_gain
      && (d.le nought e.p.ramp_gain_tolerance
          && d.lt nought e.before_add
          && d.lt (d.div (d.sub goodput e.before_add) e.before_add) e.p.ramp_gain_tolerance)

  -- The ramp, after a phase that goes on: the engine and how many flows to add.
  unfoldable pub ramp : Engine F → Observation → Bool → F → Engine F × ℤ
  ramp e o drain goodput =
      let e1 = if leb_ℤ e.max_flows o.flows then record e { ramp_done = true } else e in
      let add = ramp_step e1 o in
      if drain || e1.ramp_done
      then (e1, pos 0)
      else if is_saturated e1 goodput
      then (record e1 { await_gain = false; ramp_done = true }, pos 0)
      else (
        record e1 {
          added_into = add;
          await_gain = true;
          before_add = goodput;
          drain_credit = mul64 add e1.p.send_buffer_bytes;
        },
        add,
      )

  -- The head, and the measurement where the interval is no drain interval.
  unfoldable pub take_in : Engine F → Observation → Engine F
  take_in e o =
      if is_drain e o
      then record_interval e o
      else measure (record_interval e o) (is_hold e o) (goodput_of e o)

  -- The statements before the responsiveness block.
  unfoldable pub measured : Engine F → Observation → Engine F
  measured e o = mark_steady (take_in e o)

  -- Responsiveness is tracked once goodput is stable or the ramp has stopped.
  abbrev tracks : Engine F → Bool
  tracks e = e.goodput_stable || e.ramp_done

  unfoldable pub after_rpm : Engine F → Engine F
  after_rpm e = if tracks e then track_rpm e else e

  unfoldable pub stops : Engine F → Bool
  stops e = tracks e && e.goodput_stable && stable (after_rpm e).rp

  unfoldable pub interval : Engine F → Observation → Engine F × Decision F
  interval e o =
      let m = measured e o in
      let r = after_rpm m in
      let (next, add) = ramp r o (is_drain e o) (goodput_of e o) in
      let decision : Decision F = record {
        add_flows = pos 0;
        stop = false;
        interval = m.intervals;
        throughput_bps = current m.tp;
        rpm = if tracks m then current_rpm m else nought;
        throughput_stable = m.goodput_stable;
        responsiveness_stable = tracks m && stable r.rp;
        hold = is_hold e o;
        drain = is_drain e o;
      } in
      if stops m
      then (record r { stopped = true }, record decision { stop = true })
      else (next, record decision { add_flows = add })
