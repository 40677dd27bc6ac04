-- ===== src/Engine/Decisions.antt =====
-- What a decision says about the engine that took it.
use netquality.Prelude.{
  ◌≡◌, refl, sym, ◌∙◌, ◌↔◌, ◌⊎◌, inl, inr, true, false, pos, arith, Bool-cases,
}
use netquality.Float.{Float}
use netquality.Engine.State.{Engine}
use netquality.Engine.Interval.{
  Observation, is_drain, is_hold, goodput_of, record_interval, measured, take_in, mark_steady,
  after_rpm, track_rpm, stops, ramp, interval,
}
use netquality.Engine.Frame.{rated-IsFramed}

module _ {F : Type 0} ⦃d : Float F⦄ where
  -- An interval ends the phase exactly when both series are stable in its decision.
  stop_iff :
      (e : Engine F) (o : Observation)
      → let decision = (interval e o).1 in
        (decision.stop ≡ true)
        ↔ ((decision.throughput_stable ≡ true) × (decision.responsiveness_stable ≡ true))
  unfolding interval stops
  stop_iff e o = ground arith

  -- A decision to stop opens no flow and is remembered by the engine; any other leaves the engine's
  -- stopped flag as it was.
  pub stop-stopped :
      (e : Engine F) (o : Observation)
      → let (next, decision) = interval e o in
        ((decision.stop ≡ true) × (next.stopped ≡ true) × (decision.add_flows ≡ pos 0))
        ⊎ ((decision.stop ≡ false) × (next.stopped ≡ e.stopped))
  unfolding interval ramp
  stop-stopped e o = ground (arith, (rated-IsFramed e o).stopped_eq)

  -- What an interval with send-buffer credit leaves as it was.
  pub record IsUnmeasured (e e' : Engine F) : Type 0 where
    pub tp_eq : e'.tp ≡ e.tp
    pub peak_eq : e'.peak ≡ e.peak
    pub hold_g_eq : e'.hold_g ≡ e.hold_g
    pub hold_idx_eq : e'.hold_idx ≡ e.hold_idx
    pub lb_eq : e'.lb ≡ e.lb
    pub before_eq : e'.before_add ≡ e.before_add
    pub await_eq : e'.await_gain ≡ e.await_gain

  IsUnmeasured-trans : {a b c : Engine F} → IsUnmeasured a b → IsUnmeasured b c → IsUnmeasured a c
  IsUnmeasured-trans h k = record {
    tp_eq = k.tp_eq ∙ h.tp_eq;
    peak_eq = k.peak_eq ∙ h.peak_eq;
    hold_g_eq = k.hold_g_eq ∙ h.hold_g_eq;
    hold_idx_eq = k.hold_idx_eq ∙ h.hold_idx_eq;
    lb_eq = k.lb_eq ∙ h.lb_eq;
    before_eq = k.before_eq ∙ h.before_eq;
    await_eq = k.await_eq ∙ h.await_eq;
  }

  drain-measured :
      (e : Engine F) (o : Observation)
      → is_drain e o ≡ true
      → IsUnmeasured e (after_rpm (measured e o))
  unfolding measured take_in mark_steady record_interval after_rpm track_rpm
  drain-measured e o h = ground arith

  drain-hold : (e : Engine F) (o : Observation) → is_drain e o ≡ true → is_hold e o ≡ false
  unfolding is_hold
  drain-hold e o h = ground arith

  interval-drain : (e : Engine F) (o : Observation) → (interval e o).1.drain ≡ is_drain e o
  unfolding interval
  interval-drain e o = ground arith

  -- With the drain flag set the ramp only notes that the limit is reached.
  ramp_drain :
      (e : Engine F) (o : Observation) (g : F)
      → IsUnmeasured e (ramp e o true g).0 × ((ramp e o true g).1 ≡ pos 0)
  unfolding ramp
  ramp_drain e o g = ground arith

  -- A drain interval is excluded: its goodput enters no average, no peak and no bound, it is no hold
  -- interval, it opens no flow, and the gain of the last add is still to be judged.
  drain-IsUnmeasured :
      (e : Engine F) (o : Observation)
      → (interval e o).1.drain ≡ true
      → IsUnmeasured e (interval e o).0
        × ((interval e o).1.hold ≡ false)
        × ((interval e o).1.add_flows ≡ pos 0)
  unfolding interval
  drain-IsUnmeasured e o h =
      let drain : is_drain e o ≡ true = sym (interval-drain e o) ∙ h in
      let same = drain-measured e o drain in
      let r = after_rpm (measured e o) in
      let (kept, none_added) = ramp_drain r o (goodput_of e o) in
      elim (Bool-cases (stops (measured e o))) [
        | inl t ↦ rw (t, interval) (ground (arith, same), drain-hold e o drain, refl)
        | inr t ↦
            rw (t, interval, drain) (IsUnmeasured-trans same kept, drain-hold e o drain, none_added)
      ]
