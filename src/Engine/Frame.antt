-- ===== src/Engine/Frame.antt =====
-- What the parts of Interval leave alone.
use netquality.Prelude.{suc, ◌≡◌, Bool, [], ◌∷◌, ◌++◌, pos, arith, Bool-cases, inl, inr, ◌∙◌}
use netquality.Float.{Float}
use netquality.Engine.State.{Engine, update_bound}
use netquality.Engine.Interval.{
  Observation, raise_peak, detect_change, log_goodput, measure, mark_steady, take_in, is_drain,
  interval, measured, track_rpm, after_rpm, restart, record_interval, ramp,
}

-- The fields that only the stop decision and the ramp write.
pub record IsFramed {F : Type 0} (e e' : Engine F) : Type 0 where
  pub p_eq : e'.p ≡ e.p
  pub max_flows_eq : e'.max_flows ≡ e.max_flows
  pub ramp_done_eq : e'.ramp_done ≡ e.ramp_done
  pub await_gain_eq : e'.await_gain ≡ e.await_gain
  pub before_add_eq : e'.before_add ≡ e.before_add
  pub stopped_eq : e'.stopped ≡ e.stopped

IsFramed-trans : {F : Type 0} {a b c : Engine F} → IsFramed a b → IsFramed b c → IsFramed a c
IsFramed-trans h k = record {
  p_eq = k.p_eq ∙ h.p_eq;
  max_flows_eq = k.max_flows_eq ∙ h.max_flows_eq;
  ramp_done_eq = k.ramp_done_eq ∙ h.ramp_done_eq;
  await_gain_eq = k.await_gain_eq ∙ h.await_gain_eq;
  before_add_eq = k.before_add_eq ∙ h.before_add_eq;
  stopped_eq = k.stopped_eq ∙ h.stopped_eq;
}

module _ {F : Type 0} ⦃d : Float F⦄ where
  update_bound-IsFramed : (e : Engine F) → IsFramed e (update_bound e)
  unfolding update_bound
  update_bound-IsFramed e = ground arith

  measure-IsFramed : (e : Engine F) (hold : Bool) (g : F) → IsFramed e (measure e hold g)
  unfolding measure restart raise_peak detect_change log_goodput
  measure-IsFramed e hold g = IsFramed-trans (ground arith) (update_bound-IsFramed _)

  mark_steady-IsFramed : (e : Engine F) → IsFramed e (mark_steady e)
  unfolding mark_steady
  mark_steady-IsFramed e = ground arith

  record_interval-IsFramed : (e : Engine F) (o : Observation) → IsFramed e (record_interval e o)
  unfolding record_interval
  record_interval-IsFramed e o = ground arith

  take_in-IsFramed : (e : Engine F) (o : Observation) → IsFramed e (take_in e o)
  unfolding take_in
  take_in-IsFramed e o = elim (Bool-cases (is_drain e o)) [
    | inl h ↦ rw (h, take_in) (record_interval-IsFramed e o)
    | inr h ↦
        rw (h, take_in) (IsFramed-trans (record_interval-IsFramed e o) (measure-IsFramed _ _ _))
  ]

  measured-IsFramed : (e : Engine F) (o : Observation) → IsFramed e (measured e o)
  unfolding measured
  measured-IsFramed e o = IsFramed-trans (take_in-IsFramed e o) (mark_steady-IsFramed _)

  after_rpm-IsFramed : (e : Engine F) → IsFramed e (after_rpm e)
  unfolding after_rpm track_rpm
  after_rpm-IsFramed e = ground arith

  -- The tracker of responsiveness and the samples wait for the responsiveness block; the head alone
  -- counts.
  pub record IsCounted (e : Engine F) (o : Observation) (e' : Engine F) : Type 0 where
    pub rp_eq : e'.rp ≡ e.rp
    pub intervals_eq : e'.intervals ≡ suc e.intervals
    pub foreign_eq : e'.foreign ≡ e.foreign ++ o.foreign ∷ []
    pub self_eq : e'.self ≡ e.self ++ o.self ∷ []
    pub last_bytes_eq : e'.last_bytes ≡ o.bytes
    pub credit_eq : e'.drain_credit ≡ pos 0
    pub added_eq : e'.added_into ≡ pos 0

  update_bound-IsCounted :
      (e : Engine F) (o : Observation) (e' : Engine F)
      → IsCounted e o e'
      → IsCounted e o (update_bound e')
  unfolding update_bound
  update_bound-IsCounted e o e' h = ground arith

  measure-IsCounted :
      (e : Engine F) (o : Observation) (hold : Bool) (g : F)
      → IsCounted e o (measure (record_interval e o) hold g)
  unfolding measure restart raise_peak detect_change log_goodput record_interval
  measure-IsCounted e o hold g = update_bound-IsCounted e o _ (ground arith)

  pub take_in-IsCounted : (e : Engine F) (o : Observation) → IsCounted e o (take_in e o)
  unfolding take_in record_interval
  take_in-IsCounted e o = elim (Bool-cases (is_drain e o)) [
    | inl h ↦ rw (h, take_in) (ground arith)
    | inr h ↦ rw (h, take_in) (measure-IsCounted e o _ _)
  ]

  pub measured-IsCounted : (e : Engine F) (o : Observation) → IsCounted e o (measured e o)
  unfolding measured mark_steady
  measured-IsCounted e o = let h = take_in-IsCounted e o in ground arith

  -- The engine that the ramp is given.
  pub rated-IsFramed : (e : Engine F) (o : Observation) → IsFramed e (after_rpm (measured e o))
  rated-IsFramed e o = IsFramed-trans (measured-IsFramed e o) (after_rpm-IsFramed _)

  -- The parameters never change.
  pub interval-p : (e : Engine F) (o : Observation) → (interval e o).0.p ≡ e.p
  unfolding interval ramp
  interval-p e o = ground (arith, (rated-IsFramed e o).p_eq)

  pub interval-max_flows :
      (e : Engine F) (o : Observation) → (interval e o).0.max_flows ≡ e.max_flows
  unfolding interval ramp
  interval-max_flows e o = ground (arith, (rated-IsFramed e o).max_flows_eq)

  -- An interval is counted once.
  pub interval-intervals :
      (e : Engine F) (o : Observation) → (interval e o).0.intervals ≡ suc e.intervals
  unfolding interval ramp after_rpm track_rpm
  interval-intervals e o = ground (arith, (measured-IsCounted e o).intervals_eq)

  -- The samples of an interval are logged as they are.
  pub interval-foreign :
      (e : Engine F) (o : Observation) → (interval e o).0.foreign ≡ e.foreign ++ o.foreign ∷ []
  unfolding interval ramp after_rpm track_rpm
  interval-foreign e o = ground (arith, (measured-IsCounted e o).foreign_eq)

  pub interval-self :
      (e : Engine F) (o : Observation) → (interval e o).0.self ≡ e.self ++ o.self ∷ []
  unfolding interval ramp after_rpm track_rpm
  interval-self e o = ground (arith, (measured-IsCounted e o).self_eq)
