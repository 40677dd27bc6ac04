-- ===== src/Engine/Ramp.antt =====
-- How many flows the ramp opens.
use netquality.Prelude.{
  ◌^◌, ◌≡◌, Bool, true, ℤ, pos, ◌+ℤ◌, ◌≤ℤ◌, ◌<ℤ◌, sub64, add64_small, sub64_small, +ℤ_parts,
  -ℤ_parts, arith,
}
use netquality.Float.{Float}
use netquality.Engine.State.{Engine}
use netquality.Engine.Interval.{
  Observation, ramp_step, ramp, measured, after_rpm, is_drain, goodput_of, interval,
}
use netquality.Engine.Frame.{IsFramed, rated-IsFramed}

-- The flow counts are within the limit, and far from the ends of a machine word, so that a sum of
-- two does not wrap.
pub record InRange {F : Type 0} (e : Engine F) (flows : ℤ) : Type 0 where
  pub flows_nonneg : pos 0 ≤ℤ flows
  pub flows_le : flows ≤ℤ e.max_flows
  pub max_small : e.max_flows ≤ℤ pos (2 ^ 62)
  pub increment_pos : pos 0 <ℤ e.p.flow_increment
  pub increment_small : e.p.flow_increment <ℤ pos (2 ^ 62)

-- An add of flows that is no removal and stays within the limit.
abbrev pub IsCapped : ℤ → ℤ → ℤ → Type 0
IsCapped flows limit add = (pos 0 ≤ℤ add) × (flows +ℤ add ≤ℤ limit)

module _ {F : Type 0} ⦃d : Float F⦄ where
  InRange-of_IsFramed :
      {e e' : Engine F} (flows : ℤ) → IsFramed e e' → InRange e flows → InRange e' flows
  InRange-of_IsFramed flows f h = record {
    flows_nonneg = h.flows_nonneg;
    flows_le = rw f.max_flows_eq h.flows_le;
    max_small = rw f.max_flows_eq h.max_small;
    increment_pos = rw f.p_eq h.increment_pos;
    increment_small = rw f.p_eq h.increment_small;
  }

  ramp_step-IsCapped :
      (e : Engine F) (o : Observation)
      → InRange e o.flows
      → o.flows <ℤ e.max_flows
      → IsCapped o.flows e.max_flows (ramp_step e o)
  unfolding ramp_step
  ramp_step-IsCapped e o h lt = ground (
    arith,
    add64_small o.flows o.flows,
    add64_small o.flows e.p.flow_increment,
    sub64_small e.max_flows o.flows,
    +ℤ_parts o.flows o.flows,
    +ℤ_parts o.flows e.p.flow_increment,
    -ℤ_parts e.max_flows o.flows,
    +ℤ_parts o.flows (sub64 e.max_flows o.flows),
  )

  ramp-IsCapped :
      (e : Engine F) (o : Observation) (drain : Bool) (g : F)
      → InRange e o.flows
      → IsCapped o.flows e.max_flows (ramp e o drain g).1
  unfolding ramp ramp_step
  ramp-IsCapped e o drain g h = ground (arith, ramp_step-IsCapped e o h, +ℤ_parts o.flows (pos 0))

  -- The engine never asks for a negative number of flows, nor for more than leaves the phase within
  -- max_flows.
  pub interval-IsCapped :
      (e : Engine F) (o : Observation)
      → InRange e o.flows
      → IsCapped o.flows e.max_flows (interval e o).1.add_flows
  unfolding interval
  interval-IsCapped e o h =
      let framed = rated-IsFramed e o in
      ground (
        arith,
        ramp-IsCapped (after_rpm (measured e o)) o (is_drain e o) (goodput_of e o)
            (InRange-of_IsFramed o.flows framed h),
        framed.max_flows_eq,
        +ℤ_parts o.flows (pos 0),
      )

  -- Once the ramp has ended, no later interval adds a flow.
  pub ramp_done_absorbs :
      (e : Engine F) (o : Observation)
      → e.ramp_done ≡ true
      → ((interval e o).0.ramp_done ≡ true) × ((interval e o).1.add_flows ≡ pos 0)
  unfolding interval ramp
  ramp_done_absorbs e o h = ground (arith, (rated-IsFramed e o).ramp_done_eq)
