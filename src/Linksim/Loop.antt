-- ===== src/Linksim/Loop.antt =====
-- The loop of Run in internal/linksim/linksim.go: its tests, the engine's ticks and the Outcome.
--
-- The loop runs on fuel, a round each. A round takes ten milliseconds of the simulated time, so one
-- more than the budget's duration in rounds is enough.
use netquality.Prelude.{
  ℕ, zero, suc, Bool, true, false, not, ◌&&◌, List, [], ◌∷◌, ◌++◌, Option, none, some, ℤ, pos,
  ltb_ℤ, leb_ℤ, add64, sub64, pos_part, length, if◌then◌else◌,
}
use netquality.Float.{Float, nought}
use netquality.Engine.Params.{Params, with_defaults}
use netquality.Engine.State.{new, initial_flows}
use netquality.Engine.Interval.{Observation, Decision, interval}
use netquality.Engine.Summary.{Summary, summary, has_stopped}
use netquality.Linksim.Link.{Link, Budget, Sim, open_flows, loaded_rtt, advance}

pub data Reason : Type 0 where
  no_reason duration_spent bytes_spent : Reason

pub record Outcome (F : Type 0) : Type 0 where
  pub summary : Summary F
  pub bytes : ℤ
  pub elapsed : ℤ
  pub flows : ℕ
  pub truncated : Bool
  pub reason : Reason
  pub true_capacity : F
  pub true_loaded_rtt : ℤ
  pub moving_averages : List F
  pub decisions : List (Decision F)
  pub capacities : List F

-- jitter, and the draws after it.
unfoldable pub jitter : (ℕ → ℕ → ℕ) → ℕ → ℤ → ℤ × ℕ
jitter draw draws max =
    if leb_ℤ max (pos 0) then (pos 0, draws) else (pos (draw draws (pos_part max)), suc draws)

module _ {F : Type 0} ⦃d : Float F⦄ (pow : F → F → F) (draw : ℕ → ℕ → ℕ) (link : Link F)
    (p : Params F) (max_flows : ℤ) (budget : Budget) where
  -- The variables before the loop; here and below `p` is with its defaults in.
  unfoldable pub begin : Sim F
  begin =
      let (late, draws) = jitter draw 0 link.tick_jitter in
      open_flows link max_flows (pos_part (initial_flows (with_defaults p) max_flows)) (record {
        eng = new p max_flows;
        capacity = link.capacity;
        now = pos 0;
        bytes = nought;
        queue = nought;
        tokens = link.shaper_burst;
        flows = [];
        last_tick = pos 0;
        next_tick = add64 p.interval late;
        cur_f = [];
        cur_s = [];
        next_probe = pos 0;
        moving_averages = [];
        decisions = [];
        capacities = [];
        draws = draws;
      })

  -- The budget that is spent.
  unfoldable pub spent : Sim F → Option Reason
  spent s =
      if ltb_ℤ (pos 0) budget.bytes && leb_ℤ budget.bytes (d.to_int s.bytes)
      then some bytes_spent
      else if leb_ℤ budget.duration s.now
      then some duration_spent
      else none

  unfoldable pub observation : Sim F → Observation
  observation s = record {
    elapsed = sub64 s.now s.last_tick;
    bytes = d.to_int s.bytes;
    flows = pos (length s.flows);
    foreign = s.cur_f;
    self = s.cur_s;
  }

  -- The engine's interval and its records.
  unfoldable pub rate : Sim F → Sim F
  rate s =
      let (eng, decision) = interval s.eng (observation s) in
      let (late, draws) = jitter draw s.draws link.tick_jitter in
      record s {
        eng = eng;
        cur_f = [];
        cur_s = [];
        moving_averages = s.moving_averages ++ decision.throughput_bps ∷ [];
        capacities = s.capacities ++ s.capacity ∷ [];
        decisions = s.decisions ++ decision ∷ [];
        last_tick = s.now;
        next_tick = add64 (add64 s.now p.interval) late;
        draws = draws;
      }

  -- The tick, where it is due, and whether the engine stops.
  unfoldable pub tick : Sim F → Sim F × Bool
  tick s =
      let decision = (interval s.eng (observation s)).1 in
      if leb_ℤ s.next_tick s.now
      then (if decision.stop
          then (rate s, true)
          else (open_flows link max_flows (pos_part decision.add_flows) (rate s), false))
      else (s, false)

  unfoldable pub finish : Bool → Reason → Sim F → Outcome F
  finish truncated reason s =
      let cut = truncated && not (has_stopped s.eng) in
      record {
        summary = summary s.eng s.cur_f s.cur_s;
        bytes = d.to_int s.bytes;
        elapsed = s.now;
        flows = length s.flows;
        truncated = cut;
        reason = if cut then reason else no_reason;
        true_capacity = s.capacity;
        true_loaded_rtt = loaded_rtt link s;
        moving_averages = s.moving_averages;
        decisions = s.decisions;
        capacities = s.capacities;
      }

  -- One round.
  unfoldable pub loop : ℕ → Sim F → Option (Outcome F)
  loop zero s = none
  loop (suc n) s =
      let s1 = advance pow draw link s in
      elim (spent s1) [
        | some reason ↦ some (finish true reason s1)
        | none ↦ elim (tick s1).1 [
          | true ↦ some (finish false no_reason (tick s1).0)
          | false ↦ loop n (tick s1).0
        ]
      ]

  unfoldable pub simulate : ℕ → Option (Outcome F)
  simulate fuel = loop fuel begin

-- Run
unfoldable pub run :
    {F : Type 0} ⦃d : Float F⦄
    → (F → F → F)
    → (ℕ → ℕ → ℕ)
    → ℕ
    → Link F
    → Params F
    → ℤ
    → Budget
    → Option (Outcome F)
run pow draw fuel link p max_flows budget =
    simulate pow draw link (with_defaults p) max_flows budget fuel
