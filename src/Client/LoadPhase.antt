-- ===== src/Client/LoadPhase.antt =====
-- The phase loop of `loadPhase` of run.go: its ticks, the flows it adds, and what the flows and the probes do to the
-- phase meanwhile.
--
-- The goroutines' events and the ticks come in any order. A tick is one step from its take on (Buffers); the byte
-- counter's payload is read in it.
pub mod Grown
pub mod Steps
pub mod Teardown
pub mod Counts
pub mod Outcome
use Prim.Native.String.{String}
use netquality.Prelude.{
  ltb, ℕ, zero, suc, ◌+◌, ◌==◌, ◌≡◌, Bool, true, false, List, [], ◌∷◌, ◌++◌, Option, none, some, ℤ,
  pos, pos_part, leb_ℤ, sub64, length, map, if◌then◌else◌,
}
use netquality.Float.{Float}
use netquality.Engine.Params.{Params, with_defaults}
use netquality.Engine.Samples.{Sample}
use netquality.Engine.State.{Engine, new, initial_flows}
use netquality.Engine.Interval.{Observation, interval}
use netquality.Client.Buffers.{Buffers, add_sample, take}
use netquality.Client.Bytes.{ByteCounter, new_counter, add, add_probe}
use netquality.Client.Flows.{Flow}
use netquality.Client.Flows.Request.{Hook, run_hook}
use netquality.Client.Stop.{
  TruncationReason, StopState, running, no_reason, bytes_cap, stop, record_failure,
}

pub record LoadPhase (F : Type 0) : Type 0 where
  pub engine : Engine F
  pub flows : List Flow
  pub buffers : Buffers
  pub bytes : ByteCounter
  pub last_tick : ℤ
  -- DirectionResult.Intervals
  pub intervals : ℕ
  pub stop : StopState
  -- Whether the loop has been left.
  pub left : Bool

pub data Event : Type 0 where
  -- A probe has finished.
  probed : Bool → Sample → Event
  -- A flow has taken or handed over so many bytes.
  counted : ℤ → Event
  -- A probe begins, and counts what it will cost.
  probe_counted : ℤ → Event
  -- A hook of the request of a flow has run.
  hooked : ℕ → Hook → Event
  -- The ticker's reading, or the clock's where that is zero.
  ticked : ℤ → Event
  -- A flow has failed: the record of its error, before its stop.
  flow_broke : String → Event
  -- A goroutine stops the phase.
  stop_called : TruncationReason → Event
  -- The loop sees the phase's context done.
  ctx_done : Event

unfoldable pub flow_hooked : ℕ → Hook → Flow → Flow
flow_hooked id h f = if f.id == id then run_hook h f else f

module _ {F : Type 0} where
  -- addFlow
  unfoldable pub add_flow : LoadPhase F → LoadPhase F
  add_flow s = record s {
    flows = s.flows ++ record { id = length s.flows; ready = false; proto = none } ∷ [];
  }

  unfoldable pub add_flows : ℕ → LoadPhase F → LoadPhase F
  add_flows zero s = s
  add_flows (suc n) s = add_flows n (add_flow s)

  -- The byte counter after a call; its callback stops the phase.
  unfoldable pub count_bytes : ByteCounter → LoadPhase F → LoadPhase F
  count_bytes c s = record s {
    bytes = c;
    stop = if ltb s.bytes.calls c.calls then stop bytes_cap s.stop else s.stop;
  }

module _ {F : Type 0} ⦃d : Float F⦄ where
  -- Up to the first flow; `sp` are the parameters of the phase.
  unfoldable pub prepare : Params F → ℤ → ℤ → ℤ → LoadPhase F
  prepare sp max_flows max_bytes start = record {
    engine = new sp max_flows;
    flows = [];
    buffers = record { cur_f = []; cur_s = [] };
    bytes = new_counter max_bytes;
    last_tick = start;
    intervals = 0;
    stop = running;
    left = false;
  }

  -- Up to the loop.
  unfoldable pub begin : Params F → ℤ → ℤ → ℤ → LoadPhase F
  begin sp max_flows max_bytes start =
      add_flows (pos_part (initial_flows (with_defaults sp) max_flows))
        (prepare sp max_flows max_bytes start)

  unfoldable pub elapsed_at : ℤ → ℤ → LoadPhase F → ℤ
  elapsed_at interval now s =
      if leb_ℤ (sub64 now s.last_tick) (pos 0) then interval else sub64 now s.last_tick

  unfoldable pub observed : ℤ → ℤ → LoadPhase F → Observation
  observed interval now s =
      let ((foreign, self), rest) = take s.buffers in
      record {
        elapsed = elapsed_at interval now s;
        bytes = s.bytes.payload;
        flows = pos (length s.flows);
        foreign = foreign;
        self = self;
      }

  -- The phase after the engine's decision on what was observed.
  unfoldable pub decided : ℤ → ℤ → LoadPhase F → LoadPhase F
  decided spacing now s =
      let (next, decision) = interval s.engine (observed spacing now s) in
      record s {
        engine = next;
        buffers = (take s.buffers).1;
        last_tick = now;
        intervals = decision.interval;
      }

  -- A tick; `spacing` is the parameters' interval.
  unfoldable pub on_tick : ℤ → ℤ → LoadPhase F → LoadPhase F
  on_tick spacing now s =
      let decision = (interval s.engine (observed spacing now s)).1 in
      let after = decided spacing now s in
      if decision.stop
      then record after { stop = stop no_reason after.stop; left = true }
      else add_flows (pos_part decision.add_flows) after

  unfoldable pub handle : ℤ → Event → LoadPhase F → LoadPhase F
  handle spacing (probed self x) s = record s { buffers = add_sample self x s.buffers }
  handle spacing (counted n) s = count_bytes (add n s.bytes) s
  handle spacing (probe_counted n) s = count_bytes (add_probe n s.bytes) s
  handle spacing (hooked id h) s = record s { flows = map (flow_hooked id h) s.flows }
  handle spacing (ticked now) s = if s.left then s else on_tick spacing now s
  handle spacing (flow_broke err) s = record s { stop = record_failure err s.stop }
  handle spacing (stop_called why) s = record s { stop = stop why s.stop }
  handle spacing ctx_done s = record s { left = true }

  unfoldable pub handle_all : ℤ → List Event → LoadPhase F → LoadPhase F
  handle_all spacing [] s = s
  handle_all spacing (e ∷ es) s = handle_all spacing es (handle spacing e s)
