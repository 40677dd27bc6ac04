-- ===== src/Tests/EngineExamples.antt =====
-- The engine's theorems at a concrete phase: one flow to start with, at most sixteen, one megabyte in
-- the first second and two in the second.
use netquality.Prelude.{
  ◌+◌, ◌-◌, ◌^◌, ◌≤◌, ◌<◌, ◌≡◌, refl, ◌⊎◌, true, [], ◌∷◌, ◌++◌, pos, ◌≤ℤ◌, ◌<ℤ◌, ◌*ℤ◌, ◌*◌, arith,
  length, concat, drop, quot, sub64, mul64,
}
use Prim.Native.Nat.{max}
use netquality.Float.Micro.{Micro, micro_float}
use netquality.Engine.Params.{default_params, with_defaults}
use netquality.Engine.Samples.{Sample}
use netquality.Engine.State.{Engine, new, distance}
use netquality.Engine.Interval.{Observation, interval, is_drain}
use netquality.Engine.Invariant.{IsConsistent, new-IsConsistent, interval-IsConsistent}
use netquality.Engine.Phase.{Phase, start, tick, Reach, here, next, Reach-flows, Reach-IsConsistent}
use netquality.Engine.Report.{summary_window}
use netquality.Engine.Summary.{summary}

abbrev probe : Sample
probe = record {
  total = pos 30_000_000;
  dns = pos 0;
  connect = pos 10_000_000;
  tls = pos 10_000_000;
  tls_rtts = pos 1;
  ttfb = pos 9_000_000;
  http = pos 10_000_000;
  staged = true;
}

abbrev first : Observation
first = record {
  elapsed = pos (10 ^ 9);
  bytes = pos (10 ^ 6);
  flows = pos 1;
  foreign = probe ∷ [];
  self = [];
}

abbrev phase : Phase Micro
phase = start default_params (pos 16)

abbrev ticked : Phase Micro
ticked = tick phase first

ticked-Reach : Reach phase ticked
unfolding start
ticked-Reach = next here first refl

Reach-flows_example : (pos 0 <ℤ ticked.flows) × (ticked.flows ≤ℤ pos 16)
unfolding with_defaults
Reach-flows_example =
    Reach-flows default_params (pos 16) (omega arith) (omega arith) (omega arith) ticked-Reach

Reach-IsConsistent_example : IsConsistent ticked.engine
Reach-IsConsistent_example = Reach-IsConsistent default_params (pos 16) ticked-Reach

abbrev measured_phase : Engine Micro
measured_phase = (interval (new default_params (pos 16)) first).0

consistent : IsConsistent measured_phase
consistent =
    interval-IsConsistent (new default_params (pos 16)) first
      (new-IsConsistent default_params (pos 16))

summary_window_example :
    let r = summary measured_phase (probe ∷ []) [] in
    (1 ≤ r.window_from)
    × (r.window_from ≤ max (measured_phase.intervals + 1 - distance measured_phase.p) 1)
    × ((r.foreign ≡ concat (drop (r.window_from - 1) measured_phase.foreign))
          × (r.self ≡ concat (drop (r.window_from - 1) measured_phase.self))
          × (0 < length r.foreign + length r.self)
        ⊎ (r.window_from ≡ 1)
          × (r.foreign ≡ concat measured_phase.foreign ++ probe ∷ [])
          × (r.self ≡ concat measured_phase.self ++ []))
summary_window_example = summary_window measured_phase (probe ∷ []) [] consistent

-- With four megabytes of send-buffer credit the first interval of an upload drains.
abbrev upload_engine : Engine Micro
upload_engine = new (record default_params { send_buffer_bytes = pos (4 * 2 ^ 20) }) (pos 16)

drains : is_drain upload_engine first ≡ true
unfolding is_drain new sub64 mul64 ◌*ℤ◌ quot
drains = refl

-- A phase whose ramp has ended with one flow.
abbrev ended : Phase Micro
ended = record { engine = record (new default_params (pos 16)) { ramp_done = true }; flows = pos 1 }
