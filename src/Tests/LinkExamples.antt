-- ===== src/Tests/LinkExamples.antt =====
-- The simulated link's theorems at a link of 100 Mbit/s and a budget of 20 ms.
use netquality.Prelude.{ℕ, ◌^◌, ◌<◌, ◌≡◌, ◌⊎◌, false, List, some, pos, ◌≤ℤ◌, ◌<ℤ◌, ◌+ℤ◌, arith}
use netquality.Float.Micro.{Micro, micro_float}
use netquality.Engine.Params.{default_params, with_defaults}
use netquality.Engine.Samples.{Sample}
use netquality.Engine.State.{Engine}
use netquality.Engine.Summary.{summary}
use netquality.Engine.Phase.{Reach, start}
use netquality.Linksim.Link.{Link, Budget, dt}
use netquality.Linksim.Loop.{Outcome, run}
use netquality.Linksim.Finish.{run_finishes}
use netquality.Linksim.Phases.{run-IsPhaseEnd}

abbrev pow : Micro → Micro → Micro
pow a b = pos 2_000_000

abbrev draw : ℕ → ℕ → ℕ
draw k n = 0

abbrev link : Link Micro
link = record {
  capacity = pos (10 ^ 14);
  rtt = pos 20_000_000;
  queue_bytes = pos (10 ^ 12);
  per_flow_cap = pos 0;
  shaper_burst = pos 0;
  send_buffer = pos 0;
  tick_jitter = pos 0;
  change_at = pos 0;
  change_to = pos 0;
}

abbrev budget : Budget
budget = record { duration = pos 20_000_000; bytes = pos 0 }

run_finishes_example :
    (out : Outcome Micro) × (run pow draw 2 link default_params (pos 4) budget ≡ some out)
    × (pos 0 <ℤ out.elapsed)
    × (out.elapsed ≤ℤ budget.duration +ℤ dt)
run_finishes_example =
    run_finishes pow draw 1 link default_params (pos 4) budget (omega arith) (omega arith)
      (omega arith)

returned : (out : Outcome Micro) × (run pow draw 2 link default_params (pos 4) budget ≡ some out)
returned =
    let (out, same, started, ended) =
      run_finishes pow draw 1 link default_params (pos 4) budget (omega arith) (omega arith)
        (omega arith) in
    (out, same)

increment_small : (with_defaults {F = Micro} default_params).flow_increment <ℤ pos (2 ^ 62)
unfolding with_defaults
increment_small = omega arith

run-IsPhaseEnd_example :
    (eng : Engine Micro) × (foreign : List Sample) × (self : List Sample) × Reach
      (start (with_defaults default_params) (pos 4))
      (record { engine = eng; flows = pos returned.0.flows })
    × (returned.0.summary ≡ summary eng foreign self)
    × (0 < returned.0.flows)
    × (pos returned.0.flows ≤ℤ pos 4)
    × ((returned.0.truncated ≡ false) ⊎ (eng.stopped ≡ false))
run-IsPhaseEnd_example =
    run-IsPhaseEnd pow draw 2 link default_params (pos 4) budget returned.0 (omega arith)
      (omega arith) increment_small returned.1
