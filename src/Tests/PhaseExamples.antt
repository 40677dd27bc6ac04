-- ===== src/Tests/PhaseExamples.antt =====
-- The theorems on the goroutines of a load phase at short histories.
use netquality.Prelude.{
  ◌+◌, ◌≤◌, ◌≡◌, refl, true, false, List, [], ◌∷◌, ◌++◌, none, some, pos, concat, length,
}
use netquality.Float.Micro.{Micro, micro_float}
use netquality.Engine.Params.{default_params}
use netquality.Engine.Samples.{Sample}
use netquality.Engine.State.{new}
use netquality.Engine.Summary.{summary}
use netquality.Client.Buffers.{
  Event, probed, ticked, Collected, collect_all, finished, summary-finished,
}
use netquality.Client.Flows.{Round}
use netquality.Client.ProbeLoop.{
  ProbeLoop, new_probe_loop, launch, end_probe, Reach, here, next, slot, ends, is_odd, count_kind,
  Reach-probes,
}

abbrev probe : Sample
probe = record {
  total = pos 30_000_000;
  dns = pos 0;
  connect = pos 10_000_000;
  tls = pos 10_000_000;
  tls_rtts = pos 1;
  ttfb = pos 9_000_000;
  http = pos 10_000_000;
  staged = true;
}

-- Two probes before a tick, and one after it.
abbrev events : List Event
events =
    probed false probe
    ∷ probed true probe
    ∷ ticked (pos 1_000_000_000) (pos 1_000_000) (pos 1)
    ∷ probed false probe
    ∷ []

abbrev collected : Collected Micro
collected =
    collect_all events
      (record { engine = new default_params (pos 4); buffers = record { cur_f = []; cur_s = [] } })

summary-finished_example :
    let c = collected in
    let sum = summary c.engine c.buffers.cur_f c.buffers.cur_s in
    (concat c.engine.foreign ++ c.buffers.cur_f ≡ finished false events)
    × (concat c.engine.self ++ c.buffers.cur_s ≡ finished true events)
    × (sum.phase_foreign ≡ length (finished false events))
    × (sum.phase_self ≡ length (finished true events))
summary-finished_example = summary-finished default_params (pos 4) events

-- A response that ends cleanly, and the end of the context during the second request.
abbrev clean_round : Round
clean_round = record { ended_before = false; request_error = none; ended_after = false }

abbrev last_round : Round
last_round = record { ended_before = false; request_error = some "canceled"; ended_after = true }

-- Two slots, and the end of the first probe, of an invalid size.
abbrev two_slots : ProbeLoop
two_slots = launch (launch new_probe_loop)

abbrev one_left : ProbeLoop
one_left = end_probe false true (true ∷ []) two_slots

reached : Reach one_left
unfolding launch
reached = next (next (next here slot) slot) (ends false true (true ∷ []) [] refl)

Reach-probes_example :
    (length one_left.in_flight ≤ 64)
    × (one_left.slots ≡ length one_left.in_flight + one_left.skipped + one_left.ended)
    × (one_left.next_self ≡ is_odd one_left.slots)
    × (count_kind true one_left.warnings ≤ 1)
    × (count_kind false one_left.warnings ≤ 1)
Reach-probes_example = Reach-probes reached
