-- ===== src/Client/Probe/Trace.antt =====
-- The trace hooks of foreignProbe and selfProbe of probe.go, and the two probes.
--
-- A hook runs under the probe's mutex, so the hooks of a probe are one sequence, each with its reading of the
-- clock in nanoseconds; a reading is never the zero instant.
use netquality.Prelude.{
  ℕ, ◌⊎◌, inl, inr, Bool, false, not, ◌&&◌, List, [], ◌∷◌, Option, none, some, ℤ, pos, eqb_ℤ, sub64,
  if◌then◌else◌,
}
use netquality.Engine.Samples.{Sample}
use netquality.Client.Probe.{
  ProbeError, RoundTrip, do_probe, tls_round_trips, ProbeTimes, foreign_sample, self_sample,
}

-- The hooks of httptrace that the probe sets, with what they are given.
pub data Hook : Type 0 where
  dns_start : Hook
  dns_done : Hook
  connect_start : Hook
  -- Whether the dial failed.
  connect_done : Bool → Hook
  tls_handshake_start : Hook
  -- Whether the handshake failed, and its version.
  tls_handshake_done : Bool → ℕ → Hook
  -- Whether the connection is reused.
  got_conn : Bool → Hook
  wrote_request : Hook
  got_first_response_byte : Hook

pub record Fired : Type 0 where
  pub hook : Hook
  pub at : ℤ

-- now().sub of a start that is set, or what was there.
unfoldable pub since : ℤ → Option ℤ → ℤ → ℤ
since at none old = old
since at (some start) old = sub64 at start

unfoldable pub first_start : ℤ → Option ℤ → Option ℤ
first_start at none = some at
first_start at (some t) = some t

unfoldable pub tls_done_rtts : ℕ → Option ℤ → ℤ → ℤ
tls_done_rtts version none old = old
tls_done_rtts version (some start) old = tls_round_trips version

unfoldable pub run_hook : Hook → ℤ → ProbeTimes → ProbeTimes
run_hook dns_start at pt = record pt { dns_start = some at }
run_hook dns_done at pt = record pt {
  sample = record pt.sample { dns = since at pt.dns_start pt.sample.dns };
}
run_hook connect_start at pt = record pt { conn_start = first_start at pt.conn_start }
run_hook (connect_done failed) at pt =
    if not failed && eqb_ℤ pt.sample.connect (pos 0)
    then record pt {
      sample = record pt.sample { connect = since at pt.conn_start pt.sample.connect };
    }
    else pt
run_hook tls_handshake_start at pt = record pt { tls_start = some at }
run_hook (tls_handshake_done failed version) at pt = if failed then pt else record pt {
  sample = record pt.sample {
    tls = since at pt.tls_start pt.sample.tls;
    tls_rtts = tls_done_rtts version pt.tls_start pt.sample.tls_rtts;
  };
}
run_hook (got_conn reused) at pt = record pt { reused = reused }
run_hook wrote_request at pt = record pt { wrote = some at }
run_hook got_first_response_byte at pt = record pt {
  sample = record pt.sample { ttfb = since at pt.wrote pt.sample.ttfb };
}

abbrev pub no_times : ProbeTimes
no_times = record {
  sample = record {
    total = pos 0;
    dns = pos 0;
    connect = pos 0;
    tls = pos 0;
    tls_rtts = pos 0;
    ttfb = pos 0;
    http = pos 0;
    staged = false;
  };
  dns_start = none;
  conn_start = none;
  tls_start = none;
  wrote = none;
  reused = false;
}

unfoldable pub run_hooks : List Fired → ProbeTimes → ProbeTimes
run_hooks [] pt = pt
run_hooks (f ∷ fs) pt = run_hooks fs (run_hook f.hook f.at pt)

-- A foreign probe, between the readings at its start and its end; the hooks are those that have run when it
-- returns.
unfoldable pub foreign_probe : RoundTrip → List Fired → ℤ → ℤ → ProbeError ⊎ Sample
foreign_probe exchange fired start end = elim (do_probe exchange) [
  | some err ↦ inl err
  | none ↦ inr (foreign_sample (run_hooks fired no_times) start end)
]

-- The hook of a self probe: the last request that was written.
unfoldable pub run_wrote : List Fired → Option ℤ → Option ℤ
run_wrote [] wrote = wrote
run_wrote (f ∷ fs) wrote =
    run_wrote fs (run_hook f.hook f.at (record no_times { wrote = wrote })).wrote

unfoldable pub self_probe : RoundTrip → List Fired → ℤ → ℤ → ProbeError ⊎ Sample
self_probe exchange fired start end = elim (do_probe exchange) [
  | some err ↦ inl err
  | none ↦ inr (self_sample (run_wrote fired none) start end)
]
