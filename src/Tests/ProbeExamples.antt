-- ===== src/Tests/ProbeExamples.antt =====
-- The theorems on the clock and on probes at a counter of 10 MHz and a probe of 30 ms.
use netquality.Prelude.{
  ℕ, ◌-◌, ◌≤◌, ◌≡◌, refl, inl, inr, true, false, List, [], ◌∷◌, none, some, ℤ, pos, pos_part, ◌-ℤ◌,
  sub64, arith, All,
}
use netquality.Engine.Samples.{Sample}
use netquality.Client.Clock.{unset, Answers, Instant, qpc_init, init_once, mono_now, sub}
use netquality.Client.Clock.Exact.{
  Reading, readings, IsFrom, IsRounded, readings-IsFrom, sub-IsRounded,
}
use netquality.Client.Probe.{
  Response, responded, do_probe, check_response, foreign_sample, tls_round_trips,
}
use netquality.Client.Probe.Trace.{
  Fired, dns_start, dns_done, connect_start, connect_done, tls_handshake_start, tls_handshake_done,
  got_conn, wrote_request, got_first_response_byte, run_hook, run_hooks, since, first_start,
  tls_done_rtts, no_times, foreign_probe,
}
use netquality.Client.Probe.Timely.{IsMeasured, foreign_probe-IsMeasured}

abbrev works : Answers
works = record { found = true; hz = some (pos 10_000_000); trial = true }

-- Two readings, of a process whose second call would find no counter.
abbrev two_calls : List (Reading ℕ)
two_calls =
    (works, 5, pos 1_000_000)
    ∷ (record { found = false; hz = none; trial = false }, 9, pos 1_012_345)
    ∷ []

abbrev reading : ℤ → Instant ℕ
reading n = record { qpc = n; wall = 0 }

abbrev since_time : ℕ → ℕ → ℤ
since_time a b = pos (a - b)

two_instants :
    (readings 0 two_calls unset).1 ≡ reading (pos 1_000_000) ∷ reading (pos 1_012_345) ∷ []
unfolding readings mono_now init_once qpc_init
two_instants = refl

readings-IsFrom_example :
    All (IsFrom 0 (readings 0 two_calls unset).0) (readings 0 two_calls unset).1
readings-IsFrom_example = readings-IsFrom 0 two_calls

sub-IsRounded_example :
    (d : ℕ) × (sub since_time
        (readings 0 two_calls unset).0
        (reading (pos 1_012_345))
        (reading (pos 1_000_000))
      ≡ some (pos d))
    × IsRounded
        (pos_part (readings 0 two_calls unset).0.frequency)
        (pos_part (pos 1_012_345 -ℤ pos 1_000_000))
        d
unfolding readings mono_now init_once qpc_init ◌-ℤ◌
sub-IsRounded_example =
    sub-IsRounded 0 since_time two_calls (reading (pos 1_012_345)) (reading (pos 1_000_000))
      (inr (pos 10_000_000, refl, omega arith), (inl refl, tt)) refl (omega arith) (omega arith)
      (omega arith) (omega arith)

abbrev fired : List Fired
fired =
    record { hook = dns_start; at = pos 1_001_000 }
    ∷ record { hook = dns_done; at = pos 1_003_000 }
    ∷ record { hook = connect_start; at = pos 1_003_000 }
    -- The first dial fails, and the second does not.
    ∷ record { hook = connect_start; at = pos 1_004_000 }
    ∷ record { hook = connect_done true; at = pos 1_005_000 }
    ∷ record { hook = connect_done false; at = pos 1_010_000 }
    ∷ record { hook = tls_handshake_start; at = pos 1_010_000 }
    ∷ record { hook = tls_handshake_done false 772; at = pos 1_018_000 }
    ∷ record { hook = got_conn false; at = pos 1_018_000 }
    ∷ record { hook = wrote_request; at = pos 1_019_000 }
    ∷ record { hook = got_first_response_byte; at = pos 1_027_000 }
    ∷ []

abbrev passes : Response
passes = record { status = 200; content_length = pos 1; body_length = 1; read_error = none }

abbrev sample : Sample
sample = record {
  total = pos 30_000;
  dns = pos 2_000;
  connect = pos 7_000;
  tls = pos 8_000;
  tls_rtts = pos 1;
  ttfb = pos 8_000;
  http = pos 11_000;
  staged = true;
}

foreign_probe-IsMeasured_example :
    ((r : Response) × (responded passes ≡ responded r)
      × (r.status ≡ 200)
      × (1 ≤ r.body_length)
      × (r.body_length ≤ 10))
    × IsMeasured (pos 1_000_000) (pos 1_030_000) (run_hooks fired no_times).reused sample
unfolding foreign_probe do_probe check_response run_hooks run_hook since first_start tls_done_rtts
    tls_round_trips foreign_sample sub64
foreign_probe-IsMeasured_example =
    foreign_probe-IsMeasured (responded passes) fired (pos 1_000_000) (pos 1_030_000) sample
      (omega arith) (omega arith) (omega arith) refl
