-- ===== src/Client/Probe/Timely.antt =====
-- What a probe of probe.go measures, whatever hooks ran in it: stages within its total.
use netquality.Prelude.{
  ◌≤◌, ◌^◌, ◌≡◌, refl, subst, ◌⊎◌, inl, inr, Bool, true, false, not, ◌&&◌, List, [], ◌∷◌, Option,
  none, some, ℤ, pos, ◌≤ℤ◌, ◌+ℤ◌, ◌-ℤ◌, eqb_ℤ, sub64, sub64_small, int_laws, arith, Bool-cases,
  Option-cases,
}
use netquality.Engine.Samples.{Sample}
use netquality.Client.Probe.{
  Response, responded, refused, check_response, check_response_iff, RoundTrip, do_probe, ProbeTimes,
  written_at, foreign_sample,
}
use netquality.Client.Probe.Trace.{
  Hook, dns_start, dns_done, connect_start, connect_done, tls_handshake_start, tls_handshake_done,
  got_conn, wrote_request, got_first_response_byte, Fired, since, first_start, run_hook, run_hooks,
  no_times, foreign_probe,
}

-- The readings do not go back.
abbrev IsForward : ℤ → List Fired → ℤ → Type 0
IsForward now [] end = now ≤ℤ end
IsForward now (f ∷ fs) end = (now ≤ℤ f.at) × IsForward f.at fs end

-- A start that is set lies between the probe's start and now.
abbrev IsStart : ℤ → ℤ → Option ℤ → Type 0
IsStart start now none = Unit
IsStart start now (some t) = (start ≤ℤ t) × (t ≤ℤ now)

-- A duration that fits between the two.
abbrev IsSpan : ℤ → ℤ → ℤ → Type 0
IsSpan start now d = (pos 0 ≤ℤ d) × (start +ℤ d ≤ℤ now)

-- A reading comes before the end.
start_le : (fs : List Fired) (now end : ℤ) → IsForward now fs end → now ≤ℤ end
start_le [] now end forward = forward
start_le (f ∷ fs) now end (le, forward) = omega (arith, start_le fs f.at end forward)

-- The starts and the stages that a probe has recorded.
abbrev IsTimely : ℤ → ℤ → ProbeTimes → Type 0
IsTimely start now pt =
    (IsStart start now pt.dns_start
      × IsStart start now pt.conn_start
      × IsStart start now pt.tls_start
      × IsStart start now pt.wrote)
    × (IsSpan start now pt.sample.dns
        × IsSpan start now pt.sample.connect
        × IsSpan start now pt.sample.tls
        × IsSpan start now pt.sample.ttfb)

module _ (start : ℤ) (positive : pos 0 ≤ℤ start) where
  IsStart-later :
      (now later : ℤ) (o : Option ℤ) → now ≤ℤ later → IsStart start now o → IsStart start later o
  IsStart-later now later none h s = tt
  IsStart-later now later (some t) h s = (s.0, omega arith)

  IsSpan-later : (now later d : ℤ) → now ≤ℤ later → IsSpan start now d → IsSpan start later d
  IsSpan-later now later d h s = (s.0, omega arith)

  since-IsSpan :
      (now old : ℤ) (o : Option ℤ)
      → now ≤ℤ pos (2 ^ 62)
      → IsStart start now o
      → IsSpan start now old
      → IsSpan start now (since now o old)
  unfolding since
  since-IsSpan now old none short s h = h
  since-IsSpan now old (some t) short s h =
      rw (sub64_small now t (omega arith) (omega arith) short (omega arith)) (omega int_laws)

  first_start-IsStart :
      (now : ℤ) (o : Option ℤ)
      → start ≤ℤ now
      → IsStart start now o
      → IsStart start now (first_start now o)
  unfolding first_start
  first_start-IsStart now none h s = (h, omega arith)
  first_start-IsStart now (some t) h s = s

  -- Time passes.
  IsTimely-later :
      (now later : ℤ) (pt : ProbeTimes)
      → now ≤ℤ later
      → IsTimely start now pt
      → IsTimely start later pt
  IsTimely-later now later pt h ((dns, conn, tls, wrote), (d, c, t, b)) = (
    (
      IsStart-later now later pt.dns_start h dns,
      IsStart-later now later pt.conn_start h conn,
      IsStart-later now later pt.tls_start h tls,
      IsStart-later now later pt.wrote h wrote,
    ),
    (
      IsSpan-later now later pt.sample.dns h d,
      IsSpan-later now later pt.sample.connect h c,
      IsSpan-later now later pt.sample.tls h t,
      IsSpan-later now later pt.sample.ttfb h b,
    ),
  )

  run_hook-IsTimely :
      (hook : Hook) (now : ℤ) (pt : ProbeTimes)
      → start ≤ℤ now
      → now ≤ℤ pos (2 ^ 62)
      → IsTimely start now pt
      → IsTimely start now (run_hook hook now pt)
  unfolding run_hook
  run_hook-IsTimely dns_start now pt h short ((dns, conn, tls, wrote), spans) =
      (((h, omega arith), conn, tls, wrote), spans)
  run_hook-IsTimely dns_done now pt h short ((dns, conn, tls, wrote), (d, c, t, b)) =
      ((dns, conn, tls, wrote), (since-IsSpan now pt.sample.dns pt.dns_start short dns d, c, t, b))
  run_hook-IsTimely connect_start now pt h short ((dns, conn, tls, wrote), spans) =
      ((dns, first_start-IsStart now pt.conn_start h conn, tls, wrote), spans)
  run_hook-IsTimely (connect_done failed) now pt h short ((dns, conn, tls, wrote), (d, c, t, b)) =
      elim (Bool-cases (not failed && eqb_ℤ pt.sample.connect (pos 0))) [
        | inl sets ↦ rw sets (
          (dns, conn, tls, wrote),
          (d, since-IsSpan now pt.sample.connect pt.conn_start short conn c, t, b),
        )
        | inr keeps ↦ rw keeps ((dns, conn, tls, wrote), (d, c, t, b))
      ]
  run_hook-IsTimely tls_handshake_start now pt h short ((dns, conn, tls, wrote), spans) =
      ((dns, conn, (h, omega arith), wrote), spans)
  run_hook-IsTimely (tls_handshake_done true version) now pt h short i = i
  run_hook-IsTimely (tls_handshake_done false version) now pt h short
        ((dns, conn, tls, wrote), (d, c, t, b)) =
      ((dns, conn, tls, wrote), (d, c, since-IsSpan now pt.sample.tls pt.tls_start short tls t, b))
  run_hook-IsTimely (got_conn reused) now pt h short i = i
  run_hook-IsTimely wrote_request now pt h short ((dns, conn, tls, wrote), spans) =
      ((dns, conn, tls, (h, omega arith)), spans)
  run_hook-IsTimely got_first_response_byte now pt h short ((dns, conn, tls, wrote), (d, c, t, b)) =
      ((dns, conn, tls, wrote), (d, c, t, since-IsSpan now pt.sample.ttfb pt.wrote short wrote b))

  run_hooks-IsTimely :
      (fs : List Fired) (now end : ℤ) (pt : ProbeTimes)
      → start ≤ℤ now
      → end ≤ℤ pos (2 ^ 62)
      → IsForward now fs end
      → IsTimely start now pt
      → IsTimely start end (run_hooks fs pt)
  unfolding run_hooks
  run_hooks-IsTimely [] now end pt h short forward i = IsTimely-later now end pt forward i
  run_hooks-IsTimely (f ∷ fs) now end pt h short (le, forward) i =
      let in_time : f.at ≤ℤ pos (2 ^ 62) = omega (arith, start_le fs f.at end forward) in
      run_hooks-IsTimely fs f.at end (run_hook f.hook f.at pt) (omega arith) short forward
        (run_hook-IsTimely f.hook f.at pt (omega arith) in_time (IsTimely-later now f.at pt le i))

  no_times-IsTimely : IsTimely start start no_times
  no_times-IsTimely =
      ((tt, tt, tt, tt), (omega int_laws, omega int_laws, omega int_laws, omega int_laws))

-- A stage takes no time below nothing, nor above the whole.
abbrev IsPart : ℤ → ℤ → Type 0
IsPart total d = (pos 0 ≤ℤ d) × (d ≤ℤ total)

written_at-IsStart :
    (start end : ℤ) (o : Option ℤ)
    → start ≤ℤ end
    → IsStart start end o
    → (start ≤ℤ written_at start o) × (written_at start o ≤ℤ end)
written_at-IsStart start end none h s = (omega arith, h)
written_at-IsStart start end (some t) h s = s

span-IsPart : (start end d : ℤ) → IsSpan start end d → IsPart (end -ℤ start) d
span-IsPart start end d s = (s.0, omega int_laws)

-- The sample of a connection of its own, or of one that was there.
abbrev pub IsMeasured : ℤ → ℤ → Bool → Sample → Type 0
IsMeasured start end reused s =
    (s.total ≡ end -ℤ start)
    × IsPart s.total s.dns
    × IsPart s.total s.connect
    × IsPart s.total s.tls
    × IsPart s.total s.ttfb
    × IsPart s.total s.http
    × (((reused ≡ false) × (s.staged ≡ true))
        ⊎ ((reused ≡ true)
            × (s.staged ≡ false)
            × (s.dns ≡ pos 0)
            × (s.connect ≡ pos 0)
            × (s.tls ≡ pos 0)
            × (s.tls_rtts ≡ pos 0)))

foreign_sample-IsMeasured :
    (pt : ProbeTimes) (start end : ℤ)
    → pos 0 ≤ℤ start
    → start ≤ℤ end
    → end ≤ℤ pos (2 ^ 62)
    → IsTimely start end pt
    → IsMeasured start end pt.reused (foreign_sample pt start end)
unfolding foreign_sample
foreign_sample-IsMeasured pt start end lo h hi ((_, _, _, wrote), (d, c, t, b)) =
    let w = written_at start pt.wrote in
    let (after, before) = written_at-IsStart start end pt.wrote h wrote in
    let whole : sub64 end start ≡ end -ℤ start =
      sub64_small end start (omega arith) lo hi (omega arith) in
    let rest : sub64 end w ≡ end -ℤ w =
      sub64_small end w (omega arith) (omega arith) hi (omega arith) in
    let http : IsPart (end -ℤ start) (end -ℤ w) = omega int_laws in
    let nothing : IsPart (end -ℤ start) (pos 0) = omega int_laws in
    let ttfb = span-IsPart start end pt.sample.ttfb b in
    elim (Bool-cases pt.reused) [
      | inl reused ↦
          rw (reused, whole, rest)
            (refl, nothing, nothing, nothing, ttfb, http, inr (refl, refl, refl, refl, refl, refl))
      | inr fresh ↦
          rw (fresh, whole, rest)
            (
              refl,
              span-IsPart start end pt.sample.dns d,
              span-IsPart start end pt.sample.connect c,
              span-IsPart start end pt.sample.tls t,
              ttfb,
              http,
              inl (refl, refl),
            )
    ]

do_probe-responded :
    (exchange : RoundTrip)
    → do_probe exchange ≡ none
    → (r : Response) × (exchange ≡ responded r) × (check_response r ≡ none)
unfolding do_probe
do_probe-responded (refused err) h = absurd (ground arith)
do_probe-responded (responded r) h = (r, refl, h)

-- A foreign probe that gives a sample has had a response of status 200 with one to ten bytes, and whatever hooks
-- ran in it, in any order, each stage and the time from the request on lie between 0 and its total, which is
-- the time between its ends; on a connection that was reused the sample is not staged, and has no connection
-- stages; given a clock that does not go back, below 2^62.
pub foreign_probe-IsMeasured :
    (exchange : RoundTrip) (fired : List Fired) (start end : ℤ) (s : Sample)
    → pos 0 ≤ℤ start
    → IsForward start fired end
    → end ≤ℤ pos (2 ^ 62)
    → foreign_probe exchange fired start end ≡ inr s
    → ((r : Response) × (exchange ≡ responded r)
        × (r.status ≡ 200)
        × (1 ≤ r.body_length)
        × (r.body_length ≤ 10))
      × IsMeasured start end (run_hooks fired no_times).reused s
unfolding foreign_probe
foreign_probe-IsMeasured exchange fired start end s lo forward hi measured =
    elim (Option-cases (do_probe exchange)) [
      | inr (err, bad) ↦ absurd (ground arith)
      | inl good ↦
          let same : foreign_sample (run_hooks fired no_times) start end ≡ s = ground arith in
          let (r, got, passed) = do_probe-responded exchange good in
          let (ok, declared, some_bytes, few, read) = (check_response_iff r).0 passed in
          let ordered : start ≤ℤ end = start_le fired start end forward in
          (
            (r, got, ok, some_bytes, few),
            subst (IsMeasured start end (run_hooks fired no_times).reused) same (
                foreign_sample-IsMeasured (run_hooks fired no_times) start end lo ordered hi (
                  run_hooks-IsTimely start lo fired start end no_times (omega arith) hi forward
                    (no_times-IsTimely start lo))),
          )
    ]
