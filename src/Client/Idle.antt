-- ===== src/Client/Idle.antt =====
-- The idle latency of a run: `idle` of run.go.
--
-- The loop's environment is an argument: what the context says before each probe, and how the probe
-- ends. An error is its probe's, with the tests that the loop makes of it.
use Prim.Native.String.{String}
use netquality.Prelude.{
  ℕ, zero, suc, ◌+◌, ◌≤◌, ◌<◌, ◌≡◌, ◌↔◌, ◌⊎◌, inl, inr, Bool, false, ◌&&◌, List, [], ◌∷◌, ◌++◌,
  Option, none, some, ltb, arith, length, length-append, Bool-cases, if◌then◌else◌,
}
use netquality.Float.{Float}
use netquality.Engine.Samples.{Sample, LatencyStats, compute_latency_stats}

pub record Failure : Type 0 where
  pub message : String
  -- errors.Is(err, errInvalidProbeSize)
  pub invalid_size : Bool
  -- The context has ended, and the error is the context's own.
  pub interrupted : Bool

pub data ProbeEnd : Type 0 where
  measured : Sample → ProbeEnd
  failed : Failure → ProbeEnd

pub record Attempt : Type 0 where
  -- ctx.Err() != nil before the probe.
  pub expired : Bool
  pub outcome : ProbeEnd

pub record Progress : Type 0 where
  pub samples : List Sample
  pub last_err : Option Failure
  pub first_invalid : Option Failure

abbrev no_progress : Progress
no_progress = record { samples = []; last_err = none; first_invalid = none }

abbrev or_first : Option Failure → Failure → Option Failure
or_first none e = if e.invalid_size then some e else none
or_first (some first) e = some first

unfoldable pub record_failure : Failure → Progress → Progress
record_failure e s = record s { last_err = some e; first_invalid = or_first s.first_invalid e }

-- The loop, over the probes that are left, the next of which is number `i`.
unfoldable pub probe_loop : ℕ → ℕ → (ℕ → Attempt) → Progress → Progress
probe_loop zero i env s = s
probe_loop (suc n) i env s = if (env i).expired then s else elim (env i).outcome [
  | measured x ↦ probe_loop n (suc i) env (record s { samples = s.samples ++ x ∷ [] })
  | failed e ↦ if e.interrupted then s else probe_loop n (suc i) env (record_failure e s)
]

pub data IdleError : Type 0 where
  -- The probes completed, the last failure, and the first invalid size where that says more.
  timed_out : ℕ → Option Failure → Option Failure → IdleError
  invalid : Failure → Option Failure → IdleError
  probe_failed : Failure → IdleError
  no_samples : IdleError

-- The failure, where it is not an invalid size.
abbrev other_failure : Option Failure → Option Failure
other_failure none = none
other_failure (some e) = if e.invalid_size then none else some e

-- The first invalid size, where the last failure is not one.
abbrev more_to_say : Option Failure → Option Failure → Option Failure
more_to_say none first = first
more_to_say (some e) first = if e.invalid_size then none else first

-- The idle error, from what the loop left; `expired` is ctx.Err() != nil after it.
unfoldable pub idle_error : ℕ → Bool → Progress → Option IdleError
idle_error probes expired s =
    if expired && ltb (length s.samples) probes
    then some (timed_out (length s.samples) s.last_err (more_to_say s.last_err s.first_invalid))
    else elim s.first_invalid [
      | some e ↦ some (invalid e (other_failure s.last_err))
      | none ↦ elim s.samples [
        | x ∷ xs ↦ none
        | [] ↦ elim s.last_err [ some e ↦ some (probe_failed e) | none ↦ some no_samples ]
      ]
    ]

unfoldable pub idle_stats : (F : Type 0) ⦃d : Float F⦄ → Progress → Option LatencyStats
idle_stats F s = elim s.samples [ [] ↦ none | x ∷ xs ↦ some (compute_latency_stats F s.samples) ]

unfoldable pub idle :
    (F : Type 0) ⦃d : Float F⦄ → ℕ → (ℕ → Attempt) → Bool → Option LatencyStats × Option IdleError
idle F probes env expired =
    let s = probe_loop probes 0 env no_progress in (idle_stats F s, idle_error probes expired s)

probe_loop-length :
    (n i : ℕ) (env : ℕ → Attempt) (s : Progress)
    → length (probe_loop n i env s).samples ≤ length s.samples + n
unfolding probe_loop record_failure
probe_loop-length zero i env s = omega arith
probe_loop-length (suc n) i env s = elim (Bool-cases (env i).expired) [
  | inl over ↦ rw (over, probe_loop) (omega arith)
  | inr on ↦
      rw (on, probe_loop)
        (elim (env i).outcome
          as (λ o.
            length
              (elim o as (λ _. Progress) [
                | measured x ↦ probe_loop n (suc i) env (record s { samples = s.samples ++ x ∷ [] })
                | failed e ↦
                    if e.interrupted then s else probe_loop n (suc i) env (record_failure e s)
              ]).samples
            ≤ length s.samples + suc n) [
              | measured x ↦ omega (
                arith,
                probe_loop-length n (suc i) env (record s { samples = s.samples ++ x ∷ [] }),
                length-append s.samples (x ∷ []),
              )
              | failed e ↦ ground (arith, probe_loop-length n (suc i) env (record_failure e s))
            ])
]

idle_error-none :
    (probes : ℕ) (expired : Bool) (s : Progress)
    → length s.samples ≤ probes
    → (idle_error probes expired s ≡ none) ↔ (
        (0 < length s.samples)
        × (s.first_invalid ≡ none)
        × ((expired ≡ false) ⊎ (length s.samples ≡ probes)))
unfolding idle_error
idle_error-none probes expired s h = ground arith

-- The idle phase keeps at most as many samples as it was to take, and ends without an error exactly
-- when it has a sample, no probe's response was of an invalid size, and its time had not run out
-- before all of them were taken.
idle_clean :
    (F : Type 0) ⦃d : Float F⦄ (probes : ℕ) (env : ℕ → Attempt) (expired : Bool)
    → let s = probe_loop probes 0 env no_progress in
      (length s.samples ≤ probes)
      × (((idle F probes env expired).1 ≡ none) ↔ (
          (0 < length s.samples)
          × (s.first_invalid ≡ none)
          × ((expired ≡ false) ⊎ (length s.samples ≡ probes))))
unfolding idle
idle_clean F probes env expired =
    let s = probe_loop probes 0 env no_progress in
    let h : length s.samples ≤ probes = omega (arith, probe_loop-length probes 0 env no_progress) in
    (h, idle_error-none probes expired s h)
