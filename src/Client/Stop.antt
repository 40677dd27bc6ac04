-- ===== src/Client/Stop.antt =====
-- Why a load phase ended: `stop`, `flowFailed` and the tail of loadPhase in run.go, and ctxReason
-- of result.go.
--
-- Flows, probes and the phase loop call these in any order. `stop` is one section under its Once,
-- and flowFailed is two sections, the record of the error and then its stop, so that another
-- goroutine may come in between; a history is the list of sections in the order they ran.
use Prim.Native.String.{String}
use netquality.Prelude.{
  ℕ, suc, ◌+◌, ◌≡◌, refl, ◌↔◌, Bool, true, false, List, [], ◌∷◌, Option, none, some, arith,
  if◌then◌else◌,
}

pub data TruncationReason : Type 0 where
  no_reason bytes_cap duration_cap cancelled flow_error : TruncationReason

-- The part of phaseState that `stop` and `flowFailed` write; `stopped` is the state of stopOnce,
-- whose one run also cancels the phase's context.
pub record StopState : Type 0 where
  pub stopped : Bool
  pub reason : TruncationReason
  pub flow_err : Option String
  pub flow_errs : ℕ

abbrev pub running : StopState
running = record { stopped = false; reason = no_reason; flow_err = none; flow_errs = 0 }

unfoldable pub stop : TruncationReason → StopState → StopState
stop r s = if s.stopped then s else record s { stopped = true; reason = r }

-- The locked section of flowFailed.
unfoldable pub record_failure : String → StopState → StopState
record_failure err s = record s {
  flow_errs = s.flow_errs + 1;
  flow_err = elim s.flow_err [ none ↦ some err | some first ↦ some first ];
}

pub data Section : Type 0 where
  stops : TruncationReason → Section
  fails : String → Section

unfoldable pub run : List Section → StopState → StopState
run [] s = s
run (stops r ∷ es) s = run es (stop r s)
run (fails err ∷ es) s = run es (record_failure err s)

-- The sections of flowFailed.
abbrev pub flow_failed : String → List Section
flow_failed err = fails err ∷ stops flow_error ∷ []

-- What ended a context: its deadline or a cancellation.
pub data CtxError : Type 0 where
  deadline_exceeded canceled : CtxError

unfoldable pub ctx_reason : CtxError → TruncationReason
ctx_reason deadline_exceeded = duration_cap
ctx_reason canceled = cancelled

-- After the phase loop: the caller's context, then the phase's.
unfoldable pub conclude : Option CtxError → Option CtxError → StopState → StopState
conclude (some e) pctx s = stop cancelled s
conclude none (some e) s = stop (ctx_reason e) s
conclude none none s = s

-- The outcomes, read off a history.
abbrev first_stop : List Section → Option TruncationReason
first_stop [] = none
first_stop (stops r ∷ es) = some r
first_stop (fails err ∷ es) = first_stop es

abbrev first_failure : List Section → Option String
first_failure [] = none
first_failure (stops r ∷ es) = first_failure es
first_failure (fails err ∷ es) = some err

abbrev count_failures : List Section → ℕ
count_failures [] = 0
count_failures (stops r ∷ es) = count_failures es
count_failures (fails err ∷ es) = suc (count_failures es)

abbrev pub or_else : {A : Type 0} → Option A → A → A
or_else none d = d
or_else (some x) d = x

abbrev is_some : {A : Type 0} → Option A → Bool
is_some none = false
is_some (some x) = true

run-stopped :
    (es : List Section) (s : StopState)
    → s.stopped ≡ true
    → ((run es s).stopped ≡ true) × ((run es s).reason ≡ s.reason)
unfolding run stop record_failure
run-stopped [] s e = (e, refl)
run-stopped (stops r ∷ es) s e = ground (arith, run-stopped es s e)
run-stopped (fails err ∷ es) s e = run-stopped es (record_failure err s) e

run-open :
    (es : List Section) (s : StopState)
    → s.stopped ≡ false
    → ((run es s).stopped ≡ is_some (first_stop es))
      × ((run es s).reason ≡ or_else (first_stop es) s.reason)
unfolding run stop record_failure
run-open [] s e = (e, refl)
run-open (stops r ∷ es) s e =
    ground (arith, run-stopped es (record s { stopped = true; reason = r }) refl)
run-open (fails err ∷ es) s e = run-open es (record_failure err s) e

run-failed :
    (es : List Section) (s : StopState) (x : String)
    → s.flow_err ≡ some x
    → ((run es s).flow_err ≡ some x) × ((run es s).flow_errs ≡ s.flow_errs + count_failures es)
unfolding run stop record_failure
run-failed [] s x e = (e, omega arith)
run-failed (stops r ∷ es) s x e = ground (arith, run-failed es (stop r s) x)
run-failed (fails err ∷ es) s x e = ground (arith, run-failed es (record_failure err s) x)

run-unfailed :
    (es : List Section) (s : StopState)
    → s.flow_err ≡ none
    → ((run es s).flow_err ≡ first_failure es)
      × ((run es s).flow_errs ≡ s.flow_errs + count_failures es)
unfolding run stop record_failure
run-unfailed [] s e = (e, omega arith)
run-unfailed (stops r ∷ es) s e = ground (arith, run-unfailed es (stop r s))
run-unfailed (fails err ∷ es) s e = ground (arith, run-failed es (record_failure err s) err)

-- However the sections of a phase interleave, its reason is the first one given, its error is the
-- first flow's that failed, and every failure is counted.
run-first :
    (es : List Section)
    → ((run es running).reason ≡ or_else (first_stop es) no_reason)
      × ((run es running).flow_err ≡ first_failure es)
      × ((run es running).flow_errs ≡ count_failures es)
run-first es =
    let (_, reason) = run-open es running refl in
    let (err, errs) = run-unfailed es running refl in (reason, err, omega (arith, errs))

-- A phase whose context ended is reported without a reason, so not truncated, exactly when the
-- first to stop it gave none: the engine's own stop.
conclude-reason :
    (es : List Section) (ctx : Option CtxError) (e : CtxError)
    → ((conclude ctx (some e) (run es running)).reason ≡ no_reason)
      ↔ (first_stop es ≡ some no_reason)
unfolding conclude stop ctx_reason
conclude-reason es none deadline_exceeded = ground (arith, run-open es running refl)
conclude-reason es none canceled = ground (arith, run-open es running refl)
conclude-reason es (some c) e = ground (arith, run-open es running refl)
