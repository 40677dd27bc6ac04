-- ===== src/Client/LoadPhase/Teardown.antt =====
-- A load phase from its first flow to what it returns: the teardown of `loadPhase` of run.go over its loop.
use netquality.Prelude.{List, Option, true, ℤ, pos, sub64, length}
use netquality.Float.{Float}
use netquality.Engine.Summary.{Summary, summary}
use netquality.Client.Buffers.{take}
use netquality.Client.Flows.{proto}
use netquality.Client.Stop.{CtxError, conclude}
use netquality.Client.Options.{Options, StabilityParams, Directions, to_engine, phase_params}
use netquality.Client.Report.{PhaseEnd}
use netquality.Client.Run.Phases.{LoadEnv}
use netquality.Client.LoadPhase.{LoadPhase, Event, begin, handle_all}

-- What a phase meets: the clock at both ends, the events of its loop, the two contexts' errors after it, and
-- the events until all goroutines have ended.
pub record Course : Type 0 where
  pub start : ℤ
  pub events : List Event
  pub ctx_error : Option CtxError
  pub phase_ctx_error : Option CtxError
  pub late : List Event
  pub end : ℤ

module _ {F : Type 0} ⦃d : Float F⦄ where
  -- After the loop, up to `cancel`.
  unfoldable pub leave : Option CtxError → Option CtxError → LoadPhase F → LoadPhase F
  leave ctx phase_ctx s = record s { stop = conclude ctx phase_ctx s.stop; left = true }

  -- The phase once both waits have returned.
  unfoldable pub torn_down : StabilityParams F → ℤ → ℤ → Course → LoadPhase F
  torn_down sp max_flows max_bytes c = handle_all sp.interval c.late (
      leave c.ctx_error c.phase_ctx_error
        (handle_all sp.interval c.events (begin (to_engine sp) max_flows max_bytes c.start)))

  -- What the report reads of it.
  unfoldable pub phase_end : Course → LoadPhase F → PhaseEnd
  phase_end c s = record {
    duration = sub64 c.end c.start;
    bytes = s.bytes.total;
    payload_bytes = s.bytes.payload;
    flows = pos (length s.flows);
    intervals = s.intervals;
    proto = proto s.flows;
    stop = s.stop;
  }

  unfoldable pub phase_summary : LoadPhase F → Summary F
  phase_summary s = let ((foreign, self), rest) = take s.buffers in summary s.engine foreign self

  -- The phase of a direction, as a run meets it: `o` says what else the run sees of it.
  unfoldable pub load_env : Options F → Directions → Course → LoadEnv F → LoadEnv F
  load_env opts dir c o =
      let s = torn_down (phase_params dir opts.stability) opts.max_flows opts.max_bytes c in
      record o { finish = phase_end c s; summary = phase_summary s }
