-- ===== src/Client/LoadPhase/Outcome.antt =====
-- What `loadPhase` of run.go returns, whatever it meets.
use Prim.Native.Nat.{min}
use netquality.Prelude.{
  ℕ, ◌+◌, ◌-◌, ◌^◌, ◌≤◌, ◌<◌, ◌≡◌, refl, sym, ap, ◌∙◌, subst, ◌⊎◌, Bool, true, false, [], ◌++◌,
  none, some, ℤ, pos, ◌≤ℤ◌, ◌<ℤ◌, length, mul64, arith, pos_part,
}
use netquality.Float.{Float}
use netquality.Engine.Params.{with_defaults}
use netquality.Engine.State.{new, initial_flows, distance}
use netquality.Engine.Phase.{Reach-IsBounded, Reach-IsConsistent}
use netquality.Client.Buffers.{take, summary-counts}
use netquality.Client.Options.{Options, StabilityParams, Directions, to_engine, phase_params}
use netquality.Client.Report.{DirectionResult, report}
use netquality.Client.Report.Window.{loaded_window-trailing}
use netquality.Client.Run.Phases.{LoadEnv}
use netquality.Client.Run.Steps.{load_result}
use netquality.Client.LoadPhase.{prepare, begin, handle_all}
use netquality.Client.LoadPhase.Steps.{IsLoading, begin-IsLoading, handle_all-IsLoading}
use netquality.Client.LoadPhase.Teardown.{
  Course, leave, torn_down, phase_end, phase_summary, load_env,
}
use netquality.Client.LoadPhase.Counts.{
  measured, held, add_flows-held, add_flows-engine, handle_all-held, handle_all-intervals,
}

-- The window of a direction's result is absent if no interval completed, and else the last intervals of those that
-- the result counts, at least as many as `span` or all.
abbrev IsTrailing : {F : Type 0} → ℕ → ℤ → DirectionResult F → Type 0
IsTrailing span spacing r =
    ((r.intervals ≡ 0) × (r.loaded_window ≡ none))
    ⊎ ((n : ℕ) × (1 ≤ n)
        × (n ≤ r.intervals)
        × (min span r.intervals ≤ n)
        × (r.loaded_window
            ≡ some (record {
              start = mul64 (pos (r.intervals - n)) spacing;
              duration = mul64 (pos n) spacing;
              intervals = pos n;
            })))

module _ {F : Type 0} ⦃d : Float F⦄ (sp : StabilityParams F) (max_flows max_bytes : ℤ)
    (c : Course) where
  begin-held : (kind : Bool) → held kind (begin (to_engine sp) max_flows max_bytes c.start) ≡ []
  unfolding begin prepare new
  begin-held true =
      add_flows-held true (pos_part (initial_flows (with_defaults (to_engine sp)) max_flows)) _
  begin-held false =
      add_flows-held false (pos_part (initial_flows (with_defaults (to_engine sp)) max_flows)) _

  begin-intervals : (begin (to_engine sp) max_flows max_bytes c.start).engine.intervals ≡ 0
  unfolding begin prepare new
  begin-intervals =
      ap (λ e. e.intervals)
        (add_flows-engine (pos_part (initial_flows (with_defaults (to_engine sp)) max_flows))
          (prepare (to_engine sp) max_flows max_bytes c.start)).0

  torn_down-held :
      (kind : Bool)
      → held kind (torn_down sp max_flows max_bytes c)
        ≡ measured kind c.events ++ measured kind c.late
  unfolding torn_down leave
  torn_down-held kind =
      let s = begin (to_engine sp) max_flows max_bytes c.start in
      let looped = handle_all sp.interval c.events s in
      handle_all-held sp.interval kind c.late (leave c.ctx_error c.phase_ctx_error looped)
      ∙ ap (λ xs. xs ++ measured kind c.late)
          (handle_all-held sp.interval kind c.events s
            ∙ ap (λ xs. xs ++ measured kind c.events) (begin-held kind))

  torn_down-intervals :
      (torn_down sp max_flows max_bytes c).engine.intervals ≤ length c.events + length c.late
  unfolding torn_down leave
  torn_down-intervals =
      let s = begin (to_engine sp) max_flows max_bytes c.start in
      let looped = handle_all sp.interval c.events s in
      omega (
        arith,
        begin-intervals,
        handle_all-intervals sp.interval c.events s,
        handle_all-intervals sp.interval c.late (leave c.ctx_error c.phase_ctx_error looped),
      )

  module _ (some_flow : pos 0 <ℤ max_flows) (limit_small : max_flows ≤ℤ pos (2 ^ 62))
      (increment_small : (with_defaults (to_engine sp)).flow_increment <ℤ pos (2 ^ 62)) where
    torn_down-IsLoading : IsLoading (to_engine sp) max_flows (torn_down sp max_flows max_bytes c)
    unfolding torn_down leave
    torn_down-IsLoading =
        let s = begin (to_engine sp) max_flows max_bytes c.start in
        let i =
          handle_all-IsLoading (to_engine sp) max_flows some_flow limit_small increment_small
            sp.interval c.events s
            (begin-IsLoading (to_engine sp) max_flows some_flow limit_small increment_small
              sp.interval max_bytes c.start) in
        handle_all-IsLoading (to_engine sp) max_flows some_flow limit_small increment_small
          sp.interval c.late _
          (record { phase = i.phase; numbered = i.numbered; completed = i.completed })

    torn_down-IsTrailing :
        length c.events + length c.late < 2 ^ 62
        → let s = torn_down sp max_flows max_bytes c in
          IsTrailing (distance s.engine.p) sp.interval (report sp (phase_end c s) (phase_summary s))
    unfolding phase_summary take phase_end report
    torn_down-IsTrailing few =
        let s = torn_down sp max_flows max_bytes c in
        let i = torn_down-IsLoading in
        let trailing =
          loaded_window-trailing sp (phase_end c s) s.engine s.buffers.cur_f s.buffers.cur_s
            (Reach-IsConsistent (to_engine sp) max_flows i.phase)
            (omega (arith, torn_down-intervals)) in
        subst
          (λ n.
            ((n ≡ 0) × ((report sp (phase_end c s) (phase_summary s)).loaded_window ≡ none))
            ⊎ ((m : ℕ) × (1 ≤ m)
                × (m ≤ n)
                × (min (distance s.engine.p) n ≤ m)
                × ((report sp (phase_end c s) (phase_summary s)).loaded_window
                    ≡ some (record {
                      start = mul64 (pos (n - m)) sp.interval;
                      duration = mul64 (pos m) sp.interval;
                      intervals = pos m;
                    }))))
          (sym i.completed) trailing

module _ {F : Type 0} ⦃d : Float F⦄ where
  -- The first probes of the kind are logged, and the rest wait, in the order in which they finished.
  summary-measured :
      (sp : StabilityParams F) (max_flows max_bytes : ℤ) (c : Course)
      → let sum = phase_summary (torn_down sp max_flows max_bytes c) in
        (sum.phase_foreign ≡ length (measured false c.events ++ measured false c.late))
        × (sum.phase_self ≡ length (measured true c.events ++ measured true c.late))
  unfolding phase_summary take
  summary-measured sp max_flows max_bytes c =
      let s = torn_down sp max_flows max_bytes c in
      let counts = summary-counts s.engine s.buffers.cur_f s.buffers.cur_s in
      (
        counts.0 ∙ ap length (torn_down-held sp max_flows max_bytes c false),
        counts.1 ∙ ap length (torn_down-held sp max_flows max_bytes c true),
      )

  -- A direction's result, for what the run saw of its phase.
  abbrev pub IsReport : Options F → Directions → Course → LoadEnv F → DirectionResult F → Type 0
  IsReport opts dir c env r =
      let sp = phase_params dir opts.stability in
      (pos 1 ≤ℤ r.flows)
      × (r.flows ≤ℤ opts.max_flows)
      × IsTrailing (distance (with_defaults (to_engine sp))) sp.interval r
      × (env.summary.phase_foreign ≡ length (measured false c.events ++ measured false c.late))
      × (env.summary.phase_self ≡ length (measured true c.events ++ measured true c.late))

  -- A load phase that begins returns a result, whatever the flows, the probes, the ticker and the contexts do until
  -- its goroutines have ended, and in whatever order: its flows are at least one and at most the limit, its window is
  -- absent or the last of the intervals that it counts, at least as many as the moving average takes or all, and each
  -- probe that has finished is counted in the phase's summary once; for fewer than 2^62 events, and limits and
  -- increments up to 2^62.
  pub load_result-IsReport :
      (opts : Options F) (dir : Directions) (c : Course) (o : LoadEnv F)
      → o.ctx_begin ≡ none
      → pos 0 <ℤ opts.max_flows
      → opts.max_flows ≤ℤ pos (2 ^ 62)
      → (with_defaults (to_engine (phase_params dir opts.stability))).flow_increment <ℤ pos (2 ^ 62)
      → length c.events + length c.late < 2 ^ 62
      → let env = load_env opts dir c o in
        (r : DirectionResult F) × (load_result opts dir env ≡ some r) × IsReport opts dir c env r
  unfolding load_result load_env phase_end report
  load_result-IsReport opts dir c o begun some_flow limit_small increment_small few =
      let sp = phase_params dir opts.stability in
      let s = torn_down sp opts.max_flows opts.max_bytes c in
      let i =
        torn_down-IsLoading sp opts.max_flows opts.max_bytes c some_flow limit_small
          increment_small in
      let (foreign, self) = summary-measured sp opts.max_flows opts.max_bytes c in
      let bounded =
        Reach-IsBounded (to_engine sp) opts.max_flows some_flow limit_small increment_small
          i.phase in
      (
        report sp (phase_end c s) (phase_summary s),
        rw (load_result, begun) refl,
        (
          omega (arith, bounded.flows_pos),
          bounded.flows_le,
          subst
              (λ p.
                IsTrailing (distance p) sp.interval (report sp (phase_end c s) (phase_summary s)))
              bounded.p_eq
              (torn_down-IsTrailing sp opts.max_flows opts.max_bytes c some_flow limit_small
                increment_small few),
          foreign,
          self,
        ),
      )
