-- ===== src/Client/Run/Kept.antt =====
-- What a run hands back: the results of `run` in run.go, on every way out of it.
use Prim.Native.String.{String}
use netquality.Prelude.{
  ◌≡◌, refl, sym, ap, subst, ◌⊎◌, inl, inr, Bool, true, false, not, List, [], ◌∷◌, Option, none,
  some, pos, ltb_ℤ, arith, Bool-cases, Option-cases, Sum-cases, pos_part, if◌then◌else◌, sub64, All,
}
use netquality.Float.{Float}
use netquality.Client.Options.{Directions, both, download, upload, Options}
use netquality.Client.Stop.{CtxError}
use netquality.Client.Report.{DirectionResult, PhaseError, load_flow_failed, phase_error}
use netquality.Client.Target.Config.{ServerConfig}
use netquality.Client.Target.Keys.{ConfigError}
use netquality.Client.Proxy.{new_transport_factory}
use netquality.Client.Run.Discover.{DiscoverError, discover}
use netquality.Client.Run.Phases.{
  Stage, discovering, idling, loading, done, Result, Runner, RunError, not_discovered, context,
  phase_failed, RunEnd, LoadEnv, RunEnv, announce, warn_when, new_runner, coarse_clock, return_with,
  return_cancelled, directions_of, finish,
}
use netquality.Client.Run.Steps.{
  run_idle, run_direction, run_directions, warn_idle, run_measured, run, describe_path, resolve,
  load_error, load_result,
}
use netquality.Client.Run.Core.{
  Core, core, core-run_direction, core-describe_path, core-run_idle, core-warn_idle, core-warn_when,
}
use netquality.Client.Run.Loads.{is_load, loads, loads_new, loads_other}

-- Not cancelled, with no error or a flow's, or cancelled, with the context's error.
abbrev IsEnding : Option RunError → Bool → Type 0
IsEnding err cancelled =
    ((cancelled ≡ false)
      × ((err ≡ none)
          ⊎ ((flow : Option String) × (err ≡ some (phase_failed (load_flow_failed flow))))))
    ⊎ ((cancelled ≡ true) × ((e : CtxError) × (err ≡ some (context e))))

directions-single :
    (dirs : Directions) → All (λ dir. (dir ≡ download) ⊎ (dir ≡ upload)) (directions_of dirs)
unfolding directions_of
directions-single both = (inl refl, (inr refl, tt))
directions-single download = (inl refl, tt)
directions-single upload = (inr refl, tt)

module _ (parse : String → ConfigError ⊎ ServerConfig) (to_lower : String → String)
    (contains : String → String → Bool) (split_host_port : String → Option (String × String))
    (join_host_port : String → String → String) {F : Type 0} ⦃d : Float F⦄ where
  -- A direction has the result that its load phase gave, where it was announced, and none where it was not.
  abbrev IsKept :
      Options F
      → RunEnv F
      → List Stage
      → Option (DirectionResult F)
      → Option (DirectionResult F)
      → Type 0
  IsKept opts env ss down up =
      (down ≡ (if loads download ss then load_result opts download (env.load download) else none))
      × (up ≡ (if loads upload ss then load_result opts upload (env.load upload) else none))

  abbrev pub IsPartial : Options F → RunEnv F → RunEnd F → Type 0
  IsPartial opts env e =
      (res : Result F) × (e.result ≡ some res)
      × (res.duration ≡ sub64 env.ended_at env.started_at)
      × IsKept opts env e.stages res.download res.upload
      × IsEnding e.error res.cancelled

  abbrev IsGoing : Options F → RunEnv F → Core F → Type 0
  IsGoing opts env (ss, down, up, c) = IsKept opts env ss down up × (c ≡ false)

  return_with-IsPartial :
      (opts : Options F) (env : RunEnv F) (err : Option RunError) (r : Runner F)
      → IsGoing opts env (core r)
      → (err ≡ none)
        ⊎ ((flow : Option String) × (err ≡ some (phase_failed (load_flow_failed flow))))
      → IsPartial opts env (return_with env err r)
  unfolding return_with finish
  return_with-IsPartial opts env err r (kept, going) ok =
      (finish env r.res, refl, refl, kept, inl (going, ok))

  return_cancelled-IsPartial :
      (opts : Options F) (env : RunEnv F) (e : CtxError) (r : Runner F)
      → IsGoing opts env (core r)
      → IsPartial opts env (return_cancelled env e r)
  unfolding return_cancelled return_with finish
  return_cancelled-IsPartial opts env e r (kept, going) =
      (finish env (record r.res { cancelled = true }), refl, refl, kept, inr (refl, (e, refl)))

  -- A phase that is no load phase.
  announce-IsGoing :
      (opts : Options F) (env : RunEnv F) (s : Stage) (r : Runner F)
      → is_load download s ≡ false
      → is_load upload s ≡ false
      → IsGoing opts env (core r)
      → IsGoing opts env (core (announce s r))
  unfolding announce
  announce-IsGoing opts env s r no_down no_up ((down, up), going) = (
    (
      rw (loads_other download r.stages s no_down) down,
      rw (loads_other upload r.stages s no_up) up,
    ),
    going,
  )

  -- One more direction.
  direction-IsGoing :
      (opts : Options F) (env : RunEnv F) (dir : Directions) (r : Runner F)
      → (dir ≡ download) ⊎ (dir ≡ upload)
      → IsGoing opts env (core r)
      → IsGoing opts env (
          core (
            run_direction parse to_lower contains split_host_port join_host_port opts dir
              (env.load dir)
              r))
  unfolding announce
  direction-IsGoing opts env download r single ((down, up), going) =
      subst (IsGoing opts env)
        (sym (
          core-run_direction parse to_lower contains split_host_port join_host_port opts download
            (env.load download) r))
        (
          (
            rw (loads_new download r.stages (loading download) refl),
            rw (loads_other upload r.stages (loading download) refl) up,
          ),
          going,
        )
  direction-IsGoing opts env upload r single ((down, up), going) =
      subst (IsGoing opts env)
        (sym (
          core-run_direction parse to_lower contains split_host_port join_host_port opts upload
            (env.load upload) r))
        (
          (
            rw (loads_other download r.stages (loading upload) refl) down,
            rw (loads_new upload r.stages (loading upload) refl),
          ),
          going,
        )
  direction-IsGoing opts env both r single going = ground arith

  -- Once ended, a context stays so.
  abbrev IsLasting : RunEnv F → Type 0
  IsLasting env =
      (dir : Directions)
      → (env.load dir).ctx_after ≡ none
      → ((env.load dir).ctx_begin ≡ none) × ((env.load dir).ctx_end ≡ none)

  load_error-flow :
      (o : LoadEnv F) (err : PhaseError)
      → o.ctx_begin ≡ none
      → o.ctx_end ≡ none
      → load_error o ≡ some err
      → (flow : Option String) × (err ≡ load_flow_failed flow)
  unfolding load_error phase_error
  load_error-flow o err begun ended h = (o.finish.stop.flow_err, ground arith)

  run_directions-IsPartial :
      (opts : Options F) (env : RunEnv F) (dirs : List Directions) (r : Runner F)
      → IsLasting env
      → All (λ dir. (dir ≡ download) ⊎ (dir ≡ upload)) dirs
      → IsGoing opts env (core r)
      → IsPartial opts env
          (run_directions parse to_lower contains split_host_port join_host_port opts env dirs r)
  unfolding run_directions
  run_directions-IsPartial opts env [] r lasting singles going =
      return_with-IsPartial opts env none (announce done r)
        (announce-IsGoing opts env done r refl refl going) (inl refl)
  run_directions-IsPartial opts env (dir ∷ dirs) r lasting (single, singles) going =
      let after =
        run_direction parse to_lower contains split_host_port join_host_port opts dir (env.load dir)
          r in
      let on_going = direction-IsGoing opts env dir r single going in
      elim (Option-cases (env.load dir).ctx_before) [
        | inr (e, over) ↦ rw (run_directions, over) (return_cancelled-IsPartial opts env e r going)
        | inl on ↦ elim (Option-cases (env.load dir).ctx_after) [
          | inr (e, over) ↦
              rw (run_directions, on, over) (return_cancelled-IsPartial opts env e after on_going)
          | inl still ↦ elim (Option-cases (load_error (env.load dir))) [
            | inr (e, failed) ↦
                let (begun, ended) = lasting dir still in
                let (flow, why) = load_error-flow (env.load dir) e begun ended failed in
                rw (run_directions, on, still, failed)
                  (return_with-IsPartial opts env (some (phase_failed e)) after on_going
                    (inr (flow, ap (λ x. some (phase_failed x)) why)))
            | inl fine ↦
                rw (run_directions, on, still, fine)
                  (run_directions-IsPartial opts env dirs after lasting singles on_going)
          ]
        ]
      ]

  run_measured-IsPartial :
      (opts : Options F) (env : RunEnv F) (r : Runner F)
      → IsLasting env
      → IsGoing opts env (core r)
      → IsPartial opts env
          (run_measured parse to_lower contains split_host_port join_host_port opts env r)
  unfolding run_measured
  run_measured-IsPartial opts env r lasting going =
      let (after, err) =
        run_idle parse to_lower contains split_host_port join_host_port env
          (pos_part opts.idle_probes) r in
      let idled : IsGoing opts env (core after) =
        subst (IsGoing opts env)
          (sym (
            core-run_idle parse to_lower contains split_host_port join_host_port env
              (pos_part opts.idle_probes) r))
          (announce-IsGoing opts env idling r refl refl going) in
      let warned : IsGoing opts env (core (warn_idle err after)) =
        subst (IsGoing opts env) (sym (core-warn_idle err after)) idled in
      elim (Bool-cases (ltb_ℤ (pos 0) opts.idle_probes)) [
        | inr none_asked ↦
            rw (run_measured, none_asked)
              (run_directions-IsPartial opts env (directions_of opts.directions) r lasting
                (directions-single opts.directions) going)
        | inl asked ↦ elim (Option-cases env.ctx_after_idle) [
          | inr (e, over) ↦
              rw (run_measured, asked, over) (return_cancelled-IsPartial opts env e after idled)
          | inl on ↦
              rw (run_measured, asked, on)
                (run_directions-IsPartial opts env (directions_of opts.directions)
                  (warn_idle err after) lasting (directions-single opts.directions) warned)
        ]
      ]

  -- A run returns no result exactly where the discovery fails, and then its error; else it returns what
  -- it measured, whole or not: each direction that was announced has the result of its load phase and
  -- no other direction has one, the duration is the clock's, and the result is flagged cancelled
  -- exactly where the error is the context's, any other error being a flow's. The context is taken
  -- to stay ended once it has ended in a load phase.
  pub run-IsPartial :
      (opts : Options F) (env : RunEnv F) (config_url : String)
      → ((dir : Directions)
          → (env.load dir).ctx_after ≡ none
          → ((env.load dir).ctx_begin ≡ none) × ((env.load dir).ctx_end ≡ none))
      → let e = run parse to_lower contains split_host_port join_host_port opts env config_url in
        (((err : DiscoverError) × (discover parse config_url env.fetch ≡ inl err)
            × (e.result ≡ none)
            × (e.error ≡ some (not_discovered err)))
          ⊎ (((cfg : ServerConfig) × (discover parse config_url env.fetch ≡ inr cfg))
              × IsPartial opts env e))
  unfolding run new_runner announce resolve
  run-IsPartial opts env config_url lasting =
      let begun =
        announce discovering
          (warn_when (not env.high_resolution) coarse_clock (new_runner env config_url)) in
      elim (Sum-cases (discover parse config_url env.fetch)) [
        | inl (err, failed) ↦ inl (err, failed, rw (run, failed), rw (run, failed))
        | inr (cfg, got) ↦
            let f =
              new_transport_factory split_host_port join_host_port env.default_transport
                env.transport cfg.test_endpoint env.small_url.scheme env.small_url.host in
            let r0 =
              describe_path parse to_lower contains split_host_port join_host_port f cfg
                (resolve cfg env.small_url begun) in
            let clean : IsGoing opts env (core begun) =
              announce-IsGoing opts env discovering
                (warn_when (not env.high_resolution) coarse_clock (new_runner env config_url)) refl
                refl
                (subst (IsGoing opts env)
                  (sym (
                    core-warn_when (not env.high_resolution) coarse_clock
                      (new_runner env config_url)))
                  ((refl, refl), refl)) in
            let going : IsGoing opts env (core r0) =
              subst (IsGoing opts env)
                (sym (
                  core-describe_path parse to_lower contains split_host_port join_host_port f cfg
                    (resolve cfg env.small_url begun)))
                clean in
            inr ((cfg, got), rw (run, got) (run_measured-IsPartial opts env r0 lasting going))
      ]
