-- ===== src/Client/Run/Plan.antt =====
-- The plan that a run follows: the phases that `run` of run.go announces, against those it is asked for,
-- and the results that it keeps.
use Prim.Native.String.{String}
use mathlib.Core.List.{append_assoc, append-nil}
use netquality.Prelude.{
  ℕ, ◌≡◌, refl, sym, ap, ◌∙◌, ◌⊎◌, inl, inr, Bool, true, not, List, [], ◌∷◌, ◌++◌, Option, none,
  some, pos, ltb_ℤ, map, if◌then◌else◌, Bool-cases, Option-cases, Sum-cases, pos_part,
}
use netquality.Float.{Float}
use netquality.Client.Options.{Directions, both, download, upload, Options}
use netquality.Client.Stop.{CtxError}
use netquality.Client.Target.Config.{ServerConfig}
use netquality.Client.Target.Keys.{ConfigError}
use netquality.Client.Proxy.{new_transport_factory}
use netquality.Client.Run.Discover.{discover}
use netquality.Client.Run.Phases.{
  Stage, discovering, idling, loading, done, Runner, RunError, not_discovered, context,
  phase_failed, RunEnd, LoadEnv, RunEnv, announce, warn_when, new_runner, coarse_clock, return_with,
  return_cancelled, directions_of,
}
use netquality.Client.Run.Steps.{
  run_idle, run_direction, run_directions, warn_idle, run_measured, run, describe_path, resolve,
  load_error,
}
use netquality.Client.Run.Core.{
  core-run_direction, core-describe_path, core-run_idle, core-warn_idle, core-warn_when,
}

-- What is asked for, in order.
unfoldable pub plan : {F : Type 0} → Options F → List Stage
plan opts =
    discovering
    ∷ ((if ltb_ℤ (pos 0) opts.idle_probes then idling ∷ [] else [])
        ++ (map loading (directions_of opts.directions) ++ done ∷ []))

-- The rest of the plan is nothing exactly where there is no error.
abbrev IsEnd : {F : Type 0} → RunEnd F → List Stage → Type 0
IsEnd e rest =
    ((e.error ≡ none) × (rest ≡ []))
    ⊎ (((err : RunError) × (e.error ≡ some err))
        × ((s : Stage) × (ss : List Stage) × (rest ≡ s ∷ ss)))

-- What was announced, and then the rest, is this list.
abbrev pub IsUpTo : {F : Type 0} → RunEnd F → List Stage → Type 0
IsUpTo e stages = (rest : List Stage) × (stages ≡ e.stages ++ rest) × IsEnd e rest

tail-full :
    (dirs : List Directions)
    → (s : Stage) × (ss : List Stage) × (map loading dirs ++ done ∷ [] ≡ s ∷ ss)
tail-full [] = (done, [], refl)
tail-full (dir ∷ dirs) = (loading dir, map loading dirs ++ done ∷ [], refl)

all_full :
    (idle : List Stage) (dirs : List Directions)
    → (s : Stage) × (ss : List Stage) × (idle ++ (map loading dirs ++ done ∷ []) ≡ s ∷ ss)
all_full [] dirs = tail-full dirs
all_full (s ∷ idle) dirs = (s, idle ++ (map loading dirs ++ done ∷ []), refl)

-- A return with an error leaves the rest of the plan.
return_with-IsUpTo :
    {F : Type 0} (env : RunEnv F) (err : RunError) (r : Runner F) (dirs : List Directions)
    → IsUpTo (return_with env (some err) r) (r.stages ++ (map loading dirs ++ done ∷ []))
unfolding return_with
return_with-IsUpTo env err r dirs =
    (map loading dirs ++ done ∷ [], refl, inr ((err, refl), tail-full dirs))

return_cancelled-IsUpTo :
    {F : Type 0} (env : RunEnv F) (e : CtxError) (r : Runner F) (dirs : List Directions)
    → IsUpTo (return_cancelled env e r) (r.stages ++ (map loading dirs ++ done ∷ []))
unfolding return_cancelled
return_cancelled-IsUpTo env e r dirs =
    return_with-IsUpTo env (context e) (record r { res = record r.res { cancelled = true } }) dirs

module _ (parse : String → ConfigError ⊎ ServerConfig) (to_lower : String → String)
    (contains : String → String → Bool) (split_host_port : String → Option (String × String))
    (join_host_port : String → String → String) {F : Type 0} ⦃d : Float F⦄ where
  run_direction-stages :
      (opts : Options F) (dir : Directions) (o : LoadEnv F) (r : Runner F)
      → (run_direction parse to_lower contains split_host_port join_host_port opts dir o r).stages
        ≡ r.stages ++ loading dir ∷ []
  unfolding announce
  run_direction-stages opts download o r =
      ap (λ c. c.0)
        (core-run_direction parse to_lower contains split_host_port join_host_port opts download o
          r)
  run_direction-stages opts both o r =
      ap (λ c. c.0)
        (core-run_direction parse to_lower contains split_host_port join_host_port opts both o r)
  run_direction-stages opts upload o r =
      ap (λ c. c.0)
        (core-run_direction parse to_lower contains split_host_port join_host_port opts upload o r)

  run_idle-stages :
      (env : RunEnv F) (probes : ℕ) (r : Runner F)
      → (run_idle parse to_lower contains split_host_port join_host_port env probes r).0.stages
        ≡ r.stages ++ idling ∷ []
  unfolding announce
  run_idle-stages env probes r =
      ap (λ c. c.0)
        (core-run_idle parse to_lower contains split_host_port join_host_port env probes r)

  run_directions-IsUpTo :
      (opts : Options F) (env : RunEnv F) (dirs : List Directions) (r : Runner F)
      → IsUpTo
          (run_directions parse to_lower contains split_host_port join_host_port opts env dirs r)
          (r.stages ++ (map loading dirs ++ done ∷ []))
  unfolding run_directions return_with return_cancelled announce
  run_directions-IsUpTo opts env [] r =
      ([], sym (append-nil (r.stages ++ done ∷ [])), inl (refl, refl))
  run_directions-IsUpTo opts env (dir ∷ dirs) r =
      let after =
        run_direction parse to_lower contains split_host_port join_host_port opts dir (env.load dir)
          r in
      let moved : r.stages ++ (map loading (dir ∷ dirs) ++ done ∷ [])
          ≡ after.stages ++ (map loading dirs ++ done ∷ []) =
        sym (append_assoc r.stages (loading dir ∷ []) (map loading dirs ++ done ∷ []))
        ∙ ap (λ ss. ss ++ (map loading dirs ++ done ∷ []))
            (sym (run_direction-stages opts dir (env.load dir) r)) in
      elim (Option-cases (env.load dir).ctx_before) [
        | inr (e, over) ↦ rw (run_directions, over) (return_cancelled-IsUpTo env e r (dir ∷ dirs))
        | inl on ↦ elim (Option-cases (env.load dir).ctx_after) [
          | inr (e, over) ↦
              rw (run_directions, on, over, moved) (return_cancelled-IsUpTo env e after dirs)
          | inl still ↦ elim (Option-cases (load_error (env.load dir))) [
            | inr (e, failed) ↦
                rw (run_directions, on, still, failed, moved)
                  (return_with-IsUpTo env (phase_failed e) after dirs)
            | inl fine ↦
                rw (run_directions, on, still, fine, moved)
                  (run_directions-IsUpTo opts env dirs after)
          ]
        ]
      ]

  run_measured-IsUpTo :
      (opts : Options F) (env : RunEnv F) (r : Runner F)
      → IsUpTo (run_measured parse to_lower contains split_host_port join_host_port opts env r) (
          r.stages
          ++ ((if ltb_ℤ (pos 0) opts.idle_probes then idling ∷ [] else [])
              ++ (map loading (directions_of opts.directions) ++ done ∷ [])))
  unfolding run_measured
  run_measured-IsUpTo opts env r =
      let dirs = directions_of opts.directions in
      let (after, err) =
        run_idle parse to_lower contains split_host_port join_host_port env
          (pos_part opts.idle_probes) r in
      let begun : after.stages ≡ r.stages ++ idling ∷ [] =
        run_idle-stages env (pos_part opts.idle_probes) r in
      let moved : r.stages ++ (idling ∷ (map loading dirs ++ done ∷ []))
          ≡ after.stages ++ (map loading dirs ++ done ∷ []) =
        sym (append_assoc r.stages (idling ∷ []) (map loading dirs ++ done ∷ []))
        ∙ ap (λ ss. ss ++ (map loading dirs ++ done ∷ [])) (sym begun) in
      let warned : after.stages ≡ (warn_idle err after).stages =
        ap (λ c. c.0) (sym (core-warn_idle err after)) in
      elim (Bool-cases (ltb_ℤ (pos 0) opts.idle_probes)) [
        | inr none_asked ↦ rw (run_measured, none_asked) (run_directions-IsUpTo opts env dirs r)
        | inl asked ↦ elim (Option-cases env.ctx_after_idle) [
          | inr (e, over) ↦
              rw (run_measured, asked, over, moved) (return_cancelled-IsUpTo env e after dirs)
          | inl on ↦
              rw (run_measured, asked, on, moved, warned)
                (run_directions-IsUpTo opts env dirs (warn_idle err after))
        ]
      ]

  pub run-IsUpTo :
      (opts : Options F) (env : RunEnv F) (config_url : String)
      → IsUpTo
          (run parse to_lower contains split_host_port join_host_port opts env config_url)
          (plan opts)
  unfolding run plan announce new_runner resolve
  run-IsUpTo opts env config_url =
      let begun =
        announce discovering
          (warn_when (not env.high_resolution) coarse_clock (new_runner env config_url)) in
      let first : begun.stages ≡ discovering ∷ [] =
        ap (λ c. c.0 ++ discovering ∷ [])
          (core-warn_when (not env.high_resolution) coarse_clock (new_runner env config_url)) in
      let left =
        (if ltb_ℤ (pos 0) opts.idle_probes then idling ∷ [] else [])
        ++ (map loading (directions_of opts.directions) ++ done ∷ []) in
      elim (Sum-cases (discover parse config_url env.fetch)) [
        | inl (err, failed) ↦
            rw (run, failed)
              (
                left,
                ap (λ ss. ss ++ left) (sym first),
                inr (
                  (not_discovered err, refl),
                  all_full (if ltb_ℤ (pos 0) opts.idle_probes then idling ∷ [] else [])
                      (directions_of opts.directions),
                ),
              )
        | inr (cfg, got) ↦
            let f =
              new_transport_factory split_host_port join_host_port env.default_transport
                env.transport cfg.test_endpoint env.small_url.scheme env.small_url.host in
            let r0 =
              describe_path parse to_lower contains split_host_port join_host_port f cfg
                (resolve cfg env.small_url begun) in
            let same : r0.stages ≡ begun.stages =
              ap (λ c. c.0)
                (core-describe_path parse to_lower contains split_host_port join_host_port f cfg
                  (resolve cfg env.small_url begun)) in
            let moved : discovering ∷ left ≡ r0.stages ++ left =
              ap (λ ss. ss ++ left) (sym (same ∙ first)) in
            rw (run, got, moved) (run_measured-IsUpTo opts env r0)
      ]
