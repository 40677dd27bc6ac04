-- ===== src/Client/Run/Reported.antt =====
-- What a run of run.go reports of its directions, over load phases that meet anything.
use Prim.Native.String.{String}
use netquality.Prelude.{
  ◌+◌, ◌^◌, ◌<◌, ◌≡◌, refl, ◌∙◌, ◌⊎◌, inl, inr, Bool, true, false, Option, none, some, pos, ◌≤ℤ◌,
  ◌<ℤ◌, length, if◌then◌else◌, Option-cases,
}
use netquality.Float.{Float}
use netquality.Client.Target.Keys.{ConfigError}
use netquality.Client.Target.Config.{ServerConfig}
use netquality.Engine.Params.{with_defaults as engine_defaults}
use netquality.Client.Options.{
  Options, Directions, download, upload, with_defaults, with_defaults-usable, to_engine,
  phase_params,
}
use netquality.Client.Stop.{CtxError}
use netquality.Client.Report.{DirectionResult}
use netquality.Client.LoadPhase.Teardown.{Course, load_env}
use netquality.Client.LoadPhase.Outcome.{IsReport, load_result-IsReport}
use netquality.Client.Run.Discover.{DiscoverError, discover}
use netquality.Client.Run.Phases.{LoadEnv, RunEnv, Result}
use netquality.Client.Run.Steps.{load_result, run}
use netquality.Client.Run.Loads.{loads}
use netquality.Client.Run.Kept.{run-IsPartial}

-- A run whose load phases take these courses; the rest is its environment's.
abbrev pub on_courses :
    {F : Type 0} ⦃d : Float F⦄ → Options F → (Directions → Course) → RunEnv F → RunEnv F
on_courses opts courses env = record env {
  load = λ dir. load_env opts dir (courses dir) (env.load dir);
}

module _ {F : Type 0} ⦃d : Float F⦄ where
  -- A direction that was announced, and whose phase began, has the report of its course; no other has one.
  abbrev pub IsReported :
      Options F → Directions → Course → LoadEnv F → Bool → Option (DirectionResult F) → Type 0
  IsReported opts dir c env announced out =
      ((announced ≡ false) × (out ≡ none))
      ⊎ ((announced ≡ true) × ((e : CtxError) × (env.ctx_begin ≡ some e)) × (out ≡ none))
      ⊎ ((announced ≡ true)
          × (env.ctx_begin ≡ none)
          × ((r : DirectionResult F) × (out ≡ some r) × IsReport opts dir c env r))

  load_result-IsReported :
      (opts : Options F) (dir : Directions) (c : Course) (o : LoadEnv F) (announced : Bool)
      (out : Option (DirectionResult F))
      → pos 0 <ℤ opts.max_flows
      → opts.max_flows ≤ℤ pos (2 ^ 62)
      → (engine_defaults (to_engine (phase_params dir opts.stability))).flow_increment
        <ℤ pos (2 ^ 62)
      → length c.events + length c.late < 2 ^ 62
      → out ≡ (if announced then load_result opts dir (load_env opts dir c o) else none)
      → IsReported opts dir c (load_env opts dir c o) announced out
  unfolding load_result load_env
  load_result-IsReported opts dir c o false out some_flow small inc few kept = inl (refl, kept)
  load_result-IsReported opts dir c o true out some_flow small inc few kept =
      elim (Option-cases o.ctx_begin) [
        | inr (e, ended) ↦ inr (inl (refl, (e, ended), kept ∙ rw (load_result, ended) refl))
        | inl begun ↦
            let (r, is_r, report) =
              load_result-IsReport opts dir c o begun some_flow small inc few in
            inr (inr (refl, begun, (r, kept ∙ is_r, report)))
      ]

module _ (parse : String → ConfigError ⊎ ServerConfig) (to_lower : String → String)
    (contains : String → String → Bool) (split_host_port : String → Option (String × String))
    (join_host_port : String → String → String) {F : Type 0} ⦃d : Float F⦄ where
  -- A run with its options' defaults, whose load phases take any courses, returns no result exactly where the
  -- discovery fails; else each direction that is announced, and whose context has not ended by then, has a result, and
  -- no other: of one flow at least and of the limit at most, over the last of the intervals that it counts, from a
  -- summary that counts each probe that has finished once. The context is taken to stay ended once it has ended in
  -- a load phase; for fewer than 2^62 events in a phase, and limits and increments up to 2^62.
  pub run-IsReported :
      (given : Options F) (courses : Directions → Course) (env : RunEnv F) (config_url : String)
      → ((dir : Directions)
          → (env.load dir).ctx_after ≡ none
          → ((env.load dir).ctx_begin ≡ none) × ((env.load dir).ctx_end ≡ none))
      → (with_defaults given).max_flows ≤ℤ pos (2 ^ 62)
      → ((dir : Directions)
          → (engine_defaults
              (to_engine (phase_params dir (with_defaults given).stability))).flow_increment
            <ℤ pos (2 ^ 62))
      → ((dir : Directions) → length (courses dir).events + length (courses dir).late < 2 ^ 62)
      → let opts = with_defaults given in
        let met = on_courses opts courses env in
        let e = run parse to_lower contains split_host_port join_host_port opts met config_url in
        ((e.result ≡ none)
          × ((err : DiscoverError) × (discover parse config_url env.fetch ≡ inl err)))
        ⊎ ((res : Result F) × (e.result ≡ some res)
            × IsReported opts download
                (courses download)
                (met.load download)
                (loads download e.stages)
                res.download
            × IsReported opts upload
                (courses upload)
                (met.load upload)
                (loads upload e.stages)
                res.upload)
  unfolding load_env
  run-IsReported given courses env config_url lasting limit_small inc few =
      let opts = with_defaults given in
      let met = on_courses opts courses env in
      let e = run parse to_lower contains split_host_port join_host_port opts met config_url in
      let some_flow : pos 0 <ℤ opts.max_flows = (with_defaults-usable given).2 in
      elim (run-IsPartial parse to_lower contains split_host_port join_host_port opts met config_url
        lasting) [
          | inl (err, failed, nothing, _) ↦ inl (nothing, (err, failed))
          | inr (found, (res, is_res, lasted, (down, up), ended)) ↦ inr (
            res,
            is_res,
            load_result-IsReported opts download (courses download) (env.load download)
                (loads download e.stages) res.download some_flow limit_small (inc download)
                (few download) down,
            load_result-IsReported opts upload (courses upload) (env.load upload)
                (loads upload e.stages) res.upload some_flow limit_small (inc upload) (few upload)
                up,
          )
        ]
