-- ===== src/Tests/ReportedExamples.antt =====
-- The theorem on what a run reports, at a run of both directions.
use netquality.Prelude.{◌^◌, ◌≡◌, ◌⊎◌, inl, refl, none, some, false, pos, ◌<ℤ◌, arith}
use netquality.Float.Micro.{Micro, micro_float}
use netquality.Engine.Params.{with_defaults as engine_defaults}
use netquality.Client.Options.{
  Directions, both, download, upload, with_defaults, phase_params, to_engine, stability_from,
}
use netquality.Client.Run.Discover.{DiscoverError, discover}
use netquality.Client.Run.Phases.{Result}
use netquality.Client.Run.Steps.{run}
use netquality.Client.Run.Loads.{loads}
use netquality.Client.Run.Reported.{on_courses, IsReported, run-IsReported}
use netquality.Tests.RunExamples.{parse, options, env}
use netquality.Tests.RequestExamples.{course}

small_increment :
    (dir : Directions)
    → (engine_defaults
        (to_engine (phase_params dir (with_defaults options).stability))).flow_increment
      <ℤ pos (2 ^ 62)
unfolding engine_defaults phase_params with_defaults to_engine stability_from
small_increment both = omega arith
small_increment download = omega arith
small_increment upload = omega arith

run-IsReported_example :
    let opts = with_defaults options in
    let met = on_courses opts (λ dir. course) env in
    let e =
      run parse
        (λ s. s)
        (λ s t. false)
        (λ s. none)
        (λ h p. h)
        opts
        met
        "https://nq.example/.well-known/nq" in
    ((e.result ≡ none)
      × ((err : DiscoverError) × (discover parse "https://nq.example/.well-known/nq" env.fetch
            ≡ inl err)))
    ⊎ ((res : Result Micro) × (e.result ≡ some res)
        × IsReported opts download course (met.load download) (loads download e.stages) res.download
        × IsReported opts upload course (met.load upload) (loads upload e.stages) res.upload)
unfolding with_defaults
run-IsReported_example =
    run-IsReported parse (λ s. s) (λ s t. false) (λ s. none) (λ h p. h) options (λ dir. course) env
      "https://nq.example/.well-known/nq" (λ dir h. (refl, refl)) (omega arith) small_increment
      (λ dir. omega arith)
