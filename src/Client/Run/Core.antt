-- ===== src/Client/Run/Core.antt =====
-- What the steps of a run do to the phases announced and to the two results: lemmas on run.go's steps.
use Prim.Native.String.{String}
use netquality.Prelude.{
  ℕ, ◌≡◌, refl, ap, ◌∙◌, ◌⊎◌, inl, inr, Bool, true, false, List, [], ◌∷◌, Option, none, some,
  Option-cases,
}
use netquality.Float.{Float}
use netquality.Client.Options.{Directions, both, download, upload, Options}
use netquality.Client.Idle.{IdleError}
use netquality.Client.Report.{DirectionResult}
use netquality.Client.Target.Config.{ServerConfig}
use netquality.Client.Target.Keys.{ConfigError}
use netquality.Client.Proxy.{ConnectionState, observe_tls, TransportFactory, explicit_proxy}
use netquality.Client.Run.Phases.{
  RunWarning, custom_tripper, endpoint_ignored_by_tls, Stage, idling, loading, Runner, LoadEnv,
  RunEnv, warn, warn_when, warn_all, announce, set_proxy, put_result, set_result,
}
use netquality.Client.Run.Steps.{
  observe, observe_all, describe_path, route, load_result, run_idle, run_load, run_direction,
  warn_idle, warn_found,
}

-- What the plan and the results are read off.
abbrev pub Core : Type 0 → Type 0
Core F = List Stage × Option (DirectionResult F) × Option (DirectionResult F) × Bool

abbrev pub core : {F : Type 0} → Runner F → Core F
core r = (r.stages, r.res.download, r.res.upload, r.res.cancelled)

module _ {F : Type 0} where
  pub core-warn_when : (b : Bool) (w : RunWarning) (r : Runner F) → core (warn_when b w r) ≡ core r
  unfolding warn_when warn
  core-warn_when true w r = refl
  core-warn_when false w r = refl

  core-warn_all : (ws : List RunWarning) (r : Runner F) → core (warn_all ws r) ≡ core r
  unfolding warn_all warn
  core-warn_all [] r = refl
  core-warn_all (w ∷ ws) r = core-warn_all ws (warn w r)

  pub core-warn_idle : (err : Option IdleError) (r : Runner F) → core (warn_idle err r) ≡ core r
  unfolding warn_idle warn
  core-warn_idle none r = refl
  core-warn_idle (some e) r = refl

  core-warn_found : (found : Option String) (r : Runner F) → core (warn_found found r) ≡ core r
  unfolding warn_found warn
  core-warn_found none r = refl
  core-warn_found (some e) r = refl

  core-route :
      (unused : Bool) (url : Option String) (r : Runner F) → core (route unused url r) ≡ core r
  unfolding route warn_when warn set_proxy
  core-route unused none r = refl
  core-route true (some url) r = refl
  core-route false (some url) r = refl

  -- The results with a direction's put in.
  abbrev set_core_result : Directions → Option (DirectionResult F) → Core F → Core F
  set_core_result download dr (ss, down, up, c) = (ss, dr, up, c)
  set_core_result both dr (ss, down, up, c) = (ss, down, dr, c)
  set_core_result upload dr (ss, down, up, c) = (ss, down, dr, c)

  core-put_result :
      (dir : Directions) (dr : Option (DirectionResult F)) (r : Runner F)
      → core (put_result dir dr r) ≡ set_core_result dir dr (core r)
  unfolding put_result set_result
  core-put_result download dr r = refl
  core-put_result both dr r = refl
  core-put_result upload dr r = refl

module _ (parse : String → ConfigError ⊎ ServerConfig) (to_lower : String → String)
    (contains : String → String → Bool) (split_host_port : String → Option (String × String))
    (join_host_port : String → String → String) {F : Type 0} ⦃d : Float F⦄ where
  core-observe_all :
      (seen : List ConnectionState) (r : Runner F)
      → core (observe_all parse to_lower contains split_host_port join_host_port seen r) ≡ core r
  unfolding observe_all observe set_proxy
  core-observe_all [] r = refl
  core-observe_all (cs ∷ seen) r =
      core-observe_all seen (observe parse to_lower contains split_host_port join_host_port cs r)
      ∙ core-warn_found
          (observe_tls to_lower contains cs
            (record { proxy = r.res.target.proxy; chain_checked = r.chain_checked })).1
          (set_proxy
            (observe_tls to_lower contains cs
              (record { proxy = r.res.target.proxy; chain_checked = r.chain_checked })).0.proxy
            (record r {
              chain_checked =
                  (observe_tls to_lower contains cs (record {
                    proxy = r.res.target.proxy;
                    chain_checked = r.chain_checked;
                  })).0.chain_checked;
            }))

  pub core-describe_path :
      (f : TransportFactory) (cfg : ServerConfig) (r : Runner F)
      → core (describe_path parse to_lower contains split_host_port join_host_port f cfg r) ≡ core r
  unfolding describe_path
  core-describe_path f cfg r =
      core-warn_when _ endpoint_ignored_by_tls _
      ∙ core-route _ (explicit_proxy f cfg.small_download_url) _
      ∙ core-warn_when _ custom_tripper r

  pub core-run_idle :
      (env : RunEnv F) (probes : ℕ) (r : Runner F)
      → core (run_idle parse to_lower contains split_host_port join_host_port env probes r).0
        ≡ core (announce idling r)
  unfolding run_idle
  core-run_idle env probes r = core-observe_all env.idle_handshakes (announce idling r)

  core-run_load :
      (dir : Directions) (o : LoadEnv F) (r : Runner F)
      → core (run_load parse to_lower contains split_host_port join_host_port dir o r) ≡ core r
  unfolding run_load
  core-run_load dir o r = elim (Option-cases o.ctx_begin) [
    | inl on ↦ rw on (core-warn_all _ _ ∙ core-observe_all o.handshakes r)
    | inr (e, over) ↦ rw over
  ]

  pub core-run_direction :
      (opts : Options F) (dir : Directions) (o : LoadEnv F) (r : Runner F)
      → core (run_direction parse to_lower contains split_host_port join_host_port opts dir o r)
        ≡ set_core_result dir (load_result opts dir o) (core (announce (loading dir) r))
  unfolding run_direction
  core-run_direction opts dir o r =
      core-put_result dir (load_result opts dir o) _
      ∙ ap (λ c. set_core_result dir (load_result opts dir o) c)
          (core-run_load dir o (announce (loading dir) r))
