-- ===== src/Client/Run/Steps.antt =====
-- The steps of a run: `observeTLS`, the phases and the order of `run` in run.go.
--
-- The functions of net and strings that the transport's factory uses are arguments.
use Prim.Native.String.{String, ◌++◌ as str_append}
use text.Mathlib.Text.{◌==◌ as str_eq}
use netquality.Prelude.{
  ℕ, ◌⊎◌, inl, inr, Bool, true, false, not, ◌&&◌, List, [], ◌∷◌, Option, none, some, pos, ltb_ℤ,
  if◌then◌else◌, pos_part, map,
}
use netquality.Float.{Float}
use netquality.Client.Idle.{IdleError, idle}
use netquality.Client.Options.{Directions, Options, phase_params}
use netquality.Client.Report.{
  DirectionResult, report, warnings, PhaseError, context_ended, phase_error,
}
use netquality.Client.Target.Config.{ServerConfig, ParsedUrl}
use netquality.Client.Proxy.{
  TransportFactory, new_transport_factory, explicit_proxy, ConnectionState, observe_tls,
}
use netquality.Client.Target.Keys.{ConfigError}
use netquality.Client.Run.Discover.{discover}
use netquality.Client.Run.Phases.{
  coarse_clock, custom_tripper, proxied, endpoint_ignored_by_proxy, endpoint_ignored_by_tls,
  intercepted, idle_failed, in_phase, discovering, idling, loading, done, Runner, not_discovered,
  phase_failed, RunEnd, LoadEnv, RunEnv, warn, warn_when, warn_all, announce, return_with,
  return_cancelled, set_proxy, new_runner, put_result, directions_of,
}

abbrev proxy_reason : String → String
proxy_reason url =
    str_append "requests routed via proxy "
      (str_append url "; latency and throughput measure the client→proxy leg")

-- An explicit proxy on the runner, and the warning of a test endpoint that it makes useless.
unfoldable pub route : {F : Type 0} → Bool → Option String → Runner F → Runner F
route unused none r = r
route unused (some url) r = warn_when unused endpoint_ignored_by_proxy (
    warn (proxied url) (
      set_proxy
        (some (record {
          explicit = true;
          url = url;
          tls_interception = false;
          issuer = "";
          reason = proxy_reason url;
        }))
        r))

abbrev is_custom : TransportFactory → Bool
is_custom f = elim f.base [ none ↦ true | some t ↦ false ]

-- The target, once the configuration is there.
unfoldable pub resolve : {F : Type 0} → ServerConfig → ParsedUrl → Runner F → Runner F
resolve cfg u r = record r {
  res = record r.res {
    target = record r.res.target {
      host = u.host;
      test_endpoint = cfg.test_endpoint;
      config = some cfg;
    };
  };
}

-- The error of loadPhase.
unfoldable pub load_error : {F : Type 0} → LoadEnv F → Option PhaseError
load_error o = elim o.ctx_begin [
  | some e ↦ some (context_ended e)
  | none ↦ phase_error o.ctx_end o.finish
]

unfoldable pub warn_idle : {F : Type 0} → Option IdleError → Runner F → Runner F
warn_idle none r = r
warn_idle (some err) r = warn (idle_failed err) r

unfoldable pub warn_found : {F : Type 0} → Option String → Runner F → Runner F
warn_found none r = r
warn_found (some reason) r = warn (intercepted reason) r

module _ {F : Type 0} ⦃d : Float F⦄ where
  -- What loadPhase returns.
  unfoldable pub load_result : Options F → Directions → LoadEnv F → Option (DirectionResult F)
  load_result opts dir o = elim o.ctx_begin [
    | some e ↦ none
    | none ↦ some (report (phase_params dir opts.stability) o.finish o.summary)
  ]

module _ (parse : String → ConfigError ⊎ ServerConfig) (to_lower : String → String)
    (contains : String → String → Bool) (split_host_port : String → Option (String × String))
    (join_host_port : String → String → String) {F : Type 0} ⦃d : Float F⦄ where
  -- observeTLS on the runner.
  unfoldable pub observe : ConnectionState → Runner F → Runner F
  observe cs r =
      let (s, found) =
        observe_tls to_lower contains cs
          (record { proxy = r.res.target.proxy; chain_checked = r.chain_checked }) in
      let seen = set_proxy s.proxy (record r { chain_checked = s.chain_checked }) in
      warn_found found seen

  unfoldable pub observe_all : List ConnectionState → Runner F → Runner F
  observe_all [] r = r
  observe_all (cs ∷ rest) r = observe_all rest (observe cs r)

  -- The factory's warning, the explicit proxy, and the test endpoints that are not used.
  unfoldable pub describe_path : TransportFactory → ServerConfig → Runner F → Runner F
  describe_path f cfg r =
      let unused = not (str_eq f.test_endpoint "") in
      warn_when (f.custom_tls && unused) endpoint_ignored_by_tls (
        route unused (explicit_proxy f cfg.small_download_url)
          (warn_when (is_custom f) custom_tripper r))

  -- The idle phase, up to the test of the context after it.
  unfoldable pub run_idle : RunEnv F → ℕ → Runner F → Runner F × Option IdleError
  run_idle env probes r =
      let (stats, err) = idle F probes env.idle_attempts env.idle_expired in
      let seen = observe_all env.idle_handshakes (announce idling r) in
      (record seen { res = record seen.res { idle = stats } }, err)

  -- What loadPhase does to the runner.
  unfoldable pub run_load : Directions → LoadEnv F → Runner F → Runner F
  run_load dir o r = elim o.ctx_begin [
    | some e ↦ r
    | none ↦
        warn_all (map (in_phase dir) (warnings o.finish o.summary)) (observe_all o.handshakes r)
  ]

  -- A direction, between the context's test before it and the one after it.
  unfoldable pub run_direction : Options F → Directions → LoadEnv F → Runner F → Runner F
  run_direction opts dir o r =
      put_result dir (load_result opts dir o) (run_load dir o (announce (loading dir) r))

  -- The loop over the directions.
  unfoldable pub run_directions : Options F → RunEnv F → List Directions → Runner F → RunEnd F
  run_directions opts env [] r = return_with env none (announce done r)
  run_directions opts env (dir ∷ dirs) r =
      let o = env.load dir in
      let after = run_direction opts dir o r in
      let rest = run_directions opts env dirs after in
      elim o.ctx_before [
        | some e ↦ return_cancelled env e r
        | none ↦ elim o.ctx_after [
          | some e ↦ return_cancelled env e after
          | none ↦ elim (load_error o) [
            | some err ↦ return_with env (some (phase_failed err)) after
            | none ↦ rest
          ]
        ]
      ]

  -- From the idle phase on.
  unfoldable pub run_measured : Options F → RunEnv F → Runner F → RunEnd F
  run_measured opts env r =
      let dirs = directions_of opts.directions in
      if ltb_ℤ (pos 0) opts.idle_probes
      then (let (after, err) = run_idle env (pos_part opts.idle_probes) r in
          elim env.ctx_after_idle [
            | some e ↦ return_cancelled env e after
            | none ↦ run_directions opts env dirs (warn_idle err after)
          ])
      else run_directions opts env dirs r

  -- `opts` are the options with their defaults.
  unfoldable pub run : Options F → RunEnv F → String → RunEnd F
  run opts env config_url =
      let begun =
        announce discovering
          (warn_when (not env.high_resolution) coarse_clock (new_runner env config_url)) in
      elim (discover parse config_url env.fetch) [
        | inl err ↦ record {
          result = none;
          error = some (not_discovered err);
          stages = begun.stages;
        }
        | inr cfg ↦
            let f =
              new_transport_factory split_host_port join_host_port env.default_transport
                env.transport cfg.test_endpoint env.small_url.scheme env.small_url.host in
            run_measured opts env (describe_path f cfg (resolve cfg env.small_url begun))
      ]
