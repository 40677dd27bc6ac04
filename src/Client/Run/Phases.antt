-- ===== src/Client/Run/Phases.antt =====
-- The phases of a run and its Result: `run`, `warn` and the loop over the directions in run.go.
use Prim.Native.String.{String}
use text.Mathlib.Text.{◌==◌ as str_eq}
use netquality.Prelude.{
  ℕ, Bool, true, false, List, [], ◌∷◌, ◌++◌, Option, none, some, ℤ, pos, sub64, if◌then◌else◌,
}
use netquality.Engine.Samples.{LatencyStats}
use netquality.Engine.Summary.{Summary}
use netquality.Client.Stop.{CtxError}
use netquality.Client.Idle.{Attempt, IdleError}
use netquality.Client.Options.{Directions, both, download, upload}
use netquality.Client.Report.{DirectionResult, PhaseEnd, Warning, PhaseError}
use netquality.Client.Target.Config.{ServerConfig, ParsedUrl}
use netquality.Client.Proxy.{ProxyInfo, HttpTransport, RoundTripper, ConnectionState}
use netquality.Client.Run.Discover.{DiscoverError, Fetch}

pub data RunWarning : Type 0 where
  coarse_clock : RunWarning
  custom_tripper : RunWarning
  proxied : String → RunWarning
  endpoint_ignored_by_proxy : RunWarning
  endpoint_ignored_by_tls : RunWarning
  intercepted : String → RunWarning
  idle_failed : IdleError → RunWarning
  in_phase : Directions → Warning → RunWarning

-- ResultSchemaVersion
abbrev result_schema_version : ℤ
result_schema_version = pos 1

pub record ResolvedTarget : Type 0 where
  pub config_url : String
  pub host : String
  pub test_endpoint : String
  pub resolved_ips : List String
  pub local_ips : List String
  pub http_version : String
  pub config : Option ServerConfig
  pub proxy : Option ProxyInfo

pub record Result (F : Type 0) : Type 0 where
  pub schema_version : ℤ
  pub target : ResolvedTarget
  pub started_at : ℤ
  pub duration : ℤ
  pub idle : Option LatencyStats
  pub download : Option (DirectionResult F)
  pub upload : Option (DirectionResult F)
  pub cancelled : Bool
  pub warnings : List RunWarning

-- The phases that a run announces.
pub data Stage : Type 0 where
  discovering : Stage
  idling : Stage
  loading : Directions → Stage
  done : Stage

-- The runner's result so far, whether a handshake has been looked at, and the phases announced.
pub record Runner (F : Type 0) : Type 0 where
  pub res : Result F
  pub chain_checked : Bool
  pub stages : List Stage

pub data RunError : Type 0 where
  not_discovered : DiscoverError → RunError
  context : CtxError → RunError
  phase_failed : PhaseError → RunError

-- What `run` returns, and what it announced.
pub record RunEnd (F : Type 0) : Type 0 where
  pub result : Option (Result F)
  pub error : Option RunError
  pub stages : List Stage

-- A load phase: what the caller's context says before it, at its head, at its end and after it, the
-- handshakes seen meanwhile, and what the teardown reads.
pub record LoadEnv (F : Type 0) : Type 0 where
  pub ctx_before : Option CtxError
  pub ctx_begin : Option CtxError
  pub handshakes : List ConnectionState
  pub finish : PhaseEnd
  pub summary : Summary F
  pub ctx_end : Option CtxError
  pub ctx_after : Option CtxError

-- The environment: the clock, the fetch of the configuration, what the URL package makes of its small
-- URL, the caller's transport, the idle phase, the load phases and the addresses that the connections used.
pub record RunEnv (F : Type 0) : Type 0 where
  pub started_at : ℤ
  pub ended_at : ℤ
  pub high_resolution : Bool
  pub fetch : Fetch
  pub small_url : ParsedUrl
  pub default_transport : HttpTransport
  pub transport : Option RoundTripper
  pub idle_handshakes : List ConnectionState
  pub idle_attempts : ℕ → Attempt
  pub idle_expired : Bool
  pub ctx_after_idle : Option CtxError
  pub load : Directions → LoadEnv F
  pub remote : List String
  pub local : List String

-- The order of the directions.
unfoldable pub directions_of : Directions → List Directions
directions_of both = download ∷ upload ∷ []
directions_of download = download ∷ []
directions_of upload = upload ∷ []

module _ {F : Type 0} where
  unfoldable pub warn : RunWarning → Runner F → Runner F
  warn w r = record r { res = record r.res { warnings = r.res.warnings ++ w ∷ [] } }

  unfoldable pub warn_when : Bool → RunWarning → Runner F → Runner F
  warn_when b w r = if b then warn w r else r

  unfoldable pub warn_all : List RunWarning → Runner F → Runner F
  warn_all [] r = r
  warn_all (w ∷ ws) r = warn_all ws (warn w r)

  unfoldable pub announce : Stage → Runner F → Runner F
  announce s r = record r { stages = r.stages ++ s ∷ [] }

  -- The closure `finish` of run.
  unfoldable pub finish : RunEnv F → Result F → Result F
  finish env res = record res {
    duration = sub64 env.ended_at env.started_at;
    target = record res.target { resolved_ips = env.remote; local_ips = env.local };
  }

  unfoldable pub return_with : RunEnv F → Option RunError → Runner F → RunEnd F
  return_with env err r = record {
    result = some (finish env r.res);
    error = err;
    stages = r.stages;
  }

  unfoldable pub return_cancelled : RunEnv F → CtxError → Runner F → RunEnd F
  return_cancelled env e r =
      return_with env (some (context e)) (record r { res = record r.res { cancelled = true } })

  unfoldable pub set_proxy : Option ProxyInfo → Runner F → Runner F
  set_proxy p r = record r { res = record r.res { target = record r.res.target { proxy = p } } }

  unfoldable pub new_runner : RunEnv F → String → Runner F
  new_runner env config_url = record {
    res = record {
      schema_version = result_schema_version;
      target = record {
        config_url = config_url;
        host = "";
        test_endpoint = "";
        resolved_ips = [];
        local_ips = [];
        http_version = "";
        config = none;
        proxy = none;
      };
      started_at = env.started_at;
      duration = pos 0;
      idle = none;
      download = none;
      upload = none;
      cancelled = false;
      warnings = [];
    };
    chain_checked = false;
    stages = [];
  }

  unfoldable pub set_result : Directions → Option (DirectionResult F) → Result F → Result F
  set_result download dr res = record res { download = dr }
  set_result both dr res = record res { upload = dr }
  set_result upload dr res = record res { upload = dr }

  unfoldable pub set_version : Option (DirectionResult F) → ResolvedTarget → ResolvedTarget
  set_version none target = target
  set_version (some dr) target =
      if str_eq target.http_version ""
      then record target { http_version = dr.http_version }
      else target

  -- A direction's result on the runner.
  unfoldable pub put_result : Directions → Option (DirectionResult F) → Runner F → Runner F
  put_result dir dr r =
      let res = set_result dir dr r.res in
      record r { res = record res { target = set_version dr res.target } }
