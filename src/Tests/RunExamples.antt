-- ===== src/Tests/RunExamples.antt =====
-- The theorems on a run at one that measures the download and whose upload fails.
use Prim.Native.String.{String}
use netquality.Prelude.{
  ◌^◌, ◌*◌, ◌≡◌, ◌⊎◌, inl, inr, refl, true, false, [], ◌∷◌, none, some, pos, ℕ,
}
use netquality.Float.Micro.{Micro, micro_float}
use netquality.Engine.Params.{default_params}
use netquality.Engine.Samples.{Sample}
use netquality.Engine.State.{new}
use netquality.Engine.Summary.{summary}
use netquality.Client.Stop.{running, flow_error}
use netquality.Client.Idle.{Attempt, measured}
use netquality.Client.Options.{Options, Directions, both, download, upload, stability_from}
use netquality.Client.Report.{PhaseEnd}
use netquality.Client.Target.Keys.{ConfigError}
use netquality.Client.Target.Config.{ServerConfig}
use netquality.Client.Run.Discover.{DiscoverError, discover}
use netquality.Client.Run.Phases.{LoadEnv, RunEnv, not_discovered}
use netquality.Client.Run.Steps.{run}
use netquality.Client.Run.Kept.{IsPartial, run-IsPartial}

abbrev config : ServerConfig
config = record {
  version = pos 1;
  test_endpoint = "";
  small_download_url = "https://nq.example/small";
  large_download_url = "https://nq.example/large";
  upload_url = "https://nq.example/up";
}

abbrev pub parse : String → ConfigError ⊎ ServerConfig
parse s = inr config

abbrev probe : Sample
probe = record {
  total = pos 30_000_000;
  dns = pos 0;
  connect = pos 10_000_000;
  tls = pos 10_000_000;
  tls_rtts = pos 1;
  ttfb = pos 9_000_000;
  http = pos 10_000_000;
  staged = true;
}

abbrev pub options : Options Micro
options = record {
  max_duration = pos (12 * 10 ^ 9);
  max_bytes = pos 0;
  max_flows = pos 2;
  directions = both;
  idle_probes = pos 2;
  idle_timeout = pos (10 ^ 10);
  stability = stability_from default_params;
  config_timeout = pos (10 ^ 10);
}

abbrev download_end : PhaseEnd
download_end = record {
  duration = pos (4 * 10 ^ 9);
  bytes = pos 5_000_000;
  payload_bytes = pos 4_000_000;
  flows = pos 1;
  intervals = 3;
  proto = "HTTP/2.0";
  stop = running;
}

abbrev upload_end : PhaseEnd
upload_end = record {
  duration = pos 0;
  bytes = pos 0;
  payload_bytes = pos 0;
  flows = pos 1;
  intervals = 0;
  proto = "";
  stop = record { stopped = true; reason = flow_error; flow_err = some "reset"; flow_errs = 1 };
}

abbrev end_of : Directions → PhaseEnd
end_of download = download_end
end_of upload = upload_end
end_of both = upload_end

abbrev load : Directions → LoadEnv Micro
load dir = record {
  ctx_before = none;
  ctx_begin = none;
  handshakes = [];
  finish = end_of dir;
  summary = summary (new default_params (pos 2)) (probe ∷ []) [];
  ctx_end = none;
  ctx_after = none;
}

abbrev attempts : ℕ → Attempt
attempts i = record { expired = false; outcome = measured probe }

abbrev pub env : RunEnv Micro
env = record {
  started_at = pos 0;
  ended_at = pos (5 * 10 ^ 9);
  high_resolution = true;
  fetch = record {
    request_error = none;
    response = inr (record { status = 200; body = inr "{}" });
  };
  small_url = record { scheme = "https"; host = "nq.example" };
  default_transport = record { dial_tls_context = false; dial_tls = false; proxy = none };
  transport = none;
  idle_handshakes = [];
  idle_attempts = attempts;
  idle_expired = false;
  ctx_after_idle = none;
  load = load;
  remote = "192.0.2.7" ∷ [];
  local = "198.51.100.2" ∷ [];
}

run-IsPartial_example :
    let e =
      run parse
        (λ s. s)
        (λ s t. false)
        (λ s. none)
        (λ h p. h)
        options
        env
        "https://nq.example/.well-known/nq" in
    (((err : DiscoverError) × (discover parse "https://nq.example/.well-known/nq" env.fetch
          ≡ inl err)
        × (e.result ≡ none)
        × (e.error ≡ some (not_discovered err)))
      ⊎ (((cfg : ServerConfig) × (discover parse "https://nq.example/.well-known/nq" env.fetch
              ≡ inr cfg))
          × IsPartial parse (λ s. s) (λ s t. false) (λ s. none) (λ h p. h) options env e))
run-IsPartial_example =
    run-IsPartial parse (λ s. s) (λ s t. false) (λ s. none) (λ h p. h) options env
      "https://nq.example/.well-known/nq" (λ dir h. (refl, refl))
