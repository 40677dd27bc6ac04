-- ===== src/Tests/CmdExamples.antt =====
-- The theorems on the command lines at a run of each.
use Prim.Native.String.{String, ◌++◌ as str_append}
use netquality.Prelude.{
  quot, ◌&&◌, if◌then◌else◌, ℕ, ◌+◌, ◌*◌, ◌^◌, ◌<◌, ◌≡◌, refl, ◌⊎◌, inr, true, false, List, [], ◌∷◌,
  Option, none, some, pos, negsuc, length, ◌<ℤ◌, ◌≤ℤ◌, arith, wrap, mul64, ◌*ℤ◌,
}
use text.Mathlib.Text.{◌==◌ as str_eq}
use netquality.Float.Micro.{Micro, micro_float}
use netquality.Server.Sign.{Time, in_window}
use netquality.Server.Sign.Issue.{SignError, unix_seconds}
use netquality.Server.Handler.{Options, Request, Route, with_defaults}
use netquality.Client.Options.{with_defaults as client_defaults}
use netquality.Client.Report.{phase_error}
use netquality.Client.Run.Discover.{discover, read_config}
use netquality.Client.Run.Phases.{Result, directions_of, return_with}
use netquality.Client.Run.Steps.{run, run_measured, run_directions, load_error}
use netquality.Client.Run.Plan.{plan}
use netquality.Cmd.Server.{Flags as ServerFlags}
use netquality.Cmd.Sign.{
  add_duration, max_ttl, run_sign, sign_with, sign_all, IsSignedBy, run_sign-IsSignedBy,
}
use netquality.Cmd.Sign.{Flags as SignFlags, flags as sign_flags}
use netquality.Cmd.HumanBytes.{human_bytes, scale_loop, scaled, IsHuman, human_bytes-IsHuman}
use netquality.Cmd.Nq.{
  cut_unit, parse_bytes, Flags, Asked, asked_of, target_of, bytes_asked, code_of, well_known,
  options_asked, directions_asked, nq,
}
use netquality.Cmd.Nq.Plan.{IsAsked, nq_ok-plan}
use netquality.Tests.RunExamples.{parse, env}

-- "5MB", of which only that suffix is cut.
abbrev cut_megabytes : String → String → Option String
cut_megabytes s t = if str_eq s "5MB" && str_eq t "MB" then some "5" else none

five_megabytes :
    parse_bytes (λ s. s) (λ s. s) (λ s. s) cut_megabytes (λ s. some (pos 5_000_000)) "5MB"
    ≡ some (pos 5_000_000)
unfolding parse_bytes cut_unit quot ◌*ℤ◌
five_megabytes = refl

-- 12.3 GB
printed_whole :
    human_bytes (pos 12_345_678_901)
    ≡ scaled 12_345_678_901 (record { div = pos (10 ^ 9); exp = 2 })
unfolding human_bytes scale_loop mul64 ◌*ℤ◌ wrap
printed_whole = refl

human_bytes-IsHuman_example : IsHuman 12_345_678_901 (human_bytes (pos 12_345_678_901))
human_bytes-IsHuman_example = human_bytes-IsHuman 12_345_678_901 (omega arith)

abbrev server_run : ServerFlags
server_run = record {
  cert_file = "cert.pem";
  key_file = "key.pem";
  self_signed = false;
  auth_token = "";
  allow_anonymous = false;
  signing_keys = "00ff" ∷ [];
  large_size = pos (8 * 2 ^ 30);
  upload_size = pos (16 * 2 ^ 30);
  max_connections = pos 256;
  client_bytes = pos 0;
  client_concurrency = pos 32;
  client_window = pos (60 * 10 ^ 9);
  version = false;
}

abbrev parse_key : String → Option (List ℕ)
parse_key s = some (0 ∷ 255 ∷ [])

abbrev served : Options
served = record {
  large_size = pos (8 * 2 ^ 30);
  auth_token = "";
  signing_keys = (0 ∷ 255 ∷ []) ∷ [];
  upload_size = pos (16 * 2 ^ 30);
  max_client_bytes = pos (8 * 2 ^ 30);
  client_window = pos (60 * 10 ^ 9);
  max_client_concurrency = pos 32;
}

abbrev unsigned : Request
unsigned = record {
  client_ip = "192.0.2.9";
  method = "GET";
  authorization = "";
  signed = record { path = "/nq/large"; exp = ""; sub = ""; sig = "" };
}

abbrev large : Route
large = record { request_cap = pos (8 * 2 ^ 30); signed = true; methods = "GET" ∷ [] }

abbrev sign_run : SignFlags
sign_run = record {
  key = "00ff";
  ttl = pos (600 * 10 ^ 9);
  sub = "device";
  new_key = false;
  urls = "https://nq.example/large" ∷ "https://nq.example/up" ∷ [];
}

abbrev sign_url : List ℕ → String → Time → String → SignError ⊎ String
sign_url key u expiry sub = inr (str_append u "?sig=AgIC")

abbrev noon : Time
noon = record { sec = pos (62_135_596_800 + 1_700_000_000); nsec = 5 }

run_sign-IsSignedBy_example :
    (key : List ℕ) × (parse_key "00ff" ≡ some key)
    × (0 < length sign_run.urls)
    × (pos 0 <ℤ sign_run.ttl)
    × (sign_run.ttl ≤ℤ max_ttl)
    × (in_window (unix_seconds (add_duration noon (600 * 10 ^ 9))) noon ≡ true)
    × IsSignedBy parse_key sign_url key
        (add_duration noon (600 * 10 ^ 9))
        sign_run.sub
        sign_run.urls
        (run_sign parse_key sign_url none (sign_flags sign_run) noon).lines
unfolding run_sign sign_with sign_all
run_sign-IsSignedBy_example =
    run_sign-IsSignedBy parse_key sign_url none sign_run noon (omega arith) (omega arith) refl refl

abbrev nq_run : Flags
nq_run = record {
  target = "cf";
  config_url = "";
  well_known = "nq.example:8443";
  download_only = true;
  upload_only = false;
  max_duration = pos 0;
  max_bytes = "";
  max_flows = pos 8;
  idle_probes = negsuc 0;
  idle_timeout = pos 0;
  interval = pos 0;
  insecure = false;
  auth_token = "";
}

abbrev same : String → String
same s = s

abbrev uncut : String → String → Option String
uncut s t = none

abbrev parse_float : String → Option Micro
parse_float s = none

nq_ok-plan_example :
    (a : Asked Micro) × (asked_of same same same uncut parse_float nq_run ≡ some a)
    × IsAsked same same same uncut parse_float nq_run a
    × (let e =
          run parse same
            (λ s t. false)
            (λ s. none)
            (λ h p. h)
            (client_defaults a.options)
            env
            a.config_url in
        (e.stages ≡ plan (client_defaults a.options))
        × (e.error ≡ none)
        × ((res : Result Micro) × (e.result ≡ some res)))
unfolding nq asked_of target_of bytes_asked code_of run discover well_known read_config run_measured
    client_defaults options_asked run_directions directions_of directions_asked load_error
    phase_error return_with
nq_ok-plan_example =
    nq_ok-plan same same same uncut parse_float parse (λ s t. false) (λ s. none) (λ h p. h)
      (λ a. env) nq_run refl
