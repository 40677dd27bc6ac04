-- ===== src/Cmd/Nq.antt =====
-- The client's command line, cmd/nq/main.go: `run`, from its flags to the exit code, and `parseBytes`.
--
-- The flag package, the functions of strings and strconv.ParseFloat are arguments; the run of the library that
-- the flags ask for is one too, and `nq` puts Client.Run in its place.
pub mod Plan
use Prim.Native.String.{String, ◌++◌ as str_append}
use mathlib.Core.List.{append-nil}
use text.Mathlib.Text.{◌==◌ as str_eq}
use text.Mathlib.TextEquality.{eq_iff}
use netquality.Prelude.{
  ◌≢◌, refl, subst, true, false, Bool-cases, ℕ, ◌^◌, ◌≡◌, ap, sym, ◌∙◌, ◌++◌, ◌⊎◌, inl, inr, Bool,
  not, ◌&&◌, ◌||◌, Option, none, some, ℤ, pos, List, [], ◌∷◌, arith, if◌then◌else◌, Option-cases,
}
use netquality.Float.{Float, nought}
use netquality.Client.Options.{
  Directions, both, download, upload, Options, StabilityParams, with_defaults,
}
use netquality.Client.Target.Config.{ServerConfig}
use netquality.Client.Target.Keys.{ConfigError}
use netquality.Client.Run.Phases.{Stage, Result, RunEnd, RunEnv}
use netquality.Client.Run.Steps.{run}
use netquality.Client.Run.Plan.{plan, IsUpTo, run-IsUpTo}
use netquality.Cmd.Server.{exit_ok, exit_fail, exit_usage}

-- The first of the suffixes that the text has, cut off, with its multiplier.
unfoldable pub cut_unit :
    (String → String → Option String) → List (String × ℕ) → String → String × ℕ
cut_unit cut_suffix [] s = (s, 1)
cut_unit cut_suffix (u ∷ us) s =
    let rest = cut_unit cut_suffix us s in
    elim (cut_suffix s (u.0)) [ none ↦ rest | some t ↦ (t, u.1) ]

abbrev units : List (String × ℕ)
units =
    ("GIB", 2 ^ 30)
    ∷ ("MIB", 2 ^ 20)
    ∷ ("KIB", 2 ^ 10)
    ∷ ("GB", 10 ^ 9)
    ∷ ("MB", 10 ^ 6)
    ∷ ("KB", 10 ^ 3)
    ∷ ("B", 1)
    ∷ []

pub record Flags : Type 0 where
  pub target : String
  pub config_url : String
  pub well_known : String
  pub download_only : Bool
  pub upload_only : Bool
  pub max_duration : ℤ
  pub max_bytes : String
  pub max_flows : ℤ
  pub idle_probes : ℤ
  pub idle_timeout : ℤ
  pub interval : ℤ
  pub insecure : Bool
  pub auth_token : String

-- What the flag package makes of the arguments.
pub data Parsed : Type 0 where
  version_asked : Parsed
  help_asked : Parsed
  bad_flags : Parsed
  left_over : String → Parsed
  flags : Flags → Parsed

-- WellKnown of target.go.
unfoldable pub well_known : String → String
well_known host = str_append "https://" (str_append host "/.well-known/nq")

-- Apple and Cloudflare of target.go.
abbrev apple : String
apple = "https://mensura.cdn-apple.com/api/v1/gm/config"

abbrev cloudflare : String
cloudflare = "https://aim.cloudflare.com/responsiveness/api/v1/config"

-- The configuration's URL.
unfoldable pub target_of : (String → String) → Flags → Option String
target_of to_lower f =
    let name = to_lower f.target in
    if not (str_eq f.config_url "")
    then some f.config_url
    else if not (str_eq f.well_known "")
    then some (well_known f.well_known)
    else if str_eq name "cloudflare" || str_eq name "cf"
    then some cloudflare
    else if str_eq name "apple"
    then some apple
    else none

unfoldable pub directions_asked : Flags → Directions
directions_asked f = if f.download_only then download else if f.upload_only then upload else both

-- What a run is asked for: the URL, the options, and the HTTP client's and the header's flags.
pub record Asked (F : Type 0) : Type 0 where
  pub config_url : String
  pub options : Options F
  pub insecure : Bool
  pub auth_token : String

-- The exit code of a run that has ended.
unfoldable pub code_of : {F : Type 0} → RunEnd F → ℕ
code_of e = elim e.result [
  | none ↦ exit_fail
  | some res ↦ elim e.error [ some err ↦ exit_fail | none ↦ exit_ok ]
]

module _ (to_lower to_upper trim : String → String) (cut_suffix : String → String → Option String)
    {F : Type 0} (parse_float : String → Option F) ⦃d : Float F⦄ where
  unfoldable pub parse_bytes : String → Option ℤ
  parse_bytes s =
      let (t, mult) = cut_unit cut_suffix units (trim (to_upper s)) in
      elim (parse_float (trim t)) [
        | none ↦ none
        | some v ↦
            let size = d.mul v (d.of_int (pos mult)) in
            if d.le v nought || d.lt size (d.of_int (pos 1)) || d.lt (d.of_int (pos (2 ^ 62))) size
            then none
            else some (d.to_int size)
      ]

  -- --max-bytes, which may be absent.
  unfoldable pub bytes_asked : Flags → Option ℤ
  bytes_asked f = if str_eq f.max_bytes "" then some (pos 0) else parse_bytes f.max_bytes

  unfoldable pub options_asked : Flags → ℤ → Options F
  options_asked f mb = record {
    max_duration = f.max_duration;
    max_bytes = mb;
    max_flows = f.max_flows;
    directions = directions_asked f;
    idle_probes = f.idle_probes;
    idle_timeout = f.idle_timeout;
    stability = record {
      moving_average_distance = pos 0;
      interval = f.interval;
      trimmed_mean_percent = nought;
      std_dev_tolerance = nought;
      initial_flows = pos 0;
      flow_increment = pos 0;
      max_probes_per_second = pos 0;
      probe_capacity_percent = nought;
      send_buffer_bytes = pos 0;
      ramp_gain_tolerance = nought;
      change_tolerance = nought;
    };
    config_timeout = pos 0;
  }

  -- What the flags ask for, or a code of misuse.
  unfoldable pub asked_of : Flags → Option (Asked F)
  asked_of f = if f.download_only && f.upload_only then none else elim (target_of to_lower f) [
    | none ↦ none
    | some url ↦ elim (bytes_asked f) [
      | none ↦ none
      | some mb ↦ some (record {
        config_url = url;
        options = options_asked f mb;
        insecure = f.insecure;
        auth_token = f.auth_token;
      })
    ]
  ]

  unfoldable pub nq : (Asked F → RunEnd F) → Parsed → ℕ
  nq library version_asked = exit_ok
  nq library help_asked = exit_ok
  nq library bad_flags = exit_usage
  nq library (left_over arg) = exit_usage
  nq library (flags f) = elim (asked_of f) [ none ↦ exit_usage | some a ↦ code_of (library a) ]
