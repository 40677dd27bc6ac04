-- ===== src/Cmd/Nq/Plan.antt =====
-- What nq has done when it exits with 0: the flags of cmd/nq/main.go against the run that they ask for.
use Prim.Native.String.{String, ◌++◌ as str_append}
use mathlib.Core.List.{append-nil}
use text.Mathlib.Text.{◌==◌ as str_eq}
use text.Mathlib.TextEquality.{eq_iff}
use netquality.Prelude.{
  ◌≢◌, refl, subst, true, false, Bool-cases, ◌≡◌, ap, sym, ◌∙◌, ◌++◌, ◌⊎◌, inl, inr, Bool, ◌&&◌,
  ◌||◌, Option, none, some, ℤ, pos, List, arith, Option-cases,
}
use netquality.Float.{Float, nought}
use netquality.Client.Options.{Directions, both, download, upload, StabilityParams, with_defaults}
use netquality.Client.Target.Config.{ServerConfig}
use netquality.Client.Target.Keys.{ConfigError}
use netquality.Client.Run.Phases.{Stage, Result, RunEnd, RunEnv}
use netquality.Client.Run.Steps.{run}
use netquality.Client.Run.Plan.{plan, IsUpTo, run-IsUpTo}
use netquality.Cmd.Server.{exit_ok}
use netquality.Cmd.Nq.{
  Flags, Asked, target_of, well_known, directions_asked, parse_bytes, bytes_asked, options_asked,
  asked_of, code_of, flags, nq,
}

-- The URL that the flags name: --config-url, else the well-known one of --well-known, else that of the target's name.
abbrev pub IsTarget : (String → String) → Flags → String → Type 0
IsTarget to_lower f url =
    ((f.config_url ≢ "") × (url ≡ f.config_url))
    ⊎ ((f.config_url ≡ "")
        × (f.well_known ≢ "")
        × (url ≡ str_append "https://" (str_append f.well_known "/.well-known/nq")))
    ⊎ ((f.config_url ≡ "")
        × (f.well_known ≡ "")
        × ((to_lower f.target ≡ "cloudflare") ⊎ (to_lower f.target ≡ "cf"))
        × (url ≡ "https://aim.cloudflare.com/responsiveness/api/v1/config"))
    ⊎ ((f.config_url ≡ "")
        × (f.well_known ≡ "")
        × (to_lower f.target ≡ "apple")
        × (url ≡ "https://mensura.cdn-apple.com/api/v1/gm/config"))

-- One of --download-only and --upload-only, or neither.
abbrev pub IsDirected : Flags → Directions → Type 0
IsDirected f dirs =
    ((f.download_only ≡ true) × (f.upload_only ≡ false) × (dirs ≡ download))
    ⊎ ((f.download_only ≡ false) × (f.upload_only ≡ true) × (dirs ≡ upload))
    ⊎ ((f.download_only ≡ false) × (f.upload_only ≡ false) × (dirs ≡ both))

-- Parameters of which only the interval is set.
abbrev pub only_interval : {F : Type 0} ⦃d : Float F⦄ → ℤ → StabilityParams F
only_interval spacing = record {
  moving_average_distance = pos 0;
  interval = spacing;
  trimmed_mean_percent = nought;
  std_dev_tolerance = nought;
  initial_flows = pos 0;
  flow_increment = pos 0;
  max_probes_per_second = pos 0;
  probe_capacity_percent = nought;
  send_buffer_bytes = pos 0;
  ramp_gain_tolerance = nought;
  change_tolerance = nought;
}

filled_lem : (s : String) → str_eq s "" ≡ false → s ≢ ""
filled_lem s h e = ground (arith, (eq_iff s "").1 e)

target_of-IsTarget :
    (to_lower : String → String) (f : Flags) (url : String)
    → target_of to_lower f ≡ some url
    → IsTarget to_lower f url
unfolding target_of well_known
target_of-IsTarget to_lower f url h = elim (Bool-cases (str_eq f.config_url "")) [
  | inr given ↦ inl (filled_lem f.config_url given, ground arith)
  | inl no_url ↦
      let blank = (eq_iff f.config_url "").0 no_url in
      elim (Bool-cases (str_eq f.well_known "")) [
        | inr given ↦ inr (inl (blank, filled_lem f.well_known given, ground arith))
        | inl no_host ↦
            let blank_host = (eq_iff f.well_known "").0 no_host in
            elim (Bool-cases
              (str_eq (to_lower f.target) "cloudflare" || str_eq (to_lower f.target) "cf")) [
                | inl is_cf ↦ inr (
                    inr (
                      inl (
                        blank,
                        blank_host,
                        ground (
                          arith,
                          eq_iff (to_lower f.target) "cloudflare",
                          eq_iff (to_lower f.target) "cf",
                        ),
                        ground arith,
                      )))
                | inr no_cf ↦ inr (
                    inr (
                      inr (
                        blank,
                        blank_host,
                        ground (arith, eq_iff (to_lower f.target) "apple"),
                        ground arith,
                      )))
              ]
      ]
]

directions_asked-IsDirected :
    (f : Flags) → (f.download_only && f.upload_only) ≡ false → IsDirected f (directions_asked f)
unfolding directions_asked
directions_asked-IsDirected f h = ground arith

code_of_ok :
    {F : Type 0} (e : RunEnd F)
    → code_of e ≡ exit_ok
    → (e.error ≡ none) × ((res : Result F) × (e.result ≡ some res))
unfolding code_of
code_of_ok e ok = elim (Option-cases e.result) [
  | inl lost ↦ absurd (ground arith)
  | inr (res, found) ↦ elim (Option-cases e.error) [
    | inl fine ↦ (fine, (res, found))
    | inr (err, failed) ↦ absurd (ground arith)
  ]
]

whole :
    {F : Type 0} (e : RunEnd F) (stages : List Stage)
    → e.error ≡ none
    → IsUpTo e stages
    → e.stages ≡ stages
whole e stages fine (rest, same, inl (no_error, nothing)) =
    sym (same ∙ ap (λ x. e.stages ++ x) nothing ∙ append-nil e.stages)
whole e stages fine (rest, same, inr ((err, failed), more)) =
    let none_left : ⊥ = ground arith in elim none_left [ ]

module _ (to_lower to_upper trim : String → String) (cut_suffix : String → String → Option String)
    {F : Type 0} (parse_float : String → Option F) ⦃d : Float F⦄ where
  -- The byte cap that the flags give: none, or that of --max-bytes, which can be read.
  abbrev pub IsCapped : Flags → ℤ → Type 0
  IsCapped f mb =
      ((f.max_bytes ≡ "") × (mb ≡ pos 0))
      ⊎ ((f.max_bytes ≢ "")
          × (parse_bytes to_lower to_upper trim cut_suffix parse_float f.max_bytes ≡ some mb))

  -- What is asked for is what the flags say, and nothing else is set.
  abbrev pub IsAsked : Flags → Asked F → Type 0
  IsAsked f a =
      IsTarget to_lower f a.config_url
      × IsDirected f a.options.directions
      × IsCapped f a.options.max_bytes
      × (a.options.max_duration ≡ f.max_duration)
      × (a.options.max_flows ≡ f.max_flows)
      × (a.options.idle_probes ≡ f.idle_probes)
      × (a.options.idle_timeout ≡ f.idle_timeout)
      × (a.options.stability ≡ only_interval f.interval)
      × (a.options.config_timeout ≡ pos 0)
      × (a.insecure ≡ f.insecure)
      × (a.auth_token ≡ f.auth_token)

  bytes_asked-IsCapped :
      (f : Flags) (mb : ℤ)
      → bytes_asked to_lower to_upper trim cut_suffix parse_float f ≡ some mb
      → IsCapped f mb
  unfolding bytes_asked
  bytes_asked-IsCapped f mb h = elim (Bool-cases (str_eq f.max_bytes "")) [
    | inl unset ↦ inl ((eq_iff f.max_bytes "").0 unset, ground arith)
    | inr given ↦ inr (filled_lem f.max_bytes given, ground arith)
  ]

  asked_of-IsAsked :
      (f : Flags) (a : Asked F)
      → asked_of to_lower to_upper trim cut_suffix parse_float f ≡ some a
      → IsAsked f a
  unfolding asked_of options_asked
  asked_of-IsAsked f a h = elim (Bool-cases (f.download_only && f.upload_only)) [
    | inl misused ↦ absurd (ground arith)
    | inr single ↦ elim (Option-cases (target_of to_lower f)) [
      | inl unknown ↦ absurd (ground arith)
      | inr (url, named) ↦
          elim (Option-cases (bytes_asked to_lower to_upper trim cut_suffix parse_float f)) [
            | inl unread ↦ absurd (ground arith)
            | inr (mb, read) ↦
                let made : Asked F = record {
                  config_url = url;
                  options = options_asked to_lower to_upper trim cut_suffix parse_float f mb;
                  insecure = f.insecure;
                  auth_token = f.auth_token;
                } in
                let same : made ≡ a = ground arith in
                subst (IsAsked f) same (
                  target_of-IsTarget to_lower f url named,
                  directions_asked-IsDirected f single,
                  bytes_asked-IsCapped f mb read,
                  refl,
                  refl,
                  refl,
                  refl,
                  refl,
                  refl,
                  refl,
                  refl,
                )
          ]
    ]
  ]

  -- nq with flags exits 0 only after it has run the library, without an error and with a result, through every phase of
  -- the plan, at what the flags ask for: the URL that they name, the directions, the byte cap, the other limits and the
  -- interval as given, and the defaults for what they leave open.
  pub nq_ok-plan :
      (parse : String → ConfigError ⊎ ServerConfig) (contains : String → String → Bool)
      (split_host_port : String → Option (String × String))
      (join_host_port : String → String → String) (env : Asked F → RunEnv F) (f : Flags)
      → nq to_lower to_upper trim cut_suffix parse_float
          (λ a.
            run parse to_lower contains split_host_port join_host_port
              (with_defaults a.options)
              (env a)
              a.config_url)
          (flags f)
        ≡ exit_ok
      → (a : Asked F) × (asked_of to_lower to_upper trim cut_suffix parse_float f ≡ some a)
        × IsAsked f a
        × (let e =
              run parse to_lower contains split_host_port join_host_port
                (with_defaults a.options)
                (env a)
                a.config_url in
            (e.stages ≡ plan (with_defaults a.options))
            × (e.error ≡ none)
            × ((res : Result F) × (e.result ≡ some res)))
  unfolding nq
  nq_ok-plan parse contains split_host_port join_host_port env f ok =
      elim (Option-cases (asked_of to_lower to_upper trim cut_suffix parse_float f)) [
        | inl misused ↦ absurd (ground arith)
        | inr (a, read) ↦
            let e : RunEnd F =
              run parse to_lower contains split_host_port join_host_port (with_defaults a.options)
                (env a) a.config_url in
            let ended : code_of e ≡ exit_ok = ground arith in
            let (fine, found) = code_of_ok e ended in
            let up_to =
              run-IsUpTo parse to_lower contains split_host_port join_host_port
                (with_defaults a.options) (env a) a.config_url in
            (
              a,
              read,
              asked_of-IsAsked f a read,
              (whole e (plan (with_defaults a.options)) fine up_to, fine, found),
            )
      ]
