-- ===== src/Client/Options.antt =====
-- The options of a run: `Options` of options.go, its converters of convert.go, and the parameters
-- that loadPhase of run.go derives from them.
--
-- The fields that are Go objects (the HTTP client, logger, event function, header and clock) only
-- get a default object where they are nil, and are left out.
use netquality.Prelude.{
  ◌^◌, ◌*◌, ◌≡◌, ◌⊎◌, false, ℤ, pos, ◌<ℤ◌, ◌≤ℤ◌, ltb_ℤ, leb_ℤ, eqb_ℤ, arith, if◌then◌else◌,
}
use netquality.Float.{Float}
use netquality.Engine.Params.{Params, IsProper, with_defaults-IsProper}
use netquality.Engine.Params.{with_defaults as engine_defaults}

pub data Directions : Type 0 where
  both download upload : Directions

pub record StabilityParams (F : Type 0) : Type 0 where
  pub moving_average_distance : ℤ
  pub interval : ℤ
  pub trimmed_mean_percent : F
  pub std_dev_tolerance : F
  pub initial_flows : ℤ
  pub flow_increment : ℤ
  pub max_probes_per_second : ℤ
  pub probe_capacity_percent : F
  pub send_buffer_bytes : ℤ
  pub ramp_gain_tolerance : F
  pub change_tolerance : F

-- Durations are nanoseconds.
pub record Options (F : Type 0) : Type 0 where
  pub max_duration : ℤ
  pub max_bytes : ℤ
  pub max_flows : ℤ
  pub directions : Directions
  pub idle_probes : ℤ
  pub idle_timeout : ℤ
  pub stability : StabilityParams F
  pub config_timeout : ℤ

unfoldable pub to_engine : {F : Type 0} → StabilityParams F → Params F
to_engine p = record {
  moving_average_distance = p.moving_average_distance;
  interval = p.interval;
  trimmed_mean_percent = p.trimmed_mean_percent;
  std_dev_tolerance = p.std_dev_tolerance;
  initial_flows = p.initial_flows;
  flow_increment = p.flow_increment;
  max_probes_per_second = p.max_probes_per_second;
  probe_capacity_percent = p.probe_capacity_percent;
  send_buffer_bytes = p.send_buffer_bytes;
  ramp_gain_tolerance = p.ramp_gain_tolerance;
  change_tolerance = p.change_tolerance;
}

unfoldable pub stability_from : {F : Type 0} → Params F → StabilityParams F
stability_from p = record {
  moving_average_distance = p.moving_average_distance;
  interval = p.interval;
  trimmed_mean_percent = p.trimmed_mean_percent;
  std_dev_tolerance = p.std_dev_tolerance;
  initial_flows = p.initial_flows;
  flow_increment = p.flow_increment;
  max_probes_per_second = p.max_probes_per_second;
  probe_capacity_percent = p.probe_capacity_percent;
  send_buffer_bytes = p.send_buffer_bytes;
  ramp_gain_tolerance = p.ramp_gain_tolerance;
  change_tolerance = p.change_tolerance;
}

abbrev ten_seconds_or : ℤ → ℤ
ten_seconds_or x = if leb_ℤ x (pos 0) then pos (10 * 10 ^ 9) else x

-- DefaultUploadSendBuffer
abbrev default_upload_send_buffer : ℤ
default_upload_send_buffer = pos (4 * 2 ^ 20)

module _ {F : Type 0} ⦃d : Float F⦄ where
  unfoldable pub with_defaults : Options F → Options F
  with_defaults o = record {
    max_duration = if leb_ℤ o.max_duration (pos 0) then pos (12 * 10 ^ 9) else o.max_duration;
    max_bytes = if ltb_ℤ o.max_bytes (pos 0) then pos 0 else o.max_bytes;
    max_flows = if leb_ℤ o.max_flows (pos 0) then pos 16 else o.max_flows;
    directions = o.directions;
    idle_probes = if eqb_ℤ o.idle_probes (pos 0) then pos 5 else o.idle_probes;
    idle_timeout = ten_seconds_or o.idle_timeout;
    stability = stability_from (engine_defaults (to_engine o.stability));
    config_timeout = ten_seconds_or o.config_timeout;
  }

  -- The parameters of a phase, at the head of loadPhase.
  unfoldable pub phase_params : Directions → StabilityParams F → StabilityParams F
  phase_params upload sp =
      if eqb_ℤ sp.send_buffer_bytes (pos 0)
      then record sp { send_buffer_bytes = default_upload_send_buffer }
      else sp
  phase_params both sp = sp
  phase_params download sp = sp

  engine_params-IsProper : (o : Options F) → IsProper (to_engine (with_defaults o).stability)
  unfolding with_defaults to_engine stability_from
  engine_params-IsProper o = with_defaults-IsProper (to_engine o.stability)

  -- With their defaults in, the options of every run are usable: the budgets, the flow limit and the
  -- engine's parameters are positive, the byte cap is not negative, some idle probes are asked for
  -- or skipped, and a limit that the caller set is kept.
  pub with_defaults-usable :
      (o : Options F)
      → let r = with_defaults o in
        (pos 0 <ℤ r.max_duration)
        × (pos 0 ≤ℤ r.max_bytes)
        × (pos 0 <ℤ r.max_flows)
        × (eqb_ℤ r.idle_probes (pos 0) ≡ false)
        × (pos 0 <ℤ r.idle_timeout)
        × (pos 0 <ℤ r.config_timeout)
        × IsProper (to_engine r.stability)
        × ((o.max_bytes ≤ℤ pos 0) ⊎ (r.max_bytes ≡ o.max_bytes))
        × ((o.max_flows ≤ℤ pos 0) ⊎ (r.max_flows ≡ o.max_flows))
        × ((o.max_duration ≤ℤ pos 0) ⊎ (r.max_duration ≡ o.max_duration))
  unfolding with_defaults
  with_defaults-usable o = (
    ground arith,
    ground arith,
    ground arith,
    ground arith,
    ground arith,
    ground arith,
    engine_params-IsProper o,
    ground arith,
    ground arith,
    ground arith,
  )

  -- The upload phase of a run always has a positive send buffer, whatever the caller set: the
  -- defaults turn a negative setting into zero, and the phase turns zero into its default. So a
  -- negative setting does not disable the buffer, and it is the default.
  pub upload_buffer-positive :
      (o : Options F)
      → let sp = phase_params upload (with_defaults o).stability in
        (pos 0 <ℤ sp.send_buffer_bytes)
        × ((pos 0 <ℤ o.stability.send_buffer_bytes) ⊎ (sp.send_buffer_bytes ≡ pos (4 * 2 ^ 20)))
  unfolding with_defaults phase_params stability_from to_engine engine_defaults
  upload_buffer-positive o = (ground arith, ground arith)
