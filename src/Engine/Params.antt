-- ===== src/Engine/Params.antt =====
-- The algorithm's parameters: `StabilityParams` of internal/engine/stability.go.
use netquality.Prelude.{◌^◌, ◌||◌, ℤ, pos, ◌<ℤ◌, ◌≤ℤ◌, leb_ℤ, ltb_ℤ, if◌then◌else◌, arith}
use netquality.Float.{Float, nought}

pub record Params (F : Type 0) : Type 0 where
  pub moving_average_distance : ℤ
  pub interval : ℤ
  pub trimmed_mean_percent : F
  pub std_dev_tolerance : F
  pub initial_flows : ℤ
  pub flow_increment : ℤ
  pub max_probes_per_second : ℤ
  pub probe_capacity_percent : F
  pub send_buffer_bytes : ℤ
  pub ramp_gain_tolerance : F
  pub change_tolerance : F

-- An integer that is not positive selects its default.
abbrev or_default : ℤ → ℤ → ℤ
or_default x def = if leb_ℤ x (pos 0) then def else x

module _ {F : Type 0} ⦃d : Float F⦄ where
  -- DefaultStabilityParams
  abbrev pub default_params : Params F
  default_params = record {
    moving_average_distance = pos 4;
    interval = pos (10 ^ 9);
    trimmed_mean_percent = d.lit 95 0;
    std_dev_tolerance = d.lit 5 2;
    initial_flows = pos 1;
    flow_increment = pos 1;
    max_probes_per_second = pos 100;
    probe_capacity_percent = d.lit 5 2;
    send_buffer_bytes = pos 0;
    ramp_gain_tolerance = d.lit 10 2;
    change_tolerance = d.lit 25 2;
  }

  abbrev or_default_float : F → F → F
  or_default_float x def = if d.le x nought then def else x

  unfoldable pub with_defaults : Params F → Params F
  with_defaults p = record {
    moving_average_distance =
        or_default p.moving_average_distance default_params.moving_average_distance;
    interval = or_default p.interval default_params.interval;
    trimmed_mean_percent =
        if d.le p.trimmed_mean_percent nought || d.lt (d.lit 100 0) p.trimmed_mean_percent
        then default_params.trimmed_mean_percent
        else p.trimmed_mean_percent;
    std_dev_tolerance = or_default_float p.std_dev_tolerance default_params.std_dev_tolerance;
    initial_flows = or_default p.initial_flows default_params.initial_flows;
    flow_increment = or_default p.flow_increment default_params.flow_increment;
    max_probes_per_second = or_default p.max_probes_per_second default_params.max_probes_per_second;
    probe_capacity_percent =
        or_default_float p.probe_capacity_percent default_params.probe_capacity_percent;
    send_buffer_bytes = if ltb_ℤ p.send_buffer_bytes (pos 0) then pos 0 else p.send_buffer_bytes;
    ramp_gain_tolerance =
        if d.eq p.ramp_gain_tolerance nought
        then default_params.ramp_gain_tolerance
        else p.ramp_gain_tolerance;
    change_tolerance = or_default_float p.change_tolerance default_params.change_tolerance;
  }

  -- The integer parameters are usable: everything that divides or counts is positive.
  pub record IsProper (p : Params F) : Type 0 where
    pub distance_pos : pos 0 <ℤ p.moving_average_distance
    pub interval_pos : pos 0 <ℤ p.interval
    pub initial_pos : pos 0 <ℤ p.initial_flows
    pub increment_pos : pos 0 <ℤ p.flow_increment
    pub probes_pos : pos 0 <ℤ p.max_probes_per_second
    pub buffer_nonneg : pos 0 ≤ℤ p.send_buffer_bytes

  pub with_defaults-IsProper : (p : Params F) → IsProper (with_defaults p)
  unfolding with_defaults
  with_defaults-IsProper p = ground arith
