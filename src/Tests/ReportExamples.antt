-- ===== src/Tests/ReportExamples.antt =====
-- The theorems on a run's options, probes and results at concrete inputs.
use netquality.Prelude.{◌*◌, ◌^◌, ◌≡◌, ◌⊎◌, pos, negsuc, ◌<ℤ◌}
use netquality.Float.Micro.{Micro, micro_float}
use netquality.Engine.Params.{default_params}
use netquality.Client.Options.{
  Options, both, upload, with_defaults, phase_params, stability_from, upload_buffer-positive,
}

-- A caller that asks for two flows and means to disable the send buffer.
abbrev options : Options Micro
options = record {
  max_duration = pos 0;
  max_bytes = negsuc 0;
  max_flows = pos 2;
  directions = both;
  idle_probes = pos 0;
  idle_timeout = pos 0;
  stability = record (stability_from default_params) { send_buffer_bytes = negsuc 0 };
  config_timeout = pos 0;
}

upload_buffer-positive_example :
    let sp = phase_params upload (with_defaults options).stability in
    (pos 0 <ℤ sp.send_buffer_bytes)
    × ((pos 0 <ℤ options.stability.send_buffer_bytes) ⊎ (sp.send_buffer_bytes ≡ pos (4 * 2 ^ 20)))
upload_buffer-positive_example = upload_buffer-positive options
