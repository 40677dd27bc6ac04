-- ===== src/Client/Report.antt =====
-- What a load phase reports: the tail of loadPhase in run.go, from the teardown to its return, and
-- DirectionResult of result.go.
pub mod Window
use Prim.Native.String.{String}
use text.Mathlib.Text.{◌==◌ as str_eq}
use netquality.Prelude.{
  ℕ, ◌+◌, ◌-◌, ◌^◌, ◌≤◌, ◌<◌, ◌≡◌, ◌∙◌, ◌⊎◌, inl, inr, Bool, true, false, not, ◌&&◌, List, [], ◌∷◌,
  ◌++◌, Option, none, some, ℤ, pos, ltb, ltb_ℤ, ◌+ℤ◌, ◌-ℤ◌, ◌==◌, add64, sub64, mul64, add64_small,
  sub64_small, arith, length, Bool-cases, if◌then◌else◌,
}
use Prim.Native.Nat.{min}
use netquality.Float.{Float, nought, seconds}
use netquality.Engine.Tracker.{Confidence}
use netquality.Engine.Samples.{Sample, LatencyStats, compute_latency_stats}
use netquality.Engine.State.{Engine, distance}
use netquality.Engine.Summary.{Summary, summary}
use netquality.Engine.Invariant.{IsConsistent}
use netquality.Engine.Report.{summary_window}
use netquality.Client.Stop.{
  TruncationReason, no_reason, bytes_cap, duration_cap, cancelled, flow_error, StopState, CtxError,
}
use netquality.Client.Options.{StabilityParams}

pub record IntervalWindow : Type 0 where
  pub start : ℤ
  pub duration : ℤ
  pub intervals : ℤ

pub record LoadedLatency : Type 0 where
  pub foreign : Option LatencyStats
  pub self : Option LatencyStats
  pub combined : Option LatencyStats

pub record DirectionResult (F : Type 0) : Type 0 where
  pub throughput_bps : F
  pub peak_throughput_bps : F
  pub mean_throughput_bps : F
  pub bytes : ℤ
  pub duration : ℤ
  pub flows : ℤ
  pub intervals : ℕ
  pub throughput_stable : Bool
  pub responsiveness_stable : Bool
  pub throughput_confidence : Confidence
  pub responsiveness_confidence : Confidence
  pub truncated : Bool
  pub reason : TruncationReason
  pub loaded : LoadedLatency
  pub loaded_window : Option IntervalWindow
  pub throughput_lower_bound_bps : F
  pub lower_bound_window : Option IntervalWindow
  pub rpm_upper_bound : F
  pub rpm : F
  pub foreign_rpm : F
  pub self_rpm : F
  pub http_version : String
  pub flow_errors : ℕ

-- What the teardown reads of the phase, beside its engine: the duration, the two byte totals, the
-- flows, the number of the last interval that completed, their protocol, and how it was stopped.
pub record PhaseEnd : Type 0 where
  pub duration : ℤ
  pub bytes : ℤ
  pub payload_bytes : ℤ
  pub flows : ℤ
  pub intervals : ℕ
  pub proto : String
  pub stop : StopState

unfoldable pub is_truncated : TruncationReason → Bool
is_truncated no_reason = false
is_truncated bytes_cap = true
is_truncated duration_cap = true
is_truncated cancelled = true
is_truncated flow_error = true

-- The samples of the combined statistics: every probe by its HTTP time.
abbrev by_http : List Sample → List Sample
by_http [] = []
by_http (x ∷ xs) =
    record {
      total = x.http;
      dns = pos 0;
      connect = pos 0;
      tls = pos 0;
      tls_rtts = pos 0;
      ttfb = pos 0;
      http = pos 0;
      staged = false;
    }
    ∷ by_http xs

unfoldable pub stats_or_none : (F : Type 0) ⦃d : Float F⦄ → List Sample → Option LatencyStats
stats_or_none F [] = none
stats_or_none F (x ∷ xs) = some (compute_latency_stats F (x ∷ xs))

module _ {F : Type 0} ⦃d : Float F⦄ where
  unfoldable pub mean_throughput : PhaseEnd → F
  mean_throughput p =
      if ltb_ℤ (pos 0) p.duration
      then d.div (d.mul (d.of_int p.payload_bytes) (d.lit 8 0)) (seconds p.duration)
      else nought

  unfoldable pub loaded_window_of : StabilityParams F → Summary F → Option IntervalWindow
  loaded_window_of sp sum =
      let before = sub64 (pos sum.window_from) (pos 1) in
      let count = add64 (sub64 (pos sum.intervals) (pos sum.window_from)) (pos 1) in
      if ltb 0 sum.intervals
      then some (record {
        start = mul64 before sp.interval;
        duration = mul64 count sp.interval;
        intervals = count;
      })
      else none

  unfoldable pub lower_bound_window_of : StabilityParams F → Summary F → Option IntervalWindow
  lower_bound_window_of sp sum =
      if d.lt nought sum.lower_bound_bps
      then some (record {
        start = mul64 (sub64 (pos sum.lower_bound_start) (pos 1)) sp.interval;
        duration = mul64 (pos sum.lower_bound_intervals) sp.interval;
        intervals = pos sum.lower_bound_intervals;
      })
      else none

  unfoldable pub report : StabilityParams F → PhaseEnd → Summary F → DirectionResult F
  report sp p sum =
      let mean = mean_throughput p in
      let bounded = d.lt nought sum.lower_bound_bps in
      record {
        throughput_bps = if p.intervals == 0 then mean else sum.throughput_bps;
        peak_throughput_bps = sum.peak_throughput_bps;
        mean_throughput_bps = mean;
        bytes = p.bytes;
        duration = p.duration;
        flows = p.flows;
        intervals = p.intervals;
        throughput_stable = sum.throughput_stable;
        responsiveness_stable = sum.responsiveness_stable;
        throughput_confidence = sum.throughput_confidence;
        responsiveness_confidence = sum.responsiveness_confidence;
        truncated = is_truncated p.stop.reason;
        reason = p.stop.reason;
        loaded = record {
          foreign = stats_or_none F sum.foreign;
          self = stats_or_none F sum.self;
          combined = stats_or_none F (by_http sum.foreign ++ by_http sum.self);
        };
        loaded_window = loaded_window_of sp sum;
        throughput_lower_bound_bps = if bounded then sum.lower_bound_bps else nought;
        lower_bound_window = lower_bound_window_of sp sum;
        rpm_upper_bound = if bounded then sum.rpm_upper_bound else nought;
        rpm = sum.rpm;
        foreign_rpm = sum.foreign_rpm;
        self_rpm = sum.self_rpm;
        http_version = p.proto;
        flow_errors = p.stop.flow_errs;
      }

pub data Warning : Type 0 where
  -- The samples of the phase, none of which is in the window, and its first and last interval.
  foreign_outside : ℕ → ℕ → ℕ → Warning
  self_outside : ℕ → ℕ → ℕ → Warning
  byte_cap_hit duration_cap_hit flow_failed no_self_probes : Warning

abbrev warn_if : Bool → Warning → List Warning
warn_if b w = if b then w ∷ [] else []

abbrev reason_warning : TruncationReason → List Warning
reason_warning no_reason = []
reason_warning bytes_cap = byte_cap_hit ∷ []
reason_warning duration_cap = duration_cap_hit ∷ []
reason_warning cancelled = []
reason_warning flow_error = flow_failed ∷ []

-- The warnings of the phase, in order.
unfoldable pub warnings : {F : Type 0} → PhaseEnd → Summary F → List Warning
warnings p sum =
    warn_if (length sum.foreign == 0 && ltb 0 sum.phase_foreign)
      (foreign_outside sum.phase_foreign sum.window_from sum.intervals)
    ++ warn_if (length sum.self == 0 && ltb 0 sum.phase_self)
        (self_outside sum.phase_self sum.window_from sum.intervals)
    ++ reason_warning p.stop.reason
    ++ warn_if (not (str_eq p.proto "") && not (str_eq p.proto "HTTP/2.0")) no_self_probes

pub data PhaseError : Type 0 where
  context_ended : CtxError → PhaseError
  load_flow_failed : Option String → PhaseError

-- The error that loadPhase returns beside its result.
unfoldable pub phase_error : Option CtxError → PhaseEnd → Option PhaseError
phase_error (some e) p = some (context_ended e)
phase_error none p = elim p.stop.reason [
  | flow_error ↦ if p.intervals == 0 then some (load_flow_failed p.stop.flow_err) else none
  | _ ↦ none
]
