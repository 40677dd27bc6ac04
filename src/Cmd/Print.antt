-- ===== src/Cmd/Print.antt =====
-- What nq prints: `progressPrinter`, `printHuman`, `printDir`, `ms` and `tail` of cmd/nq/main.go.
--
-- A call of fmt is the list of its pieces: texts, and texts and numbers with their verbs, which fmt renders. The
-- texts of a warning, a confidence and a reason are arguments.
use Prim.Native.String.{String, ◌++◌ as str_append}
use text.Mathlib.Text.{◌==◌ as str_eq}
use netquality.Prelude.{
  ◌≡◌, Bool, true, false, List, [], ◌∷◌, ◌++◌, Option, none, some, ℤ, pos, add64, arith, All,
  if◌then◌else◌,
}
use netquality.Float.{Float, nought, seconds}
use netquality.Engine.Tracker.{Confidence}
use netquality.Engine.Samples.{
  Sample, LatencyStats, highest_percentile, compute_latency_stats, durations_of,
}
use netquality.Engine.Order.{IsTime, IsOrderly, IsWithin, compute_latency_stats-IsOrderly}
use netquality.Client.Stop.{TruncationReason}
use netquality.Client.Report.{DirectionResult, IntervalWindow}
use netquality.Client.Run.Phases.{Result, RunWarning, ResolvedTarget}
use netquality.Client.Proxy.{ProxyInfo}
use netquality.Cmd.HumanBytes.{Human, human_bytes}

pub data Piece (F : Type 0) : Type 0 where
  plain : String → Piece F
  -- A text that its verb pads.
  padded : String → String → Piece F
  -- A floating-point number, with its verb.
  number : String → F → Piece F
  -- An integer, with its verb.
  decimal : String → ℤ → Piece F
  -- A count of bytes, as humanBytes prints it.
  bytes : Human → Piece F

-- The events that are printed, and the others.
pub data Event (F : Type 0) : Type 0 where
  phase_event : String → String → Event F
  -- The direction, interval, flows, goodput and RPM.
  interval_event : String → ℤ → ℤ → F → F → Event F
  warning_event : String → Event F
  other_event : Event F

abbrev pub join : String → List String → String
join sep [] = ""
join sep (x ∷ []) = x
join sep (x ∷ y ∷ ys) = str_append x (str_append sep (join sep (y ∷ ys)))

abbrev is_empty : {A : Type 0} → List A → Bool
is_empty [] = true
is_empty (x ∷ xs) = false

abbrev or_nothing : {A B : Type 0} → Option A → (A → List B) → List B
or_nothing none f = []
or_nothing (some a) f = f a

abbrev count : Option ℤ → ℤ
count none = pos 0
count (some n) = n

-- The texts of a proxy's two findings.
unfoldable proxy_parts : ProxyInfo → List String
proxy_parts p =
    (if p.explicit then str_append "explicit " p.url ∷ [] else [])
    ++ (if p.tls_interception then str_append "TLS interception by " p.issuer ∷ [] else [])

module _ {F : Type 0} ⦃d : Float F⦄ where
  unfoldable pub ms : ℤ → List (Piece F)
  ms t = number "%.1f" (d.div (d.of_int t) (d.of_int (pos 1_000_000))) ∷ plain "ms" ∷ []

  abbrev mbps : F → F
  mbps bps = d.div bps (d.of_int (pos 1_000_000))

  -- The latency that `tail` prints, and its percentile; none stands for the maximum.
  unfoldable tail_of : LatencyStats → Option F × ℤ
  tail_of st =
      let (p, v) = highest_percentile st in if d.lt nought p then (some p, v) else (none, st.max)

  unfoldable print_tail : Option F × ℤ → List (Piece F)
  print_tail (some p, v) = ms v ++ (plain " p" ∷ number "%.0f" p ∷ [])
  print_tail (none, v) = ms v ++ plain " max" ∷ []

  unfoldable progress : Event F → List (Piece F)
  progress (phase_event phase message) =
      if str_eq phase "done"
      then []
      else plain "== " ∷ plain phase ∷ plain " " ∷ plain message ∷ plain "\n" ∷ []
  progress (interval_event direction interval flows bps rpm) =
      (plain "   "
        ∷ padded "%-8s" direction
        ∷ plain " t="
        ∷ decimal "%-2d" interval
        ∷ plain " flows="
        ∷ decimal "%-2d" flows
        ∷ plain " "
        ∷ number "%8.1f" (mbps bps)
        ∷ plain " Mbps"
        ∷ [])
      ++ ((if d.lt nought rpm then plain "  " ∷ number "%5.0f" rpm ∷ plain " RPM" ∷ [] else [])
          ++ plain "\n" ∷ [])
  progress (warning_event message) = plain "   warning: " ∷ plain message ∷ plain "\n" ∷ []
  progress other_event = []

  module _ (warning_text : RunWarning → String) (confidence_text : Confidence → String)
      (reason_text : TruncationReason → String) where
    -- The part of a direction's line that says over what the lower bound was seen.
    unfoldable print_bound : DirectionResult F → IntervalWindow → List (Piece F)
    print_bound r w =
        plain "  (>= "
        ∷ number "%.1f" (mbps r.throughput_lower_bound_bps)
        ∷ plain " Mbps, <= "
        ∷ number "%.0f" r.rpm_upper_bound
        ∷ plain " RPM over "
        ∷ number "%.0f" (seconds w.duration)
        ∷ plain "s)"
        ∷ []

    unfoldable print_loaded : LatencyStats → List (Piece F)
    print_loaded st =
        plain "  loaded " ∷ (ms st.median ++ (plain " median, " ∷ print_tail (tail_of st)))

    unfoldable print_dir : String → Option (DirectionResult F) → List (Piece F)
    print_dir name none = padded "%-10s" name ∷ plain " not run\n" ∷ []
    print_dir name (some r) =
        (padded "%-10s" name
          ∷ plain " "
          ∷ number "%8.1f" (mbps r.throughput_bps)
          ∷ plain " Mbps  "
          ∷ number "%5.0f" r.rpm
          ∷ plain " RPM"
          ∷ [])
        ++ (or_nothing r.lower_bound_window (print_bound r)
            ++ (or_nothing r.loaded.combined print_loaded
                ++ ((plain "  ["
                      ∷ decimal "%d" r.flows
                      ∷ plain " flows, "
                      ∷ plain (confidence_text r.throughput_confidence)
                      ∷ plain "/"
                      ∷ plain (confidence_text r.responsiveness_confidence)
                      ∷ plain " confidence"
                      ∷ [])
                    ++ ((if r.truncated
                          then plain ", TRUNCATED: " ∷ plain (reason_text r.reason) ∷ []
                          else [])
                        ++ plain "]\n" ∷ []))))

    unfoldable print_target : ResolvedTarget → List (Piece F)
    print_target t =
        (plain "Target     " ∷ plain t.host ∷ [])
        ++ ((if str_eq t.http_version ""
              then []
              else plain " (" ∷ plain t.http_version ∷ plain ")" ∷ [])
            ++ ((if is_empty t.resolved_ips
                  then []
                  else plain " " ∷ plain (join "," t.resolved_ips) ∷ [])
                ++ ((if is_empty t.local_ips
                      then []
                      else plain " via " ∷ plain (join "," t.local_ips) ∷ [])
                    ++ plain "\n" ∷ [])))

    unfoldable print_proxy : ProxyInfo → List (Piece F)
    print_proxy p =
        plain "Proxy      "
        ∷ plain (join "; " (proxy_parts p))
        ∷ plain " (numbers cover the client→proxy leg)\n"
        ∷ []

    unfoldable print_idle : Option LatencyStats → List (Piece F)
    print_idle none = plain "Idle       not measured\n" ∷ []
    print_idle (some st) =
        plain "Idle       "
        ∷ (ms st.median
            ++ (plain " median, "
                ∷ (print_tail (tail_of st)
                    ++ (plain ", jitter "
                        ∷ (ms st.jitter
                            ++ (plain " ("
                                ∷ decimal "%d" (pos st.samples)
                                ∷ plain " probes)\n"
                                ∷ []))))))

    abbrev bytes_of : Option (DirectionResult F) → ℤ
    bytes_of none = pos 0
    bytes_of (some r) = r.bytes

    unfoldable print_warnings : List RunWarning → List (Piece F)
    print_warnings [] = []
    print_warnings (w ∷ ws) =
        plain "Warning    " ∷ plain (warning_text w) ∷ plain "\n" ∷ print_warnings ws

    unfoldable print_human : Result F → List (Piece F)
    print_human r =
        print_target r.target
        ++ (or_nothing r.target.proxy print_proxy
            ++ (print_idle r.idle
                ++ (print_dir "Download" r.download
                    ++ (print_dir "Upload" r.upload
                        ++ ((plain "Cost       "
                              ∷ bytes
                                  (human_bytes (add64 (bytes_of r.download) (bytes_of r.upload)))
                              ∷ plain " moved in "
                              ∷ number "%.1f" (seconds r.duration)
                              ∷ plain "s\n"
                              ∷ [])
                            ++ ((if r.cancelled
                                  then plain "Cancelled  partial results\n" ∷ []
                                  else [])
                                ++ print_warnings r.warnings))))))

-- The tail of orderly statistics.
orderly-IsWithin :
    (F : Type 0) ⦃d : Float F⦄ (xs : List ℤ) (st : LatencyStats)
    → d.lt nought nought ≡ false
    → IsOrderly F xs st
    → IsWithin st.min st.max (tail_of {F = F} st).1
unfolding tail_of highest_percentile
orderly-IsWithin F xs st irrefl (all, middle, p80, p90, p95, p99) = ground arith

-- The latency that is printed as the tail of some samples, times below 2^62, is none below their minimum or above
-- their maximum; given that zero is not below itself.
tail_of-IsWithin :
    (F : Type 0) ⦃d : Float F⦄ (x : Sample) (xs : List Sample)
    → d.lt nought nought ≡ false
    → All IsTime (durations_of (x ∷ xs) (λ s. s.total))
    → let st = compute_latency_stats F (x ∷ xs) in IsWithin st.min st.max (tail_of {F = F} st).1
tail_of-IsWithin F x xs irrefl t =
    orderly-IsWithin F (durations_of (x ∷ xs) (λ s. s.total)) (compute_latency_stats F (x ∷ xs))
      irrefl (compute_latency_stats-IsOrderly F x xs t).1
