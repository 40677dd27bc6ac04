-- ===== src/Engine/Responsiveness.antt =====
-- Round trips per minute: `rpm` and `Responsiveness` of internal/engine/stats.go.
use netquality.Prelude.{
  ◌^◌, ◌&&◌, List, [], ◌∷◌, ℤ, pos, ltb_ℤ, leb_ℤ, add64, quot, if◌then◌else◌, Bool,
}
use netquality.Float.{Float, nought}
use netquality.Engine.Samples.{Sample, durations_of, trimmed_mean, tls_per_rtt}

-- The three results of Responsiveness.
pub record Rpm (F : Type 0) : Type 0 where
  pub total : F
  pub foreign_rpm : F
  pub self_rpm : F

module _ {F : Type 0} ⦃d : Float F⦄ where
  unfoldable pub rpm : ℤ → F
  rpm rtt =
      if leb_ℤ rtt (pos 0)
      then nought
      else d.div (d.lit 60000 0) (d.div (d.of_int rtt) (d.of_int (pos (10 ^ 6))))

  -- The round trip of foreign probes; without TLS it is the TCP-only case of draft 5.3.1.2.
  unfoldable foreign_rtt : List Sample → F → ℤ
  unfolding durations_of trimmed_mean tls_per_rtt
  foreign_rtt foreign tmp =
      let tcp = trimmed_mean F (durations_of foreign (λ s. s.connect)) tmp in
      let tls = trimmed_mean F (durations_of foreign tls_per_rtt) tmp in
      let http = trimmed_mean F (durations_of foreign (λ s. s.http)) tmp in
      if ltb_ℤ (pos 0) tls then quot (add64 (add64 tcp tls) http) 3 else quot (add64 tcp http) 2

  unfoldable foreign_rpm_of : List Sample → F → F
  unfolding rpm foreign_rtt
  foreign_rpm_of [] tmp = nought
  foreign_rpm_of (s ∷ ss) tmp = rpm (foreign_rtt (s ∷ ss) tmp)

  unfoldable self_rpm_of : List Sample → F → F
  unfolding rpm durations_of trimmed_mean
  self_rpm_of [] tmp = nought
  self_rpm_of (s ∷ ss) tmp = rpm (trimmed_mean F (durations_of (s ∷ ss) (λ s. s.http)) tmp)

  abbrev is_pos : F → Bool
  is_pos x = d.lt nought x

  -- The final switch.
  unfoldable combine : F → F → F
  combine foreign self =
      if is_pos foreign && is_pos self
      then d.div (d.add foreign self) (d.lit 2 0)
      else if is_pos foreign
      then foreign
      else self

  unfoldable pub responsiveness : List Sample → List Sample → F → Rpm F
  unfolding foreign_rpm_of self_rpm_of combine
  responsiveness foreign self tmp =
      let f = foreign_rpm_of foreign tmp in
      let s = self_rpm_of self tmp in record { total = combine f s; foreign_rpm = f; self_rpm = s }
