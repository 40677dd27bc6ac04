-- ===== src/Engine/Report.antt =====
-- What Summary and ProbeGap report.
use netquality.Prelude.{
  ℕ, zero, suc, ◌+◌, ◌-◌, ◌^◌, ◌≤◌, ◌<◌, ◌≡◌, refl, ap, ◌∙◌, ◌⊎◌, inl, inr, false, List, [], ◌∷◌,
  ◌++◌, ℤ, pos, pos_part, ◌≤ℤ◌, arith, length, length-append, length-drop, take, drop, concat, quot,
}
use Prim.Native.Nat.{max}
use netquality.Float.{Float, nought}
use netquality.Engine.Tracker.{current}
use netquality.Engine.Samples.{Sample}
use netquality.Engine.State.{Engine, distance, window}
use netquality.Engine.Invariant.{IsConsistent}
use netquality.Engine.Summary.{
  Chosen, total_length, steady_window, choose, summary, probe_gap, stretched,
}

length-concat : (xss : List (List Sample)) → length (concat xss) ≡ total_length xss
unfolding total_length
length-concat [] = refl
length-concat (xs ∷ xss) = omega (arith, length-append xs (concat xss), length-concat xss)

total_length-append :
    (xss yss : List (List Sample)) → total_length (xss ++ yss) ≡ total_length xss + total_length yss
unfolding total_length
total_length-append [] yss = omega arith
total_length-append (xs ∷ xss) yss = omega (arith, total_length-append xss yss)

total_length-drop :
    (n : ℕ) (xss : List (List Sample)) → total_length (drop n xss) ≤ total_length xss
unfolding total_length
total_length-drop zero xss = omega arith
total_length-drop (suc n) [] = omega arith
total_length-drop (suc n) (xs ∷ xss) = omega (arith, total_length-drop n xss)

take-all {ℓ} : {A : Type ℓ} (n : ℕ) (xs : List A) → length xs ≤ n → take n xs ≡ xs
take-all zero [] h = refl
take-all zero (x ∷ xs) h = absurd (omega arith)
take-all (suc n) [] h = refl
take-all (suc n) (x ∷ xs) h = ap (◌∷◌ x) (take-all n xs (omega arith))

module _ {F : Type 0} (e : Engine F) (h : IsConsistent e) where
  -- The method window takes the tails of the two series.
  window-drop :
      (n : ℕ)
      → window e n
        ≡ (concat (drop (e.intervals - n) e.foreign), concat (drop (e.intervals - n) e.self))
  unfolding window
  window-drop n =
      let start = length e.foreign - n in
      let lf = length-drop start e.foreign in
      let ls = length-drop start e.self in
      let same : start ≡ e.intervals - n = omega (arith, h.foreign_count) in
      rw (
        take-all (length e.foreign - start) (drop start e.foreign) (omega arith),
        take-all (length e.foreign - start) (drop start e.self)
            (omega (arith, h.foreign_count, h.self_count)),
        same,
      )

  -- The window starts in the phase, no later than the trailing window of MAD intervals does.
  steady_window_bounds :
      (1 ≤ steady_window e) × (steady_window e ≤ max (e.intervals + 1 - distance e.p) 1)
  unfolding steady_window
  steady_window_bounds = ground arith

  -- The samples from interval `from` on, and those of the whole phase with the interval in progress.
  abbrev tail_from : ℕ → List (List Sample) → List Sample
  tail_from from xss = concat (drop (from - 1) xss)

  abbrev IsTail : Chosen → Type 0
  IsTail c = (c.foreign ≡ tail_from c.from e.foreign) × (c.self ≡ tail_from c.from e.self)

  abbrev IsWhole : List Sample → List Sample → Chosen → Type 0
  IsWhole f s c = (c.from ≡ 1) × (c.foreign ≡ concat e.foreign ++ f) × (c.self ≡ concat e.self ++ s)

  window_steady :
      window e (e.intervals + 1 - steady_window e)
      ≡ (tail_from (steady_window e) e.foreign, tail_from (steady_window e) e.self)
  window_steady =
      let from = steady_window e in
      let start : e.intervals - (e.intervals + 1 - from) ≡ from - 1 =
        omega (arith, steady_window_bounds, h.distance_pos) in
      rw (window-drop (e.intervals + 1 - from), start)

  window_whole : window e (length e.foreign) ≡ (concat e.foreign, concat e.self)
  window_whole =
      let none_dropped : e.intervals - length e.foreign ≡ 0 = omega (arith, h.foreign_count) in
      rw (window-drop (length e.foreign), none_dropped)

  choose_cases :
      (f s : List Sample)
      → let c = choose e f s in
        (1 ≤ c.from)
        × (c.from ≤ max (e.intervals + 1 - distance e.p) 1)
        × (IsTail c × (0 < length c.foreign + length c.self) ⊎ IsWhole f s c)
  unfolding choose
  choose_cases f s = ground (arith, window_steady, window_whole, steady_window_bounds)

-- Sample counts are over the whole phase, the interval in progress included.
module _ {F : Type 0} ⦃d : Float F⦄ where
  -- The figures of a consistent engine are computed from exactly the samples of the intervals from
  -- window_from on, which is an interval of the phase and leaves at least the trailing MAD intervals in; or, if those hold no
  -- sample at all, from every sample of the phase and of the interval in progress.
  pub summary_window :
      (e : Engine F) (f s : List Sample)
      → IsConsistent e
      → let r = summary e f s in
        (1 ≤ r.window_from)
        × (r.window_from ≤ max (e.intervals + 1 - distance e.p) 1)
        × ((r.foreign ≡ concat (drop (r.window_from - 1) e.foreign))
              × (r.self ≡ concat (drop (r.window_from - 1) e.self))
              × (0 < length r.foreign + length r.self)
            ⊎ (r.window_from ≡ 1)
              × (r.foreign ≡ concat e.foreign ++ f)
              × (r.self ≡ concat e.self ++ s))
  unfolding summary
  summary_window e f s h = ground (arith, choose_cases e h f s)

  -- No summary of a consistent engine counts fewer samples in the phase than it computes its figures from, and it computes
  -- them from no sample only if the phase has none.
  summary_counts :
      (e : Engine F) (f s : List Sample)
      → IsConsistent e
      → let r = summary e f s in
        (length r.foreign ≤ r.phase_foreign)
        × (length r.self ≤ r.phase_self)
        × ((0 < length r.foreign + length r.self) ⊎ (r.phase_foreign + r.phase_self ≡ 0))
  unfolding summary
  summary_counts e f s h =
      let c = choose e f s in
      let tail = λ (xss : List (List Sample)). length-concat (drop (c.from - 1) xss) in
      let kept = λ (xss : List (List Sample)). total_length-drop (c.from - 1) xss in
      let all_f = length-append (concat e.foreign) f in
      let all_s = length-append (concat e.self) s in
      elim (choose_cases e h f s).2 [
        | inl (same, some) ↦
            let nf : length c.foreign ≡ total_length (drop (c.from - 1) e.foreign) =
              ap length same.0 ∙ tail e.foreign in
            let ns : length c.self ≡ total_length (drop (c.from - 1) e.self) =
              ap length same.1 ∙ tail e.self in
            (omega (arith, kept e.foreign), omega (arith, kept e.self), omega arith)
        | inr whole ↦
            let nf : length c.foreign ≡ length (concat e.foreign ++ f) = ap length whole.1 in
            let ns : length c.self ≡ length (concat e.self ++ s) = ap length whole.2 in
            omega (arith, length-concat e.foreign, length-concat e.self)
      ]

  -- Probes are never closer than 1 / MaxProbesPerSecond, nor, while the goodput is known, closer than
  -- the gap at which they take ProbeCapacityPercent of it; and they are no further apart than one of
  -- the two.
  probe_gap_max :
      (e : Engine F) (foreign_bytes self_bytes : ℤ)
      → let gap = probe_gap e foreign_bytes self_bytes in
        let least = quot (pos (10 ^ 9)) (pos_part e.p.max_probes_per_second) in
        let spread = stretched e.p.probe_capacity_percent (current e.tp) foreign_bytes self_bytes in
        (least ≤ℤ gap)
        × ((d.lt nought (current e.tp) ≡ false) ⊎ (spread ≤ℤ gap))
        × ((gap ≡ least) ⊎ (gap ≡ spread))
  unfolding probe_gap
  probe_gap_max e fb sb = ground arith
