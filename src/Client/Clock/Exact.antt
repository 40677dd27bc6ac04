-- ===== src/Client/Clock/Exact.antt =====
-- What the differences of clock_windows.go are worth: their rounding, and that all are of one clock.
use native.Mathlib.Nat.{div-mul-le_self, lt-div-mul-add, div-lt_iff_lt-mul}
use netquality.Prelude.{
  ℕ, ◌+◌, ◌*◌, ◌/◌, ◌%◌, ◌^◌, ◌≤◌, ◌<◌, ◌≡◌, refl, sym, subst, ◌⊎◌, inl, inr, true, false, List, [],
  ◌∷◌, none, some, ℤ, pos, negsuc, ◌≤ℤ◌, ◌<ℤ◌, ◌-ℤ◌, Fits, leb, sub64, sub64-eq, wrap, arith, All,
  pos_part, Bool-cases,
}
use netquality.Client.Clock.{
  Counter, unset, Answers, qpc_init, init_once, count_duration, Instant, mono_now, sub,
}

-- The quotient of a difference that is not too long.
quotient_small : (x f : ℕ) → 0 < f → x < 2 ^ 63 * f → x / f < 2 ^ 63
quotient_small x f some_hz short = (div-lt_iff_lt-mul some_hz).1 short

count_duration-pos :
    (f n : ℕ)
    → 0 < f
    → f < 2 ^ 63
    → n < 2 ^ 63
    → n * 10 ^ 9 < 2 ^ 63 * f
    → count_duration (pos f) (pos n) ≡ some (pos (n * 10 ^ 9 / f))
unfolding count_duration wrap
count_duration-pos f n some_hz word count short =
    let whole : (n % 2 ^ 64) * 10 ^ 9 / 2 ^ 64 * 2 ^ 64 + (n % 2 ^ 64) * 10 ^ 9 % 2 ^ 64
        ≡ n * 10 ^ 9 =
      omega arith in
    let same_hz : f % 2 ^ 64 ≡ f = omega arith in
    let no_panic : leb f ((n % 2 ^ 64) * 10 ^ 9 / 2 ^ 64) ≡ false = ground arith in
    let small : n * 10 ^ 9 / f < 2 ^ 63 = quotient_small (n * 10 ^ 9) f some_hz short in
    rw (count_duration, same_hz, no_panic, whole) (ground arith)

-- A number of nanoseconds, of a count at a frequency, rounded down.
abbrev pub IsRounded : ℕ → ℕ → ℕ → Type 0
IsRounded f n d = (d * f ≤ n * 10 ^ 9) × (n * 10 ^ 9 < d * f + f)

count_duration-IsRounded :
    (frequency delta : ℤ)
    → pos 0 <ℤ frequency
    → frequency <ℤ pos (2 ^ 63)
    → pos 0 ≤ℤ delta
    → delta <ℤ pos (2 ^ 63)
    → pos_part delta * 10 ^ 9 < 2 ^ 63 * pos_part frequency
    → (d : ℕ) × (count_duration frequency delta ≡ some (pos d))
      × IsRounded (pos_part frequency) (pos_part delta) d
count_duration-IsRounded (pos f) (pos n) some_hz word forward count short =
    let hz : 0 < f = omega arith in
    (
      n * 10 ^ 9 / f,
      count_duration-pos f n hz (omega arith) (omega arith) short,
      (div-mul-le_self (n * 10 ^ 9) f, lt-div-mul-add hz),
    )
count_duration-IsRounded (negsuc f) delta some_hz word forward count short = absurd (omega arith)
count_duration-IsRounded (pos f) (negsuc n) some_hz word forward count short = absurd (omega arith)

abbrev pub Reading : Type 0 → Type 0
Reading T = Answers × T × ℤ

settled : (w : Answers) (c : Counter) → c.once ≡ true → init_once w c ≡ c
unfolding init_once
settled w c h = rw (init_once, h) refl

apart_bounds :
    (a b : ℤ)
    → pos 0 ≤ℤ b
    → b ≤ℤ a
    → a <ℤ pos (2 ^ 63)
    → Fits (a -ℤ b) × (pos 0 ≤ℤ (a -ℤ b)) × ((a -ℤ b) <ℤ pos (2 ^ 63))
unfolding ◌-ℤ◌
apart_bounds a b start forward word = ground arith

-- The invariant of the counter: it is there only with a frequency.
abbrev IsTimed : Counter → Type 0
IsTimed c = (c.available ≡ false) ⊎ ((pos 0 <ℤ c.frequency) × (c.frequency <ℤ pos (2 ^ 63)))

-- The frequency is a word.
abbrev IsWord : Answers → Type 0
IsWord w = (w.hz ≡ none) ⊎ ((hz : ℤ) × (w.hz ≡ some hz) × (hz <ℤ pos (2 ^ 63)))

init_once-IsTimed : (w : Answers) (c : Counter) → IsWord w → IsTimed c → IsTimed (init_once w c)
unfolding init_once qpc_init
init_once-IsTimed w c (inl missing) h = ground arith
init_once-IsTimed w c (inr (hz, there, word)) h = ground arith

init_once-once : (w : Answers) (c : Counter) → (init_once w c).once ≡ true
unfolding init_once
init_once-once w c = ground arith

module _ {T : Type 0} (zero_time : T) where
  -- The calls of monoNow in a process, in the order in which they pass the Once, and what they return.
  unfoldable pub readings : List (Reading T) → Counter → Counter × List (Instant T)
  readings [] c = (c, [])
  readings ((w, now, count) ∷ rs) c =
      let (c', i) = mono_now zero_time w now count c in
      let (last, is) = readings rs c' in (last, i ∷ is)

  abbrev pub IsFrom : Counter → Instant T → Type 0
  IsFrom c i =
      ((c.available ≡ true) × (i.wall ≡ zero_time)) ⊎ ((c.available ≡ false) × (i.qpc ≡ pos 0))

  readings-settled : (rs : List (Reading T)) (c : Counter) → c.once ≡ true → (readings rs c).0 ≡ c
  unfolding readings mono_now
  readings-settled [] c h = refl
  readings-settled ((w, now, count) ∷ rs) c h =
      rw (readings, mono_now, settled w c h) (readings-settled rs c h)

  mono_now-IsFrom :
      (w : Answers) (now : T) (count : ℤ) (c : Counter)
      → IsFrom (mono_now zero_time w now count c).0 (mono_now zero_time w now count c).1
  unfolding mono_now
  mono_now-IsFrom w now count c = elim (Bool-cases (init_once w c).available) [
    | inl there ↦ rw there (inl (refl, refl))
    | inr missing ↦ rw missing (inr (refl, refl))
  ]

  All-IsFrom :
      (rs : List (Reading T)) (c : Counter) → c.once ≡ true → All (IsFrom c) (readings rs c).1
  unfolding readings mono_now
  All-IsFrom [] c h = tt
  All-IsFrom ((w, now, count) ∷ rs) c h =
      let same : (mono_now zero_time w now count c).0 ≡ c = settled w c h in
      (
        subst (λ x. IsFrom x (mono_now zero_time w now count c).1) same
            (mono_now-IsFrom w now count c),
        subst (λ x. All (IsFrom c) (readings rs x).1) (sym same) (All-IsFrom rs c h),
      )

  readings-IsTimed :
      (rs : List (Reading T)) (c : Counter)
      → All (λ r. IsWord r.0) rs
      → IsTimed c
      → IsTimed (readings rs c).0
  unfolding readings mono_now
  readings-IsTimed [] c words h = h
  readings-IsTimed ((w, now, count) ∷ rs) c words h =
      readings-IsTimed rs (init_once w c) words.1 (init_once-IsTimed w c words.0 h)

  -- All readings of a process, from the first call of monoNow, are of one clock: of the performance counter if
  -- it is available once they are taken, or else of package time.
  pub readings-IsFrom :
      (rs : List (Reading T)) → All (IsFrom (readings rs unset).0) (readings rs unset).1
  unfolding readings mono_now
  readings-IsFrom [] = tt
  readings-IsFrom ((w, now, count) ∷ rs) =
      let c = init_once w unset in
      let same : (readings rs c).0 ≡ c = readings-settled rs c (init_once-once w unset) in
      subst (λ x. All (IsFrom x) ((mono_now zero_time w now count unset).1 ∷ (readings rs c).1))
        (sym same) (mono_now-IsFrom w now count unset, All-IsFrom rs c (init_once-once w unset))

  -- Where the performance counter is available, the difference of two counts, the later one first, is the number
  -- of nanoseconds of their distance at the counter's frequency, rounded down, and Div64 does not panic; given
  -- counts and a frequency of 63 bits and a distance below 292 years.
  pub sub-IsRounded :
      (time_sub : T → T → ℤ) (rs : List (Reading T)) (a b : Instant T)
      → All (λ r. IsWord r.0) rs
      → (readings rs unset).0.available ≡ true
      → pos 0 ≤ℤ b.qpc
      → b.qpc ≤ℤ a.qpc
      → a.qpc <ℤ pos (2 ^ 63)
      → pos_part (a.qpc -ℤ b.qpc) * 10 ^ 9 < 2 ^ 63 * pos_part (readings rs unset).0.frequency
      → (d : ℕ) × (sub time_sub (readings rs unset).0 a b ≡ some (pos d))
        × IsRounded (pos_part (readings rs unset).0.frequency) (pos_part (a.qpc -ℤ b.qpc)) d
  unfolding sub
  sub-IsRounded time_sub rs a b words there start forward word short =
      let c = (readings rs unset).0 in
      let timed : IsTimed c = readings-IsTimed rs unset words (inl refl) in
      elim timed [
        | inl missing ↦ absurd (ground arith)
        | inr (some_hz, hz_word) ↦
            let (fits, later, word_apart) = apart_bounds a.qpc b.qpc start forward word in
            let apart : sub64 a.qpc b.qpc ≡ a.qpc -ℤ b.qpc = sub64-eq a.qpc b.qpc fits in
            let (d, counted, rounded) =
              count_duration-IsRounded c.frequency (a.qpc -ℤ b.qpc) some_hz hz_word later word_apart
                short in
            (d, rw (there, apart) counted, rounded)
      ]
