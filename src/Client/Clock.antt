-- ===== src/Client/Clock.antt =====
-- The clock that probes are timed with on Windows: clock_windows.go.
--
-- What the operating system answers is an argument of each call, and so are the times of package time, with
-- their zero and their difference. Div64 panics where the quotient needs more than 64 bits: none.
pub mod Exact
use netquality.Prelude.{
  ℕ, ◌+◌, ◌-◌, ◌*◌, ◌/◌, ◌%◌, ◌^◌, ◌≤◌, ◌<◌, ◌≡◌, refl, Bool, true, false, not, ◌&&◌, ◌||◌, List,
  [], ◌∷◌, Option, none, some, ℤ, pos, negsuc, ◌≤ℤ◌, ◌<ℤ◌, ltb_ℤ, eqb_ℤ, leb, sub64, wrap, arith,
  if◌then◌else◌, All, pos_part, neg_part,
}

-- The variable qpc.
pub record Counter : Type 0 where
  pub once : Bool
  pub frequency : ℤ
  pub available : Bool

abbrev pub unset : Counter
unset = record { once = false; frequency = pos 0; available = false }

-- What the calls of qpcInit give: whether the procedures are found, the frequency where its call succeeds, and
-- whether the trial read does.
pub record Answers : Type 0 where
  pub found : Bool
  pub hz : Option ℤ
  pub trial : Bool

unfoldable pub qpc_init : Answers → Counter → Counter
qpc_init w c = if not w.found then c else elim w.hz [
  | none ↦ c
  | some hz ↦
      if not (ltb_ℤ (pos 0) hz) || not w.trial
      then c
      else record c { frequency = hz; available = true }
]

-- qpc.once.Do(qpcInit)
unfoldable pub init_once : Answers → Counter → Counter
init_once w c = if c.once then c else record (qpc_init w c) { once = true }

-- uint64 of an int64.
abbrev to_unsigned : ℤ → ℕ
to_unsigned (pos n) = n % 2 ^ 64
to_unsigned (negsuc n) = 2 ^ 64 - 1 - n % 2 ^ 64

-- bits.Mul64
abbrev mul_wide : ℕ → ℕ → ℕ × ℕ
mul_wide x y = (x * y / 2 ^ 64, x * y % 2 ^ 64)

-- bits.Div64, its quotient.
abbrev div_wide : ℕ → ℕ → ℕ → Option ℕ
div_wide hi lo y = if leb y hi then none else some ((hi * 2 ^ 64 + lo) / y)

-- The nanoseconds of a difference of counts.
unfoldable pub count_duration : ℤ → ℤ → Option ℤ
count_duration frequency delta =
    let (hi, lo) = mul_wide (to_unsigned delta) (10 ^ 9) in
    elim (div_wide hi lo (to_unsigned frequency)) [ none ↦ none | some quo ↦ some (wrap (pos quo)) ]

pub record Instant (T : Type 0) : Type 0 where
  pub qpc : ℤ
  pub wall : T

unfoldable mono_high_resolution : Answers → Counter → Counter × Bool
mono_high_resolution w c = let c' = init_once w c in (c', c'.available)

-- monoNow; `now` is time.Now, and `count` what the performance counter reads.
unfoldable pub mono_now : {T : Type 0} → T → Answers → T → ℤ → Counter → Counter × Instant T
mono_now zero_time w now count c =
    let c' = init_once w c in
    (
      c',
      if c'.available
          then record { qpc = count; wall = zero_time }
          else record { qpc = pos 0; wall = now },
    )

-- a.sub(b)
unfoldable pub sub : {T : Type 0} → (T → T → ℤ) → Counter → Instant T → Instant T → Option ℤ
sub time_sub c a b =
    if c.available
    then count_duration c.frequency (sub64 a.qpc b.qpc)
    else some (time_sub a.wall b.wall)

unfoldable is_zero : {T : Type 0} → (T → Bool) → Instant T → Bool
is_zero is_zero_time a = eqb_ℤ a.qpc (pos 0) && is_zero_time a.wall
