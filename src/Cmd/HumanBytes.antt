-- ===== src/Cmd/HumanBytes.antt =====
-- `humanBytes` of cmd/nq/main.go: how a count of bytes is printed.
use netquality.Prelude.{
  ℕ, zero, suc, ◌+◌, ◌*◌, ◌/◌, ◌^◌, ◌≤◌, ◌<◌, ◌≡◌, refl, ◌⊎◌, inl, inr, true, false, ℤ, pos, negsuc,
  ltb, leb, mul64, wrap, ◌*ℤ◌, arith, if◌then◌else◌, Bool-cases,
}

-- The divisor and the place of the unit's letter in "kMGTPE".
pub record Scale : Type 0 where
  pub div : ℤ
  pub exp : ℕ

-- The loop of humanBytes.
unfoldable pub scale_loop : ℕ → ℕ → Scale → Scale
scale_loop zero m s = s
scale_loop (suc fuel) m s =
    let rest =
      scale_loop fuel (m / 1000) (record { div = mul64 s.div (pos 1000); exp = s.exp + 1 }) in
    if leb 1000 m then rest else s

-- How a count of bytes is printed: as it is, or divided, with a letter.
pub data Human : Type 0 where
  bytes : ℤ → Human
  scaled : ℕ → Scale → Human

unfoldable pub human_bytes : ℤ → Human
human_bytes (negsuc n) = bytes (negsuc n)
human_bytes (pos n) =
    let s = scale_loop 7 (n / 1000) (record { div = pos 1000; exp = 0 }) in
    if ltb n 1000 then bytes (pos n) else scaled n s

split : (n m : ℕ) → (n < m) ⊎ (m ≤ n)
split n m = elim (Bool-cases (ltb n m)) [
  | inl lo ↦ inl (ground arith)
  | inr hi ↦ inr (ground arith)
]

scale_stop : (fuel m : ℕ) (s : Scale) → m < 1000 → scale_loop fuel m s ≡ s
unfolding scale_loop
scale_stop zero m s h = refl
scale_stop (suc fuel) m s h = ground arith

scale_step :
    (fuel m div exp : ℕ)
    → 1000 ≤ m
    → div ≤ 10 ^ 15
    → scale_loop (suc fuel) m (record { div = pos div; exp = exp })
      ≡ scale_loop fuel (m / 1000) (record { div = pos (div * 1000); exp = exp + 1 })
unfolding scale_loop mul64 ◌*ℤ◌ wrap
scale_step fuel m div exp h small =
    let same : mul64 (pos div) (pos 1000) ≡ pos (div * 1000) = ground arith in
    let yes_more : leb 1000 m ≡ true = ground arith in rw (yes_more, same) refl

-- What the printed quotient and its letter need.
abbrev IsScaled : ℕ → Scale → Type 0
IsScaled n s =
    (s.exp ≤ 5)
    × (s.div ≡ pos (1000 ^ (s.exp + 1)))
    × (1000 ^ (s.exp + 1) ≤ n)
    × (n < 1000 ^ (s.exp + 2))

abbrev pub IsHuman : ℕ → Human → Type 0
IsHuman n (bytes m) = (m ≡ pos n) × (n < 1000)
IsHuman n (scaled m s) = (m ≡ n) × IsScaled n s

divided_5 :
    (n m : ℕ)
    → 10 ^ 18 * m ≤ n
    → n < 10 ^ 18 * (m + 1)
    → 1 ≤ m
    → n < 2 ^ 63
    → IsScaled n (scale_loop 2 m (record { div = pos (10 ^ 18); exp = 5 }))
divided_5 n m lo hi some_unit fits =
    let low : m < 1000 = omega arith in
    rw (scale_stop 2 m (record { div = pos (10 ^ 18); exp = 5 }) low)
      (omega arith, refl, omega arith, omega arith)

divided_4 :
    (n m : ℕ)
    → 10 ^ 15 * m ≤ n
    → n < 10 ^ 15 * (m + 1)
    → 1 ≤ m
    → n < 2 ^ 63
    → IsScaled n (scale_loop 3 m (record { div = pos (10 ^ 15); exp = 4 }))
divided_4 n m lo hi some_unit fits = elim (split m 1000) [
  | inl low ↦
      rw (scale_stop 3 m (record { div = pos (10 ^ 15); exp = 4 }) low)
        (omega arith, refl, omega arith, omega arith)
  | inr more ↦
      rw (scale_step 2 m (10 ^ 15) 4 more (omega arith))
        (divided_5 n (m / 1000) (omega arith) (omega arith) (omega arith) fits)
]

divided_3 :
    (n m : ℕ)
    → 10 ^ 12 * m ≤ n
    → n < 10 ^ 12 * (m + 1)
    → 1 ≤ m
    → n < 2 ^ 63
    → IsScaled n (scale_loop 4 m (record { div = pos (10 ^ 12); exp = 3 }))
divided_3 n m lo hi some_unit fits = elim (split m 1000) [
  | inl low ↦
      rw (scale_stop 4 m (record { div = pos (10 ^ 12); exp = 3 }) low)
        (omega arith, refl, omega arith, omega arith)
  | inr more ↦
      rw (scale_step 3 m (10 ^ 12) 3 more (omega arith))
        (divided_4 n (m / 1000) (omega arith) (omega arith) (omega arith) fits)
]

divided_2 :
    (n m : ℕ)
    → 10 ^ 9 * m ≤ n
    → n < 10 ^ 9 * (m + 1)
    → 1 ≤ m
    → n < 2 ^ 63
    → IsScaled n (scale_loop 5 m (record { div = pos (10 ^ 9); exp = 2 }))
divided_2 n m lo hi some_unit fits = elim (split m 1000) [
  | inl low ↦
      rw (scale_stop 5 m (record { div = pos (10 ^ 9); exp = 2 }) low)
        (omega arith, refl, omega arith, omega arith)
  | inr more ↦
      rw (scale_step 4 m (10 ^ 9) 2 more (omega arith))
        (divided_3 n (m / 1000) (omega arith) (omega arith) (omega arith) fits)
]

divided_1 :
    (n m : ℕ)
    → 10 ^ 6 * m ≤ n
    → n < 10 ^ 6 * (m + 1)
    → 1 ≤ m
    → n < 2 ^ 63
    → IsScaled n (scale_loop 6 m (record { div = pos (10 ^ 6); exp = 1 }))
divided_1 n m lo hi some_unit fits = elim (split m 1000) [
  | inl low ↦
      rw (scale_stop 6 m (record { div = pos (10 ^ 6); exp = 1 }) low)
        (omega arith, refl, omega arith, omega arith)
  | inr more ↦
      rw (scale_step 5 m (10 ^ 6) 1 more (omega arith))
        (divided_2 n (m / 1000) (omega arith) (omega arith) (omega arith) fits)
]

divided_0 :
    (n m : ℕ)
    → 10 ^ 3 * m ≤ n
    → n < 10 ^ 3 * (m + 1)
    → 1 ≤ m
    → n < 2 ^ 63
    → IsScaled n (scale_loop 7 m (record { div = pos (10 ^ 3); exp = 0 }))
divided_0 n m lo hi some_unit fits = elim (split m 1000) [
  | inl low ↦
      rw (scale_stop 7 m (record { div = pos (10 ^ 3); exp = 0 }) low)
        (omega arith, refl, omega arith, omega arith)
  | inr more ↦
      rw (scale_step 6 m (10 ^ 3) 0 more (omega arith))
        (divided_1 n (m / 1000) (omega arith) (omega arith) (omega arith) fits)
]

-- humanBytes of a count below 2^63 prints it as it is below 1000, and else divides it by a power of 1000 that leaves
-- at least 1 and less than 1000, whose letter "kMGTPE" has: the index is never out of range.
pub human_bytes-IsHuman : (n : ℕ) → n < 2 ^ 63 → IsHuman n (human_bytes (pos n))
unfolding human_bytes
human_bytes-IsHuman n fits = elim (split n 1000) [
  | inl low ↦ let plain : ltb n 1000 ≡ true = ground arith in rw plain (refl, low)
  | inr more ↦
      let divided : ltb n 1000 ≡ false = ground arith in
      rw divided (refl, divided_0 n (n / 1000) (omega arith) (omega arith) (omega arith) fits)
]
