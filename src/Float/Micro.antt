-- ===== src/Float/Micro.antt =====
-- A concrete arithmetic at which the definitions run: millionths, held in an integer. It is what
-- the tests and the witnesses put in for float64.
use netquality.Prelude.{
  ℕ, zero, suc, ◌+◌, ◌*◌, ◌/◌, ◌^◌, ◌-◌, ◌≡◌, refl, ℤ, pos, negsuc, pos_part, neg_part, ◌*ℤ◌, ◌+ℤ◌,
  ◌-ℤ◌, sub_ℕ, quot, leb, ltb_ℤ, leb_ℤ, eqb_ℤ, if◌then◌else◌, ◌==◌,
}
use netquality.Float.{Float, seconds}

abbrev pub Micro : Type 0
Micro = ℤ

abbrev micro : ℕ
micro = 10 ^ 6

-- a / b in millionths, and 0 where b is 0
unfoldable pub divide : ℤ → ℤ → ℤ
unfolding ◌*ℤ◌ quot
divide a (pos n) = if n == 0 then pos 0 else quot (a *ℤ pos micro) n
divide a (negsuc n) = quot (a *ℤ negsuc (micro - 1)) (suc n)

-- Integer square root, two bits a round.
unfoldable pub isqrt : ℕ → ℕ → ℕ
isqrt zero n = 0
isqrt (suc fuel) n =
    let r = 2 * isqrt fuel (n / 4) in
    let root = if leb ((r + 1) * (r + 1)) n then r + 1 else r in if n == 0 then 0 else root

unfoldable pub round_up : ℤ → ℤ
round_up (pos n) = pos ((n + (micro - 1)) / micro * micro)
round_up (negsuc n) = sub_ℕ 0 (suc n / micro * micro)

instance abbrev pub micro_float : Float Micro
micro_float = record {
  lit = λ m k. pos (m * micro / 10 ^ k);
  inf = pos (10 ^ 30);
  of_int = λ n. n *ℤ pos micro;
  to_int = λ x. quot x micro;
  add = ◌+ℤ◌;
  sub = ◌-ℤ◌;
  mul = λ a b. quot (a *ℤ b) micro;
  div = divide;
  neg = λ a. pos 0 -ℤ a;
  sqrt = λ a. pos (isqrt 64 (pos_part a * micro));
  abs = λ a. pos (pos_part a + neg_part a);
  ceil = round_up;
  fmin = λ a b. if leb_ℤ a b then a else b;
  fmax = λ a b. if leb_ℤ a b then b else a;
  lt = ltb_ℤ;
  le = leb_ℤ;
  eq = eqb_ℤ;
}

-- 2.5 seconds
two_and_a_half : seconds {F = Micro} (pos 2_500_000_000) ≡ pos 2_500_000
unfolding seconds divide ◌+ℤ◌
two_and_a_half = refl
