-- ===== src/Float.antt =====
-- Floating point. The program computes goodput, tolerances and budgets in float64; the type and its
-- operations are a parameter, an instance argument of the definitions, so that every definition
-- keeps the source's order of operations. Laws that a theorem needs are its hypotheses.
pub mod Micro
use netquality.Prelude.{ℕ, ◌^◌, ◌≡◌, Bool, true, not, ◌⊎◌, ℤ, pos, quot, rem}

pub record Float (F : Type 0) : Type 0 where
  -- A decimal literal: `lit 25 2` is 0.25.
  pub lit : ℕ → ℕ → F
  -- math.Inf(1)
  pub inf : F
  -- float64(n) of an integer, and the conversion back, which truncates toward zero.
  pub of_int : ℤ → F
  pub to_int : F → ℤ
  pub add : F → F → F
  pub sub : F → F → F
  pub mul : F → F → F
  pub div : F → F → F
  pub neg : F → F
  pub sqrt : F → F
  pub abs : F → F
  pub ceil : F → F
  -- The built-in `min` and `max`, which math.Min and math.Max agree with.
  pub fmin : F → F → F
  pub fmax : F → F → F
  pub lt : F → F → Bool
  pub le : F → F → Bool
  pub eq : F → F → Bool

abbrev pub nought : {F : Type 0} ⦃d : Float F⦄ → F
nought ⦃d⦄ = d.lit 0 0

-- time.Duration.Seconds: whole seconds, plus the rest over 1e9.
unfoldable pub seconds : {F : Type 0} ⦃d : Float F⦄ → ℤ → F
unfolding quot rem
seconds ⦃d⦄ t =
    d.add (d.of_int (quot t (10 ^ 9))) (d.div (d.of_int (rem t (10 ^ 9))) (d.of_int (pos (10 ^ 9))))
