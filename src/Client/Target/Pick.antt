-- ===== src/Client/Target/Pick.antt =====
-- The choice of a URL by its names: `pick` in parseServerConfig of target.go.
use Prim.Native.String.{String}
use text.Mathlib.Text.{◌==◌ as str_eq}
use text.Mathlib.TextEquality.{eq_iff}
use netquality.Prelude.{
  ◌≡◌, ◌≢◌, ◌↔◌, ◌⊎◌, inl, inr, Bool, true, not, List, [], ◌∷◌, Option, none, some, ℤ, pos, negsuc,
  eqb_ℤ, if◌then◌else◌, arith, refl, Bool-cases,
}
use netquality.Client.Target.Keys.{ConfigError, missing_url}
use netquality.Client.Target.Config.{find, or_else, pick, text_or_blank}

-- A URL that is not empty, under the first of two names, or under the second where the first has none.
abbrev pub IsPicked : String → String → List (String × String) → String → Type 0
IsPicked a b urls u =
    (u ≢ "")
    × ((text_or_blank (find a urls) ≡ u)
        ⊎ ((text_or_blank (find a urls) ≡ "") × (text_or_blank (find b urls) ≡ u)))

abbrev filled : String → Bool
filled s = not (str_eq s "")

pub eqb_ℤ-one : (v : ℤ) → eqb_ℤ v (pos 1) ≡ true → v ≡ pos 1
eqb_ℤ-one (pos n) h = ground arith
eqb_ℤ-one (negsuc n) h = ground arith

or_else-filled :
    (o : Option String) (rest : ConfigError ⊎ String)
    → or_else o rest ≡ (if filled (text_or_blank o) then inr (text_or_blank o) else rest)
unfolding or_else text_or_blank
or_else-filled none rest = refl
or_else-filled (some u) rest = refl

-- `pick` of two names, as a test of the two values.
pick_two :
    (a b : String) (urls : List (String × String))
    → pick (a ∷ b ∷ []) urls ≡ (
        if filled (text_or_blank (find a urls))
        then inr (text_or_blank (find a urls))
        else if filled (text_or_blank (find b urls))
        then inr (text_or_blank (find b urls))
        else inl missing_url)
unfolding pick
pick_two a b urls = rw (
  or_else-filled (find a urls) (or_else (find b urls) (inl missing_url)),
  or_else-filled (find b urls) (inl missing_url),
)

pub filled_iff : (s : String) → (filled s ≡ true) ↔ (s ≢ "")
filled_iff s = (
  (λ h e. ground (arith, (eq_iff s "").1 e)),
  (λ h. elim (Bool-cases (str_eq s "")) [
    | inl empty ↦ elim (h ((eq_iff s "").0 empty)) [ ]
    | inr full ↦ ground arith
  ]),
)

pub pick_iff :
    (a b : String) (urls : List (String × String)) (u : String)
    → (pick (a ∷ b ∷ []) urls ≡ inr u) ↔ IsPicked a b urls u
pick_iff a b urls u =
    let x = text_or_blank (find a urls) in
    let y = text_or_blank (find b urls) in
    (
      (λ h. ground (arith, pick_two a b urls, (eq_iff x "").0, (filled_iff x).0, (filled_iff y).0)),
      (λ h. ground (arith, pick_two a b urls, (eq_iff x "").1, (filled_iff x).1, (filled_iff y).1)),
    )
