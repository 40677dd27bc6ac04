-- ===== src/Server/Sign/Values.antt =====
-- A query's values, net/url's Values, as an association list: what SignURL of server/sign.go uses of them.
use Prim.Native.String.{String}
use text.Mathlib.Text.{◌==◌ as str_eq}
use text.Mathlib.TextEquality.{eq_iff}
use netquality.Prelude.{
  ◌≡◌, refl, ◌∙◌, ap, inl, inr, true, false, List, [], ◌∷◌, if◌then◌else◌, Bool-cases,
}

abbrev pub Values : Type 0
Values = List (String × List String)

unfoldable pub first_value : List String → String
first_value [] = ""
first_value (v ∷ vs) = v

-- Values.Get
unfoldable pub get : String → Values → String
get k [] = ""
get k ((j, vs) ∷ m) = if str_eq j k then first_value vs else get k m

-- Values.Del
unfoldable pub del : String → Values → Values
del k [] = []
del k ((j, vs) ∷ m) = let rest = del k m in if str_eq j k then rest else (j, vs) ∷ rest

-- Values.Set
unfoldable pub set : String → String → Values → Values
set k v m = (k, v ∷ []) ∷ del k m

str_eq_refl : (s : String) → str_eq s s ≡ true
str_eq_refl s = (eq_iff s s).1 refl

pub get-set : (k v : String) (m : Values) → get k (set k v m) ≡ v
unfolding get set first_value
get-set k v m = rw (str_eq_refl k)

pub get-del : (k : String) (m : Values) → get k (del k m) ≡ ""
unfolding get del
get-del k [] = refl
get-del k ((j, vs) ∷ m) = elim (Bool-cases (str_eq j k)) [
  | inl same ↦ rw (same, get-del k m)
  | inr other ↦ rw (other, other, get-del k m)
]

pub get-del_other : (k j : String) (m : Values) → str_eq k j ≡ false → get j (del k m) ≡ get j m
unfolding get del
get-del_other k j [] h = refl
get-del_other k j ((i, vs) ∷ m) h = elim (Bool-cases (str_eq i k)) [
  | inl same ↦
      let here : i ≡ k = (eq_iff i k).0 same in
      let away : str_eq i j ≡ false = ap (λ x. str_eq x j) here ∙ h in
      rw (same, away, get-del_other k j m h)
  | inr other ↦ rw (other, get-del_other k j m h)
]

pub get-set_other : (k j v : String) (m : Values) → str_eq k j ≡ false → get j (set k v m) ≡ get j m
unfolding set get
get-set_other k j v m h = rw (h, get-del_other k j m h)
