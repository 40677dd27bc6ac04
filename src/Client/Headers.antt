-- ===== src/Client/Headers.antt =====
-- The headers of every request of a test: `setProbeHeaders` of probe.go.
--
-- http.CanonicalHeaderKey is an argument. The extra headers are a map, which is iterated in any order.
use Prim.Native.String.{String}
use text.Mathlib.Text.{◌==◌ as str_eq}
use text.Mathlib.TextEquality.{eq_iff}
use netquality.Prelude.{
  ◌≡◌, refl, ◌∙◌, false, List, [], ◌∷◌, Member, first, later, All, if◌then◌else◌,
}

-- http.Header, with no values for what is not set.
abbrev Header : Type 0
Header = String → List String

-- Header.Set, and an assignment.
unfoldable pub put : String → List String → Header → Header
put k vs h = λ j. if str_eq k j then vs else h j

abbrev user_agent : String
user_agent = "netquality-go/1 (+https://github.com/korya/netquality)"

-- The headers of the code's own.
unfoldable put_own : Header → Header
put_own h =
    put "User-Agent" (user_agent ∷ [])
      (put "Cache-Control" ("no-store" ∷ []) (put "Accept-Encoding" ("identity" ∷ []) h))

module _ (canonical : String → String) where
  unfoldable put_extra : List (String × List String) → Header → Header
  put_extra [] h = h
  put_extra ((k, vs) ∷ rest) h = put_extra rest (put (canonical k) vs h)

  unfoldable set_probe_headers : List (String × List String) → Header → Header
  set_probe_headers extra h = put_extra extra (put_own h)

  -- No extra header has the key.
  abbrev IsOther : String → List (String × List String) → Type 0
  IsOther key extra = All (λ e. str_eq (canonical e.0) key ≡ false) extra

  -- The keys differ from each other.
  abbrev IsDistinct : List (String × List String) → Type 0
  IsDistinct [] = Unit
  IsDistinct ((k, vs) ∷ rest) = IsOther (canonical k) rest × IsDistinct rest

  put_extra-other :
      (key : String) (extra : List (String × List String)) (h : Header)
      → IsOther key extra
      → put_extra extra h key ≡ h key
  unfolding put_extra put
  put_extra-other key [] h other = refl
  put_extra-other key ((k, vs) ∷ rest) h (o, other) =
      put_extra-other key rest (put (canonical k) vs h) other ∙ rw o refl

  put_extra-member :
      (k : String) (vs : List String) (extra : List (String × List String)) (h : Header)
      → IsDistinct extra
      → Member (k, vs) extra
      → put_extra extra h (canonical k) ≡ vs
  unfolding put_extra put
  put_extra-member k vs [] h distinct m = elim m [ ]
  put_extra-member k vs (_ ∷ rest) h (other, distinct) first =
      put_extra-other (canonical k) rest (put (canonical k) vs h) other
      ∙ rw ((eq_iff (canonical k) (canonical k)).1 refl) refl
  put_extra-member k vs ((j, ws) ∷ rest) h (other, distinct) (later m) =
      put_extra-member k vs rest (put (canonical j) ws h) distinct m

  -- A request carries each of the caller's headers as given, whatever else it had under that name, and where the
  -- caller gives none of its name, the code's own value; for headers of distinct canonical names.
  set_probe_headers-wins :
      (extra : List (String × List String)) (h : Header)
      → IsDistinct extra
      → ((k : String) (vs : List String)
          → Member (k, vs) extra
          → set_probe_headers extra h (canonical k) ≡ vs)
        × ((key : String) → IsOther key extra → set_probe_headers extra h key ≡ put_own h key)
  unfolding set_probe_headers
  set_probe_headers-wins extra h distinct = (
    (λ k vs m. put_extra-member k vs extra (put_own h) distinct m),
    (λ key other. put_extra-other key extra (put_own h) other),
  )
