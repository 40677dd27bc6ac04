-- ===== src/Tests/IssueExamples.antt =====
-- The signed URLs' round trip at a toy key, URL and digest.
use Prim.Native.String.{String}
use text.Mathlib.Text.{◌==◌ as str_eq}
use netquality.Prelude.{
  first, later, ℕ, true, ◌+◌, ◌≡◌, subst, arith, refl, inr, List, [], ◌∷◌, Option, none, some, ℤ,
  pos, length, add64, if◌then◌else◌,
}
use netquality.Server.Sign.{Time, verify_signature, signature}
use netquality.Server.Sign.Values.{Values}
use netquality.Server.Sign.Issue.{Url, signed_query, request_of, unix_seconds, sign_url}
use netquality.Server.Sign.RoundTrip.{sign_url-accepted, IsReadBack}

-- The digest has 32 equal bytes, as many as the key has.
abbrev bytes32 : ℕ → List ℕ
bytes32 b =
    b ∷ b ∷ b ∷ b ∷ b ∷ b ∷ b ∷ b ∷ b ∷ b ∷ b ∷ b ∷ b ∷ b ∷ b ∷ b ∷ b ∷ b ∷ b ∷ b ∷ b ∷ b ∷ b ∷ b
    ∷ b ∷ b ∷ b ∷ b ∷ b ∷ b ∷ b ∷ b ∷ []

abbrev toy_mac : List ℕ → String → List ℕ
toy_mac key message = bytes32 (length key)

abbrev format_year : ℤ → String
format_year n = "1700000000"

abbrev parse_year : String → Option ℤ
parse_year s = if str_eq s "1700000000" then some (pos 1_700_000_000) else none

abbrev encode : List ℕ → String
encode b = "AgIC"

abbrev decode : String → Option (List ℕ)
decode s = if str_eq s "" then some [] else some (bytes32 2)

abbrev other_key : List ℕ
other_key = 1 ∷ []

abbrev key : List ℕ
key = 5 ∷ 7 ∷ []

abbrev noon : Time
noon = record { sec = pos (62_135_596_800 + 1_699_999_000); nsec = 0 }

abbrev expiry : Time
expiry = record { sec = pos (62_135_596_800 + 1_700_000_000); nsec = 0 }

abbrev plain_url : Url ℕ
plain_url = record { path = "/nq/large"; query = ("bytes", "10" ∷ []) ∷ []; other = 0 }

abbrev signed_values : Values
signed_values =
    signed_query format_year encode plain_url.query (pos 1_700_000_000) "device" (bytes32 2)

abbrev signed_url : Url ℕ
signed_url = record { path = "/nq/large"; query = signed_values; other = 0 }

abbrev parse_url : String → Option (Url ℕ)
parse_url s = if str_eq s "/nq/large?bytes=10" then some plain_url else some signed_url

abbrev print_url : Url ℕ → String
print_url u = "/nq/large?bytes=10&exp=1700000000&sig=AgIC&sub=device"

issued :
    sign_url parse_url print_url format_year encode
      (λ s. 6)
      toy_mac
      key
      "/nq/large?bytes=10"
      expiry
      "device"
    ≡ inr "/nq/large?bytes=10&exp=1700000000&sig=AgIC&sub=device"
unfolding sign_url signature netquality.Server.Sign.Issue.sign_parsed
issued = refl

in_time : netquality.Server.Sign.in_window (unix_seconds expiry) noon ≡ true
unfolding netquality.Server.Sign.in_window unix_seconds add64 netquality.Prelude.wrap
    netquality.Server.Sign.after netquality.Server.Sign.add_seconds netquality.Server.Sign.unix
in_time = refl

year_back : parse_year (format_year (unix_seconds expiry)) ≡ some (unix_seconds expiry)
unfolding unix_seconds add64
year_back = refl

read_back :
    (u : Url ℕ)
    → parse_url "/nq/large?bytes=10" ≡ some u
    → IsReadBack parse_url print_url u (
        signed_query format_year encode u.query
          (unix_seconds expiry)
          "device"
          (signature format_year toy_mac key u.path (unix_seconds expiry) "device"))
unfolding unix_seconds add64 signature
read_back u h =
    let same : plain_url ≡ u = ground arith in
    subst
      (λ w. IsReadBack parse_url print_url w (
        signed_query format_year encode w.query (unix_seconds expiry) "device"
          (signature format_year toy_mac key w.path (unix_seconds expiry) "device")))
      same (signed_url, refl, refl, λ k. refl)

sign_url-accepted_example :
    (v : Url ℕ) × (parse_url "/nq/large?bytes=10&exp=1700000000&sig=AgIC&sub=device" ≡ some v)
    × (verify_signature parse_year
          (λ s. 6)
          (decode ∷ [])
          format_year
          toy_mac
          (request_of v)
          (other_key ∷ key ∷ [])
          noon
        ≡ some "device")
unfolding signature
sign_url-accepted_example =
    sign_url-accepted parse_url print_url format_year parse_year encode decode [] (λ s. 6) toy_mac
      (other_key ∷ key ∷ []) key noon expiry "/nq/large?bytes=10" "device"
      "/nq/large?bytes=10&exp=1700000000&sig=AgIC&sub=device" read_back year_back refl
      (λ path. refl) refl (λ path. refl) (later first) in_time issued
