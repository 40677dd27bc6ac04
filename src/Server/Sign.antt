-- ===== src/Server/Sign.antt =====
-- Signed URLs: `signature`, `verifySignature`, `decodeSig` and `checkKey` of server/sign.go.
--
-- The query's parser, strconv, base64 and HMAC-SHA256 (`mac`) are arguments. A string's length in bytes is
-- an argument too. A time is time.Time's: seconds since the year 1, a 64-bit word, and nanoseconds.
pub mod Values
pub mod Issue
pub mod RoundTrip
use Prim.Native.String.{String, ◌++◌ as str_append}
use text.Mathlib.Text.{◌==◌ as str_eq}
use netquality.Prelude.{
  ℕ, ◌+◌, ◌*◌, ◌^◌, ◌≤◌, ◌≡◌, refl, ◌∙◌, inl, inr, Bool, true, false, not, ◌&&◌, ◌||◌, List, [],
  ◌∷◌, Option, none, some, ℤ, pos, negsuc, ◌≤ℤ◌, ◌<ℤ◌, ◌+ℤ◌, ltb, ltb_ℤ, eqb_ℤ, ◌==◌, add64, wrap,
  Fits, arith, length, if◌then◌else◌, Bool-cases, Option-cases, Member, first, later,
}

pub record Time : Type 0 where
  pub sec : ℤ
  pub nsec : ℕ

-- The seconds from the year 1 to 1970.
abbrev unix_to_internal : ℤ
unix_to_internal = pos 62_135_596_800

-- time.Unix(sec, 0)
unfoldable pub unix : ℤ → Time
unix sec = record { sec = add64 sec unix_to_internal; nsec = 0 }

-- Time.Add of whole seconds.
unfoldable pub add_seconds : Time → ℤ → Time
add_seconds t n = record { sec = add64 t.sec n; nsec = t.nsec }

-- Time.After
unfoldable pub after : Time → Time → Bool
after t u = ltb_ℤ u.sec t.sec || eqb_ℤ u.sec t.sec && ltb u.nsec t.nsec

abbrev signature_leeway : ℤ
signature_leeway = pos 30

abbrev max_signature_ttl : ℤ
max_signature_ttl = pos (24 * 3600)

abbrev pub max_subject_len : ℕ
max_subject_len = 256

-- The validity of an expiry: not past, and not too far ahead.
unfoldable pub in_window : ℤ → Time → Bool
in_window exp now =
    let exp_at = unix exp in
    not (
      after now (add_seconds exp_at signature_leeway)
      || after exp_at (add_seconds now (pos (24 * 3600 + 30))))

abbrev pub bytes_eq : List ℕ → List ℕ → Bool
bytes_eq [] [] = true
bytes_eq [] (y ∷ ys) = false
bytes_eq (x ∷ xs) [] = false
bytes_eq (x ∷ xs) (y ∷ ys) = (x == y) && bytes_eq xs ys

-- The first of the encodings that gives a digest's 32 bytes.
unfoldable pub decode_sig : List (String → Option (List ℕ)) → String → Option (List ℕ)
decode_sig [] s = none
decode_sig (decode ∷ encodings) s =
    let rest = decode_sig encodings s in
    elim (decode s) [ none ↦ rest | some b ↦ if length b == 32 then some b else rest ]

-- checkKey: a key of 16 bytes or more.
unfoldable pub check_key : List ℕ → Option (List ℕ)
check_key k = if ltb (length k) 16 then none else some k

-- The request: its path, and the values of its query, "" where there is none.
pub record SignedRequest : Type 0 where
  pub path : String
  pub exp : String
  pub sig : String
  pub sub : String

unix-lo :
    (exp : ℤ) (now : ℤ)
    → Fits exp
    → pos 0 ≤ℤ now
    → now <ℤ pos (2 ^ 61)
    → ltb_ℤ (add64 (add64 exp unix_to_internal) (pos 30)) now ≡ false
    → now ≤ℤ exp +ℤ unix_to_internal +ℤ pos 30
unfolding add64 wrap ◌+ℤ◌
unix-lo (pos n) (pos m) fits lo hi h = ground arith
unix-lo (negsuc n) (pos m) fits lo hi h = ground arith
unix-lo exp (negsuc m) fits lo hi h = ground arith

unix-hi :
    (exp : ℤ) (now : ℤ)
    → Fits exp
    → pos 0 ≤ℤ now
    → now <ℤ pos (2 ^ 61)
    → ltb_ℤ (add64 (add64 exp unix_to_internal) (pos 30)) now ≡ false
    → ltb_ℤ (add64 now (pos 86430)) (add64 exp unix_to_internal) ≡ false
    → exp +ℤ unix_to_internal ≤ℤ now +ℤ pos 86430
unfolding add64 wrap ◌+ℤ◌
unix-hi (pos n) (pos m) fits lo hi h k = ground arith
unix-hi (negsuc n) (pos m) fits lo hi h k = ground arith
unix-hi exp (negsuc m) fits lo hi h k = ground arith

-- An expiry in the window, as the integers see it: at most the leeway behind the clock, and at most
-- the longest validity and the leeway ahead.
abbrev pub IsNear : ℤ → Time → Type 0
IsNear exp now =
    (now.sec ≤ℤ exp +ℤ unix_to_internal +ℤ pos 30)
    × (exp +ℤ unix_to_internal ≤ℤ now.sec +ℤ pos 86430)

in_window-IsNear :
    (exp : ℤ) (now : Time)
    → Fits exp
    → pos 0 ≤ℤ now.sec
    → now.sec <ℤ pos (2 ^ 61)
    → in_window exp now ≡ true
    → IsNear exp now
unfolding in_window after unix add_seconds
in_window-IsNear exp now fits lo hi h =
    let late : ltb_ℤ (add64 (add64 exp unix_to_internal) (pos 30)) now.sec ≡ false = ground arith in
    let early : ltb_ℤ (add64 now.sec (pos 86430)) (add64 exp unix_to_internal) ≡ false =
      ground arith in
    (unix-lo exp now.sec fits lo hi late, unix-hi exp now.sec fits lo hi late early)

bytes_eq-eq : (xs ys : List ℕ) → bytes_eq xs ys ≡ true → xs ≡ ys
bytes_eq-eq [] [] h = refl
bytes_eq-eq [] (y ∷ ys) h = ground arith
bytes_eq-eq (x ∷ xs) [] h = ground arith
bytes_eq-eq (x ∷ xs) (y ∷ ys) h = ground (arith, bytes_eq-eq xs ys)

-- The signature of a path, an expiry and a subject: the MAC of the three, a line each.
unfoldable pub signature :
    (ℤ → String) → (List ℕ → String → List ℕ) → List ℕ → String → ℤ → String → List ℕ
signature format_int mac key path exp sub =
    mac key (str_append path (str_append "\n" (str_append (format_int exp) (str_append "\n" sub))))

module _ (parse_int : String → Option ℤ) (byte_length : String → ℕ)
    (encodings : List (String → Option (List ℕ))) (format_int : ℤ → String)
    (mac : List ℕ → String → List ℕ) where
  -- The keys in order; any may match.
  unfoldable pub any_key : List (List ℕ) → List ℕ → String → ℤ → String → Bool
  any_key [] sig path exp sub = false
  any_key (key ∷ keys) sig path exp sub =
      bytes_eq sig (signature format_int mac key path exp sub) || any_key keys sig path exp sub

  -- The tail of verifySignature, once exp is a number.
  unfoldable pub verify_parsed : SignedRequest → List (List ℕ) → Time → ℤ → Option String
  verify_parsed r keys now exp =
      if in_window exp now && not (ltb max_subject_len (byte_length r.sub))
      then elim (decode_sig encodings r.sig) [
        | none ↦ none
        | some sig ↦ if any_key keys sig r.path exp r.sub then some r.sub else none
      ]
      else none

  unfoldable pub verify_signature : SignedRequest → List (List ℕ) → Time → Option String
  verify_signature r keys now =
      if length keys == 0 || (str_eq r.exp "" || str_eq r.sig "")
      then none
      else elim (parse_int r.exp) [ none ↦ none | some exp ↦ verify_parsed r keys now exp ]

  any_key-found :
      (keys : List (List ℕ)) (sig : List ℕ) (path : String) (exp : ℤ) (sub : String)
      → any_key keys sig path exp sub ≡ true
      → (key : List ℕ) × Member key keys × (sig ≡ signature format_int mac key path exp sub)
  unfolding any_key
  any_key-found [] sig path exp sub h = ground arith
  any_key-found (key ∷ keys) sig path exp sub h =
      elim (Bool-cases (bytes_eq sig (signature format_int mac key path exp sub))) [
        | inl same ↦ (key, first, bytes_eq-eq sig (signature format_int mac key path exp sub) same)
        | inr other ↦
            let (k, m, e) = any_key-found keys sig path exp sub (ground arith) in (k, later m, e)
      ]

  -- A signature that is accepted is one of the server's own keys' over the request's path, expiry
  -- and subject, the expiry is near the clock in the integers, and the subject is the request's and
  -- not too long: given that the parser of numbers yields 64-bit ones, on a clock within its range.
  pub verify_signature_sound :
      (r : SignedRequest) (keys : List (List ℕ)) (now : Time) (sub : String)
      → ((s : String) (n : ℤ) → parse_int s ≡ some n → Fits n)
      → pos 0 ≤ℤ now.sec
      → now.sec <ℤ pos (2 ^ 61)
      → verify_signature r keys now ≡ some sub
      → (sub ≡ r.sub)
        × (byte_length r.sub ≤ 256)
        × ((exp : ℤ) × (parse_int r.exp ≡ some exp)
            × IsNear exp now
            × ((key : List ℕ) × Member key keys
                × (decode_sig encodings r.sig
                    ≡ some (signature format_int mac key r.path exp sub))))
  unfolding verify_signature verify_parsed
  verify_signature_sound r keys now sub fits lo hi h = elim (Option-cases (parse_int r.exp)) [
    | inl bad ↦ ground arith
    | inr (exp, parsed) ↦ elim (Option-cases (decode_sig encodings r.sig)) [
      | inl bad ↦ ground arith
      | inr (sig, decoded) ↦
          let same : sub ≡ r.sub = ground arith in
          let short : byte_length r.sub ≤ 256 = ground arith in
          let timely : in_window exp now ≡ true = ground arith in
          let matched : any_key keys sig r.path exp r.sub ≡ true = ground arith in
          let (key, m, e) = any_key-found keys sig r.path exp r.sub matched in
          (
            same,
            short,
            (
              exp,
              parsed,
              in_window-IsNear exp now (fits r.exp exp parsed) lo hi timely,
              (key, m, decoded ∙ cc),
            ),
          )
    ]
  ]
