-- ===== src/Server/Sign/Issue.antt =====
-- Issuing signed URLs: `SignURL`, `signature` and `ParseSigningKey` of server/sign.go.
--
-- The packages net/url, strconv, encoding, crypto/hmac and os are arguments.
use Prim.Native.String.{String}
use text.Mathlib.Text.{◌==◌ as str_eq}
use netquality.Prelude.{
  ℕ, ◌≡◌, ◌≤◌, inl, inr, ◌⊎◌, not, List, Option, none, some, ℤ, negsuc, ltb, add64, arith, length,
  if◌then◌else◌, ◌==◌,
}
use netquality.Server.Sign.{signature, Time, SignedRequest, max_subject_len, check_key}
use netquality.Server.Sign.Values.{Values, get, set, del}

-- A parsed URL: its decoded path, its query, and the rest of it.
pub record Url (R : Type 0) : Type 0 where
  pub path : String
  pub query : Values
  pub other : R

pub data SignError : Type 0 where
  empty_key : SignError
  long_subject : SignError
  bad_url : SignError
  no_path : SignError

-- Time.Unix
unfoldable pub unix_seconds : Time → ℤ
unix_seconds t = add64 t.sec (negsuc 62_135_596_799)

-- What the issued query says.
unfoldable pub signed_query :
    (ℤ → String) → (List ℕ → String) → Values → ℤ → String → List ℕ → Values
signed_query format_int encode q exp sub sig =
    let q_exp = set "exp" (format_int exp) q in
    let q_sub = if not (str_eq sub "") then set "sub" sub q_exp else del "sub" q_exp in
    set "sig" (encode sig) q_sub

-- The request that the client makes with a URL, as `verifySignature` reads it.
unfoldable pub request_of : {R : Type 0} → Url R → SignedRequest
request_of u = record {
  path = u.path;
  exp = get "exp" u.query;
  sig = get "sig" u.query;
  sub = get "sub" u.query;
}

module _ {R : Type 0} (parse_url : String → Option (Url R)) (print_url : Url R → String)
    (format_int : ℤ → String) (encode : List ℕ → String) (byte_length : String → ℕ)
    (mac : List ℕ → String → List ℕ) where
  unfoldable pub sign_parsed : List ℕ → Url R → ℤ → String → SignError ⊎ String
  sign_parsed key u exp sub =
      if str_eq u.path ""
      then inl no_path
      else inr (
          print_url (record {
            path = u.path;
            query =
                signed_query format_int encode u.query exp sub
                  (signature format_int mac key u.path exp sub);
            other = u.other;
          }))

  unfoldable pub sign_url : List ℕ → String → Time → String → SignError ⊎ String
  sign_url key raw exp sub =
      if length key == 0
      then inl empty_key
      else if ltb max_subject_len (byte_length sub)
      then inl long_subject
      else elim (parse_url raw) [
        | none ↦ inl bad_url
        | some u ↦ sign_parsed key u (unix_seconds exp) sub
      ]

-- A signing key's text: hexadecimal digits, base64url, or a file of either raw bytes or digits.
unfoldable parse_signing_key :
    (trim : String → String)
    → (cut_file : String → Option String) → (read_file : String → Option String)
    → (decode_hex : String → Option (List ℕ)) → (decode_raw_url : String → Option (List ℕ))
    → (bytes_of : String → List ℕ) → String
    → Option (List ℕ)
parse_signing_key trim cut_file read_file decode_hex decode_raw_url bytes_of s =
    elim (cut_file (trim s)) [
      | some rest ↦ elim (read_file rest) [
        | none ↦ none
        | some content ↦ elim (decode_hex (trim content)) [
          | some k ↦ check_key k
          | none ↦ check_key (bytes_of (trim content))
        ]
      ]
      | none ↦ elim (decode_hex (trim s)) [
        | some k ↦ check_key k
        | none ↦ elim (decode_raw_url (trim s)) [ some k ↦ check_key k | none ↦ none ]
      ]
    ]

-- A key that the server takes has 16 bytes or more, wherever it comes from.
parse_signing_key-length :
    (trim : String → String) (cut_file read_file : String → Option String)
    (decode_hex decode_raw_url : String → Option (List ℕ)) (bytes_of : String → List ℕ) (s : String)
    (key : List ℕ)
    → parse_signing_key trim cut_file read_file decode_hex decode_raw_url bytes_of s ≡ some key
    → 16 ≤ length key
unfolding parse_signing_key check_key
parse_signing_key-length trim cut_file read_file decode_hex decode_raw_url bytes_of s key h =
    ground arith
