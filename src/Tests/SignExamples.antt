-- ===== src/Tests/SignExamples.antt =====
-- The signature check's theorem at a toy key.
use Prim.Native.String.{String}
use text.Mathlib.Text.{◌==◌ as str_eq}
use netquality.Prelude.{
  Member, false, ◌+ℤ◌, ℕ, ◌+◌, ◌≤◌, ◌≡◌, refl, List, [], ◌∷◌, Option, none, some, ℤ, pos, arith,
  length, add64, Fits, if◌then◌else◌,
}
use netquality.Float.Micro.{micro_float}
use netquality.Server.Budget.{Budget, new_client_budget}
use netquality.Server.Handler.{Options, Request, route, large, metered, subject_key}
use netquality.Server.Handler.Service.{serve, serve_signed}
use netquality.Float.Micro.{Micro}
use netquality.Server.Sign.{
  Time, signature, SignedRequest, verify_signature, decode_sig, IsNear, verify_signature_sound,
}

-- A toy digest of 32 equal bytes, and a parser of one number.
abbrev parse_year : String → Option ℤ
parse_year s = if str_eq s "1700000000" then some (pos 1_700_000_000) else none

abbrev bytes32 : ℕ → List ℕ
bytes32 b =
    b ∷ b ∷ b ∷ b ∷ b ∷ b ∷ b ∷ b ∷ b ∷ b ∷ b ∷ b ∷ b ∷ b ∷ b ∷ b ∷ b ∷ b ∷ b ∷ b ∷ b ∷ b ∷ b ∷ b
    ∷ b ∷ b ∷ b ∷ b ∷ b ∷ b ∷ b ∷ b ∷ []

abbrev format_year : ℤ → String
format_year n = "1700000000"

abbrev toy_mac : List ℕ → String → List ℕ
toy_mac key message = bytes32 (length key)

abbrev encodings : List (String → Option (List ℕ))
encodings = (λ s. none) ∷ (λ s. some (bytes32 2)) ∷ []

abbrev signed_request : SignedRequest
signed_request = record { path = "/nq/large"; exp = "1700000000"; sig = "AgIC"; sub = "device" }

abbrev keys : List (List ℕ)
keys = (1 ∷ []) ∷ (5 ∷ 7 ∷ []) ∷ []

abbrev noon : Time
noon = record { sec = pos (62_135_596_800 + 1_699_999_000); nsec = 0 }

parse_year-Fits : (s : String) (n : ℤ) → parse_year s ≡ some n → Fits n
parse_year-Fits s n h = ground arith

accepted :
    verify_signature parse_year (λ s. 6) encodings format_year toy_mac signed_request keys noon
    ≡ some "device"
unfolding verify_signature netquality.Server.Sign.verify_parsed netquality.Server.Sign.in_window
    netquality.Server.Sign.after netquality.Server.Sign.add_seconds add64
    netquality.Server.Sign.unix decode_sig netquality.Server.Sign.any_key signature
accepted = refl

verify_signature_sound_example :
    ("device" ≡ signed_request.sub)
    × (6 ≤ 256)
    × ((exp : ℤ) × (parse_year signed_request.exp ≡ some exp)
        × IsNear exp noon
        × ((key : List ℕ) × Member key keys
            × (decode_sig encodings signed_request.sig
                ≡ some (signature format_year toy_mac key signed_request.path exp "device"))))
verify_signature_sound_example =
    verify_signature_sound parse_year (λ s. 6) encodings format_year toy_mac signed_request keys
      noon "device" parse_year-Fits (omega arith) (omega arith) accepted

-- The same request at the guard of a server that has the keys and no token.
abbrev service_options : Options
service_options = record {
  large_size = pos 100;
  auth_token = "";
  signing_keys = keys;
  upload_size = pos 100;
  max_client_bytes = pos 100;
  client_window = pos 100;
  max_client_concurrency = pos 1;
}

abbrev service_request : Request
service_request = record {
  client_ip = "192.0.2.1";
  method = "GET";
  authorization = "";
  signed = signed_request;
}

abbrev budget : Budget Micro
budget = new_client_budget (pos 100) (pos 100) (pos 1)

served :
    (serve
      (λ s. 6)
      (λ s. none)
      (λ s t. false)
      (λ s. s)
      parse_year
      encodings
      format_year
      toy_mac
      service_options
      (route service_options large)
      (some budget)
      service_request
      (pos 0)
      noon).1
    ≡ metered "sub:device" 0
unfolding serve netquality.Server.Handler.guard netquality.Server.Handler.authenticate
    netquality.Server.Handler.is_authed route verify_signature netquality.Server.Sign.verify_parsed
    netquality.Server.Sign.in_window netquality.Server.Sign.after netquality.Server.Sign.add_seconds
    add64 netquality.Server.Sign.unix decode_sig netquality.Server.Sign.any_key signature
    netquality.Server.Handler.method_allowed netquality.Server.Handler.admit_request
    netquality.Server.Budget.admit netquality.Server.Budget.decide netquality.Server.Budget.balance
    netquality.Server.Budget.find_or_make netquality.Server.Budget.install
    netquality.Server.Budget.lookup netquality.Server.Budget.sweep netquality.Server.Budget.refill
    new_client_budget ◌+ℤ◌ netquality.Prelude.◌*ℤ◌ netquality.Float.Micro.divide
served = refl

serve_signed_example :
    ("sub:device" ≡ subject_key "192.0.2.1" "device")
    × ((exp : ℤ) × (parse_year signed_request.exp ≡ some exp)
        × IsNear exp noon
        × ((signing_key : List ℕ) × Member signing_key keys
            × (decode_sig encodings signed_request.sig
                ≡ some
                    (signature format_year toy_mac signing_key signed_request.path exp "device"))))
serve_signed_example =
    serve_signed (λ s. 6) (λ s. none) (λ s t. false) (λ s. s) parse_year encodings format_year
      toy_mac service_options (route service_options large) budget service_request (pos 0) noon
      "sub:device" 0 refl (omega arith) parse_year-Fits (omega arith) (omega arith) served
