-- ===== src/Server/Handler/Service.antt =====
-- The guard with its own checks of credentials: `authorize` of server/server.go, and verifySignature
-- of server/sign.go.
--
-- The functions on strings of Go's library are arguments: the length in bytes, Cut at a space,
-- EqualFold and TrimSpace.
use Prim.Native.String.{String}
use text.Mathlib.Text.{◌==◌ as str_eq}
use netquality.Prelude.{
  Member, ℕ, ◌+◌, ◌^◌, ◌<◌, ◌≡◌, refl, ap, ◌∙◌, Bool, true, false, ◌&&◌, List, Option, none, some,
  ℤ, pos, ◌≤ℤ◌, ◌<ℤ◌, Fits, ltb, length, arith, if◌then◌else◌, Option-cases, inl, inr,
}
use netquality.Float.{Float}
use netquality.Server.Budget.{Budget}
use netquality.Server.Sign.{
  signature, Time, verify_signature, verify_signature_sound, decode_sig, IsNear,
}
use netquality.Server.Handler.{
  Options, Request, Route, Verdict, metered, authenticate, is_authed, subject_key, guard,
}
use netquality.Server.Handler.Guard.{guard_metered}

abbrev max_token_length : ℕ
max_token_length = 1024

module _ (byte_length : String → ℕ) (cut : String → Option (String × String))
    (equal_fold : String → String → Bool) (trim_space : String → String) where
  unfoldable pub authorize : Request → String → Bool
  authorize r token =
      if str_eq token ""
      then true
      else if ltb (max_token_length + 16) (byte_length r.authorization)
      then false
      else elim (cut r.authorization) [
        | none ↦ false
        | some (scheme, cred) ↦ equal_fold scheme "Bearer" && str_eq (trim_space cred) token
      ]

  module _ (parse_int : String → Option ℤ) (encodings : List (String → Option (List ℕ)))
      (format_int : ℤ → String) (mac : List ℕ → String → List ℕ) where
    -- A request at the guard: `clock` is the budget's clock, and `wall` the one of signatures.
    unfoldable pub serve :
        {F : Type 0} ⦃d : Float F⦄
        → Options
        → Route
        → Option (Budget F)
        → Request
        → ℤ
        → Time
        → Option (Budget F) × Verdict
    serve o rt b r clock wall =
        guard (λ r. authorize r o.auth_token)
          (λ r.
            verify_signature parse_int byte_length encodings format_int mac r.signed o.signing_keys
              wall)
          o rt b r clock

    authenticate-signed :
        (authorized : Request → Bool) (verify : Request → Option String) (o : Options) (rt : Route)
        (r : Request) (key : String)
        → str_eq o.auth_token "" ≡ true
        → 0 < length o.signing_keys
        → authenticate authorized verify o rt r ≡ some key
        → (sub : String) × (verify r ≡ some sub) × (key ≡ subject_key r.client_ip sub)
    unfolding authenticate is_authed
    authenticate-signed authorized verify o rt r key no_token keyed h =
        elim (Option-cases (verify r)) [
          | inl bad ↦ ground arith
          | inr (sub, e) ↦ (sub, e, ground arith)
        ]

    -- On a server that has signing keys and no token, a handler runs on a slot only for a request
    -- signed with one of the keys, over its path, subject and an expiry near the wall clock, and the
    -- slot is the subject's, or the address's where the subject is empty: given that the parser of
    -- numbers yields 64-bit ones, on a wall clock within its range.
    pub serve_signed :
        {F : Type 0} ⦃d : Float F⦄ (o : Options) (rt : Route) (b : Budget F) (r : Request)
        (clock : ℤ) (wall : Time) (key : String) (a : ℕ)
        → o.auth_token ≡ ""
        → 0 < length o.signing_keys
        → ((s : String) (n : ℤ) → parse_int s ≡ some n → Fits n)
        → pos 0 ≤ℤ wall.sec
        → wall.sec <ℤ pos (2 ^ 61)
        → (serve o rt (some b) r clock wall).1 ≡ metered key a
        → (key ≡ subject_key r.client_ip r.signed.sub)
          × ((exp : ℤ) × (parse_int r.signed.exp ≡ some exp)
              × IsNear exp wall
              × ((signing_key : List ℕ) × Member signing_key o.signing_keys
                  × (decode_sig encodings r.signed.sig
                      ≡ some
                          (signature format_int mac signing_key r.signed.path exp r.signed.sub))))
    unfolding serve
    serve_signed o rt b r clock wall key a no_token keyed fits lo hi h =
        let authorized = λ (r : Request). authorize r o.auth_token in
        let verify = λ (r : Request).
          verify_signature parse_int byte_length encodings format_int mac r.signed o.signing_keys
            wall in
        let passed = (guard_metered authorized verify o rt b r clock key a h).0 in
        let (sub, verified, keyed_by) =
          authenticate-signed authorized verify o rt r key (rw no_token refl) keyed passed in
        let (same, _, (exp, parsed, near, (k, m, e))) =
          verify_signature_sound parse_int byte_length encodings format_int mac r.signed
            o.signing_keys wall sub fits lo hi verified in
        (
          keyed_by ∙ ap (subject_key r.client_ip) same,
          (
            exp,
            parsed,
            near,
            (k, m, e ∙ ap (λ s. some (signature format_int mac k r.signed.path exp s)) same),
          ),
        )
