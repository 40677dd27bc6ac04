-- ===== src/Cmd/Server.antt =====
-- The server's command line: `run` of cmd/nqserver/main.go, from its flags to the handler that it serves.
--
-- The flag package, the environment's variables, the keys' and certificates' readers and the listener are
-- arguments: what they give.
use Prim.Native.String.{String}
use text.Mathlib.Text.{◌==◌ as str_eq}
use text.Mathlib.TextEquality.{eq_iff}
use netquality.Prelude.{
  ◌++◌, ltb, ℕ, ◌*◌, ◌^◌, ◌≡◌, Bool, true, false, not, ◌&&◌, List, [], ◌∷◌, Option, none, some, ℤ,
  pos, negsuc, ◌==◌, leb_ℤ, eqb_ℤ, length, arith, if◌then◌else◌,
}
use netquality.Server.Handler.{Options}

abbrev pub exit_ok : ℕ
exit_ok = 0

abbrev pub exit_fail : ℕ
exit_fail = 1

abbrev pub exit_usage : ℕ
exit_usage = 2

-- The flags that decide how the server is run.
pub record Flags : Type 0 where
  pub cert_file : String
  pub key_file : String
  pub self_signed : Bool
  pub auth_token : String
  pub allow_anonymous : Bool
  pub signing_keys : List String
  pub large_size : ℤ
  pub upload_size : ℤ
  pub max_connections : ℤ
  pub client_bytes : ℤ
  pub client_concurrency : ℤ
  pub client_window : ℤ
  pub version : Bool

-- What the flag package makes of the arguments.
pub data Parsed : Type 0 where
  help_asked : Parsed
  bad_flags : Parsed
  flags : Flags → Parsed

pub data Start : Type 0 where
  exits : ℕ → Start
  -- The handler's options, and the cap on connections.
  serves : Options → ℤ → Start

unfoldable pub is_listed : List String → Bool
is_listed [] = false
is_listed (k ∷ ks) = true

-- NQSERVER_SIGNING_KEY stands in where no key is given.
unfoldable pub keys_given : String → Flags → List String
keys_given env_key f =
    if not (is_listed f.signing_keys) && not (str_eq env_key "")
    then env_key ∷ []
    else f.signing_keys

unfoldable pub parse_keys : (String → Option (List ℕ)) → List String → Option (List (List ℕ))
parse_keys parse_key [] = some []
parse_keys parse_key (k ∷ ks) = elim (parse_key k) [
  | none ↦ none
  | some key ↦ elim (parse_keys parse_key ks) [ none ↦ none | some keys ↦ some (key ∷ keys) ]
]

-- A certificate is there: generated, or loaded from both files.
unfoldable pub has_certificate : Bool → Bool → Flags → Bool
has_certificate generated loaded f =
    if f.self_signed
    then generated
    else not (str_eq f.cert_file "") && not (str_eq f.key_file "") && loaded

unfoldable pub is_refused : Flags → List (List ℕ) → Bool
is_refused f keys =
    str_eq f.auth_token "" && length keys == 0 && not f.allow_anonymous && not f.self_signed

unfoldable pub client_max : Flags → ℤ
client_max f =
    if eqb_ℤ f.client_bytes (pos 0)
    then (if f.self_signed then negsuc 0 else pos (8 * 2 ^ 30))
    else f.client_bytes

unfoldable pub options_of : Flags → List (List ℕ) → Options
options_of f keys = record {
  large_size = f.large_size;
  auth_token = f.auth_token;
  signing_keys = keys;
  upload_size = f.upload_size;
  max_client_bytes = client_max f;
  client_window = f.client_window;
  max_client_concurrency =
      if leb_ℤ f.client_concurrency (pos 0) then pos 32 else f.client_concurrency;
}

-- Once the keys are read.
unfoldable pub start_with : Bool → Bool → Flags → List (List ℕ) → Start
start_with generated loaded f keys =
    if f.version
    then exits exit_ok
    else if not (has_certificate generated loaded f)
    then exits exit_usage
    else if is_refused f keys
    then exits exit_usage
    else serves (options_of f keys) f.max_connections

unfoldable pub start : (String → Option (List ℕ)) → String → Bool → Bool → Parsed → Start
start parse_key env_key generated loaded help_asked = exits exit_ok
start parse_key env_key generated loaded bad_flags = exits exit_usage
start parse_key env_key generated loaded (flags f) =
    elim (parse_keys parse_key (keys_given env_key f)) [
      | none ↦ exits exit_usage
      | some keys ↦ start_with generated loaded f keys
    ]

-- How the server is said to authenticate.
pub data Mode : Type 0 where
  token_auth : Mode
  -- With so many keys.
  signed_urls : ℕ → Mode

-- The modes that are printed; with none, it is said to be anonymous.
unfoldable modes : Options → List Mode
modes o =
    (if str_eq o.auth_token "" then [] else token_auth ∷ [])
    ++ (if ltb 0 (length o.signing_keys) then signed_urls (length o.signing_keys) ∷ [] else [])

-- How serving ends: with an error, with none or that of a closed server, or by the context.
pub data ServeEnd : Type 0 where
  broken : String → ServeEnd
  shut_down : ServeEnd
  interrupted : ServeEnd

unfoldable served_code : ServeEnd → ℕ
served_code (broken err) = exit_fail
served_code shut_down = exit_ok
served_code interrupted = exit_ok

-- The exit code, of whether the listener opened and how serving ended.
unfoldable exit_code : Bool → ServeEnd → Start → ℕ
exit_code opened served (exits code) = code
exit_code opened served (serves o cap) = if opened then served_code served else exit_fail

-- A server is said to authenticate by nothing only if it has no token and no key.
modes-empty : (o : Options) → modes o ≡ [] → (o.auth_token ≡ "") × (length o.signing_keys ≡ 0)
unfolding modes
modes-empty o h = ground (arith, eq_iff o.auth_token "")
