-- ===== src/Tests/TargetExamples.antt =====
-- The configuration document's theorems at a document of two members, read token by token.
use Prim.Native.String.{String}
use text.Mathlib.Text.{◌==◌ as str_eq}
use text.Mathlib.TextEquality.{eq_iff}
use netquality.Server.Handler.Config.{base_of, urls_at, config_document}
use netquality.Client.Target.Served.{config_at, config_document-accepted}
use netquality.Client.Target.Pick.{filled_iff}
use netquality.Client.Target.Keys.{entries, seen_in, key_of}
use netquality.Client.Target.Config.{is_usable}
use netquality.Prelude.{
  refl, suc, subst, ◌<◌, ◌≤◌, ◌≡◌, ◌↔◌, inr, Bool, true, false, List, [], ◌∷◌, Option, none, some,
  pos, if◌then◌else◌, length, arith,
}
use netquality.Client.Target.Keys.{
  Token, word, delim, other, Verdict, passed, check_duplicate_keys, is_brace, Reads, IsFresh,
  check_duplicate_keys_iff,
}
use netquality.Client.Target.Config.{
  ServerConfig, RawConfig, ParsedUrl, text_or_blank, parse_server_config,
}
use netquality.Client.Target.Valid.{IsDocument, IsConfig, parse_server_config_iff}

-- A decoder over the tokens that are left.
abbrev token : List Token → Option (Token × List Token)
token [] = none
token (t ∷ ts) = some (t, ts)

abbrev more : List Token → Bool
more [] = false
more (word s ∷ ts) = true
more (delim c ∷ ts) = false
more (other ∷ ts) = true

abbrev skip : List Token → Option (List Token)
skip [] = none
skip (t ∷ ts) = some ts

abbrev tokens_of : String → List Token
tokens_of s = delim "{" ∷ word "version" ∷ other ∷ word "urls" ∷ other ∷ delim "}" ∷ []

token-length : (d d1 : List Token) (t : Token) → token d ≡ some (t, d1) → length d1 < length d
token-length [] d1 t h = ground arith
token-length (u ∷ us) d1 t h =
    let same : us ≡ d1 = ground arith in
    subst (λ ts. length ts < suc (length us)) same (omega arith)

skip-length : (d d1 : List Token) → skip d ≡ some d1 → length d1 ≤ length d
skip-length [] d1 h = ground arith
skip-length (u ∷ us) d1 h =
    let same : us ≡ d1 = ground arith in
    subst (λ ts. length ts ≤ suc (length us)) same (omega arith)

check_duplicate_keys_iff_example :
    (check_duplicate_keys token more skip length (tokens_of "") ≡ passed) ↔ (
      (t : Token) × (d1 : List Token) × (token (tokens_of "") ≡ some (t, d1))
      × (is_brace t ≡ true)
      × ((ks : List String) × Reads token more skip d1 ks × IsFresh [] ks))
check_duplicate_keys_iff_example =
    check_duplicate_keys_iff token more skip length token-length skip-length (tokens_of "")

abbrev raw_config : RawConfig
raw_config = record { version = some "1"; test_endpoint = none; urls = "{…}" }

abbrev urls : List (String × String)
urls =
    ("small_https_download_url", "https://nq.example/small")
    ∷ ("large_download_url", "https://nq.example/large")
    ∷ ("upload_url", "https://NQ.example/up")
    ∷ []

abbrev config : ServerConfig
config = record {
  version = pos 1;
  test_endpoint = "";
  small_download_url = "https://nq.example/small";
  large_download_url = "https://nq.example/large";
  upload_url = "https://NQ.example/up";
}

abbrev parse_url : String → Option ParsedUrl
parse_url s = some (record {
  scheme = "https";
  host = if str_eq s "https://NQ.example/up" then "NQ.example" else "nq.example";
})

abbrev check_keys : String → Verdict
check_keys s = check_duplicate_keys token more skip length (tokens_of s)

parse_server_config_iff_example :
    (parse_server_config parse_url
        (λ s t. true)
        check_keys
        (λ s. some raw_config)
        (λ s. some urls)
        (λ s. some (pos 1))
        "{…}"
      ≡ some (inr config))
    ↔ ((raw : RawConfig) × (number : String) × (found : List (String × String)) × IsDocument
          parse_url
          (λ s t. true)
          check_keys
          (λ s. some raw_config)
          (λ s. some urls)
          (λ s. some (pos 1))
          "{…}"
          raw
          number
          found
        × IsConfig parse_url (λ s t. true) (pos 1) (text_or_blank raw.test_endpoint) found config)
parse_server_config_iff_example =
    parse_server_config_iff parse_url (λ s t. true) check_keys (λ s. some raw_config)
      (λ s. some urls) (λ s. some (pos 1)) "{…}" config

-- What is served at nq.example, in the text of its encoder.
abbrev served_config : RawConfig
served_config = record { version = some "1"; test_endpoint = some "192.0.2.7"; urls = "{…}" }

abbrev served_url : ParsedUrl
served_url = record { scheme = "https"; host = "nq.example" }

checks : check_keys "{…}" ≡ passed
unfolding check_duplicate_keys entries seen_in key_of is_brace
checks = refl

usable : is_usable served_url ≡ true
unfolding is_usable
usable = refl

config_document-accepted_example :
    parse_server_config
      (λ s. some served_url)
      (λ s t. str_eq s t)
      check_keys
      (λ s. some served_config)
      (λ s. some (urls_at "https://nq.example"))
      (λ s. some (pos 1))
      "{…}"
    ≡ some (inr (config_at (base_of "" "nq.example") "192.0.2.7"))
unfolding base_of config_document
config_document-accepted_example =
    config_document-accepted (λ s. some served_url) (λ s t. str_eq s t) check_keys
      (λ s. some served_config) (λ s. some (urls_at "https://nq.example")) (λ s. some (pos 1))
      (λ d. "{…}") "" "192.0.2.7" "nq.example" served_url
      (λ fresh. (
        served_config,
        "1",
        refl,
        checks,
        refl,
        refl,
        refl,
        (λ e. (filled_iff "{…}").0 refl e),
        refl,
        checks,
      ))
      usable
      (
        (served_url, refl, refl, refl),
        ((served_url, refl, refl, refl), ((served_url, refl, refl, refl), tt)),
      )
      (λ s. (eq_iff s s).1 refl)
