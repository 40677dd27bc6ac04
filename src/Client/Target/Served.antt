-- ===== src/Client/Target/Served.antt =====
-- The configuration document of server/server.go, as parseServerConfig of target.go reads it.
use Prim.Native.String.{String, ◌++◌ as str_append}
use Prim.Native.String.{len}
use text.Mathlib.Text.{◌==◌ as str_eq}
use text.Mathlib.TextEquality.{eq_iff}
use text.Mathlib.TextPositions.{len-append}
use netquality.Prelude.{
  ◌≤◌, ◌≡◌, ◌≢◌, refl, sym, ap, ◌∙◌, inl, inr, Bool, true, List, [], ◌∷◌, Option, none, some, ℤ,
  pos, map, All, Bool-cases, arith, if◌then◌else◌,
}
use netquality.Server.Handler.Config.{
  Document, small_path, large_path, upload_path, base_of, urls_at, config_document, Served,
  serve_small,
}
use netquality.Client.Probe.{Response, check_response}
use netquality.Client.Target.Keys.{Verdict, passed, seen_in, IsFresh}
use netquality.Client.Target.Config.{
  ServerConfig, RawConfig, ParsedUrl, find, text_or_blank, is_usable, parse_server_config,
}
use netquality.Client.Target.Pick.{IsPicked}
use netquality.Client.Target.Valid.{parse_server_config_iff}

append-filled : (s t : String) → 1 ≤ len t → str_append s t ≢ ""
append-filled s t some_text h = omega (arith, len-append s t, ap len h)

-- Three URLs at a base, each under its second name only.
urls_at-IsPicked :
    (base : String)
    → let urls = urls_at base in
      IsPicked "small_https_download_url" "small_download_url" urls (str_append base small_path)
      × IsPicked "large_https_download_url" "large_download_url" urls (str_append base large_path)
      × IsPicked "https_upload_url" "upload_url" urls (str_append base upload_path)
unfolding find text_or_blank
urls_at-IsPicked base = (
  (append-filled base small_path (omega arith), inr (refl, refl)),
  (append-filled base large_path (omega arith), inr (refl, refl)),
  (append-filled base upload_path (omega arith), inr (refl, refl)),
)

-- The small object, as it reaches a probe.
abbrev response_of : Served → Response
response_of s = record {
  status = 200;
  content_length = s.content_length;
  body_length = s.body_length;
  read_error = none;
}

serve_small-accepted : check_response (response_of serve_small) ≡ none
unfolding serve_small check_response
serve_small-accepted = refl

-- The configuration at a base, with a test endpoint.
unfoldable pub config_at : String → String → ServerConfig
config_at base test_endpoint = record {
  version = pos 1;
  test_endpoint = test_endpoint;
  small_download_url = str_append base small_path;
  large_download_url = str_append base large_path;
  upload_url = str_append base upload_path;
}

endpoint-blank :
    (test_endpoint : String)
    → text_or_blank (if str_eq test_endpoint "" then none else some test_endpoint) ≡ test_endpoint
unfolding text_or_blank
endpoint-blank test_endpoint = elim (Bool-cases (str_eq test_endpoint "")) [
  | inl unset ↦ rw unset (sym ((eq_iff test_endpoint "").0 unset))
  | inr given ↦ rw given refl
]

urls_at-IsFresh : (base : String) → IsFresh [] (map (λ e. e.0) (urls_at base))
unfolding seen_in
urls_at-IsFresh base = (refl, (refl, (refl, tt)))

module _ (parse_url : String → Option ParsedUrl) (equal_fold : String → String → Bool) where
  -- A URL with the scheme and the host of another.
  abbrev IsBelow : ParsedUrl → String → Type 0
  IsBelow p u = (q : ParsedUrl) × (parse_url u ≡ some q) × (q.scheme ≡ p.scheme) × (q.host ≡ p.host)

  below-usable :
      (p q : ParsedUrl)
      → is_usable p ≡ true
      → q.scheme ≡ p.scheme
      → q.host ≡ p.host
      → is_usable q ≡ true
  unfolding is_usable
  below-usable p q good scheme host = rw (scheme, host) good

  below-fold :
      (p q r : ParsedUrl)
      → ((s : String) → equal_fold s s ≡ true)
      → q.host ≡ p.host
      → r.host ≡ p.host
      → equal_fold q.host r.host ≡ true
  below-fold p q r same q_host r_host = rw (q_host, r_host) (same p.host)

  module _ (check_keys : String → Verdict) (unmarshal : String → Option RawConfig)
      (unmarshal_urls : String → Option (List (String × String))) (int64 : String → Option ℤ)
      (encode : Document → String) where
    -- What the JSON package reads of a document that it has written.
    abbrev IsRead : Document → Type 0
    IsRead doc =
        (raw : RawConfig) × (number : String) × (unmarshal (encode doc) ≡ some raw)
        × (check_keys (encode doc) ≡ passed)
        × (raw.version ≡ some number)
        × (int64 number ≡ some doc.version)
        × (raw.test_endpoint ≡ doc.test_endpoint)
        × (raw.urls ≢ "")
        × (unmarshal_urls raw.urls ≡ some doc.urls)
        × (check_keys raw.urls ≡ passed)

    -- A client accepts the document that the server serves: as the configuration of version 1, with the server's test
    -- endpoint and its three URLs below the base, which is the URL that the server was given, or the request's host
    -- over HTTPS; given a JSON package that reads this document, of
    -- distinct keys, as it wrote it, a base of scheme HTTP or HTTPS with a
    -- host, that the three paths do not change, and a test of equal letters that is reflexive.
    pub config_document-accepted :
        (base_url test_endpoint host : String) (p : ParsedUrl)
        → (IsFresh [] (map (λ e. e.0) (config_document base_url test_endpoint host).urls)
            → IsRead (config_document base_url test_endpoint host))
        → is_usable p ≡ true
        → All
            (λ path. IsBelow p (str_append (base_of base_url host) path))
            (small_path ∷ large_path ∷ upload_path ∷ [])
        → ((s : String) → equal_fold s s ≡ true)
        → parse_server_config parse_url equal_fold check_keys unmarshal unmarshal_urls int64
            (encode (config_document base_url test_endpoint host))
          ≡ some (inr (config_at (base_of base_url host) test_endpoint))
    unfolding config_document config_at
    config_document-accepted base_url test_endpoint host p reads good
          (
            (q, is_q, q_scheme, q_host),
            ((r, is_r, r_scheme, r_host), ((s, is_s, s_scheme, s_host), _)),
          )
          same =
        let base = base_of base_url host in
        let doc = config_document base_url test_endpoint host in
        let (raw, number, unmarshalled, keys, version, int, endpoint, full, urls, url_keys) =
          reads (urls_at-IsFresh base) in
        let (small, large, up) = urls_at-IsPicked base in
        (parse_server_config_iff parse_url equal_fold check_keys unmarshal unmarshal_urls int64
            (encode doc) (config_at base test_endpoint)).1
          (
            raw,
            number,
            urls_at base,
            (unmarshalled, keys, version, int, full, urls, url_keys),
            (
              refl,
              sym (ap text_or_blank endpoint ∙ endpoint-blank test_endpoint),
              small,
              large,
              up,
              (
                q,
                r,
                s,
                is_q,
                is_r,
                is_s,
                below-usable p q good q_scheme q_host,
                below-usable p r good r_scheme r_host,
                below-usable p s good s_scheme s_host,
                below-fold p q r same q_host r_host,
                below-fold p q s same q_host s_host,
              ),
            ),
          )
