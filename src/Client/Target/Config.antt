-- ===== src/Client/Target/Config.antt =====
-- `parseServerConfig` of target.go: a configuration document, from its text to a ServerConfig.
--
-- encoding/json's Unmarshal, json.Number, net/url's Parse and strings.EqualFold are arguments.
use Prim.Native.String.{String}
use text.Mathlib.Text.{◌==◌ as str_eq}
use netquality.Prelude.{
  ◌⊎◌, inl, inr, Bool, not, ◌||◌, ◌&&◌, List, [], ◌∷◌, Option, none, some, ℤ, pos, eqb_ℤ,
  if◌then◌else◌,
}
use netquality.Client.Target.Keys.{
  ConfigError, bad_json, missing_version, bad_version, missing_urls, bad_urls, missing_url, bad_url,
  different_hosts, Verdict, passed, refused, unfinished,
}

pub record ServerConfig : Type 0 where
  pub version : ℤ
  pub test_endpoint : String
  pub small_download_url : String
  pub large_download_url : String
  pub upload_url : String

-- The document's members that the code reads; `urls` is their raw text, empty where there is none.
pub record RawConfig : Type 0 where
  pub version : Option String
  pub test_endpoint : Option String
  pub urls : String

-- What url.Parse gives of a URL.
pub record ParsedUrl : Type 0 where
  pub scheme : String
  pub host : String

-- The lookup in the map of URLs.
unfoldable pub find : String → List (String × String) → Option String
find k [] = none
find k ((j, u) ∷ m) = if str_eq j k then some u else find k m

-- if u, ok := urls[n]; ok && u != "" { return u }
unfoldable pub or_else : Option String → ConfigError ⊎ String → ConfigError ⊎ String
or_else none rest = rest
or_else (some u) rest = if not (str_eq u "") then inr u else rest

-- The first of the names with a URL that is not empty.
unfoldable pub pick : List String → List (String × String) → ConfigError ⊎ String
pick [] urls = inl missing_url
pick (n ∷ names) urls = or_else (find n urls) (pick names urls)

-- *p, or "" where p is nil.
unfoldable pub text_or_blank : Option String → String
text_or_blank none = ""
text_or_blank (some s) = s

-- A web URL with a host.
unfoldable pub is_usable : ParsedUrl → Bool
is_usable p = (str_eq p.scheme "https" || str_eq p.scheme "http") && not (str_eq p.host "")

module _ (parse_url : String → Option ParsedUrl) (equal_fold : String → String → Bool) where
  -- The loop over the URLs, with the host of the first.
  unfoldable pub check_hosts : String → List String → Option ConfigError
  check_hosts host [] = none
  check_hosts host (u ∷ us) = elim (parse_url u) [
    | none ↦ some (bad_url u)
    | some p ↦
        if not (is_usable p)
        then some (bad_url u)
        else if str_eq host ""
        then check_hosts p.host us
        else if equal_fold host p.host
        then check_hosts host us
        else some (different_hosts host p.host)
  ]

  -- The picks, and the loop over what was picked.
  unfoldable pub config_of : ℤ → String → List (String × String) → ConfigError ⊎ ServerConfig
  config_of version test_endpoint urls =
      elim (pick ("small_https_download_url" ∷ "small_download_url" ∷ []) urls) [
        | inl err ↦ inl err
        | inr small ↦ elim (pick ("large_https_download_url" ∷ "large_download_url" ∷ []) urls) [
          | inl err ↦ inl err
          | inr large ↦ elim (pick ("https_upload_url" ∷ "upload_url" ∷ []) urls) [
            | inl err ↦ inl err
            | inr up ↦ elim (check_hosts "" (small ∷ large ∷ up ∷ [])) [
              | some err ↦ inl err
              | none ↦ inr (record {
                version = version;
                test_endpoint = test_endpoint;
                small_download_url = small;
                large_download_url = large;
                upload_url = up;
              })
            ]
          ]
        ]
      ]

  module _ (check_keys : String → Verdict) (unmarshal : String → Option RawConfig)
      (unmarshal_urls : String → Option (List (String × String))) (int64 : String → Option ℤ) where
    -- From the raw URLs on.
    unfoldable pub parse_urls : ℤ → RawConfig → Option (ConfigError ⊎ ServerConfig)
    parse_urls version raw =
        if str_eq raw.urls "" then some (inl missing_urls) else elim (unmarshal_urls raw.urls) [
          | none ↦ some (inl bad_urls)
          | some urls ↦ elim (check_keys raw.urls) [
            | unfinished ↦ none
            | refused err ↦ some (inl err)
            | passed ↦ some (config_of version (text_or_blank raw.test_endpoint) urls)
          ]
        ]

    -- From the version on.
    unfoldable pub parse_version : RawConfig → Option (ConfigError ⊎ ServerConfig)
    parse_version raw = elim raw.version [
      | none ↦ some (inl missing_version)
      | some number ↦ elim (int64 number) [
        | none ↦ some (inl bad_version)
        | some v ↦ if eqb_ℤ v (pos 1) then parse_urls v raw else some (inl bad_version)
      ]
    ]

    -- None where the check of the keys is unfinished.
    unfoldable pub parse_server_config : String → Option (ConfigError ⊎ ServerConfig)
    parse_server_config data_text = elim (unmarshal data_text) [
      | none ↦ some (inl bad_json)
      | some raw ↦ elim (check_keys data_text) [
        | unfinished ↦ none
        | refused err ↦ some (inl err)
        | passed ↦ parse_version raw
      ]
    ]
