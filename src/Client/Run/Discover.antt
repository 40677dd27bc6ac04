-- ===== src/Client/Run/Discover.antt =====
-- Fetching the configuration: `discover` of run.go.
--
-- What net/http gives is an argument; the body is read up to a limit of 64 KiB.
use Prim.Native.String.{String}
use text.Mathlib.Text.{◌==◌ as str_eq}
use netquality.Prelude.{ℕ, ◌⊎◌, inl, inr, not, Option, none, some, ◌==◌, if◌then◌else◌}
use netquality.Client.Target.Keys.{ConfigError}
use netquality.Client.Target.Config.{ServerConfig}

pub data DiscoverError : Type 0 where
  empty_config_url : DiscoverError
  bad_request : String → DiscoverError
  fetch_failed : String → DiscoverError
  unexpected_status : ℕ → DiscoverError
  read_failed : String → DiscoverError
  invalid_config : ConfigError → DiscoverError

-- A response, and its body as far as the limit, or the error of reading it.
pub record Fetched : Type 0 where
  pub status : ℕ
  pub body : String ⊎ String

-- Making the request, and sending it.
pub record Fetch : Type 0 where
  pub request_error : Option String
  pub response : String ⊎ Fetched

module _ (parse : String → ConfigError ⊎ ServerConfig) where
  unfoldable pub read_config : Fetched → DiscoverError ⊎ ServerConfig
  read_config resp =
      if not (resp.status == 200) then inl (unexpected_status resp.status) else elim resp.body [
        | inl err ↦ inl (read_failed err)
        | inr body ↦ elim (parse body) [ inl err ↦ inl (invalid_config err) | inr cfg ↦ inr cfg ]
      ]

  unfoldable pub discover : String → Fetch → DiscoverError ⊎ ServerConfig
  discover config_url fetch =
      if str_eq config_url "" then inl empty_config_url else elim fetch.request_error [
        | some err ↦ inl (bad_request err)
        | none ↦ elim fetch.response [
          | inl err ↦ inl (fetch_failed err)
          | inr resp ↦ read_config resp
        ]
      ]
