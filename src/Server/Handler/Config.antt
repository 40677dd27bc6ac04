-- ===== src/Server/Handler/Config.antt =====
-- What the server serves without moving much: the configuration document and the small object of `Handler` of
-- server/server.go, with their headers.
--
-- The document is what is handed to the JSON encoder.
use Prim.Native.String.{String, ◌++◌ as str_append}
use text.Mathlib.Text.{◌==◌ as str_eq}
use netquality.Prelude.{ℕ, List, [], ◌∷◌, Option, none, some, ℤ, pos, if◌then◌else◌}

abbrev pub small_path : String
small_path = "/nq/small"

abbrev pub large_path : String
large_path = "/nq/large"

abbrev pub upload_path : String
upload_path = "/nq/upload"

-- The members of the document; the URLs are a map.
pub record Document : Type 0 where
  pub version : ℤ
  pub urls : List (String × String)
  pub test_endpoint : Option String

-- `host` is the request's.
unfoldable pub base_of : String → String → String
base_of base_url host = if str_eq base_url "" then str_append "https://" host else base_url

abbrev pub urls_at : String → List (String × String)
urls_at base =
    ("small_download_url", str_append base small_path)
    ∷ ("large_download_url", str_append base large_path)
    ∷ ("upload_url", str_append base upload_path)
    ∷ []

-- Of Options.BaseURL and Options.TestEndpoint.
unfoldable pub config_document : String → String → String → Document
config_document base_url test_endpoint host = record {
  version = pos 1;
  urls = urls_at (base_of base_url host);
  test_endpoint = if str_eq test_endpoint "" then none else some test_endpoint;
}

-- The headers that a handler sets, and the length of what it writes.
pub record Served : Type 0 where
  pub headers : List (String × String)
  pub content_length : ℤ
  pub body_length : ℕ

-- The header says as many bytes as are written.
unfoldable pub serve_small : Served
serve_small = record {
  headers =
      ("Content-Type", "application/octet-stream")
      ∷ ("Content-Length", "1")
      ∷ ("Cache-Control", "no-store")
      ∷ [];
  content_length = pos 1;
  body_length = 1;
}
