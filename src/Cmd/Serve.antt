-- ===== src/Cmd/Serve.antt =====
-- How nqserver listens, and what it says of itself: `run` of cmd/nqserver/main.go, from the handler's options on.
--
-- strconv.Itoa is an argument.
use Prim.Native.String.{String, ◌++◌ as str_append}
use text.Mathlib.Text.{◌==◌ as str_eq}
use netquality.Prelude.{
  ℕ, ◌*◌, ◌^◌, ◌≡◌, Bool, ◌&&◌, List, [], ◌∷◌, ◌++◌, Option, none, ℤ, pos, ltb_ℤ, ◌<ℤ◌, arith,
  if◌then◌else◌,
}
use netquality.Server.Handler.{Options, with_defaults}
use netquality.Cmd.Server.{Flags, Mode, token_auth, signed_urls, client_max, options_of}
use netquality.Cmd.Print.{join}

-- The first argument chooses.
pub data Command : Type 0 where
  signing : List String → Command
  serving : List String → Command

unfoldable command_of : List String → Command
command_of [] = serving []
command_of (a ∷ rest) = if str_eq a "sign" then signing rest else serving (a ∷ rest)

-- The warnings before the listener is opened.
pub data Warning : Type 0 where
  -- --client-concurrency is set, and the byte budget disabled.
  concurrency_ignored : Warning
  -- The cap on connections is below one client's.
  few_connections : ℤ → Warning

-- `is_set` says whether --client-concurrency was given.
unfoldable pub warnings : Bool → Options → ℤ → List Warning
warnings is_set o max_connections =
    (if ltb_ℤ o.max_client_bytes (pos 0) && is_set then concurrency_ignored ∷ [] else [])
    ++ (if ltb_ℤ (pos 0) max_connections && ltb_ℤ max_connections (pos 64)
        then few_connections max_connections ∷ []
        else [])

-- The settings of http.Server, nanoseconds; a timeout that is not set is none.
pub record HttpServer : Type 0 where
  pub read_header_timeout : ℤ
  pub read_timeout : Option ℤ
  pub write_timeout : Option ℤ
  pub idle_timeout : ℤ
  pub send_ping_timeout : ℤ
  pub ping_timeout : ℤ

unfoldable http_server : ℤ → HttpServer
http_server idle_timeout = record {
  read_header_timeout = pos (10 * 10 ^ 9);
  read_timeout = none;
  write_timeout = none;
  idle_timeout = idle_timeout;
  send_ping_timeout = pos (30 * 10 ^ 9);
  ping_timeout = pos (15 * 10 ^ 9);
}

module _ (itoa : ℤ → String) where
  unfoldable mode_name : Mode → String
  mode_name token_auth = "token auth"
  mode_name (signed_urls n) = str_append "signed URLs (" (str_append (itoa (pos n)) " key(s))")

  unfoldable mode_names : List Mode → List String
  mode_names [] = []
  mode_names (m ∷ ms) = mode_name m ∷ mode_names ms

  -- Of no mode, the text of the code is empty and gets a name of its own.
  unfoldable mode_text : List Mode → String
  mode_text [] = "ANONYMOUS"
  mode_text (m ∷ ms) = join " + " (mode_names (m ∷ ms))

  unfoldable concurrency_mode : Options → String
  concurrency_mode o =
      if ltb_ℤ o.max_client_bytes (pos 0) then "unlimited" else itoa o.max_client_concurrency

-- The handler's own defaults leave the budget that the flags ask for as it is: what is said of it is what is served;
-- for sizes and a window that are positive.
options_of-settled :
    (f : Flags) (keys : List (List ℕ))
    → pos 0 <ℤ f.large_size
    → pos 0 <ℤ f.upload_size
    → pos 0 <ℤ f.client_window
    → with_defaults (options_of f keys) ≡ options_of f keys
unfolding with_defaults options_of client_max
options_of-settled f keys large up window = ground arith
