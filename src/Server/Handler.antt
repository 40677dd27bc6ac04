-- ===== src/Server/Handler.antt =====
-- The four endpoints and their guard: `Handler` of server/server.go.
--
-- A request is what the guard reads of it. The checks of its credentials are arguments here, each a
-- function of the request; Service puts in the server's own. A handler
-- that is admitted runs between two steps of the budget, `open` and `close`, so that requests
-- interleave there.
pub mod Streams
pub mod Guard
pub mod Service
pub mod Config
use Prim.Native.String.{String, ◌++◌ as str_append}
use text.Mathlib.Text.{◌==◌ as str_eq}
use netquality.Prelude.{
  ℕ, ◌*◌, ◌^◌, ◌≡◌, Bool, true, false, not, ◌&&◌, ◌||◌, List, [], ◌∷◌, Option, none, some, ℤ, pos,
  ltb_ℤ, leb_ℤ, eqb_ℤ, add64, quot, if◌then◌else◌,
}
use netquality.Float.{Float}
use netquality.Server.Sign.{SignedRequest}
use netquality.Server.Budget.{
  Budget, Admission, Refusal, ticket, refused, new_client_budget, admit, settle,
}

-- The options that the endpoints use.
pub record Options : Type 0 where
  pub large_size : ℤ
  pub auth_token : String
  pub signing_keys : List (List ℕ)
  pub upload_size : ℤ
  pub max_client_bytes : ℤ
  pub client_window : ℤ
  pub max_client_concurrency : ℤ

abbrev or_default : ℤ → ℤ → ℤ
or_default x def = if leb_ℤ x (pos 0) then def else x

-- The defaults at the head of Handler.
unfoldable pub with_defaults : Options → Options
with_defaults o = record o {
  large_size = or_default o.large_size (pos (8 * 2 ^ 30));
  upload_size = or_default o.upload_size (pos (16 * 2 ^ 30));
  max_client_bytes =
      if eqb_ℤ o.max_client_bytes (pos 0) then pos (8 * 2 ^ 30) else o.max_client_bytes;
  client_window = or_default o.client_window (pos (600 * 10 ^ 9));
  max_client_concurrency = or_default o.max_client_concurrency (pos 32);
}

-- `authorization` is the header of that name.
pub record Request : Type 0 where
  pub client_ip : String
  pub method : String
  pub authorization : String
  pub signed : SignedRequest

-- One line of the mux: the arguments of `guard`.
pub record Route : Type 0 where
  pub request_cap : ℤ
  pub signed : Bool
  pub methods : List String

pub data Endpoint : Type 0 where
  config small large upload : Endpoint

unfoldable pub route : Options → Endpoint → Route
route o config = record { request_cap = pos 0; signed = false; methods = [] }
route o small = record { request_cap = pos 0; signed = true; methods = "GET" ∷ "HEAD" ∷ [] }
route o large = record { request_cap = o.large_size; signed = true; methods = "GET" ∷ [] }
route o upload = record {
  request_cap = o.upload_size;
  signed = true;
  methods = "POST" ∷ "PUT" ∷ [];
}

-- What the guard does with a request before its handler runs.
pub data Verdict : Type 0 where
  unauthorized : Verdict
  method_not_allowed : Verdict
  -- The reason and the Retry-After seconds.
  too_many_requests : Refusal → ℤ → Verdict
  -- The handler runs, on a slot of this bucket or unmetered.
  metered : String → ℕ → Verdict
  unmetered : Verdict

contains : List String → String → Bool
contains [] m = false
contains (x ∷ xs) m = str_eq x m || contains xs m

unfoldable pub method_allowed : Route → Request → Bool
unfolding contains
method_allowed rt r = elim rt.methods [ [] ↦ true | _ ↦ contains rt.methods r.method ]

-- `budget` of Handler: none when the byte budget is disabled.
unfoldable make_budget : (F : Type 0) ⦃d : Float F⦄ → Options → Option (Budget F)
unfolding new_client_budget
make_budget F o =
    if ltb_ℤ (pos 0) o.max_client_bytes
    then some (new_client_budget o.max_client_bytes o.client_window o.max_client_concurrency)
    else none

-- Retry-After: whole seconds, rounded up past the wait.
unfoldable pub retry_after : ℤ → ℤ
retry_after wait = add64 (quot wait (10 ^ 9)) (pos 1)

-- The budget key of a signed subject.
abbrev pub subject_key : String → String → String
subject_key ip sub = if str_eq sub "" then ip else str_append "sub:" sub

module _ (authorize : Request → Bool) (verify : Request → Option String) where
  -- `authed` of Handler.
  unfoldable pub is_authed : Options → Bool
  is_authed o = not (str_eq o.auth_token "") || elim o.signing_keys [ [] ↦ false | _ ↦ true ]

  -- The budget key of a request that may pass: the verified subject's, or the source address.
  unfoldable pub authenticate : Options → Route → Request → Option String
  authenticate o rt r =
      if not (is_authed o) || (not (str_eq o.auth_token "") && authorize r)
      then some r.client_ip
      else if rt.signed
      then elim (verify r) [ none ↦ none | some sub ↦ some (subject_key r.client_ip sub) ]
      else none

  module _ {F : Type 0} ⦃d : Float F⦄ where
    -- The tail of the guard: admission, for a metered route with a budget.
    unfoldable pub admit_request :
        Option (Budget F) → Route → String → ℤ → Option (Budget F) × Verdict
    admit_request none rt key now = (none, unmetered)
    admit_request (some b) rt key now =
        let (b', answer) = admit b key now in
        let verdict : Verdict = elim answer [
          | ticket a ↦ metered key a
          | refused reason wait ↦ too_many_requests reason (retry_after wait)
        ] in
        if ltb_ℤ (pos 0) rt.request_cap then (some b', verdict) else (some b, unmetered)

    unfoldable pub guard :
        Options → Route → Option (Budget F) → Request → ℤ → Option (Budget F) × Verdict
    guard o rt b r now = elim (authenticate o rt r) [
      | none ↦ (b, unauthorized)
      | some key ↦
          if method_allowed rt r then admit_request b rt key now else (b, method_not_allowed)
    ]

-- How a handler ends: it returns the bytes that it moved, or panics.
pub data Ending : Type 0 where
  returned : ℤ → Ending
  panicked : Ending

-- `moved` of the deferred settlement: the cap, until the handler returns.
unfoldable settled_bytes : Route → Ending → ℤ
settled_bytes rt (returned n) = n
settled_bytes rt panicked = rt.request_cap

-- The deferred call.
unfoldable close : {F : Type 0} ⦃d : Float F⦄ → Route → Budget F → ℕ → Ending → ℤ → Budget F
unfolding settled_bytes
close rt b a ending now = settle b a (settled_bytes rt ending) now
