-- ===== src/Client/Proxy.antt =====
-- The way to the server: newTransportFactory, the address that newTransport dials, explicitProxy and
-- inspectChain of transport.go, and observeTLS of run.go.
--
-- The functions of net on host and port, of strings, and the proxy function of a transport are
-- arguments. A transport is what the code reads of it.
pub mod Dial
use Prim.Native.String.{String, ◌++◌ as str_append}
use text.Mathlib.Text.{◌==◌ as str_eq}
use netquality.Prelude.{
  ℕ, Bool, true, false, not, ◌||◌, ◌&&◌, List, [], ◌∷◌, Option, none, some, ◌==◌, if◌then◌else◌,
}

pub record ProxyInfo : Type 0 where
  pub explicit : Bool
  pub url : String
  pub tls_interception : Bool
  pub issuer : String
  pub reason : String

-- An http.Transport: whether it has its own TLS dialers, and the proxy that it has for a request to a URL,
-- printed without the user.
pub record HttpTransport : Type 0 where
  pub dial_tls_context : Bool
  pub dial_tls : Bool
  pub proxy : Option (String → Option String)

pub data RoundTripper : Type 0 where
  standard : HttpTransport → RoundTripper
  custom_tripper : RoundTripper

pub record TransportFactory : Type 0 where
  pub url_host : String
  pub url_host_port : String
  pub test_endpoint : String
  pub base : Option HttpTransport
  pub custom_tls : Bool

module _ (split_host_port : String → Option (String × String))
    (join_host_port : String → String → String) where
  unfoldable pub host_only : String → String
  host_only host_port = elim (split_host_port host_port) [ none ↦ host_port | some (h, port) ↦ h ]

  unfoldable pub host_port_of : String → String → String
  host_port_of scheme host = elim (split_host_port host) [
    | none ↦ join_host_port host (if str_eq scheme "http" then "80" else "443")
    | some split ↦ host
  ]

  unfoldable pub endpoint_of : String → String → String
  endpoint_of test_endpoint host =
      if not (str_eq test_endpoint "") && not (str_eq test_endpoint (host_only host))
      then test_endpoint
      else ""

  -- The base transport, where it is one of net/http's.
  unfoldable pub base_of : HttpTransport → Option RoundTripper → Option HttpTransport
  base_of default_transport none = some default_transport
  base_of default_transport (some (standard t)) = some t
  base_of default_transport (some custom_tripper) = none

  unfoldable pub has_custom_tls : Option HttpTransport → Bool
  has_custom_tls none = false
  has_custom_tls (some t) = t.dial_tls_context || t.dial_tls

  -- The factory; it is custom, with a warning, exactly where it has no base.
  unfoldable pub new_transport_factory :
      HttpTransport → Option RoundTripper → String → String → String → TransportFactory
  new_transport_factory default_transport tripper test_endpoint scheme host = record {
    url_host = host;
    url_host_port = host_port_of scheme host;
    test_endpoint = endpoint_of test_endpoint host;
    base = base_of default_transport tripper;
    custom_tls = has_custom_tls (base_of default_transport tripper);
  }

  -- What the DialContext of a new transport dials for an address.
  unfoldable pub dial_address : TransportFactory → String → Option String
  dial_address f addr =
      if not (str_eq f.test_endpoint "") && str_eq addr f.url_host_port
      then elim (split_host_port addr) [
        | none ↦ none
        | some (h, port) ↦ some (join_host_port f.test_endpoint port)
      ]
      else some addr

unfoldable pub explicit_proxy : TransportFactory → String → Option String
explicit_proxy f raw_url = elim f.base [
  | none ↦ none
  | some t ↦ elim t.proxy [ none ↦ none | some proxy ↦ proxy raw_url ]
]

-- A certificate: its issuer's name, and its extensions' object identifiers.
pub record Certificate : Type 0 where
  pub issuer : String
  pub extensions : List (List ℕ)

pub record ConnectionState : Type 0 where
  pub verified_chains : List (List Certificate)
  pub peer_certificates : List Certificate
  pub signed_timestamps : List (List ℕ)

abbrev sct_extension : List ℕ
sct_extension = 1 ∷ 3 ∷ 6 ∷ 1 ∷ 4 ∷ 1 ∷ 11129 ∷ 2 ∷ 4 ∷ 2 ∷ []

abbrev inspection_vendors : List String
inspection_vendors =
    "zscaler" ∷ "netskope" ∷ "palo alto" ∷ "fortinet" ∷ "fortigate" ∷ "cisco umbrella" ∷ "blue coat"
    ∷ "bluecoat" ∷ "symantec" ∷ "check point" ∷ "mcafee" ∷ "forcepoint" ∷ "sophos" ∷ "websense" ∷ []

unfoldable pub same_id : List ℕ → List ℕ → Bool
same_id [] [] = true
same_id [] (y ∷ ys) = false
same_id (x ∷ xs) [] = false
same_id (x ∷ xs) (y ∷ ys) = (x == y) && same_id xs ys

unfoldable pub has_sct : List (List ℕ) → Bool
has_sct [] = false
has_sct (e ∷ es) = same_id e sct_extension || has_sct es

unfoldable pub any_vendor : (String → String → Bool) → String → List String → Bool
any_vendor contains lower [] = false
any_vendor contains lower (v ∷ vs) = contains lower v || any_vendor contains lower vs

abbrev is_none : {A : Type 0} → List A → Bool
is_none [] = true
is_none (x ∷ xs) = false

-- The proxy that is known, and whether a handshake has been looked at.
pub record Inspection : Type 0 where
  pub proxy : Option ProxyInfo
  pub chain_checked : Bool

unfoldable pub add_finding : Option ProxyInfo → ProxyInfo → ProxyInfo
add_finding none info = info
add_finding (some p) info = record p {
  tls_interception = true;
  issuer = info.issuer;
  reason = str_append p.reason (str_append "; " info.reason);
}

module _ (to_lower : String → String) (contains : String → String → Bool) where
  unfoldable pub interception_reason : String → String
  interception_reason issuer =
      if any_vendor contains (to_lower issuer) inspection_vendors
      then str_append "certificate issued by TLS-inspection product ("
          (str_append issuer "); measurements cover the client→proxy leg")
      else str_append
          "certificate chain verified but the leaf has no Certificate Transparency SCTs, so it is not publicly trusted: a TLS-inspecting proxy or a private CA ("
          (str_append issuer ") is in the path")

  -- The leaf is the first certificate of the peer.
  unfoldable pub inspect_leaf : ConnectionState → Certificate → Option ProxyInfo
  inspect_leaf cs leaf =
      if not (is_none cs.signed_timestamps) || has_sct leaf.extensions
      then none
      else some (record {
        explicit = false;
        url = "";
        tls_interception = true;
        issuer = leaf.issuer;
        reason = interception_reason leaf.issuer;
      })

  unfoldable pub inspect_chain : ConnectionState → Option ProxyInfo
  inspect_chain cs = elim cs.peer_certificates [
    | [] ↦ none
    | leaf ∷ rest ↦ if is_none cs.verified_chains then none else inspect_leaf cs leaf
  ]

  -- The inspection after a handshake, and the reason that it warns of.
  unfoldable pub observe_tls : ConnectionState → Inspection → Inspection × Option String
  observe_tls cs s = if s.chain_checked then (s, none) else elim (inspect_chain cs) [
    | none ↦ (record s { chain_checked = true }, none)
    | some info ↦
        (record { proxy = some (add_finding s.proxy info); chain_checked = true }, some info.reason)
  ]
