-- ===== src/Server/Certificate.antt =====
-- The server's certificates: SelfSignedCert and TLSConfig of server/server.go.
--
-- The random source, the key and crypto/x509 are arguments: what their calls give. An IP address is a value of a type
-- that net.ParseIP gives.
pub mod Names
use Prim.Native.String.{String}
use text.Mathlib.Text.{◌==◌ as str_eq}
use text.Mathlib.TextEquality.{eq_iff}
use netquality.Prelude.{
  ℕ, ◌*◌, ◌^◌, ◌≡◌, refl, sym, ap, ◌∙◌, subst, ◌⊎◌, inl, inr, Bool, true, false, not, ◌||◌, List,
  [], ◌∷◌, ◌++◌, Option, none, some, ℤ, pos, negsuc, Member, first, later, Member-append,
  Member_last, ◌≤ℤ◌, ◌<ℤ◌, add64, wrap, ◌+ℤ◌, arith, if◌then◌else◌, Bool-cases, Option-cases,
  Sum-cases, All,
}
use netquality.Server.Sign.{Time, add_seconds, after}

-- x509.Certificate, where the code sets more than a constant.
pub record Template (A : Type 0) : Type 0 where
  pub not_before : Time
  pub not_after : Time
  pub dns_names : List String
  pub ip_addresses : List A

-- tls.Certificate, of the encoding and the leaf.
pub record Certificate (A D : Type 0) : Type 0 where
  pub der : D
  pub leaf : Template A

-- The settings of tls.Config, over its certificate.
pub record TlsConfig (C : Type 0) : Type 0 where
  pub certificates : List C
  pub next_protos : List String
  pub min_version : ℕ

-- 0x303 is TLS 1.2.
unfoldable tls_config : {C : Type 0} → C → TlsConfig C
tls_config cert = record {
  certificates = cert ∷ [];
  next_protos = "h2" ∷ "http/1.1" ∷ [];
  min_version = 0x303;
}

module _ {A : Type 0} (parse_ip : String → Option A) where
  -- A host of the loop, by its kind.
  unfoldable pub name_host : String → Template A → Template A
  name_host h t = elim (parse_ip h) [
    | some ip ↦ record t { ip_addresses = t.ip_addresses ++ ip ∷ [] }
    | none ↦ if str_eq h "" then t else record t { dns_names = t.dns_names ++ h ∷ [] }
  ]

  unfoldable pub name_hosts : List String → Template A → Template A
  name_hosts [] t = t
  name_hosts (h ∷ hs) t = name_hosts hs (name_host h t)

  -- `v4` and `v6` are the loopback addresses, `now0` and `now1` the two readings of the clock.
  unfoldable pub template : A → A → Time → Time → List String → Template A
  template v4 v6 now0 now1 hosts = name_hosts hosts (record {
    not_before = add_seconds now0 (negsuc 3599);
    not_after = add_seconds now1 (pos (365 * 24 * 3600));
    dns_names = "localhost" ∷ [];
    ip_addresses = v4 ∷ v6 ∷ [];
  })

  -- `key_error` and `serial_error` are the random source's, `create` signs a template, and `parse` reads what is signed.
  unfoldable pub self_signed_cert :
      {D : Type 0}
      → Option String
      → Option String
      → (Template A → String ⊎ D)
      → (D → String ⊎ Template A)
      → A
      → A
      → Time
      → Time
      → List String
      → String ⊎ Certificate A D
  self_signed_cert key_error serial_error create parse v4 v6 now0 now1 hosts = elim key_error [
    | some err ↦ inl err
    | none ↦ elim serial_error [
      | some err ↦ inl err
      | none ↦ elim (create (template v4 v6 now0 now1 hosts)) [
        | inl err ↦ inl err
        | inr der ↦ elim (parse der) [
          | inl err ↦ inl err
          | inr leaf ↦ inr (record { der = der; leaf = leaf })
        ]
      ]
    ]
  ]
