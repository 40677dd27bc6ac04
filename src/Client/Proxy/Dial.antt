-- ===== src/Client/Proxy/Dial.antt =====
-- The transports that `newTransport` of transport.go makes: the settings of the clone, and its dial functions.
--
-- The dialers of the base transport are arguments. The addresses of a connection are added to the factory's sets
-- without interruption here; Client.Addresses has the interleavings, and Client.Connections those of `track`.
use Prim.Native.String.{String}
use text.Mathlib.Text.{◌==◌ as str_eq}
use text.Mathlib.TextEquality.{eq_iff}
use netquality.Prelude.{
  ℕ, ◌≡◌, ◌≢◌, sym, ap, ◌∙◌, subst, ◌⊎◌, inl, inr, Bool, true, ◌||◌, List, [], Option, none, some,
  ℤ, pos, arith, if◌then◌else◌, Bool-cases, Option-cases, Sum-cases,
}
use netquality.Client.Addresses.{AddrSet, member, member-append}
use netquality.Client.Addresses.{finish as finish_add}
use netquality.Client.Connections.{OwnedTransport, track, has}
use netquality.Client.Proxy.{TransportFactory, host_only, dial_address}

-- The settings of an http.Transport that newTransport reads or sets. The TLS configuration is its least version.
pub record Settings : Type 0 where
  pub disable_compression : Bool
  pub force_attempt_http2 : Bool
  pub max_conns_per_host : ℤ
  pub disable_keep_alives : Bool
  pub tls_min_version : Option ℕ

-- tls.VersionTLS12
abbrev version_tls12 : ℕ
version_tls12 = 0x303

-- The settings of the clone.
unfoldable new_settings : Bool → Settings → Settings
new_settings keep_alive t = record {
  disable_compression = true;
  force_attempt_http2 = true;
  max_conns_per_host = pos 0;
  disable_keep_alives = if keep_alive then t.disable_keep_alives else true;
  tls_min_version = elim t.tls_min_version [ none ↦ some version_tls12 | some v ↦ some v ];
}

-- A connection, with the addresses of its ends where it has them.
pub record Connection : Type 0 where
  pub id : ℕ
  pub remote_addr : Option String
  pub local_addr : Option String

-- The sets of the factory, and the transport that owns the connection.
pub record Dialled : Type 0 where
  pub remote : AddrSet
  pub local : AddrSet
  pub owned : OwnedTransport

pub data DialError : Type 0 where
  -- net.SplitHostPort failed.
  bad_address : DialError
  dial_failed : String → DialError

-- What a dial leaves: the sets and the transport, the connections that `track` closes at once, and what it returns.
pub record DialEnd : Type 0 where
  pub state : Dialled
  pub closing : List ℕ
  pub result : DialError ⊎ Connection

-- add, with no other call between its load and its swap.
unfoldable pub add_address : String → AddrSet → AddrSet
add_address a s = if str_eq a "" then s else (finish_add (record { address = a; seen = s }) s).0

module _ (split_host_port : String → Option (String × String))
    (join_host_port : String → String → String) where
  unfoldable pub add_host : Option String → AddrSet → AddrSet
  add_host none s = s
  add_host (some addr) s = add_address (host_only split_host_port join_host_port addr) s

  -- What both dial functions do with a connection.
  unfoldable pub file : Connection → Dialled → DialEnd
  file c d =
      let (owned, late) = track c.id d.owned in
      record {
        state = record {
          remote = add_host c.remote_addr d.remote;
          local = add_host c.local_addr d.local;
          owned = owned;
        };
        closing = late;
        result = inr c;
      }

  -- DialTLSContext of the clone, where the base has its own TLS dialer.
  unfoldable pub dial_tls : (String → String ⊎ Connection) → String → Dialled → DialEnd
  dial_tls inner addr d = elim (inner addr) [
    | inl err ↦ record { state = d; closing = []; result = inl (dial_failed err) }
    | inr c ↦ file c d
  ]

  -- DialContext of the clone.
  unfoldable pub dial :
      TransportFactory → (String → String ⊎ Connection) → String → Dialled → DialEnd
  dial f inner addr d = elim (dial_address split_host_port join_host_port f addr) [
    | none ↦ record { state = d; closing = []; result = inl bad_address }
    | some target ↦ dial_tls inner target d
  ]

add_address-member :
    (a : String) (s : AddrSet) → (a ≡ "") ⊎ (member a (add_address a s).addrs ≡ true)
unfolding add_address finish_add
add_address-member a s = elim (Bool-cases (str_eq a "")) [
  | inl blank ↦ inl ((eq_iff a "").0 blank)
  | inr named ↦ inr (ground (arith, named, member-append a a s.addrs, eq_iff a a))
]

module _ (split_host_port : String → Option (String × String))
    (join_host_port : String → String → String) where
  -- The host of an address is in the set, unless it is blank.
  abbrev IsListed : Option String → AddrSet → Type 0
  IsListed none s = Unit
  IsListed (some addr) s =
      (host_only split_host_port join_host_port addr ≡ "")
      ⊎ (member (host_only split_host_port join_host_port addr) s.addrs ≡ true)

  add_host-IsListed :
      (o : Option String) (s : AddrSet) → IsListed o (add_host split_host_port join_host_port o s)
  unfolding add_host
  add_host-IsListed none s = tt
  add_host-IsListed (some addr) s =
      add_address-member (host_only split_host_port join_host_port addr) s

  -- The address that is dialled: of the test endpoint, at the same port, for the origin where there is one, and
  -- else what was asked for.
  abbrev pub IsTarget : TransportFactory → String → String → Type 0
  IsTarget f addr target =
      ((target ≡ addr) × ((f.test_endpoint ≡ "") ⊎ (addr ≢ f.url_host_port)))
      ⊎ ((h : String) × (port : String) × (f.test_endpoint ≢ "")
          × (addr ≡ f.url_host_port)
          × (split_host_port addr ≡ some (h, port))
          × (target ≡ join_host_port f.test_endpoint port))

  dial_address-IsTarget :
      (f : TransportFactory) (addr target : String)
      → dial_address split_host_port join_host_port f addr ≡ some target
      → IsTarget f addr target
  unfolding dial_address
  dial_address-IsTarget f addr target h = elim (Bool-cases (str_eq f.test_endpoint "")) [
    | inl unset ↦ inl (ground arith, inl ((eq_iff f.test_endpoint "").0 unset))
    | inr override ↦ elim (Bool-cases (str_eq addr f.url_host_port)) [
      | inr other ↦
          inl (ground arith, inr (λ same. ground (arith, (eq_iff addr f.url_host_port).1 same)))
      | inl origin ↦ elim (Option-cases (split_host_port addr)) [
        | inl bad ↦ absurd (ground arith)
        | inr (split, is_split) ↦ inr (
          split.0,
          split.1,
          λ same. ground (arith, (eq_iff f.test_endpoint "").1 same),
          (eq_iff addr f.url_host_port).0 origin,
          ground arith,
          ground arith,
        )
      ]
    ]
  ]

  -- The hosts of the connection's ends are in the sets, and the transport has it or closes it.
  abbrev pub IsFiled : Connection → DialEnd → Type 0
  IsFiled c e =
      IsListed c.remote_addr e.state.remote
      × IsListed c.local_addr e.state.local
      × ((has c.id e.state.owned.conns || has c.id e.closing) ≡ true)

  tracked : (c : ℕ) (o : OwnedTransport) → (has c (track c o).0.conns || has c (track c o).1) ≡ true
  unfolding track
  tracked c o = ground arith

  file-IsFiled :
      (c : Connection) (d : Dialled) → IsFiled c (file split_host_port join_host_port c d)
  unfolding file
  file-IsFiled c d = (
    add_host-IsListed c.remote_addr d.remote,
    add_host-IsListed c.local_addr d.local,
    tracked c.id d.owned,
  )

  file_result :
      (made c : Connection) (d : Dialled)
      → (file split_host_port join_host_port made d).result ≡ inr c
      → made ≡ c
  unfolding file
  file_result made c d h = cc

  -- A connection that the transport's dial returns was made to the test endpoint, at the same port, if the address is
  -- the origin's and there is a test endpoint, and else to the address itself; the hosts of its ends are in the
  -- factory's sets, and the transport has filed it or is closing it.
  pub dial-IsTracked :
      (f : TransportFactory) (inner : String → String ⊎ Connection) (addr : String) (d : Dialled)
      (c : Connection)
      → (dial split_host_port join_host_port f inner addr d).result ≡ inr c
      → let e = dial split_host_port join_host_port f inner addr d in
        ((target : String) × IsTarget f addr target × (inner target ≡ inr c)) × IsFiled c e
  unfolding dial dial_tls
  dial-IsTracked f inner addr d c h =
      elim (Option-cases (dial_address split_host_port join_host_port f addr)) [
        | inl bad ↦ absurd (ground arith)
        | inr (target, is_target) ↦ elim (Sum-cases (inner target)) [
          | inl (err, failed) ↦ absurd (ground arith)
          | inr (made, got) ↦
              let same : dial split_host_port join_host_port f inner addr d
                  ≡ file split_host_port join_host_port made d =
                rw (dial, dial_tls, is_target, got) in
              let it : made ≡ c = file_result made c d (ap (λ e. e.result) (sym same) ∙ h) in
              (
                (target, dial_address-IsTarget f addr target is_target, got ∙ ap inr it),
                subst (IsFiled c) (sym same) (
                    subst (λ x. IsFiled x (file split_host_port join_host_port made d)) it
                      (file-IsFiled made d)),
              )
        ]
      ]
