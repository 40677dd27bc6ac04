-- ===== src/Server/Certificate/Names.antt =====
-- Whom a self-signed certificate of server/server.go is for.
use Prim.Native.String.{String}
use text.Mathlib.Text.{◌==◌ as str_eq}
use text.Mathlib.TextEquality.{eq_iff}
use netquality.Prelude.{
  map, ◌*◌, ◌^◌, ◌≡◌, refl, ap, ◌∙◌, ◌⊎◌, inl, inr, false, List, [], ◌∷◌, Option, none, some, pos,
  negsuc, Member, first, later, Member-append, Member_last, ◌≤ℤ◌, ◌<ℤ◌, add64, wrap, ◌+ℤ◌, arith,
  Bool-cases, Option-cases, Sum-cases, All,
}
use netquality.Server.Sign.{Time, add_seconds, after}
use netquality.Server.Certificate.{
  Template, Certificate, name_host, name_hosts, template, self_signed_cert,
}

-- The names of the second template are among those of the first.
abbrev IsWider : {A : Type 0} → Template A → Template A → Type 0
IsWider {A} t u =
    ((h : String) → Member h u.dns_names → Member h t.dns_names)
    × ((ip : A) → Member ip u.ip_addresses → Member ip t.ip_addresses)
    × (t.not_before ≡ u.not_before)
    × (t.not_after ≡ u.not_after)

-- A certificate is for a host: by its address, in the given form, or by its name, which is not blank.
abbrev pub IsNamed : {A : Type 0} → (String → Option A) → (A → A) → Template A → String → Type 0
IsNamed {A} parse_ip form t h =
    ((ip : A) × (parse_ip h ≡ some ip) × Member (form ip) t.ip_addresses)
    ⊎ ((parse_ip h ≡ none) × ((h ≡ "") ⊎ Member h t.dns_names))

module _ {A : Type 0} (parse_ip : String → Option A) where
  name_host-IsWider : (h : String) (t : Template A) → IsWider (name_host parse_ip h t) t
  unfolding name_host
  name_host-IsWider h t = elim (Option-cases (parse_ip h)) [
    | inr (ip, is_ip) ↦
        rw (name_host, is_ip)
          ((λ x m. m), (λ x m. Member-append x t.ip_addresses (ip ∷ []) m), refl, refl)
    | inl named ↦ elim (Bool-cases (str_eq h "")) [
      | inl blank ↦ rw (name_host, named, blank) ((λ x m. m), (λ x m. m), refl, refl)
      | inr filled ↦
          rw (name_host, named, filled)
            ((λ x m. Member-append x t.dns_names (h ∷ []) m), (λ x m. m), refl, refl)
    ]
  ]

  name_host-IsNamed :
      (h : String) (t : Template A) → IsNamed parse_ip (λ ip. ip) (name_host parse_ip h t) h
  unfolding name_host
  name_host-IsNamed h t = elim (Option-cases (parse_ip h)) [
    | inr (ip, is_ip) ↦ rw (name_host, is_ip) (inl (ip, refl, Member_last ip t.ip_addresses))
    | inl named ↦ elim (Bool-cases (str_eq h "")) [
      | inl blank ↦ rw (name_host, named, blank) (inr (refl, inl ((eq_iff h "").0 blank)))
      | inr filled ↦ rw (name_host, named, filled) (inr (refl, inr (Member_last h t.dns_names)))
    ]
  ]

  name_hosts-IsWider : (hs : List String) (t : Template A) → IsWider (name_hosts parse_ip hs t) t
  unfolding name_hosts
  name_hosts-IsWider [] t = ((λ x m. m), (λ x m. m), refl, refl)
  name_hosts-IsWider (h ∷ hs) t =
      let (names, ips, start, end) = name_hosts-IsWider hs (name_host parse_ip h t) in
      let (more_names, more_ips, same_start, same_end) = name_host-IsWider h t in
      (
        (λ x m. names x (more_names x m)),
        (λ x m. ips x (more_ips x m)),
        start ∙ same_start,
        end ∙ same_end,
      )

  wider-IsNamed :
      (t u : Template A) (h : String)
      → IsWider t u
      → IsNamed parse_ip (λ ip. ip) u h
      → IsNamed parse_ip (λ ip. ip) t h
  wider-IsNamed t u h (names, ips, start, end) (inl (ip, is_ip, m)) = inl (ip, is_ip, ips ip m)
  wider-IsNamed t u h (names, ips, start, end) (inr (named, inl blank)) = inr (named, inl blank)
  wider-IsNamed t u h (names, ips, start, end) (inr (named, inr m)) = inr (named, inr (names h m))

  name_hosts-IsNamed :
      (hs : List String) (t : Template A)
      → All (IsNamed parse_ip (λ ip. ip) (name_hosts parse_ip hs t)) hs
  unfolding name_hosts
  name_hosts-IsNamed [] t = tt
  name_hosts-IsNamed (h ∷ hs) t =
      let u = name_host parse_ip h t in
      (
        wider-IsNamed (name_hosts parse_ip hs u) u h (name_hosts-IsWider hs u)
            (name_host-IsNamed h t),
        name_hosts-IsNamed hs u,
      )

-- A certificate holds its times in whole seconds.
abbrev in_seconds : Time → Time
in_seconds t = record { sec = t.sec; nsec = 0 }

-- What a certificate that is made of a template holds of it; `short` gives an address its shortest form.
abbrev pub written : {A : Type 0} → (A → A) → Template A → Template A
written short t = record {
  not_before = in_seconds t.not_before;
  not_after = in_seconds t.not_after;
  dns_names = t.dns_names;
  ip_addresses = map short t.ip_addresses;
}

Member-map :
    {A B : Type 0} (f : A → B) (x : A) (xs : List A) → Member x xs → Member (f x) (map f xs)
Member-map f x (_ ∷ xs) first = first
Member-map f x (y ∷ xs) (later m) = later (Member-map f x xs m)
Member-map f x [] m = elim m [ ]

-- An hour before a reading is not after it, nor a year after another before the year is over.
valid_between :
    (now0 now1 at : Time)
    → pos 0 ≤ℤ now0.sec
    → now0.sec <ℤ pos (2 ^ 62)
    → pos 0 ≤ℤ now1.sec
    → now1.sec <ℤ pos (2 ^ 62)
    → after now0 at ≡ false
    → at.sec <ℤ now1.sec +ℤ pos (365 * 24 * 3600)
    → (after (in_seconds (add_seconds now0 (negsuc 3599))) at ≡ false)
      × (after at (in_seconds (add_seconds now1 (pos (365 * 24 * 3600)))) ≡ false)
unfolding after add_seconds add64 wrap ◌+ℤ◌
valid_between now0 now1 at lo0 hi0 lo1 hi1 begun going = ground arith

module _ {A : Type 0} (parse_ip : String → Option A) (short : A → A) where
  written-IsNamed :
      (t : Template A) (h : String)
      → IsNamed parse_ip (λ ip. ip) t h
      → IsNamed parse_ip short (written short t) h
  written-IsNamed t h (inl (ip, is_ip, m)) = inl (ip, is_ip, Member-map short ip t.ip_addresses m)
  written-IsNamed t h (inr (named, m)) = inr (named, m)

  All-written :
      (t : Template A) (hs : List String)
      → All (IsNamed parse_ip (λ ip. ip) t) hs
      → All (IsNamed parse_ip short (written short t)) hs
  All-written t [] all = tt
  All-written t (h ∷ hs) (n, all) = (written-IsNamed t h n, All-written t hs all)

  -- The certificate is valid at a time, for localhost, the loopback addresses and the hosts.
  abbrev pub IsFor : A → A → Time → List String → Template A → Type 0
  IsFor v4 v6 at hosts t =
      (after t.not_before at ≡ false)
      × (after at t.not_after ≡ false)
      × Member "localhost" t.dns_names
      × Member (short v4) t.ip_addresses
      × Member (short v6) t.ip_addresses
      × All (IsNamed parse_ip short t) hosts

  template-IsFor :
      (v4 v6 : A) (now0 now1 at : Time) (hosts : List String)
      → pos 0 ≤ℤ now0.sec
      → now0.sec <ℤ pos (2 ^ 62)
      → pos 0 ≤ℤ now1.sec
      → now1.sec <ℤ pos (2 ^ 62)
      → after now0 at ≡ false
      → at.sec <ℤ now1.sec +ℤ pos (365 * 24 * 3600)
      → IsFor v4 v6 at hosts (written short (template parse_ip v4 v6 now0 now1 hosts))
  unfolding template
  template-IsFor v4 v6 now0 now1 at hosts lo0 hi0 lo1 hi1 begun going =
      let base : Template A = record {
        not_before = add_seconds now0 (negsuc 3599);
        not_after = add_seconds now1 (pos (365 * 24 * 3600));
        dns_names = "localhost" ∷ [];
        ip_addresses = v4 ∷ v6 ∷ [];
      } in
      let t = name_hosts parse_ip hosts base in
      let (names, ips, start, end) = name_hosts-IsWider parse_ip hosts base in
      let (from, until) = valid_between now0 now1 at lo0 hi0 lo1 hi1 begun going in
      (
        ap (λ x. after (in_seconds x) at) start ∙ from,
        ap (λ x. after at (in_seconds x)) end ∙ until,
        names "localhost" first,
        Member-map short v4 t.ip_addresses (ips v4 first),
        Member-map short v6 t.ip_addresses (ips v6 (later first)),
        All-written t hosts (name_hosts-IsNamed parse_ip hosts base),
      )

-- Why there is no certificate: no key, no serial number, or no signature.
abbrev pub IsFailed : {D : Type 0} → Option String → Option String → String ⊎ D → String → Type 0
IsFailed key_error serial_error signed err =
    (key_error ≡ some err)
    ⊎ ((key_error ≡ none) × (serial_error ≡ some err))
    ⊎ ((key_error ≡ none) × (serial_error ≡ none) × (signed ≡ inl err))

module _ {A : Type 0} (parse_ip : String → Option A) (short : A → A) where
  -- Making a self-signed certificate gives the error of the key, the serial number or the signature, or a certificate
  -- that from then on is valid for a year, for localhost, for both loopback addresses, and for each host that is given:
  -- for its address where it is one, and else for its name unless that is blank; given a reader that reads of a
  -- certificate what was signed, its times in whole seconds and its addresses in their shortest form, and a wall clock
  -- within its range at both readings.
  pub self_signed_cert-IsFor :
      {D : Type 0} (key_error serial_error : Option String) (create : Template A → String ⊎ D)
      (parse : D → String ⊎ Template A) (v4 v6 : A) (now0 now1 at : Time) (hosts : List String)
      → ((t : Template A) (der : D) → create t ≡ inr der → parse der ≡ inr (written short t))
      → pos 0 ≤ℤ now0.sec
      → now0.sec <ℤ pos (2 ^ 62)
      → pos 0 ≤ℤ now1.sec
      → now1.sec <ℤ pos (2 ^ 62)
      → after now0 at ≡ false
      → at.sec <ℤ now1.sec +ℤ pos (365 * 24 * 3600)
      → let made =
          self_signed_cert parse_ip key_error serial_error create parse v4 v6 now0 now1 hosts in
        ((err : String) × (made ≡ inl err)
          × IsFailed key_error serial_error (create (template parse_ip v4 v6 now0 now1 hosts)) err)
        ⊎ ((cert : Certificate A D) × (made ≡ inr cert)
            × IsFor parse_ip short v4 v6 at hosts cert.leaf
            × (create (template parse_ip v4 v6 now0 now1 hosts) ≡ inr cert.der)
            × (parse cert.der ≡ inr cert.leaf))
  unfolding self_signed_cert
  self_signed_cert-IsFor key_error serial_error create parse v4 v6 now0 now1 at hosts reads lo0 hi0
        lo1 hi1 begun going =
      let t = template parse_ip v4 v6 now0 now1 hosts in
      elim (Option-cases key_error) [
        | inr (err, no_key) ↦ inl (err, rw (self_signed_cert, no_key) refl, inl no_key)
        | inl keyed ↦ elim (Option-cases serial_error) [
          | inr (err, no_serial) ↦
              inl (err, rw (self_signed_cert, keyed, no_serial) refl, inr (inl (keyed, no_serial)))
          | inl numbered ↦ elim (Sum-cases (create t)) [
            | inl (err, unsigned) ↦ inl (
              err,
              rw (self_signed_cert, keyed, numbered, unsigned) refl,
              inr (inr (keyed, numbered, unsigned)),
            )
            | inr (der, signed) ↦ inr (
              record { der = der; leaf = written short t },
              rw (self_signed_cert, keyed, numbered, signed, reads t der signed) refl,
              template-IsFor parse_ip short v4 v6 now0 now1 at hosts lo0 hi0 lo1 hi1 begun going,
              signed,
              reads t der signed,
            )
          ]
        ]
      ]
