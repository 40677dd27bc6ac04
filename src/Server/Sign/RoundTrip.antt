-- ===== src/Server/Sign/RoundTrip.antt =====
-- Issuing and checking agree: `SignURL` and `verifySignature` of server/sign.go.
use Prim.Native.String.{String}
use text.Mathlib.Text.{◌==◌ as str_eq}
use text.Mathlib.TextEquality.{eq_iff}
use netquality.Prelude.{
  ℕ, ◌≡◌, refl, ◌∙◌, sym, ap, inl, inr, true, false, not, List, [], ◌∷◌, Option, none, some, ℤ, ltb,
  arith, length, if◌then◌else◌, Bool-cases, Option-cases, Member, first, later,
}
use netquality.Server.Sign.{
  signature, Time, SignedRequest, max_subject_len, in_window, decode_sig, any_key, verify_parsed,
  verify_signature, bytes_eq,
}
use netquality.Server.Sign.Values.{
  Values, get, set, del, get-set, get-del, get-set_other, get-del_other,
}
use netquality.Server.Sign.Issue.{
  Url, unix_seconds, signed_query, request_of, sign_parsed, sign_url,
}

-- The parser reads the URL that is printed with this query: its path, and the query's values.
abbrev pub IsReadBack :
    {R : Type 0} → (String → Option (Url R)) → (Url R → String) → Url R → Values → Type 0
IsReadBack {R} parse_url print_url u q =
    (v : Url R) × (parse_url (print_url (record { path = u.path; query = q; other = u.other }))
      ≡ some v)
    × (v.path ≡ u.path)
    × ((k : String) → get k v.query ≡ get k q)

bytes_eq_refl : (xs : List ℕ) → bytes_eq xs xs ≡ true
bytes_eq_refl [] = refl
bytes_eq_refl (x ∷ xs) = ground (arith, bytes_eq_refl xs)

query-exp :
    (format_int : ℤ → String) (encode : List ℕ → String) (q : Values) (exp : ℤ) (sub : String)
    (sig : List ℕ)
    → get "exp" (signed_query format_int encode q exp sub sig) ≡ format_int exp
unfolding signed_query
query-exp format_int encode q exp sub sig = elim (Bool-cases (str_eq sub "")) [
  | inl empty ↦ rw (
    empty,
    get-set_other "sig" "exp" (encode sig) (del "sub" (set "exp" (format_int exp) q)) refl,
    get-del_other "sub" "exp" (set "exp" (format_int exp) q) refl,
    get-set "exp" (format_int exp) q,
  )
  | inr full ↦ rw (
    full,
    get-set_other "sig" "exp" (encode sig) (set "sub" sub (set "exp" (format_int exp) q)) refl,
    get-set_other "sub" "exp" sub (set "exp" (format_int exp) q) refl,
    get-set "exp" (format_int exp) q,
  )
]

query-sig :
    (format_int : ℤ → String) (encode : List ℕ → String) (q : Values) (exp : ℤ) (sub : String)
    (sig : List ℕ)
    → get "sig" (signed_query format_int encode q exp sub sig) ≡ encode sig
unfolding signed_query
query-sig format_int encode q exp sub sig = get-set "sig" (encode sig) (
    if not (str_eq sub "")
    then set "sub" sub (set "exp" (format_int exp) q)
    else del "sub" (set "exp" (format_int exp) q))

query-sub :
    (format_int : ℤ → String) (encode : List ℕ → String) (q : Values) (exp : ℤ) (sub : String)
    (sig : List ℕ)
    → get "sub" (signed_query format_int encode q exp sub sig) ≡ sub
unfolding signed_query
query-sub format_int encode q exp sub sig = elim (Bool-cases (str_eq sub "")) [
  | inl empty ↦ rw (
    empty,
    get-set_other "sig" "sub" (encode sig) (del "sub" (set "exp" (format_int exp) q)) refl,
    get-del "sub" (set "exp" (format_int exp) q),
    (eq_iff sub "").0 empty,
  )
  | inr full ↦ rw (
    full,
    get-set_other "sig" "sub" (encode sig) (set "sub" sub (set "exp" (format_int exp) q)) refl,
    get-set "sub" sub (set "exp" (format_int exp) q),
  )
]

any_key-Member :
    (parse_int : String → Option ℤ) (byte_length : String → ℕ)
    (encodings : List (String → Option (List ℕ))) (format_int : ℤ → String)
    (mac : List ℕ → String → List ℕ) (keys : List (List ℕ)) (key : List ℕ) (path : String) (exp : ℤ)
    (sub : String)
    → Member key keys
    → any_key parse_int byte_length encodings format_int mac keys
        (signature format_int mac key path exp sub)
        path
        exp
        sub
      ≡ true
unfolding any_key
any_key-Member parse_int byte_length encodings format_int mac [] key path exp sub m = elim m [ ]
any_key-Member parse_int byte_length encodings format_int mac (key ∷ keys) _ path exp sub first =
    rw (bytes_eq_refl (signature format_int mac key path exp sub))
any_key-Member parse_int byte_length encodings format_int mac (other ∷ keys) key path exp sub
      (later m) =
    ground
      (arith, any_key-Member parse_int byte_length encodings format_int mac keys key path exp sub m)

-- An encoded digest is not the empty text, which decodes to no bytes.
encode-full :
    (decode : String → Option (List ℕ)) (encode : List ℕ → String) (sig : List ℕ)
    → decode (encode sig) ≡ some sig
    → decode "" ≡ some []
    → length sig ≡ 32
    → str_eq (encode sig) "" ≡ false
encode-full decode encode sig inverse blank size = elim (Bool-cases (str_eq (encode sig) "")) [
  | inl empty ↦
      let same : encode sig ≡ "" = (eq_iff (encode sig) "").0 empty in
      let bytes : some sig ≡ some [] = sym inverse ∙ ap decode same ∙ blank in ground arith
  | inr full ↦ full
]

format_int-full :
    (parse_int : String → Option ℤ) (format_int : ℤ → String) (n : ℤ)
    → parse_int (format_int n) ≡ some n
    → parse_int "" ≡ none
    → str_eq (format_int n) "" ≡ false
format_int-full parse_int format_int n inverse blank =
    elim (Bool-cases (str_eq (format_int n) "")) [
      | inl empty ↦
          let same : format_int n ≡ "" = (eq_iff (format_int n) "").0 empty in
          let bytes : some n ≡ none = sym inverse ∙ ap parse_int same ∙ blank in ground arith
      | inr full ↦ full
    ]

decode_sig-first :
    (decode : String → Option (List ℕ)) (encodings : List (String → Option (List ℕ))) (s : String)
    (sig : List ℕ)
    → decode s ≡ some sig
    → length sig ≡ 32
    → decode_sig (decode ∷ encodings) s ≡ some sig
unfolding decode_sig
decode_sig-first decode encodings s sig decoded size = ground arith

module _ {R : Type 0} (parse_url : String → Option (Url R)) (print_url : Url R → String)
    (format_int : ℤ → String) (parse_int : String → Option ℤ) (encode : List ℕ → String)
    (decode : String → Option (List ℕ)) (encodings : List (String → Option (List ℕ)))
    (byte_length : String → ℕ) (mac : List ℕ → String → List ℕ) where
  -- What verifySignature reads in the issued query is what SignURL put in.
  verify-signed :
      (r : SignedRequest) (keys : List (List ℕ)) (key : List ℕ) (now : Time) (exp : ℤ)
      (sub : String)
      → r.exp ≡ format_int exp
      → r.sig ≡ encode (signature format_int mac key r.path exp sub)
      → r.sub ≡ sub
      → parse_int (format_int exp) ≡ some exp
      → parse_int "" ≡ none
      → decode (encode (signature format_int mac key r.path exp sub))
        ≡ some (signature format_int mac key r.path exp sub)
      → decode "" ≡ some []
      → length (signature format_int mac key r.path exp sub) ≡ 32
      → Member key keys
      → in_window exp now ≡ true
      → ltb max_subject_len (byte_length sub) ≡ false
      → verify_signature parse_int byte_length (decode ∷ encodings) format_int mac r keys now
        ≡ some sub
  unfolding verify_signature verify_parsed
  verify-signed r [] key now exp sub e_exp e_sig e_sub int_back int_blank back blank size m timely
        short =
      elim m [ ]
  verify-signed r (k ∷ keys) key now exp sub e_exp e_sig e_sub int_back int_blank back blank size m
        timely short =
      let exp_full : str_eq r.exp "" ≡ false =
        rw (e_exp, format_int-full parse_int format_int exp int_back int_blank) in
      let sig_full : str_eq r.sig "" ≡ false = rw (
        e_sig,
        encode-full decode encode (signature format_int mac key r.path exp sub) back blank size,
      ) in
      let parsed : parse_int r.exp ≡ some exp = rw (e_exp, int_back) in
      let decoded : decode_sig (decode ∷ encodings) r.sig
          ≡ some (signature format_int mac key r.path exp sub) =
        rw (
          e_sig,
          decode_sig-first decode encodings (encode (signature format_int mac key r.path exp sub))
              (signature format_int mac key r.path exp sub) back size,
        ) in
      let found : any_key parse_int byte_length (decode ∷ encodings) format_int mac (k ∷ keys)
            (signature format_int mac key r.path exp sub) r.path exp r.sub
          ≡ true =
        rw (
          e_sub,
          any_key-Member parse_int byte_length (decode ∷ encodings) format_int mac (k ∷ keys) key
              r.path exp sub m,
        ) in
      let same_length : ltb max_subject_len (byte_length r.sub) ≡ false = rw (e_sub, short) in
      rw (exp_full, sig_full, parsed, timely, same_length, decoded, found, e_sub) (ground arith)

  -- A URL that SignURL issues is accepted: the server that holds the key among its own, while the
  -- expiry is in its window, reads back the subject that was signed. The parsers are taken to read
  -- what the printers write here (the expiry, the URL with its new query, the digest in the first
  -- encoding), the empty text to be no number and to decode to no bytes, and a digest to have 32
  -- bytes.
  pub sign_url-accepted :
      (keys : List (List ℕ)) (key : List ℕ) (now expiry : Time) (raw sub signed : String)
      → ((u : Url R)
          → parse_url raw ≡ some u
          → IsReadBack parse_url print_url u (
              signed_query format_int encode u.query
                (unix_seconds expiry)
                sub
                (signature format_int mac key u.path (unix_seconds expiry) sub)))
      → parse_int (format_int (unix_seconds expiry)) ≡ some (unix_seconds expiry)
      → parse_int "" ≡ none
      → ((path : String)
          → decode (encode (signature format_int mac key path (unix_seconds expiry) sub))
            ≡ some (signature format_int mac key path (unix_seconds expiry) sub))
      → decode "" ≡ some []
      → ((path : String)
          → length (signature format_int mac key path (unix_seconds expiry) sub) ≡ 32)
      → Member key keys
      → in_window (unix_seconds expiry) now ≡ true
      → sign_url parse_url print_url format_int encode byte_length mac key raw expiry sub
        ≡ inr signed
      → (v : Url R) × (parse_url signed ≡ some v)
        × (verify_signature parse_int byte_length
              (decode ∷ encodings)
              format_int
              mac
              (request_of v)
              keys
              now
            ≡ some sub)
  unfolding sign_url sign_parsed request_of
  sign_url-accepted keys key now expiry raw sub signed url_back int_back int_blank back blank size m
        timely issued =
      elim (Option-cases (parse_url raw)) [
        | inl bad ↦ ground arith
        | inr (u, parsed) ↦
            let exp = unix_seconds expiry in
            let query =
              signed_query format_int encode u.query exp sub
                (signature format_int mac key u.path exp sub) in
            let (v, parsed_back, same_path, same_query) = url_back u parsed in
            let printed : print_url (record { path = u.path; query = query; other = u.other })
                ≡ signed =
              ground arith in
            let short : ltb max_subject_len (byte_length sub) ≡ false = ground arith in
            (
              v,
              ap parse_url (sym printed) ∙ parsed_back,
              verify-signed (request_of v) keys key now exp sub
                  (same_query "exp"
                    ∙ query-exp format_int encode u.query exp sub
                        (signature format_int mac key u.path exp sub))
                  (same_query "sig"
                    ∙ query-sig format_int encode u.query exp sub
                        (signature format_int mac key u.path exp sub)
                    ∙ ap (λ p. encode (signature format_int mac key p exp sub)) (sym same_path))
                  (same_query "sub"
                    ∙ query-sub format_int encode u.query exp sub
                        (signature format_int mac key u.path exp sub))
                  int_back int_blank (back v.path) blank (size v.path) m timely short,
            )
      ]
