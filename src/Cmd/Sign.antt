-- ===== src/Cmd/Sign.antt =====
-- `nqserver sign`: `runSign` of cmd/nqserver/main.go.
--
-- The flag package, the random source and the parser of keys are arguments, as is SignURL here, a function of
-- the key, the URL, the expiry and the subject: Server.Sign.Issue has it.
use Prim.Native.String.{String}
use netquality.Prelude.{
  ℕ, ◌+◌, ◌-◌, ◌*◌, ◌/◌, ◌%◌, ◌^◌, ◌≤◌, ◌<◌, ◌≡◌, refl, ap, sym, subst, ◌∙◌, ◌⊎◌, inl, inr,
  Sum-cases, ◌==◌, Bool, true, false, ◌||◌, List, [], ◌∷◌, Option, none, some, ℤ, pos, negsuc, leb,
  ltb_ℤ, leb_ℤ, ◌<ℤ◌, ◌≤ℤ◌, ◌+ℤ◌, add64, wrap, pos_part, length, arith, if◌then◌else◌, Option-cases,
}
use netquality.Server.Sign.{Time, unix, after, add_seconds, in_window}
use netquality.Server.Sign.Issue.{SignError, unix_seconds}
use netquality.Cmd.Server.{exit_ok, exit_fail, exit_usage}

pub record Flags : Type 0 where
  pub key : String
  pub ttl : ℤ
  pub sub : String
  pub new_key : Bool
  pub urls : List String

pub data Parsed : Type 0 where
  help_asked : Parsed
  bad_flags : Parsed
  flags : Flags → Parsed

-- Time.Add of a duration that is not negative, in nanoseconds.
unfoldable pub add_duration : Time → ℕ → Time
add_duration t ns =
    let sum = t.nsec + ns % 10 ^ 9 in
    let carry = if leb (10 ^ 9) sum then 1 else 0 in
    record {
      sec = add64 t.sec (pos (ns / 10 ^ 9 + carry));
      nsec = if leb (10 ^ 9) sum then sum - 10 ^ 9 else sum;
    }

-- server.MaxSignatureTTL
abbrev pub max_ttl : ℤ
max_ttl = pos (24 * 3600 * 10 ^ 9)

-- What is printed to standard output, line by line.
pub record Printed : Type 0 where
  pub code : ℕ
  pub lines : List String

add64_small : (s d : ℕ) → s < 2 ^ 62 → d ≤ 10 ^ 6 → add64 (pos s) (pos d) ≡ pos (s + d)
unfolding add64 wrap ◌+ℤ◌
add64_small s d hi day = ground arith

there_and_back :
    (t : ℕ)
    → t < 2 ^ 62
    → add64 (add64 (pos t) (negsuc 62_135_596_799)) (pos 62_135_596_800) ≡ pos t
unfolding add64 wrap ◌+ℤ◌
there_and_back t hi = ground arith

window_of :
    (s d n : ℕ)
    → s < 2 ^ 61
    → d ≤ 86_401
    → in_window (add64 (pos (s + d)) (negsuc 62_135_596_799)) (record { sec = pos s; nsec = n })
      ≡ true
unfolding in_window after unix add_seconds
window_of s d n hi day =
    rw
      (
        there_and_back (s + d) (omega arith),
        add64_small (s + d) 30 (omega arith) (omega arith),
        add64_small s 86_430 (omega arith) (omega arith),
      )
      ground arith

abbrev carried : ℕ → ℕ → ℕ
carried n ttl = ttl / 10 ^ 9 + (if leb (10 ^ 9) (n + ttl % 10 ^ 9) then 1 else 0)

carried_le : (n ttl : ℕ) → ttl ≤ 24 * 3600 * 10 ^ 9 → carried n ttl ≤ 86_401
carried_le n ttl day = ground arith

expiry_at :
    (sec : ℤ) (n ttl : ℕ)
    → pos 0 ≤ℤ sec
    → sec <ℤ pos (2 ^ 61)
    → ttl ≤ 24 * 3600 * 10 ^ 9
    → in_window
        (add64 (add64 sec (pos (carried n ttl))) (negsuc 62_135_596_799))
        (record { sec = sec; nsec = n })
      ≡ true
expiry_at (pos s) n ttl lo hi day =
    let late : carried n ttl ≤ 86_401 = carried_le n ttl day in
    rw (add64_small s (carried n ttl) (omega arith) (omega arith))
      (window_of s (carried n ttl) n (omega arith) late)
expiry_at (negsuc s) n ttl lo hi day = let none_left : ⊥ = omega arith in elim none_left [ ]

-- A URL that expires at most 24 hours from now is in its window now.
expiry-in_window :
    (now : Time) (ttl : ℕ)
    → pos 0 ≤ℤ now.sec
    → now.sec <ℤ pos (2 ^ 61)
    → ttl ≤ 24 * 3600 * 10 ^ 9
    → in_window (unix_seconds (add_duration now ttl)) now ≡ true
unfolding unix_seconds add_duration
expiry-in_window now ttl lo hi day = expiry_at now.sec now.nsec ttl lo hi day

day_of : (t : ℤ) → pos 0 <ℤ t → t ≤ℤ max_ttl → pos_part t ≤ 24 * 3600 * 10 ^ 9
day_of (pos t) positive lasting = omega arith
day_of (negsuc t) positive lasting = omega arith

module _ (parse_key : String → Option (List ℕ))
    (sign_url : List ℕ → String → Time → String → SignError ⊎ String) where
  -- The loop over the URLs: it ends at the first that cannot be signed.
  unfoldable pub sign_all : List ℕ → Time → String → List String → Printed
  sign_all key expiry sub [] = record { code = exit_ok; lines = [] }
  sign_all key expiry sub (u ∷ us) = elim (sign_url key u expiry sub) [
    | inl err ↦ record { code = exit_usage; lines = [] }
    | inr signed ↦
        let rest = sign_all key expiry sub us in
        record { code = rest.code; lines = signed ∷ rest.lines }
  ]

  unfoldable pub sign_with : Flags → Time → Printed
  sign_with f now =
      if length f.urls == 0
      then record { code = exit_usage; lines = [] }
      else if leb_ℤ f.ttl (pos 0) || ltb_ℤ max_ttl f.ttl
      then record { code = exit_usage; lines = [] }
      else elim (parse_key f.key) [
        | none ↦ record { code = exit_usage; lines = [] }
        | some key ↦ sign_all key (add_duration now (pos_part f.ttl)) f.sub f.urls
      ]

  -- `random` is the new key in hexadecimal, where the random source works.
  unfoldable pub run_sign : Option String → Parsed → Time → Printed
  run_sign random help_asked now = record { code = exit_ok; lines = [] }
  run_sign random bad_flags now = record { code = exit_usage; lines = [] }
  run_sign random (flags f) now =
      if f.new_key
      then elim random [
        | none ↦ record { code = exit_fail; lines = [] }
        | some key ↦ record { code = exit_ok; lines = key ∷ [] }
      ]
      else sign_with f now

  -- Every URL has its line, signed with the key.
  abbrev pub IsSignedBy : List ℕ → Time → String → List String → List String → Type 0
  IsSignedBy key expiry sub [] [] = Unit
  IsSignedBy key expiry sub [] (l ∷ ls) = ⊥
  IsSignedBy key expiry sub (u ∷ us) [] = ⊥
  IsSignedBy key expiry sub (u ∷ us) (l ∷ ls) =
      (sign_url key u expiry sub ≡ inr l) × IsSignedBy key expiry sub us ls

  sign_all-IsSignedBy :
      (key : List ℕ) (expiry : Time) (sub : String) (urls : List String)
      → (sign_all key expiry sub urls).code ≡ exit_ok
      → IsSignedBy key expiry sub urls (sign_all key expiry sub urls).lines
  unfolding sign_all
  sign_all-IsSignedBy key expiry sub [] h = tt
  sign_all-IsSignedBy key expiry sub (u ∷ us) h = elim (Sum-cases (sign_url key u expiry sub)) [
    | inl (err, bad) ↦ ground arith
    | inr (signed, good) ↦
        let rest : (sign_all key expiry sub us).code ≡ exit_ok = ground arith in
        rw (sign_all, IsSignedBy, good) (good, sign_all-IsSignedBy key expiry sub us rest)
  ]

  -- `nqserver sign` that succeeds without --new-key, at a wall clock within its range, had a URL, a key that the
  -- key's text gives and a positive lifetime of at most 24 hours, and has printed each URL signed, in order, with an
  -- expiry that the server accepts at that time.
  pub run_sign-IsSignedBy :
      (random : Option String) (f : Flags) (now : Time)
      → pos 0 ≤ℤ now.sec
      → now.sec <ℤ pos (2 ^ 61)
      → f.new_key ≡ false
      → (run_sign random (flags f) now).code ≡ exit_ok
      → (key : List ℕ) × (parse_key f.key ≡ some key)
        × (0 < length f.urls)
        × (pos 0 <ℤ f.ttl)
        × (f.ttl ≤ℤ max_ttl)
        × (in_window (unix_seconds (add_duration now (pos_part f.ttl))) now ≡ true)
        × IsSignedBy key
            (add_duration now (pos_part f.ttl))
            f.sub
            f.urls
            (run_sign random (flags f) now).lines
  unfolding run_sign sign_with
  run_sign-IsSignedBy random f now lo hi plain ok = elim (Option-cases (parse_key f.key)) [
    | inl bad ↦ let none_left : ⊥ = ground arith in elim none_left [ ]
    | inr (key, read) ↦
        let some_url : (length f.urls == 0) ≡ false = ground arith in
        let in_range : (leb_ℤ f.ttl (pos 0) || ltb_ℤ max_ttl f.ttl) ≡ false = ground arith in
        let signed : run_sign random (flags f) now
            ≡ sign_all key (add_duration now (pos_part f.ttl)) f.sub f.urls =
          rw (run_sign, sign_with, plain, some_url, in_range, read) refl in
        let positive : pos 0 <ℤ f.ttl = ground arith in
        let lasting : f.ttl ≤ℤ max_ttl = ground arith in
        let day : pos_part f.ttl ≤ 24 * 3600 * 10 ^ 9 = day_of f.ttl positive lasting in
        (
          key,
          read,
          ground arith,
          positive,
          lasting,
          expiry-in_window now (pos_part f.ttl) lo hi day,
          subst (λ p. IsSignedBy key (add_duration now (pos_part f.ttl)) f.sub f.urls p.lines)
              (sym signed)
              (sign_all-IsSignedBy key (add_duration now (pos_part f.ttl)) f.sub f.urls
                (ap (λ p. p.code) (sym signed) ∙ ok)),
        )
  ]
