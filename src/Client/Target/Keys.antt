-- ===== src/Client/Target/Keys.antt =====
-- `checkDuplicateKeys` of target.go: the keys of a JSON object, read token by token.
--
-- The decoder of encoding/json is an argument: a state, its Token, More and Decode of a raw value.
use Prim.Native.String.{String}
use text.Mathlib.Text.{◌==◌ as str_eq}
use netquality.Prelude.{
  ℕ, zero, suc, ◌≡◌, ◌≢◌, ◌≤◌, ◌<◌, ◌↔◌, inl, inr, Bool, true, false, ◌||◌, List, [], ◌∷◌, Option,
  none, some, arith, if◌then◌else◌, Bool-cases, Option-cases,
}

pub data Token : Type 0 where
  word : String → Token
  delim : String → Token
  other : Token

pub data ConfigError : Type 0 where
  bad_json not_object missing_version bad_version missing_urls bad_urls missing_url : ConfigError
  duplicate_key : String → ConfigError
  bad_url : String → ConfigError
  different_hosts : String → String → ConfigError

-- `unfinished` stands for a loop that has run out of fuel.
pub data Verdict : Type 0 where
  passed : Verdict
  refused : ConfigError → Verdict
  unfinished : Verdict

-- key, _ := tok.(string)
unfoldable pub key_of : Token → String
key_of (word s) = s
key_of (delim c) = ""
key_of other = ""

unfoldable pub is_brace : Token → Bool
is_brace (word s) = false
is_brace (delim c) = str_eq c "{"
is_brace other = false

unfoldable pub seen_in : List String → String → Bool
seen_in [] k = false
seen_in (j ∷ seen) k = str_eq j k || seen_in seen k

-- None of the keys is among those seen or before it.
abbrev pub IsFresh : List String → List String → Type 0
IsFresh seen [] = Unit
IsFresh seen (k ∷ ks) = (seen_in seen k ≡ false) × IsFresh (k ∷ seen) ks

module _ {D : Type 0} (token : D → Option (Token × D)) (more : D → Bool) (skip : D → Option D) where
  unfoldable pub entries : ℕ → D → List String → Verdict
  entries zero d seen = unfinished
  entries (suc n) d seen =
      if more d
      then elim (token d) [
        | none ↦ refused bad_json
        | some (t, d1) ↦
            if seen_in seen (key_of t) then refused (duplicate_key (key_of t)) else elim (skip d1) [
              | none ↦ refused bad_json
              | some d2 ↦ entries n d2 (key_of t ∷ seen)
            ]
      ]
      else passed

  -- A loop that starts with `remaining d1` bytes to read.
  unfoldable pub check_duplicate_keys : (D → ℕ) → D → Verdict
  check_duplicate_keys remaining d = elim (token d) [
    | none ↦ refused bad_json
    | some (t, d1) ↦ if is_brace t then entries (suc (remaining d1)) d1 [] else refused not_object
  ]

  -- The keys that the decoder yields up to the object's end.
  pub data Reads : D → List String → Type 0 where
    ends : {d : D} → more d ≡ false → Reads d []
    reads :
        {d d1 d2 : D} {t : Token} {ks : List String}
        → more d ≡ true
        → token d ≡ some (t, d1)
        → skip d1 ≡ some d2
        → Reads d2 ks
        → Reads d (key_of t ∷ ks)

  entries-Reads :
      (n : ℕ) (d : D) (seen : List String)
      → entries n d seen ≡ passed
      → (ks : List String) × Reads d ks × IsFresh seen ks
  unfolding entries
  entries-Reads zero d seen h = ground arith
  entries-Reads (suc n) d seen h = elim (Bool-cases (more d)) [
    | inr done ↦ ([], ends done, tt)
    | inl going ↦ elim (Option-cases (token d)) [
      | inl bad ↦ ground arith
      | inr ((t, d1), got) ↦ elim (Option-cases (skip d1)) [
        | inl bad ↦ ground arith
        | inr (d2, skipped) ↦
            let fresh : seen_in seen (key_of t) ≡ false = ground arith in
            let rest : entries n d2 (key_of t ∷ seen) ≡ passed = ground arith in
            let (ks, r, f) = entries-Reads n d2 (key_of t ∷ seen) rest in
            (key_of t ∷ ks, reads going got skipped r, (fresh, f))
      ]
    ]
  ]

  module _ (remaining : D → ℕ)
      (token-shrinks : (d d1 : D) (t : Token) → token d ≡ some (t, d1) → remaining d1 < remaining d)
      (skip-shrinks : (d d1 : D) → skip d ≡ some d1 → remaining d1 ≤ remaining d) where
    entries_complete :
        (n : ℕ) (d : D) (seen ks : List String)
        → remaining d < n
        → Reads d ks
        → IsFresh seen ks
        → entries n d seen ≡ passed
    unfolding entries
    entries_complete zero d seen ks room r fresh = ground arith
    entries_complete (suc n) d seen [] room (ends done) fresh = rw done
    entries_complete (suc n) d seen (k ∷ ks) room (reads {d1 = d1} {d2} {t} going got skipped r)
          (new, fresh) =
        let less : remaining d1 < remaining d = token-shrinks d d1 t got in
        let fewer : remaining d2 ≤ remaining d1 = skip-shrinks d1 d2 skipped in
        rw (
          going,
          got,
          new,
          skipped,
          entries_complete n d2 (key_of t ∷ seen) ks (omega arith) r fresh,
        )

    entries_finishes :
        (n : ℕ) (d : D) (seen : List String) → remaining d < n → entries n d seen ≢ unfinished
    unfolding entries
    entries_finishes zero d seen room h = ground arith
    entries_finishes (suc n) d seen room h = elim (Option-cases (token d)) [
      | inl bad ↦ ground arith
      | inr ((t, d1), got) ↦ elim (Option-cases (skip d1)) [
        | inl bad ↦ ground arith
        | inr (d2, skipped) ↦
            let less : remaining d1 < remaining d = token-shrinks d d1 t got in
            let fewer : remaining d2 ≤ remaining d1 = skip-shrinks d1 d2 skipped in
            ground (arith, entries_finishes n d2 (key_of t ∷ seen) (omega arith))
      ]
    ]

    -- Given that a token read leaves less of the text to read, and a value skipped no more, the check of
    -- a document passes exactly when it opens an object whose keys, up to its end, differ from each other.
    pub check_duplicate_keys_iff :
        (d : D)
        → (check_duplicate_keys remaining d ≡ passed) ↔ (
            (t : Token) × (d1 : D) × (token d ≡ some (t, d1))
            × (is_brace t ≡ true)
            × ((ks : List String) × Reads d1 ks × IsFresh [] ks))
    unfolding check_duplicate_keys
    check_duplicate_keys_iff d = (
      (λ h. elim (Option-cases (token d)) [
        | inl bad ↦ ground arith
        | inr ((t, d1), got) ↦
            let opens : is_brace t ≡ true = ground arith in
            let looped : entries (suc (remaining d1)) d1 [] ≡ passed = ground arith in
            (t, d1, got, opens, entries-Reads (suc (remaining d1)) d1 [] looped)
      ]),
      (λ (t, d1, got, opens, (ks, r, fresh)). rw (
        check_duplicate_keys,
        got,
        opens,
        entries_complete (suc (remaining d1)) d1 [] ks (omega arith) r fresh,
      )),
    )

    -- Given that a token read leaves less of the text to read, and a value skipped no more, the check of
    -- any document ends within its fuel.
    check_duplicate_keys_finishes : (d : D) → check_duplicate_keys remaining d ≢ unfinished
    unfolding check_duplicate_keys
    check_duplicate_keys_finishes d h = elim (Option-cases (token d)) [
      | inl bad ↦ ground arith
      | inr ((t, d1), got) ↦
          ground (arith, entries_finishes (suc (remaining d1)) d1 [] (omega arith))
    ]
