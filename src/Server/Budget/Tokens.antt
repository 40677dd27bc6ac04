-- ===== src/Server/Budget/Tokens.antt =====
-- The byte balance of an identity.
use Prim.Native.String.{String}
use netquality.Prelude.{
  ℕ, ◌≡◌, ◌≢◌, refl, ◌⊎◌, inl, inr, true, false, not, none, some, ℤ, pos, arith, leb_ℤ, ◌+ℤ◌, ◌-ℤ◌,
  ◌≤ℤ◌, Bool-cases, Option-cases, ◌<ℤ◌,
}
use netquality.Float.{Float, nought}
use netquality.Server.Budget.{
  Bucket, Budget, Admission, budget_exhausted, concurrency_exhausted, ticket, refused, lookup,
  balance, refill, forgettable, cleanup, sweep, install, find_or_make, put, decide, admit, settle,
  retry_wait,
}
use netquality.Server.Budget.Entries.{lookup-filter, lookup-filter_none, lookup-cons}

module _ {F : Type 0} ⦃d : Float F⦄ where
  sweep-keeps :
      (b : Budget F) (k : String) (a : ℕ) (now : ℤ)
      → lookup k b.seen ≡ some a
      → forgettable b now a ≡ false
      → lookup k (sweep b now).seen ≡ some a
  unfolding sweep cleanup
  sweep-keeps b k a now e h =
      ground (arith, lookup-filter (λ a. not (forgettable b now a)) k b.seen a)

  pub sweep-none :
      (b : Budget F) (key : String) (now : ℤ)
      → lookup key b.seen ≡ none
      → lookup key (sweep b now).seen ≡ none
  unfolding sweep cleanup
  sweep-none b key now free =
      ground (arith, lookup-filter_none (λ (k, a). not (forgettable b now a)) key b.seen free)

  -- Serving one identity never drops another's bucket while that has a slot in use or is not full:
  -- neither ownership nor debt is forgotten, however many identities there are.
  find_or_make-keeps :
      (b : Budget F) (key k : String) (a : ℕ) (now : ℤ)
      → lookup k b.seen ≡ some a
      → forgettable b now a ≡ false
      → lookup k (find_or_make b key now).0.seen ≡ some a
  unfolding find_or_make install
  find_or_make-keeps b key k a now e h = elim (Option-cases (lookup key b.seen)) [
    | inl free ↦
        rw (free, find_or_make)
          (lookup-cons k key a _ (sweep b now).seen (sweep-none b key now free)
            (sweep-keeps b k a now e h))
    | inr (x, found) ↦ rw (found, find_or_make) e
  ]

  -- The answers of `decide`, over a bucket whose balance is up to date.
  abbrev IsAnswer : Budget F → ℕ → Bucket F → Budget F × Admission → Type 0
  IsAnswer b a bk (b', answer) =
      ((d.le bk.tokens nought ≡ true)
        × (answer ≡ refused budget_exhausted (retry_wait b bk.tokens))
        × (b'.heap a ≡ bk))
      ⊎ ((d.le bk.tokens nought ≡ false)
          × (b.concurrency ≤ℤ bk.active)
          × (answer ≡ refused concurrency_exhausted (pos 0))
          × (b'.heap a ≡ bk))
      ⊎ ((d.le bk.tokens nought ≡ false)
          × (bk.active <ℤ b.concurrency)
          × (answer ≡ ticket a)
          × (b'.heap a ≡ record bk { active = bk.active +ℤ pos 1 }))

  decide-IsAnswer : (b : Budget F) (a : ℕ) (bk : Bucket F) → IsAnswer b a bk (decide b a bk)
  unfolding decide put
  decide-IsAnswer b a bk = elim (Bool-cases (d.le bk.tokens nought)) [
    | inl broke ↦ rw (broke, decide) (inl (refl, refl, ground arith))
    | inr funded ↦ elim (Bool-cases (leb_ℤ b.concurrency bk.active)) [
      | inl full ↦ rw (funded, full, decide) (inr (inl (refl, ground arith, refl, ground arith)))
      | inr room ↦ rw (funded, room, decide) (inr (inr (refl, ground arith, refl, ground arith)))
    ]
  ]

  -- What admit answers, by the bucket that it finds or makes, with its balance brought up to date:
  -- refused with a wait while the balance is not positive, refused with none while every slot is in
  -- use, and otherwise a ticket. Only a ticket takes a slot.
  admit-IsAnswer :
      (b : Budget F) (key : String) (now : ℤ)
      → let (b', a) = find_or_make b key now in
        IsAnswer b' a (refill b' (b'.heap a) now) (admit b key now)
  unfolding admit
  admit-IsAnswer b key now =
      let (b', a) = find_or_make b key now in decide-IsAnswer b' a (refill b' (b'.heap a) now)

  -- Settling charges the bytes against the balance of that moment, frees one slot, and touches no
  -- other bucket.
  settle-charges :
      (b : Budget F) (a : ℕ) (n now : ℤ)
      → let b' = settle b a n now in
        ((b'.heap a).tokens ≡ d.sub (balance b (b.heap a) now) (d.of_int n))
        × ((b'.heap a).active ≡ (b.heap a).active -ℤ pos 1)
        × ((x : ℕ) → x ≢ a → b'.heap x ≡ b.heap x)
        × (b'.seen ≡ b.seen)
  unfolding settle refill put
  settle-charges b a n now = (ground arith, ground arith, λ x ne. ground arith, refl)
