-- ===== src/Server/Budget/Entries.antt =====
-- The map's entries and the tickets on a bucket.
use Prim.Native.String.{String}
use text.Mathlib.TextEquality.{eq_iff}
use netquality.Prelude.{
  ℕ, suc, ◌≤◌, ◌<◌, ◌≡◌, refl, ap, Bool, true, List, [], ◌∷◌, ◌++◌, none, some, arith, ◌==◌,
  if◌then◌else◌, filter_by, All, All-map,
}
use netquality.Server.Budget.{lookup}
use netquality.Server.Budget.Slots.{Ticket, held, held_by}

pub lookup_entry :
    (P : ℕ → Type 0) (k : String) (m : List (String × ℕ)) (a : ℕ)
    → All (λ (e : String × ℕ). P e.1) m
    → lookup k m ≡ some a
    → P a
unfolding lookup
lookup_entry P k [] a h e = cc
lookup_entry P k ((j, b) ∷ m) a h e = ground (arith, lookup_entry P k m a h.1)

pub held_fresh : (n : ℕ) (ts : List Ticket) → All (λ (t : Ticket). t.addr < n) ts → held n ts ≡ 0
unfolding held
held_fresh n [] h = refl
held_fresh n (t ∷ ts) h = ground (arith, held_fresh n ts h.1)

-- The bucket of an outstanding ticket is held.
pub held_self : (ts : List Ticket) → All (λ (t : Ticket). 1 ≤ held t.addr ts) ts
unfolding held
held_self [] = tt
held_self (t ∷ ts) =
    (ground arith, All-map (λ u (h : 1 ≤ held u.addr ts). ground arith) ts (held_self ts))

pub held-middle :
    (a : ℕ) (xs : List Ticket) (t : Ticket) (ys : List Ticket)
    → held a (xs ++ t ∷ ys) ≡ (if t.addr == a then suc (held a (xs ++ ys)) else held a (xs ++ ys))
unfolding held
held-middle a [] t ys = refl
held-middle a (x ∷ xs) t ys = ground (arith, held-middle a xs t ys)

-- The cleanup keeps the entry of a bucket that it does not forget.
pub lookup-filter :
    (keep : ℕ → Bool) (k : String) (m : List (String × ℕ)) (a : ℕ)
    → lookup k m ≡ some a
    → keep a ≡ true
    → lookup k (filter_by (λ (j, b). keep b) m) ≡ some a
unfolding lookup
lookup-filter keep k [] a e h = cc
lookup-filter keep k ((j, b) ∷ m) a e h = ground (arith, lookup-filter keep k m a)

-- A new entry hides no other key's.
pub lookup-cons :
    (k j : String) (a b : ℕ) (m : List (String × ℕ))
    → lookup j m ≡ none
    → lookup k m ≡ some a
    → lookup k ((j, b) ∷ m) ≡ some a
unfolding lookup
lookup-cons k j a b m free e = ground (arith, eq_iff j k, ap (λ x. lookup x m) {x = j} {y = k})

pub lookup-filter_none :
    (p : String × ℕ → Bool) (k : String) (m : List (String × ℕ))
    → lookup k m ≡ none
    → lookup k (filter_by p m) ≡ none
unfolding lookup
lookup-filter_none p k [] e = refl
lookup-filter_none p k ((j, b) ∷ m) e = ground (arith, lookup-filter_none p k m)

-- An identity with no entry holds nothing, and one with an entry at most what its bucket does.
module _ (m : List (String × ℕ)) (k : String) where
  abbrev IsMapped : List Ticket → Type 0
  IsMapped = All (λ t. lookup t.key m ≡ some t.addr)

  pub held_by-none : (ts : List Ticket) → lookup k m ≡ none → IsMapped ts → held_by k ts ≡ 0
  unfolding held_by
  held_by-none [] e h = refl
  held_by-none (t ∷ ts) e h =
      ground
        (arith, eq_iff t.key k, ap (λ x. lookup x m) {x = t.key} {y = k}, held_by-none ts e h.1)

  pub held_by-le :
      (a : ℕ) (ts : List Ticket) → lookup k m ≡ some a → IsMapped ts → held_by k ts ≤ held a ts
  unfolding held held_by
  held_by-le a [] e h = omega arith
  held_by-le a (t ∷ ts) e h =
      ground
        (arith, eq_iff t.key k, ap (λ x. lookup x m) {x = t.key} {y = k}, held_by-le a ts e h.1)
