-- ===== src/Client/Addresses.antt =====
-- The set of addresses that dial callbacks fill without a lock: `addrSet` of transport.go.
--
-- The pointer is the number of stores made so far, which no two stores share, with the list that it
-- points to; each pass of the loop of `add` is a load and, later, a compare-and-swap.
use Prim.Native.String.{String}
use text.Mathlib.Text.{◌==◌ as str_eq}
use text.Mathlib.TextEquality.{eq_iff}
use netquality.Prelude.{
  ℕ, suc, ◌≤◌, ◌≡◌, refl, sym, subst, ◌⊎◌, inl, inr, Bool, true, false, not, ◌&&◌, ◌||◌, List, [],
  ◌∷◌, ◌++◌, arith, ◌==◌, if◌then◌else◌, All, All-map, All-middle,
}

abbrev pub member : String → List String → Bool
member a [] = false
member a (x ∷ xs) = str_eq x a || member a xs

pub record AddrSet : Type 0 where
  pub stores : ℕ
  pub addrs : List String

-- A pass of the loop: the address to add, and the pointer that it loaded.
pub record Pass : Type 0 where
  pub address : String
  pub seen : AddrSet

pub data PassEnd : Type 0 where
  -- The address was there, or has been stored.
  returns : PassEnd
  -- Another store came first: the loop loads again.
  retries : PassEnd

-- The rest of the pass: the set after it, and whether `add` returns.
unfoldable pub finish : Pass → AddrSet → AddrSet × PassEnd
finish p s =
    if member p.address p.seen.addrs
    then (s, returns)
    else if p.seen.stores == s.stores
    then (record { stores = suc s.stores; addrs = p.seen.addrs ++ p.address ∷ [] }, returns)
    else (s, retries)

-- The set, the passes between their load and their end, and the addresses whose `add` returned.
pub record System : Type 0 where
  pub set : AddrSet
  pub passes : List Pass
  pub added : List String

abbrev pub empty : System
empty = record { set = record { stores = 0; addrs = [] }; passes = []; added = [] }

abbrev pub load : String → System → System
load a s = record s { passes = record { address = a; seen = s.set } ∷ s.passes }

abbrev after_pass : PassEnd → AddrSet → Pass → List Pass → System → System
after_pass returns set p others s = record {
  set = set;
  passes = others;
  added = p.address ∷ s.added;
}
after_pass retries set p others s = record {
  set = set;
  passes = record { address = p.address; seen = set } ∷ others;
  added = s.added;
}

abbrev pub resume : Pass → List Pass → System → System
resume p others s = let (set, end) = finish p s.set in after_pass end set p others s

pub data Step (s : System) : System → Type 0 where
  -- `add` of an address that is not empty; it returns at once on the empty one.
  begins : (a : String) → str_eq a "" ≡ false → Step s (load a s)
  resumes :
      (before after : List Pass) (p : Pass)
      → s.passes ≡ before ++ p ∷ after
      → Step s (resume p (before ++ after) s)

pub data Reach (s : System) : System → Type 0 where
  here : Reach s s
  next : {t u : System} → Reach s t → Step t u → Reach s u

abbrev pub distinct : List String → Bool
distinct [] = true
distinct (x ∷ xs) = not (member x xs) && distinct xs

pub member-append :
    (a b : String) (xs : List String) → member a (xs ++ b ∷ []) ≡ member a xs || str_eq b a
member-append a b [] = ground arith
member-append a b (x ∷ xs) = ground (arith, member-append a b xs)

distinct-append :
    (a : String) (xs : List String)
    → distinct xs ≡ true
    → member a xs ≡ false
    → distinct (xs ++ a ∷ []) ≡ true
distinct-append a [] h k = refl
distinct-append a (x ∷ xs) h k =
    ground (arith, distinct-append a xs, member-append x a xs, eq_iff a x, eq_iff x a)

-- A pointer that has not moved points to the same list, and one that has, to an earlier one.
IsCurrent : AddrSet → Pass → Type 0
IsCurrent s p =
    (p.seen.stores ≤ s.stores)
    × (p.seen.stores ≡ s.stores → p.seen.addrs ≡ s.addrs)
    × ((a : String) → member a p.seen.addrs ≡ true → member a s.addrs ≡ true)

finish_unique :
    (p : Pass) (s : AddrSet)
    → IsCurrent s p
    → distinct s.addrs ≡ true
    → distinct (finish p s).0.addrs ≡ true
unfolding finish IsCurrent
finish_unique p s (_, same, _) u = ground (arith, same, distinct-append p.address p.seen.addrs)

finish-keeps :
    (p : Pass) (s : AddrSet) (a : String)
    → IsCurrent s p
    → member a s.addrs ≡ true
    → member a (finish p s).0.addrs ≡ true
unfolding finish IsCurrent
finish-keeps p s a (_, same, _) m = ground (arith, same, member-append a p.address p.seen.addrs)

finish-adds :
    (p : Pass) (s : AddrSet)
    → IsCurrent s p
    → (finish p s).1 ≡ returns
    → member p.address (finish p s).0.addrs ≡ true
unfolding finish IsCurrent
finish-adds p s (_, _, earlier) e = ground (
  arith,
  earlier p.address,
  member-append p.address p.address p.seen.addrs,
  eq_iff p.address p.address,
)

finish-stores :
    (p : Pass) (s : AddrSet) → ((finish p s).0 ≡ s) ⊎ ((finish p s).0.stores ≡ suc s.stores)
unfolding finish
finish-stores p s = ground arith

finish-current :
    (p q : Pass) (s : AddrSet) → IsCurrent s p → IsCurrent s q → IsCurrent (finish p s).0 q
unfolding IsCurrent
finish-current p q s i (le, same, earlier) = elim (finish-stores p s) [
  | inl kept ↦ subst (λ t. IsCurrent t q) (sym kept) (le, same, earlier)
  | inr more ↦ (
    omega (arith, more),
    λ e. absurd (omega (arith, more, e, le)),
    λ a m. finish-keeps p s a i (earlier a m),
  )
]

record IsStored (s : System) : Type 0 where
  unique : distinct s.set.addrs ≡ true
  current : All (IsCurrent s.set) s.passes
  stored : All (λ a. member a s.set.addrs ≡ true) s.added

IsCurrent-self : (a : String) (s : AddrSet) → IsCurrent s (record { address = a; seen = s })
unfolding IsCurrent
IsCurrent-self a s = (omega arith, λ e. refl, λ x m. m)

after_pass-IsStored :
    (end : PassEnd) (set : AddrSet) (p : Pass) (others : List Pass) (s : System)
    → distinct set.addrs ≡ true
    → All (IsCurrent set) others
    → All (λ a. member a set.addrs ≡ true) s.added
    → (end ≡ returns → member p.address set.addrs ≡ true)
    → IsStored (after_pass end set p others s)
after_pass-IsStored returns set p others s u c k m = record {
  unique = u;
  current = c;
  stored = (m refl, k);
}
after_pass-IsStored retries set p others s u c k m = record {
  unique = u;
  current = (IsCurrent-self p.address set, c);
  stored = k;
}

Step-IsStored : {s t : System} → IsStored s → Step s t → IsStored t
Step-IsStored {s} i (begins a e) = record {
  unique = i.unique;
  current = (IsCurrent-self a s.set, i.current);
  stored = i.stored;
}
Step-IsStored {s} i (resumes before after p e) =
    let (mine, others) =
      All-middle (IsCurrent s.set) before p after (subst (All (IsCurrent s.set)) e i.current) in
    after_pass-IsStored (finish p s.set).1 (finish p s.set).0 p (before ++ after) s
      (finish_unique p s.set mine i.unique)
      (All-map (λ q. finish-current p q s.set mine) (before ++ after) others)
      (All-map (λ a. finish-keeps p s.set a mine) s.added i.stored) (finish-adds p s.set mine)

Reach-IsStored : {s : System} → Reach empty s → IsStored s
Reach-IsStored here = record { unique = refl; current = tt; stored = tt }
Reach-IsStored (next r step) = Step-IsStored (Reach-IsStored r) step

-- However the loads and the swaps of concurrent adds interleave, the set never holds an address
-- twice, and it holds every address whose add has returned.
pub Reach-addresses :
    {s : System}
    → Reach empty s
    → (distinct s.set.addrs ≡ true) × All (λ (a : String). member a s.set.addrs ≡ true) s.added
Reach-addresses r = let i = Reach-IsStored r in (i.unique, i.stored)
