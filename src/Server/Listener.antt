-- ===== src/Server/Listener.antt =====
-- The cap on open connections: `LimitListener` of server/server.go.
--
-- The semaphore's channel is the number of slots that are taken. A connection is the state of its
-- Once: whether its Close has released its slot. Several Accepts may wait on the inner listener.
use netquality.Prelude.{
  ℕ, suc, ◌+◌, ◌-◌, ◌≤◌, ◌≡◌, refl, Bool, true, false, List, [], ◌∷◌, ◌++◌, Option, none, some, ltb,
  arith, if◌then◌else◌,
}

pub record LimitListener : Type 0 where
  pub max : ℕ
  pub taken : ℕ
  pub done : Bool

unfoldable pub limit_listener : ℕ → LimitListener
limit_listener max = record { max = max; taken = 0; done = false }

-- The send on the semaphore at the head of Accept: none where it blocks.
unfoldable pub acquire : LimitListener → Option LimitListener
acquire l = if ltb l.taken l.max then some (record l { taken = l.taken + 1 }) else none

unfoldable pub release : LimitListener → LimitListener
release l = record l { taken = l.taken - 1 }

-- Close of a connection: its first call releases the slot.
unfoldable pub close_conn : Bool → LimitListener → LimitListener
close_conn released l = if released then l else release l

unfoldable pub close_listener : LimitListener → LimitListener
close_listener l = record l { done = true }

-- The listener, the Accepts that hold a slot and wait, and the connections ever accepted.
pub record System : Type 0 where
  pub listener : LimitListener
  pub waiting : ℕ
  pub conns : List Bool

abbrev pub fresh : ℕ → System
fresh max = record { listener = limit_listener max; waiting = 0; conns = [] }

pub data Step (s : System) : System → Type 0 where
  begins :
      (l : LimitListener)
      → acquire s.listener ≡ some l
      → Step s (record s { listener = l; waiting = suc s.waiting })
  -- The inner Accept returns an error, and the slot is given back.
  fails :
      (n : ℕ) → s.waiting ≡ suc n → Step s (record s { listener = release s.listener; waiting = n })
  accepts : (n : ℕ) → s.waiting ≡ suc n → Step s (record s { waiting = n; conns = false ∷ s.conns })
  shuts :
      (before after : List Bool) (released : Bool)
      → s.conns ≡ before ++ released ∷ after
      → Step s
          (record s { listener = close_conn released s.listener; conns = before ++ true ∷ after })
  closes : Step s (record s { listener = close_listener s.listener })

pub data Reach (s : System) : System → Type 0 where
  here : Reach s s
  next : {t u : System} → Reach s t → Step t u → Reach s u

-- The connections whose slot is not released.
abbrev pub count_open : List Bool → ℕ
count_open [] = 0
count_open (released ∷ rs) = if released then count_open rs else suc (count_open rs)

count_open-middle :
    (xs : List Bool) (r : Bool) (ys : List Bool)
    → count_open (xs ++ r ∷ ys) ≡ count_open (r ∷ []) + count_open (xs ++ true ∷ ys)
count_open-middle [] r ys = ground arith
count_open-middle (x ∷ xs) r ys = ground (arith, count_open-middle xs r ys)

record IsCounted (max : ℕ) (s : System) : Type 0 where
  max_eq : s.listener.max ≡ max
  taken_eq : s.listener.taken ≡ s.waiting + count_open s.conns
  taken_le : s.listener.taken ≤ max

Step-IsCounted : (max : ℕ) {s t : System} → IsCounted max s → Step s t → IsCounted max t
unfolding acquire release close_conn close_listener
Step-IsCounted max {s} i (begins l e) = record {
  max_eq = ground (arith, i.max_eq);
  taken_eq = ground (arith, i.taken_eq);
  taken_le = ground (arith, i.max_eq);
}
Step-IsCounted max {s} i (fails n e) = record {
  max_eq = i.max_eq;
  taken_eq = omega (arith, i.taken_eq, e);
  taken_le = omega (arith, i.taken_le);
}
Step-IsCounted max {s} i (accepts n e) = record {
  max_eq = i.max_eq;
  taken_eq = ground (arith, i.taken_eq, e);
  taken_le = i.taken_le;
}
Step-IsCounted max {s} i (shuts before after r e) = record {
  max_eq = ground (arith, i.max_eq);
  taken_eq = ground (arith, i.taken_eq, e, count_open-middle before r after);
  taken_le = ground (arith, i.taken_le);
}
Step-IsCounted max i closes = record {
  max_eq = i.max_eq;
  taken_eq = i.taken_eq;
  taken_le = i.taken_le;
}

Reach-IsCounted : (max : ℕ) {s : System} → Reach (fresh max) s → IsCounted max s
unfolding limit_listener
Reach-IsCounted max here = record { max_eq = refl; taken_eq = refl; taken_le = omega arith }
Reach-IsCounted max (next r step) = Step-IsCounted max (Reach-IsCounted max r) step

-- However accepts and closes interleave, a connection closed twice included, the slots that are
-- taken are those of the open connections and of the waiting Accepts, and there are at most `max`:
-- no slot leaks and none is released twice.
pub Reach-open :
    (max : ℕ) {s : System}
    → Reach (fresh max) s
    → (s.listener.taken ≡ s.waiting + count_open s.conns) × (s.waiting + count_open s.conns ≤ max)
Reach-open max r =
    let i = Reach-IsCounted max r in (i.taken_eq, omega (arith, i.taken_eq, i.taken_le))
