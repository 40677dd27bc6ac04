-- ===== src/Client/Connections.antt =====
-- The connections of a transport that the library created: `ownedTransport` and `trackedConn` of
-- transport.go.
--
-- A connection is a number. The map is under the mutex, so `track`, `forget` and the first half of
-- closeAll are each one step; the Close of the connection itself runs outside it, later.
use netquality.Prelude.{
  ◌⊎◌, inl, inr, Bool-cases, ℕ, ◌≡◌, refl, Bool, true, false, not, ◌&&◌, ◌||◌, List, [], ◌∷◌, ◌++◌,
  arith, ◌==◌, filter_by, if◌then◌else◌,
}

abbrev pub has : ℕ → List ℕ → Bool
has c [] = false
has c (x ∷ xs) = (x == c) || has c xs

abbrev pub without : ℕ → List ℕ → List ℕ
without c xs = filter_by (λ x. not (x == c)) xs

pub record OwnedTransport : Type 0 where
  pub closed : Bool
  pub conns : List ℕ

abbrev new_transport : OwnedTransport
new_transport = record { closed = false; conns = [] }

-- track and trackRaw: the transport, and the connections to close on arrival.
unfoldable pub track : ℕ → OwnedTransport → OwnedTransport × List ℕ
track c o = if o.closed then (o, c ∷ []) else (record o { conns = c ∷ o.conns }, [])

unfoldable pub forget : ℕ → OwnedTransport → OwnedTransport
forget c o = record o { conns = without c o.conns }

-- The locked part of closeAll, and the connections that it then closes.
unfoldable pub close_all : OwnedTransport → OwnedTransport × List ℕ
close_all o = (record o { closed = true }, o.conns)

-- The transport, the connections that are open, those whose dial has not come to its `track` yet, and the calls of Close
-- that are in progress.
pub record System : Type 0 where
  pub transport : OwnedTransport
  pub opened : List ℕ
  pub dialling : List ℕ
  pub closing : List ℕ

abbrev pub idle_transport : System
idle_transport = record { transport = new_transport; opened = []; dialling = []; closing = [] }

abbrev pub after_open : ℕ → System → System
after_open c s = record s { opened = c ∷ s.opened; dialling = c ∷ s.dialling }

-- `rest` are the dials that have not come to it yet.
abbrev pub after_track : ℕ → List ℕ → System → System
after_track c rest s =
    let (o, late) = track c s.transport in
    record { transport = o; opened = s.opened; dialling = rest; closing = late ++ s.closing }

abbrev pub after_snapshot : System → System
after_snapshot s =
    let (o, live) = close_all s.transport in
    record { transport = o; opened = s.opened; dialling = s.dialling; closing = live ++ s.closing }

pub data Step (s : System) : System → Type 0 where
  -- A dial has its connection, before or after the teardown.
  opens : (c : ℕ) → Step s (after_open c s)
  -- It comes to `track`, before or after the teardown.
  tracks :
      (before after : List ℕ) (c : ℕ)
      → s.dialling ≡ before ++ c ∷ after
      → Step s (after_track c (before ++ after) s)
  -- net/http closes a connection of its own accord.
  closes : (c : ℕ) → Step s (record s { closing = c ∷ s.closing })
  tears_down : Step s (after_snapshot s)
  -- A Close in progress forgets its connection, then closes it.
  forgets :
      (c : ℕ) → has c s.closing ≡ true → Step s (record s { transport = forget c s.transport })
  finishes :
      (before after : List ℕ) (c : ℕ)
      → s.closing ≡ before ++ c ∷ after
      → Step s (record s { opened = without c s.opened; closing = before ++ after })

pub data Reach (s : System) : System → Type 0 where
  here : Reach s s
  next : {t u : System} → Reach s t → Step t u → Reach s u

has-append : (c : ℕ) (xs ys : List ℕ) → has c (xs ++ ys) ≡ has c xs || has c ys
has-append c [] ys = refl
has-append c (x ∷ xs) ys = ground (arith, has-append c xs ys)

has-middle :
    (c : ℕ) (xs : List ℕ) (y : ℕ) (ys : List ℕ)
    → has c (xs ++ y ∷ ys) ≡ (y == c) || has c (xs ++ ys)
has-middle c [] y ys = refl
has-middle c (x ∷ xs) y ys = ground (arith, has-middle c xs y ys)

has-without : (c x : ℕ) (xs : List ℕ) → has c (without x xs) ≡ not (x == c) && has c xs
has-without c x [] = ground arith
has-without c x (y ∷ ys) = ground (arith, has-without c x ys)

-- An open connection is filed, being closed or not tracked yet, and once the transport is closed, one of the last two.
record IsAccounted (s : System) : Type 0 where
  filed :
      (c : ℕ)
      → has c s.opened ≡ true
      → (has c s.transport.conns || (has c s.closing || has c s.dialling)) ≡ true
  doomed :
      s.transport.closed ≡ true
      → (c : ℕ) → has c s.opened ≡ true
      → (has c s.closing || has c s.dialling) ≡ true

track-closed :
    (c : ℕ) (rest : List ℕ) (s : System)
    → (after_track c rest s).transport.closed ≡ true
    → s.transport.closed ≡ true
unfolding track
track-closed c rest s e = ground arith

Step-IsAccounted : {s t : System} → IsAccounted s → Step s t → IsAccounted t
unfolding track forget close_all
Step-IsAccounted {s} i (opens c) = record {
  filed = λ x h. ground (arith, i.filed x);
  doomed = λ e x h. ground (arith, i.doomed e x);
}
Step-IsAccounted {s} i (tracks before after c e) = record {
  filed = λ x h. ground (arith, i.filed x, i.doomed, e, has-middle x before c after);
  doomed = λ e' x h.
      ground
        (arith, i.doomed (track-closed c (before ++ after) s e') x, e, has-middle x before c after);
}
Step-IsAccounted {s} i (closes c) = record {
  filed = λ x h. ground (arith, i.filed x);
  doomed = λ e x h. ground (arith, i.doomed e x);
}
Step-IsAccounted {s} i tears_down = record {
  filed = λ x h. ground (arith, i.filed x, has-append x s.transport.conns s.closing);
  doomed = λ e x h. ground (arith, i.filed x, has-append x s.transport.conns s.closing);
}
Step-IsAccounted {s} i (forgets c e) = record {
  filed = λ x h. ground (arith, i.filed x, has-without x c s.transport.conns);
  doomed = λ e' x h. i.doomed e' x h;
}
Step-IsAccounted {s} i (finishes before after c e) = record {
  filed =
      λ x h. ground (arith, i.filed x, e, has-middle x before c after, has-without x c s.opened);
  doomed = λ e' x h.
      ground (arith, i.doomed e' x, e, has-middle x before c after, has-without x c s.opened);
}

Reach-IsAccounted : {s : System} → Reach idle_transport s → IsAccounted s
Reach-IsAccounted here = record { filed = λ c h. ground arith; doomed = λ e c h. ground arith }
Reach-IsAccounted (next r step) = Step-IsAccounted (Reach-IsAccounted r) step

-- However dials, closes and the teardown interleave, once the transport is torn down and no Close is in progress, no
-- connection that it dialled is open, those that arrived late included, but one whose dial has not come to its track
-- yet.
pub Reach-closed :
    {s : System}
    → Reach idle_transport s
    → s.transport.closed ≡ true
    → s.closing ≡ []
    → (c : ℕ) → (has c s.opened ≡ false) ⊎ (has c s.dialling ≡ true)
Reach-closed {s} r e none c = elim (Bool-cases (has c s.opened)) [
  | inl still ↦ inr (ground (arith, (Reach-IsAccounted r).doomed e c still))
  | inr shut ↦ inl shut
]
