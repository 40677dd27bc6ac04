-- ===== src/Server/Budget/Owned.antt =====
-- The ownership of buckets by tickets, and what `admit` and `settle` of server/server.go do to it.
use Prim.Native.String.{String}
use text.Mathlib.TextEquality.{eq_iff}
use netquality.Prelude.{
  ℕ, ◌≤◌, ◌<◌, ◌≡◌, refl, ap, subst, ◌≢◌, inl, inr, true, not, List, ◌∷◌, ◌++◌, none, some, ℤ, pos,
  ◌+ℤ◌, leb_ℤ, ◌-ℤ◌, ◌≤ℤ◌, ◌<ℤ◌, arith, leb, length, All-map, All-zip, All-filter, All-middle,
  Bool-cases, Option-cases,
}
use netquality.Float.{Float, nought}
use netquality.Server.Budget.{
  Bucket, Budget, lookup, forgettable, cleanup, sweep, install, find_or_make, refill, put, decide,
  admit, settle,
}
use netquality.Server.Budget.Slots.{Ticket, System, IsOwned, enter, joined, held}
use netquality.Server.Budget.Tokens.{sweep-none}
use netquality.Server.Budget.Entries.{
  lookup_entry, lookup-filter, lookup-cons, held_fresh, held_self, held-middle,
}

module _ {F : Type 0} ⦃d : Float F⦄ where
  -- The invariant of a budget, against the tickets; `admit` first finds or makes the bucket.
  pub record IsReady (b : Budget F) (ts : List Ticket) (key : String) (a : ℕ) : Type 0 where
    pub owned : IsOwned (record { budget = b; tickets = ts })
    pub found : lookup key b.seen ≡ some a
    pub below : a < b.fresh

  in_use :
      (b : Budget F) (now : ℤ) (a : ℕ)
      → (b.heap a).active ≢ pos 0
      → not (forgettable b now a) ≡ true
  unfolding forgettable
  in_use b now a h = ground arith

  cleanup-IsOwned :
      (b : Budget F) (ts : List Ticket) (now : ℤ)
      → IsOwned (record { budget = b; tickets = ts })
      → IsOwned (record { budget = cleanup b now; tickets = ts })
  unfolding cleanup
  cleanup-IsOwned b ts now h = record {
    count = h.count;
    limit = h.limit;
    entries = All-filter _ _ b.seen h.entries;
    owned = All-map keep ts (All-zip _ _ ts h.owned (held_self ts));
  }
    where
      keep :
          (t : Ticket)
          → ((lookup t.key b.seen ≡ some t.addr) × (t.addr < b.fresh)) × (1 ≤ held t.addr ts)
          → (lookup t.key (cleanup b now).seen ≡ some t.addr) × (t.addr < b.fresh)
      keep t ((e, lt), some_held) = (
        lookup-filter (λ a. not (forgettable b now a)) t.key b.seen t.addr e
            (in_use b now t.addr (rw (h.count t.addr lt) (ground arith))),
        lt,
      )

  sweep-IsOwned :
      (b : Budget F) (ts : List Ticket) (now : ℤ)
      → IsOwned (record { budget = b; tickets = ts })
      → IsOwned (record { budget = sweep b now; tickets = ts })
  unfolding sweep
  sweep-IsOwned b ts now h = elim (Bool-cases (leb 10_000 (length b.seen))) [
    | inl e ↦ rw (e, sweep) (cleanup-IsOwned b ts now h)
    | inr e ↦ rw (e, sweep) h
  ]

  install-IsReady :
      (b : Budget F) (ts : List Ticket) (key : String) (now : ℤ)
      → pos 0 ≤ℤ b.concurrency
      → lookup key b.seen ≡ none
      → IsOwned (record { budget = b; tickets = ts })
      → IsReady (install b key now) ts key b.fresh
  unfolding install lookup
  install-IsReady b ts key now c free h = record {
    owned = record {
      count = λ a lt. ground (arith, h.count a, none_yet);
      limit = λ a lt. ground (arith, h.limit a, none_yet);
      entries = (omega arith, All-map (λ e lt. omega arith) b.seen h.entries);
      owned =
          All-map (λ t (e, lt). (lookup-cons t.key key t.addr b.fresh b.seen free e, omega arith))
            ts h.owned;
    };
    found = ground (arith, eq_iff key key);
    below = omega arith;
  }
    where
      none_yet : held b.fresh ts ≡ 0
      none_yet = held_fresh b.fresh ts (All-map (λ t o. o.1) ts h.owned)

  sweep-concurrency : (b : Budget F) (now : ℤ) → (sweep b now).concurrency ≡ b.concurrency
  unfolding sweep cleanup
  sweep-concurrency b now = ground arith

  find_or_make-IsReady :
      (b : Budget F) (ts : List Ticket) (key : String) (now : ℤ)
      → pos 0 ≤ℤ b.concurrency
      → IsOwned (record { budget = b; tickets = ts })
      → let (b', a) = find_or_make b key now in
        IsReady b' ts key a × (b'.concurrency ≡ b.concurrency)
  unfolding find_or_make install
  find_or_make-IsReady b ts key now c h = elim (Option-cases (lookup key b.seen)) [
    | inl free ↦
        rw (free, find_or_make)
          (
            install-IsReady (sweep b now) ts key now (rw (sweep-concurrency b now) c)
                (sweep-none b key now free) (sweep-IsOwned b ts now h),
            sweep-concurrency b now,
          )
    | inr (a, e) ↦
        rw (e, find_or_make)
          (
            record {
              owned = h;
              found = e;
              below = lookup_entry (λ a. a < b.fresh) key b.seen a h.entries e;
            },
            refl,
          )
  ]

  put-IsOwned :
      (b : Budget F) (ts : List Ticket) (a : ℕ) (bk : Bucket F)
      → bk.active ≡ (b.heap a).active
      → IsOwned (record { budget = b; tickets = ts })
      → IsOwned (record { budget = put b a bk; tickets = ts })
  unfolding put
  put-IsOwned b ts a bk same h = record {
    count = λ x lt. ground (arith, h.count x);
    limit = h.limit;
    entries = h.entries;
    owned = h.owned;
  }

  grant-IsOwned :
      (b : Budget F) (ts : List Ticket) (key : String) (a : ℕ) (bk : Bucket F)
      → IsReady b ts key a
      → bk.active ≡ (b.heap a).active +ℤ pos 1
      → (b.heap a).active <ℤ b.concurrency
      → IsOwned (record { budget = put b a bk; tickets = record { key = key; addr = a } ∷ ts })
  unfolding put held ◌+ℤ◌
  grant-IsOwned b ts key a bk h one_more room = record {
    count = λ x lt. ground (arith, h.owned.count x);
    limit = λ x lt. ground (arith, h.owned.limit x, h.owned.count x);
    entries = h.owned.entries;
    owned = ((h.found, h.below), h.owned.owned);
  }

  decide-IsOwned :
      (b : Budget F) (ts : List Ticket) (key : String) (a : ℕ) (bk : Bucket F)
      → bk.active ≡ (b.heap a).active
      → IsReady b ts key a
      → let (b', adm) = decide b a bk in
        IsOwned (record { budget = b'; tickets = joined key adm ts })
  unfolding decide
  decide-IsOwned b ts key a bk same h =
      let refused = put-IsOwned b ts a bk same h.owned in
      elim (Bool-cases (d.le bk.tokens nought)) [
        | inl broke ↦ rw (broke, decide) refused
        | inr funded ↦ elim (Bool-cases (leb_ℤ b.concurrency bk.active)) [
          | inl full ↦ rw (funded, full, decide) refused
          | inr room ↦
              rw (funded, room, decide)
                (grant-IsOwned b ts key a _ h (ap (λ n. n +ℤ pos 1) same) (ground arith))
        ]
      ]

  pub enter-IsOwned :
      (s : System F) (key : String) (now : ℤ)
      → pos 0 ≤ℤ s.budget.concurrency
      → IsOwned s
      → IsOwned (enter s key now)
  unfolding enter admit refill
  enter-IsOwned s key now c h =
      let (b', a) = find_or_make s.budget key now in
      decide-IsOwned b' s.tickets key a (refill b' (b'.heap a) now) refl
        (find_or_make-IsReady s.budget s.tickets key now c h).0

  pub IsOwned-tickets :
      (s : System F) {ts : List Ticket}
      → s.tickets ≡ ts
      → IsOwned s
      → IsOwned (record { budget = s.budget; tickets = ts })
  IsOwned-tickets s e h = subst (λ ts. IsOwned (record { budget = s.budget; tickets = ts })) e h

  pub settle-IsOwned :
      (b : Budget F) (before after : List Ticket) (t : Ticket) (n now : ℤ)
      → IsOwned (record { budget = b; tickets = before ++ t ∷ after })
      → IsOwned (record { budget = settle b t.addr n now; tickets = before ++ after })
  unfolding settle put refill ◌-ℤ◌
  settle-IsOwned b before after t n now h =
      let (mine, others) = All-middle _ before t after h.owned in
      record {
        count = λ a lt. ground (arith, h.count a, held-middle a before t after);
        limit = λ a lt. ground (arith, h.limit a, held-middle a before t after);
        entries = h.entries;
        owned = others;
      }

  pub enter-concurrency :
      (s : System F) (key : String) (now : ℤ)
      → (enter s key now).budget.concurrency ≡ s.budget.concurrency
  unfolding enter admit find_or_make decide put install
  enter-concurrency s key now = ground (arith, sweep-concurrency s.budget now)
