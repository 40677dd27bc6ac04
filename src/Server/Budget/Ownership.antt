-- ===== src/Server/Budget/Ownership.antt =====
-- A ticket's bucket is never forgotten, and no identity holds more slots than its limit.
use Prim.Native.String.{String}
use netquality.Prelude.{
  ◌<◌, ◌≡◌, refl, ◌∙◌, inl, inr, [], some, ℤ, pos, ◌≤ℤ◌, arith, All, All-map, Option-cases,
}
use netquality.Float.{Float}
use netquality.Server.Budget.{lookup, put, settle, new_client_budget}
use netquality.Server.Budget.Slots.{
  Ticket, System, Step, Reach, IsOwned, held, held_by, enters, settles, here, next,
}
use netquality.Server.Budget.Entries.{lookup_entry, held_by-none, held_by-le}
use netquality.Server.Budget.Owned.{
  enter-IsOwned, settle-IsOwned, enter-concurrency, IsOwned-tickets,
}

module _ {F : Type 0} ⦃d : Float F⦄ where
  -- The invariant of every reachable system.
  pub record IsSound (limit : ℤ) (s : System F) : Type 0 where
    pub owned : IsOwned s
    pub same : s.budget.concurrency ≡ limit

  Step-IsSound :
      (limit : ℤ) {s t : System F} → pos 0 ≤ℤ limit → Step s t → IsSound limit s → IsSound limit t
  unfolding settle put
  Step-IsSound limit {s} c (enters key now) h = record {
    owned = enter-IsOwned s key now (rw h.same c) h.owned;
    same = enter-concurrency s key now ∙ h.same;
  }
  Step-IsSound limit {s} c (settles before after t n now e) h = record {
    owned = settle-IsOwned s.budget before after t n now (IsOwned-tickets s e h.owned);
    same = h.same;
  }

  Reach-IsSound :
      (limit : ℤ) {s t : System F} → pos 0 ≤ℤ limit → IsSound limit s → Reach s t → IsSound limit t
  Reach-IsSound limit c h here = h
  Reach-IsSound limit c h (next r st) = Step-IsSound limit c st (Reach-IsSound limit c h r)

  -- No ticket is out yet.
  unfoldable pub idle_system : ℤ → ℤ → ℤ → System F
  unfolding new_client_budget
  idle_system max window limit = record {
    budget = new_client_budget max window limit;
    tickets = [];
  }

  idle-IsSound :
      (max window limit : ℤ) → pos 0 ≤ℤ limit → IsSound limit (idle_system max window limit)
  unfolding idle_system held
  idle-IsSound max window limit c = record {
    owned = record {
      count = λ a lt. elim lt [ ];
      limit = λ a lt. elim lt [ ];
      entries = tt;
      owned = tt;
    };
    same = refl;
  }

  -- Whatever order admissions and settlements come in, every ticket that is out is held on the bucket
  -- that the map has for its identity, so its cost will be charged there, and no identity has more
  -- than `limit` tickets out, for a limit that is not negative.
  pub Reach-slots :
      (max window limit : ℤ) {s : System F}
      → pos 0 ≤ℤ limit
      → Reach (idle_system max window limit) s
      → All (λ (t : Ticket). lookup t.key s.budget.seen ≡ some t.addr) s.tickets
        × ((k : String) → pos (held_by k s.tickets) ≤ℤ limit)
  Reach-slots max window limit {s} c r =
      let h = Reach-IsSound limit c (idle-IsSound max window limit c) r in
      let mapped = All-map (λ t o. o.0) s.tickets h.owned.owned in
      (
        mapped,
        λ k. elim (Option-cases (lookup k s.budget.seen)) [
          | inl e ↦ omega (arith, held_by-none s.budget.seen k s.tickets e mapped)
          | inr (a, e) ↦
              let below =
                lookup_entry (λ a. a < s.budget.fresh) k s.budget.seen a h.owned.entries e in
              let held_on = held_by-le s.budget.seen k a s.tickets e mapped in
              let within = rw h.same at (h.owned.limit a below) in omega arith
        ],
      )
