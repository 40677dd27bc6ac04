-- ===== src/Server/Budget/Slots.antt =====
-- Who holds which slot: the budget with the tickets that are outstanding, under any interleaving of
-- admissions and settlements.
use Prim.Native.String.{String}
use text.Mathlib.Text.{◌==◌ as str_eq}
use netquality.Prelude.{
  ℕ, suc, ◌<◌, ◌≡◌, List, [], ◌∷◌, ◌++◌, some, ℤ, pos, ◌≤ℤ◌, ◌==◌, if◌then◌else◌, All,
}
use netquality.Float.{Float}
use netquality.Server.Budget.{Budget, Admission, ticket, refused, lookup, admit, settle}

-- An outstanding ticket: the identity that it was admitted under, and its bucket.
pub record Ticket : Type 0 where
  pub key : String
  pub addr : ℕ

pub record System (F : Type 0) : Type 0 where
  pub budget : Budget F
  pub tickets : List Ticket

-- How many tickets are held on a bucket.
unfoldable pub held : ℕ → List Ticket → ℕ
held a [] = 0
held a (t ∷ ts) = if t.addr == a then suc (held a ts) else held a ts

-- How many are held by an identity.
unfoldable pub held_by : String → List Ticket → ℕ
held_by k [] = 0
held_by k (t ∷ ts) = if str_eq t.key k then suc (held_by k ts) else held_by k ts

-- A ticket joins the outstanding ones.
abbrev pub joined : String → Admission → List Ticket → List Ticket
joined k (ticket a) ts = record { key = k; addr = a } ∷ ts
joined k (refused r w) ts = ts

module _ {F : Type 0} ⦃d : Float F⦄ where
  unfoldable pub enter : System F → String → ℤ → System F
  enter s key now = record {
    budget = (admit s.budget key now).0;
    tickets = joined key (admit s.budget key now).1 s.tickets;
  }

  -- Any outstanding ticket may be settled next, with any number of bytes; no other call of settle
  -- can be made, since the handler that got the ticket makes the one call.
  pub data Step (s : System F) : System F → Type 0 where
    enters : (key : String) (now : ℤ) → Step s (enter s key now)
    settles :
        (before after : List Ticket) (t : Ticket) (n now : ℤ)
        → s.tickets ≡ before ++ t ∷ after
        → Step s (record { budget = settle s.budget t.addr n now; tickets = before ++ after })

  pub data Reach (s : System F) : System F → Type 0 where
    here : Reach s s
    next : {t u : System F} → Reach s t → Step t u → Reach s u

  pub record IsOwned (s : System F) : Type 0 where
    pub count : (a : ℕ) → a < s.budget.fresh → (s.budget.heap a).active ≡ pos (held a s.tickets)
    pub limit : (a : ℕ) → a < s.budget.fresh → pos (held a s.tickets) ≤ℤ s.budget.concurrency
    pub entries : All (λ (e : String × ℕ). e.1 < s.budget.fresh) s.budget.seen
    pub owned :
        All
          (λ (t : Ticket). (lookup t.key s.budget.seen ≡ some t.addr) × (t.addr < s.budget.fresh))
          s.tickets
