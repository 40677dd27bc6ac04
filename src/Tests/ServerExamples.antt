-- ===== src/Tests/ServerExamples.antt =====
-- The server's theorems at concrete clients.
use Prim.Native.String.{String}
use netquality.Prelude.{
  ◌+◌, ℕ, zero, suc, ◌*◌, ◌^◌, ◌≤◌, ◌≡◌, refl, Bool, true, false, [], ◌∷◌, Option, none, some, ℤ,
  pos, ◌≤ℤ◌, ◌<ℤ◌, ◌+ℤ◌, ◌-ℤ◌, ◌*ℤ◌, arith, All,
}
use netquality.Float.Micro.{Micro, micro_float, divide}
use netquality.Server.Budget.{
  Bucket, Budget, Admission, ticket, lookup, admit, settle, find_or_make, refill, balance,
  forgettable, new_client_budget, install, time_sub,
}
use netquality.Server.Budget.Slots.{Ticket, System, enter, enters, here, next, held_by}
use netquality.Server.Budget.Ownership.{idle_system, Reach-slots}
use netquality.Server.Handler.{
  Options, Request, Route, Verdict, unauthorized, method_not_allowed, metered, authenticate,
  method_allowed, guard,
}
use netquality.Server.Listener.{acquire, count_open, fresh, Reach-open}
use netquality.Server.Listener
use netquality.Server.Handler.Guard.{guard_metered}
use netquality.Server.Handler.Streams.{
  Attempt, IsWriter, download, download_bounds, download_complete,
}

abbrev gib : ℤ
gib = pos (2 ^ 30)

abbrev ten_minutes : ℤ
ten_minutes = pos (600 * 10 ^ 9)

-- Alice enters twice and bob once.
abbrev busy : System Micro
busy = enter (enter (idle_system gib ten_minutes (pos 2)) "alice" (pos 0)) "bob" (pos 1)

Reach-slots_example :
    All (λ (t : Ticket). lookup t.key busy.budget.seen ≡ some t.addr) busy.tickets
    × ((k : String) → pos (held_by k busy.tickets) ≤ℤ pos 2)
Reach-slots_example =
    Reach-slots gib ten_minutes (pos 2) (omega arith)
      (next (next here (enters "alice" (pos 0))) (enters "bob" (pos 1)))

-- A budget in which alice has used half of hers.
abbrev half_used : Budget Micro
half_used = record (new_client_budget (pos 8) ten_minutes (pos 2)) {
  seen = ("alice", 0) ∷ [];
  heap = λ _. record { tokens = pos 4_000_000; last = pos 0; active = pos 0 };
  fresh = 1;
}

not_full : forgettable half_used (pos 0) 0 ≡ false
unfolding forgettable balance new_client_budget ◌+ℤ◌ ◌-ℤ◌ ◌*ℤ◌ divide
not_full = refl

abbrev options : Options
options = record {
  large_size = gib;
  auth_token = "secret";
  signing_keys = [];
  upload_size = gib;
  max_client_bytes = gib;
  client_window = ten_minutes;
  max_client_concurrency = pos 2;
}

abbrev large_route : Route
large_route = record { request_cap = gib; signed = true; methods = "GET" ∷ [] }

abbrev get_request : Request
get_request = record {
  client_ip = "192.0.2.1";
  method = "GET";
  authorization = "";
  signed = record { path = "/nq/large"; exp = ""; sig = ""; sub = "" };
}

-- Writes that always succeed, and a connection that breaks at the second write.
abbrev good_write : ℕ → ℕ → Attempt
good_write i n = record { cancelled = false; written = n; failed = false }

abbrev broken_write : ℕ → ℕ → Attempt
broken_write zero n = record { cancelled = false; written = n; failed = false }
broken_write (suc i) n = record { cancelled = false; written = 0; failed = true }

good_write-IsWriter : IsWriter good_write
good_write-IsWriter = record { within = λ i n. omega arith; full = λ i n e. refl }

broken_write_within : (i n : ℕ) → (broken_write i n).written ≤ n
broken_write_within zero n = omega arith
broken_write_within (suc i) n = omega arith

broken_write_full : (i n : ℕ) → (broken_write i n).failed ≡ false → (broken_write i n).written ≡ n
broken_write_full zero n e = refl
broken_write_full (suc i) n e = cc

download_bounds_example :
    (m : ℕ) × (download 200_001 broken_write 0 200_000 0 ≡ some m) × (0 ≤ m) × (m ≤ 200_000)
download_bounds_example =
    download_bounds broken_write (record { within = broken_write_within; full = broken_write_full })
      200_001 0 200_000 0 (omega arith)

download_complete_example : download 200_001 good_write 0 200_000 0 ≡ some 200_000
download_complete_example =
    download_complete good_write good_write-IsWriter 200_001 0 200_000 0 (omega arith)
      (λ j n. (refl, refl))

abbrev anyone : Request → Bool
anyone _ = true

abbrev unsigned : Request → Option String
unsigned _ = none

abbrev half_spent : Budget Micro
half_spent = record half_used { seen = ("192.0.2.1", 0) ∷ [] }

metered_get :
    (guard anyone unsigned options large_route (some half_spent) get_request (pos 0)).1
    ≡ metered "192.0.2.1" 0
unfolding guard authenticate netquality.Server.Handler.is_authed method_allowed
    netquality.Server.Handler.admit_request admit netquality.Server.Budget.decide refill balance
    find_or_make lookup new_client_budget ◌*ℤ◌ ◌+ℤ◌ divide
metered_get = refl

guard_metered_example :
    (authenticate anyone unsigned options large_route get_request ≡ some "192.0.2.1")
    × (method_allowed large_route get_request ≡ true)
    × (pos 0 <ℤ large_route.request_cap)
    × ((admit half_spent "192.0.2.1" (pos 0)).1 ≡ ticket 0)
    × ((guard anyone unsigned options large_route (some half_spent) get_request (pos 0)).0
        ≡ some (admit half_spent "192.0.2.1" (pos 0)).0)
guard_metered_example =
    guard_metered anyone unsigned options large_route half_spent get_request (pos 0) "192.0.2.1" 0
      metered_get

-- The listener's one slot is taken, and given to a connection.
abbrev taken : Listener.LimitListener
taken = record { max = 1; taken = 1; done = false }

one_slot : acquire (fresh 1).listener ≡ some taken
unfolding acquire netquality.Server.Listener.limit_listener
one_slot = refl

abbrev listening : Listener.System
listening = record { listener = taken; waiting = 0; conns = false ∷ [] }

Reach-open_example :
    (listening.listener.taken ≡ listening.waiting + count_open listening.conns)
    × (listening.waiting + count_open listening.conns ≤ 1)
Reach-open_example = Reach-open 1 (
    Listener.next (Listener.next Listener.here (Listener.begins taken one_slot))
      (Listener.accepts 0 refl))
