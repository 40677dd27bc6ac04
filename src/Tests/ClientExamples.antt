-- ===== src/Tests/ClientExamples.antt =====
-- The theorems on the client's shared state at concrete runs.
use Prim.Native.String.{String}
use netquality.Prelude.{
  ◌≤◌, ◌≡◌, ◌≢◌, refl, ◌⊎◌, true, false, [], ◌∷◌, ◌++◌, pos, ◌≤ℤ◌, ◌<ℤ◌, ◌+ℤ◌, All, add64, wrap,
}
use netquality.Float.Micro.{micro_float}
use netquality.Client.Bytes.{idle_counter, Reach-trips}
use netquality.Client.Bytes.{System as Counting, after_total, check_limit}
use netquality.Client.Connections.{
  has, after_open, after_track, after_snapshot, without, idle_transport, Reach-closed,
}
use netquality.Client.Connections.{System as Holding}
use netquality.Client.Addresses.{member, distinct, load, resume, empty, Reach-addresses}
use netquality.Client.Addresses.{System as Filling}
use netquality.Client.Bytes
use netquality.Client.Connections
use netquality.Client.Addresses

-- Two calls add to the counter, and each tests its reading afterwards.
abbrev counting : Counting
counting = after_total (pos 70) (after_total (pos 50) (idle_counter (pos 100)))

two_readings : counting.readings ≡ pos 120 ∷ pos 50 ∷ []
unfolding Bytes.add_total add64 wrap ◌+ℤ◌
two_readings = refl

Reach-trips_example :
    let s : Counting = record {
      counter = check_limit (pos 120) counting.counter;
      readings = pos 50 ∷ [];
    } in
    (s.counter.calls ≤ 1)
    × ((pos 0 <ℤ pos 100) ⊎ (s.counter.calls ≡ 0))
    × ((s.counter.calls ≡ 1)
        ⊎ (pos 100 ≤ℤ pos 0)
        ⊎ (s.counter.total <ℤ pos 100)
        ⊎ (s.readings ≢ []))
Reach-trips_example = Reach-trips (pos 100) (
    Bytes.next (Bytes.next (Bytes.next Bytes.here (Bytes.adds (pos 50))) (Bytes.adds (pos 70)))
      (Bytes.tests [] (pos 50 ∷ []) (pos 120) two_readings))

-- Connection 1 is torn down, and connection 2 arrives too late.
abbrev snapped : Holding
snapped = after_snapshot (after_track 1 ([] ++ []) (after_open 1 idle_transport))

abbrev torn_down : Holding
torn_down = after_track 2 ([] ++ []) (after_open 2 snapped)

two_closing : torn_down.closing ≡ 2 ∷ 1 ∷ []
unfolding Connections.track Connections.close_all
two_closing = refl

abbrev half_closed : Holding
half_closed = record torn_down { opened = without 2 torn_down.opened; closing = [] ++ 1 ∷ [] }

abbrev all_closed : Holding
all_closed = record half_closed { opened = without 1 half_closed.opened; closing = [] ++ [] }

latched : all_closed.transport.closed ≡ true
unfolding Connections.track Connections.close_all
latched = refl

Reach-closed_example : (has 2 all_closed.opened ≡ false) ⊎ (has 2 all_closed.dialling ≡ true)
Reach-closed_example =
    Reach-closed
      (Connections.next
        (Connections.next
          (Connections.next
            (Connections.next
              (Connections.next
                (Connections.next (Connections.next Connections.here (Connections.opens 1))
                  (Connections.tracks [] [] 1 refl))
                Connections.tears_down)
              (Connections.opens 2))
            (Connections.tracks [] [] 2 refl))
          (Connections.finishes [] (1 ∷ []) 2 two_closing))
        (Connections.finishes [] [] 1 refl))
      latched refl 2

-- Two adds of one address load the empty set, and both go on to store it.
abbrev loaded : Filling
loaded = load "192.0.2.7" (load "192.0.2.7" empty)

abbrev address_pass : Addresses.Pass
address_pass = record { address = "192.0.2.7"; seen = record { stores = 0; addrs = [] } }

abbrev stored : Filling
stored = resume address_pass ([] ++ address_pass ∷ []) loaded

Reach-addresses_example :
    (distinct stored.set.addrs ≡ true)
    × All (λ (a : String). member a stored.set.addrs ≡ true) stored.added
Reach-addresses_example = Reach-addresses (
    Addresses.next
      (Addresses.next (Addresses.next Addresses.here (Addresses.begins "192.0.2.7" refl))
        (Addresses.begins "192.0.2.7" refl))
      (Addresses.resumes [] (address_pass ∷ []) address_pass refl))
