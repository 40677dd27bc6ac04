-- ===== src/Client/Bytes.antt =====
-- The byte counter of a load phase: `byteCounter` of load.go.
--
-- Its fields are atomics that flows and probes update together. One call is up to three atomic
-- actions: the payload's sum, the total's sum, which yields a reading, and the test of that reading,
-- which runs the callback under a Once. They interleave with those of the other calls.
use netquality.Prelude.{
  ℕ, ◌+◌, ◌≤◌, ◌≡◌, ◌≢◌, ◌⊎◌, refl, Bool, true, false, not, ◌&&◌, ◌||◌, List, [], ◌∷◌, ◌++◌, ℤ, pos,
  ltb_ℤ, leb_ℤ, ◌≤ℤ◌, ◌<ℤ◌, add64, arith, if◌then◌else◌,
}

-- `fired` is the state of the Once, and `calls` how often onLimit ran.
pub record ByteCounter : Type 0 where
  pub total : ℤ
  pub payload : ℤ
  pub limit : ℤ
  pub fired : Bool
  pub calls : ℕ

abbrev pub new_counter : ℤ → ByteCounter
new_counter limit = record {
  total = pos 0;
  payload = pos 0;
  limit = limit;
  fired = false;
  calls = 0;
}

unfoldable pub add_payload : ℤ → ByteCounter → ByteCounter
add_payload n c = record c { payload = add64 c.payload n }

unfoldable pub add_total : ℤ → ByteCounter → ByteCounter
add_total n c = record c { total = add64 c.total n }

abbrev over : ℤ → ℤ → Bool
over limit t = ltb_ℤ (pos 0) limit && leb_ℤ limit t

-- The test of the reading `t`.
unfoldable pub check_limit : ℤ → ByteCounter → ByteCounter
check_limit t c =
    if over c.limit t && not c.fired then record c { fired = true; calls = c.calls + 1 } else c

-- The calls, run without interruption.
unfoldable pub add_probe : ℤ → ByteCounter → ByteCounter
unfolding add_total
add_probe n c = let c' = add_total n c in check_limit c'.total c'

unfoldable pub add : ℤ → ByteCounter → ByteCounter
add n c = add_probe n (add_payload n c)

-- The counter with the readings that are not tested yet.
pub record System : Type 0 where
  pub counter : ByteCounter
  pub readings : List ℤ

abbrev pub idle_counter : ℤ → System
idle_counter limit = record { counter = new_counter limit; readings = [] }

abbrev pub after_total : ℤ → System → System
after_total n s =
    let c' = add_total n s.counter in record { counter = c'; readings = c'.total ∷ s.readings }

pub data Step (s : System) : System → Type 0 where
  pays : (n : ℤ) → Step s (record s { counter = add_payload n s.counter })
  adds : (n : ℤ) → Step s (after_total n s)
  tests :
      (before after : List ℤ) (t : ℤ)
      → s.readings ≡ before ++ t ∷ after
      → Step s (record { counter = check_limit t s.counter; readings = before ++ after })

pub data Reach (s : System) : System → Type 0 where
  here : Reach s s
  next : {t u : System} → Reach s t → Step t u → Reach s u

any_over : ℤ → List ℤ → Bool
any_over limit [] = false
any_over limit (t ∷ ts) = over limit t || any_over limit ts

any_over-middle :
    (limit : ℤ) (xs : List ℤ) (t : ℤ) (ys : List ℤ)
    → any_over limit (xs ++ t ∷ ys) ≡ over limit t || any_over limit (xs ++ ys)
unfolding any_over
any_over-middle limit [] t ys = refl
any_over-middle limit (x ∷ xs) t ys = ground (arith, any_over-middle limit xs t ys)

-- A total over the limit has fired the callback, or its reading is waiting.
record IsWatched (limit : ℤ) (s : System) : Type 0 where
  limit_eq : s.counter.limit ≡ limit
  once : s.counter.calls ≡ (if s.counter.fired then 1 else 0)
  watched :
      over limit s.counter.total ≡ true → (s.counter.fired || any_over limit s.readings) ≡ true
  limited : s.counter.fired ≡ true → pos 0 <ℤ limit

Step-IsWatched : (limit : ℤ) {s t : System} → IsWatched limit s → Step s t → IsWatched limit t
unfolding add_payload add_total check_limit any_over
Step-IsWatched limit i (pays n) = record {
  limit_eq = i.limit_eq;
  once = i.once;
  watched = i.watched;
  limited = i.limited;
}
Step-IsWatched limit {s} i (adds n) = record {
  limit_eq = i.limit_eq;
  once = i.once;
  watched = λ e. ground arith;
  limited = i.limited;
}
Step-IsWatched limit {s} i (tests before after t e) = record {
  limit_eq = ground (arith, i.limit_eq);
  once = ground (arith, i.once);
  watched = λ h. ground (arith, i.limit_eq, i.watched, e, any_over-middle limit before t after);
  limited = ground (arith, i.limit_eq, i.limited);
}

Reach-IsWatched : (limit : ℤ) {s : System} → Reach (idle_counter limit) s → IsWatched limit s
unfolding any_over
Reach-IsWatched limit here = record {
  limit_eq = refl;
  once = refl;
  watched = λ h. ground arith;
  limited = λ h. ground arith;
}
Reach-IsWatched limit (next r step) = Step-IsWatched limit (Reach-IsWatched limit r) step

-- However the calls interleave, the callback runs at most once, never without a positive limit, and
-- has run unless a reading waits or the total is below such a limit.
pub Reach-trips :
    (limit : ℤ) {s : System}
    → Reach (idle_counter limit) s
    → (s.counter.calls ≤ 1)
      × ((pos 0 <ℤ limit) ⊎ (s.counter.calls ≡ 0))
      × ((s.counter.calls ≡ 1) ⊎ (limit ≤ℤ pos 0) ⊎ (s.counter.total <ℤ limit) ⊎ (s.readings ≢ []))
unfolding any_over
Reach-trips limit r =
    let i = Reach-IsWatched limit r in
    (ground (arith, i.once), ground (arith, i.once, i.limited), ground (arith, i.once, i.watched))
