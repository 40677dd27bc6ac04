-- ===== src/Client/ProbeLoop.antt =====
-- The scheduler of a phase's probes: `probeLoop` of run.go.
--
-- Its slots and the ends of the probes that it launched come in any order: a step relation whose steps are a
-- slot and the end of a probe. What a probe's goroutine does before it measures is `begin_probe`.
use text.Mathlib.Text.{◌==◌ as str_eq}
use netquality.Prelude.{
  ℕ, zero, suc, ◌+◌, ◌≤◌, ◌≡◌, refl, ap, ◌∙◌, Bool, true, false, not, List, [], ◌∷◌, ◌++◌, Option,
  none, some, ℤ, pos, ltb, length, length-append, arith, if◌then◌else◌,
}
use netquality.Client.Bytes.{ByteCounter, add_probe}
use netquality.Client.Flows.{Flow}

abbrev max_in_flight : ℕ
max_in_flight = 64

abbrev foreign_probe_bytes : ℤ
foreign_probe_bytes = pos 5000

abbrev self_probe_bytes : ℤ
self_probe_bytes = pos 1000

-- The byte counter once a probe begins, or none where a self probe has no ready flow over HTTP/2.
unfoldable begin_probe : Bool → Option Flow → ByteCounter → Option ByteCounter
begin_probe false picked c = some (add_probe foreign_probe_bytes c)
begin_probe true none c = none
begin_probe true (some f) c = elim f.proto [
  | none ↦ none
  | some proto ↦ if str_eq proto "HTTP/2.0" then some (add_probe self_probe_bytes c) else none
]

-- The kinds of the probes in flight (true for self) which hold the semaphore, that of the next slot, the slots
-- so far, those that were skipped and the probes that ended; and the kinds that were warned of, under a Once each.
pub record ProbeLoop : Type 0 where
  pub in_flight : List Bool
  pub next_self : Bool
  pub slots : ℕ
  pub skipped : ℕ
  pub ended : ℕ
  pub foreign_warned : Bool
  pub self_warned : Bool
  pub warnings : List Bool

abbrev pub new_probe_loop : ProbeLoop
new_probe_loop = record {
  in_flight = [];
  next_self = false;
  slots = 0;
  skipped = 0;
  ended = 0;
  foreign_warned = false;
  self_warned = false;
  warnings = [];
}

-- launch(self), and self = !self.
unfoldable pub launch : ProbeLoop → ProbeLoop
launch l =
    let tried =
      if ltb (length l.in_flight) max_in_flight
      then record l { in_flight = l.next_self ∷ l.in_flight }
      else record l { skipped = l.skipped + 1 } in
    record tried { next_self = not l.next_self; slots = suc l.slots }

-- The warning of a probe of invalid size, the first of its kind.
unfoldable pub warn_size : Bool → ProbeLoop → ProbeLoop
warn_size true l =
    if l.self_warned then l else record l { self_warned = true; warnings = true ∷ l.warnings }
warn_size false l =
    if l.foreign_warned
    then l
    else record l { foreign_warned = true; warnings = false ∷ l.warnings }

-- A probe ends, of an invalid size or not, and leaves these in flight.
unfoldable pub end_probe : Bool → Bool → List Bool → ProbeLoop → ProbeLoop
end_probe kind invalid rest l =
    let warned = if invalid then warn_size kind l else l in
    record warned { in_flight = rest; ended = l.ended + 1 }

pub data Step (l : ProbeLoop) : ProbeLoop → Type 0 where
  slot : Step l (launch l)
  ends :
      (kind invalid : Bool) (before after : List Bool)
      → l.in_flight ≡ before ++ kind ∷ after
      → Step l (end_probe kind invalid (before ++ after) l)

pub data Reach : ProbeLoop → Type 0 where
  here : Reach new_probe_loop
  next : {l m : ProbeLoop} → Reach l → Step l m → Reach m

abbrev pub is_odd : ℕ → Bool
is_odd zero = false
is_odd (suc n) = not (is_odd n)

abbrev pub count_kind : Bool → List Bool → ℕ
count_kind kind [] = 0
count_kind true (true ∷ ws) = suc (count_kind true ws)
count_kind true (false ∷ ws) = count_kind true ws
count_kind false (true ∷ ws) = count_kind false ws
count_kind false (false ∷ ws) = suc (count_kind false ws)

pub record IsScheduled (l : ProbeLoop) : Type 0 where
  pub bounded : length l.in_flight ≤ max_in_flight
  pub accounted : l.slots ≡ length l.in_flight + l.skipped + l.ended
  pub alternates : l.next_self ≡ is_odd l.slots
  pub self_once : count_kind true l.warnings ≡ (if l.self_warned then 1 else 0)
  pub foreign_once : count_kind false l.warnings ≡ (if l.foreign_warned then 1 else 0)

Step-IsScheduled : {l m : ProbeLoop} → Step l m → IsScheduled l → IsScheduled m
unfolding launch end_probe warn_size
Step-IsScheduled {l} slot h = record {
  bounded = ground (arith, h.bounded);
  accounted = ground (arith, h.accounted);
  alternates = ap not h.alternates;
  self_once = ground (arith, h.self_once);
  foreign_once = ground (arith, h.foreign_once);
}
Step-IsScheduled {l} (ends true invalid before after e) h =
    let taken : length l.in_flight ≡ suc (length (before ++ after)) =
      ap length e
      ∙ omega (arith, length-append before (true ∷ after), length-append before after) in
    record {
      bounded = omega (arith, h.bounded);
      accounted = ground (arith, h.accounted);
      alternates = ground (arith, h.alternates);
      self_once = ground (arith, h.self_once);
      foreign_once = ground (arith, h.foreign_once);
    }
Step-IsScheduled {l} (ends false invalid before after e) h =
    let taken : length l.in_flight ≡ suc (length (before ++ after)) =
      ap length e
      ∙ omega (arith, length-append before (false ∷ after), length-append before after) in
    record {
      bounded = omega (arith, h.bounded);
      accounted = ground (arith, h.accounted);
      alternates = ground (arith, h.alternates);
      self_once = ground (arith, h.self_once);
      foreign_once = ground (arith, h.foreign_once);
    }

Reach-IsScheduled : {l : ProbeLoop} → Reach l → IsScheduled l
Reach-IsScheduled here = record {
  bounded = omega arith;
  accounted = refl;
  alternates = refl;
  self_once = refl;
  foreign_once = refl;
}
Reach-IsScheduled (next r s) = Step-IsScheduled s (Reach-IsScheduled r)

-- However slots and the ends of probes interleave, at most 64 probes are in flight; every slot so far is a
-- probe in flight, one that ended, or a skipped one; self and foreign slots alternate, a foreign one first;
-- and each kind of probe is warned of at most once.
pub Reach-probes :
    {l : ProbeLoop}
    → Reach l
    → (length l.in_flight ≤ 64)
      × (l.slots ≡ length l.in_flight + l.skipped + l.ended)
      × (l.next_self ≡ is_odd l.slots)
      × (count_kind true l.warnings ≤ 1)
      × (count_kind false l.warnings ≤ 1)
Reach-probes {l} r =
    let h = Reach-IsScheduled r in
    (
      h.bounded,
      h.accounted,
      h.alternates,
      ground (arith, h.self_once),
      ground (arith, h.foreign_once),
    )
