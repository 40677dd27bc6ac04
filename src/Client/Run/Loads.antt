-- ===== src/Client/Run/Loads.antt =====
-- The load phases among the phases that a run of run.go announces.
use netquality.Prelude.{◌≡◌, inl, inr, Bool, true, false, List, [], ◌∷◌, ◌++◌, Bool-cases, ◌||◌}
use netquality.Client.Options.{Directions, both, download, upload}
use netquality.Client.Run.Phases.{Stage, discovering, idling, loading, done}

abbrev same_direction : Directions → Directions → Bool
same_direction download download = true
same_direction download upload = false
same_direction download both = false
same_direction upload download = false
same_direction upload upload = true
same_direction upload both = false
same_direction both download = false
same_direction both upload = false
same_direction both both = true

abbrev pub is_load : Directions → Stage → Bool
is_load dir discovering = false
is_load dir idling = false
is_load dir (loading e) = same_direction dir e
is_load dir done = false

-- A direction's load phase is among those announced.
abbrev pub loads : Directions → List Stage → Bool
loads dir [] = false
loads dir (s ∷ ss) = is_load dir s || loads dir ss

pub loads_new :
    (dir : Directions) (xs : List Stage) (s : Stage)
    → is_load dir s ≡ true
    → loads dir (xs ++ s ∷ []) ≡ true
loads_new dir [] s h = rw h
loads_new dir (x ∷ xs) s h = elim (Bool-cases (is_load dir x)) [
  | inl e ↦ rw e
  | inr e ↦ rw (e, loads_new dir xs s h)
]

pub loads_other :
    (dir : Directions) (xs : List Stage) (s : Stage)
    → is_load dir s ≡ false
    → loads dir (xs ++ s ∷ []) ≡ loads dir xs
loads_other dir [] s h = rw h
loads_other dir (x ∷ xs) s h = elim (Bool-cases (is_load dir x)) [
  | inl e ↦ rw e
  | inr e ↦ rw (e, loads_other dir xs s h)
]
