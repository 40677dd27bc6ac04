-- ===== src/Engine/Tracker.antt =====
-- The moving-average stability criterion: `Tracker` of internal/engine/stability.go.
use netquality.Prelude.{
  ℕ, ◌-◌, Bool, true, false, List, [], ◌∷◌, ◌++◌, foldl, pos, ltb, leb, if◌then◌else◌, length, drop,
  last_or,
}
use netquality.Float.{Float, nought}

-- `mad` is a natural number here: the engine makes its trackers from parameters that
-- `with_defaults` has made positive.
pub record Tracker (F : Type 0) : Type 0 where
  pub mad : ℕ
  pub tolerance : F
  pub raw : List F
  pub averages : List F
  pub windowed : Bool

pub data Confidence : Type 0 where
  low medium high : Confidence

-- xs[len(xs)-n:], or all of it where n is larger
abbrev pub last_n {ℓ} : {A : Type ℓ} → ℕ → List A → List A
last_n n xs = drop (length xs - n) xs

module _ {F : Type 0} ⦃d : Float F⦄ where
  abbrev pub sum : List F → F
  sum = foldl d.add nought

  abbrev size_of {ℓ} : {A : Type ℓ} → List A → F
  size_of xs = d.of_int (pos (length xs))

  abbrev sum_squares : F → List F → F
  sum_squares mean = foldl (λ v x. d.add v (d.mul (d.sub x mean) (d.sub x mean))) nought

  -- stddev of internal/engine/stats.go (population)
  unfoldable pub stddev : List F → F
  stddev [] = nought
  stddev (x ∷ xs) =
      let all = x ∷ xs in
      let mean = d.div (sum all) (size_of all) in
      d.sqrt (d.div (sum_squares mean all) (size_of all))

  unfoldable pub new_tracker : ℕ → F → Tracker F
  new_tracker mad tolerance = record {
    mad = mad;
    tolerance = tolerance;
    raw = [];
    averages = [];
    windowed = false;
  }

  unfoldable pub new_windowed_tracker : ℕ → F → Tracker F
  new_windowed_tracker mad tolerance = record {
    mad = mad;
    tolerance = tolerance;
    raw = [];
    averages = [];
    windowed = true;
  }

  -- The average that `push` returns and records.
  unfoldable pub moving_average : Tracker F → F → F
  moving_average t v =
      let raw = t.raw ++ v ∷ [] in d.div (sum (last_n t.mad raw)) (size_of (last_n t.mad raw))

  unfoldable pub push : Tracker F → F → Tracker F
  push t v = record t { raw = t.raw ++ v ∷ []; averages = t.averages ++ moving_average t v ∷ [] }

  unfoldable pub current : Tracker F → F
  current t = last_or t.averages nought

  unfoldable pub count_intervals : Tracker F → ℕ
  count_intervals t = length t.raw

  abbrev pub series : Tracker F → List F
  series t = if t.windowed then t.raw else t.averages

  unfoldable pub stable : Tracker F → Bool
  unfolding stddev
  stable t =
      if ltb (length t.averages) t.mad
      then false
      else if d.le (last_or (series t) nought) nought
      then false
      else d.lt (stddev (last_n t.mad (series t))) (d.mul t.tolerance (last_or (series t) nought))

  unfoldable pub confidence : Tracker F → Confidence
  unfolding stable count_intervals
  confidence t =
      if stable t
      then Confidence.high
      else if leb t.mad (count_intervals t)
      then Confidence.medium
      else Confidence.low
