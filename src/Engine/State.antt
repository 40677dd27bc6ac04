-- ===== src/Engine/State.antt =====
-- The state of one load phase: `Engine` and `New` of internal/engine/engine.go, and the two helpers
-- `window` and `updateBound`. The mutex is not modelled: `Interval`, `Summary` and `ProbeGap` hold
-- it throughout, so each is one step.
use netquality.Prelude.{
  ℕ, ◌-◌, Bool, false, not, ◌||◌, List, [], foldl, ℤ, pos, pos_part, ltb, ltb_ℤ, mul64, ◌==◌,
  if◌then◌else◌, length, drop, take, get_or, last_or, concat,
}
use netquality.Float.{Float, nought}
use netquality.Engine.Params.{Params, with_defaults}
use netquality.Engine.Tracker.{Tracker, last_n, sum, stddev, new_tracker, new_windowed_tracker}
use netquality.Engine.Samples.{Sample}
use netquality.Engine.Responsiveness.{responsiveness}

-- The fields of `lb`, a Summary of which only these are ever set.
pub record Bound (F : Type 0) : Type 0 where
  pub bps : F
  pub start : ℕ
  pub intervals : ℕ
  pub rpm_upper : F

-- Interval numbers count the calls of Interval, so they are natural numbers.
pub record Engine (F : Type 0) : Type 0 where
  pub p : Params F
  pub max_flows : ℤ
  pub tp : Tracker F
  pub rp : Tracker F
  pub intervals : ℕ
  pub last_bytes : ℤ
  pub peak : F
  pub goodput_stable : Bool
  pub foreign : List (List Sample)
  pub self : List (List Sample)
  pub stopped : Bool
  pub added_into : ℤ
  pub await_gain : Bool
  pub before_add : F
  pub ramp_done : Bool
  pub drain_credit : ℤ
  pub steady_from : ℕ
  pub hold_g : List F
  pub hold_idx : List ℕ
  pub lb : Bound F

-- InitialFlows, over the two fields that it reads.
unfoldable pub initial_flows : {F : Type 0} → Params F → ℤ → ℤ
initial_flows p max_flows = if ltb_ℤ max_flows p.initial_flows then max_flows else p.initial_flows

-- MovingAverageDistance as a count.
abbrev pub distance : {F : Type 0} → Params F → ℕ
distance p = pos_part p.moving_average_distance

-- The samples of intervals [from, to) of a series.
abbrev slice {ℓ} : {A : Type ℓ} → ℕ → ℕ → List A → List A
slice from to xs = take (to - from) (drop from xs)

-- The method window: the samples of the last n completed intervals, foreign and self.
unfoldable pub window : {F : Type 0} → Engine F → ℕ → List Sample × List Sample
window e n =
    let start = length e.foreign - n in
    let count = length e.foreign - start in
    (concat (take count (drop start e.foreign)), concat (take count (drop start e.self)))

module _ {F : Type 0} ⦃d : Float F⦄ where
  unfoldable pub no_bound : Bound F
  no_bound = record { bps = nought; start = 0; intervals = 0; rpm_upper = nought }

  -- A fresh goodput tracker, as New and a capacity change make it.
  abbrev pub fresh_tp : Params F → Tracker F
  fresh_tp p = new_tracker (distance p) p.std_dev_tolerance

  unfoldable pub new : Params F → ℤ → Engine F
  unfolding with_defaults initial_flows no_bound new_tracker new_windowed_tracker
  new given max_flows =
      let p = with_defaults given in
      let added = initial_flows p max_flows in
      record {
        p = p;
        max_flows = max_flows;
        tp = fresh_tp p;
        rp = new_windowed_tracker (distance p) p.std_dev_tolerance;
        intervals = 0;
        last_bytes = pos 0;
        peak = nought;
        goodput_stable = false;
        foreign = [];
        self = [];
        stopped = false;
        added_into = added;
        await_gain = false;
        before_add = nought;
        ramp_done = false;
        drain_credit = mul64 added p.send_buffer_bytes;
        steady_from = 0;
        hold_g = [];
        hold_idx = [];
        lb = no_bound;
      }

  -- The bound that updateBound stores when the trailing window is sustained.
  unfoldable pub bound_over : Engine F → List F → List ℕ → ℕ → Bound F
  bound_over e g idx n =
      let first = get_or idx 0 0 in
      let f = concat (slice (first - 1) (last_or idx 0) e.foreign) in
      let s = concat (slice (first - 1) (last_or idx 0) e.self) in
      record {
        bps = foldl d.fmin d.inf g;
        start = first;
        intervals = n;
        rpm_upper = (responsiveness f s e.p.trimmed_mean_percent).total;
      }

  -- The last tests of updateBound: the mean is positive and the goodputs agree with it.
  unfoldable pub sustained : F → List F → ℕ → Bool
  sustained tolerance g n =
      let mean = d.div (sum g) (d.of_int (pos n)) in
      not (d.le mean nought || d.le (d.mul tolerance mean) (stddev g))

  unfoldable pub update_bound : Engine F → Engine F
  update_bound e =
      let n = distance e.p in
      let g = last_n n e.hold_g in
      let idx = last_n n e.hold_idx in
      if ltb (length e.hold_g) n
      then e
      else if not (last_or idx 0 - get_or idx 0 0 == n - 1)
      then e
      else if sustained e.p.std_dev_tolerance g n
      then record e { lb = bound_over e g idx n }
      else e
