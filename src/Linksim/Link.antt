-- ===== src/Linksim/Link.antt =====
-- The link's model and one step of it: Link, Budget, Outcome and the body of Run's loop up to its tests in
-- internal/linksim/linksim.go.
--
-- math.Pow and the random source are arguments: `draw k n` is the draw number k, below n.
use netquality.Prelude.{
  ℕ, zero, suc, ◌^◌, true, false, ◌&&◌, List, [], ◌∷◌, ◌++◌, ℤ, pos, ltb_ℤ, leb_ℤ, add64, sub64,
  mul64, length, if◌then◌else◌,
}
use netquality.Float.{Float, nought, seconds}
use netquality.Engine.Samples.{Sample}
use netquality.Engine.State.{Engine}
use netquality.Engine.Interval.{Decision}
use netquality.Engine.Summary.{probe_gap}

pub record Link (F : Type 0) : Type 0 where
  pub capacity : F
  pub rtt : ℤ
  pub queue_bytes : F
  pub per_flow_cap : F
  pub shaper_burst : F
  pub send_buffer : F
  pub tick_jitter : ℤ
  pub change_at : ℤ
  pub change_to : F

pub record Budget : Type 0 where
  pub duration : ℤ
  pub bytes : ℤ

-- A flow: its current rate, and when it started.
pub record Flow (F : Type 0) : Type 0 where
  pub rate : F
  pub started : ℤ

-- The variables of Run.
pub record Sim (F : Type 0) : Type 0 where
  pub eng : Engine F
  pub capacity : F
  pub now : ℤ
  pub bytes : F
  pub queue : F
  pub tokens : F
  pub flows : List (Flow F)
  pub last_tick : ℤ
  pub next_tick : ℤ
  pub cur_f : List Sample
  pub cur_s : List Sample
  pub next_probe : ℤ
  pub moving_averages : List F
  pub decisions : List (Decision F)
  pub capacities : List F
  pub draws : ℕ

-- dt: ten milliseconds.
abbrev pub dt : ℤ
dt = pos (10 ^ 7)

unfoldable pub foreign_probe : ℤ → Sample
foreign_probe l = record {
  total = mul64 (pos 3) l;
  dns = pos 0;
  connect = l;
  tls = l;
  tls_rtts = pos 1;
  ttfb = l;
  http = l;
  staged = true;
}

unfoldable pub self_probe : ℤ → Sample
self_probe l = record {
  total = l;
  dns = pos 0;
  connect = pos 0;
  tls = pos 0;
  tls_rtts = pos 0;
  ttfb = pos 0;
  http = l;
  staged = false;
}

module _ {F : Type 0} ⦃d : Float F⦄ where
  -- The closure addFlows: it stops at the limit.
  unfoldable pub open_flows : Link F → ℤ → ℕ → Sim F → Sim F
  open_flows link max_flows zero s = s
  open_flows link max_flows (suc n) s =
      let rest = open_flows link max_flows n (record s {
        flows = s.flows ++ record { rate = nought; started = s.now } ∷ [];
        bytes = d.add s.bytes link.send_buffer;
      }) in
      if ltb_ℤ (pos (length s.flows)) max_flows then rest else s

  -- The closure loadedRTT.
  unfoldable pub loaded_rtt : Link F → Sim F → ℤ
  loaded_rtt link s =
      if d.le s.capacity nought
      then link.rtt
      else add64 link.rtt (
          d.to_int (d.mul (d.div (d.mul s.queue (d.lit 8 0)) s.capacity) (d.of_int (pos (10 ^ 9)))))

  unfoldable pub change_capacity : Link F → Sim F → Sim F
  change_capacity link s =
      if ltb_ℤ (pos 0) link.change_at && leb_ℤ link.change_at s.now
      then record s { capacity = link.change_to }
      else s

  unfoldable pub fair_share : Sim F → F
  fair_share s =
      if ltb_ℤ (pos 0) (pos (length s.flows))
      then d.div s.capacity (d.of_int (pos (length s.flows)))
      else s.capacity

  -- The capacity, under the flow's own ceiling.
  unfoldable pub capped : Link F → F → F
  capped link capacity =
      if d.lt nought link.per_flow_cap && d.lt link.per_flow_cap capacity
      then link.per_flow_cap
      else capacity

  -- The rate of one flow: slow start toward the target, cut to the fair share on a full link.
  unfoldable pub flow_rate : (F → F → F) → Link F → Sim F → F → F → Flow F → F
  flow_rate pow link s fair offered f =
      let rtt = if leb_ℤ link.rtt (pos 0) then pos (10 ^ 6) else link.rtt in
      let age = sub64 s.now f.started in
      let ramp =
        d.mul (d.lit 1_000_000 0) (pow (d.lit 2 0) (d.div (d.of_int age) (d.of_int rtt))) in
      let cap = capped link s.capacity in
      let target = if d.lt ramp cap then ramp else cap in
      if d.lt fair target && d.lt s.capacity (d.add offered target)
      then d.fmax fair nought
      else target

  -- The loop over the flows, and the load that they offer together.
  unfoldable pub offer : (F → F → F) → Link F → Sim F → F → F → List (Flow F) → List (Flow F) × F
  offer pow link s fair offered [] = ([], offered)
  offer pow link s fair offered (f ∷ fs) =
      let rate = flow_rate pow link s fair offered f in
      let (rest, total) = offer pow link s fair (d.add offered rate) fs in
      (record f { rate = rate } ∷ rest, total)

  abbrev step_seconds : F
  step_seconds = seconds dt

  -- What the bottleneck drains of its queue, and the shaper's tokens after it.
  unfoldable pub drain : Link F → Sim F → F × F
  drain link s =
      let rate = d.mul (d.div s.capacity (d.lit 8 0)) step_seconds in
      let burst = d.mul (d.div (d.mul (d.lit 2 0) s.capacity) (d.lit 8 0)) step_seconds in
      let tokens = d.fmin link.shaper_burst (d.add s.tokens rate) in
      let shaped = d.fmin s.queue (d.fmin tokens burst) in
      if d.lt nought link.shaper_burst
      then (shaped, d.sub tokens shaped)
      else (d.fmin s.queue rate, s.tokens)

  -- The excess over the buffer is dropped; without a buffer, all of it.
  unfoldable pub overflow : Link F → F → F
  overflow link queue =
      if d.lt nought link.queue_bytes && d.lt link.queue_bytes queue
      then link.queue_bytes
      else if d.eq link.queue_bytes nought
      then nought
      else queue

  -- The flows' rates, the bottleneck and the clock.
  unfoldable pub transmit : (F → F → F) → Link F → Sim F → Sim F
  transmit pow link s =
      let (flows, offered) = offer pow link s (fair_share s) nought s.flows in
      let filled = record s {
        flows = flows;
        queue = d.add s.queue (d.mul (d.div offered (d.lit 8 0)) step_seconds);
      } in
      let (delivered, tokens) = drain link filled in
      record filled {
        tokens = tokens;
        queue = overflow link (d.sub filled.queue delivered);
        bytes = d.add s.bytes delivered;
        now = add64 s.now dt;
      }

  -- The probes that are due.
  unfoldable pub probe : (ℕ → ℕ → ℕ) → Link F → Sim F → Sim F
  probe draw link s =
      let l = add64 (loaded_rtt link s) (mul64 (pos (draw s.draws 2000)) (pos 1000)) in
      if leb_ℤ s.next_probe s.now
      then record s {
        next_probe = add64 s.now (probe_gap s.eng (pos 5000) (pos 1000));
        cur_f = s.cur_f ++ foreign_probe l ∷ [];
        cur_s = s.cur_s ++ self_probe l ∷ [];
        draws = suc s.draws;
      }
      else s

  -- The loop's body up to its tests.
  unfoldable pub advance : (F → F → F) → (ℕ → ℕ → ℕ) → Link F → Sim F → Sim F
  advance pow draw link s = probe draw link (transmit pow link (change_capacity link s))
