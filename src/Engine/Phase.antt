-- ===== src/Engine/Phase.antt =====
-- The closed loop of a load phase: the I/O layer reports an interval with the flows that are open,
-- and opens as many as the decision asks for (loadPhase of run.go, and Run of linksim.go).
use netquality.Prelude.{◌^◌, ◌≡◌, refl, ◌∙◌, true, ℤ, pos, ◌+ℤ◌, ◌≤ℤ◌, ◌<ℤ◌, +ℤ_parts, arith}
use netquality.Float.{Float}
use netquality.Engine.Params.{Params, with_defaults, with_defaults-IsProper}
use netquality.Engine.State.{Engine, new, initial_flows}
use netquality.Engine.Interval.{Observation, interval}
use netquality.Engine.Frame.{interval-p, interval-max_flows}
use netquality.Engine.Invariant.{IsConsistent, new-IsConsistent, interval-IsConsistent}
use netquality.Engine.Ramp.{InRange, IsCapped, interval-IsCapped, ramp_done_absorbs}

add_zero : (a : ℤ) → a +ℤ pos 0 ≡ a
unfolding ◌+ℤ◌
add_zero a = ground arith

IsCapped-subst : {f f' l l' : ℤ} → f ≡ f' → l ≡ l' → (a : ℤ) → IsCapped f l a → IsCapped f' l' a
IsCapped-subst {f} {l} p q a c = rw (← p, ← q) c

pub record Phase (F : Type 0) : Type 0 where
  pub engine : Engine F
  pub flows : ℤ

module _ {F : Type 0} ⦃d : Float F⦄ where
  unfoldable pub start : Params F → ℤ → Phase F
  unfolding new
  start p max_flows = record {
    engine = new p max_flows;
    flows = initial_flows (with_defaults p) max_flows;
  }

  unfoldable pub tick : Phase F → Observation → Phase F
  tick s o = record {
    engine = (interval s.engine o).0;
    flows = s.flows +ℤ (interval s.engine o).1.add_flows;
  }

  -- Any observation may come, as long as it reports the flows that are open.
  pub data Reach (s : Phase F) : Phase F → Type 0 where
    here : Reach s s
    next : {t : Phase F} → Reach s t → (o : Observation) → o.flows ≡ t.flows → Reach s (tick t o)

  pub record IsBounded (p : Params F) (limit : ℤ) (s : Phase F) : Type 0 where
    pub p_eq : s.engine.p ≡ with_defaults p
    pub limit_eq : s.engine.max_flows ≡ limit
    pub flows_pos : pos 0 <ℤ s.flows
    pub flows_le : s.flows ≤ℤ limit

  start-IsBounded : (p : Params F) (limit : ℤ) → pos 0 <ℤ limit → IsBounded p limit (start p limit)
  unfolding start initial_flows
  start-IsBounded p limit h = ground (arith, (with_defaults-IsProper p).initial_pos)

  asked-IsCapped :
      (p : Params F) (limit : ℤ) (s : Phase F) (o : Observation)
      → limit ≤ℤ pos (2 ^ 62)
      → (with_defaults p).flow_increment <ℤ pos (2 ^ 62)
      → o.flows ≡ s.flows
      → IsBounded p limit s
      → IsCapped s.flows limit (interval s.engine o).1.add_flows
  asked-IsCapped p limit s o small inc e h =
      let range : InRange s.engine o.flows = record {
        flows_nonneg = rw e (omega arith);
        flows_le = rw (e, h.limit_eq) h.flows_le;
        max_small = rw h.limit_eq small;
        increment_pos = rw h.p_eq (with_defaults-IsProper p).increment_pos;
        increment_small = rw h.p_eq inc;
      } in
      IsCapped-subst e h.limit_eq _ (interval-IsCapped s.engine o range)

  tick-IsBounded :
      (p : Params F) (limit : ℤ) (s : Phase F) (o : Observation)
      → limit ≤ℤ pos (2 ^ 62)
      → (with_defaults p).flow_increment <ℤ pos (2 ^ 62)
      → o.flows ≡ s.flows
      → IsBounded p limit s
      → IsBounded p limit (tick s o)
  unfolding tick
  tick-IsBounded p limit s o small inc e h =
      let capped = asked-IsCapped p limit s o small inc e h in
      let sum = +ℤ_parts s.flows (interval s.engine o).1.add_flows in
      record {
        p_eq = interval-p s.engine o ∙ h.p_eq;
        limit_eq = interval-max_flows s.engine o ∙ h.limit_eq;
        flows_pos = omega arith;
        flows_le = capped.1;
      }

  pub Reach-IsBounded :
      (p : Params F) (limit : ℤ) {s : Phase F}
      → pos 0 <ℤ limit
      → limit ≤ℤ pos (2 ^ 62)
      → (with_defaults p).flow_increment <ℤ pos (2 ^ 62)
      → Reach (start p limit) s
      → IsBounded p limit s
  Reach-IsBounded p limit some_flow small inc here = start-IsBounded p limit some_flow
  Reach-IsBounded p limit some_flow small inc (next r o e) =
      tick-IsBounded p limit _ o small inc e (Reach-IsBounded p limit some_flow small inc r)

  -- What a phase is asked for along a run is no removal, and within the limit.
  pub Reach-IsCapped :
      (p : Params F) (limit : ℤ) {s : Phase F} (o : Observation)
      → pos 0 <ℤ limit
      → limit ≤ℤ pos (2 ^ 62)
      → (with_defaults p).flow_increment <ℤ pos (2 ^ 62)
      → Reach (start p limit) s
      → o.flows ≡ s.flows
      → IsCapped s.flows limit (interval s.engine o).1.add_flows
  Reach-IsCapped p limit {s} o some_flow small inc r e =
      asked-IsCapped p limit s o small inc e (Reach-IsBounded p limit some_flow small inc r)

  -- Whatever the I/O layer observes, a phase that opens the flows it is asked for always has at
  -- least one flow and never more than max_flows, for limits and increments up to 2^62.
  pub Reach-flows :
      (p : Params F) (limit : ℤ) {s : Phase F}
      → pos 0 <ℤ limit
      → limit ≤ℤ pos (2 ^ 62)
      → (with_defaults p).flow_increment <ℤ pos (2 ^ 62)
      → Reach (start p limit) s
      → (pos 0 <ℤ s.flows) × (s.flows ≤ℤ limit)
  Reach-flows p limit some_flow small inc r =
      let b = Reach-IsBounded p limit some_flow small inc r in (b.flows_pos, b.flows_le)

  Reach-ramp_done :
      {s t : Phase F}
      → s.engine.ramp_done ≡ true
      → Reach s t
      → (t.engine.ramp_done ≡ true) × (t.flows ≡ s.flows)
  unfolding tick
  Reach-ramp_done h here = (h, refl)
  Reach-ramp_done {s} h (next {t} r o e) =
      let (done, same) = Reach-ramp_done h r in
      let (still, none_added) = ramp_done_absorbs t.engine o done in
      (still, rw none_added (add_zero _ ∙ same))

  -- After the ramp has ended, the phase keeps its flows for good.
  flows-ramp_done : {s t : Phase F} → s.engine.ramp_done ≡ true → Reach s t → t.flows ≡ s.flows
  flows-ramp_done h r = (Reach-ramp_done h r).1

  -- Along every run of a phase the bookkeeping is consistent: the samples and the moving averages
  -- are counted by the intervals, and the lower bound's window lies within the completed intervals.
  pub Reach-IsConsistent :
      (p : Params F) (limit : ℤ) {s : Phase F} → Reach (start p limit) s → IsConsistent s.engine
  unfolding start
  Reach-IsConsistent p limit here = new-IsConsistent p limit
  Reach-IsConsistent p limit (next {t} r o e) = step t o (Reach-IsConsistent p limit r)
    where
      step :
          (t : Phase F) (o : Observation) → IsConsistent t.engine → IsConsistent (tick t o).engine
      step t o h = unfold tick in interval-IsConsistent t.engine o h
