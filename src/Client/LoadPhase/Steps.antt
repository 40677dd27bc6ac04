-- ===== src/Client/LoadPhase/Steps.antt =====
-- The phase loop of run.go against the engine's: flows, intervals and what the engine is told.
use netquality.Prelude.{
  ℕ, ◌+◌, ◌^◌, ◌≤◌, ◌≡◌, refl, sym, ap, ◌∙◌, subst, inl, inr, Bool, true, false, List, [], ◌∷◌, ℤ,
  pos, ◌≤ℤ◌, ◌<ℤ◌, ◌+ℤ◌, pos_part, length, nonneg, plus_nonneg, map, arith, if◌then◌else◌,
  Bool-cases,
}
use netquality.Float.{Float}
use netquality.Engine.Params.{Params, with_defaults}
use netquality.Engine.State.{Engine, new, initial_flows}
use netquality.Engine.Interval.{Observation, interval, ramp, after_rpm, track_rpm}
use netquality.Engine.Decisions.{stop-stopped}
use netquality.Engine.Phase.{Reach, here, next, start, tick, Reach-IsCapped, Reach-flows}
use netquality.Client.Bytes.{ByteCounter, add, add_probe}
use netquality.Client.Flows.Request.{Hook}
use netquality.Client.LoadPhase.{
  LoadPhase, Event, probed, counted, hooked, ticked, probe_counted, flow_broke, count_bytes,
  stop_called, ctx_done, flow_hooked, prepare, begin, observed, decided, on_tick, handle,
  handle_all,
}
use netquality.Client.LoadPhase.Grown.{
  IsNumbered, IsNumbered-map, hooked-length, IsGrown, add_flows-IsGrown,
}

module _ {F : Type 0} ⦃d : Float F⦄ where
  decision-interval :
      (e : Engine F) (o : Observation) → (interval e o).1.interval ≡ (interval e o).0.intervals
  unfolding interval ramp after_rpm track_rpm
  decision-interval e o = ground arith

  -- The engine and the flows are those of a phase that a run of the engine's loop reaches.
  abbrev pub IsPhase : Params F → ℤ → LoadPhase F → Type 0
  IsPhase sp max_flows s =
      Reach (start sp max_flows) (record { engine = s.engine; flows = pos (length s.flows) })

  pub record IsLoading (sp : Params F) (max_flows : ℤ) (s : LoadPhase F) : Type 0 where
    pub phase : IsPhase sp max_flows s
    pub numbered : IsNumbered 0 s.flows
    pub completed : s.intervals ≡ s.engine.intervals

  module _ (sp : Params F) (max_flows : ℤ) (some_flow : pos 0 <ℤ max_flows)
      (limit_small : max_flows ≤ℤ pos (2 ^ 62))
      (increment_small : (with_defaults sp).flow_increment <ℤ pos (2 ^ 62)) (spacing : ℤ) where
    IsGrown-IsPhase :
        (n : ℕ) (s t : LoadPhase F)
        → IsGrown n s t
        → Reach
            (start sp max_flows)
            (record { engine = s.engine; flows = pos (length s.flows + n) })
        → IsPhase sp max_flows t
    IsGrown-IsPhase n s t g r =
        subst
          (λ e. Reach (start sp max_flows) (record { engine = e; flows = pos (length t.flows) }))
          (sym g.engine)
          (subst (λ k. Reach (start sp max_flows) (record { engine = s.engine; flows = pos k }))
            (sym g.count) r)

    pub begin-IsLoading :
        (max_bytes at : ℤ) → IsLoading sp max_flows (begin sp max_flows max_bytes at)
    unfolding begin prepare start new
    begin-IsLoading max_bytes at =
        let initial = initial_flows (with_defaults sp) max_flows in
        let (least, most) = Reach-flows sp max_flows some_flow limit_small increment_small here in
        let s0 = prepare sp max_flows max_bytes at in
        let grown = add_flows-IsGrown (pos_part initial) s0 tt in
        let count : initial ≡ pos (0 + pos_part initial) =
          nonneg initial (omega arith) ∙ ap pos (omega arith) in
        record {
          phase = IsGrown-IsPhase (pos_part initial) s0 (begin sp max_flows max_bytes at) grown (
              subst
                (λ k. Reach (start sp max_flows) (record { engine = new sp max_flows; flows = k }))
                count here);
          numbered = grown.numbered;
          completed = grown.intervals ∙ ap (λ e. e.intervals) (sym grown.engine);
        }

    on_tick-IsLoading :
        (now : ℤ) (s : LoadPhase F)
        → IsLoading sp max_flows s
        → IsLoading sp max_flows (on_tick spacing now s)
    unfolding on_tick decided tick observed
    on_tick-IsLoading now s i =
        let o = observed spacing now s in
        let ticked = next i.phase o refl in
        let (no_removal, within) =
          Reach-IsCapped sp max_flows o some_flow limit_small increment_small i.phase refl in
        let asked = (interval s.engine o).1.add_flows in
        let after : pos (length s.flows) +ℤ asked ≡ pos (length s.flows + pos_part asked) =
          plus_nonneg (length s.flows) asked no_removal in
        let moved =
          subst
            (λ k.
              Reach (start sp max_flows) (record { engine = (interval s.engine o).0; flows = k }))
            after ticked in
        elim (Bool-cases (interval s.engine o).1.stop) [
          | inl stops ↦
              let none_asked : length s.flows + pos_part asked ≡ length s.flows =
                ground (arith, stop-stopped s.engine o) in
              rw (on_tick, stops)
                (record {
                  phase =
                      subst
                        (λ k.
                          Reach (start sp max_flows)
                            (record { engine = (interval s.engine o).0; flows = pos k }))
                        none_asked moved;
                  numbered = i.numbered;
                  completed = decision-interval s.engine o;
                })
          | inr on ↦
              let grown = add_flows-IsGrown (pos_part asked) (decided spacing now s) i.numbered in
              rw (on_tick, on)
                (record {
                  phase = IsGrown-IsPhase (pos_part asked) (decided spacing now s) _ grown moved;
                  numbered = grown.numbered;
                  completed =
                      grown.intervals
                      ∙ decision-interval s.engine o
                      ∙ ap (λ e. e.intervals) (sym grown.engine);
                })
        ]

    hooked-IsLoading :
        (id : ℕ) (h : Hook) (s : LoadPhase F)
        → IsLoading sp max_flows s
        → IsLoading sp max_flows (record s { flows = map (flow_hooked id h) s.flows })
    hooked-IsLoading id h s i = record {
      phase =
          subst (λ k. Reach (start sp max_flows) (record { engine = s.engine; flows = pos k }))
            (sym (hooked-length id h s.flows)) i.phase;
      numbered = IsNumbered-map 0 id h s.flows i.numbered;
      completed = i.completed;
    }

    either-IsLoading :
        (b : Bool) (s t : LoadPhase F)
        → IsLoading sp max_flows s
        → IsLoading sp max_flows t
        → IsLoading sp max_flows (if b then s else t)
    either-IsLoading true s t i j = i
    either-IsLoading false s t i j = j

    count_bytes-IsLoading :
        (c : ByteCounter) (s : LoadPhase F)
        → IsLoading sp max_flows s
        → IsLoading sp max_flows (count_bytes c s)
    unfolding count_bytes
    count_bytes-IsLoading c s i = record {
      phase = i.phase;
      numbered = i.numbered;
      completed = i.completed;
    }

    handle-IsLoading :
        (e : Event) (s : LoadPhase F)
        → IsLoading sp max_flows s
        → IsLoading sp max_flows (handle spacing e s)
    unfolding handle
    handle-IsLoading (probed self x) s i = record {
      phase = i.phase;
      numbered = i.numbered;
      completed = i.completed;
    }
    handle-IsLoading (counted n) s i = count_bytes-IsLoading (add n s.bytes) s i
    handle-IsLoading (probe_counted n) s i = count_bytes-IsLoading (add_probe n s.bytes) s i
    handle-IsLoading (hooked id h) s i = hooked-IsLoading id h s i
    handle-IsLoading (ticked now) s i =
        either-IsLoading s.left s (on_tick spacing now s) i (on_tick-IsLoading now s i)
    handle-IsLoading (flow_broke err) s i = record {
      phase = i.phase;
      numbered = i.numbered;
      completed = i.completed;
    }
    handle-IsLoading (stop_called why) s i = record {
      phase = i.phase;
      numbered = i.numbered;
      completed = i.completed;
    }
    handle-IsLoading ctx_done s i = record {
      phase = i.phase;
      numbered = i.numbered;
      completed = i.completed;
    }

    pub handle_all-IsLoading :
        (es : List Event) (s : LoadPhase F)
        → IsLoading sp max_flows s
        → IsLoading sp max_flows (handle_all spacing es s)
    unfolding handle_all
    handle_all-IsLoading [] s i = i
    handle_all-IsLoading (e ∷ es) s i =
        handle_all-IsLoading es (handle spacing e s) (handle-IsLoading e s i)

    -- Whatever the probes, the flows, the ticker and the context do, and in whatever order, a load phase drives its
    -- engine as the engine's loop does: it reports the flows that are open, opens exactly those asked for, numbered in
    -- order, and counts the engine's intervals; it has at least one flow and at most the limit, for limits and
    -- increments up to 2^62.
    pub handle_all-IsPhase :
        (max_bytes at : ℤ) (es : List Event)
        → let s = handle_all spacing es (begin sp max_flows max_bytes at) in
          IsPhase sp max_flows s
          × IsNumbered 0 s.flows
          × (s.intervals ≡ s.engine.intervals)
          × (1 ≤ length s.flows)
          × (pos (length s.flows) ≤ℤ max_flows)
    handle_all-IsPhase max_bytes at es =
        let i =
          handle_all-IsLoading es (begin sp max_flows max_bytes at)
            (begin-IsLoading max_bytes at) in
        let (least, most) =
          Reach-flows sp max_flows some_flow limit_small increment_small i.phase in
        (i.phase, i.numbered, i.completed, omega arith, most)
