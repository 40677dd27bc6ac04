-- ===== src/Client/LoadPhase/Counts.antt =====
-- What the events of a load phase of run.go add to its probes and its intervals.
use mathlib.Core.List.{append_assoc, append-nil}
use netquality.Prelude.{
  if◌then◌else◌, ℕ, zero, suc, ◌+◌, ◌≤◌, ◌≡◌, refl, sym, ap, ◌∙◌, inl, inr, Bool, true, false, List,
  [], ◌∷◌, ◌++◌, ℤ, pos, concat, length, arith, Bool-cases, pos_part,
}
use netquality.Float.{Float}
use netquality.Engine.Samples.{Sample}
use netquality.Engine.Interval.{interval}
use netquality.Engine.Frame.{interval-intervals}
use netquality.Client.Buffers.{
  collect, ticked as tick, add_sample, take, gathered, gathered-collect,
}
use netquality.Client.LoadPhase.{
  LoadPhase, Event, probed, counted, probe_counted, hooked, ticked, flow_broke, stop_called,
  ctx_done, add_flow, add_flows, count_bytes, observed, decided, on_tick, handle, handle_all,
}

-- The probe that an event finishes, if it is of the kind: self, or else foreign.
abbrev measured_in : Event → Bool → List Sample
measured_in (probed true x) true = x ∷ []
measured_in (probed true x) false = []
measured_in (probed false x) true = []
measured_in (probed false x) false = x ∷ []
measured_in (counted n) kind = []
measured_in (probe_counted n) kind = []
measured_in (hooked id h) kind = []
measured_in (ticked now) kind = []
measured_in (flow_broke err) kind = []
measured_in (stop_called why) kind = []
measured_in ctx_done kind = []

abbrev pub measured : Bool → List Event → List Sample
measured kind [] = []
measured kind (e ∷ es) = measured_in e kind ++ measured kind es

-- The probes that the engine has logged and those that wait for it.
abbrev pub held : {F : Type 0} → Bool → LoadPhase F → List Sample
held kind s = gathered kind (record { engine = s.engine; buffers = s.buffers })

pub add_flows-engine :
    {F : Type 0} (n : ℕ) (s : LoadPhase F)
    → ((add_flows n s).engine ≡ s.engine) × ((add_flows n s).buffers ≡ s.buffers)
unfolding add_flows add_flow
add_flows-engine zero s = (refl, refl)
add_flows-engine (suc n) s = add_flows-engine n (add_flow s)

pub add_flows-held :
    {F : Type 0} (kind : Bool) (n : ℕ) (s : LoadPhase F) → held kind (add_flows n s) ≡ held kind s
unfolding add_flows add_flow
add_flows-held kind zero s = refl
add_flows-held kind (suc n) s = add_flows-held kind n (add_flow s)

either-held :
    {F : Type 0} (kind b : Bool) (s t : LoadPhase F)
    → held kind t ≡ held kind s
    → held kind (if b then s else t) ≡ held kind s
either-held kind true s t same = refl
either-held kind false s t same = same

module _ {F : Type 0} ⦃d : Float F⦄ (spacing : ℤ) where
  decided-held :
      (kind : Bool) (now : ℤ) (s : LoadPhase F) → held kind (decided spacing now s) ≡ held kind s
  unfolding decided observed collect take
  decided-held true now s =
      gathered-collect true
        (tick (observed spacing now s).elapsed s.bytes.payload (pos (length s.flows)))
        (record { engine = s.engine; buffers = s.buffers })
      ∙ append-nil _
  decided-held false now s =
      gathered-collect false
        (tick (observed spacing now s).elapsed s.bytes.payload (pos (length s.flows)))
        (record { engine = s.engine; buffers = s.buffers })
      ∙ append-nil _

  on_tick-held :
      (kind : Bool) (now : ℤ) (s : LoadPhase F) → held kind (on_tick spacing now s) ≡ held kind s
  unfolding on_tick
  on_tick-held kind now s =
      let decision = (interval s.engine (observed spacing now s)).1 in
      elim (Bool-cases decision.stop) [
        | inl stops ↦ rw (on_tick, stops) (decided-held kind now s)
        | inr on ↦
            rw (on_tick, on)
              (add_flows-held kind (pos_part decision.add_flows) (decided spacing now s)
                ∙ decided-held kind now s)
      ]

  handle-held :
      (kind : Bool) (e : Event) (s : LoadPhase F)
      → held kind (handle spacing e s) ≡ held kind s ++ measured_in e kind
  unfolding handle add_sample count_bytes
  handle-held true (probed true x) s =
      sym (append_assoc (concat s.engine.self) s.buffers.cur_s (x ∷ []))
  handle-held true (probed false x) s = sym (append-nil _)
  handle-held false (probed true x) s = sym (append-nil _)
  handle-held false (probed false x) s =
      sym (append_assoc (concat s.engine.foreign) s.buffers.cur_f (x ∷ []))
  handle-held kind (counted n) s = sym (append-nil _)
  handle-held kind (probe_counted n) s = sym (append-nil _)
  handle-held kind (hooked id h) s = sym (append-nil _)
  handle-held kind (ticked now) s =
      either-held kind s.left s (on_tick spacing now s) (on_tick-held kind now s)
      ∙ sym (append-nil _)
  handle-held kind (flow_broke err) s = sym (append-nil _)
  handle-held kind (stop_called why) s = sym (append-nil _)
  handle-held kind ctx_done s = sym (append-nil _)

  pub handle_all-held :
      (kind : Bool) (es : List Event) (s : LoadPhase F)
      → held kind (handle_all spacing es s) ≡ held kind s ++ measured kind es
  unfolding handle_all
  handle_all-held kind [] s = sym (append-nil _)
  handle_all-held kind (e ∷ es) s =
      handle_all-held kind es (handle spacing e s)
      ∙ ap (λ xs. xs ++ measured kind es) (handle-held kind e s)
      ∙ append_assoc (held kind s) (measured_in e kind) (measured kind es)

  on_tick-intervals :
      (now : ℤ) (s : LoadPhase F)
      → (on_tick spacing now s).engine.intervals ≤ suc s.engine.intervals
  unfolding on_tick decided
  on_tick-intervals now s =
      let decision = (interval s.engine (observed spacing now s)).1 in
      let counted : (decided spacing now s).engine.intervals ≡ suc s.engine.intervals =
        interval-intervals s.engine (observed spacing now s) in
      elim (Bool-cases decision.stop) [
        | inl stops ↦ rw (on_tick, stops) (omega (arith, counted))
        | inr on ↦
            let (same, _) =
              add_flows-engine (pos_part decision.add_flows) (decided spacing now s) in
            rw (on_tick, on) (omega (arith, counted, ap (λ e. e.intervals) same))
      ]

  either-intervals :
      (b : Bool) (s t : LoadPhase F)
      → t.engine.intervals ≤ suc s.engine.intervals
      → (if b then s else t).engine.intervals ≤ suc s.engine.intervals
  either-intervals true s t h = omega arith
  either-intervals false s t h = h

  handle-intervals :
      (e : Event) (s : LoadPhase F) → (handle spacing e s).engine.intervals ≤ suc s.engine.intervals
  unfolding handle count_bytes
  handle-intervals (probed self x) s = omega arith
  handle-intervals (counted n) s = omega arith
  handle-intervals (probe_counted n) s = omega arith
  handle-intervals (hooked id h) s = omega arith
  handle-intervals (ticked now) s =
      either-intervals s.left s (on_tick spacing now s) (on_tick-intervals now s)
  handle-intervals (flow_broke err) s = omega arith
  handle-intervals (stop_called why) s = omega arith
  handle-intervals ctx_done s = omega arith

  pub handle_all-intervals :
      (es : List Event) (s : LoadPhase F)
      → (handle_all spacing es s).engine.intervals ≤ s.engine.intervals + length es
  unfolding handle_all
  handle_all-intervals [] s = omega arith
  handle_all-intervals (e ∷ es) s =
      omega (arith, handle_all-intervals es (handle spacing e s), handle-intervals e s)
