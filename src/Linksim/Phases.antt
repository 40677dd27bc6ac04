-- ===== src/Linksim/Phases.antt =====
-- The simulation of internal/linksim/linksim.go drives the engine as a load phase does.
use netquality.Prelude.{
  ℕ, zero, suc, ◌+◌, ◌^◌, ◌<◌, ◌≡◌, refl, sym, ap, subst, ◌∙◌, inl, inr, Bool, true, false, ◌&&◌,
  List, [], ◌∷◌, ◌++◌, some, ℤ, pos, ◌≤ℤ◌, ◌<ℤ◌, ◌+ℤ◌, ltb_ℤ, leb_ℤ, pos_part, nonneg, plus_nonneg,
  length, length-append, arith, Bool-cases, Option-cases, ◌⊎◌,
}
use netquality.Float.{Float, nought}
use netquality.Engine.Params.{Params, with_defaults}
use netquality.Engine.State.{Engine, initial_flows, new}
use netquality.Engine.Decisions.{stop-stopped}
use netquality.Engine.Interval.{interval}
use netquality.Engine.Samples.{Sample}
use netquality.Engine.Summary.{summary, has_stopped}
use netquality.Engine.Phase.{Reach, here, next, start, Reach-IsCapped, Reach-flows}
use netquality.Engine.Phase.{tick as phase_tick}
use netquality.Linksim.Link.{
  Link, Budget, Sim, Flow, open_flows, change_capacity, transmit, offer, probe, advance,
}
use netquality.Linksim.Loop.{
  Outcome, Reason, no_reason, begin, spent, rate, tick, finish, loop, simulate, run, observation,
}

module _ {F : Type 0} ⦃d : Float F⦄ (pow : F → F → F) (draw : ℕ → ℕ → ℕ) (link : Link F)
    (p : Params F) (max_flows : ℤ) (budget : Budget) where
  -- What the engine sees of the simulation.
  abbrev pub seen : Sim F → Engine F × ℕ
  seen s = (s.eng, length s.flows)

  seen-open_flows :
      (n : ℕ) (s : Sim F)
      → pos (length s.flows + n) ≤ℤ max_flows
      → seen (open_flows link max_flows n s) ≡ (s.eng, length s.flows + n)
  unfolding open_flows
  seen-open_flows zero s fits = ap (λ k. (s.eng, k)) (omega arith)
  seen-open_flows (suc n) s fits =
      let flow : Flow F = record { rate = nought; started = s.now } in
      let room : ltb_ℤ (pos (length s.flows)) max_flows ≡ true = ground arith in
      let longer : length (s.flows ++ flow ∷ []) ≡ length s.flows + 1 =
        length-append s.flows (flow ∷ []) in
      let fits_rest : pos (length (s.flows ++ flow ∷ []) + n) ≤ℤ max_flows =
        omega (arith, longer) in
      rw (open_flows, room)
        (seen-open_flows n
            (record s { flows = s.flows ++ flow ∷ []; bytes = d.add s.bytes link.send_buffer })
            fits_rest
          ∙ ap (λ k. (s.eng, k)) (omega (arith, longer)))

  offer-length :
      (s : Sim F) (fair : F) (fs : List (Flow F)) (offered : F)
      → length (offer pow link s fair offered fs).0 ≡ length fs
  unfolding offer
  offer-length s fair [] offered = refl
  offer-length s fair (f ∷ fs) offered = ap suc (offer-length s fair fs _)

  seen-change_capacity : (s : Sim F) → seen (change_capacity link s) ≡ seen s
  unfolding change_capacity
  seen-change_capacity s =
      elim (Bool-cases (ltb_ℤ (pos 0) link.change_at && leb_ℤ link.change_at s.now)) [
        | inl e ↦ rw (change_capacity, e)
        | inr e ↦ rw (change_capacity, e)
      ]

  seen-probe : (s : Sim F) → seen (probe draw link s) ≡ seen s
  unfolding probe
  seen-probe s = elim (Bool-cases (leb_ℤ s.next_probe s.now)) [
    | inl e ↦ rw (probe, e)
    | inr e ↦ rw (probe, e)
  ]

  seen-transmit : (s : Sim F) → seen (transmit pow link s) ≡ seen s
  unfolding transmit
  seen-transmit s = ap (λ k. (s.eng, k)) (offer-length s _ s.flows _)

  seen-advance : (s : Sim F) → seen (advance pow draw link s) ≡ seen s
  unfolding advance
  seen-advance s = seen-probe _ ∙ seen-transmit _ ∙ seen-change_capacity s

  -- What the engine sees is a phase that a run of the loop reaches.
  abbrev pub IsPhase : Engine F × ℕ → Type 0
  IsPhase (eng, flows) = Reach (start p max_flows) (record { engine = eng; flows = pos flows })

  module _ (some_flow : pos 0 <ℤ max_flows) (limit_small : max_flows ≤ℤ pos (2 ^ 62))
      (increment_small : (with_defaults p).flow_increment <ℤ pos (2 ^ 62)) where
    begin-IsPhase : IsPhase (seen (begin pow draw link p max_flows budget))
    unfolding begin start
    begin-IsPhase =
        let initial = initial_flows (with_defaults p) max_flows in
        let (least, most) = Reach-flows p max_flows some_flow limit_small increment_small here in
        let count : initial ≡ pos (0 + pos_part initial) =
          nonneg initial (omega arith) ∙ ap pos (omega arith) in
        let fits : pos (0 + pos_part initial) ≤ℤ max_flows =
          subst (λ k. k ≤ℤ max_flows) count most in
        subst IsPhase (sym (seen-open_flows (pos_part initial) _ fits)) (
          subst (λ k. Reach (start p max_flows) (record { engine = new p max_flows; flows = k }))
            count here)

    tick-IsPhase :
        (s : Sim F) → IsPhase (seen s) → IsPhase (seen (tick pow draw link p max_flows budget s).0)
    unfolding tick observation phase_tick rate
    tick-IsPhase s reached = elim (Bool-cases (leb_ℤ s.next_tick s.now)) [
      | inr early ↦ rw (tick, early) reached
      | inl due ↦
          let o = observation pow draw link p max_flows budget s in
          let ticked = next reached o refl in
          let (no_removal, within) =
            Reach-IsCapped p max_flows o some_flow limit_small increment_small reached refl in
          let asked = (interval s.eng o).1.add_flows in
          let after : pos (length s.flows) +ℤ asked ≡ pos (length s.flows + pos_part asked) =
            plus_nonneg (length s.flows) asked no_removal in
          let moved =
            subst
              (λ k. Reach (start p max_flows) (record { engine = (interval s.eng o).0; flows = k }))
              after ticked in
          elim (Bool-cases (interval s.eng o).1.stop) [
            | inl stop ↦
                rw (tick, due, stop)
                  (let none_asked : length s.flows + pos_part asked ≡ length s.flows =
                      ground (arith, stop-stopped s.eng o) in
                    subst (λ k. IsPhase ((interval s.eng o).0, k)) none_asked moved)
            | inr on ↦
                rw (tick, due, on)
                  (subst IsPhase
                    (sym (
                      seen-open_flows (pos_part asked) (rate pow draw link p max_flows budget s)
                        (subst (λ k. k ≤ℤ max_flows) after within)))
                    moved)
          ]
    ]

    -- An outcome is a phase's that a run of the loop reaches.
    abbrev IsPhaseEnd : Outcome F → Type 0
    IsPhaseEnd out =
        (eng : Engine F) × (foreign : List Sample) × (self : List Sample) × IsPhase (eng, out.flows)
        × (out.summary ≡ summary eng foreign self)
        × ((out.truncated ≡ false) ⊎ (eng.stopped ≡ false))

    finish-IsPhaseEnd :
        (truncated : Bool) (why : Reason) (s : Sim F)
        → IsPhase (seen s)
        → IsPhaseEnd (finish pow draw link p max_flows budget truncated why s)
    unfolding finish has_stopped
    finish-IsPhaseEnd truncated why s reached =
        (s.eng, s.cur_f, s.cur_s, reached, refl, ground arith)

    loop-IsPhaseEnd :
        (n : ℕ) (s : Sim F) (out : Outcome F)
        → IsPhase (seen s)
        → loop pow draw link p max_flows budget n s ≡ some out
        → IsPhaseEnd out
    unfolding loop
    loop-IsPhaseEnd zero s out reached h = ground arith
    loop-IsPhaseEnd (suc n) s out reached h =
        let s1 = advance pow draw link s in
        let reached1 : IsPhase (seen s1) = subst IsPhase (sym (seen-advance s)) reached in
        let reached2 = tick-IsPhase s1 reached1 in
        elim (Option-cases (spent pow draw link p max_flows budget s1)) [
          | inr (why, over) ↦
              let same : finish pow draw link p max_flows budget true why s1 ≡ out = ground arith in
              subst IsPhaseEnd same (finish-IsPhaseEnd true why s1 reached1)
          | inl on ↦ elim (Bool-cases (tick pow draw link p max_flows budget s1).1) [
            | inl stops ↦
                let same : finish pow draw link p max_flows budget false no_reason
                      (tick pow draw link p max_flows budget s1).0
                    ≡ out =
                  ground arith in
                subst IsPhaseEnd same (
                  finish-IsPhaseEnd false no_reason (tick pow draw link p max_flows budget s1).0
                    reached2)
            | inr goes ↦
                let rest : loop pow draw link p max_flows budget n
                      (tick pow draw link p max_flows budget s1).0
                    ≡ some out =
                  ground arith in
                loop-IsPhaseEnd n (tick pow draw link p max_flows budget s1).0 out reached2 rest
          ]
        ]

increment_again :
    {F : Type 0} ⦃d : Float F⦄ (p : Params F)
    → (with_defaults (with_defaults p)).flow_increment ≡ (with_defaults p).flow_increment
unfolding with_defaults
increment_again p = ground arith

-- The simulation drives the engine as a load phase does, for limits and increments up to 2^62: its outcome
-- is the summary of an engine that a run of the phase loop reaches, with as many flows open, which are at
-- least one and at most the limit; and an outcome is flagged truncated only if the engine has not stopped.
pub run-IsPhaseEnd :
    {F : Type 0} ⦃d : Float F⦄ (pow : F → F → F) (draw : ℕ → ℕ → ℕ) (fuel : ℕ) (link : Link F)
    (p : Params F) (max_flows : ℤ) (budget : Budget) (out : Outcome F)
    → pos 0 <ℤ max_flows
    → max_flows ≤ℤ pos (2 ^ 62)
    → (with_defaults p).flow_increment <ℤ pos (2 ^ 62)
    → run pow draw fuel link p max_flows budget ≡ some out
    → (eng : Engine F) × (foreign : List Sample) × (self : List Sample) × Reach
        (start (with_defaults p) max_flows)
        (record { engine = eng; flows = pos out.flows })
      × (out.summary ≡ summary eng foreign self)
      × (0 < out.flows)
      × (pos out.flows ≤ℤ max_flows)
      × ((out.truncated ≡ false) ⊎ (eng.stopped ≡ false))
unfolding run simulate
run-IsPhaseEnd pow draw fuel link p max_flows budget out some_flow limit_small increment_small
      returned =
    let small : (with_defaults (with_defaults p)).flow_increment <ℤ pos (2 ^ 62) =
      rw (increment_again p) increment_small in
    let first =
      begin-IsPhase pow draw link (with_defaults p) max_flows budget some_flow limit_small small in
    let (eng, foreign, self, reached, summed, uncut) =
      loop-IsPhaseEnd pow draw link (with_defaults p) max_flows budget some_flow limit_small small
        fuel (begin pow draw link (with_defaults p) max_flows budget) out first returned in
    let (least, most) =
      Reach-flows (with_defaults p) max_flows some_flow limit_small small reached in
    (eng, foreign, self, reached, summed, omega arith, most, uncut)
