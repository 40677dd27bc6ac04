-- ===== src/Linksim/Finish.antt =====
-- The simulation of internal/linksim/linksim.go ends: the clock of its rounds, and the fuel that is enough.
use netquality.Prelude.{
  ℕ, zero, suc, ◌+◌, ◌*◌, ◌^◌, ◌<◌, ◌≡◌, refl, sym, ap, subst, +ℤ_parts, ◌∙◌, Bool, true, false,
  none, some, ℤ, pos, ◌≤ℤ◌, ◌<ℤ◌, ◌+ℤ◌, ltb_ℤ, leb_ℤ, add64, wrap, length, arith, Bool-cases,
  Option-cases, inl, inr,
}
use netquality.Float.{Float}
use netquality.Engine.Params.{Params, with_defaults}
use netquality.Engine.Interval.{interval}
use netquality.Linksim.Link.{
  Link, Budget, Sim, dt, open_flows, change_capacity, transmit, probe, advance,
}
use netquality.Linksim.Loop.{
  Outcome, Reason, no_reason, begin, spent, rate, tick, finish, loop, simulate, run, observation,
}

module _ {F : Type 0} ⦃d : Float F⦄ (pow : F → F → F) (draw : ℕ → ℕ → ℕ) (link : Link F)
    (p : Params F) (max_flows : ℤ) (budget : Budget) where
  open_flows-now : (n : ℕ) (s : Sim F) → (open_flows link max_flows n s).now ≡ s.now
  unfolding open_flows
  open_flows-now zero s = refl
  open_flows-now (suc n) s = elim (Bool-cases (ltb_ℤ (pos (length s.flows)) max_flows)) [
    | inl room ↦ rw (open_flows, room) (open_flows-now n _)
    | inr full ↦ rw (open_flows, full)
  ]

  change_capacity-now : (s : Sim F) → (change_capacity link s).now ≡ s.now
  unfolding change_capacity
  change_capacity-now s = ground arith

  probe-now : (s : Sim F) → (probe draw link s).now ≡ s.now
  unfolding probe
  probe-now s = elim (Bool-cases (leb_ℤ s.next_probe s.now)) [
    | inl due ↦ rw (probe, due)
    | inr early ↦ rw (probe, early)
  ]

  advance-now : (s : Sim F) → (advance pow draw link s).now ≡ add64 s.now dt
  unfolding advance transmit
  advance-now s =
      probe-now (transmit pow link (change_capacity link s))
      ∙ ap (λ t. add64 t dt) (change_capacity-now s)

  rate-now : (s : Sim F) → (rate pow draw link p max_flows budget s).now ≡ s.now
  unfolding rate
  rate-now s = refl

  tick-now : (s : Sim F) → (tick pow draw link p max_flows budget s).0.now ≡ s.now
  unfolding tick
  tick-now s = elim (Bool-cases (leb_ℤ s.next_tick s.now)) [
    | inr early ↦ rw (tick, early)
    | inl due ↦
        elim (Bool-cases (interval s.eng (observation pow draw link p max_flows budget s)).1.stop) [
          | inl stop ↦ rw (tick, due, stop) (rate-now s)
          | inr on ↦
              rw (tick, due, on)
                (open_flows-now _ (rate pow draw link p max_flows budget s) ∙ rate-now s)
        ]
  ]

  step :
      (t : ℕ) (s : Sim F)
      → t < 2 ^ 62
      → s.now ≡ pos t
      → (advance pow draw link s).now ≡ pos (t + 10 ^ 7)
  unfolding add64 wrap ◌+ℤ◌
  step t s small now = advance-now s ∙ rw now (ground arith)

  -- Where the clock has not reached the budget.
  spent-now :
      (s : Sim F) (t : ℕ)
      → s.now ≡ pos t
      → spent pow draw link p max_flows budget s ≡ none
      → pos t <ℤ budget.duration
  unfolding spent
  spent-now s t now h = ground (arith)

  -- The outcome's clock, within a round of the budget.
  abbrev IsOnTime : ℤ → Type 0
  IsOnTime elapsed = (pos 0 <ℤ elapsed) × (elapsed ≤ℤ budget.duration +ℤ dt)

  on_time : (t : ℕ) → pos t ≤ℤ budget.duration → IsOnTime (pos (t + 10 ^ 7))
  on_time t before = ground (arith, +ℤ_parts budget.duration dt)

  ends :
      (truncated : Bool) (why : Reason) (t : ℕ) (s : Sim F)
      → s.now ≡ pos (t + 10 ^ 7)
      → pos t ≤ℤ budget.duration
      → IsOnTime (finish pow draw link p max_flows budget truncated why s).elapsed
  unfolding finish
  ends truncated why t s now before = subst IsOnTime (sym now) (on_time t before)

  -- The loop returns on this fuel, within a round of the budget.
  abbrev IsReturning : ℕ → Sim F → Type 0
  IsReturning n s =
      (out : Outcome F) × (loop pow draw link p max_flows budget n s ≡ some out)
      × IsOnTime out.elapsed

  round_returns :
      (n t : ℕ) (s : Sim F)
      → s.now ≡ pos t
      → pos t ≤ℤ budget.duration
      → budget.duration <ℤ pos (2 ^ 62)
      → (spent pow draw link p max_flows budget (advance pow draw link s) ≡ none
          → IsReturning n (tick pow draw link p max_flows budget (advance pow draw link s)).0)
      → IsReturning (suc n) s
  unfolding loop
  round_returns n t s now before small go_on =
      let s1 = advance pow draw link s in
      let later : s1.now ≡ pos (t + 10 ^ 7) = step t s (omega arith) now in
      let s2 = (tick pow draw link p max_flows budget s1).0 in
      elim (Option-cases (spent pow draw link p max_flows budget s1)) [
        | inr (why, over) ↦ (
          finish pow draw link p max_flows budget true why s1,
          rw (loop, over),
          ends true why t s1 later before,
        )
        | inl on ↦ elim (Bool-cases (tick pow draw link p max_flows budget s1).1) [
          | inl stops ↦ (
            finish pow draw link p max_flows budget false no_reason s2,
            rw (loop, on, stops),
            ends false no_reason t s2 (tick-now s1 ∙ later) before,
          )
          | inr goes ↦ rw (loop, on, goes) (go_on on)
        ]
      ]

  loop_returns :
      (n t : ℕ) (s : Sim F)
      → s.now ≡ pos t
      → pos t ≤ℤ budget.duration
      → budget.duration <ℤ pos (2 ^ 62)
      → budget.duration ≤ℤ pos (t + suc n * 10 ^ 7)
      → IsReturning (suc n) s
  loop_returns zero t s now before small enough = round_returns zero t s now before small (λ on.
      let later = step t s (omega arith) now in
      let left = spent-now (advance pow draw link s) (t + 10 ^ 7) later on in
      let none_left : ⊥ = omega arith in elim none_left [ ])
  loop_returns (suc m) t s now before small enough =
      round_returns (suc m) t s now before small (λ on.
        let later = step t s (omega arith) now in
        let left = spent-now (advance pow draw link s) (t + 10 ^ 7) later on in
        loop_returns m (t + 10 ^ 7)
          (tick pow draw link p max_flows budget (advance pow draw link s)).0
          (tick-now (advance pow draw link s) ∙ later) (omega arith) small (omega arith))

  begin-now : (begin pow draw link p max_flows budget).now ≡ pos 0
  unfolding begin
  begin-now = open_flows-now _ _

-- The simulation ends on any link: for a budget whose duration is not negative and below 2^62 nanoseconds, fuel for
-- one round per ten milliseconds of it gives an outcome, and the outcome's clock is past the start and at
-- most a round past the budget.
pub run_finishes :
    {F : Type 0} ⦃d : Float F⦄ (pow : F → F → F) (draw : ℕ → ℕ → ℕ) (fuel : ℕ) (link : Link F)
    (p : Params F) (max_flows : ℤ) (budget : Budget)
    → pos 0 ≤ℤ budget.duration
    → budget.duration <ℤ pos (2 ^ 62)
    → budget.duration ≤ℤ pos (suc fuel * 10 ^ 7)
    → (out : Outcome F) × (run pow draw (suc fuel) link p max_flows budget ≡ some out)
      × (pos 0 <ℤ out.elapsed)
      × (out.elapsed ≤ℤ budget.duration +ℤ dt)
unfolding run simulate
run_finishes pow draw fuel link p max_flows budget some_time small enough =
    let (out, returned, (started, ended)) =
      loop_returns pow draw link (with_defaults p) max_flows budget fuel 0
        (begin pow draw link (with_defaults p) max_flows budget)
        (begin-now pow draw link (with_defaults p) max_flows budget) some_time small
        (omega arith) in
    (out, returned, started, ended)
