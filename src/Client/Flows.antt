-- ===== src/Client/Flows.antt =====
-- The load flows of a phase: `uploadBody`, `countingWriter` and `runFlow` of load.go, and `pickFlow` and
-- `proto` of run.go.
--
-- A request of a flow is the environment's: how it ends, and what the phase's context says before and after
-- it. The random source is an argument.
pub mod Upload
pub mod Body
pub mod Request
use Prim.Native.String.{String}
use netquality.Prelude.{
  All, ℕ, zero, suc, ◌+◌, ◌<◌, ◌≡◌, refl, sym, subst, ◌⊎◌, inl, inr, Bool, true, false, List, [],
  ◌∷◌, ◌++◌, Option, none, some, length, get_elem?, Member, first, later, arith, if◌then◌else◌,
  Bool-cases,
}
use netquality.Client.Bytes.{ByteCounter, add}

-- A flow, as the probes see it: whether it is ready, and its protocol once known.
pub record Flow : Type 0 where
  pub id : ℕ
  pub ready : Bool
  pub proto : Option String

unfoldable ready_flows : List Flow → List Flow
ready_flows [] = []
ready_flows (f ∷ fs) = let rest = ready_flows fs in if f.ready then f ∷ rest else rest

-- pickFlow; `draw n` is below n.
unfoldable pick_flow : (ℕ → ℕ) → List Flow → Option Flow
pick_flow draw fs = get_elem? (ready_flows fs) (draw (length (ready_flows fs)))

-- The protocol of the first flow that knows its own.
unfoldable pub proto : List Flow → String
proto [] = ""
proto (f ∷ fs) = elim f.proto [ some s ↦ s | none ↦ proto fs ]

-- A round of runFlow.
pub record Round : Type 0 where
  pub ended_before : Bool
  pub request_error : Option String
  pub ended_after : Bool

-- errFlowDone, or the request's error.
pub data FlowEnd : Type 0 where
  flow_done : FlowEnd
  failed : String → FlowEnd

-- The loop, over the rounds so far; none while it goes on.
unfoldable pub run_flow : List Round → Option FlowEnd
run_flow [] = none
run_flow (r ∷ rs) =
    let rest = run_flow rs in
    if r.ended_before
    then some flow_done
    else if r.ended_after
    then some flow_done
    else elim r.request_error [ some err ↦ some (failed err) | none ↦ rest ]

Member-get_elem? :
    {A : Type 0} (xs : List A) (i : ℕ) (x : A) → get_elem? xs i ≡ some x → Member x xs
Member-get_elem? [] i x h = ground arith
Member-get_elem? (y ∷ ys) zero x h =
    let same : y ≡ x = ground arith in subst (λ z. Member z (y ∷ ys)) same first
Member-get_elem? (y ∷ ys) (suc i) x h = later (Member-get_elem? ys i x h)

Member-cons : {A : Type 0} (x y : A) (ys : List A) → Member x (y ∷ ys) → (x ≡ y) ⊎ Member x ys
Member-cons x _ ys first = inl refl
Member-cons x y ys (later m) = inr m

ready_flows-ready :
    (fs : List Flow) (f : Flow) → Member f (ready_flows fs) → Member f fs × (f.ready ≡ true)
unfolding ready_flows
ready_flows-ready [] f m = elim m [ ]
ready_flows-ready (g ∷ fs) f m = elim (Bool-cases g.ready) [
  | inl is_ready ↦
      let kept : ready_flows (g ∷ fs) ≡ g ∷ ready_flows fs = rw (ready_flows, is_ready) in
      elim (Member-cons f g (ready_flows fs) (subst (λ xs. Member f xs) kept m)) [
        | inl same ↦ subst (λ h. Member h (g ∷ fs) × (h.ready ≡ true)) (sym same) (first, is_ready)
        | inr rest ↦ let (found, is_so) = ready_flows-ready fs f rest in (later found, is_so)
      ]
  | inr not_ready ↦
      let dropped : ready_flows (g ∷ fs) ≡ ready_flows fs = rw (ready_flows, not_ready) in
      let (found, is_so) = ready_flows-ready fs f (subst (λ xs. Member f xs) dropped m) in
      (later found, is_so)
]

-- The flow that a self probe picks is one of the phase's, and ready.
pick_flow-ready :
    (draw : ℕ → ℕ) (fs : List Flow) (f : Flow)
    → pick_flow draw fs ≡ some f
    → Member f fs × (f.ready ≡ true)
unfolding pick_flow
pick_flow-ready draw fs f h =
    ready_flows-ready fs f (Member-get_elem? (ready_flows fs) (draw (length (ready_flows fs))) f h)

-- A round after which the loop goes on, one that sees the context ended, and one whose request failed of its own.
abbrev pub IsClean : Round → Type 0
IsClean q = (q.ended_before ≡ false) × (q.ended_after ≡ false) × (q.request_error ≡ none)

abbrev pub IsOver : Round → Type 0
IsOver q = (q.ended_before ≡ true) ⊎ (q.ended_after ≡ true)

abbrev pub IsBroken : Round → String → Type 0
IsBroken q err = (q.ended_before ≡ false) × (q.ended_after ≡ false) × (q.request_error ≡ some err)

-- The end that the first round that is not clean calls for.
abbrev pub IsEnd : List Round → FlowEnd → Type 0
IsEnd rs e =
    (before : List Round) × (q : Round) × (after : List Round) × (rs ≡ before ++ q ∷ after)
    × All IsClean before
    × ((IsOver q × (e ≡ flow_done)) ⊎ ((err : String) × IsBroken q err × (e ≡ failed err)))
