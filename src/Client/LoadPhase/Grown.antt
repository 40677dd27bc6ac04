-- ===== src/Client/LoadPhase/Grown.antt =====
-- What adding flows to a load phase, and the hooks of its flows, leave as it was.
use netquality.Prelude.{
  ℕ, zero, suc, ◌+◌, ◌≡◌, refl, ap, ◌∙◌, false, List, [], ◌∷◌, ◌++◌, none, length, length-append,
  map, arith,
}
use netquality.Client.Flows.{Flow}
use netquality.Client.Flows.Request.{Hook, tls_handshake_done, got_conn, run_hook}
use netquality.Client.LoadPhase.{LoadPhase, flow_hooked, add_flow, add_flows}

-- The flows are numbered in the order in which they were added.
abbrev pub IsNumbered : ℕ → List Flow → Type 0
IsNumbered k [] = Unit
IsNumbered k (f ∷ fs) = (f.id ≡ k) × IsNumbered (suc k) fs

IsNumbered-append :
    (k : ℕ) (fs : List Flow) (f : Flow)
    → IsNumbered k fs
    → f.id ≡ k + length fs
    → IsNumbered k (fs ++ f ∷ [])
IsNumbered-append k [] f h e = (e ∙ omega arith, tt)
IsNumbered-append k (g ∷ fs) f (i, h) e = (i, IsNumbered-append (suc k) fs f h (omega (arith, e)))

flow_hooked-id : (id : ℕ) (h : Hook) (f : Flow) → (flow_hooked id h f).id ≡ f.id
unfolding flow_hooked run_hook
flow_hooked-id id (tls_handshake_done bad s) f = ground arith
flow_hooked-id id got_conn f = ground arith

pub IsNumbered-map :
    (k id : ℕ) (h : Hook) (fs : List Flow)
    → IsNumbered k fs
    → IsNumbered k (map (flow_hooked id h) fs)
IsNumbered-map k id h [] i = tt
IsNumbered-map k id h (f ∷ fs) (i, is) =
    (flow_hooked-id id h f ∙ i, IsNumbered-map (suc k) id h fs is)

pub hooked-length :
    (id : ℕ) (h : Hook) (fs : List Flow) → length (map (flow_hooked id h) fs) ≡ length fs
hooked-length id h [] = refl
hooked-length id h (f ∷ fs) = ap suc (hooked-length id h fs)

-- What adding flows leaves, and how many there are.
pub record IsGrown {F : Type 0} (n : ℕ) (s t : LoadPhase F) : Type 0 where
  pub engine : t.engine ≡ s.engine
  pub intervals : t.intervals ≡ s.intervals
  pub count : length t.flows ≡ length s.flows + n
  pub numbered : IsNumbered 0 t.flows

add_flow-IsGrown : {F : Type 0} (s : LoadPhase F) → IsNumbered 0 s.flows → IsGrown 1 s (add_flow s)
unfolding add_flow
add_flow-IsGrown s h =
    let f : Flow = record { id = length s.flows; ready = false; proto = none } in
    record {
      engine = refl;
      intervals = refl;
      count = length-append s.flows (f ∷ []);
      numbered = IsNumbered-append 0 s.flows f h (omega arith);
    }

pub add_flows-IsGrown :
    {F : Type 0} (n : ℕ) (s : LoadPhase F) → IsNumbered 0 s.flows → IsGrown n s (add_flows n s)
unfolding add_flows
add_flows-IsGrown zero s h = record {
  engine = refl;
  intervals = refl;
  count = omega arith;
  numbered = h;
}
add_flows-IsGrown (suc n) s h =
    let one = add_flow-IsGrown s h in
    let more = add_flows-IsGrown n (add_flow s) one.numbered in
    record {
      engine = more.engine ∙ one.engine;
      intervals = more.intervals ∙ one.intervals;
      count = omega (arith, more.count, one.count);
      numbered = more.numbered;
    }
