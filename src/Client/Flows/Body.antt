-- ===== src/Client/Flows/Body.antt =====
-- The end of an upload's response: the callback of context.AfterFunc and the deferred function of oneRequest in
-- load.go, which both may close the body.
--
-- The Once of AfterFunc decides between its goroutine and stop; each step is atomic. The end of the copy, whatever
-- ends it, is a step.
use netquality.Prelude.{
  ℕ, suc, ◌+◌, ◌≤◌, ◌≡◌, ◌≢◌, refl, ◌⊎◌, inl, inr, Bool, true, false, Option, none, some, arith,
}

pub data Main : Type 0 where
  copying : Main
  -- In the deferred function, before stop.
  deferred : Main
  -- stop has prevented the callback.
  closing : Main
  -- At <-closed.
  waiting : Main
  returned : Main

pub data Callback : Type 0 where
  registered : Callback
  started : Callback
  has_closed : Callback
  -- close(closed)
  signalled : Callback
  prevented : Callback

pub record System : Type 0 where
  pub ctx_done : Bool
  pub main : Main
  pub callback : Callback
  -- The calls of Close on the body.
  pub closes : ℕ

abbrev answered : System
answered = record { ctx_done = false; main = copying; callback = registered; closes = 0 }

pub data Step (s : System) : System → Type 0 where
  ctx_ends : s.ctx_done ≡ false → Step s (record s { ctx_done = true })
  copy_ends : s.main ≡ copying → Step s (record s { main = deferred })
  starts : s.ctx_done ≡ true → s.callback ≡ registered → Step s (record s { callback = started })
  closes_first :
      s.callback ≡ started → Step s (record s { callback = has_closed; closes = suc s.closes })
  signals : s.callback ≡ has_closed → Step s (record s { callback = signalled })
  stops :
      s.main ≡ deferred
      → s.callback ≡ registered
      → Step s (record s { main = closing; callback = prevented })
  is_late : s.main ≡ deferred → s.callback ≢ registered → Step s (record s { main = waiting })
  closes_last : s.main ≡ closing → Step s (record s { main = returned; closes = suc s.closes })
  joins : s.main ≡ waiting → s.callback ≡ signalled → Step s (record s { main = returned })

-- The states that so many steps lead to.
pub data Reach : ℕ → System → Type 0 where
  here : Reach 0 answered
  next : {n : ℕ} {s t : System} → Reach n s → Step s t → Reach (suc n) t

-- How often the body is closed by then; none for what cannot be.
abbrev expected : Main → Callback → Option ℕ
expected copying registered = some 0
expected copying started = some 0
expected copying has_closed = some 1
expected copying signalled = some 1
expected copying prevented = none
expected deferred registered = some 0
expected deferred started = some 0
expected deferred has_closed = some 1
expected deferred signalled = some 1
expected deferred prevented = none
expected closing registered = none
expected closing started = none
expected closing has_closed = none
expected closing signalled = none
expected closing prevented = some 0
expected waiting registered = none
expected waiting started = some 0
expected waiting has_closed = some 1
expected waiting signalled = some 1
expected waiting prevented = none
expected returned registered = none
expected returned started = none
expected returned has_closed = none
expected returned signalled = some 1
expected returned prevented = some 1

abbrev main_rank : Main → ℕ
main_rank copying = 3
main_rank deferred = 2
main_rank closing = 1
main_rank waiting = 1
main_rank returned = 0

abbrev callback_rank : Callback → ℕ
callback_rank registered = 3
callback_rank started = 2
callback_rank has_closed = 1
callback_rank signalled = 0
callback_rank prevented = 0

abbrev ctx_rank : Bool → ℕ
ctx_rank true = 0
ctx_rank false = 1

record IsGoing (n : ℕ) (s : System) : Type 0 where
  counted : expected s.main s.callback ≡ some s.closes
  left : n + (ctx_rank s.ctx_done + main_rank s.main + callback_rank s.callback) ≤ 7

Step-IsGoing : {n : ℕ} {s t : System} → IsGoing n s → Step s t → IsGoing (suc n) t
Step-IsGoing i (ctx_ends a) = ground arith
Step-IsGoing i (copy_ends a) = ground arith
Step-IsGoing i (starts a b) = ground arith
Step-IsGoing i (closes_first a) = ground arith
Step-IsGoing i (signals a) = ground arith
Step-IsGoing i (stops a b) = ground arith
Step-IsGoing i (is_late a b) = ground arith
Step-IsGoing i (closes_last a) = ground arith
Step-IsGoing i (joins a b) = ground arith

Reach-IsGoing : {n : ℕ} {s : System} → Reach n s → IsGoing n s
Reach-IsGoing here = record { counted = refl; left = omega arith }
Reach-IsGoing (next r step) = Step-IsGoing (Reach-IsGoing r) step

-- The request has returned, with the body closed and no callback left; or a goroutine of it can go on.
abbrev pub IsEnding : System → Type 0
IsEnding s =
    ((s.main ≡ returned) × (s.closes ≡ 1) × ((s.callback ≡ signalled) ⊎ (s.callback ≡ prevented)))
    ⊎ ((s.closes ≤ 1) × ((t : System) × Step s t))

ending :
    (main : Main) (callback : Callback) (s : System)
    → s.main ≡ main
    → s.callback ≡ callback
    → expected main callback ≡ some s.closes
    → IsEnding s
ending copying registered s m c e = inr (ground arith, (record s { main = deferred }, copy_ends m))
ending copying started s m c e = inr (ground arith, (record s { main = deferred }, copy_ends m))
ending copying has_closed s m c e = inr (ground arith, (record s { main = deferred }, copy_ends m))
ending copying signalled s m c e = inr (ground arith, (record s { main = deferred }, copy_ends m))
ending copying prevented s m c e = absurd (ground arith)
ending deferred registered s m c e =
    inr (ground arith, (record s { main = closing; callback = prevented }, stops m c))
ending deferred started s m c e =
    inr (ground arith, (record s { main = waiting }, is_late m (λ h. ground arith)))
ending deferred has_closed s m c e =
    inr (ground arith, (record s { main = waiting }, is_late m (λ h. ground arith)))
ending deferred signalled s m c e =
    inr (ground arith, (record s { main = waiting }, is_late m (λ h. ground arith)))
ending deferred prevented s m c e = absurd (ground arith)
ending closing registered s m c e = absurd (ground arith)
ending closing started s m c e = absurd (ground arith)
ending closing has_closed s m c e = absurd (ground arith)
ending closing signalled s m c e = absurd (ground arith)
ending closing prevented s m c e =
    inr (ground arith, (record s { main = returned; closes = suc s.closes }, closes_last m))
ending waiting registered s m c e = absurd (ground arith)
ending waiting started s m c e =
    inr (ground arith, (record s { callback = has_closed; closes = suc s.closes }, closes_first c))
ending waiting has_closed s m c e =
    inr (ground arith, (record s { callback = signalled }, signals c))
ending waiting signalled s m c e = inr (ground arith, (record s { main = returned }, joins m c))
ending waiting prevented s m c e = absurd (ground arith)
ending returned registered s m c e = absurd (ground arith)
ending returned started s m c e = absurd (ground arith)
ending returned has_closed s m c e = absurd (ground arith)
ending returned signalled s m c e = inl (m, ground arith, inl c)
ending returned prevented s m c e = inl (m, ground arith, inr c)

-- However the end of the context, the callback and the end of the copy interleave, at most seven steps are taken,
-- the body is closed at most once, and where no goroutine can go on the request has returned, having closed the
-- body exactly once, with no callback left.
pub Reach-IsEnding : {n : ℕ} {s : System} → Reach n s → (n ≤ 7) × IsEnding s
Reach-IsEnding {n} {s} r =
    let i = Reach-IsGoing r in
    (omega (arith, i.left), ending s.main s.callback s refl refl i.counted)
