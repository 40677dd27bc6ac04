-- ===== src/Server/Budget.antt =====
-- The per-client admission budget: `clientBudget` of server/server.go.
--
-- Buckets are shared by pointer between the map and the outstanding tickets, so they live in a heap
-- with addresses, and the map and the tickets hold addresses. Each method holds the mutex for its
-- whole body, so it is one step; `now` is its reading of the clock, in nanoseconds.
pub mod Tokens
pub mod Slots
pub mod Entries
pub mod Owned
pub mod Ownership
use Prim.Native.String.{String}
use text.Mathlib.Text.{◌==◌ as str_eq}
use netquality.Prelude.{
  ℕ, suc, ◌^◌, ◌-◌, ◌≡◌, Bool, true, false, not, ◌&&◌, List, [], ◌∷◌, Option, none, some, ℤ, pos,
  negsuc, ◌+ℤ◌, ◌-ℤ◌, ltb_ℤ, leb_ℤ, eqb_ℤ, leb, if◌then◌else◌, length, filter_by, update,
}
use netquality.Float.{Float, nought, seconds}

pub record Bucket (F : Type 0) : Type 0 where
  pub tokens : F
  pub last : ℤ
  pub active : ℤ

-- `heap` below `fresh` holds the buckets ever made; `seen` is the map, an entry for each key.
pub record Budget (F : Type 0) : Type 0 where
  pub max : F
  pub window : ℤ
  pub concurrency : ℤ
  pub seen : List (String × ℕ)
  pub heap : ℕ → Bucket F
  pub fresh : ℕ

pub data Refusal : Type 0 where
  budget_exhausted concurrency_exhausted : Refusal

-- What admit returns: a ticket, the bucket's address, or a reason and a time to wait.
pub data Admission : Type 0 where
  ticket : ℕ → Admission
  refused : Refusal → ℤ → Admission

unfoldable pub lookup : String → List (String × ℕ) → Option ℕ
lookup k [] = none
lookup k ((j, a) ∷ m) = if str_eq j k then some a else lookup k m

abbrev max_retry_wait : ℤ
max_retry_wait = pos (2 ^ 63 - 1)

-- time.Time.Sub: the difference, saturated at the ends of a Duration.
unfoldable pub time_sub : ℤ → ℤ → ℤ
unfolding ◌-ℤ◌
time_sub a b =
    let diff = a -ℤ b in
    if ltb_ℤ (pos (2 ^ 63 - 1)) diff
    then pos (2 ^ 63 - 1)
    else if ltb_ℤ diff (negsuc (2 ^ 63 - 1))
    then negsuc (2 ^ 63 - 1)
    else diff

module _ {F : Type 0} ⦃d : Float F⦄ where
  unfoldable pub new_client_budget : ℤ → ℤ → ℤ → Budget F
  new_client_budget max window concurrency = record {
    max = d.of_int max;
    window = window;
    concurrency = concurrency;
    seen = [];
    heap = λ _. record { tokens = nought; last = pos 0; active = pos 0 };
    fresh = 0;
  }

  unfoldable pub balance : Budget F → Bucket F → ℤ → F
  unfolding seconds time_sub
  balance b bk now =
      let elapsed = d.fmax nought (seconds (time_sub now bk.last)) in
      d.fmin b.max (d.add bk.tokens (d.div (d.mul b.max elapsed) (seconds b.window)))

  unfoldable pub refill : Budget F → Bucket F → ℤ → Bucket F
  refill b bk now = record bk { tokens = balance b bk now; last = now }

  -- The cleanup forgets a bucket that is idle and full.
  unfoldable pub forgettable : Budget F → ℤ → ℕ → Bool
  forgettable b now a = eqb_ℤ (b.heap a).active (pos 0) && d.eq (balance b (b.heap a) now) b.max

  unfoldable pub cleanup : Budget F → ℤ → Budget F
  cleanup b now = record b { seen = filter_by (λ (k, a). not (forgettable b now a)) b.seen }

  -- The cleanup runs when the map is large; it is no hard cap.
  unfoldable pub sweep : Budget F → ℤ → Budget F
  sweep b now = if leb 10_000 (length b.seen) then cleanup b now else b

  -- A new, full bucket for the key.
  unfoldable pub install : Budget F → String → ℤ → Budget F
  install b key now = record b {
    seen = (key, b.fresh) ∷ b.seen;
    heap = update b.heap b.fresh (record { tokens = b.max; last = now; active = pos 0 });
    fresh = suc b.fresh;
  }

  -- The key's bucket, and the budget that has it.
  unfoldable pub find_or_make : Budget F → String → ℤ → Budget F × ℕ
  find_or_make b key now = elim (lookup key b.seen) [
    | none ↦ (install (sweep b now) key now, (sweep b now).fresh)
    | some a ↦ (b, a)
  ]

  unfoldable pub retry_wait : Budget F → F → ℤ
  retry_wait b tokens =
      let wait = d.mul (d.div (d.neg tokens) b.max) (d.of_int b.window) in
      if d.le (d.of_int max_retry_wait) wait then max_retry_wait else d.to_int wait

  -- A write through the bucket's pointer.
  unfoldable pub put : Budget F → ℕ → Bucket F → Budget F
  put b a bk = record b { heap = update b.heap a bk }

  -- The decision over the bucket, once it is refilled.
  unfoldable pub decide : Budget F → ℕ → Bucket F → Budget F × Admission
  decide b a bk =
      if d.le bk.tokens nought
      then (put b a bk, refused budget_exhausted (retry_wait b bk.tokens))
      else if leb_ℤ b.concurrency bk.active
      then (put b a bk, refused concurrency_exhausted (pos 0))
      else (put b a (record bk { active = bk.active +ℤ pos 1 }), ticket a)

  unfoldable pub admit : Budget F → String → ℤ → Budget F × Admission
  admit b key now = let (b', a) = find_or_make b key now in decide b' a (refill b' (b'.heap a) now)

  unfoldable pub settle : Budget F → ℕ → ℤ → ℤ → Budget F
  settle b a n now =
      let bk = refill b (b.heap a) now in
      put b a (record bk { tokens = d.sub bk.tokens (d.of_int n); active = bk.active -ℤ pos 1 })
