-- ===== src/Server/Handler/Streams.antt =====
-- The two bulk handlers: the write loop of the large download, and the upload's drain.
use netquality.Prelude.{
  ℕ, zero, suc, ◌+◌, ◌-◌, ◌≤◌, ◌<◌, ◌≡◌, refl, Bool, false, Option, none, some, arith, ◌==◌,
  if◌then◌else◌, Bool-cases, inl, inr,
}
use Prim.Native.Nat.{min}

-- What one write of the response meets: whether the request's context has ended before it, how many
-- bytes went out, and whether it failed.
pub record Attempt : Type 0 where
  pub cancelled : Bool
  pub written : ℕ
  pub failed : Bool

-- streamChunk
abbrev stream_chunk : ℕ
stream_chunk = 65536

-- The loop of the large handler, over the bytes that remain: its result is `moved`. Attempt i of n
-- bytes is the environment's `write i n`; `none` is a loop that has run out of fuel.
unfoldable pub download : ℕ → (ℕ → ℕ → Attempt) → ℕ → ℕ → ℕ → Option ℕ
download zero write i remaining moved = none
download (suc fuel) write i remaining moved =
    let n = min stream_chunk remaining in
    let after = moved + (write i n).written in
    let rest = download fuel write (i + 1) (remaining - n) after in
    if remaining == 0
    then some moved
    else if (write i n).cancelled
    then some moved
    else if (write i n).failed
    then some after
    else rest

-- The upload handler counts what io.Copy moved from the limited body, whether or not it ended in an
-- error: the bytes that came before the end, up to UploadSize.
unfoldable pub upload : ℕ → ℕ → ℕ
upload upload_size arrived = min arrived upload_size

-- The contract of io.Writer: no more than it was given, and all of it unless it reports an error.
pub record IsWriter (write : ℕ → ℕ → Attempt) : Type 0 where
  pub within : (i n : ℕ) → (write i n).written ≤ n
  pub full : (i n : ℕ) → (write i n).failed ≡ false → (write i n).written ≡ n

module _ (write : ℕ → ℕ → Attempt) (contract : IsWriter write) where
  -- With writes that keep to the contract of io.Writer, fuel beyond the bytes that remain is enough:
  -- the loop returns, and it has moved at most those.
  pub download_bounds :
      (fuel i remaining moved : ℕ)
      → remaining < fuel
      → (m : ℕ) × (download fuel write i remaining moved ≡ some m)
        × (moved ≤ m)
        × (m ≤ moved + remaining)
  unfolding download
  download_bounds zero i remaining moved h = absurd (omega arith)
  download_bounds (suc fuel) i remaining moved h =
      let n = min stream_chunk remaining in
      let within = contract.within i n in
      let after = moved + (write i n).written in
      elim (Bool-cases (remaining == 0)) [
        | inl e ↦ rw e (moved, refl, omega arith, omega arith)
        | inr more ↦ elim (Bool-cases (write i n).cancelled) [
          | inl e ↦ rw (more, e) (moved, refl, omega arith, omega arith)
          | inr on ↦ elim (Bool-cases (write i n).failed) [
            | inl e ↦ rw (more, on, e) (after, refl, omega arith, omega arith)
            | inr good ↦
                rw (more, on, good)
                  (let (m, e, lo, hi) =
                      download_bounds fuel (i + 1) (remaining - n) after (ground arith) in
                    (m, e, omega arith, omega arith))
          ]
        ]
      ]

  -- With writes that keep to the contract of io.Writer, none of which is cancelled or fails, and fuel
  -- beyond the bytes that remain, a download moves exactly what was asked.
  pub download_complete :
      (fuel i remaining moved : ℕ)
      → remaining < fuel
      → ((j n : ℕ) → ((write j n).cancelled ≡ false) × ((write j n).failed ≡ false))
      → download fuel write i remaining moved ≡ some (moved + remaining)
  unfolding download
  download_complete zero i remaining moved h fine = absurd (omega arith)
  download_complete (suc fuel) i remaining moved h fine =
      let n = min stream_chunk remaining in
      ground (
        arith,
        contract.full i n,
        fine i n,
        download_complete fuel (i + 1) (remaining - n) (moved + (write i n).written),
        fine,
      )
