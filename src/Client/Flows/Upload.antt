-- ===== src/Client/Flows/Upload.antt =====
-- The bytes that an upload sends: `uploadBody` of load.go.
--
-- Its buffer is pseudo-random filler of 256 KiB, an argument.
use netquality.Prelude.{
  ℕ, ◌+◌, ◌-◌, ◌*◌, ◌%◌, ◌<◌, ◌≡◌, refl, ap, ◌∙◌, Bool, false, List, [], ◌∷◌, ◌++◌, Option, none,
  some, pos, length, take, drop, length-append, length-take, length-drop, arith, if◌then◌else◌,
}
use Prim.Native.Nat.{min}
use netquality.Client.Bytes.{ByteCounter, add}

abbrev buffer_size : ℕ
buffer_size = 256 * 1024

pub record UploadBody : Type 0 where
  pub buf : List ℕ
  pub off : ℕ
  pub counter : ByteCounter

-- Read into `room` bytes: what it hands out, none at the end of the context.
unfoldable pub read : Bool → ℕ → UploadBody → Option (List ℕ) × UploadBody
read ended room u =
    let chunk = take room (drop u.off u.buf) in
    if ended then (none, u) else (
      some chunk,
      record u {
        off = (u.off + length chunk) % length u.buf;
        counter = add (pos (length chunk)) u.counter;
      },
    )

-- Reads of these sizes, and all that they hand out.
unfoldable read_all : List ℕ → UploadBody → List ℕ × UploadBody
read_all [] u = ([], u)
read_all (room ∷ rooms) u =
    let chunk = take room (drop u.off u.buf) in
    let (rest, after) = read_all rooms (read false room u).1 in (chunk ++ rest, after)

read-size :
    (room : ℕ) (u : UploadBody)
    → length (take room (drop u.off u.buf)) ≡ min room (length u.buf - u.off)
read-size room u =
    length-take room (drop u.off u.buf) ∙ ap (λ n. min room n) (length-drop u.off u.buf)

-- What is handed out is counted, and the offset stays within the buffer and tells how much was handed out.
read_all-offset :
    (rooms : List ℕ) (u : UploadBody) (before : ℕ)
    → length u.buf ≡ buffer_size
    → u.off ≡ before % buffer_size
    → let (bytes, after) = read_all rooms u in
      (after.buf ≡ u.buf)
      × (after.off ≡ (before + length bytes) % buffer_size)
      × (after.off < buffer_size)
unfolding read_all read
read_all-offset [] u before size at = (refl, rw at (omega arith), rw at (omega arith))
read_all-offset (room ∷ rooms) u before size at =
    let chunk = take room (drop u.off u.buf) in
    let u1 = (read false room u).1 in
    let (bytes, after) = read_all rooms u1 in
    let here : (u.off + length chunk) % length u.buf ≡ (before + length chunk) % buffer_size =
      ap (λ n. (u.off + length chunk) % n) size ∙ rw at (omega arith) in
    let (same, offset, within) = read_all-offset rooms u1 (before + length chunk) size here in
    (same, offset ∙ ap (λ n. n % buffer_size) (omega (arith, length-append chunk bytes)), within)
