-- ===== src/Blob.antt =====
-- internal/blobstore/blobstore.go: the loop that copies an upload into its temporary file. The
-- context, the uploader's stream and the file are an interface on a state of their own; the sizes,
-- int64 in the source, are natural numbers, and the limit an integer.
pub mod Copy
mod Tests
use drop_point.Base.{
  ℕ, zero, suc, ◌+◌, ◌*◌, Bool, true, false, List, [], ◌∷◌, ℤ, pos, ◌-ℤ◌, ltb_ℤ, pos_part, Bytes,
  length, ◌==◌, if◌then◌else◌,
}
use drop_point.Errors.{
  Error, Result, ok, err, payload_too_large, source_read, short_write, loop_unfinished,
}

-- The error of a `Read`: nil, `io.EOF`, or any other.
pub data ReadError : Type 0 where
  no_error end_of_file read_failure : ReadError

-- `contextError(ctx) != nil`, `reader.Read(buffer)` for a buffer of the given length, with the bytes
-- that it has put there, and `file.Write`, with the number of the bytes that it has written.
pub record Stream (W : Type 0) : Type 0 where
  pub is_ended : W → Bool
  pub read : ℕ → W → (Bytes × ReadError) × W
  pub write : Bytes → W → Result ℕ × W

abbrev pub buffer_bytes : ℕ
buffer_bytes = 32 * 1024

-- The last switch of the loop of `copyPayload`: `again` runs its next round.
unfoldable pub next_round :
    {W : Type 0} → ReadError → ℕ → ℕ → (ℕ → W → Result ℕ × W) → W → Result ℕ × W
next_round end_of_file n size again w = (ok size, w)
next_round read_failure n size again w = (err source_read, w)
next_round no_error zero size again w = (err source_read, w)
next_round no_error (suc n) size again w = again size w

-- The checks behind `file.Write`.
unfoldable pub after_chunk :
    {W : Type 0} → ReadError → ℕ → ℕ → (ℕ → W → Result ℕ × W) → Result ℕ × W → Result ℕ × W
unfolding next_round
after_chunk error n size again (err e, w) = (err e, w)
after_chunk error n size again (ok written, w) =
    if written == n then next_round error n (size + written) again w else (err short_write, w)

module _ {W : Type 0} (stream : Stream W) (max_bytes : ℤ) where
  -- A round of the loop, once the stream was read.
  unfoldable pub take_chunk : ℕ → (ℕ → W → Result ℕ × W) → (Bytes × ReadError) × W → Result ℕ × W
  unfolding next_round after_chunk
  take_chunk size again (([], error), w) = next_round error 0 size again w
  take_chunk size again ((b ∷ bs, error), w) =
      if ltb_ℤ (max_bytes -ℤ pos size) (pos (length (b ∷ bs)))
      then (err payload_too_large, w)
      else after_chunk error (length (b ∷ bs)) size again (stream.write (b ∷ bs) w)

  -- The loop from a size on, with fuel.
  unfoldable pub copy_from : ℕ → ℕ → W → Result ℕ × W
  unfolding take_chunk
  copy_from zero size w = (err loop_unfinished, w)
  copy_from (suc fuel) size w =
      if stream.is_ended w
      then (err source_read, w)
      else take_chunk size (copy_from fuel) (stream.read buffer_bytes w)

  -- `copyPayload`: each round but the last one copies a byte, so the limit bounds the rounds.
  unfoldable pub copy_payload : W → Result ℕ × W
  copy_payload w = copy_from (suc (pos_part max_bytes)) 0 w
