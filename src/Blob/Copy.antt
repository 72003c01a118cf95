-- ===== src/Blob/Copy.antt =====
-- What `copyPayload` leaves in the file, and the end of its loop.
use drop_point.Base.{
  ℕ, zero, suc, ◌+◌, ◌<◌, ◌≡◌, ◌≢◌, refl, sym, ap, subst, ◌∙◌, true, false, [], ◌∷◌, ◌++◌, ℤ, pos,
  ◌-ℤ◌, ◌≤ℤ◌, ltb_ℤ, pos_part, Bytes, length, ◌==◌, arith, int_laws, length-append, if_elim,
  ltb_ℤ_false→le, pos_part-pos, neg_part-pos,
}
use mathlib.Core.List.{append-nil}
use drop_point.Errors.{
  Result, ok, err, payload_too_large, source_read, short_write, loop_unfinished,
}
use drop_point.Blob.{
  ReadError, no_error, end_of_file, read_failure, Stream, buffer_bytes, next_round, after_chunk,
  take_chunk, copy_from, copy_payload,
}

-- What the copy relies on: `received` is what the uploader's stream has handed out, and `content`
-- what the file holds; the stream is at its end once it says so.
pub record StreamLaws {W : Type 0} (stream : Stream W) (received content : W → Bytes)
    (AtEnd : W → Type 0) : Type 0 where
  pub received-read :
      (n : ℕ) (w : W) → received (stream.read n w).1 ≡ received w ++ (stream.read n w).0.0
  pub content-read : (n : ℕ) (w : W) → content (stream.read n w).1 ≡ content w
  pub end-read : (n : ℕ) (w : W) → (stream.read n w).0.1 ≡ end_of_file → AtEnd (stream.read n w).1
  pub received-write : (bs : Bytes) (w : W) → received (stream.write bs w).1 ≡ received w
  pub end-write : (bs : Bytes) (w : W) → AtEnd w → AtEnd (stream.write bs w).1
  pub content-write :
      (bs : Bytes) (w : W)
      → (stream.write bs w).0 ≡ ok (length bs)
      → content (stream.write bs w).1 ≡ content w ++ bs
  pub write-errors : (bs : Bytes) (w : W) → (stream.write bs w).0 ≢ err loop_unfinished

module _ {W : Type 0} {stream : Stream W} {received content : W → Bytes} {AtEnd : W → Type 0}
    (laws : StreamLaws stream received content AtEnd) (max_bytes : ℤ) where
  -- The file holds the stream so far, and its size is within the limit.
  abbrev pub InStep : ℕ → W → Type 0
  InStep size w = (content w ≡ received w) × (length (content w) ≡ size) × (pos size ≤ℤ max_bytes)

  -- A size is answered at the end of the stream, whose bytes the file holds.
  abbrev pub Copied : Result ℕ × W → Type 0
  Copied (ok size, w) = InStep size w × AtEnd w
  Copied (err e, w) = e ≢ loop_unfinished

  next_round-Copied :
      (error : ReadError) (n size : ℕ) (again : ℕ → W → Result ℕ × W) (w : W)
      → InStep size w
      → (error ≡ end_of_file → AtEnd w)
      → (0 < n → Copied (again size w))
      → Copied (next_round error n size again w)
  unfolding next_round
  next_round-Copied end_of_file n size again w i e a = (i, e refl)
  next_round-Copied read_failure n size again w i e a = λ h. cc
  next_round-Copied no_error zero size again w i e a = λ h. cc
  next_round-Copied no_error (suc n) size again w i e a = a (omega arith)

  after_chunk-Copied :
      (error : ReadError) (n size : ℕ) (again : ℕ → W → Result ℕ × W) (p : Result ℕ × W)
      → (p.0 ≡ ok n → InStep (size + n) p.1)
      → (error ≡ end_of_file → AtEnd p.1)
      → (p.0 ≢ err loop_unfinished)
      → (InStep (size + n) p.1 → 0 < n → Copied (again (size + n) p.1))
      → Copied (after_chunk error n size again p)
  unfolding after_chunk
  after_chunk-Copied error n size again (err e, w) i end f a = λ h. f (ap err h)
  after_chunk-Copied error n size again (ok written, w) i end f a =
      if_elim Copied (written == n) (next_round error n (size + written) again w)
        (err short_write, w)
        (λ whole.
          let e = equal written n whole in
          subst (λ m. Copied (next_round error n (size + m) again w)) (sym e)
            (next_round-Copied error n (size + n) again w (i (ap ok e)) end (a (i (ap ok e)))))
        (λ short. λ h. cc)
    where
      equal : (a b : ℕ) → (a == b) ≡ true → a ≡ b
      equal a b h = ground (arith, h)

  take_chunk-Copied :
      (size : ℕ) (again : ℕ → W → Result ℕ × W) (bs : Bytes) (error : ReadError) (w : W)
      → content w ++ bs ≡ received w
      → length (content w) ≡ size
      → pos size ≤ℤ max_bytes
      → (error ≡ end_of_file → AtEnd w)
      → ((n : ℕ) (v : W) → 0 < n → InStep (size + n) v → Copied (again (size + n) v))
      → Copied (take_chunk stream max_bytes size again ((bs, error), w))
  unfolding take_chunk
  take_chunk-Copied size again [] error w c l b end a =
      next_round-Copied error 0 size again w ((sym (append-nil (content w)) ∙ c), l, b) end
        (λ h. absurd (omega (arith, h)))
  take_chunk-Copied size again (x ∷ xs) error w c l b end a =
      let n = length (x ∷ xs) in
      let p = stream.write (x ∷ xs) w in
      if_elim Copied (ltb_ℤ (max_bytes -ℤ pos size) (pos n)) (err payload_too_large, w)
        (after_chunk error n size again p) (λ large. λ h. cc)
        (λ fits.
          after_chunk-Copied error n size again p
            (λ written. (
              laws.content-write (x ∷ xs) w written ∙ c ∙ sym (laws.received-write (x ∷ xs) w),
              ap length (laws.content-write (x ∷ xs) w written)
                  ∙ length-append (content w) (x ∷ xs)
                  ∙ ap (λ m. m + n) l,
              within size n fits,
            ))
            (λ e. laws.end-write (x ∷ xs) w (end e)) (laws.write-errors (x ∷ xs) w)
            (λ i positive. a n p.1 positive i))
    where
      within : (s n : ℕ) → ltb_ℤ (max_bytes -ℤ pos s) (pos n) ≡ false → pos (s + n) ≤ℤ max_bytes
      within s n h = grind (int_laws, ltb_ℤ_false→le (max_bytes -ℤ pos s) (pos n) h)

  copy_from-Copied :
      (fuel size : ℕ) (w : W)
      → InStep size w
      → pos_part max_bytes < fuel + size
      → Copied (copy_from stream max_bytes fuel size w)
  unfolding copy_from
  copy_from-Copied zero size w i f =
      absurd (omega (arith, pos_part-pos size, neg_part-pos size, i.2, f))
  copy_from-Copied (suc fuel) size w i f =
      let r = stream.read buffer_bytes w in
      if_elim Copied (stream.is_ended w) (err source_read, w)
        (take_chunk stream max_bytes size (copy_from stream max_bytes fuel) r) (λ ended. λ h. cc)
        (λ live.
          take_chunk-Copied size (copy_from stream max_bytes fuel) r.0.0 r.0.1 r.1
            (ap (λ c. c ++ r.0.0) (laws.content-read buffer_bytes w ∙ i.0)
              ∙ sym (laws.received-read buffer_bytes w))
            (ap length (laws.content-read buffer_bytes w) ∙ i.1) i.2 (laws.end-read buffer_bytes w)
            (λ n v positive j. copy_from-Copied fuel (size + n) v j (omega (arith, positive, f))))

  -- For a limit that is not negative, started when the file holds what the stream has handed out,
  -- both being empty, `copyPayload` ends: its loop does not run out of fuel, and when it answers a
  -- size, the stream is at its end, the file holds exactly the bytes of the stream, the size is
  -- their number, and it is within the limit.
  pub copy_payload-Copied :
      pos 0 ≤ℤ max_bytes
      → (w : W) → content w ≡ []
      → received w ≡ []
      → Copied (copy_payload stream max_bytes w)
  unfolding copy_payload
  copy_payload-Copied h w c r =
      copy_from-Copied (suc (pos_part max_bytes)) 0 w (c ∙ sym r, ap length c, h) (omega arith)
