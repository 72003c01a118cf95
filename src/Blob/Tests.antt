-- ===== src/Blob/Tests.antt =====
-- Copies of a short upload.
use drop_point.Base.{
  ◌≡◌, refl, sym, false, List, [], ◌∷◌, ◌++◌, pos, ltb_ℤ, ◌-ℤ◌, ◌≤ℤ◌, pos_part-pos, neg_part-pos,
  Bytes, length, arith,
}
use mathlib.Core.List.{append-nil}
use drop_point.Errors.{ok, err, payload_too_large}
use drop_point.Blob.{
  ReadError, no_error, end_of_file, Stream, next_round, after_chunk, take_chunk, copy_from,
  copy_payload,
}
use drop_point.Blob.Copy.{StreamLaws, Copied, copy_payload-Copied}

-- What is still to come, in chunks, and the bytes received and written.
abbrev Wire : Type 0
Wire = List Bytes × Bytes × Bytes

abbrev read_wire : Wire → (Bytes × ReadError) × Wire
read_wire ([], r, f) = (([], end_of_file), ([], r, f))
read_wire (c ∷ cs, r, f) = ((c, no_error), (cs, r ++ c, f))

abbrev stream : Stream Wire
stream = record {
  is_ended = λ w. false;
  read = λ n w. read_wire w;
  write = λ bs w. (ok (length bs), (w.0, w.1, w.2 ++ bs));
}

abbrev AtEnd : Wire → Type 0
AtEnd w = w.0 ≡ []

stream_laws : StreamLaws stream (λ w. w.1) (λ w. w.2) AtEnd
stream_laws = record {
  received-read = λ n w. received w.0 w.1 w.2;
  content-read = λ n w. content w.0 w.1 w.2;
  end-read = λ n w h. at_end w.0 w.1 w.2 h;
  received-write = λ bs w. refl;
  end-write = λ bs w h. h;
  content-write = λ bs w h. refl;
  write-errors = λ bs w h. cc;
}
  where
    received :
        (cs : List Bytes) (r f : Bytes)
        → (read_wire (cs, r, f)).1.1 ≡ r ++ (read_wire (cs, r, f)).0.0
    received [] r f = sym (append-nil r)
    received (c ∷ cs) r f = refl

    content : (cs : List Bytes) (r f : Bytes) → (read_wire (cs, r, f)).1.2 ≡ f
    content [] r f = refl
    content (c ∷ cs) r f = refl

    at_end :
        (cs : List Bytes) (r f : Bytes)
        → (read_wire (cs, r, f)).0.1 ≡ end_of_file
        → (read_wire (cs, r, f)).1.0 ≡ []
    at_end [] r f h = refl
    at_end (c ∷ cs) r f h = absurd cc

abbrev wire : Wire
wire = ((1 ∷ 2 ∷ []) ∷ (3 ∷ []) ∷ [], [], [])

whole : copy_payload stream (pos 3) wire ≡ (ok 3, ([], 1 ∷ 2 ∷ 3 ∷ [], 1 ∷ 2 ∷ 3 ∷ []))
unfolding copy_payload copy_from take_chunk after_chunk next_round ltb_ℤ ◌-ℤ◌
whole = refl

too_large : (copy_payload stream (pos 2) wire).0 ≡ err payload_too_large
unfolding copy_payload copy_from take_chunk after_chunk next_round ltb_ℤ ◌-ℤ◌
too_large = refl

limit : pos 0 ≤ℤ pos 3
limit = omega (arith, pos_part-pos 0, neg_part-pos 3, pos_part-pos 3, neg_part-pos 0)

copy_payload-Copied_example : Copied stream_laws (pos 3) (copy_payload stream (pos 3) wire)
copy_payload-Copied_example = copy_payload-Copied stream_laws (pos 3) limit wire refl refl
