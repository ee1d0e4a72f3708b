-- ===== src/Stream/Fixed.antt =====
-- A `CDataStream` with `SetNoGrow`, which is written to again and again.
use nat_tester.Base.{
  ℕ, ◌+◌, ◌^◌, ◌≤◌, ◌<◌, ◌≡◌, sym, ap, subst, ◌∙◌, Bool, true, false, List, [], ◌∷◌, ◌++◌,
  append-nil, Option, length, arith, if◌then◌else◌, leb, le→leb, lt→leb_false, dec_le,
  overlay_append,
}
use nat_tester.FastHash.Chains.{All}
use nat_tester.Stream.{Stream, get_size, allocated_size, write, write_room}
use nat_tester.Stream.Laws.{
  IsValid, contents, length-contents, write_fits, write_steps, grow_fits, write_no_grow,
}

write_room_capacity :
    (src : List ℕ) (newposition current : ℕ) (s : Stream)
    → allocated_size (write_room src newposition current s).1 ≡ allocated_size s
unfolding write_room
write_room_capacity src newposition current s = ground arith

-- the stream after calls of `Write`, whatever they return
abbrev pub after_writes : (ℕ → Option (List ℕ)) → List (List ℕ) → Stream → Stream
after_writes new_bytes [] s = s
after_writes new_bytes (src ∷ rest) s = after_writes new_bytes rest (write new_bytes src s).1

-- the bytes that fit in an array of `cap`: those of a call all together, or none of them
abbrev pub fitted : ℕ → List ℕ → List (List ℕ) → List ℕ
fitted cap bytes [] = bytes
fitted cap bytes (src ∷ rest) =
    let longer = bytes ++ src in
    fitted cap (if leb (length bytes + length src) cap then longer else bytes) rest

-- A valid stream of a fixed array, at the end of its bytes.
pub record IsFixed (cap : ℕ) (bytes : List ℕ) (s : Stream) : Type 0 where
  pub valid : IsValid s
  pub fixed : s.no_grow ≡ true
  pub at_end : s.pos ≡ get_size s
  pub capacity : allocated_size s ≡ cap
  pub holds : contents s ≡ bytes

module _ (new_bytes : ℕ → Option (List ℕ)) where
  pub write_capacity :
      (src : List ℕ) (s : Stream)
      → IsValid s
      → 0 < length src
      → s.pos + length src ≤ allocated_size s
      → allocated_size (write new_bytes src s).1 ≡ allocated_size s
  write_capacity src s v some_bytes fits =
      ap (λ r. allocated_size r.1)
        (write_steps new_bytes src s s some_bytes (omega (arith, v.small))
          (grow_fits new_bytes _ s fits))
      ∙ write_room_capacity src (s.pos + length src) (get_size s) s

  write-IsFixed :
      (cap : ℕ) (bytes src : List ℕ) (s : Stream)
      → IsFixed cap bytes s
      → length src < 2 ^ 31
      → IsFixed cap
          (if leb (length bytes + length src) cap then bytes ++ src else bytes)
          (write new_bytes src s).1
  unfolding write
  write-IsFixed cap bytes [] s f small = go (leb (length bytes + 0) cap)
    where
      go : (b : Bool) → IsFixed cap (if b then bytes ++ [] else bytes) s
      go true = subst (λ ys. IsFixed cap ys s) (sym (append-nil bytes)) f
      go false = f
  write-IsFixed cap bytes (x ∷ xs) s f small =
      let src = x ∷ xs in
      let size : length bytes ≡ get_size s =
        ap (λ ys. length ys) (sym f.holds) ∙ length-contents f.valid in
      elim (dec_le (length bytes + length src) cap) [
        | yes room ↦
            let e = le→leb (length bytes + length src) cap room in
            let fits : s.pos + length src ≤ allocated_size s =
              omega (arith, f.capacity, f.at_end, size) in
            let w = write_fits new_bytes src s f.valid (omega arith) fits in
            rw e record {
              valid = w.valid;
              fixed = w.no_grow ∙ f.fixed;
              at_end = omega (arith, w.pos, w.size, f.at_end);
              capacity = write_capacity src s f.valid (omega arith) fits ∙ f.capacity;
              holds =
                  w.holds
                  ∙ overlay_append (contents s) src s.pos
                      (omega (arith, f.at_end, length-contents f.valid))
                  ∙ ap (λ ys. ys ++ src) f.holds;
            }
        | no beyond ↦
            let e = lt→leb_false (length bytes + length src) cap (omega arith) in
            let same =
              write_no_grow new_bytes src s f.valid f.fixed
                (omega (arith, f.capacity, f.at_end, size))
                (omega (arith, f.valid.small, f.at_end, f.valid.fits)) in
            rw (e, same) f
      ]

  -- Whatever is written in whatever number of calls to a fixed stream at its end, each call with less
  -- than 2 ^ 31 bytes: the array stays the one that it is, the stream stays valid and at its end, and
  -- its bytes are those of the calls that fitted, one behind the other; of a call that did not fit
  -- nothing is written.
  pub after_writes-fitted :
      (cap : ℕ) (bytes : List ℕ) (calls : List (List ℕ)) (s : Stream)
      → IsFixed cap bytes s
      → All (λ src. length src < 2 ^ 31) calls
      → IsFixed cap (fitted cap bytes calls) (after_writes new_bytes calls s)
  after_writes-fitted cap bytes [] s f small = f
  after_writes-fitted cap bytes (src ∷ rest) s f small =
      after_writes-fitted cap (if leb (length bytes + length src) cap then bytes ++ src else bytes)
        rest (write new_bytes src s).1 (write-IsFixed cap bytes src s f small.0) small.1
