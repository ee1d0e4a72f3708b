-- ===== src/Stream/Laws.antt =====
-- What a valid stream holds, and what reading, seeking and writing inside its buffer do to it.
use nat_tester.Base.{
  ℕ, ◌+◌, ◌≤◌, ◌<◌, ◌^◌, max, ◌≡◌, inl, inr, refl, true, List, [], ◌∷◌, Option, length, take, slice,
  overlay, arith, take-copy_into, length-copy_into, slice-overlay, slice-take, length-take,
  Option-cases,
}
use nat_tester.Hresult.{Run, succeeded, s_ok, e_fail, e_invalidarg}
use nat_tester.Word.{size_add}
use nat_tester.Stream.{
  Stream, content, get_size, allocated_size, data_pointer, read, write, write_room, grow,
  seek_direct, set_size,
}

-- The position lies in the data, the data in the array, and the array in half the address space.
pub record IsValid (s : Stream) : Type 0 where
  pub pos_in : s.pos ≤ get_size s
  pub fits : get_size s ≤ allocated_size s
  pub room : allocated_size s ≤ length (data_pointer s)
  pub small : allocated_size s < 2 ^ 31

-- The bytes that the stream holds.
abbrev pub contents : Stream → List ℕ
contents s = take (get_size s) (data_pointer s)

pub length-contents : {s : Stream} → IsValid s → length (contents s) ≡ get_size s
length-contents {s} v = omega (arith, length-take (get_size s) (data_pointer s))

-- `r` is what a successful write of `src` to `s` leaves.
pub record Wrote (s : Stream) (src : List ℕ) (r : Run Stream) : Type 0 where
  pub ok : succeeded r.0 ≡ true
  pub valid : IsValid r.1
  pub holds : contents r.1 ≡ overlay (contents s) s.pos src
  pub pos : r.1.pos ≡ s.pos + length src
  pub size : get_size r.1 ≡ max (get_size s) (s.pos + length src)
  pub capacity : allocated_size s ≤ allocated_size r.1
  pub no_grow : r.1.no_grow ≡ s.no_grow

pub write_room-Wrote :
    (s : Stream) (src : List ℕ) (newposition current : ℕ)
    → IsValid s
    → 0 < length src
    → s.pos + length src ≤ allocated_size s
    → newposition ≡ s.pos + length src
    → current ≡ get_size s
    → Wrote s src (write_room src newposition current s)
unfolding write_room set_size
write_room-Wrote s src newposition current v pos_src fits en ec = elim (Option-cases s.buffer) [
  | inl e ↦ absurd (ground arith)
  | inr (b, e) ↦ record {
    ok = ground arith;
    valid = ground (arith, length-copy_into (content b) s.pos src);
    holds = ground (arith, take-copy_into (content b) s.pos b.size (max b.size newposition) src);
    pos = ground arith;
    size = ground arith;
    capacity = ground arith;
    no_grow = ground arith;
  }
]

module _ (new_bytes : ℕ → Option (List ℕ)) where
  -- Where the allocated array is large enough, `Grow` changes nothing, the buffer object included.
  pub grow_fits :
      (size : ℕ) (s : Stream) → size ≤ allocated_size s → grow new_bytes size s ≡ (s_ok, s)
  unfolding grow
  grow_fits size s h = ground arith

  pub write_steps :
      (src : List ℕ) (s g : Stream)
      → 0 < length src
      → s.pos + length src < 2 ^ 32
      → grow new_bytes (s.pos + length src) s ≡ (s_ok, g)
      → write new_bytes src s ≡ write_room src (s.pos + length src) (get_size s) g
  unfolding write
  write_steps [] s g p q e = absurd (omega arith)
  write_steps (x ∷ xs) s g p q e =
      rw (let sum : size_add (length (x ∷ xs)) s.pos ≡ s.pos + length (x ∷ xs) = omega arith in sum)
        (rw e)

  -- A write that the array has room for succeeds, puts the bytes at the position over the old
  -- ones or behind them, moves the position behind them and keeps everything else.
  pub write_fits :
      (src : List ℕ) (s : Stream)
      → IsValid s
      → 0 < length src
      → s.pos + length src ≤ allocated_size s
      → Wrote s src (write new_bytes src s)
  write_fits src s v pos_src fits =
      rw (write_steps src s s pos_src (omega (arith, v.small)) (grow_fits _ s fits))
        (write_room-Wrote s src _ _ v pos_src fits refl refl)

  -- With `SetNoGrow(true)` a write past the array fails and changes nothing.
  pub write_no_grow :
      (src : List ℕ) (s : Stream)
      → IsValid s
      → s.no_grow ≡ true
      → allocated_size s < s.pos + length src
      → s.pos + length src < 2 ^ 32
      → write new_bytes src s ≡ (e_fail, s)
  unfolding write grow
  write_no_grow [] s v ng full small = refl
  write_no_grow (x ∷ xs) s v ng full small = ground arith

-- A read of bytes that are there returns them and moves the position behind them; any other
-- fails and changes nothing.
pub read_lem :
    (n : ℕ) (s : Stream)
    → IsValid s
    → n < 2 ^ 31
    → (s.pos + n ≤ get_size s
        → read n s ≡ ((s_ok, record s { pos = s.pos + n }), slice (contents s) s.pos n))
      × (get_size s < s.pos + n → read n s ≡ ((e_invalidarg, s), []))
unfolding read
read_lem n s v small =
    (λ h. ground (arith, slice-take (data_pointer s) s.pos n (get_size s)), λ h. ground arith)

-- Seeking to a place in the data succeeds; past its end it fails and changes nothing.
pub seek_direct_lem :
    (p : ℕ) (s : Stream)
    → (p ≤ get_size s → seek_direct p s ≡ (s_ok, record s { pos = p }))
      × (get_size s < p → seek_direct p s ≡ (e_fail, s))
unfolding seek_direct
seek_direct_lem p s = (λ h. ground arith, λ h. ground arith)

-- What a write put into a stream is read back from where it was put.
pub read-write :
    (new_bytes : ℕ → Option (List ℕ)) (src : List ℕ) (s : Stream)
    → IsValid s
    → 0 < length src
    → s.pos + length src ≤ allocated_size s
    → (read (length src) (seek_direct s.pos (write new_bytes src s).1).1).1 ≡ src
read-write new_bytes src s v pos_src fits =
    let w = write_fits new_bytes src s v pos_src fits in
    let t = (write new_bytes src s).1 in
    let back : Stream = record t { pos = s.pos } in
    let valid : IsValid back = record {
      pos_in = omega (arith, w.size, v.pos_in);
      fits = w.valid.fits;
      room = w.valid.room;
      small = w.valid.small;
    } in
    rw
      (
        (seek_direct_lem s.pos t).0 valid.pos_in,
        (read_lem (length src) back valid (omega (arith, v.small))).0 (omega (arith, w.size)),
        w.holds,
      )
      (slice-overlay (contents s) src s.pos (length src)
        (omega (arith, length-contents v, v.pos_in)) refl)
