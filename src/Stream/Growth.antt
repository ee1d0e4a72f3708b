-- ===== src/Stream/Growth.antt =====
-- `CDataStream::Grow`: writes past the end of the array.
use nat_tester.Base.{
  ℕ, ◌+◌, ◌≤◌, ◌<◌, ◌^◌, ◌≡◌, refl, false, List, Option, some, length, take, overlay, copy_into,
  arith, length-copy_into, length-set, set, dec_lt, take-copy_into_start, sym, ◌∙◌, ap, ap₂,
}
use nat_tester.Hresult.{Run, s_ok}
use nat_tester.Word.{size_add}
use nat_tester.Stream.{
  Stream, get_size, allocated_size, data_pointer, write, grow, init_with_allocation, set_size,
  is_valid, grown_size,
}
use nat_tester.Stream.Laws.{
  IsValid, contents, length-contents, Wrote, write_room-Wrote, grow_fits, write_steps,
}

-- `new` gives an array of the length asked for: memory does not run out.
abbrev pub Supplies : (ℕ → Option (List ℕ)) → Type 0
Supplies new_bytes = (n : ℕ) → (xs : List ℕ) × (new_bytes n ≡ some xs) × (length xs ≡ n)

-- What a successful `Grow` leaves: the same bytes in an array that is large enough.
pub record Grew (s : Stream) (asked : ℕ) (r : Run Stream) : Type 0 where
  pub ok : r.0 ≡ s_ok
  pub valid : IsValid r.1
  pub holds : contents r.1 ≡ contents s
  pub pos : r.1.pos ≡ s.pos
  pub size : get_size r.1 ≡ get_size s
  pub enough : asked ≤ allocated_size r.1
  pub capacity : allocated_size s ≤ allocated_size r.1
  pub no_grow : r.1.no_grow ≡ s.no_grow

-- the stream after `Grow` has copied the data to the new array `xs` of `n` bytes and two more
abbrev moved : Stream → ℕ → List ℕ → Stream
moved s n xs =
    let fresh = set (set xs n 0) (n + 1) 0 in
    let copied = copy_into fresh 0 (take (get_size s) (data_pointer s)) in
    record s { buffer = some (record { bytes = some copied; size = get_size s; allocated = n }) }

moved-Grew :
    (s : Stream) (asked n : ℕ) (xs : List ℕ)
    → IsValid s
    → allocated_size s ≤ n
    → asked ≤ n
    → n < 2 ^ 31
    → length xs ≡ n + 2
    → Grew s asked (s_ok, moved s n xs)
moved-Grew s asked n xs v wide enough small l =
    let kept = take (get_size s) (data_pointer s) in
    let fresh = set (set xs n 0) (n + 1) 0 in
    let ks : length kept ≡ get_size s = length-contents v in
    let ls : length fresh ≡ n + 2 = length-set (set xs n 0) (n + 1) 0 ∙ length-set xs n 0 ∙ l in
    record {
      ok = refl;
      valid = record {
        pos_in = v.pos_in;
        fits = omega (arith, v.fits);
        room = omega (arith, length-copy_into fresh 0 kept);
        small = small;
      };
      holds = take-copy_into_start fresh (get_size s) kept (omega (arith, v.fits)) (sym ks);
      pos = refl;
      size = refl;
      enough = enough;
      capacity = wide;
      no_grow = refl;
    }

grow_moves :
    (new_bytes : ℕ → Option (List ℕ)) (asked : ℕ) (s : Stream) (xs : List ℕ)
    → allocated_size s < asked
    → s.no_grow ≡ false
    → new_bytes (size_add (grown_size new_bytes s asked) 2) ≡ some xs
    → grow new_bytes asked s ≡ (s_ok, moved s (grown_size new_bytes s asked) xs)
unfolding grow init_with_allocation set_size is_valid
grow_moves new_bytes asked s xs larger ng e = ground arith

module _ (new_bytes : ℕ → Option (List ℕ)) (supplies : Supplies new_bytes) where
  -- A `Grow` within half the address space succeeds, keeps the data and makes the room asked for.
  pub grow-Grew :
      (asked : ℕ) (s : Stream)
      → IsValid s
      → asked ≤ 2 ^ 30
      → (allocated_size s < asked → s.no_grow ≡ false)
      → Grew s asked (grow new_bytes asked s)
  grow-Grew asked s v small ng = elim (dec_lt (allocated_size s) asked) [
    | no p ↦ rw (grow_fits new_bytes asked s (omega arith)) record {
      ok = refl;
      valid = v;
      holds = refl;
      pos = refl;
      size = refl;
      enough = omega arith;
      capacity = omega arith;
      no_grow = refl;
    }
    | yes p ↦
        let n = grown_size new_bytes s asked in
        let (xs, e, l) = supplies (size_add n 2) in
        let low : asked ≤ n = ground arith in
        let high : n < 2 ^ 31 = ground arith in
        rw (grow_moves new_bytes asked s xs p (ng p) e)
          (moved-Grew s asked n xs v (omega arith) low high (omega arith))
  ]

  -- With memory at hand a write within half the address space does all that a write into the
  -- array does, wherever the array ends.
  pub write-Wrote :
      (src : List ℕ) (s : Stream)
      → IsValid s
      → 0 < length src
      → s.pos + length src ≤ 2 ^ 30
      → (allocated_size s < s.pos + length src → s.no_grow ≡ false)
      → Wrote s src (write new_bytes src s)
  write-Wrote src s v pos_src small ng =
      let g = grow-Grew (s.pos + length src) s v small ng in
      let t = (grow new_bytes (s.pos + length src) s).1 in
      let w =
        write_room-Wrote t src (s.pos + length src) (get_size s) g.valid pos_src
          (omega (arith, g.pos, g.enough)) (omega (arith, g.pos)) (sym g.size) in
      rw (write_steps new_bytes src s t pos_src (omega arith) (ap (λ h. (h, t)) g.ok)) record {
        ok = w.ok;
        valid = w.valid;
        holds = w.holds ∙ ap₂ (λ xs i. overlay xs i src) g.holds g.pos;
        pos = omega (arith, w.pos, g.pos);
        size = omega (arith, w.size, g.size, g.pos);
        capacity = omega (arith, w.capacity, g.capacity);
        no_grow = w.no_grow ∙ g.no_grow;
      }
