-- ===== src/Reader/Feed.antt =====
-- `CStunMessageReader::AddBytes`: a message that arrives in pieces.
use nat_tester.Base.{
  ℕ, ◌+◌, ◌≤◌, ◌<◌, ◌^◌, ◌≡◌, ◌≢◌, ◌⊎◌, inl, inr, refl, ◌∙◌, false, List, [], ◌∷◌, Option, length,
  arith,
}
use nat_tester.Stream.{Stream, get_size, allocated_size, seek_direct, read, read_uint16, write}
use nat_tester.Stream
use nat_tester.Stream.Laws.{IsValid, seek_direct_lem}
use nat_tester.Stream.Growth.{Supplies, write-Wrote}
use nat_tester.FastHash.{fast_hash}
use nat_tester.FastHash.Refine.{fast_hash-Represents}
use nat_tester.Reader.{
  Reader, ParseState, header_not_read, header_validated, body_validated, parse_error, new_reader,
  try_header, try_body, add_some_bytes, add_bytes, max_num_attributes, attribute_table_width,
}
use nat_tester.Reader.States.{
  InState, IsReading, Pending, try_header-Settled, try_body-Settled, reject_excess-InState,
}

-- the stream of a reader that may still get bytes
InState-stream :
    (s : ParseState) (r : Reader)
    → s ≢ parse_error
    → InState s r
    → IsValid r.stream × (r.stream.no_grow ≡ false)
InState-stream header_not_read r live o = (o.valid, o.growing)
InState-stream header_validated r live (o, _) = (o.valid, o.growing)
InState-stream body_validated r live (pairs, o) = (o.valid, o.growing)
InState-stream parse_error r live o = absurd (live refl)

-- the stream with more bytes behind it
added : Reader → Stream → Reader
added r t = record r { stream = t }

Settled-added :
    (s : ParseState) (r : Reader) (t : Stream)
    → InState s r
    → IsValid t
    → t.no_grow ≡ false
    → get_size r.stream < get_size t
    → Pending s (added r t)
unfolding added
Settled-added header_not_read r t o v ng more = record {
  valid = v;
  growing = ng;
  capacity = o.capacity;
  table = o.table;
  counted = o.counted;
}
Settled-added header_validated r t (o, short) v ng more = (
  record { valid = v; growing = ng; capacity = o.capacity; table = o.table; counted = o.counted },
  short,
)
Settled-added body_validated r t (pairs, o) v ng more = inl (omega (arith, o.announced))
Settled-added parse_error r t o v ng more = tt

at_end-IsValid : (s : Stream) → IsValid s → IsValid (record s { pos = get_size s })
at_end-IsValid s v = record { pos_in = omega arith; fits = v.fits; room = v.room; small = v.small }

add_bytes_failed :
    (new_bytes : ℕ → Option (List ℕ)) (xs : List ℕ) (r : Reader)
    → r.state ≡ parse_error
    → add_bytes new_bytes xs r ≡ (r.state, r)
unfolding add_bytes
add_bytes_failed new_bytes xs r e = ground arith

add_bytes_none :
    (new_bytes : ℕ → Option (List ℕ)) (r : Reader) → add_bytes new_bytes [] r ≡ (r.state, r)
unfolding add_bytes
add_bytes_none new_bytes r = ground arith

add_bytes_some :
    (new_bytes : ℕ → Option (List ℕ)) (x : ℕ) (xs : List ℕ) (r : Reader)
    → r.state ≢ parse_error
    → add_bytes new_bytes (x ∷ xs) r ≡ add_some_bytes new_bytes (x ∷ xs) r
unfolding add_bytes
add_bytes_some new_bytes x xs r live = ground arith

state_cases : (s : ParseState) → (s ≡ parse_error) ⊎ (s ≢ parse_error)
state_cases s = ground arith

module _ (new_bytes : ℕ → Option (List ℕ)) (supplies : Supplies new_bytes) where
  add_some_bytes-IsReading :
      (x : ℕ) (xs : List ℕ) (r : Reader)
      → r.state ≢ parse_error
      → IsReading r
      → get_size r.stream + length (x ∷ xs) ≤ 2 ^ 30
      → IsReading (add_some_bytes new_bytes (x ∷ xs) r).1
        × ((add_some_bytes new_bytes (x ∷ xs) r).0 ≡ (add_some_bytes new_bytes (x ∷ xs) r).1.state)
  unfolding add_some_bytes added
  add_some_bytes-IsReading x xs r live o room =
      let (v, ng) = InState-stream r.state r live o in
      let s = record r.stream { pos = get_size r.stream } in
      let w =
        write-Wrote new_bytes supplies (x ∷ xs) s (at_end-IsValid r.stream v) (omega arith) room
          (λ h. ng) in
      let start = added r (write new_bytes (x ∷ xs) s).1 in
      let p =
        Settled-added r.state r start.stream o w.valid (w.no_grow ∙ ng) (omega (arith, w.size)) in
      rw ((seek_direct_lem (get_size r.stream) r.stream).0 (omega arith), w.ok)
        (
          reject_excess-InState (try_body (try_header start))
              (try_body-Settled (try_header start) (try_header-Settled start p)),
          refl,
        )

  -- A reader that keeps the promise of its state still keeps it after `AddBytes`, of any bytes as
  -- long as the data stays within half the address space and memory does not run out, and the
  -- value that is returned is its state.
  pub add_bytes-IsReading :
      (xs : List ℕ) (r : Reader)
      → IsReading r
      → get_size r.stream + length xs ≤ 2 ^ 30
      → IsReading (add_bytes new_bytes xs r).1
        × ((add_bytes new_bytes xs r).0 ≡ (add_bytes new_bytes xs r).1.state)
  add_bytes-IsReading [] r o room = rw (add_bytes_none new_bytes r) (o, refl)
  add_bytes-IsReading (x ∷ xs) r o room = elim (state_cases r.state) [
    | inl e ↦ rw (add_bytes_failed new_bytes (x ∷ xs) r e) (o, refl)
    | inr live ↦
        rw (add_bytes_some new_bytes x xs r live) (add_some_bytes-IsReading x xs r live o room)
  ]

-- A new reader keeps the promise of its state.
pub new_reader-IsReading : IsReading new_reader
unfolding new_reader fast_hash Stream.reset
new_reader-IsReading = record {
  valid = record {
    pos_in = omega arith;
    fits = omega arith;
    room = omega arith;
    small = omega arith;
  };
  growing = refl;
  capacity = refl;
  table = fast_hash-Represents max_num_attributes attribute_table_width (omega arith);
  counted = refl;
}
