-- ===== src/Reader/Header.antt =====
-- What `ReadHeader` leaves of the reader that it is called on.
use nat_tester.Base.{
  ℕ, ◌≤◌, ◌≡◌, inl, inr, refl, sym, subst, true, [], Option, arith, Bool-cases, none, some, leb→le,
  ltb_false→le, ltb, leb,
}
use nat_tester.Hresult.{Run, succeeded}
use nat_tester.StunTypes.{TransactionId, transaction_id_length, max_message_size}
use nat_tester.Stream.{Stream, get_size, allocated_size, seek_direct, read, read_uint16, write}
use nat_tester.Word.{size_add}
use nat_tester.Stream
use nat_tester.Stream.Laws.{IsValid}
use nat_tester.Reader.{Reader, and_read, check_header, read_header}

abbrev pub buffer_size : Option Stream.Buffer → ℕ
buffer_size buffer = elim buffer [ none ↦ 0 | some b ↦ b.size ]

-- another position in the same data
pub record Moved (s t : Stream) : Type 0 where
  pub buffer : t.buffer ≡ s.buffer
  pub no_grow : t.no_grow ≡ s.no_grow
  pub inside : t.pos ≤ get_size t

pub seek_direct-Moved : (p : ℕ) (s t : Stream) → Moved s t → Moved s (seek_direct p t).1
unfolding seek_direct
seek_direct-Moved p s t m = elim (Bool-cases (leb p (get_size t))) [
  | inl h ↦ rw h record { buffer = m.buffer; no_grow = m.no_grow; inside = leb→le p (get_size t) h }
  | inr h ↦ rw h m
]

pub read-Moved : (n : ℕ) (s t : Stream) → Moved s t → Moved s (read n t).0.1
unfolding read
read-Moved n s t m = elim (Bool-cases (ltb (get_size t) (size_add n t.pos))) [
  | inl h ↦ rw h m
  | inr h ↦ rw h record {
    buffer = m.buffer;
    no_grow = m.no_grow;
    inside = ltb_false→le (get_size t) (size_add n t.pos) h;
  }
]

pub read_uint16-Moved : (s t : Stream) → Moved s t → Moved s (read_uint16 t).0.1
unfolding read_uint16
read_uint16-Moved s t m = read-Moved 2 s t m

pub and_read-Moved :
    {A : Type 0} (s : Stream) (r : Run Stream) (f : Stream → Run Stream × A) (unread : A)
    → ((t : Stream) → Moved s t → Moved s (f t).0.1)
    → Moved s r.1
    → Moved s (and_read r f unread).0.1
and_read-Moved s r f unread g m = elim (Bool-cases (succeeded r.0)) [
  | inl h ↦ rw h (g r.1 m)
  | inr h ↦ rw h m
]

-- what `ReadHeader` leaves: another position, and a bounded length if it succeeds
pub record KeptBy (r : Reader) (out : Run Reader) : Type 0 where
  pub moved : Moved r.stream out.1.stream
  pub attributes : out.1.attributes ≡ r.attributes
  pub counted : out.1.count_attributes ≡ r.count_attributes
  pub short : succeeded out.0 ≡ true → out.1.msg_length ≤ max_message_size

pub check_header-kept :
    (type size : ℕ) (id : TransactionId) (r : Reader)
    → ((check_header type size id r).1.stream ≡ r.stream)
      × ((check_header type size id r).1.attributes ≡ r.attributes)
      × ((check_header type size id r).1.count_attributes ≡ r.count_attributes)
      × (succeeded (check_header type size id r).0 ≡ true
          → (check_header type size id r).1.msg_length ≤ max_message_size)
unfolding check_header
check_header-kept type size id r = ground arith

pub check_header-KeptBy :
    (type size : ℕ) (id : TransactionId) (r : Reader) (t : Stream)
    → Moved r.stream t
    → KeptBy r (check_header type size id (record r { stream = t }))
check_header-KeptBy type size id r t m =
    let (stream, attributes, counted, short) =
      check_header-kept type size id (record r { stream = t }) in
    record {
      moved = subst (Moved r.stream) (sym stream) m;
      attributes = attributes;
      counted = counted;
      short = short;
    }

-- the stream after the three reads of `ReadHeader`
pub header_read : Reader → Run Stream
header_read r =
    (and_read (and_read (and_read (seek_direct 0 r.stream) read_uint16 0).0 read_uint16 0).0
      (read transaction_id_length) []).0

pub header_read-Moved : (r : Reader) → IsValid r.stream → Moved r.stream (header_read r).1
unfolding header_read
header_read-Moved r v =
    and_read-Moved r.stream _ (read transaction_id_length) []
      (read-Moved transaction_id_length r.stream)
      (and_read-Moved r.stream _ read_uint16 0 (read_uint16-Moved r.stream) (
        and_read-Moved r.stream _ read_uint16 0 (read_uint16-Moved r.stream) (
          seek_direct-Moved 0 r.stream r.stream
            record { buffer = refl; no_grow = refl; inside = v.pos_in })))

pub read_header-KeptBy : (r : Reader) → IsValid r.stream → KeptBy r (read_header r)
unfolding read_header header_read
read_header-KeptBy r v = elim (Bool-cases (succeeded (header_read r).0)) [
  | inl ok ↦ rw ok (check_header-KeptBy _ _ _ r (header_read r).1 (header_read-Moved r v))
  | inr failed ↦ rw failed record {
    moved = header_read-Moved r v;
    attributes = refl;
    counted = refl;
    short = λ h. ground arith;
  }
]
