-- ===== src/Reader/Loop.antt =====
-- The loop of `ReadBody` on a body that is a sequence of attribute frames.
use nat_tester.Base.{
  ℕ, zero, suc, ◌+◌, ◌^◌, ◌≤◌, ◌<◌, ◌≡◌, refl, sym, ap, ap₂, ◌∙◌, subst, List, [], ◌∷◌, ◌++◌,
  append_assoc, length, length-append, length-replicate, take, slice, drop-append, take-append,
  replicate, arith, ==_refl,
}
use nat_tester.Hresult.{s_ok, succeeded}
use nat_tester.Word.{htons}
use nat_tester.StunTypes.{Attribute, max_attribute_size, header_size}
use nat_tester.Stream.{get_size}
use nat_tester.Stream.Laws.{contents, length-contents}
use nat_tester.FastHash.Chains.{All}
use nat_tester.Builder.Emit.{be16, frame}
use nat_tester.Reader.{
  Reader, padding_length, take_attribute, body_round, body_loop, read_body, max_num_attributes,
}
use nat_tester.Reader.Frames.{
  seek_to, attribute_of, be16_at, taken, take_attribute_ok, type_at, size_at, body_round_full,
}
use nat_tester.Reader.Safety.{
  Sound, seek_to-Sound, taken-Sound, body_loop_done, body_loop_more, read_body_steps,
}

-- the attributes of a message: type and value of each
abbrev pub Attributes : Type 0
Attributes = List (ℕ × List ℕ)

abbrev pub frames : Attributes → List ℕ
frames [] = []
frames (a ∷ attributes) = frame a.0 a.1 ++ frames attributes

-- a type of 16 bits and a value that is not too long
abbrev pub IsSendable : ℕ × List ℕ → Type 0
IsSendable a = (a.0 < 2 ^ 16) × (length a.1 ≤ max_attribute_size)

-- the reader after it has taken the attributes from its position on
abbrev pub parsed : Attributes → Reader → Reader
parsed [] r = r
parsed (a ∷ attributes) r =
    parsed attributes (taken a.0 (length a.1) (seek_to (r.stream.pos + 4) r))

-- what the table has for the attributes, newest first, with the values in the message
abbrev pub onto : Attributes → Attributes → Attributes
onto [] earlier = earlier
onto (a ∷ attributes) earlier = onto attributes (a ∷ earlier)

abbrev pub values_in : List ℕ → List (ℕ × Attribute) → Attributes
values_in bytes [] = []
values_in bytes (p ∷ pairs) = (p.0, slice bytes p.1.offset p.1.size) ∷ values_in bytes pairs

pub slice-append : (xs ys : List ℕ) (i n : ℕ) → i ≡ length xs → slice (xs ++ ys) i n ≡ take n ys
slice-append xs ys i n e =
    subst (λ j. slice (xs ++ ys) j n ≡ take n ys) (sym e) (ap (take n) (drop-append xs ys))

pub be16_at-append :
    (xs ys : List ℕ) (i n : ℕ) → i ≡ length xs → n < 2 ^ 16 → be16_at (xs ++ (be16 n ++ ys)) i ≡ n
unfolding htons
be16_at-append xs ys i n e small = rw (slice-append xs (be16 n ++ ys) i 2 e) (omega arith)

pub length-frame :
    (type : ℕ) (value : List ℕ)
    → length (frame type value) ≡ 4 + length value + padding_length (length value)
length-frame type value = omega (
  arith,
  length-append value (replicate (padding_length (length value)) 0),
  length-replicate {A = ℕ} (padding_length (length value)) 0,
)

length-frames : (attributes : Attributes) → length attributes ≤ length (frames attributes)
length-frames [] = omega arith
length-frames (a ∷ attributes) = omega (
  arith,
  length-frames attributes,
  length-append (frame a.0 a.1) (frames attributes),
  length-frame a.0 a.1,
)

-- A reader in `ReadBody` in front of the attributes that are left of its message.
record Before (total : ℕ) (r : Reader) (pairs : List (ℕ × Attribute)) (passed : List ℕ)
    (attributes : Attributes) : Type 0 where
  sound : Sound total r pairs
  bytes : contents r.stream ≡ passed ++ frames attributes
  at : r.stream.pos ≡ length passed
  sendable : All IsSendable attributes
  room : length pairs + length attributes ≤ max_num_attributes

total-Before :
    {total : ℕ} {r : Reader} {pairs : List (ℕ × Attribute)} {passed : List ℕ}
    {attributes : Attributes}
    → Before total r pairs passed attributes
    → total ≡ r.stream.pos + length (frames attributes)
total-Before {total} {r} {pairs} {passed} {attributes} b =
    sym b.sound.whole
    ∙ sym (length-contents b.sound.valid)
    ∙ ap (λ xs. length xs) b.bytes
    ∙ length-append passed (frames attributes)
    ∙ ap (λ n. n + length (frames attributes)) (sym b.at)

module _ {total : ℕ} {r : Reader} {pairs : List (ℕ × Attribute)} {passed : List ℕ} (type : ℕ)
    (value : List ℕ) (attributes : Attributes)
    (b : Before total r pairs passed ((type, value) ∷ attributes)) where
  type_at-frame : type_at r ≡ type
  type_at-frame = rw b.bytes (
      be16_at-append passed
        (be16 (length value)
          ++ ((value ++ replicate (padding_length (length value)) 0) ++ frames attributes))
        r.stream.pos type b.at b.sendable.0.0)

  size_at-frame : size_at r ≡ length value
  size_at-frame =
      rw
        (
          b.bytes,
          sym (
              append_assoc passed (be16 type) (
                be16 (length value)
                ++ ((value ++ replicate (padding_length (length value)) 0) ++ frames attributes))),
        )
        (be16_at-append (passed ++ be16 type)
          ((value ++ replicate (padding_length (length value)) 0) ++ frames attributes)
          (r.stream.pos + 2) (length value) (omega (arith, length-append passed (be16 type), b.at))
          (omega (arith, b.sendable.0.1)))

  round_ends :
      r.stream.pos + 4 + length value + padding_length (length value) + length (frames attributes)
      ≡ total
  round_ends = omega (
    arith,
    total-Before b,
    length-append (frame type value) (frames attributes),
    length-frame type value,
  )

  abbrev next : Reader
  next = taken type (length value) (seek_to (r.stream.pos + 4) r)

  body_round-frame : body_round r.stream.pos r ≡ ((s_ok, next), next.stream.pos)
  body_round-frame =
      let from = seek_to-Sound b.sound (r.stream.pos + 4) (omega (arith, round_ends)) in
      body_round_full r.stream.pos r b.sound.valid (omega (arith, round_ends, b.sound.whole))
      ∙ ap₂ (λ t n. take_attribute t n r.stream.pos (seek_to (r.stream.pos + 4) r)) type_at-frame
          size_at-frame
      ∙ take_attribute_ok type (length value) (seek_to (r.stream.pos + 4) r) pairs from.table
          r.stream.pos from.valid b.sendable.0.1 (omega (arith, b.room, b.sound.capacity))
          (omega (arith, round_ends, b.sound.whole)) (omega (arith, b.sound.short, b.sound.whole))
          (omega (arith, round_ends, b.sound.short))
      ∙ ap (λ n. ((s_ok, next), n)) (omega arith)

  next-Before :
      Before total next
        ((type, attribute_of type (length value) (r.stream.pos + 4)) ∷ pairs)
        (passed ++ frame type value)
        attributes
  next-Before = record {
    sound =
        taken-Sound (seek_to-Sound b.sound (r.stream.pos + 4) (omega (arith, round_ends))) type
          (length value) b.sendable.0.1 (omega (arith, b.room)) (omega (arith, round_ends));
    bytes = b.bytes ∙ sym (append_assoc passed (frame type value) (frames attributes));
    at = omega (arith, b.at, length-append passed (frame type value), length-frame type value);
    sendable = b.sendable.1;
    room = omega (arith, b.room);
  }

  value_at-frame : slice (contents r.stream) (r.stream.pos + 4) (length value) ≡ value
  value_at-frame =
      let head = be16 type ++ be16 (length value) in
      let rest = replicate (padding_length (length value)) 0 ++ frames attributes in
      let split : contents r.stream ≡ (passed ++ head) ++ (value ++ rest) =
        b.bytes
        ∙ ap (λ xs. passed ++ (head ++ xs))
            (append_assoc value (replicate (padding_length (length value)) 0) (frames attributes))
        ∙ sym (append_assoc passed head (value ++ rest)) in
      ap (λ xs. slice xs (r.stream.pos + 4) (length value)) split
      ∙ slice-append (passed ++ head) (value ++ rest) (r.stream.pos + 4) (length value)
          (omega (arith, b.at, length-append passed head))
      ∙ take-append value rest

-- The loop takes every attribute.
body_loop-frames :
    (fuel total : ℕ) (r : Reader) (pairs : List (ℕ × Attribute)) (passed : List ℕ)
    (attributes : Attributes)
    → Before total r pairs passed attributes
    → length attributes < fuel
    → body_loop fuel r.stream.pos r ≡ (parsed attributes r, total)
body_loop-frames zero total r pairs passed attributes b h = absurd (omega arith)
body_loop-frames (suc fuel) total r pairs passed [] b h =
    body_loop_done fuel r.stream.pos r (omega (arith, b.sound.whole, total-Before b))
    ∙ ap (λ n. (r, n)) (omega (arith, total-Before b))
body_loop-frames (suc fuel) total r pairs passed ((type, value) ∷ attributes) b h =
    let e = body_round-frame type value attributes b in
    body_loop_more fuel r.stream.pos r
      (omega (arith, round_ends type value attributes b, b.sound.whole))
      (ap (λ out. succeeded out.0.0) e)
    ∙ ap (λ out. body_loop fuel out.1 out.0.1) e
    ∙ body_loop-frames fuel total (next type value attributes b) _ _ attributes
        (next-Before type value attributes b) (omega arith)

-- what the table holds after the attributes have been entered behind others
abbrev pub entries : ℕ → Attributes → List (ℕ × Attribute) → List (ℕ × Attribute)
entries at [] pairs = pairs
entries at (a ∷ attributes) pairs =
    entries (at + 4 + length a.1 + padding_length (length a.1)) attributes
      ((a.0, attribute_of a.0 (length a.1) (at + 4)) ∷ pairs)

-- The reader that the loop leaves is sound, at its end, with all the attributes in its table.
parsed-Sound :
    (total : ℕ) (r : Reader) (pairs : List (ℕ × Attribute)) (passed : List ℕ)
    (attributes : Attributes)
    → Before total r pairs passed attributes
    → Sound total (parsed attributes r) (entries r.stream.pos attributes pairs)
parsed-Sound total r pairs passed [] b = b.sound
parsed-Sound total r pairs passed ((type, value) ∷ attributes) b =
    parsed-Sound total (next type value attributes b) _ _ attributes
      (next-Before type value attributes b)

-- The values lie in the message where the table says.
values_in-entries :
    (total : ℕ) (r : Reader) (pairs : List (ℕ × Attribute)) (passed : List ℕ)
    (attributes : Attributes)
    → Before total r pairs passed attributes
    → values_in (contents r.stream) (entries r.stream.pos attributes pairs)
      ≡ onto attributes (values_in (contents r.stream) pairs)
values_in-entries total r pairs passed [] b = refl
values_in-entries total r pairs passed ((type, value) ∷ attributes) b =
    values_in-entries total (next type value attributes b) _ _ attributes
      (next-Before type value attributes b)
    ∙ ap (λ v. onto attributes ((type, v) ∷ values_in (contents r.stream) pairs))
        (value_at-frame type value attributes b)

-- The loop changes no more than the position, the table, the count and the two indices.
pub record SameMessage (r t : Reader) : Type 0 where
  pub buffer : t.stream.buffer ≡ r.stream.buffer
  pub legacy : t.message_is_legacy_format ≡ r.message_is_legacy_format
  pub id : t.transaction_id ≡ r.transaction_id
  pub type : t.msg_type_normalized ≡ r.msg_type_normalized
  pub class : t.msg_class ≡ r.msg_class

parsed-SameMessage : (attributes : Attributes) (r : Reader) → SameMessage r (parsed attributes r)
parsed-SameMessage [] r = record {
  buffer = refl;
  legacy = refl;
  id = refl;
  type = refl;
  class = refl;
}
parsed-SameMessage (a ∷ attributes) r =
    let s = parsed-SameMessage attributes (taken a.0 (length a.1) (seek_to (r.stream.pos + 4) r)) in
    record { buffer = s.buffer; legacy = s.legacy; id = s.id; type = s.type; class = s.class }

-- A body of frames is accepted, all of its attributes are entered, and their values lie in the
-- message where the table says.
pub read_body-frames :
    (total : ℕ) (r : Reader) (header : List ℕ) (attributes : Attributes)
    → Sound total r []
    → contents r.stream ≡ header ++ frames attributes
    → length header ≡ header_size
    → All IsSendable attributes
    → length attributes ≤ max_num_attributes
    → let r' = parsed attributes (seek_to header_size r) in
      (read_body r ≡ (s_ok, r'))
      × Sound total r' (entries header_size attributes [])
      × (values_in (contents r.stream) (entries header_size attributes []) ≡ onto attributes [])
      × SameMessage r r'
read_body-frames total r header attributes s e l ok few =
    let start = seek_to header_size r in
    let size : total ≡ header_size + length (frames attributes) =
      sym s.whole
      ∙ sym (length-contents s.valid)
      ∙ ap (λ xs. length xs) e
      ∙ length-append header (frames attributes)
      ∙ ap (λ n. n + length (frames attributes)) l in
    let b : Before total start [] header attributes = record {
      sound = seek_to-Sound s header_size (omega arith);
      bytes = e;
      at = sym l;
      sendable = ok;
      room = omega arith;
    } in
    let loop =
      body_loop-frames (suc (get_size r.stream)) total start [] header attributes b
        (omega (arith, s.whole, length-frames attributes)) in
    let same = parsed-SameMessage attributes start in
    (
      read_body_steps r (omega (arith, s.whole)) ∙ rw (loop, s.whole, ==_refl total) refl,
      parsed-Sound total start [] header attributes b,
      values_in-entries total start [] header attributes b,
      record {
        buffer = same.buffer;
        legacy = same.legacy;
        id = same.id;
        type = same.type;
        class = same.class;
      },
    )
