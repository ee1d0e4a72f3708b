-- ===== src/Reader/Frames.antt =====
-- One round of `ReadBody`: which attribute frames it accepts, and what it leaves.
use nat_tester.Base.{
  ℕ, ◌+◌, ◌%◌, ◌^◌, ◌≤◌, ◌<◌, ◌≡◌, true, false, List, some, length, slice, arith, if◌then◌else◌,
  ◌==◌, dec_le, lt→ltb, le→ltb_false,
}
use nat_tester.Hresult.{s_ok, e_fail, e_invalidarg, succeeded}
use nat_tester.Word.{htons, uint16_at, size_add}
use nat_tester.StunTypes.{
  Attribute, max_attribute_size, attribute_fingerprint, attribute_message_integrity,
}
use nat_tester.Stream.{Stream, get_size, read_uint16, seek_relative, seek_direct}
use nat_tester.Stream.Laws.{IsValid, contents, read_lem}
use nat_tester.FastHash.{insert}
use nat_tester.FastHash.Refine.{Represents, insert-Represents}
use nat_tester.Reader.{
  Reader, padding_length, take_attribute, note_attribute, skip_value, body_round,
}

abbrev pub seek_to : ℕ → Reader → Reader
seek_to pos r = record r { stream = record r.stream { pos = pos } }

-- the 16-bit number in network order at a place of the message
abbrev pub be16_at : List ℕ → ℕ → ℕ
be16_at bytes i = htons (uint16_at (slice bytes i 2))

abbrev pub attribute_of : ℕ → ℕ → ℕ → Attribute
attribute_of type size offset = record { attribute_type = type; size = size; offset = offset }

-- the reader after the attribute at its position has been entered
abbrev pub noted : ℕ → ℕ → Reader → Reader
noted type size r = record r {
  attributes = (insert type (attribute_of type size r.stream.pos) r.attributes).1;
  index_fingerprint =
      if type == attribute_fingerprint then some r.count_attributes else r.index_fingerprint;
  index_message_integrity =
      if type == attribute_message_integrity
      then some r.count_attributes
      else r.index_message_integrity;
  count_attributes = r.count_attributes + 1;
}

-- the reader after a whole attribute of which the header had been read
abbrev pub taken : ℕ → ℕ → Reader → Reader
taken type size r = seek_to (r.stream.pos + size + padding_length size) (noted type size r)

padding_length-lt : (n : ℕ) → padding_length n < 4
padding_length-lt n = ground arith

pub read_uint16_lem :
    (s : Stream)
    → IsValid s
    → (s.pos + 2 ≤ get_size s
        → read_uint16 s
          ≡ ((s_ok, record s { pos = s.pos + 2 }), uint16_at (slice (contents s) s.pos 2)))
      × (get_size s < s.pos + 2 → (read_uint16 s).0 ≡ (e_invalidarg, s))
unfolding read_uint16
read_uint16_lem s v =
    let (here, beyond) = read_lem 2 s v (omega arith) in ((λ h. rw (here h)), (λ h. rw (beyond h)))

seek_relative_lem :
    (n : ℕ) (s : Stream)
    → IsValid s
    → n < 2 ^ 16
    → (s.pos + n ≤ get_size s → seek_relative n s ≡ (s_ok, record s { pos = s.pos + n }))
      × (get_size s < s.pos + n → seek_relative n s ≡ (e_fail, s))
unfolding seek_relative seek_direct
seek_relative_lem n s v small = (λ h. ground arith, λ h. ground arith)

skip_value_lem :
    (n : ℕ) (s : Stream)
    → IsValid s
    → n < 2 ^ 16
    → (s.pos + n + padding_length n ≤ get_size s
        → skip_value n s ≡ (s_ok, record s { pos = s.pos + n + padding_length n }))
      × (get_size s < s.pos + n + padding_length n → succeeded (skip_value n s).0 ≡ false)
unfolding skip_value seek_relative seek_direct
skip_value_lem n s v small = (λ h. ground arith, λ h. ground arith)

module _ (type size : ℕ) (r : Reader) (pairs : List (ℕ × Attribute))
    (table : Represents r.attributes pairs) where
  note_attribute_room :
      length pairs < r.attributes.fsize
      → r.stream.pos < 2 ^ 16
      → note_attribute type size r ≡ (true, noted type size r)
  unfolding note_attribute
  note_attribute_room room small =
      let ok =
        ((insert-Represents r.attributes pairs type (attribute_of type size r.stream.pos) table).0
          room).0 in
      let at : r.stream.pos % 2 ^ 16 ≡ r.stream.pos = omega arith in simp (at, ok)

  note_attribute_full : r.attributes.fsize ≤ length pairs → note_attribute type size r ≡ (false, r)
  unfolding note_attribute
  note_attribute_full full = simp (
      (insert-Represents r.attributes pairs type (attribute_of type size (r.stream.pos % 2 ^ 16))
          table).1
        full)

  module _ (consumed : ℕ) (valid : IsValid r.stream) where
    pub take_attribute_long :
        max_attribute_size < size → take_attribute type size consumed r ≡ ((e_fail, r), consumed)
    unfolding take_attribute
    take_attribute_long h = rw (lt→ltb max_attribute_size size h)

    pub take_attribute_full :
        size ≤ max_attribute_size
        → r.attributes.fsize ≤ length pairs
        → take_attribute type size consumed r ≡ ((e_fail, r), consumed)
    unfolding take_attribute
    take_attribute_full h full =
        simp (note_attribute_full full, le→ltb_false max_attribute_size size h)

    pub take_attribute_short :
        size ≤ max_attribute_size
        → length pairs < r.attributes.fsize
        → r.stream.pos < 2 ^ 16
        → get_size r.stream < r.stream.pos + size + padding_length size
        → (succeeded (take_attribute type size consumed r).0.0 ≡ false)
          × ((take_attribute type size consumed r).1 ≡ consumed)
    unfolding take_attribute
    take_attribute_short h room small short =
        let e = (skip_value_lem size r.stream valid (omega arith)).1 short in
        (
          simp (note_attribute_room room small, le→ltb_false max_attribute_size size h, e),
          simp (note_attribute_room room small, le→ltb_false max_attribute_size size h, e),
        )

    pub take_attribute_ok :
        size ≤ max_attribute_size
        → length pairs < r.attributes.fsize
        → r.stream.pos + size + padding_length size ≤ get_size r.stream
        → get_size r.stream < 2 ^ 16
        → consumed < 2 ^ 16
        → take_attribute type size consumed r
          ≡ ((s_ok, taken type size r), consumed + (4 + size + padding_length size))
    unfolding take_attribute
    take_attribute_ok h room fits small few =
        let total : size_add consumed (4 + size + padding_length size)
            ≡ consumed + (4 + size + padding_length size) =
          omega (arith, padding_length-lt size) in
        simp (
          note_attribute_room room (omega arith),
          le→ltb_false max_attribute_size size h,
          (skip_value_lem size r.stream valid (omega arith)).0 fits,
          total,
        )

-- the type and the size in the attribute header at the reader's position
abbrev pub type_at : Reader → ℕ
type_at r = be16_at (contents r.stream) r.stream.pos

abbrev pub size_at : Reader → ℕ
size_at r = be16_at (contents r.stream) (r.stream.pos + 2)

module _ (consumed : ℕ) (r : Reader) (valid : IsValid r.stream) where
  pub body_round_full :
      r.stream.pos + 4 ≤ get_size r.stream
      → body_round consumed r
        ≡ take_attribute (type_at r) (size_at r) consumed (seek_to (r.stream.pos + 4) r)
  unfolding body_round
  body_round_full fits =
      let s = r.stream in
      let s₁ : Stream = record s { pos = s.pos + 2 } in
      let v₁ : IsValid s₁ = record {
        pos_in = omega arith;
        fits = valid.fits;
        room = valid.room;
        small = valid.small;
      } in
      let four : s.pos + 2 + 2 ≡ s.pos + 4 = omega arith in
      simp
        ((read_uint16_lem s valid).0 (omega arith), (read_uint16_lem s₁ v₁).0 (omega arith), four)

  pub body_round_short :
      get_size r.stream < r.stream.pos + 4
      → (succeeded (body_round consumed r).0.0 ≡ false) × ((body_round consumed r).1 ≡ consumed)
  unfolding body_round
  body_round_short short = elim (dec_le (r.stream.pos + 2) (get_size r.stream)) [
    | no p ↦ let e = (read_uint16_lem r.stream valid).1 (omega arith) in (simp e, simp e)
    | yes p ↦
        let s = r.stream in
        let s₁ : Stream = record s { pos = s.pos + 2 } in
        let v₁ : IsValid s₁ = record {
          pos_in = omega arith;
          fits = valid.fits;
          room = valid.room;
          small = valid.small;
        } in
        let e₁ = (read_uint16_lem s₁ v₁).1 (omega arith) in
        let e = (read_uint16_lem s valid).0 p in (simp (e, e₁), simp (e, e₁))
  ]
