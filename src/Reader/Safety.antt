-- ===== src/Reader/Safety.antt =====
-- The loop of `ReadBody` and the attributes that it enters in the table.
use nat_tester.Base.{
  ℕ, zero, suc, ◌+◌, ◌^◌, ◌≤◌, ◌<◌, ◌≡◌, ◌⊎◌, inl, inr, refl, ◌∙◌, true, false, List, [], ◌∷◌,
  length, arith, if◌then◌else◌, ◌==◌, dec_lt, dec_le, lt→ltb, le→ltb_false,
}
use nat_tester.Hresult.{Run, s_ok, e_fail, succeeded}
use nat_tester.StunTypes.{Attribute, max_attribute_size, header_size}
use nat_tester.Stream.{get_size}
use nat_tester.Stream.Laws.{IsValid, seek_direct_lem}
use nat_tester.FastHash.Chains.{All}
use nat_tester.FastHash.Laws.{fsize-insert}
use nat_tester.FastHash.Refine.{Represents, insert-Represents, size-Represents}
use nat_tester.Reader.{
  Reader, padding_length, take_attribute, body_round, body_loop, read_body, max_num_attributes,
}
use nat_tester.Reader.Frames.{
  seek_to, attribute_of, taken, take_attribute_long, take_attribute_full, take_attribute_short,
  take_attribute_ok, type_at, size_at, body_round_full, body_round_short,
}

-- an entry of the table for an attribute that lies in a message of `total` bytes
abbrev pub InBounds : ℕ → ℕ × Attribute → Type 0
InBounds total p =
    (p.1.attribute_type ≡ p.0) × (p.1.offset + p.1.size ≤ total) × (p.1.size ≤ max_attribute_size)

-- A reader in the middle of `ReadBody`: its table holds `pairs`, newest first.
pub record Sound (total : ℕ) (r : Reader) (pairs : List (ℕ × Attribute)) : Type 0 where
  pub valid : IsValid r.stream
  pub growing : r.stream.no_grow ≡ false
  pub whole : get_size r.stream ≡ total
  pub announced : r.msg_length + header_size ≡ total
  pub short : total < 2 ^ 16
  pub capacity : r.attributes.fsize ≡ max_num_attributes
  pub table : Represents r.attributes pairs
  pub bounds : All (InBounds total) pairs
  pub counted : r.count_attributes ≡ length pairs

module _ {total : ℕ} {r : Reader} {pairs : List (ℕ × Attribute)} (s : Sound total r pairs) where
  pub seek_to-Sound : (pos : ℕ) → pos ≤ total → Sound total (seek_to pos r) pairs
  seek_to-Sound pos h = record {
    valid = record {
      pos_in = omega (arith, s.whole);
      fits = s.valid.fits;
      room = s.valid.room;
      small = s.valid.small;
    };
    growing = s.growing;
    whole = s.whole;
    announced = s.announced;
    short = s.short;
    capacity = s.capacity;
    table = s.table;
    bounds = s.bounds;
    counted = s.counted;
  }

  pub taken-Sound :
      (type size : ℕ)
      → size ≤ max_attribute_size
      → length pairs < max_num_attributes
      → r.stream.pos + size + padding_length size ≤ total
      → Sound total (taken type size r) ((type, attribute_of type size r.stream.pos) ∷ pairs)
  taken-Sound type size h room fits =
      let attrib = attribute_of type size r.stream.pos in
      record {
        valid = record {
          pos_in = omega (arith, s.whole);
          fits = s.valid.fits;
          room = s.valid.room;
          small = s.valid.small;
        };
        growing = s.growing;
        whole = s.whole;
        announced = s.announced;
        short = s.short;
        capacity = fsize-insert type attrib r.attributes ∙ s.capacity;
        table =
            ((insert-Represents r.attributes pairs type attrib s.table).0
              (omega (arith, s.capacity))).1;
        bounds = ((refl, omega arith, h), s.bounds);
        counted = omega (arith, s.counted);
      }

-- what a round leaves: a failure with `bytesConsumed` as it was, or a sound reader further on
abbrev Rounded : ℕ → ℕ → Run Reader × ℕ → Type 0
Rounded total consumed out =
    ((succeeded out.0.0 ≡ false) × (out.1 ≡ consumed))
    ⊎ ((pairs : List (ℕ × Attribute)) × (succeeded out.0.0 ≡ true)
        × (out.1 ≡ out.0.1.stream.pos)
        × (consumed < out.1)
        × Sound total out.0.1 pairs)

take_attribute-Rounded :
    (type size consumed total : ℕ) (r : Reader) (pairs : List (ℕ × Attribute))
    → Sound total r pairs
    → consumed + 4 ≡ r.stream.pos
    → Rounded total consumed (take_attribute type size consumed r)
take_attribute-Rounded type size consumed total r pairs s at =
    elim (dec_lt max_attribute_size size) [
      | yes long ↦
          rw (take_attribute_long type size r pairs s.table consumed s.valid long)
            (inl (refl, refl))
      | no fine ↦ elim (dec_lt (length pairs) max_num_attributes) [
        | no full ↦
            rw
              (take_attribute_full type size r pairs s.table consumed s.valid (omega arith)
                (omega (arith, s.capacity)))
              (inl (refl, refl))
        | yes room ↦ elim (dec_le (r.stream.pos + size + padding_length size) total) [
          | no beyond ↦ inl (
              take_attribute_short type size r pairs s.table consumed s.valid (omega arith)
                (omega (arith, s.capacity)) (omega (arith, s.valid.pos_in, s.whole, s.short))
                (omega (arith, s.whole)))
          | yes fits ↦
              rw
                (take_attribute_ok type size r pairs s.table consumed s.valid (omega arith)
                  (omega (arith, s.capacity)) (omega (arith, s.whole))
                  (omega (arith, s.whole, s.short)) (omega (arith, s.short)))
                (inr (
                  _,
                  refl,
                  omega arith,
                  omega arith,
                  taken-Sound s type size (omega arith) room fits,
                ))
        ]
      ]
    ]

body_round-Rounded :
    (consumed total : ℕ) (r : Reader) (pairs : List (ℕ × Attribute))
    → Sound total r pairs
    → consumed ≡ r.stream.pos
    → Rounded total consumed (body_round consumed r)
body_round-Rounded consumed total r pairs s at =
    elim (dec_le (r.stream.pos + 4) (get_size r.stream)) [
      | no short ↦ inl (body_round_short consumed r s.valid (omega arith))
      | yes fits ↦ rw (body_round_full consumed r s.valid fits) (
          take_attribute-Rounded (type_at r) (size_at r) consumed total
            (seek_to (r.stream.pos + 4) r) pairs
            (seek_to-Sound s (r.stream.pos + 4) (omega (arith, s.whole))) (omega arith))
    ]

pub body_loop_done :
    (fuel consumed : ℕ) (r : Reader)
    → get_size r.stream ≤ consumed
    → body_loop (suc fuel) consumed r ≡ (r, consumed)
unfolding body_loop
body_loop_done fuel consumed r h = rw (le→ltb_false consumed (get_size r.stream) h)

pub body_loop_more :
    (fuel consumed : ℕ) (r : Reader)
    → consumed < get_size r.stream
    → succeeded (body_round consumed r).0.0 ≡ true
    → body_loop (suc fuel) consumed r
      ≡ body_loop fuel (body_round consumed r).1 (body_round consumed r).0.1
unfolding body_loop
body_loop_more fuel consumed r h ok = rw (lt→ltb consumed (get_size r.stream) h, ok)

body_loop_failed :
    (fuel consumed : ℕ) (r : Reader)
    → consumed < get_size r.stream
    → succeeded (body_round consumed r).0.0 ≡ false
    → (body_loop (suc fuel) consumed r).1 ≡ (body_round consumed r).1
unfolding body_loop
body_loop_failed fuel consumed r h ok = rw (lt→ltb consumed (get_size r.stream) h, ok)

body_loop-Sound :
    (fuel consumed total : ℕ) (r : Reader) (pairs : List (ℕ × Attribute))
    → Sound total r pairs
    → consumed ≡ r.stream.pos
    → (body_loop fuel consumed r).1 ≡ total
    → (found : List (ℕ × Attribute)) × Sound total (body_loop fuel consumed r).0 found
body_loop-Sound zero consumed total r pairs s at e = (pairs, unfold body_loop in s)
body_loop-Sound (suc fuel) consumed total r pairs s at e =
    elim (dec_lt consumed (get_size r.stream)) [
      | no done ↦ rw (body_loop_done fuel consumed r (omega arith)) (pairs, s)
      | yes more ↦ elim (body_round-Rounded consumed total r pairs s at) [
        | inl failed ↦
            absurd
              (omega (arith, body_loop_failed fuel consumed r more failed.0, failed.1, s.whole, e))
        | inr ok ↦ rw (body_loop_more fuel consumed r more ok.1) (
            body_loop-Sound fuel (body_round consumed r).1 total (body_round consumed r).0.1 ok.0
              ok.4 ok.2 (rw (body_loop_more fuel consumed r more ok.1) at e))
      ]
    ]

-- what `ReadBody` makes of where its loop ended
abbrev judged : ℕ → Reader × ℕ → Run Reader
judged total out = (if out.1 == total then s_ok else e_fail, out.0)

pub read_body_steps :
    (r : Reader)
    → header_size ≤ get_size r.stream
    → read_body r
      ≡ judged
          (get_size r.stream)
          (body_loop (suc (get_size r.stream)) header_size (seek_to header_size r))
unfolding read_body
read_body_steps r h = rw ((seek_direct_lem header_size r.stream).0 h)

judged_ok : (total : ℕ) (out : Reader × ℕ) → succeeded (judged total out).0 ≡ true → out.1 ≡ total
judged_ok total out h = ground arith

-- If `ReadBody` is called on a reader without attributes whose stream holds a header and as many
-- bytes as announced, and accepts the message, every attribute that it has entered in the table
-- lies within the message with its value and is no longer than the limit; the table holds each of
-- them under its type, they are as many as the reader has counted, and no more than 30.
pub read_body-Sound :
    (total : ℕ) (r : Reader)
    → Sound total r []
    → header_size ≤ total
    → succeeded (read_body r).0 ≡ true
    → (found : List (ℕ × Attribute)) × Sound total (read_body r).1 found
      × (length found ≤ max_num_attributes)
read_body-Sound total r s big ok =
    let e = read_body_steps r (omega (arith, s.whole)) in
    let out = body_loop (suc (get_size r.stream)) header_size (seek_to header_size r) in
    let ended : out.1 ≡ get_size r.stream = judged_ok (get_size r.stream) out (rw e at ok) in
    let (found, sound) =
      body_loop-Sound (suc (get_size r.stream)) header_size total (seek_to header_size r) []
        (seek_to-Sound s header_size big) refl (ended ∙ s.whole) in
    rw e (
      found,
      sound,
      omega (arith, size-Represents out.0.attributes found sound.table, sound.capacity),
    )
