-- ===== src/Builder/Fingerprint.antt =====
-- The fingerprint that `CStunMessageBuilder` adds to the bytes of a message.
use nat_tester.Base.{
  ℕ, ◌+◌, ◌-◌, ◌^◌, ◌≤◌, ◌≡◌, refl, sym, ap, subst, ◌∙◌, Bool, List, [], ◌∷◌, ◌++◌, append_assoc,
  Option, length, length-append, take, slice-take, take-append, overlay, arith, bit_xor,
}
use nat_tester.Hresult.{s_ok, ◌▷◌}
use nat_tester.Word.{htons, htonl, uint32_bytes, size_sub, size_add, size_mod}
use nat_tester.StunTypes.{TransactionId, attribute_fingerprint, fingerprint_xor}
use nat_tester.Stream.{Stream, get_size, data_pointer, allocated_size, seek_relative}
use nat_tester.Stream.Laws.{IsValid, write_fits, seek_direct_lem}
use nat_tester.Crypto.{Crypto}
use nat_tester.Stream.Fixed.{write_capacity}
use nat_tester.Builder.{Builder, put, put_uint16, fix_length_field}
use nat_tester.Builder.Auth.{put_checksum, add_fingerprint_attribute}
use nat_tester.Builder.Emit.{
  be16, frame, Holds, Emitted, length-Holds, put-Emitted, put_uint16-Emitted, recast,
}
use nat_tester.Builder.Message.{message}
use nat_tester.Builder.Drafts.{
  Drafted, draft, length-draft, length-snoc, added-Drafted, fixed-message,
}
use nat_tester.Builder.Endings.{front_part, overlay_end, split_message}
use nat_tester.Reader.Loop.{Attributes, frames}

-- the four bytes of a fingerprint
abbrev pub fingerprint_bytes : ℕ → List ℕ
fingerprint_bytes crc = uint32_bytes (htonl (bit_xor crc fingerprint_xor))

module _ (new_bytes : ℕ → Option (List ℕ)) (crypto : Crypto) {n : ℕ} {id : TransactionId}
    {legacy : Bool} where
  -- the checksum over a message that ends with a value of 4 bytes, which it replaces
  put_checksum-Holds :
      (front head value : List ℕ) (b : Builder)
      → Holds n id legacy (front ++ (head ++ value)) b
      → length head ≡ 4
      → length value ≡ 4
      → Emitted n id legacy
          (front ++ (head ++ fingerprint_bytes (crypto.crc32 front)))
          (put_checksum new_bytes crypto b)
  unfolding seek_relative
  put_checksum-Holds front head value b h l4 l =
      let s = b.stream in
      let size : get_size s ≡ length front + 8 =
        sym (length-Holds h)
        ∙ length-append front (head ++ value)
        ∙ omega (arith, length-append head value, l, l4) in
      let covered : size_sub (get_size s) 8 ≡ length front =
        omega (arith, size, h.valid.small, h.valid.fits) in
      let at_front : take (size_sub (get_size s) 8) (data_pointer s) ≡ front =
        ap (λ k. take k (data_pointer s)) covered
        ∙ sym (slice-take (data_pointer s) 0 (length front) (get_size s) (omega arith))
        ∙ ap (take (length front)) h.holds
        ∙ take-append front (head ++ value) in
      let src = fingerprint_bytes (crypto.crc32 front) in
      let i = length front + 4 in
      let moved : size_add (size_mod - 4) s.pos ≡ i =
        omega (arith, size, h.at_end, h.valid.small, h.valid.fits) in
      let t : Stream = record s { pos = i } in
      let v : IsValid t = record {
        pos_in = omega arith;
        fits = h.valid.fits;
        room = h.valid.room;
        small = h.valid.small;
      } in
      let fits : i + 4 ≤ allocated_size t = omega (arith, h.valid.fits) in
      let w = write_fits new_bytes src t v (omega arith) fits in
      rw (at_front, moved, (seek_direct_lem i s).0 (omega (arith, size)))
        (
          w.ok,
          record {
            valid = w.valid;
            at_end = omega (arith, w.pos, w.size, size);
            capacity = write_capacity new_bytes src t v (omega arith) fits ∙ h.capacity;
            holds =
                w.holds
                ∙ ap (λ xs. overlay xs i src) (h.holds ∙ sym (append_assoc front head value))
                ∙ overlay_end (front ++ head) value src i (omega (arith, length-append front head))
                    l
                ∙ append_assoc front head src;
            identified = h.identified;
            mode = h.mode;
          },
        )

  -- `AddFingerprintAttribute` succeeds on a draft that leaves room for it and makes it a whole
  -- message. Its last attribute has the checksum, masked, of the message in front of the attribute,
  -- where the length field already counts the attribute.
  pub add_fingerprint_attribute-message :
      (field : ℕ) (attributes : Attributes) (b : Builder)
      → Drafted n id legacy field attributes b
      → length id ≡ 16
      → length (frames attributes) + 28 ≤ n
      → length (frames attributes) ≤ 2 ^ 15
      → Emitted n id legacy
          (message field id (
            frames (
              attributes
              ++ ((
                attribute_fingerprint,
                uint32_bytes (
                    htonl
                      (bit_xor (crypto.crc32 (front_part 8 field id attributes)) fingerprint_xor)),
              )
                  ∷ []))))
          (add_fingerprint_attribute new_bytes crypto b)
  unfolding add_fingerprint_attribute
  add_fingerprint_attribute-message field attributes b d l room short =
      let zeros : List ℕ = 0 ∷ 0 ∷ 0 ∷ 0 ∷ [] in
      let type = attribute_fingerprint in
      let front = front_part 8 field id attributes in
      let bytes = draft field id attributes in
      let size = length-draft field id attributes l in
      let typed = put_uint16 new_bytes (htons type) b in
      let sized = typed ▷ put_uint16 new_bytes (htons 4) in
      let value = fingerprint_bytes (crypto.crc32 front) in
      let e₁ = put_uint16-Emitted new_bytes type bytes (s_ok, b) (refl, d) (omega (arith, size)) in
      let e₂ =
        put_uint16-Emitted new_bytes 4 (bytes ++ be16 type) typed e₁
          (omega (arith, size, length-append bytes (be16 type))) in
      let e₃ = put-Emitted new_bytes zeros ((bytes ++ be16 type) ++ be16 4) sized e₂ (omega arith) (
        omega (
          arith,
          size,
          length-append bytes (be16 type),
          length-append (bytes ++ be16 type) (be16 4),
        )) in
      let added = sized ▷ put new_bytes zeros in
      let e₄ =
        recast new_bytes added _ (bytes ++ frame type zeros)
          (append_assoc (bytes ++ be16 type) (be16 4) zeros
            ∙ append_assoc bytes (be16 type) (be16 4 ++ zeros))
          e₃ in
      let d₁ = added-Drafted field attributes type zeros added e₄ in
      let (ok, h) =
        fixed-message new_bytes field (attributes ++ ((type, zeros) ∷ [])) added.1 d₁ l
          (omega (arith, length-snoc attributes type zeros)) in
      let fixed = fix_length_field new_bytes added.1 in
      let stamped =
        put_checksum-Holds front (be16 type ++ be16 4) zeros fixed.1
          (subst (λ xs. Holds n id legacy xs fixed.1)
            (split_message field id attributes type 4 zeros refl refl) h)
          refl refl in
      rw (e₄.0, ok)
        (subst (λ xs. Emitted n id legacy xs (put_checksum new_bytes crypto fixed.1))
          (sym (split_message field id attributes type 4 value refl refl)) stamped)
