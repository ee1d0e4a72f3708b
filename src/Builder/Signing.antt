-- ===== src/Builder/Signing.antt =====
-- The integrity attribute that `CStunMessageBuilder` adds to the bytes of a message.
use nat_tester.Base.{
  ℕ, ◌+◌, ◌^◌, ◌≤◌, ◌≡◌, refl, sym, ap, subst, ◌∙◌, Bool, List, [], ◌∷◌, ◌++◌, append_assoc, Option,
  some, inl, inr, length, length-append, length-copy_into, take, slice-take, take-append,
  take-copy_into, overlay, replicate, arith, Option-cases,
}
use nat_tester.Word.{size_sub}
use nat_tester.StunTypes.{TransactionId, attribute_message_integrity}
use nat_tester.Stream.{Buffer, content, get_size}
use nat_tester.Crypto.{Crypto}
use nat_tester.Builder.{Builder, add_attribute, fix_length_field}
use nat_tester.Builder.Auth.{put_hmac, add_message_integrity_impl}
use nat_tester.Builder.Emit.{
  be16, frame, sized, sized-whole, Holds, Emitted, length-Holds, add_attribute-Emitted,
}
use nat_tester.Builder.Message.{message}
use nat_tester.Builder.Drafts.{
  Drafted, draft, length-draft, length-snoc, added-Drafted, fixed-message,
}
use nat_tester.Builder.Endings.{front_part, overlay_end, split_message}
use nat_tester.Reader.Loop.{Attributes, frames}

-- the bytes that the hash covers: the message up to the integrity attribute, with its final length
abbrev pub signed_part : ℕ → TransactionId → Attributes → List ℕ
signed_part = front_part 24

-- a builder whose stream has the buffer
abbrev holding : Buffer → Builder → Builder
holding buffer b = record b { stream = record (b.stream) { buffer = some buffer } }

module _ (new_bytes : ℕ → Option (List ℕ)) (crypto : Crypto) {n : ℕ} {id : TransactionId}
    {legacy : Bool} where
  put_hmac-holding :
      (key front value : List ℕ) (buffer : Buffer) (b : Builder)
      → Holds n id legacy (front ++ ((be16 8 ++ be16 20) ++ value)) (holding buffer b)
      → length value ≡ 20
      → length (crypto.hmac_sha1 key front) ≡ 20
      → Emitted n id legacy
          (front ++ ((be16 8 ++ be16 20) ++ crypto.hmac_sha1 key front))
          (put_hmac new_bytes crypto key (holding buffer b))
  put_hmac-holding key front value buffer b h l hashed =
      let head = be16 8 ++ be16 20 in
      let bytes = content buffer in
      let size : buffer.size ≡ length front + 24 =
        sym (length-Holds h) ∙ length-append front (head ++ value) ∙ omega (arith, l) in
      let covered : size_sub buffer.size 24 ≡ length front =
        omega (arith, size, h.valid.small, h.valid.fits) in
      let at_front : take (size_sub buffer.size 24) bytes ≡ front =
        ap (λ k. take k bytes) covered
        ∙ sym (slice-take bytes 0 (length front) buffer.size (omega arith))
        ∙ ap (take (length front)) h.holds
        ∙ take-append front (head ++ value) in
      let hash = crypto.hmac_sha1 key (take (size_sub buffer.size 24) bytes) in
      let same : hash ≡ crypto.hmac_sha1 key front = ap (crypto.hmac_sha1 key) at_front in
      let long : length hash ≡ 20 = ap (λ xs. length xs) same ∙ hashed in
      let i = size_sub buffer.size 24 + 4 in
      let len = length-copy_into bytes i hash in
      (
        refl,
        record {
          valid = record {
            pos_in = h.valid.pos_in;
            fits = h.valid.fits;
            room = omega (arith, h.valid.room, len);
            small = h.valid.small;
          };
          at_end = h.at_end;
          capacity = h.capacity;
          holds =
              take-copy_into bytes i buffer.size buffer.size hash (omega (arith, covered, size))
                (omega (arith, h.valid.fits, h.valid.room))
                (omega (arith, covered, size, long, h.valid.fits, h.valid.room))
                (omega (arith, covered, size, long))
              ∙ ap (λ xs. overlay xs i hash) (h.holds ∙ sym (append_assoc front head value))
              ∙ overlay_end (front ++ head) value hash i
                  (omega (arith, covered, length-append front head)) (l ∙ sym long)
              ∙ append_assoc front head hash
              ∙ ap (λ xs. front ++ (head ++ xs)) same;
          identified = h.identified;
          mode = h.mode;
        },
      )

  -- `HMAC` over a message that ends with a value of 20 bytes, which it replaces
  put_hmac-Holds :
      (key front value : List ℕ) (b : Builder)
      → Holds n id legacy (front ++ ((be16 8 ++ be16 20) ++ value)) b
      → length value ≡ 20
      → length (crypto.hmac_sha1 key front) ≡ 20
      → Emitted n id legacy
          (front ++ ((be16 8 ++ be16 20) ++ crypto.hmac_sha1 key front))
          (put_hmac new_bytes crypto key b)
  put_hmac-Holds key front value b h l hashed = elim (Option-cases b.stream.buffer) [
    | inl e ↦
        let empty : get_size b.stream ≡ 0 = rw e refl in
        absurd
          (omega (arith, empty, length-Holds h, length-append front ((be16 8 ++ be16 20) ++ value)))
    | inr (buffer, e) ↦
        let same : b ≡ holding buffer b =
          ap (λ x. record b { stream = record (b.stream) { buffer = x } }) e in
        subst
          (λ y.
            Emitted n id legacy (front ++ ((be16 8 ++ be16 20) ++ crypto.hmac_sha1 key front))
              (put_hmac new_bytes crypto key y))
          (sym same)
          (put_hmac-holding key front value buffer b
            (subst (Holds n id legacy (front ++ ((be16 8 ++ be16 20) ++ value))) same h) l hashed)
  ]

  -- `AddMessageIntegrityImpl`, with a key that is not empty, succeeds on a draft that leaves room for it
  -- and makes it a whole message. Its last attribute is the hash, if it has 20 bytes, of the message in
  -- front of the attribute, where the length field already counts the attribute.
  pub add_message_integrity_impl-message :
      (field c : ℕ) (key : List ℕ) (attributes : Attributes) (b : Builder)
      → Drafted n id legacy field attributes b
      → length id ≡ 16
      → length (frames attributes) + 44 ≤ n
      → length (frames attributes) ≤ 2 ^ 15
      → length (crypto.hmac_sha1 (c ∷ key) (signed_part field id attributes)) ≡ 20
      → Emitted n id legacy
          (message field id (
            frames (
              attributes
              ++ ((
                attribute_message_integrity,
                crypto.hmac_sha1 (c ∷ key) (signed_part field id attributes),
              )
                  ∷ []))))
          (add_message_integrity_impl new_bytes crypto (c ∷ key) b)
  unfolding add_message_integrity_impl
  add_message_integrity_impl-message field c key attributes b d l room short hashed =
      let zeros : List ℕ = replicate 20 0 in
      let front = signed_part field id attributes in
      let hash = crypto.hmac_sha1 (c ∷ key) front in
      let added = add_attribute new_bytes attribute_message_integrity (some zeros) 20 b in
      let whole : sized legacy zeros ≡ zeros = sized-whole legacy zeros refl in
      let e₀ =
        subst
          (λ v.
            Emitted n id legacy (draft field id attributes ++ frame attribute_message_integrity v)
              added)
          whole
          (add_attribute-Emitted new_bytes attribute_message_integrity zeros _ b d
            (omega (arith, length-draft field id attributes l))) in
      let d₁ = added-Drafted field attributes attribute_message_integrity zeros added e₀ in
      let (ok, h) =
        fixed-message new_bytes field (attributes ++ ((8, zeros) ∷ [])) added.1 d₁ l
          (omega (arith, length-snoc attributes 8 zeros)) in
      let fixed = fix_length_field new_bytes added.1 in
      let signed =
        put_hmac-Holds (c ∷ key) front zeros fixed.1
          (subst (λ xs. Holds n id legacy xs fixed.1)
            (split_message field id attributes 8 20 zeros refl refl) h)
          refl hashed in
      rw (e₀.0, ok)
        (subst (λ xs. Emitted n id legacy xs (put_hmac new_bytes crypto (c ∷ key) fixed.1))
          (sym (split_message field id attributes 8 20 hash hashed refl)) signed)
