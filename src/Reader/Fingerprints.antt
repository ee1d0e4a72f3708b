-- ===== src/Reader/Fingerprints.antt =====
-- `IsFingerprintAttributeValid` on a message that ends with what `AddFingerprintAttribute` writes.
use nat_tester.Base.{
  ℕ, ◌+◌, ◌-◌, ◌^◌, ◌≤◌, ◌<◌, ◌≡◌, refl, sym, ap, ◌∙◌, Bool, true, List, [], ◌∷◌, ◌++◌, Option,
  some, length, length-append, take, slice-take, take-append, bit_xor, arith, ==_refl, le→ltb_false,
  inl, inr, Option-cases,
}
use nat_tester.Bits.{bit_xor-lt}
use nat_tester.Hresult.{succeeded}
use nat_tester.Word.{htonl, uint32_at, htonl-htonl, htonl-lt, uint32_at-uint32_bytes}
use nat_tester.StunTypes.{
  MessageClass, class_code, TransactionId, attribute_fingerprint, fingerprint_xor, max_message_size,
  header_size,
}
use nat_tester.Stream.{Stream, get_size, data_pointer, get_data_pointer_unsafe}
use nat_tester.Stream.Laws.{contents, length-contents}
use nat_tester.Stream.Growth.{Supplies}
use nat_tester.Crypto.{Crypto}
use nat_tester.FastHash.Chains.{All}
use nat_tester.FastHash.Refine.{newest, lookup-newest}
use nat_tester.Builder.{Builder, type_field}
use nat_tester.Builder.Emit.{be16}
use nat_tester.Builder.Auth.{add_fingerprint_attribute}
use nat_tester.Builder.Drafts.{Drafted, length-snoc}
use nat_tester.Builder.Endings.{front_part, split_message}
use nat_tester.Builder.Fingerprint.{fingerprint_bytes, add_fingerprint_attribute-message}
use nat_tester.Reader.{Reader, body_validated, new_reader, add_bytes, max_num_attributes}
use nat_tester.Reader.Auth.{is_fingerprint_attribute_valid}
use nat_tester.Reader.Attributes.{newest-InBounds}
use nat_tester.Reader.Found.{pointer_at}
use nat_tester.Reader.Loop.{Attributes, frames, onto, IsSendable}
use nat_tester.Reader.Whole.{IsMessage, Understood}
use nat_tester.Reader.Values.{last_value, Found-Understood, add_bytes-Understood}

-- the fingerprint of a message with these attributes
abbrev pub stamp : Crypto → ℕ → TransactionId → Attributes → ℕ × List ℕ
stamp crypto field id attributes =
    (attribute_fingerprint, fingerprint_bytes (crypto.crc32 (front_part 8 field id attributes)))

onto-snoc : (xs ys : Attributes) (a : ℕ × List ℕ) → onto (xs ++ (a ∷ [])) ys ≡ a ∷ onto xs ys
onto-snoc [] ys a = refl
onto-snoc (x ∷ xs) ys a = onto-snoc xs (x ∷ ys) a

IsSendable-snoc :
    (xs : Attributes) (a : ℕ × List ℕ)
    → All IsSendable xs
    → IsSendable a
    → All IsSendable (xs ++ (a ∷ []))
IsSendable-snoc [] a all h = (h, tt)
IsSendable-snoc (x ∷ xs) a all h = (all.0, IsSendable-snoc xs a all.1 h)

word_read-fingerprint :
    (crc : ℕ) (rest : List ℕ)
    → crc < 2 ^ 32
    → htonl (uint32_at (fingerprint_bytes crc ++ rest)) ≡ bit_xor crc fingerprint_xor
word_read-fingerprint crc rest h =
    let masked = bit_xor crc fingerprint_xor in
    ap htonl (uint32_at-uint32_bytes (htonl masked) (htonl-lt masked))
    ∙ htonl-htonl masked (bit_xor-lt 32 crc fingerprint_xor h (omega arith))

data_pointer-some :
    (s : Stream) (ys : List ℕ) → get_data_pointer_unsafe s ≡ some ys → data_pointer s ≡ ys
data_pointer-some s ys e = elim (Option-cases s.buffer) [
  | inl absent ↦ ground (arith, absent)
  | inr (b, there) ↦ elim (Option-cases b.bytes) [
    | inl null ↦ ground (arith, there, null)
    | inr (xs, bytes) ↦ ground (arith, there, bytes)
  ]
]

-- the fingerprint of a message is valid
valid-Understood :
    (crypto : Crypto) (type : ℕ) (class : MessageClass) (id : TransactionId)
    (attributes : Attributes) (r : Reader)
    → let field = type_field type (class_code class) in
      Understood type class id (attributes ++ (stamp crypto field id attributes ∷ [])) r
      → crypto.crc32 (front_part 8 field id attributes) < 2 ^ 32
      → is_fingerprint_attribute_valid crypto r ≡ true
unfolding is_fingerprint_attribute_valid
valid-Understood crypto type class id attributes r u small =
    let field = type_field type (class_code class) in
    let front = front_part 8 field id attributes in
    let crc = crypto.crc32 front in
    let value = fingerprint_bytes crc in
    let head = be16 attribute_fingerprint ++ be16 4 in
    let last : last_value attribute_fingerprint
          (attributes ++ ((attribute_fingerprint, value) ∷ []))
        ≡ some value =
      ap (newest attribute_fingerprint) (onto-snoc attributes [] (attribute_fingerprint, value)) in
    let f = Found-Understood u attribute_fingerprint value last in
    let bounds =
      newest-InBounds (get_size r.stream) attribute_fingerprint _ f.attrib u.sound.bounds
        (sym (lookup-newest r.attributes _ attribute_fingerprint u.sound.table) ∙ f.is_there) in
    let whole =
      u.bytes ∙ split_message field id attributes attribute_fingerprint 4 value refl refl in
    let size : get_size r.stream ≡ length front + 8 =
      sym (length-contents u.sound.valid)
      ∙ ap (λ xs. length xs) whole
      ∙ length-append front (head ++ value) in
    let (ys, p, e) = pointer_at r.stream f.attrib.offset _ _ f.at in
    let front_size : get_size r.stream - 8 ≡ length front = omega (arith, size) in
    let covered : take (get_size r.stream - 8) ys ≡ front =
      ap (λ k. take k ys) front_size
      ∙ ap (take (length front)) (sym (data_pointer-some r.stream ys p))
      ∙ sym (slice-take (data_pointer r.stream) 0 (length front) (get_size r.stream) (omega arith))
      ∙ ap (take (length front)) whole
      ∙ take-append front (head ++ value) in
    let enough = le→ltb_false (get_size r.stream) header_size (omega (arith, u.sound.announced)) in
    rw (f.is_there, is_fingerprint_attribute_valid)
      (rw (bounds.0, f.size, u.state, enough, p, e, covered, word_read-fingerprint crc f.rest small)
        (==_refl (bit_xor crc fingerprint_xor)))

-- A draft of a valid type and class, with at most 29 attributes of at most 780 bytes each, 792 with
-- their headers and padding, in an array with room for a fingerprint: if memory does not run out and
-- the checksum has 32 bits, a new reader that is given what `AddFingerprintAttribute` makes of it
-- finds the fingerprint valid.
pub is_fingerprint_attribute_valid-add_fingerprint_attribute :
    (new_bytes more_bytes : ℕ → Option (List ℕ)) (crypto : Crypto) (type : ℕ) (class : MessageClass)
    (id : TransactionId) (attributes : Attributes) (n : ℕ) (legacy : Bool) (b : Builder)
    → Drafted n id legacy (type_field type (class_code class)) attributes b
    → IsMessage type class id attributes
    → Supplies more_bytes
    → length attributes < max_num_attributes
    → length (frames attributes) + 8 ≤ max_message_size
    → length (frames attributes) + 28 ≤ n
    → crypto.crc32 (front_part 8 (type_field type (class_code class)) id attributes) < 2 ^ 32
    → let (hr, b') = add_fingerprint_attribute new_bytes crypto b in
      let (state, r) = add_bytes more_bytes (contents b'.stream) new_reader in
      (succeeded hr ≡ true)
      × (state ≡ body_validated)
      × (is_fingerprint_attribute_valid crypto r ≡ true)
is_fingerprint_attribute_valid-add_fingerprint_attribute new_bytes more_bytes crypto type class id
      attributes n legacy b d m supplies few short room small =
    let field = type_field type (class_code class) in
    let a = stamp crypto field id attributes in
    let (ok, h) =
      add_fingerprint_attribute-message new_bytes crypto field attributes b d m.id_length room
        (omega arith) in
    let m' : IsMessage type class id (attributes ++ (a ∷ [])) = record {
      good_class = m.good_class;
      good_type = m.good_type;
      id_length = m.id_length;
      sendable = IsSendable-snoc attributes a m.sendable (omega arith, omega arith);
      few = omega (arith, length-append attributes (a ∷ []));
      short = omega (arith, length-snoc attributes a.0 a.1);
    } in
    let (state, u) =
      add_bytes-Understood more_bytes supplies type class id (attributes ++ (a ∷ [])) m' in
    (
      ok,
      ap (λ xs. (add_bytes more_bytes xs new_reader).0) h.holds ∙ state,
      ap (λ xs. is_fingerprint_attribute_valid crypto (add_bytes more_bytes xs new_reader).1)
            h.holds
          ∙ valid-Understood crypto type class id attributes _ u small,
    )
