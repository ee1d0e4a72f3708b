-- ===== src/Reader/Auth.antt =====
-- The fingerprint and the integrity checks of `CStunMessageReader`.
use nat_tester.Base.{
  ℕ, zero, suc, ◌+◌, ◌-◌, ◌/◌, ◌^◌, Bool, true, false, not, ◌&&◌, ◌||◌, List, [], ◌++◌, Option,
  none, some, length, take, drop, slice, bit_xor, ltb, ◌==◌, if◌then◌else◌,
}
use nat_tester.Hresult.{Hresult, s_ok, e_fail, e_invalidarg, Run, succeeded}
use nat_tester.Word.{u16, htons, htonl, uint16_bytes, uint32_bytes, uint32_at, size_sub}
use nat_tester.StunTypes.{
  attribute_fingerprint, attribute_message_integrity, fingerprint_xor, header_size,
}
use nat_tester.Stream.{
  Stream, attach, get_size, get_data_pointer_unsafe, data_pointer, read_uint16, read_uint32,
}
use nat_tester.Address.{same_bytes}
use nat_tester.Crypto.{Crypto}
use nat_tester.Builder.Auth.{hmac_size, long_term_key}
use nat_tester.Reader.{Reader, ParseState, body_validated, and_read}
use nat_tester.Reader.Get.{find_attribute}

abbrev pub is_body_validated : ParseState → Bool
is_body_validated body_validated = true
is_body_validated _ = false

-- `index == i` for an index that is -1 or more
abbrev pub index_is : Option ℕ → ℕ → Bool
index_is none i = false
index_is (some index) i = index == i

-- The loop over the 32-bit chunks: the bytes that were read, in their order.
unfoldable pub read_chunks : ℕ → Stream → Run Stream × List ℕ
read_chunks zero s = ((s_ok, s), [])
read_chunks (suc chunks) s =
    let (r, chunk) = read_uint32 s in
    let (done, rest) = read_chunks chunks r.1 in
    if succeeded r.0 then (done, uint32_bytes chunk ++ rest) else (r, [])

-- the length field without the 8 bytes of a fingerprint
abbrev pub adjusted_length : Bool → ℕ → ℕ
adjusted_length adjust chunk = if adjust then htons (u16 (htons chunk + 2 ^ 16 - 8)) else chunk

-- What the integrity hash covers, and the status of the reads: `offset` is that of the value.
unfoldable pub covered_bytes : Bool → ℕ → Stream → Run Stream × List ℕ
unfolding read_chunks
covered_bytes adjust offset s =
    let (typed, type) = read_uint16 s in
    let (sized, size) = and_read typed read_uint16 0 in
    let (done, rest) = and_read sized (read_chunks (size_sub offset 8 / 4)) [] in
    (done, uint16_bytes type ++ (uint16_bytes (adjusted_length adjust size) ++ rest))

module _ (crypto : Crypto) where
  open crypto use {crc32, hmac_sha1, md5}

  -- `CStunMessageReader::IsFingerprintAttributeValid`
  unfoldable pub is_fingerprint_attribute_valid : Reader → Bool
  is_fingerprint_attribute_valid r = elim (find_attribute attribute_fingerprint r) [
    | none ↦ false
    | some attrib ↦
        let checked =
          attrib.attribute_type == attribute_fingerprint
          && (attrib.size == 4 && is_body_validated r.state) in
        if not checked || ltb (get_size r.stream) header_size
        then false
        else elim (get_data_pointer_unsafe r.stream) [
          | none ↦ false
          | some xs ↦
              let computed = bit_xor (crc32 (take (get_size r.stream - 8) xs)) fingerprint_xor in
              htonl (uint32_at (drop attrib.offset xs)) == computed
        ]
  ]

  -- the hash over the covered bytes, against the value in the message
  abbrev pub compare_hmac : List ℕ → Bool → ℕ → Reader → Hresult
  compare_hmac key adjust offset r =
      let (done, covered) = covered_bytes adjust offset (attach r.stream.buffer false) in
      if succeeded done.0
      then (if same_bytes (hmac_sha1 key covered) (slice (data_pointer r.stream) offset hmac_size)
          then s_ok
          else e_fail)
      else done.0

  -- `CStunMessageReader::ValidateMessageIntegrity`; NULL is the key of no bytes.
  unfoldable pub validate_message_integrity : List ℕ → Reader → Hresult
  unfolding covered_bytes attach
  validate_message_integrity key r = elim r.index_message_integrity [
    | none ↦ e_fail
    | some index ↦
        let last = r.count_attributes - 1 in
        let before_last = index + 1 == last in
        let ends = index == last || before_last && index_is r.index_fingerprint last in
        if not (is_body_validated r.state) || r.count_attributes == 0
        then e_fail
        else if length key == 0
        then e_invalidarg
        else elim (find_attribute attribute_message_integrity r) [
          | none ↦ e_fail
          | some attrib ↦
              if attrib.size == hmac_size && ends
              then compare_hmac key before_last attrib.offset r
              else e_fail
        ]
  ]

  -- `CStunMessageReader::ValidateMessageIntegrityShort`
  unfoldable pub validate_message_integrity_short : List ℕ → Reader → Hresult
  unfolding validate_message_integrity
  validate_message_integrity_short password r = validate_message_integrity password r

  -- `CStunMessageReader::ValidateMessageIntegrityLong`, for strings of which the array `key` has
  -- room.
  unfoldable pub validate_message_integrity_long : List ℕ → List ℕ → List ℕ → Reader → Hresult
  unfolding validate_message_integrity
  validate_message_integrity_long user realm password r =
      if not (is_body_validated r.state) then e_fail else elim (get_data_pointer_unsafe r.stream) [
        | none ↦ e_fail
        | some _ ↦ validate_message_integrity (md5 (long_term_key user realm password)) r
      ]
