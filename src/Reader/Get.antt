-- ===== src/Reader/Get.antt =====
-- The getters of `CStunMessageReader`, and all/stunutils.cpp. A getter with an out parameter takes
-- the value that the caller left there and returns the one that the call leaves.
use nat_tester.Base.{
  ℕ, ◌+◌, ◌*◌, Bool, true, false, not, List, [], Option, none, some, drop, slice, get_or, bit_and,
  leb, ◌==◌, if◌then◌else◌, replicate,
}
use nat_tester.Hresult.{Hresult, s_ok, e_fail, e_invalidarg, e_unexpected, succeeded}
use nat_tester.Word.{htons, htonl, uint16_at, uint32_at}
use nat_tester.StunTypes.{
  Attribute, ChangeRequest, TransactionId, attribute_response_port, response_port_size,
  attribute_change_request, change_request_size, attribute_padding, attribute_error_code,
  attribute_mapped_address, attribute_other_address, attribute_changed_address,
  attribute_xor_mapped_address, attribute_xor_mapped_address_optional, attribute_response_origin,
  attribute_source_address, field_ipv4, ipv6_length, attribute_fingerprint,
  attribute_message_integrity, transaction_id_length,
}
use nat_tester.Stream.{
  of_buffer, init_no_alloc, seek_direct, read, read_uint8, read_uint16, read_uint32,
  get_data_pointer_unsafe, data_pointer,
}
use nat_tester.Address.{Address, of_ip_port, of_sockaddr_in6, apply_stun_xor_map, same_bytes}
use nat_tester.FastHash.{lookup, lookup_value_by_index}
use nat_tester.Reader.{Reader, and_read}

-- `_mapAttributes.Lookup`
abbrev pub find_attribute : ℕ → Reader → Option Attribute
find_attribute type r = lookup type r.attributes

-- `CStunMessageReader::HasFingerprintAttribute` and `HasMessageIntegrityAttribute`
unfoldable pub has_fingerprint_attribute : Reader → Bool
has_fingerprint_attribute r = elim (find_attribute attribute_fingerprint r) [
  | none ↦ false
  | some _ ↦ true
]

unfoldable pub has_message_integrity_attribute : Reader → Bool
has_message_integrity_attribute r = elim (find_attribute attribute_message_integrity r) [
  | none ↦ false
  | some _ ↦ true
]

-- `CStunMessageReader::GetAttributeByType` and `GetAttributeByIndex`: `none` is E_FAIL.
unfoldable pub get_attribute_by_type : ℕ → Reader → Option Attribute
get_attribute_by_type type r = find_attribute type r

unfoldable pub get_attribute_by_index : ℕ → Reader → Option Attribute
get_attribute_by_index index r = (lookup_value_by_index index r.attributes).0

-- `CStunMessageReader::GetAttributeCount`
unfoldable pub get_attribute_count : Reader → ℕ
get_attribute_count r = r.attributes.size

-- the start of an attribute's value, in a stream with data
abbrev pub value_at : Attribute → Reader → List ℕ
value_at attrib r = drop attrib.offset (data_pointer r.stream)

-- `CStunMessageReader::GetResponsePort`
unfoldable pub get_response_port : ℕ → Reader → Hresult × ℕ
get_response_port port r = elim (find_attribute attribute_response_port r) [
  | none ↦ (e_fail, port)
  | some attrib ↦
      if not (attrib.size == response_port_size)
      then (e_unexpected, port)
      else elim (get_data_pointer_unsafe r.stream) [
        | none ↦ (e_unexpected, port)
        | some xs ↦ (s_ok, htons (uint16_at (drop attrib.offset xs)))
      ]
]

abbrev pub no_change : ChangeRequest
no_change = record { change_ip = false; change_port = false }

-- the two flags of a CHANGE-REQUEST value
abbrev pub change_flags : ℕ → ChangeRequest
change_flags value = record {
  change_ip = not (bit_and value 0x0004 == 0);
  change_port = not (bit_and value 0x0002 == 0);
}

-- `CStunMessageReader::GetChangeRequest`
unfoldable pub get_change_request : Reader → Hresult × ChangeRequest
get_change_request r = elim (find_attribute attribute_change_request r) [
  | none ↦ (e_fail, no_change)
  | some attrib ↦
      if not (attrib.size == change_request_size)
      then (e_unexpected, no_change)
      else elim (get_data_pointer_unsafe r.stream) [
        | none ↦ (e_unexpected, no_change)
        | some xs ↦ (s_ok, change_flags (htonl (uint32_at (drop attrib.offset xs))))
      ]
]

-- `CStunMessageReader::GetPaddingAttributeSize`
unfoldable pub get_padding_attribute_size : Reader → Hresult × ℕ
get_padding_attribute_size r = elim (find_attribute attribute_padding r) [
  | none ↦ (e_fail, 0)
  | some attrib ↦ (s_ok, attrib.size)
]

-- `CStunMessageReader::GetErrorCode`; the two bytes are read whatever the attribute's size.
unfoldable pub get_error_code : ℕ → Reader → Hresult × ℕ
get_error_code number r = elim (find_attribute attribute_error_code r) [
  | none ↦ (e_fail, number)
  | some attrib ↦
      let at = value_at attrib r in (s_ok, bit_and (get_or at 2 0) 0x07 * 100 + get_or at 3 0)
]

-- `GetMappedAddress` of stunutils.cpp: the address in the `size` bytes at `value`.
unfoldable pub parse_mapped_address : List ℕ → ℕ → Address → Hresult × Address
parse_mapped_address value size addr =
    let start = seek_direct 1 (of_buffer (some (init_no_alloc (some value) size))) in
    let (a, family) = and_read start read_uint8 0 in
    let (b, port) = and_read a read_uint16 0 in
    let (c, ip4) = and_read b read_uint32 0 in
    let (d, ip6) = and_read b (read ipv6_length) [] in
    if family == field_ipv4
    then (if succeeded c.0 then (c.0, of_ip_port (htonl ip4) (htons port)) else (c.0, addr))
    else (if succeeded d.0 then (d.0, of_sockaddr_in6 ip6 (htons (htons port))) else (d.0, addr))

-- `GetXorMappedAddress` of stunutils.cpp
unfoldable pub parse_xor_mapped_address : List ℕ → ℕ → TransactionId → Address → Hresult × Address
unfolding parse_mapped_address
parse_xor_mapped_address value size transid addr =
    let (hr, found) = parse_mapped_address value size addr in
    if succeeded hr then (hr, apply_stun_xor_map transid found) else (hr, found)

-- `IsTransactionIdValid` of stunutils.cpp
unfoldable pub is_transaction_id_valid : TransactionId → Bool
is_transaction_id_valid id = not (same_bytes id (replicate transaction_id_length 0))

-- `CStunMessageReader::GetAddressHelper`
unfoldable pub get_address_helper : ℕ → Address → Reader → Hresult × Address
unfolding parse_mapped_address
get_address_helper type addr r = elim (find_attribute type r) [
  | none ↦ (e_fail, addr)
  | some attrib ↦ parse_mapped_address (value_at attrib r) attrib.size addr
]

-- an attribute, or a second one where the first cannot be had
abbrev pub either_address : ℕ → ℕ → Address → Reader → Hresult × Address
either_address type other addr r =
    let (hr, found) = get_address_helper type addr r in
    if succeeded hr then (hr, found) else get_address_helper other found r

-- `CStunMessageReader::GetMappedAddress`
unfoldable pub get_mapped_address : Address → Reader → Hresult × Address
unfolding get_address_helper
get_mapped_address = get_address_helper attribute_mapped_address

-- `CStunMessageReader::GetOtherAddress`
unfoldable pub get_other_address : Address → Reader → Hresult × Address
unfolding get_address_helper
get_other_address = either_address attribute_other_address attribute_changed_address

-- `CStunMessageReader::GetXorMappedAddress`
unfoldable pub get_xor_mapped_address : Address → Reader → Hresult × Address
unfolding get_address_helper
get_xor_mapped_address addr r =
    let (hr, found) =
      either_address attribute_xor_mapped_address attribute_xor_mapped_address_optional addr r in
    if succeeded hr then (hr, apply_stun_xor_map r.transaction_id found) else (hr, found)

-- `CStunMessageReader::GetResponseOriginAddress`
unfoldable pub get_response_origin_address : Address → Reader → Hresult × Address
unfolding get_address_helper
get_response_origin_address = either_address attribute_response_origin attribute_source_address

-- `CStunMessageReader::GetStringAttributeByType` for a buffer of `size` bytes that is not NULL: the
-- bytes copied in front of the final 0.
unfoldable pub get_string_attribute_by_type : ℕ → ℕ → Reader → Hresult × List ℕ
get_string_attribute_by_type type size r = elim (find_attribute type r) [
  | none ↦ (e_invalidarg, [])
  | some attrib ↦
      if leb size attrib.size
      then (e_invalidarg, [])
      else (s_ok, slice (data_pointer r.stream) attrib.offset attrib.size)
]
