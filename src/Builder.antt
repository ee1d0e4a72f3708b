-- ===== src/Builder.antt =====
-- all/stunbuilder.cpp: `CStunMessageBuilder`, a message written attribute by attribute to a stream.
-- A C string is the list of its characters without the final 0; the empty list is also the NULL
-- string, which every function here treats alike. Auth has the fingerprint and the integrity.
pub mod TransactionIds
pub mod TypeField
pub mod Auth
pub mod Emit
pub mod Message
pub mod Addresses
pub mod Drafts
pub mod Errors
pub mod Endings
pub mod Signing
pub mod Fingerprint
use nat_tester.Base.{
  ℕ, zero, suc, ◌+◌, ◌-◌, ◌*◌, ◌/◌, ◌%◌, ◌^◌, Bool, true, false, not, ◌&&◌, ◌||◌, List, [], ◌∷◌,
  Option, none, some, length, take, get_or, set, replicate, bit_and, bit_or, ltb, leb, ◌==◌,
  if◌then◌else◌, ◌++◌,
}
use nat_tester.Hresult.{
  Hresult, s_ok, e_fail, e_invalidarg, e_unexpected, Run, succeeded, ◌▷◌, chk_when, chk_if,
}
use nat_tester.Word.{u8, u16, htons, htonl, uint16_bytes, uint32_bytes, size_add}
use nat_tester.StunTypes.{
  MessageClass, request, success_response, failure_response, class_code, binding_type,
  TransactionId, ChangeRequest, transaction_id_length, attribute_error_code,
  attribute_unknown_attributes, attribute_xor_mapped_address_optional, attribute_xor_mapped_address,
  attribute_mapped_address, attribute_source_address, attribute_response_origin,
  attribute_changed_address, attribute_other_address, attribute_response_port, attribute_padding,
  attribute_change_request, attribute_username, attribute_nonce, attribute_realm, field_ipv4,
  field_ipv6, mapped_address_size_ipv4, mapped_address_size_ipv6, header_size, stun_cookie,
}
use nat_tester.Stream.{
  Stream, Buffer, reset, attach, get_size, get_buffer, write, write_uint8, write_uint16,
  set_size_hint, seek_direct,
}
use nat_tester.Address.{Address, Family, inet, inet6, apply_stun_xor_map, get_port_nbo, get_ip_nbo}

pub record Builder : Type 0 where
  pub stream : Stream
  pub transaction_id : TransactionId
  pub legacy_mode : Bool

-- `CStunMessageBuilder()`
unfoldable pub new_builder : Builder
new_builder = record {
  stream = reset;
  transaction_id = replicate transaction_id_length 0;
  legacy_mode = false;
}

-- `CStunMessageBuilder::SetLegacyMode`
unfoldable pub set_legacy_mode : Bool → Builder → Builder
set_legacy_mode mode b = record b { legacy_mode = mode }

-- `builder.GetStream().Attach(buffer, true)`
unfoldable pub attach_stream : Option Buffer → Builder → Builder
unfolding attach
attach_stream buffer b = record b { stream = attach buffer true }

-- a call on the builder's stream
abbrev pub on_stream : (Stream → Run Stream) → Builder → Run Builder
on_stream f b = let (hr, s) = f b.stream in (hr, record b { stream = s })

-- The 16-bit type field of `AddHeader`.
unfoldable pub type_field : ℕ → ℕ → ℕ
type_field msg_type class =
    let f₁ = u16 (bit_and msg_type 0x0f80 * 4) in
    let f₂ = u16 (bit_or f₁ (bit_and msg_type 0x0070 * 2)) in
    let f₃ = u16 (bit_or f₂ (bit_and msg_type 0x000f)) in
    let f₄ = u16 (bit_or f₃ (bit_and class 0x02 * 128)) in u16 (bit_or f₄ (bit_and class 0x01 * 16))

-- The id of `AddRandomTransactionId`: the cookie, then `rand() % 256` for the places 4 to 11.
-- `fresh` is what the uninitialised local variable holds, and `rand i` the (i + 1)th `rand()`.
unfoldable pub random_id_loop : ℕ → ℕ → (ℕ → ℕ) → TransactionId → TransactionId
random_id_loop zero x rand id = id
random_id_loop (suc rounds) x rand id =
    random_id_loop rounds (x + 1) rand (set id x (rand (x - 4) % 256))

unfoldable pub random_transaction_id : (ℕ → ℕ) → TransactionId → TransactionId
unfolding random_id_loop
random_transaction_id rand fresh =
    let cookie = uint32_bytes (htonl stun_cookie) in
    let started =
      set (set (set (set fresh 0 (get_or cookie 0 0)) 1 (get_or cookie 1 0)) 2 (get_or cookie 2 0))
        3 (get_or cookie 3 0) in
    random_id_loop (transaction_id_length - 4 - 4) 4 rand started

-- the padding that brings a size to a multiple of 4
abbrev pub padding_of : ℕ → ℕ
padding_of size = if size % 4 == 0 then 0 else 4 - size % 4

module _ (new_bytes : ℕ → Option (List ℕ)) where
  -- a `_stream.Write`
  abbrev pub put : List ℕ → Builder → Run Builder
  put bytes = on_stream (write new_bytes bytes)

  abbrev pub put_uint8 : ℕ → Builder → Run Builder
  put_uint8 val = put (u8 val ∷ [])

  abbrev pub put_uint16 : ℕ → Builder → Run Builder
  put_uint16 val = put (uint16_bytes val)

  abbrev pub put_uint32 : ℕ → Builder → Run Builder
  put_uint32 val = put (uint32_bytes val)

  -- `CStunMessageBuilder::AddHeader`
  unfoldable pub add_header : ℕ → MessageClass → Builder → Run Builder
  add_header msg_type class b =
      on_stream (set_size_hint new_bytes 200) b
      ▷ put_uint16 (htons (type_field msg_type (class_code class)))
      ▷ put_uint16 0

  -- `CStunMessageBuilder::AddBindingRequestHeader` and `AddBindingResponseHeader`
  unfoldable pub add_binding_request_header : Builder → Run Builder
  unfolding add_header
  add_binding_request_header = add_header binding_type request

  unfoldable pub add_binding_response_header : Bool → Builder → Run Builder
  unfolding add_header
  add_binding_response_header success =
      add_header binding_type (if success then success_response else failure_response)

  -- `CStunMessageBuilder::AddTransactionId`
  unfoldable pub add_transaction_id : TransactionId → Builder → Run Builder
  add_transaction_id transid b = put transid (record b { transaction_id = transid })

  -- `CStunMessageBuilder::AddRandomTransactionId`, with the id that it hands back.
  unfoldable pub add_random_transaction_id :
      (ℕ → ℕ) → TransactionId → Builder → Run Builder × TransactionId
  unfolding add_transaction_id
  add_random_transaction_id rand fresh b =
      let transid = random_transaction_id rand fresh in (add_transaction_id transid b, transid)

  -- `CStunMessageBuilder::AddAttributeHeader`
  unfoldable pub add_attribute_header : ℕ → ℕ → Builder → Run Builder
  add_attribute_header type size b = put_uint16 (htons (u16 type)) b ▷ put_uint16 (htons (u16 size))

  -- `CStunMessageBuilder::AddAttribute` for `size` bytes at `value` (`none` is NULL).
  unfoldable pub add_attribute : ℕ → Option (List ℕ) → ℕ → Builder → Run Builder
  unfolding add_attribute_header
  add_attribute type value given b =
      let size : ℕ = elim value [ none ↦ 0 | some _ ↦ given ] in
      let bytes : List ℕ = elim value [ none ↦ [] | some xs ↦ take size xs ] in
      let padding = padding_of size in
      let size_header = if b.legacy_mode then u16 (given + padding) else given in
      chk_when (ltb 0 padding) (put (replicate padding 0))
        (chk_when (ltb 0 size) (put bytes) (add_attribute_header type size_header b))

  -- `CStunMessageBuilder::AddStringAttribute`
  unfoldable pub add_string_attribute : ℕ → List ℕ → Builder → Run Builder
  unfolding add_attribute
  add_string_attribute type [] b = (e_invalidarg, b)
  add_string_attribute type (c ∷ text) b =
      add_attribute type (some (c ∷ text)) (u16 (length (c ∷ text))) b

  -- `CStunMessageBuilder::AddUserName`, `AddNonce` and `AddRealm`
  unfoldable pub add_user_name : List ℕ → Builder → Run Builder
  unfolding add_string_attribute
  add_user_name = add_string_attribute attribute_username

  unfoldable pub add_nonce : List ℕ → Builder → Run Builder
  unfolding add_string_attribute
  add_nonce = add_string_attribute attribute_nonce

  unfoldable pub add_realm : List ℕ → Builder → Run Builder
  unfolding add_string_attribute
  add_realm = add_string_attribute attribute_realm

  -- a step whose status the code does not look at: the chain goes on with the status before it
  abbrev pub ignoring : (Builder → Run Builder) → Run Builder → Run Builder
  ignoring f r = if succeeded r.0 then (r.0, (f r.1).1) else r

  -- `CStunMessageBuilder::AddErrorCode`
  unfoldable pub add_error_code : ℕ → List ℕ → Builder → Run Builder
  unfolding add_attribute_header
  add_error_code error_number reason b =
      let strsize = length reason in
      let size = strsize + 4 in
      let padding = padding_of size in
      let size_header = if b.legacy_mode then size + padding else size in
      let checked = chk_if (ltb 600 error_number) e_invalidarg (
        chk_if (ltb error_number 300) e_invalidarg
          (chk_if (leb 128 strsize) e_invalidarg (s_ok, b))) in
      let fields =
        checked
        ▷ add_attribute_header attribute_error_code size_header
        ▷ put_uint16 0
        ▷ put_uint8 (error_number / 100)
        ▷ put_uint8 (error_number % 100) in
      let texted = if ltb 0 strsize then ignoring (put reason) fields else fields in
      chk_when (ltb 0 padding) (put (replicate padding 0)) texted

  -- the array of `uint16_t` as it lies in memory
  abbrev pub array_bytes : List ℕ → List ℕ
  array_bytes [] = []
  array_bytes (a ∷ arr) = uint16_bytes a ++ array_bytes arr

  -- `&arr[count - 1]`
  abbrev pub last_of : List ℕ → ℕ
  last_of [] = 0
  last_of (a ∷ []) = a
  last_of (a ∷ (b ∷ arr)) = last_of (b ∷ arr)

  -- `CStunMessageBuilder::AddUnknownAttributes` for an array of `length arr` entries that is not
  -- NULL.
  unfoldable pub add_unknown_attributes : List ℕ → Builder → Run Builder
  unfolding add_attribute_header
  add_unknown_attributes arr b =
      let count = length arr in
      let unpadded = u16 (count * 2) in
      let pad = b.legacy_mode && not (count % 2 == 0) in
      let size = if pad then u16 (unpadded + 2) else unpadded in
      let written =
        chk_if (count == 0) e_invalidarg (s_ok, b)
        ▷ add_attribute_header attribute_unknown_attributes size
        ▷ put (take unpadded (array_bytes arr)) in
      if pad then ignoring (put (uint16_bytes (last_of arr))) written else written

  -- `CStunMessageBuilder::AddMappedAddressImpl`
  unfoldable pub add_mapped_address_impl : ℕ → Address → Builder → Run Builder
  unfolding add_attribute_header
  add_mapped_address_impl attribute addr b =
      let family : ℕ = elim addr.family [ inet ↦ field_ipv4 | inet6 ↦ field_ipv6 ] in
      let size : ℕ = elim addr.family [
        | inet ↦ mapped_address_size_ipv4
        | inet6 ↦ mapped_address_size_ipv6
      ] in
      add_attribute_header attribute size b
      ▷ put_uint8 0
      ▷ put_uint8 family
      ▷ put_uint16 (get_port_nbo addr)
      ▷ put (get_ip_nbo 16 addr)

  -- `CStunMessageBuilder::AddXorMappedAddress`, `AddMappedAddress`, `AddResponseOriginAddress` and
  -- `AddOtherAddress`
  unfoldable pub add_xor_mapped_address : Address → Builder → Run Builder
  unfolding add_mapped_address_impl
  add_xor_mapped_address addr b =
      let id =
        if b.legacy_mode
        then attribute_xor_mapped_address_optional
        else attribute_xor_mapped_address in
      add_mapped_address_impl id (apply_stun_xor_map b.transaction_id addr) b

  unfoldable pub add_mapped_address : Address → Builder → Run Builder
  unfolding add_mapped_address_impl
  add_mapped_address = add_mapped_address_impl attribute_mapped_address

  unfoldable pub add_response_origin_address : Address → Builder → Run Builder
  unfolding add_mapped_address_impl
  add_response_origin_address addr b =
      let id = if b.legacy_mode then attribute_source_address else attribute_response_origin in
      add_mapped_address_impl id addr b

  unfoldable pub add_other_address : Address → Builder → Run Builder
  unfolding add_mapped_address_impl
  add_other_address addr b =
      let id = if b.legacy_mode then attribute_changed_address else attribute_other_address in
      add_mapped_address_impl id addr b

  -- `CStunMessageBuilder::AddResponsePort`
  unfoldable pub add_response_port : ℕ → Builder → Run Builder
  unfolding add_attribute
  add_response_port port =
      add_attribute attribute_response_port (some (uint16_bytes (htons port))) 2

  -- One round of the loop of `AddPaddingAttribute` for each unit of fuel.
  unfoldable pub padding_loop : ℕ → ℕ → Run Builder → Run Builder
  padding_loop zero left r = r
  padding_loop (suc fuel) left r =
      let block = if leb 128 left then 128 else left in
      let rest = padding_loop fuel (left - block) (r ▷ put (replicate block 0)) in
      if left == 0 then r else rest

  -- `CStunMessageBuilder::AddPaddingAttribute`: 65535 / 128 rounds are enough.
  unfoldable pub add_padding_attribute : ℕ → Builder → Run Builder
  unfolding padding_loop add_attribute_header
  add_padding_attribute given b =
      let size = if given % 4 == 0 then given else u16 (given + 4 - given % 4) in
      padding_loop 513 size (add_attribute_header attribute_padding size b)

  -- `CStunMessageBuilder::AddChangeRequest`
  unfoldable pub add_change_request : ChangeRequest → Builder → Run Builder
  unfolding add_attribute
  add_change_request change =
      let ip = if change.change_ip then 0x04 else 0 in
      let both = if change.change_port then bit_or ip 0x02 else ip in
      add_attribute attribute_change_request (some (uint32_bytes (htonl both))) 4

  -- `CStunMessageBuilder::FixLengthField`
  unfoldable pub fix_length_field : Builder → Run Builder
  fix_length_field b =
      let size = get_size b.stream in
      chk_if (ltb size header_size) e_unexpected (s_ok, b)
      ▷ on_stream (seek_direct 2)
      ▷ put_uint16 (htons (u16 (size - header_size)))
      ▷ on_stream (seek_direct b.stream.pos)

  -- `CStunMessageBuilder::GetResult`
  unfoldable pub get_result : Builder → Run Builder × Option Buffer
  unfolding fix_length_field
  get_result b =
      let (hr, b') = fix_length_field b in
      if succeeded hr then ((s_ok, b'), get_buffer b'.stream) else ((hr, b'), none)
