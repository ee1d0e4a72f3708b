-- ===== src/Reader.antt =====
-- all/stunreader.cpp: `CStunMessageReader`, the incremental parser of a STUN message. The getters
-- are in Reader/Get, the fingerprint and integrity checks in Reader/Auth.
pub mod Get
pub mod Frames
pub mod Loop
pub mod Safety
pub mod Header
pub mod States
pub mod Feed
pub mod Whole
pub mod Values
pub mod Found
pub mod RoundTrip
pub mod Fingerprints
pub mod Attributes
pub mod Auth
use nat_tester.Base.{
  ℕ, zero, suc, ◌+◌, ◌-◌, ◌*◌, ◌/◌, ◌%◌, ◌^◌, Bool, true, false, not, ◌&&◌, ◌||◌, List, [], ◌∷◌,
  Option, none, some, length, replicate, bit_and, bit_or, ltb, leb, ◌==◌, if◌then◌else◌,
}
use nat_tester.Hresult.{Hresult, s_ok, e_fail, e_unexpected, Run, succeeded}
use nat_tester.Word.{u16, htons, htonl, uint32_at, size_add}
use nat_tester.StunTypes.{
  MessageClass, request, indication, success_response, failure_response, invalid_class,
  TransactionId, Attribute, is_request, is_indication, is_success_response, is_error_response,
  stun_cookie, max_message_size, max_attribute_size, header_size, transaction_id_length,
  attribute_fingerprint, attribute_message_integrity,
}
use nat_tester.Stream
use nat_tester.Stream.{
  Stream, Buffer, get_size, read, read_uint16, seek_direct, seek_relative, write,
}
use nat_tester.FastHash.{Table, fast_hash, insert}

-- `ReaderParseState`
pub data ParseState : Type 0 where
  header_not_read header_validated body_validated parse_error : ParseState

abbrev pub max_num_attributes : ℕ
max_num_attributes = 30

abbrev pub attribute_table_width : ℕ
attribute_table_width = 53

-- An index of -1 is `none`.
pub record Reader : Type 0 where
  pub stream : Stream
  pub allow_legacy_format : Bool
  pub message_is_legacy_format : Bool
  pub state : ParseState
  pub attributes : Table Attribute
  pub index_fingerprint : Option ℕ
  pub index_message_integrity : Option ℕ
  pub count_attributes : ℕ
  pub transaction_id : TransactionId
  pub msg_type_normalized : ℕ
  pub msg_class : MessageClass
  pub msg_length : ℕ

-- `CStunMessageReader()` and `CStunMessageReader::Reset`
unfoldable pub new_reader : Reader
new_reader = record {
  stream = Stream.reset;
  allow_legacy_format = true;
  message_is_legacy_format = false;
  state = header_not_read;
  attributes = fast_hash max_num_attributes attribute_table_width;
  index_fingerprint = none;
  index_message_integrity = none;
  count_attributes = 0;
  transaction_id = replicate transaction_id_length 0;
  msg_type_normalized = 0xffff;
  msg_class = invalid_class;
  msg_length = 0;
}

-- `CStunMessageReader::SetAllowLegacyFormat`
unfoldable pub set_allow_legacy_format : Bool → Reader → Reader
set_allow_legacy_format allow r = record r { allow_legacy_format = allow }

-- `CStunMessageReader::HowManyBytesNeeded`; the difference is cut to a `uint16_t`.
unfoldable pub how_many_bytes_needed : Reader → ℕ
how_many_bytes_needed r =
    let current = get_size r.stream in
    elim r.state [
      | header_not_read ↦ u16 (header_size + 2 ^ 32 - current)
      | header_validated ↦ u16 (r.msg_length + header_size + 2 ^ 32 - current)
      | _ ↦ 0
    ]

-- a `Chk(read)` after a chain of others: on a failure nothing is read
abbrev pub and_read : {A : Type 0} → Run Stream → (Stream → Run Stream × A) → A → Run Stream × A
and_read r f unread = if succeeded r.0 then f r.1 else (r, unread)

-- the class that `ReadHeader` finds in the type field
unfoldable pub class_of : ℕ → MessageClass
class_of msg_type =
    if is_request msg_type
    then request
    else if is_indication msg_type
    then indication
    else if is_success_response msg_type
    then success_response
    else if is_error_response msg_type
    then failure_response
    else invalid_class

-- the type without its class bits
unfoldable pub normalized_type : ℕ → ℕ
normalized_type msg_type =
    bit_or (bit_or (bit_and msg_type 0x000f) (bit_and msg_type 0x00e0 / 2))
      (bit_and msg_type 0x3E00 / 4)

-- the checks of `ReadHeader` on the fields, in the host's order
unfoldable pub check_header : ℕ → ℕ → TransactionId → Reader → Run Reader
unfolding class_of normalized_type
check_header msg_type msg_length id r =
    let legacy = not (htonl (uint32_at id) == stun_cookie) in
    let header_valid =
      (bit_and msg_type 0xc000 == 0 && msg_length % 4 == 0)
      && (r.allow_legacy_format || not legacy) in
    let r₁ = record r { message_is_legacy_format = legacy } in
    let r₂ = record r₁ {
      msg_type_normalized = normalized_type msg_type;
      msg_length = msg_length;
      transaction_id = id;
    } in
    let class = class_of msg_type in
    let status : Hresult = elim class [ invalid_class ↦ e_fail | _ ↦ s_ok ] in
    if not header_valid
    then (e_fail, r₁)
    else if ltb max_message_size msg_length
    then (e_unexpected, r₂)
    else (status, record r₂ { msg_class = class })

-- `CStunMessageReader::ReadHeader`
unfoldable pub read_header : Reader → Run Reader
read_header r =
    let start = seek_direct 0 r.stream in
    let (typed, msg_type) = and_read start read_uint16 0 in
    let (sized, msg_length) = and_read typed read_uint16 0 in
    let (done, id) = and_read sized (read transaction_id_length) [] in
    let r' = record r { stream = done.1 } in
    if succeeded done.0
    then check_header (htons msg_type) (htons msg_length) id r'
    else (done.0, r')

-- the bytes that follow an attribute's value up to the next multiple of 4
abbrev pub padding_length : ℕ → ℕ
padding_length size = if size % 4 == 0 then 0 else 4 - size % 4

-- The part of a round of `ReadBody` that enters the attribute at the stream's position in the
-- table, and counts it if there was room.
unfoldable pub note_attribute : ℕ → ℕ → Reader → Bool × Reader
note_attribute type size r =
    let attrib : Attribute = record {
      attribute_type = type;
      size = size;
      offset = u16 r.stream.pos;
    } in
    let (inserted, table) = insert type attrib r.attributes in
    let count = r.count_attributes in
    if inserted
    then (
      true,
      record r {
        attributes = table;
        index_fingerprint =
            if type == attribute_fingerprint then some count else r.index_fingerprint;
        index_message_integrity =
            if type == attribute_message_integrity then some count else r.index_message_integrity;
        count_attributes = count + 1;
      },
    )
    else (false, record r { attributes = table })

-- the part that moves behind the value and its padding
unfoldable pub skip_value : ℕ → Stream → Run Stream
skip_value size s =
    let padding = padding_length size in
    let valued = seek_relative size s in
    if succeeded valued.0 && ltb 0 padding then seek_relative padding valued.1 else valued

-- What a round of `ReadBody` does with an attribute whose header it has read: the status, the
-- reader and `bytesConsumed`.
unfoldable pub take_attribute : ℕ → ℕ → ℕ → Reader → Run Reader × ℕ
take_attribute type size consumed r =
    let (inserted, noted) = note_attribute type size r in
    let (hr, moved) = skip_value size noted.stream in
    let after = record noted { stream = moved } in
    if ltb max_attribute_size size
    then ((e_fail, r), consumed)
    else if not inserted
    then ((e_fail, noted), consumed)
    else if succeeded hr
    then ((hr, after), size_add consumed (4 + size + padding_length size))
    else ((hr, after), consumed)

-- a round of the loop of `ReadBody`
unfoldable pub body_round : ℕ → Reader → Run Reader × ℕ
body_round consumed r =
    let (typed, type) = read_uint16 r.stream in
    let (sized, size) = and_read typed read_uint16 0 in
    let r' = record r { stream = sized.1 } in
    if succeeded sized.0
    then take_attribute (htons type) (htons size) consumed r'
    else ((sized.0, r'), consumed)

-- The loop of `ReadBody`, one round for each unit of fuel: the reader and `bytesConsumed`.
unfoldable pub body_loop : ℕ → ℕ → Reader → Reader × ℕ
body_loop zero consumed r = (r, consumed)
body_loop (suc fuel) consumed r =
    let (next, consumed') = body_round consumed r in
    let rest = body_loop fuel consumed' next.1 in
    if not (ltb consumed (get_size r.stream))
    then (r, consumed)
    else if succeeded next.0
    then rest
    else (next.1, consumed')

-- `CStunMessageReader::ReadBody`. A round that succeeds consumes 4 bytes and more, so the size of
-- the stream is enough fuel.
unfoldable pub read_body : Reader → Run Reader
read_body r =
    let current = get_size r.stream in
    let start = seek_direct header_size r.stream in
    let r' = record r { stream = start.1 } in
    let (final, consumed) = body_loop (suc current) header_size r' in
    if succeeded start.0
    then ((if consumed == current then s_ok else e_fail), final)
    else (start.0, r')

-- the state after a header was read, with its body still to come
abbrev pub after_header : Hresult → ℕ → ParseState
after_header hr msg_length =
    if not (succeeded hr)
    then parse_error
    else if msg_length == 0
    then body_validated
    else header_validated

-- the first part of `AddBytes` once the bytes are in the stream: the header
unfoldable pub try_header : Reader → Reader
try_header r =
    let (hr, r') = read_header r in
    elim r.state [
      | header_not_read ↦
          if leb header_size (get_size r.stream)
          then record r' { state = after_header hr r'.msg_length }
          else r
      | _ ↦ r
    ]

-- the second part: the body
unfoldable pub try_body : Reader → Reader
try_body r =
    let expected = r.msg_length + header_size in
    let (hr, r') = read_body r in
    elim r.state [
      | header_validated ↦
          if ltb (get_size r.stream) expected
          then r
          else if get_size r.stream == expected
          then record r' { state = if succeeded hr then body_validated else parse_error }
          else record r { state = parse_error }
      | _ ↦ r
    ]

-- the third part: bytes beyond the message
unfoldable pub reject_excess : Reader → Reader
reject_excess r = elim r.state [
  | body_validated ↦
      if ltb (r.msg_length + header_size) (get_size r.stream)
      then record r { state = parse_error }
      else r
  | _ ↦ r
]

-- the bytes are in the stream, and the three parts follow
abbrev pub digest : Reader → Reader
digest r = reject_excess (try_body (try_header r))

module _ (new_bytes : ℕ → Option (List ℕ)) where
  -- `AddBytes` where the state is not `ParseError` and there are bytes
  unfoldable pub add_some_bytes : List ℕ → Reader → ParseState × Reader
  add_some_bytes bytes r =
      let at_end = (seek_direct (get_size r.stream) r.stream).1 in
      let (hr, written) = write new_bytes bytes at_end in
      let added = record r { stream = written } in
      let digested = digest added in
      if succeeded hr then (digested.state, digested) else (parse_error, added)

  -- `CStunMessageReader::AddBytes` for a pointer that is not NULL: the value returned, and the
  -- reader.
  unfoldable pub add_bytes : List ℕ → Reader → ParseState × Reader
  add_bytes bytes r = elim r.state [
    | parse_error ↦ (parse_error, r)
    | _ ↦ elim bytes [ [] ↦ (r.state, r) | x ∷ xs ↦ add_some_bytes (x ∷ xs) r ]
  ]
