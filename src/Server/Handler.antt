-- ===== src/Server/Handler.antt =====
-- all/messagehandler.cpp: `CStunRequestHandler`. The message is written to the buffer of the caller,
-- which is the one that the builder's stream holds: it has room for every response, so the stream
-- never puts another in its place.
use nat_tester.Base.{
  ℕ, Bool, true, false, not, ◌&&◌, ◌||◌, List, [], ◌∷◌, Option, none, some, replicate, ltb, ◌==◌,
  if◌then◌else◌,
}
use nat_tester.Hresult.{Hresult, s_ok, e_fail, e_invalidarg, e_unexpected, Run, succeeded}
use nat_tester.StunTypes.{
  MessageClass, request, success_response, failure_response, TransactionId, ChangeRequest,
  binding_type, transaction_id_length, max_message_size, attribute_nonce, attribute_realm,
}
use nat_tester.Stream.{Buffer, set_size}
use nat_tester.Address.{Address, set_port, is_ip_address_zero}
use nat_tester.Crypto.{Crypto}
use nat_tester.Builder.{
  Builder, new_builder, set_legacy_mode, attach_stream, add_header, add_transaction_id,
  add_error_code, add_unknown_attributes, add_string_attribute, add_mapped_address,
  add_response_origin_address, add_other_address, add_xor_mapped_address, fix_length_field,
  get_result,
}
use nat_tester.Builder.Auth.{add_message_integrity_short_term, add_message_integrity_long_term}
use nat_tester.Reader.{Reader}
use nat_tester.Reader.Get.{get_response_port, get_padding_attribute_size, get_change_request}
use nat_tester.Reader.Auth.{
  is_body_validated, validate_message_integrity_short, validate_message_integrity_long,
}
use nat_tester.Server.Roles.{
  Role, role_pp, role_pa, role_ap, role_aa, swap_port, swap_ip, same_role, AddressSet, at_role,
  has_address, is_ip_address_zero_or_invalid,
}
use nat_tester.Server.Auth.{
  AuthProvider, AuthResponse, AuthAttributes, allow, allow_conditional, stale_nonce, reject,
  unauthorized, short_term, long_term, auth_attributes, terminated,
}

abbrev pub error_bad_request : ℕ
error_bad_request = 400

abbrev pub error_unauthorized : ℕ
error_unauthorized = 401

abbrev pub error_unknown_attribute : ℕ
error_unknown_attribute = 420

abbrev pub error_stale_nonce : ℕ
error_stale_nonce = 438

-- `StunMessageIn`
pub record MessageIn : Type 0 where
  pub role : Role
  pub addr_local : Address
  pub addr_remote : Address
  pub reader : Reader
  pub connection_oriented : Bool

-- `StunMessageOut`
pub record MessageOut : Type 0 where
  pub role : Role
  pub addr_dest : Address
  pub buffer : Option Buffer

-- `StunMessageIntegrity`
pub record Integrity : Type 0 where
  pub send : Bool
  pub use_long_term : Bool
  pub user : List ℕ
  pub realm : List ℕ
  pub password : List ℕ

-- `StunErrorCode`
pub record ErrorCode : Type 0 where
  pub code : ℕ
  pub msg_class : MessageClass
  pub msg_type : ℕ
  pub attrib_unknown : ℕ
  pub nonce : List ℕ
  pub realm : List ℕ

-- `CStunRequestHandler`, once `ProcessRequest` has put in the pointers
pub record Handler : Type 0 where
  pub auth : Option AuthProvider
  pub addresses : AddressSet
  pub msg_in : MessageIn
  pub msg_out : MessageOut
  pub integrity : Integrity
  pub error : ErrorCode
  pub has_response_port : Bool
  pub transaction_id : TransactionId
  pub legacy_mode : Bool

-- `CStunRequestHandler()`
unfoldable pub new_handler : Option AuthProvider → AddressSet → MessageIn → MessageOut → Handler
new_handler auth addresses msg_in msg_out = record {
  auth = auth;
  addresses = addresses;
  msg_in = msg_in;
  msg_out = msg_out;
  integrity = record { send = false; use_long_term = false; user = []; realm = []; password = [] };
  error = record {
    code = 0;
    msg_class = request;
    msg_type = 0;
    attrib_unknown = 0;
    nonce = [];
    realm = [];
  };
  has_response_port = false;
  transaction_id = replicate transaction_id_length 0;
  legacy_mode = false;
}

abbrev pub with_error : ℕ → Handler → Handler
with_error code h = record h { error = record (h.error) { code = code } }

-- the builder of a response: the caller's buffer, emptied
unfoldable pub response_builder : Handler → Builder
response_builder h = set_legacy_mode h.legacy_mode (attach_stream h.msg_out.buffer new_builder)

-- the response that a builder has written
abbrev pub respond : Handler → Builder → Handler
respond h b = record h { msg_out = record (h.msg_out) { buffer = b.stream.buffer } }

-- a call whose status is not looked at
abbrev pub then_do : Builder → (Builder → Run Builder) → Builder
then_do b f = (f b).1

-- the socket that `ProcessBindingRequest` answers from, by the flags of a CHANGE-REQUEST
abbrev pub output_role : ChangeRequest → Role → Role
output_role change role =
    let moved = if change.change_ip then swap_ip role else role in
    if change.change_port then swap_port moved else moved

-- the address of the attribute RESPONSE-ORIGIN
unfoldable pub origin_of : Handler → Role → Address
origin_of h role =
    let addr = (at_role h.addresses role).addr in
    if is_ip_address_zero addr && same_role role h.msg_in.role then h.msg_in.addr_local else addr

-- the socket whose address is the attribute OTHER-ADDRESS, and whether it is sent
abbrev pub other_role : Handler → Role
other_role h = swap_ip (swap_port h.msg_in.role)

unfoldable pub sends_other : Handler → Bool
sends_other h =
    let set = h.addresses in
    (has_address set role_pp
      && (has_address set role_pa && (has_address set role_ap && has_address set role_aa)))
    && not (is_ip_address_zero_or_invalid set (other_role h))

-- a stage of `ProcessRequestImpl`: it runs where there is no error yet, and a failure that has
-- no error code gets 400
abbrev pub stage : (Handler → Hresult × Handler) → Handler → Handler
stage f h =
    let (hr, h') = f h in
    if not (h.error.code == 0)
    then h
    else if not (succeeded hr) && h'.error.code == 0
    then with_error error_bad_request h'
    else h'

-- the response port, which a connection does not allow
unfoldable pub honor_response_port : Handler → Handler
honor_response_port h =
    let (_, port) = get_response_port 0 h.msg_in.reader in
    let noted = record h { has_response_port = true } in
    if port == 0
    then h
    else if h.msg_in.connection_oriented
    then with_error error_bad_request noted
    else record noted {
      msg_out = record (h.msg_out) { addr_dest = set_port port h.msg_out.addr_dest };
    }

-- only binding requests are served
abbrev pub check_type : Handler → Hresult × Handler
check_type h =
    if h.msg_in.reader.msg_type_normalized == binding_type
    then (s_ok, h)
    else (s_ok, with_error error_bad_request h)

-- what `ProcessRequestImpl` notes of a request before it works on it
abbrev pub noted : Handler → Handler
noted h =
    let reader = h.msg_in.reader in
    record h {
      error = record (h.error) {
        msg_type = reader.msg_type_normalized;
        msg_class = failure_response;
      };
      transaction_id = reader.transaction_id;
      legacy_mode = reader.message_is_legacy_format;
    }

module _ (new_bytes : ℕ → Option (List ℕ)) where
  -- `CStunRequestHandler::BuildErrorResponse`
  unfoldable pub build_error_response : Handler → Handler
  unfolding response_builder
  build_error_response h =
      let e = h.error in
      let failed = b'F' ∷ b'A' ∷ b'I' ∷ b'L' ∷ b'E' ∷ b'D' ∷ [] in
      let headed = then_do (response_builder h) (add_header new_bytes e.msg_type e.msg_class) in
      let identified = then_do headed (add_transaction_id new_bytes h.transaction_id) in
      let coded = then_do identified (add_error_code new_bytes e.code failed) in
      let unknown = then_do coded (add_unknown_attributes new_bytes (e.attrib_unknown ∷ [])) in
      let nonced : Builder = elim e.nonce [
        | [] ↦ coded
        | c ∷ text ↦ then_do coded (add_string_attribute new_bytes attribute_nonce (c ∷ text))
      ] in
      let challenged : Builder = elim e.realm [
        | [] ↦ nonced
        | c ∷ text ↦ then_do nonced (add_string_attribute new_bytes attribute_realm (c ∷ text))
      ] in
      let complete =
        if e.code == error_unknown_attribute && not (e.attrib_unknown == 0)
        then unknown
        else if e.code == error_stale_nonce || e.code == error_unauthorized
        then challenged
        else coded in
      respond h (get_result new_bytes (then_do complete (fix_length_field new_bytes))).0.1

module _ (crypto : Crypto) where
  -- the integrity check of `ValidateAuth`
  unfoldable pub check_integrity : AuthAttributes → AuthResponse → Handler → Handler
  check_integrity attributes a h =
      let long : Bool = elim a.mechanism [ short_term ↦ false | long_term ↦ true ] in
      let hr =
        if long
        then validate_message_integrity_long crypto attributes.user attributes.realm a.password
            h.msg_in.reader
        else validate_message_integrity_short crypto a.password h.msg_in.reader in
      if succeeded hr
      then record h {
        integrity = record {
          send = true;
          use_long_term = long;
          user = attributes.user;
          realm = attributes.realm;
          password = a.password;
        };
      }
      else with_error error_unauthorized h

  -- how `ValidateAuth` deals with the answer of the provider
  unfoldable pub judge : AuthAttributes → AuthResponse → Handler → Handler
  unfolding check_integrity
  judge attributes a h = elim a.response_type [
    | allow ↦ h
    | allow_conditional ↦ check_integrity attributes a h
    | stale_nonce ↦ with_error error_stale_nonce h
    | reject ↦ with_error error_bad_request h
    | unauthorized ↦ with_error error_unauthorized h
  ]

  -- `CStunRequestHandler::ValidateAuth`
  unfoldable pub validate_auth : Handler → Hresult × Handler
  unfolding judge
  validate_auth h = elim h.auth [
    | none ↦ (s_ok, h)
    | some provider ↦
        let attributes = auth_attributes h.msg_in.reader in
        let (hr, answer) = provider attributes in
        let a = terminated answer in
        let judged = judge attributes a h in
        let challenged = record judged {
          error = record (judged.error) { realm = a.realm; nonce = a.nonce };
        } in
        if not (succeeded hr)
        then (hr, h)
        else if judged.error.code == error_unauthorized || judged.error.code == error_stale_nonce
        then (hr, challenged)
        else (hr, judged)
  ]

module _ (new_bytes : ℕ → Option (List ℕ)) (crypto : Crypto) where
  -- the attributes of a success response in their order
  unfoldable pub build_success_response : Role → Handler → Builder
  unfolding response_builder
  build_success_response role h =
      let origin = origin_of h role in
      let headed =
        then_do (response_builder h) (add_header new_bytes binding_type success_response) in
      let identified = then_do headed (add_transaction_id new_bytes h.transaction_id) in
      let mapped = then_do identified (add_mapped_address new_bytes h.msg_in.addr_remote) in
      let placed =
        if is_ip_address_zero origin
        then mapped
        else then_do mapped (add_response_origin_address new_bytes origin) in
      let other =
        if sends_other h
        then then_do placed (add_other_address new_bytes (at_role h.addresses (other_role h)).addr)
        else placed in
      let xored = then_do other (add_xor_mapped_address new_bytes h.msg_in.addr_remote) in
      let i = h.integrity in
      let signed =
        if not i.send
        then xored
        else if i.use_long_term
        then then_do xored
            (add_message_integrity_long_term new_bytes crypto i.user i.realm i.password)
        else then_do xored (add_message_integrity_short_term new_bytes crypto i.password) in
      then_do signed (fix_length_field new_bytes)

  -- `CStunRequestHandler::ProcessBindingRequest`
  unfoldable pub process_binding_request : Handler → Hresult × Handler
  unfolding build_success_response
  process_binding_request h =
      let (padding_hr, _) = get_padding_attribute_size h.msg_in.reader in
      let (change_hr, change) = get_change_request h.msg_in.reader in
      let changes = succeeded change_hr && (change.change_ip || change.change_port) in
      let role = if changes then output_role change h.msg_in.role else h.msg_in.role in
      let emptied = respond h (response_builder h) in
      let answered = respond h (build_success_response role h) in
      if h.has_response_port && succeeded padding_hr
      then (e_fail, with_error error_bad_request emptied)
      else if changes && (not (has_address h.addresses role) || h.msg_in.connection_oriented)
      then (e_fail, with_error error_bad_request emptied)
      else (s_ok, record answered { msg_out = record (answered.msg_out) { role = role } })

  -- `CStunRequestHandler::ProcessRequestImpl`
  unfoldable pub process_request_impl : Handler → Hresult × Handler
  unfolding honor_response_port validate_auth process_binding_request build_error_response
  process_request_impl h =
      let ported = honor_response_port (noted h) in
      let served =
        stage process_binding_request (stage (validate_auth crypto) (stage check_type ported)) in
      elim h.msg_in.reader.msg_class [
        | request ↦ (
          s_ok,
          (if served.error.code == 0 then served else build_error_response new_bytes served),
        )
        | _ ↦ (e_fail, h)
      ]

  -- `CStunRequestHandler::ProcessRequest` with a reader that is not NULL
  unfoldable pub process_request :
      Option AuthProvider → Option AddressSet → MessageIn → MessageOut → Hresult × MessageOut
  unfolding process_request_impl new_handler
  process_request auth addresses msg_in msg_out = elim msg_out.buffer [
    | none ↦ (e_invalidarg, msg_out)
    | some buffer ↦ elim addresses [
      | none ↦ (e_invalidarg, msg_out)
      | some set ↦
          let prepared : MessageOut = record {
            role = msg_in.role;
            addr_dest = msg_in.addr_remote;
            buffer = some (set_size buffer 0).1;
          } in
          let (hr, h) = process_request_impl (new_handler auth set msg_in prepared) in
          if ltb buffer.allocated max_message_size
          then (e_invalidarg, msg_out)
          else if not (is_body_validated msg_in.reader.state)
          then (e_unexpected, msg_out)
          else (hr, h.msg_out)
    ]
  ]
