-- ===== src/Tests/Servers.antt =====
-- The theorems on whole messages and on the server, at a request with a CHANGE-REQUEST that comes to
-- a server at 192.0.2.9 and 192.0.2.10.
use nat_tester.Base.{ℕ, ◌<◌, ◌≡◌, refl, true, false, [], ◌∷◌, none, some, replicate, arith}
use nat_tester.Hresult.{s_ok}
use nat_tester.StunTypes.{request, success_response, class_code, binding_type}
use nat_tester.Stream.{Buffer, allocated_size}
use nat_tester.Stream.Laws.{contents}
use nat_tester.Address.Laws
use nat_tester.Crypto.{Crypto}
use nat_tester.Builder.{type_field}
use nat_tester.Builder.Message.{message}
use nat_tester.Builder.Drafts.{HasRoom}
use nat_tester.Reader.{body_validated, new_reader, add_bytes}
use nat_tester.Reader.Get.{
  get_change_request, get_mapped_address, get_xor_mapped_address, get_other_address,
}
use nat_tester.Reader.Loop.{Attributes, frames}
use nat_tester.Reader.RoundTrip.{value_found, add_bytes-message}
use nat_tester.Client.{get_message, init_test, filtering, init_results}
use nat_tester.Client.Requests.{get_change_request-get_message}
use nat_tester.Server.Roles.{
  Role, role_pp, role_pa, role_ap, role_aa, AddressSet, TransportAddress, at_role,
}
use nat_tester.Server.Handler.{
  Handler, MessageIn, MessageOut, new_handler, noted, with_error, build_error_response,
  build_success_response,
}
use nat_tester.Server.Expected.{expected_attributes}
use nat_tester.Server.Drafts.{CanAnswer}
use nat_tester.Server.Responses.{build_success_response-message}
use nat_tester.Server.Errors.{sent, error_attributes, build_error_response-message}
use nat_tester.Server.Understood.{mapped_address-understood, other_address-understood}
use nat_tester.Server.Rules.{prepared}
use nat_tester.Server.Stages.{IsServable}
use nat_tester.Tests.{heap, heap-Supplies, cookie_id, request_reader, program}
use nat_tester.Tests.Clients.{host, full_config, dice, stack_bytes, message_buffer}

host-IsValid : (a p : ℕ) → a < 256 → p < 256 → Laws.IsValid (host a p)
host-IsValid a p small_a small_p = record {
  port_length = refl;
  port_bytes = (small_p, (omega arith, tt));
  ip_length = refl;
  ip_bytes = (omega arith, (omega arith, (omega arith, (small_a, tt))));
}

-- hashes of zeros
abbrev pub zero_crypto : Crypto
zero_crypto = record {
  crc32 = λ xs. 0;
  hmac_sha1 = λ key xs. replicate 20 0;
  md5 = λ xs. replicate 16 0;
}

abbrev socket : ℕ → ℕ → TransportAddress
socket a p = record { addr = host a p; valid = true }

abbrev pub four_sockets : AddressSet
four_sockets = record { pp = socket 9 13; pa = socket 9 14; ap = socket 10 13; aa = socket 10 14 }

abbrev pub binding_request : MessageIn
binding_request = record {
  role = role_pp;
  addr_local = host 9 13;
  addr_remote = host 1 7;
  reader = request_reader;
  connection_oriented = false;
}

abbrev pub unanswered : MessageOut
unanswered = record { role = role_pp; addr_dest = host 1 7; buffer = some message_buffer }

pub message_buffer-HasRoom : HasRoom 800 message_buffer
message_buffer-HasRoom = record {
  allocated = refl;
  array = omega arith;
  enough = omega arith;
  small = omega arith;
}

own-IsValid : (role : Role) → Laws.IsValid (at_role four_sockets role).addr
own-IsValid role_pp = host-IsValid 9 13 (omega arith) (omega arith)
own-IsValid role_pa = host-IsValid 9 14 (omega arith) (omega arith)
own-IsValid role_ap = host-IsValid 10 13 (omega arith) (omega arith)
own-IsValid role_aa = host-IsValid 10 14 (omega arith) (omega arith)

cookie_id-IsBytes : Laws.IsBytes cookie_id
cookie_id-IsBytes = (
  omega arith,
  (
    omega arith,
    (
      omega arith,
      (
        omega arith,
        (
          omega arith,
          (
            omega arith,
            (
              omega arith,
              (
                omega arith,
                (
                  omega arith,
                  (
                    omega arith,
                    (
                      omega arith,
                      (omega arith, (omega arith, (omega arith, (omega arith, (omega arith, tt))))),
                    ),
                  ),
                ),
              ),
            ),
          ),
        ),
      ),
    ),
  ),
)

parsed_id : request_reader.transaction_id ≡ cookie_id
unfolding program
parsed_id = refl

pub binding_request-IsServable : IsServable four_sockets binding_request
unfolding program
binding_request-IsServable = record {
  id_length = refl;
  id_bytes = cookie_id-IsBytes;
  remote = host-IsValid 1 7 (omega arith) (omega arith);
  local = host-IsValid 9 13 (omega arith) (omega arith);
  own = own-IsValid;
}

-- a handler that has parsed the request
abbrev handler : Handler
handler =
    noted (new_handler none four_sockets binding_request (prepared binding_request message_buffer))

abbrev emptied : Buffer
emptied = message_buffer

handler-CanAnswer : CanAnswer 800 emptied handler
unfolding program
handler-CanAnswer = record {
  is_there = refl;
  room = message_buffer-HasRoom;
  id_length = refl;
  id_bytes = cookie_id-IsBytes;
  remote = host-IsValid 1 7 (omega arith) (omega arith);
  local = host-IsValid 9 13 (omega arith) (omega arith);
  own = own-IsValid;
}

add_bytes-message_example :
    let attributes : Attributes =
      (0x8022, 65 ∷ 66 ∷ 67 ∷ []) ∷ (3, 0 ∷ 0 ∷ 0 ∷ 6 ∷ []) ∷ (0x8022, 68 ∷ []) ∷ [] in
    let (state, r) =
      add_bytes heap
        (message (type_field 1 (class_code request)) cookie_id (frames attributes))
        new_reader in
    (state ≡ body_validated)
    × (r.msg_type_normalized ≡ 1)
    × (r.msg_class ≡ request)
    × (r.transaction_id ≡ cookie_id)
    × (value_found 0x8022 r ≡ some (68 ∷ []))
add_bytes-message_example =
    add_bytes-message heap 1 request cookie_id
      ((0x8022, 65 ∷ 66 ∷ 67 ∷ []) ∷ (3, 0 ∷ 0 ∷ 0 ∷ 6 ∷ []) ∷ (0x8022, 68 ∷ []) ∷ []) 0x8022
      heap-Supplies
      record {
        good_class = ground arith;
        good_type = omega arith;
        id_length = refl;
        sendable = (
          (omega arith, omega arith),
          ((omega arith, omega arith), ((omega arith, omega arith), tt)),
        );
        few = omega arith;
        short = omega arith;
      }

get_change_request-get_message_example :
    let t = init_test filtering false in
    let (t', b, dest) =
      get_message heap dice stack_bytes (some message_buffer) full_config init_results t in
    let (state, reader) = add_bytes heap (contents b.stream) new_reader in
    (state ≡ body_validated)
    × (reader.msg_class ≡ request)
    × (reader.msg_type_normalized ≡ binding_type)
    × (reader.transaction_id ≡ t'.transaction_id)
    × (get_change_request reader ≡ (s_ok, record { change_ip = true; change_port = true }))
unfolding program
get_change_request-get_message_example =
    get_change_request-get_message heap dice stack_bytes full_config init_results
      (init_test filtering false) 800 message_buffer heap-Supplies message_buffer-HasRoom refl refl

build_success_response-message_example :
    let b = build_success_response heap zero_crypto role_aa handler in
    (contents b.stream
      ≡ message
          (type_field binding_type (class_code success_response))
          handler.transaction_id
          (frames (expected_attributes false cookie_id four_sockets binding_request role_aa)))
    × (allocated_size b.stream ≡ 800)
unfolding program
build_success_response-message_example =
    build_success_response-message heap zero_crypto 800 emptied role_aa handler handler-CanAnswer
      refl

mapped_address-understood_example :
    let (state, r) =
      add_bytes heap
        (contents (build_success_response heap zero_crypto role_aa handler).stream)
        new_reader in
    (state ≡ body_validated)
    × (r.msg_class ≡ success_response)
    × (r.transaction_id ≡ handler.transaction_id)
    × (get_mapped_address (host 0 0) r ≡ (s_ok, host 1 7))
    × (get_xor_mapped_address (host 0 0) r ≡ (s_ok, host 1 7))
unfolding program
mapped_address-understood_example =
    mapped_address-understood heap zero_crypto 800 emptied role_aa handler (host 0 0) heap-Supplies
      handler-CanAnswer refl

other_address-understood_example :
    let (state, r) =
      add_bytes heap
        (contents (build_success_response heap zero_crypto role_aa handler).stream)
        new_reader in
    get_other_address (host 0 0) r ≡ (s_ok, host 10 14)
unfolding program
other_address-understood_example =
    other_address-understood heap zero_crypto 800 emptied role_aa handler (host 0 0) heap-Supplies
      handler-CanAnswer refl

build_error_response-message_example :
    let h = with_error 401 handler in
    let out = (build_error_response heap h).msg_out in
    (sent out
      ≡ message
          (type_field h.error.msg_type (class_code h.error.msg_class))
          h.transaction_id
          (frames (error_attributes h)))
    × (out.role ≡ h.msg_out.role)
    × (out.addr_dest ≡ h.msg_out.addr_dest)
unfolding program
build_error_response-message_example =
    build_error_response-message heap 800 emptied (with_error 401 handler)
      record {
        is_there = refl;
        room = message_buffer-HasRoom;
        id_length = refl;
        id_bytes = cookie_id-IsBytes;
        remote = host-IsValid 1 7 (omega arith) (omega arith);
        local = host-IsValid 9 13 (omega arith) (omega arith);
        own = own-IsValid;
      }
      record {
        low = omega arith;
        high = omega arith;
        known = omega arith;
        nonce = omega arith;
        realm = omega arith;
      }
