-- ===== src/Tests.antt =====
-- Runs of the modelled code on small inputs: a request is built, parsed and answered.
pub mod Messages
pub mod Tables
pub mod Clients
pub mod Servers
pub mod Answers
pub mod Signing
use nat_tester.Base.{
  ℕ, ◌+◌, Bool, true, false, List, [], ◌∷◌, Option, none, some, replicate, length-replicate, take,
  drop, ◌≡◌, refl, length,
}
use nat_tester.Hresult.{Run, Hresult, s_ok, e_still_waiting, succeeded, ◌▷◌}
use nat_tester.Word.{htons, htonl}
use nat_tester.StunTypes.{ChangeRequest, TransactionId}
use nat_tester.Stream
use nat_tester.Stream.{Stream, Buffer}
use nat_tester.Stream.Laws.{contents}
use nat_tester.Stream.Growth.{Supplies}
use nat_tester.FastHash
use nat_tester.Builder
use nat_tester.Reader
use nat_tester.Reader.Get
use nat_tester.Address
use nat_tester.Client
use nat_tester.Client.Logic
use nat_tester.Builder.Auth.{
  add_fingerprint_attribute, add_message_integrity_impl, add_message_integrity_short_term,
  add_message_integrity_long_term,
}
use nat_tester.Reader.Auth.{
  read_chunks, covered_bytes, is_fingerprint_attribute_valid, validate_message_integrity,
  validate_message_integrity_short, validate_message_integrity_long,
}
use nat_tester.Server.Auth.{auth_attributes, terminated}
use nat_tester.Server.Roles
use nat_tester.Server.Handler
use nat_tester.Address.{Address, of_ip_port}
use nat_tester.Builder.{
  Builder, new_builder, add_binding_request_header, add_transaction_id, add_change_request,
  fix_length_field,
}
use nat_tester.Reader.{Reader, ParseState, body_validated, add_bytes, new_reader}
use nat_tester.Reader.Get.{get_change_request}

-- an allocator that always has memory, filled with 0xcc
abbrev pub heap : ℕ → Option (List ℕ)
heap n = some (replicate n 0xcc)

abbrev pub cookie_id : TransactionId
cookie_id = 0x21 ∷ 0x12 ∷ 0xA4 ∷ 0x42 ∷ 1 ∷ 2 ∷ 3 ∷ 4 ∷ 5 ∷ 6 ∷ 7 ∷ 8 ∷ 9 ∷ 10 ∷ 11 ∷ 12 ∷ []

abbrev request_run : Run Builder
request_run =
    add_binding_request_header heap new_builder
    ▷ add_transaction_id heap cookie_id
    ▷ add_change_request heap (record { change_ip = true; change_port = false })
    ▷ fix_length_field heap

-- a binding request with a CHANGE-REQUEST
abbrev pub request_message : List ℕ
request_message =
    0 ∷ 1 ∷ 0 ∷ 8 ∷ 0x21 ∷ 0x12 ∷ 0xA4 ∷ 0x42 ∷ 1 ∷ 2 ∷ 3 ∷ 4 ∷ 5 ∷ 6 ∷ 7 ∷ 8 ∷ 9 ∷ 10 ∷ 11 ∷ 12 ∷ 0
    ∷ 3 ∷ 0 ∷ 4 ∷ 0 ∷ 0 ∷ 0 ∷ 4 ∷ []

program : Unit {0}
unfolding Stream.null_buffer Stream.is_valid Stream.set_size Stream.init_no_alloc Stream.reset
    Stream.of_buffer Stream.attach Stream.read Stream.read_uint8 Stream.read_uint16
    Stream.read_uint32 Stream.is_eof Stream.set_no_grow Stream.seek_direct Stream.seek_relative
    Stream.write_room Stream.init_with_allocation Stream.init_with_alloc_and_copy Stream.grow
    Stream.set_size_hint Stream.write FastHash.reindex_chain FastHash.reset FastHash.fast_hash
    FastHash.find_from FastHash.find FastHash.lookup FastHash.exists FastHash.update_index_with_add
    FastHash.insert FastHash.update_index_with_remove FastHash.remove FastHash.reindex
    FastHash.item_by_index FastHash.lookup_by_index FastHash.lookup_value_by_index
    Builder.new_builder Builder.set_legacy_mode Builder.attach_stream Builder.type_field
    Builder.random_id_loop Builder.random_transaction_id Builder.add_header
    Builder.add_binding_request_header Builder.add_binding_response_header
    Builder.add_transaction_id Builder.add_random_transaction_id Builder.add_attribute_header
    Builder.add_attribute Builder.add_string_attribute Builder.add_user_name Builder.add_nonce
    Builder.add_realm Builder.add_error_code Builder.add_unknown_attributes
    Builder.add_mapped_address_impl Builder.add_xor_mapped_address Builder.add_mapped_address
    Builder.add_response_origin_address Builder.add_other_address Builder.add_response_port
    Builder.padding_loop Builder.add_padding_attribute Builder.add_change_request
    Builder.fix_length_field Builder.get_result Reader.new_reader Reader.set_allow_legacy_format
    Reader.how_many_bytes_needed Reader.class_of Reader.normalized_type Reader.check_header
    Reader.read_header Reader.note_attribute Reader.skip_value Reader.take_attribute
    Reader.body_round Reader.body_loop Reader.read_body Reader.try_header Reader.try_body
    Reader.reject_excess Reader.add_some_bytes Reader.add_bytes Get.has_fingerprint_attribute
    Get.has_message_integrity_attribute Get.get_attribute_by_type Get.get_attribute_by_index
    Get.get_attribute_count Get.get_response_port Get.get_change_request
    Get.get_padding_attribute_size Get.get_error_code Get.parse_mapped_address
    Get.parse_xor_mapped_address Get.is_transaction_id_valid Get.get_address_helper
    Get.get_mapped_address Get.get_other_address Get.get_xor_mapped_address
    Get.get_response_origin_address Get.get_string_attribute_by_type Address.zero_address
    Address.of_ip_port Address.of_sockaddr_in6 Address.get_port_nbo Address.get_port
    Address.set_port Address.get_ip_length Address.get_ip_impl Address.get_ip Address.get_ip_nbo
    Address.apply_stun_xor_map Address.is_same_ip Address.is_same_ip_and_port
    Address.is_ip_address_zero Client.init_results Client.init_test Client.pre_run_check
    Client.is_ready_to_run Client.notify_timeout Client.digest_response Client.start_binding_request
    Client.get_message Client.basic_reader_validation Client.process_response Logic.new_logic
    Logic.initialize Logic.send_request Logic.checked_round Logic.pre_checked Logic.round
    Logic.message_loop Logic.get_next_message Logic.process_message htons htonl
    add_fingerprint_attribute add_message_integrity_impl add_message_integrity_short_term
    add_message_integrity_long_term read_chunks covered_bytes is_fingerprint_attribute_valid
    validate_message_integrity validate_message_integrity_short validate_message_integrity_long
    auth_attributes terminated Roles.is_ip_address_zero_or_invalid Handler.new_handler
    Handler.response_builder Handler.origin_of Handler.sends_other Handler.build_error_response
    Handler.build_success_response Handler.process_binding_request Handler.check_integrity
    Handler.judge Handler.validate_auth Handler.honor_response_port Handler.process_request_impl
    Handler.process_request
program = tt

request_built : contents request_run.1.stream ≡ request_message
unfolding program
request_built = refl

-- `AddBytes` accepts it in two pieces, and the flags are read back.
abbrev pub request_reader : Reader
request_reader = (add_bytes heap request_message new_reader).1

request_parsed :
    get_change_request request_reader ≡ (s_ok, record { change_ip = true; change_port = false })
unfolding program
request_parsed = refl

in_pieces :
    (add_bytes heap
      (drop 5 request_message)
      (add_bytes heap (take 5 request_message) new_reader).1).0
    ≡ body_validated
unfolding program
in_pieces = refl

pub heap-Supplies : Supplies heap
heap-Supplies n = (replicate n 0xcc, refl, length-replicate n 0xcc)
