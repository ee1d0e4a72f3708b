-- ===== src/Tests/Signing.antt =====
-- The theorems on the integrity attribute and on the fingerprint, at a request in the
-- client's buffer.
use nat_tester.Base.{refl, true, ◌≡◌, false, [], ◌∷◌, some, replicate, arith}
use nat_tester.StunTypes.{
  request, class_code, binding_type, attribute_message_integrity, attribute_fingerprint,
  fingerprint_xor,
}
use nat_tester.Builder.{
  Builder, new_builder, attach_stream, add_header, add_transaction_id, type_field,
}
use nat_tester.Word.{htonl, uint32_bytes}
use nat_tester.Builder.Auth.{add_message_integrity_impl, add_fingerprint_attribute}
use nat_tester.Builder.Fingerprint.{add_fingerprint_attribute-message}
use nat_tester.Builder.Emit.{Emitted}
use nat_tester.Builder.Signing.{add_message_integrity_impl-message}
use nat_tester.Builder.Message.{message}
use nat_tester.Builder.Drafts.{Holds-nothing, Drafted, started-Drafted}
use nat_tester.Hresult.{succeeded}
use nat_tester.Stream.Laws.{contents}
use nat_tester.Reader.{body_validated, new_reader, add_bytes}
use nat_tester.Reader.Auth.{is_fingerprint_attribute_valid}
use nat_tester.Reader.Fingerprints.{is_fingerprint_attribute_valid-add_fingerprint_attribute}
use nat_tester.Reader.Loop.{frames}
use nat_tester.Tests.{heap, heap-Supplies, cookie_id, program}
use nat_tester.Tests.Clients.{message_buffer}
use nat_tester.Tests.Servers.{zero_crypto, message_buffer-HasRoom}

-- a request without attributes, in the caller's buffer
abbrev drafted_request : Builder
drafted_request =
    let b = attach_stream (some message_buffer) new_builder in
    (add_transaction_id heap cookie_id (add_header heap binding_type request b).1).1

drafted_request-Drafted :
    Drafted 800 cookie_id false (type_field binding_type (class_code request)) [] drafted_request
unfolding program
drafted_request-Drafted =
    started-Drafted heap binding_type request new_builder.transaction_id
      (attach_stream (some message_buffer) new_builder)
      (Holds-nothing 800 false message_buffer message_buffer-HasRoom) (omega arith) refl

add_message_integrity_impl-message_example :
    Emitted 800 cookie_id false
      (message
        (type_field binding_type (class_code request))
        cookie_id
        (frames ((attribute_message_integrity, replicate 20 0) ∷ [])))
      (add_message_integrity_impl heap zero_crypto (1 ∷ 2 ∷ []) drafted_request)
unfolding program
add_message_integrity_impl-message_example =
    add_message_integrity_impl-message heap zero_crypto
      (type_field binding_type (class_code request)) 1 (2 ∷ []) [] drafted_request
      drafted_request-Drafted refl (omega arith) (omega arith) refl

add_fingerprint_attribute-message_example :
    Emitted 800 cookie_id false
      (message
        (type_field binding_type (class_code request))
        cookie_id
        (frames ((attribute_fingerprint, uint32_bytes (htonl fingerprint_xor)) ∷ [])))
      (add_fingerprint_attribute heap zero_crypto drafted_request)
unfolding program
add_fingerprint_attribute-message_example =
    add_fingerprint_attribute-message heap zero_crypto
      (type_field binding_type (class_code request)) [] drafted_request drafted_request-Drafted refl
      (omega arith) (omega arith)

is_fingerprint_attribute_valid-add_fingerprint_attribute_example :
    let (hr, b) = add_fingerprint_attribute heap zero_crypto drafted_request in
    let (state, r) = add_bytes heap (contents b.stream) new_reader in
    (succeeded hr ≡ true)
    × (state ≡ body_validated)
    × (is_fingerprint_attribute_valid zero_crypto r ≡ true)
unfolding program
is_fingerprint_attribute_valid-add_fingerprint_attribute_example =
    is_fingerprint_attribute_valid-add_fingerprint_attribute heap heap zero_crypto binding_type
      request cookie_id [] 800 false drafted_request drafted_request-Drafted
      record {
        good_class = ground arith;
        good_type = omega arith;
        id_length = refl;
        sendable = tt;
        few = omega arith;
        short = omega arith;
      }
      heap-Supplies (omega arith) (omega arith) (omega arith) (omega arith)
