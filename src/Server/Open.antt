-- ===== src/Server/Open.antt =====
-- What `CStunRequestHandler::ProcessRequest` answers without an authentication provider.
use nat_tester.Base.{
  ℕ, ◌≡◌, ◌⊎◌, inl, inr, refl, sym, ap, ap₂, ◌∙◌, Bool, true, false, not, List, [], ◌∷◌, Option,
  none, some, arith, if◌then◌else◌, ◌==◌, Bool-cases, subst,
}
use nat_tester.Hresult.{succeeded}
use nat_tester.StunTypes.{
  request, attribute_error_code, success_response, failure_response, class_code, binding_type,
}
use nat_tester.Stream.{Buffer}
use nat_tester.Crypto.{Crypto}
use nat_tester.Reader.{Reader, body_validated}
use nat_tester.Builder.{type_field}
use nat_tester.Builder.Emit.{sized}
use nat_tester.Builder.Errors.{error_value}
use nat_tester.Builder.Message.{message}
use nat_tester.Builder.Drafts.{HasRoom}
use nat_tester.Reader.Loop.{frames}
use nat_tester.Server.Roles.{AddressSet}
use nat_tester.Server.Handler.{
  Handler, MessageIn, MessageOut, stage, process_binding_request, build_error_response,
  build_success_response, process_request,
}
use nat_tester.Server.Expected.{expected_attributes, requested_port, socket_expected, is_answerable}
use nat_tester.Server.Responses.{build_success_response-message}
use nat_tester.Server.Errors.{failed, sent, sent-contents, error_attributes}
use nat_tester.Server.Rules.{finished, process_request-Answered, process_request-accepted}
use nat_tester.Server.Ready.{Ready, bound, emptied-Ready, with_error-Ready, stage_skips}
use nat_tester.Server.Stages.{IsServable, Ready-CanAnswer, judged, judged-Ready}
use nat_tester.Server.Answers.{finished-bytes}
use nat_tester.Server.Binding.{
  admitted, refuses, is_answerable-admitted, Judged, judged-Judged, emptied, built,
  binding_stage-exact,
}

-- the bytes of the success response to a request
abbrev pub success_message : AddressSet → MessageIn → List ℕ
success_message set msg_in =
    let reader = msg_in.reader in
    message (type_field binding_type (class_code success_response)) reader.transaction_id (
      frames (
        expected_attributes reader.message_is_legacy_format reader.transaction_id set msg_in
          (socket_expected msg_in)))

-- the bytes of the error response 400 to a request
abbrev pub bad_request : Reader → List ℕ
bad_request reader =
    message (type_field reader.msg_type_normalized (class_code failure_response))
      reader.transaction_id
      (frames (
        (attribute_error_code, sized reader.message_is_legacy_format (error_value 400 failed))
        ∷ []))

-- A request that can be answered gets the success response, from the socket that it asks for; any
-- other gets the error response 400, from the socket that it came in on.
abbrev pub IsAnswer : AddressSet → MessageIn → MessageOut → Type 0
IsAnswer set msg_in out =
    ((is_answerable set msg_in ≡ true)
      × (sent out ≡ success_message set msg_in)
      × (out.role ≡ socket_expected msg_in))
    ⊎ ((is_answerable set msg_in ≡ false)
        × (sent out ≡ bad_request msg_in.reader)
        × (out.role ≡ msg_in.role))

module _ (new_bytes : ℕ → Option (List ℕ)) (crypto : Crypto) where
  -- an error 400 is answered as expected
  answered_400 :
      (n : ℕ) (set : AddressSet) (msg_in : MessageIn) (h : Handler)
      → IsServable set msg_in
      → Ready n set msg_in h
      → h.error.code ≡ 400
      → h.msg_out.role ≡ msg_in.role
      → is_answerable set msg_in ≡ false
      → IsAnswer set msg_in (finished new_bytes crypto h).msg_out
  answered_400 n set msg_in h s r code role not_answerable =
      let (bytes, same, _, _) =
        finished-bytes new_bytes crypto n set msg_in h s r (omega (arith, code)) in
      let field = type_field msg_in.reader.msg_type_normalized (class_code failure_response) in
      let attributes : error_attributes h
          ≡ (
            attribute_error_code,
            sized msg_in.reader.message_is_legacy_format (error_value 400 failed),
          )
            ∷ [] =
        rw (code, r.legacy) refl in
      inr (
        not_answerable,
        bytes ∙ ap (λ xs. message field msg_in.reader.transaction_id (frames xs)) attributes,
        same ∙ role,
      )

  -- the response that was built is the one that is expected
  answered_bound :
      (n : ℕ) (set : AddressSet) (msg_in : MessageIn) (h : Handler)
      → IsServable set msg_in
      → Ready n set msg_in h
      → h.error.code ≡ 0
      → h.auth ≡ none
      → is_answerable set msg_in ≡ true
      → IsAnswer set msg_in
          (finished new_bytes crypto (bound new_bytes crypto (socket_expected h.msg_in) h)).msg_out
  answered_bound n set msg_in h s r fine unguarded answerable =
      let role = socket_expected h.msg_in in
      let done = bound new_bytes crypto role h in
      let (bytes, _) =
        build_success_response-message new_bytes crypto n r.buffer role h (Ready-CanAnswer r s)
          (r.unsigned unguarded) in
      let kept : finished new_bytes crypto done ≡ done =
        ap (λ k. if k == 0 then done else build_error_response new_bytes done) fine in
      let field = type_field binding_type (class_code success_response) in
      inl (
        answerable,
        ap (λ x. sent x.msg_out) kept
            ∙ sent-contents done (build_success_response new_bytes crypto role h).stream refl
            ∙ bytes
            ∙ ap
                (λ m. message field h.transaction_id (
                  frames (
                    expected_attributes h.legacy_mode h.transaction_id h.addresses m
                      (socket_expected m))))
                r.request_of
            ∙ ap
                (λ set. message field h.transaction_id (
                  frames (
                    expected_attributes h.legacy_mode h.transaction_id set msg_in
                      (socket_expected msg_in))))
                r.addresses_of
            ∙ ap₂
                (λ id legacy.
                  message field id
                    (frames (expected_attributes legacy id set msg_in (socket_expected msg_in))))
                r.id r.legacy,
        ap (λ x. x.msg_out.role) kept ∙ ap socket_expected r.request_of,
      )

  -- the last stage, and the response to what it leaves
  answered :
      (n : ℕ) (set : AddressSet) (msg_in : MessageIn) (h : Handler)
      → IsServable set msg_in
      → Ready n set msg_in h
      → Judged msg_in h
      → IsAnswer set msg_in
          (finished new_bytes crypto (stage (process_binding_request new_bytes crypto) h)).msg_out
  answered n set msg_in h s r j =
      let e = is_answerable-admitted set msg_in in
      let IsAnswered : Handler → Type 0 =
        λ x. IsAnswer set msg_in (finished new_bytes crypto x).msg_out in
      elim (Bool-cases (admitted msg_in)) [
        | inr early ↦
            let code : h.error.code ≡ 400 = j.code ∙ rw early refl in
            let skipped =
              stage_skips (process_binding_request new_bytes crypto) h (ap (λ k. k == 0) code) in
            subst IsAnswered (sym skipped)
              (answered_400 n set msg_in h s r code j.role (e ∙ rw early refl))
        | inl fine ↦
            let code : h.error.code ≡ 0 = j.code ∙ rw fine refl in
            let same : refuses h.addresses h.msg_in h.has_response_port
                ≡ refuses set msg_in (not (requested_port msg_in == 0)) =
              ap₂ (λ a m. refuses a m h.has_response_port) r.addresses_of r.request_of
              ∙ ap (refuses set msg_in) j.ported in
            let run = binding_stage-exact new_bytes crypto h code in
            let left : Bool → Handler = λ x. if x then emptied h else built new_bytes crypto h in
            elim (Bool-cases (refuses set msg_in (not (requested_port msg_in == 0)))) [
              | inl refused ↦ subst IsAnswered (sym (run ∙ ap left (same ∙ refused))) (
                  answered_400 n set msg_in (emptied h) s
                    (with_error-Ready n 400 set msg_in _ (omega arith) (omega arith) (omega arith)
                      (emptied-Ready n set msg_in h r))
                    refl j.role (e ∙ rw (fine, refused) refl))
              | inr allowed ↦
                  subst IsAnswered (sym (run ∙ ap left (same ∙ allowed)))
                    (answered_bound n set msg_in h s r code j.auth (e ∙ rw (fine, allowed) refl))
            ]
      ]

-- A server without an authentication provider answers every request that was parsed to its end.
-- To a binding request that can be answered (which over a connection asks for neither a RESPONSE-PORT
-- nor a change of socket, has no PADDING if it has a RESPONSE-PORT that is not zero, and asks for a
-- socket that the server has) the answer is the success response, with the id of the request,
-- MAPPED-ADDRESS, RESPONSE-ORIGIN and OTHER-ADDRESS where the sockets have them, and
-- XOR-MAPPED-ADDRESS, from the socket that the request asks for. To any other request it is the error
-- response 400, from the socket that the request came in on. The caller's buffer has room for a
-- message, and the addresses and the id are well-formed.
pub process_request-open :
    (new_bytes : ℕ → Option (List ℕ)) (crypto : Crypto) (n : ℕ) (set : AddressSet)
    (msg_in : MessageIn) (msg_out : MessageOut) (buffer : Buffer)
    → msg_out.buffer ≡ some buffer
    → HasRoom n buffer
    → IsServable set msg_in
    → msg_in.reader.state ≡ body_validated
    → msg_in.reader.msg_class ≡ request
    → let (hr, out) = process_request new_bytes crypto none (some set) msg_in msg_out in
      (succeeded hr ≡ true) × IsAnswer set msg_in out
process_request-open new_bytes crypto n set msg_in msg_out buffer there room s parsed class =
    let ok =
      process_request-accepted new_bytes crypto none set msg_in msg_out buffer there
        (omega (arith, room.allocated, room.enough)) parsed class in
    let a = process_request-Answered new_bytes crypto none set msg_in msg_out buffer there ok in
    (
      ok,
      subst (IsAnswer set msg_in) (sym a.by) (
          answered new_bytes crypto n set msg_in (judged crypto none set msg_in buffer) s
            (judged-Ready crypto n none set msg_in buffer room)
            (judged-Judged crypto set msg_in buffer)),
    )
