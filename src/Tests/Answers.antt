-- ===== src/Tests/Answers.antt =====
-- The theorems on the way of a request through the server, at the request and the server of
-- Tests/Servers.
use nat_tester.Base.{◌≡◌, inl, inr, refl, true, false, [], none, some, replicate, arith}
use nat_tester.Hresult.{s_ok, succeeded}
use nat_tester.Stream.{Buffer}
use nat_tester.Server.Roles.{role_ap}
use nat_tester.Server.Auth.{AuthProvider, reject, short_term}
use nat_tester.Server.Handler.{MessageOut, process_request}
use nat_tester.Server.Expected.{is_answerable}
use nat_tester.Server.Open.{IsAnswer, process_request-open}
use nat_tester.Server.Errors.{sent}
use nat_tester.Server.Rules.{process_request-refused}
use nat_tester.Server.Sockets.{FromSocket, process_request-Sockets}
use nat_tester.Server.Access.{Allowed}
use nat_tester.Server.Answers.{IsErrorResponse, process_request-denied}
use nat_tester.Tests.{heap, request_reader, program}
use nat_tester.Tests.Clients.{host, message_buffer}
use nat_tester.Tests.Servers.{
  zero_crypto, four_sockets, binding_request, unanswered, message_buffer-HasRoom,
  binding_request-IsServable,
}

answered :
    succeeded
      (process_request heap zero_crypto none (some four_sockets) binding_request unanswered).0
    ≡ true
unfolding program
answered = refl

-- The request asks for another IP address, and the response goes out from there.
answered_from :
    (process_request heap zero_crypto none (some four_sockets) binding_request unanswered).1.role
    ≡ role_ap
unfolding program
answered_from = refl

-- a buffer that is one byte too short
abbrev short_buffer : Buffer
short_buffer = record { bytes = some (replicate 801 0); size = 0; allocated = 799 }

process_request-refused_example :
    let msg_out : MessageOut = record unanswered { buffer = some short_buffer } in
    let (hr, out) =
      process_request heap zero_crypto none (some four_sockets) binding_request msg_out in
    (succeeded hr ≡ false) × (out ≡ msg_out)
unfolding program
process_request-refused_example =
    process_request-refused heap zero_crypto none (some four_sockets) binding_request
      (record unanswered { buffer = some short_buffer })
      (inr (inr (inl (short_buffer, refl, omega arith))))

process_request-Sockets_example :
    let (hr, out) =
      process_request heap zero_crypto none (some four_sockets) binding_request unanswered in
    FromSocket four_sockets binding_request out.role × (out.addr_dest ≡ host 1 7)
unfolding program
process_request-Sockets_example =
    process_request-Sockets heap zero_crypto none four_sockets binding_request unanswered
      message_buffer refl answered

-- a provider that rejects everyone
abbrev rejecting : AuthProvider
rejecting attributes = (
  s_ok,
  record { response_type = reject; mechanism = short_term; password = []; realm = []; nonce = [] },
)

rejected : ¬ Allowed zero_crypto (some rejecting) request_reader
unfolding program
rejected a = ground arith

answered_rejection :
    succeeded
      (process_request heap zero_crypto
        (some rejecting)
        (some four_sockets)
        binding_request
        unanswered).0
    ≡ true
unfolding program
answered_rejection = refl

process_request-denied_example : IsErrorResponse request_reader (
    sent
      (process_request heap zero_crypto
        (some rejecting)
        (some four_sockets)
        binding_request
        unanswered).1)
unfolding program
process_request-denied_example =
    process_request-denied heap zero_crypto 800 (some rejecting) four_sockets binding_request
      unanswered message_buffer refl message_buffer-HasRoom binding_request-IsServable rejected
      answered_rejection

-- the request asks for the other IP address
can_be_answered : is_answerable four_sockets binding_request ≡ true
unfolding program
can_be_answered = refl

process_request-open_example :
    let (hr, out) =
      process_request heap zero_crypto none (some four_sockets) binding_request unanswered in
    (succeeded hr ≡ true) × IsAnswer four_sockets binding_request out
unfolding program
process_request-open_example =
    process_request-open heap zero_crypto 800 four_sockets binding_request unanswered message_buffer
      refl message_buffer-HasRoom binding_request-IsServable refl refl
