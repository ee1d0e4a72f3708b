-- ===== src/Server/Answers.antt =====
-- The bytes that `CStunRequestHandler::ProcessRequest` hands back.
use nat_tester.Base.{
  ℕ, ◌≤◌, ◌≡◌, ◌≢◌, inl, inr, refl, sym, ap, ap₂, subst, ◌∙◌, Bool, true, false, ◌||◌, List, [],
  ◌∷◌, Option, some, arith, if◌then◌else◌, ◌==◌, ne→==_false,
}
use nat_tester.Hresult.{succeeded}
use nat_tester.StunTypes.{
  attribute_error_code, attribute_nonce, attribute_realm, MessageClass, failure_response,
  class_code,
}
use nat_tester.Stream.{Buffer}
use nat_tester.Crypto.{Crypto}
use nat_tester.Reader.{Reader}
use nat_tester.Builder.{type_field}
use nat_tester.Builder.Message.{message}
use nat_tester.Builder.Drafts.{HasRoom}
use nat_tester.Reader.Loop.{Attributes, frames}
use nat_tester.Server.Roles.{AddressSet}
use nat_tester.Server.Auth.{AuthProvider}
use nat_tester.Server.Handler.{
  error_stale_nonce, error_unauthorized, Handler, MessageIn, MessageOut, new_handler,
  build_error_response, process_request,
}
use nat_tester.Builder.Emit.{sized}
use nat_tester.Builder.Errors.{error_value}
use nat_tester.Server.Errors.{
  with_text, failed, sent, error_attributes, IsError, build_error_response-message,
}
use nat_tester.Server.Rules.{prepared, served, finished, process_request-Answered}
use nat_tester.Server.Access.{Allowed, served-Allowed}
use nat_tester.Server.Ready.{Ready}
use nat_tester.Server.Stages.{binding_stage, IsServable, Ready-CanAnswer, judged, judged-Ready}

-- The bytes are those of an error response to the request.
abbrev pub IsErrorResponse : Reader → List ℕ → Type 0
IsErrorResponse reader bytes =
    (code : ℕ) × (rest : Attributes) × (300 ≤ code)
    × (code ≤ 450)
    × (bytes
        ≡ message (type_field reader.msg_type_normalized (class_code failure_response))
            reader.transaction_id
            (frames (
              (
                attribute_error_code,
                sized reader.message_is_legacy_format (error_value code failed),
              )
              ∷ rest)))

with_text-head :
    (legacy : Bool) (type : ℕ) (text : List ℕ) (a : ℕ × List ℕ) (attributes : Attributes)
    → (rest : Attributes) × (with_text legacy type text (a ∷ attributes) ≡ a ∷ rest)
with_text-head legacy type [] a attributes = (attributes, refl)
with_text-head legacy type (c ∷ text) a attributes = (_, refl)

error_attributes-head :
    (h : Handler)
    → (rest : Attributes) × (error_attributes h
        ≡ (attribute_error_code, sized h.legacy_mode (error_value h.error.code failed)) ∷ rest)
error_attributes-head h =
    go (h.error.code == error_stale_nonce || h.error.code == error_unauthorized)
  where
    a : ℕ × List ℕ
    a = (attribute_error_code, sized h.legacy_mode (error_value h.error.code failed))

    go :
        (b : Bool)
        → (rest : Attributes) × ((if b
              then with_text h.legacy_mode attribute_realm h.error.realm
                  (with_text h.legacy_mode attribute_nonce h.error.nonce (a ∷ []))
              else a ∷ [])
            ≡ a ∷ rest)
    go false = ([], refl)
    go true =
        let (once, e) = with_text-head h.legacy_mode attribute_nonce h.error.nonce a [] in
        let (twice, f) = with_text-head h.legacy_mode attribute_realm h.error.realm a once in
        (twice, ap (with_text h.legacy_mode attribute_realm h.error.realm) e ∙ f)

-- A handler with an error leaves a whole error response to the request, and the socket as it was.
pub finished-bytes :
    (new_bytes : ℕ → Option (List ℕ)) (crypto : Crypto) (n : ℕ) (set : AddressSet)
    (msg_in : MessageIn) (h : Handler)
    → IsServable set msg_in
    → Ready n set msg_in h
    → h.error.code ≢ 0
    → let out = (finished new_bytes crypto h).msg_out in
      (sent out
        ≡ message
            (type_field msg_in.reader.msg_type_normalized (class_code failure_response))
            msg_in.reader.transaction_id
            (frames (error_attributes h)))
      × (out.role ≡ h.msg_out.role)
      × (300 ≤ h.error.code)
      × (h.error.code ≤ 450)
finished-bytes new_bytes crypto n set msg_in h s r wrong = elim r.code [
  | inl zero_code ↦ absurd (wrong zero_code)
  | inr (low, high, known) ↦
      let e : IsError h.error = record {
        low = low;
        high = omega arith;
        known = known;
        nonce = r.nonce;
        realm = r.realm;
      } in
      let (bytes, role, _) =
        build_error_response-message new_bytes n r.buffer h (Ready-CanAnswer r s) e in
      let same : finished new_bytes crypto h ≡ build_error_response new_bytes h =
        ap (λ b. if b then h else build_error_response new_bytes h)
          (ne→==_false h.error.code 0 wrong) in
      let field : ℕ → MessageClass → ℕ = λ t k. type_field t (class_code k) in
      let body = frames (error_attributes h) in
      (
        ap (λ x. sent x.msg_out) same
            ∙ bytes
            ∙ ap₂ (λ t k. message (field t k) h.transaction_id body) r.msg_type r.msg_class
            ∙ ap (λ i. message (field msg_in.reader.msg_type_normalized failure_response) i body)
                r.id,
        ap (λ x. x.msg_out.role) same ∙ role,
        low,
        high,
      )
]

-- So it is an error response.
finished-error :
    (new_bytes : ℕ → Option (List ℕ)) (crypto : Crypto) (n : ℕ) (set : AddressSet)
    (msg_in : MessageIn) (h : Handler)
    → IsServable set msg_in
    → Ready n set msg_in h
    → h.error.code ≢ 0
    → IsErrorResponse msg_in.reader (sent (finished new_bytes crypto h).msg_out)
finished-error new_bytes crypto n set msg_in h s r wrong =
    let (bytes, _, low, high) = finished-bytes new_bytes crypto n set msg_in h s r wrong in
    let (rest, head) = error_attributes-head h in
    let field = type_field msg_in.reader.msg_type_normalized (class_code failure_response) in
    let id = msg_in.reader.transaction_id in
    (
      h.error.code,
      rest,
      low,
      high,
      bytes
          ∙ ap (λ xs. message field id (frames xs)) head
          ∙ ap
              (λ l.
                message field id (
                  frames
                    ((attribute_error_code, sized l (error_value h.error.code failed)) ∷ rest)))
              r.legacy,
    )

-- Unless the request is allowed, by the lack of an authentication provider, by the provider's
-- answer, or by its message integrity where the answer asks for it, what `ProcessRequest` answers
-- is an error response: a whole message of that class with the type and the transaction id of the
-- request, which begins with an ERROR-CODE of 300 or more. The caller's buffer has room for a
-- message, and the addresses and the id are well-formed.
pub process_request-denied :
    (new_bytes : ℕ → Option (List ℕ)) (crypto : Crypto) (n : ℕ) (auth : Option AuthProvider)
    (set : AddressSet) (msg_in : MessageIn) (msg_out : MessageOut) (buffer : Buffer)
    → msg_out.buffer ≡ some buffer
    → HasRoom n buffer
    → IsServable set msg_in
    → ¬ Allowed crypto auth msg_in.reader
    → succeeded (process_request new_bytes crypto auth (some set) msg_in msg_out).0 ≡ true
    → IsErrorResponse msg_in.reader
        (sent (process_request new_bytes crypto auth (some set) msg_in msg_out).1)
process_request-denied new_bytes crypto n auth set msg_in msg_out buffer there room s denied ok =
    let a = process_request-Answered new_bytes crypto auth set msg_in msg_out buffer there ok in
    let out = served new_bytes crypto (new_handler auth set msg_in (prepared msg_in buffer)) in
    let r = judged-Ready crypto n auth set msg_in buffer room in
    let wrong : out.error.code ≢ 0 =
      λ z. denied (served-Allowed new_bytes crypto auth set msg_in buffer z) in
    elim (binding_stage new_bytes crypto n set msg_in (judged crypto auth set msg_in buffer) r) [
      | inl (_, ready) ↦
          subst (λ x. IsErrorResponse msg_in.reader (sent x)) (sym a.by)
            (finished-error new_bytes crypto n set msg_in out s ready wrong)
      | inr (zero_code, (role, e)) ↦ absurd (wrong (ap (λ x. x.error.code) e ∙ zero_code))
    ]
