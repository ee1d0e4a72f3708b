-- ===== src/Server/Errors.antt =====
-- The error response of `CStunRequestHandler` as it stands in the caller's buffer.
use nat_tester.Base.{
  ℕ, ◌+◌, ◌^◌, ◌≤◌, ◌<◌, ◌≡◌, ◌≢◌, refl, ap, ◌∙◌, Bool, true, false, ◌||◌, List, [], ◌∷◌, ◌++◌,
  Option, none, some, length, take, arith, if◌then◌else◌, ◌==◌, ne→==_false,
}
use nat_tester.StunTypes.{class_code, attribute_error_code, attribute_nonce, attribute_realm}
use nat_tester.Stream.{Buffer, Stream, content}
use nat_tester.Stream.Laws.{contents}
use nat_tester.Builder.{
  Builder, type_field, add_header, add_transaction_id, add_error_code, add_string_attribute,
  fix_length_field, get_result, padding_of,
}
use nat_tester.Builder.Emit.{frame_size, sized, length-sized, Holds}
use nat_tester.Builder.Message.{message, fix_length_field-Emitted}
use nat_tester.Builder.Drafts.{fixed-message}
use nat_tester.Builder.Errors.{error_value, add_error_code-Emitted, add_string_attribute-Emitted}
use nat_tester.Reader.Loop.{Attributes, frames}
use nat_tester.Server.Drafts.{
  IsDraft, value-IsDraft, either-IsDraft, CanAnswer, room_left, started-IsDraft,
}
use nat_tester.Server.Handler.{
  Handler, MessageOut, ErrorCode, response_builder, build_error_response, error_unknown_attribute,
  error_stale_nonce, error_unauthorized,
}

-- the bytes of a response
abbrev pub sent : MessageOut → List ℕ
sent out = elim out.buffer [ none ↦ [] | some b ↦ take b.size (content b) ]

pub sent-contents :
    (h : Handler) (s : Stream) → h.msg_out.buffer ≡ s.buffer → sent h.msg_out ≡ contents s
sent-contents h s e =
    ap (λ b. elim b [ none ↦ [] | some x ↦ take x.size (content x) ]) e ∙ go s.buffer
  where
    go :
        (b : Option Buffer)
        → elim b [ none ↦ [] | some x ↦ take x.size (content x) ]
          ≡ contents (record s { buffer = b })
    go none = refl
    go (some x) = refl

-- the reason phrase
abbrev pub failed : List ℕ
failed = b'F' ∷ b'A' ∷ b'I' ∷ b'L' ∷ b'E' ∷ b'D' ∷ []

-- an attribute for a string that is not empty
abbrev pub with_text : Bool → ℕ → List ℕ → Attributes → Attributes
with_text legacy type [] attributes = attributes
with_text legacy type (c ∷ text) attributes = attributes ++ ((type, sized legacy (c ∷ text)) ∷ [])

-- the attributes of an error response
abbrev pub error_attributes : Handler → Attributes
error_attributes h =
    let e = h.error in
    let coded : Attributes =
      (attribute_error_code, sized h.legacy_mode (error_value e.code failed)) ∷ [] in
    if e.code == error_stale_nonce || e.code == error_unauthorized
    then with_text h.legacy_mode attribute_realm e.realm
        (with_text h.legacy_mode attribute_nonce e.nonce coded)
    else coded

-- an error that the handler reports: not about an unknown attribute, and with short strings
pub record IsError (e : ErrorCode) : Type 0 where
  pub low : 300 ≤ e.code
  pub high : e.code ≤ 600
  pub known : e.code ≢ error_unknown_attribute
  pub nonce : length e.nonce ≤ 64
  pub realm : length e.realm ≤ 64

frame_size-sized :
    (legacy : Bool) (value : List ℕ)
    → frame_size (length (sized legacy value)) ≡ frame_size (length value)
frame_size-sized false value = refl
frame_size-sized true value = ap frame_size (length-sized true value) ∙ whole (length value)
  where
    whole : (n : ℕ) → frame_size (n + padding_of n) ≡ frame_size n
    whole n = ground arith

length-sized_le : (legacy : Bool) (value : List ℕ) → length (sized legacy value) ≤ length value + 3
length-sized_le false value = omega arith
length-sized_le true value = few (length value) (length-sized true value)
  where
    few : (n : ℕ) → length (sized true value) ≡ n + padding_of n → length (sized true value) ≤ n + 3
    few n e = ground arith

frame_size_le : (n : ℕ) → n ≤ 64 → frame_size n ≤ 72
frame_size_le n h = ground arith

module _ (new_bytes : ℕ → Option (List ℕ)) {n : ℕ} {buffer : Buffer} (h : Handler)
    (c : CanAnswer n buffer h) (e : IsError h.error) where
  abbrev Draft : ℕ → Attributes → Builder → Type 0
  Draft k =
      IsDraft n h.transaction_id h.legacy_mode
        (type_field h.error.msg_type (class_code h.error.msg_class)) k

  -- `AddStringAttribute` if the string is not empty
  abbrev add_text : ℕ → List ℕ → Builder → Builder
  add_text type text b = elim text [
    | [] ↦ b
    | c ∷ rest ↦ (add_string_attribute new_bytes type (c ∷ rest) b).1
  ]

  text-Draft :
      (k type : ℕ) (text : List ℕ) (attributes : Attributes) (b : Builder)
      → Draft k attributes b
      → k ≤ 10
      → type < 2 ^ 16
      → length text ≤ 64
      → Draft (k + 3) (with_text h.legacy_mode type text attributes) (add_text type text b)
  text-Draft k type [] attributes b d few t short = record {
    holds = d.holds;
    small = omega (arith, d.small);
    few = omega (arith, d.few);
    sendable = d.sendable;
  }
  text-Draft k type (x ∷ text) attributes b d few t short =
      let size = frame_size_le (length (x ∷ text)) short in
      value-IsDraft _ k 3 attributes type (sized h.legacy_mode (x ∷ text)) b _ d
        (rw (frame_size-sized h.legacy_mode (x ∷ text)) size) (omega arith) t
        (omega (arith, length-sized_le h.legacy_mode (x ∷ text)))
        (add_string_attribute-Emitted new_bytes type x text _ b d.holds (omega arith)
          (omega (arith, size, room_left 3 d c.id_length c.room.enough (omega arith))))

  -- the message with its ERROR-CODE
  abbrev coded : Builder
  coded =
      (add_error_code new_bytes h.error.code failed
        (add_transaction_id new_bytes h.transaction_id
          (add_header new_bytes h.error.msg_type h.error.msg_class (response_builder h)).1).1).1

  coded-Draft :
      Draft 1
        ((attribute_error_code, sized h.legacy_mode (error_value h.error.code failed)) ∷ [])
        coded
  coded-Draft =
      let d = started-IsDraft new_bytes h h.error.msg_type h.error.msg_class c in
      let value = error_value h.error.code failed in
      value-IsDraft _ 0 1 [] attribute_error_code (sized h.legacy_mode value) _ _ d
        (rw (frame_size-sized h.legacy_mode value) (omega arith)) (omega arith) (omega arith)
        (omega (arith, length-sized_le h.legacy_mode value))
        (add_error_code-Emitted new_bytes h.error.code failed _ _ d.holds e.low e.high (omega arith)
          (omega (arith, room_left 1 d c.id_length c.room.enough (omega arith))))

  -- the builder before its length is fixed
  abbrev complete : Builder
  complete =
      if h.error.code == error_stale_nonce || h.error.code == error_unauthorized
      then add_text attribute_realm h.error.realm (add_text attribute_nonce h.error.nonce coded)
      else coded

  complete-Draft : Draft 7 (error_attributes h) complete
  complete-Draft =
      let nonced =
        text-Draft 1 attribute_nonce h.error.nonce _ coded coded-Draft (omega arith) (omega arith)
          e.nonce in
      let challenged =
        text-Draft 4 attribute_realm h.error.realm _ _ nonced (omega arith) (omega arith) e.realm in
      let plain : Draft 7
          ((attribute_error_code, sized h.legacy_mode (error_value h.error.code failed)) ∷ [])
          coded =
        record {
          holds = coded-Draft.holds;
          small = omega (arith, coded-Draft.small);
          few = omega (arith, coded-Draft.few);
          sendable = coded-Draft.sendable;
        } in
      either-IsDraft (h.error.code == error_stale_nonce || h.error.code == error_unauthorized) _ 7 _
        _ _ _ challenged plain

  error_steps :
      (build_error_response new_bytes h).msg_out.buffer
      ≡ (get_result new_bytes (fix_length_field new_bytes complete).1).0.1.stream.buffer
  unfolding build_error_response
  error_steps = rw (ne→==_false h.error.code error_unknown_attribute e.known) refl

  -- the builder at the end: its length has been fixed twice, here and in `GetResult`
  error_result :
      Holds n h.transaction_id h.legacy_mode
        (message
          (type_field h.error.msg_type (class_code h.error.msg_class))
          h.transaction_id
          (frames (error_attributes h)))
        (get_result new_bytes (fix_length_field new_bytes complete).1).0.1
  unfolding get_result
  error_result =
      let d = complete-Draft in
      let (_, once) =
        fixed-message new_bytes _ (error_attributes h) complete d.holds c.id_length
          (omega (arith, d.small)) in
      let b = (fix_length_field new_bytes complete).1 in
      let (ok, twice) =
        fix_length_field-Emitted new_bytes _ _ h.transaction_id (frames (error_attributes h)) b once
          c.id_length (omega (arith, d.small)) in
      rw ok twice

-- If the caller's buffer has room for a message, `BuildErrorResponse` leaves in it a whole message:
-- a header with the type of the request, the class of the handler's error and the exact length, the
-- id of the request, and an ERROR-CODE with the number of the error; for 401 and 438 also the
-- NONCE and the REALM that are not empty. In legacy mode too the padding is of zeros; there it counts
-- in the length of the attribute. Where and through which socket the response is sent
-- stays as it was. The error is not 420, and nonce and realm have at most 64 characters.
pub build_error_response-message :
    (new_bytes : ℕ → Option (List ℕ)) (n : ℕ) (buffer : Buffer) (h : Handler)
    → CanAnswer n buffer h
    → IsError h.error
    → let out = (build_error_response new_bytes h).msg_out in
      (sent out
        ≡ message
            (type_field h.error.msg_type (class_code h.error.msg_class))
            h.transaction_id
            (frames (error_attributes h)))
      × (out.role ≡ h.msg_out.role)
      × (out.addr_dest ≡ h.msg_out.addr_dest)
build_error_response-message new_bytes n buffer h c e =
    let b = (get_result new_bytes (fix_length_field new_bytes (complete new_bytes h c e)).1).0.1 in
    (
      sent-contents (build_error_response new_bytes h) b.stream (error_steps new_bytes h c e)
          ∙ (error_result new_bytes h c e).holds,
      unfold build_error_response in refl,
      unfold build_error_response in refl,
    )
