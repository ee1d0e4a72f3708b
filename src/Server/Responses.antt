-- ===== src/Server/Responses.antt =====
-- The success response of `CStunRequestHandler` as it stands in the caller's buffer.
use nat_tester.Base.{
  ℕ, ◌+◌, ◌≤◌, ◌≡◌, refl, ap, ◌∙◌, Bool, true, false, not, ◌&&◌, List, [], ◌∷◌, ◌++◌, Option, arith,
  if◌then◌else◌,
}
use nat_tester.StunTypes.{success_response, class_code, binding_type, attribute_mapped_address}
use nat_tester.Stream.{Buffer, allocated_size}
use nat_tester.Stream.Laws.{contents}
use nat_tester.Address.{apply_stun_xor_map, is_ip_address_zero}
use nat_tester.Address.Laws.{IsBytes, apply_stun_xor_map-IsValid}
use nat_tester.Address.Laws
use nat_tester.Crypto.{Crypto}
use nat_tester.Builder.{
  Builder, type_field, add_header, add_transaction_id, add_mapped_address,
  add_response_origin_address, add_other_address, add_xor_mapped_address, fix_length_field,
}
use nat_tester.Builder.Message.{message}
use nat_tester.Builder.Addresses.{
  address_value, origin_type, other_type, xor_type, add_mapped_address-Emitted,
  add_response_origin_address-Emitted, add_other_address-Emitted, add_xor_mapped_address-Emitted,
}
use nat_tester.Builder.Auth.{add_message_integrity_long_term, add_message_integrity_short_term}
use nat_tester.Server.Drafts.{
  IsDraft, address-IsDraft, more-IsDraft, either-IsDraft, origin_type-lt, CanAnswer, room_left,
  started-IsDraft,
}
use nat_tester.Builder.Drafts.{fixed-message}
use nat_tester.Reader.Loop.{Attributes, frames}
use nat_tester.Server.Roles.{Role, at_role, same_role}
use nat_tester.Server.Expected.{
  success_attributes, expected_attributes, success_attributes-expected,
}
use nat_tester.Server.Handler.{
  Handler, Integrity, response_builder, origin_of, other_role, sends_other, build_success_response,
}

origin_of-IsValid :
    {n : ℕ} {buffer : Buffer} (h : Handler) (role : Role)
    → CanAnswer n buffer h
    → Laws.IsValid (origin_of h role)
unfolding origin_of
origin_of-IsValid h role c =
    go (is_ip_address_zero (at_role h.addresses role).addr && same_role role h.msg_in.role)
  where
    go :
        (b : Bool)
        → Laws.IsValid (if b then h.msg_in.addr_local else (at_role h.addresses role).addr)
    go true = c.local
    go false = c.own role

module _ (new_bytes : ℕ → Option (List ℕ)) {n : ℕ} {buffer : Buffer} (role : Role) (h : Handler)
    (c : CanAnswer n buffer h) where
  abbrev Draft : ℕ → Attributes → Builder → Type 0
  Draft k =
      IsDraft n h.transaction_id h.legacy_mode
        (type_field binding_type (class_code success_response)) k

  mapped-Draft :
      (k : ℕ) (attributes : Attributes) (b : Builder)
      → Draft k attributes b
      → k ≤ 10
      → Draft
          (k + 1)
          (attributes ++ ((attribute_mapped_address, address_value h.msg_in.addr_remote) ∷ []))
          (add_mapped_address new_bytes h.msg_in.addr_remote b).1
  mapped-Draft k attributes b d few =
      address-IsDraft _ k attributes attribute_mapped_address h.msg_in.addr_remote b _ d c.remote
        (omega arith)
        (add_mapped_address-Emitted new_bytes h.msg_in.addr_remote _ b d.holds c.remote
          (room_left 1 d c.id_length c.room.enough (omega arith)))

  origin-Draft :
      (k : ℕ) (attributes : Attributes) (b : Builder)
      → Draft k attributes b
      → k ≤ 10
      → Draft
          (k + 1)
          (attributes ++ ((origin_type h.legacy_mode, address_value (origin_of h role)) ∷ []))
          (add_response_origin_address new_bytes (origin_of h role) b).1
  origin-Draft k attributes b d few =
      let v = origin_of-IsValid h role c in
      address-IsDraft _ k attributes (origin_type h.legacy_mode) (origin_of h role) b _ d v
        (origin_type-lt h.legacy_mode).0
        (add_response_origin_address-Emitted new_bytes (origin_of h role) _ b d.holds v
          (room_left 1 d c.id_length c.room.enough (omega arith)))

  other-Draft :
      (k : ℕ) (attributes : Attributes) (b : Builder) (other : Role)
      → Draft k attributes b
      → k ≤ 10
      → Draft
          (k + 1)
          (attributes
            ++ ((other_type h.legacy_mode, address_value (at_role h.addresses other).addr) ∷ []))
          (add_other_address new_bytes (at_role h.addresses other).addr b).1
  other-Draft k attributes b other d few =
      address-IsDraft _ k attributes (other_type h.legacy_mode) (at_role h.addresses other).addr b _
        d (c.own other) (origin_type-lt h.legacy_mode).1
        (add_other_address-Emitted new_bytes (at_role h.addresses other).addr _ b d.holds
          (c.own other) (room_left 1 d c.id_length c.room.enough (omega arith)))

  xor-Draft :
      (k : ℕ) (attributes : Attributes) (b : Builder)
      → Draft k attributes b
      → k ≤ 10
      → Draft
          (k + 1)
          (attributes
            ++ ((
              xor_type h.legacy_mode,
              address_value (apply_stun_xor_map h.transaction_id h.msg_in.addr_remote),
            )
                ∷ []))
          (add_xor_mapped_address new_bytes h.msg_in.addr_remote b).1
  xor-Draft k attributes b d few =
      address-IsDraft _ k attributes (xor_type h.legacy_mode)
        (apply_stun_xor_map h.transaction_id h.msg_in.addr_remote) b _ d
        (apply_stun_xor_map-IsValid h.transaction_id h.msg_in.addr_remote c.id_bytes c.remote)
        (origin_type-lt h.legacy_mode).2
        (add_xor_mapped_address-Emitted new_bytes h.msg_in.addr_remote _ b d.holds c.remote
          c.id_bytes (room_left 1 d c.id_length c.room.enough (omega arith)))

  -- The builder of a success response before it is signed or its length is fixed: the steps of
  -- `build_success_response` up to XOR-MAPPED-ADDRESS.
  abbrev pub answered : Builder
  answered =
      let origin = origin_of h role in
      let identified =
        (add_transaction_id new_bytes h.transaction_id
          (add_header new_bytes binding_type success_response (response_builder h)).1).1 in
      let mapped = (add_mapped_address new_bytes h.msg_in.addr_remote identified).1 in
      let placed =
        if is_ip_address_zero origin
        then mapped
        else (add_response_origin_address new_bytes origin mapped).1 in
      let other =
        if sends_other h
        then (add_other_address new_bytes (at_role h.addresses (other_role h)).addr placed).1
        else placed in
      (add_xor_mapped_address new_bytes h.msg_in.addr_remote other).1

  pub answered-Draft : Draft 4 (success_attributes role h) answered
  answered-Draft =
      let mapped =
        mapped-Draft 0 [] _ (started-IsDraft new_bytes h binding_type success_response c)
          (omega arith) in
      let placed =
        either-IsDraft (is_ip_address_zero (origin_of h role)) _ 2 _ _ _ _
          (more-IsDraft _ 1 _ _ mapped) (origin-Draft 1 _ _ mapped (omega arith)) in
      let other =
        either-IsDraft (sends_other h) _ 3 _ _ _ _
          (other-Draft 2 _ _ (other_role h) placed (omega arith)) (more-IsDraft _ 2 _ _ placed) in
      xor-Draft 3 _ _ other (omega arith)

-- the integrity attribute of `build_success_response`
abbrev pub signed : (ℕ → Option (List ℕ)) → Crypto → Integrity → Bool → Builder → Builder
signed new_bytes crypto i send xored =
    if not send
    then xored
    else if i.use_long_term
    then (add_message_integrity_long_term new_bytes crypto i.user i.realm i.password xored).1
    else (add_message_integrity_short_term new_bytes crypto i.password xored).1

pub build_success_response_steps :
    (new_bytes : ℕ → Option (List ℕ)) (crypto : Crypto) {n : ℕ} {buffer : Buffer} (role : Role)
    (h : Handler) (c : CanAnswer n buffer h)
    → build_success_response new_bytes crypto role h
      ≡ (fix_length_field new_bytes
          (signed new_bytes crypto h.integrity h.integrity.send (answered new_bytes role h c))).1
unfolding build_success_response
build_success_response_steps new_bytes crypto role h c = refl

-- If the caller's buffer has room for a message, the addresses are well-formed and no integrity
-- attribute is asked for, the success response in the buffer is a whole message: a header with the
-- class of a success response and the exact length, the id of the request, and then MAPPED-ADDRESS,
-- RESPONSE-ORIGIN with the address of the socket that answers, or, if that one is zero and the request
-- came in there, with the local address of the request, unless it is zero too, OTHER-ADDRESS with the
-- address of the opposite socket if the server has all four sockets and that address is not zero, and
-- XOR-MAPPED-ADDRESS. The array is still the caller's.
pub build_success_response-message :
    (new_bytes : ℕ → Option (List ℕ)) (crypto : Crypto) (n : ℕ) (buffer : Buffer) (role : Role)
    (h : Handler)
    → CanAnswer n buffer h
    → h.integrity.send ≡ false
    → let b = build_success_response new_bytes crypto role h in
      (contents b.stream
        ≡ message
            (type_field binding_type (class_code success_response))
            h.transaction_id
            (frames (expected_attributes h.legacy_mode h.transaction_id h.addresses h.msg_in role)))
      × (allocated_size b.stream ≡ n)
build_success_response-message new_bytes crypto n buffer role h c unsigned =
    let d = answered-Draft new_bytes role h c in
    let b = answered new_bytes role h c in
    let (_, out) =
      fixed-message new_bytes _ (success_attributes role h) b d.holds c.id_length
        (omega (arith, d.small)) in
    let same : build_success_response new_bytes crypto role h ≡ (fix_length_field new_bytes b).1 =
      build_success_response_steps new_bytes crypto role h c
      ∙ ap (λ send. (fix_length_field new_bytes (signed new_bytes crypto h.integrity send b)).1)
          unsigned in
    (
      ap (λ x. contents x.stream) same
          ∙ out.holds
          ∙ ap
              (λ xs.
                message (type_field binding_type (class_code success_response)) h.transaction_id
                  (frames xs))
              (success_attributes-expected role h),
      ap (λ x. allocated_size x.stream) same ∙ out.capacity,
    )
