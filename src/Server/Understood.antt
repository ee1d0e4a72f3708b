-- ===== src/Server/Understood.antt =====
-- A success response of `CStunRequestHandler` in the hands of a client.
use nat_tester.Base.{
  ℕ, ◌≡◌, refl, sym, ap, subst, Bool, true, false, List, [], ◌∷◌, ◌++◌, Option, none, some, arith,
  if◌then◌else◌, ◌∙◌, Bool-cases, inl, inr,
}
use nat_tester.Hresult.{Hresult, s_ok, e_fail}
use nat_tester.StunTypes.{
  TransactionId, MessageClass, success_response, class_code, binding_type, attribute_mapped_address,
  attribute_xor_mapped_address, attribute_xor_mapped_address_optional, attribute_other_address,
  attribute_changed_address,
}
use nat_tester.Stream.{Buffer}
use nat_tester.Stream.Laws.{contents}
use nat_tester.Stream.Growth.{Supplies}
use nat_tester.Address.{Address, apply_stun_xor_map, is_ip_address_zero}
use nat_tester.Address.Laws.{apply_stun_xor_map-IsValid, apply_stun_xor_map_twice}
use nat_tester.Address.Laws
use nat_tester.Crypto.{Crypto}
use nat_tester.Builder.Addresses.{address_value, origin_type, other_type, xor_type}
use nat_tester.Reader.{Reader, body_validated, new_reader, add_bytes}
use nat_tester.Reader.Get.{
  find_attribute, get_address_helper, get_xor_mapped_address, get_mapped_address, get_other_address,
  either_address,
}
use nat_tester.Reader.Loop.{Attributes, frames}
use nat_tester.Reader.Whole.{Understood, IsMessage}
use nat_tester.Reader.Values.{last_value, Found-Understood, absent-Understood, add_bytes-Understood}
use nat_tester.Reader.Found.{get_address_helper-Found}
use nat_tester.Server.Roles.{Role, at_role}
use nat_tester.Server.Handler.{Handler, origin_of, other_role, sends_other, build_success_response}
use nat_tester.Builder.{type_field}
use nat_tester.Builder.Message.{message}
use nat_tester.Server.Expected.{
  success_attributes, success_attributes-expected, other_expected, when, sends_other_lem,
}
use nat_tester.Server.Drafts.{CanAnswer}
use nat_tester.Server.Responses.{answered-Draft, build_success_response-message}

-- the attributes of a response by the choices that are made
abbrev chosen : Bool → Bool → Bool → List ℕ → List ℕ → List ℕ → List ℕ → Attributes
chosen zero_origin sends legacy mapped origin other xored =
    let start : Attributes = (attribute_mapped_address, mapped) ∷ [] in
    let placed = if zero_origin then start else start ++ ((origin_type legacy, origin) ∷ []) in
    let others = if sends then placed ++ ((other_type legacy, other) ∷ []) else placed in
    others ++ ((xor_type legacy, xored) ∷ [])

last_mapped :
    (z s l : Bool) (mapped origin other xored : List ℕ)
    → last_value attribute_mapped_address (chosen z s l mapped origin other xored) ≡ some mapped
last_mapped z s l mapped origin other xored = go z s l
  where
    go :
        (z s l : Bool)
        → last_value attribute_mapped_address (chosen z s l mapped origin other xored) ≡ some mapped
    go true true true = refl
    go true true false = refl
    go true false true = refl
    go true false false = refl
    go false true true = refl
    go false true false = refl
    go false false true = refl
    go false false false = refl

-- the XOR mapped address stands under the type of the mode only
last_xor :
    (z s l : Bool) (mapped origin other xored : List ℕ)
    → (last_value attribute_xor_mapped_address (chosen z s l mapped origin other xored)
        ≡ (if l then none else some xored))
      × (last_value attribute_xor_mapped_address_optional (chosen z s l mapped origin other xored)
          ≡ (if l then some xored else none))
last_xor true true true mapped origin other xored = (refl, refl)
last_xor true true false mapped origin other xored = (refl, refl)
last_xor true false true mapped origin other xored = (refl, refl)
last_xor true false false mapped origin other xored = (refl, refl)
last_xor false true true mapped origin other xored = (refl, refl)
last_xor false true false mapped origin other xored = (refl, refl)
last_xor false false true mapped origin other xored = (refl, refl)
last_xor false false false mapped origin other xored = (refl, refl)

last_other :
    (z l : Bool) (mapped origin other xored : List ℕ)
    → (last_value attribute_other_address (chosen z true l mapped origin other xored)
        ≡ (if l then none else some other))
      × (last_value attribute_changed_address (chosen z true l mapped origin other xored)
          ≡ (if l then some other else none))
last_other true true mapped origin other xored = (refl, refl)
last_other true false mapped origin other xored = (refl, refl)
last_other false true mapped origin other xored = (refl, refl)
last_other false false mapped origin other xored = (refl, refl)

-- without it neither type is there
last_other_none :
    (z l : Bool) (mapped origin other xored : List ℕ)
    → (last_value attribute_other_address (chosen z false l mapped origin other xored) ≡ none)
      × (last_value attribute_changed_address (chosen z false l mapped origin other xored) ≡ none)
last_other_none true true mapped origin other xored = (refl, refl)
last_other_none true false mapped origin other xored = (refl, refl)
last_other_none false true mapped origin other xored = (refl, refl)
last_other_none false false mapped origin other xored = (refl, refl)

-- a getter of an attribute that is not there
absent_helper :
    (type : ℕ) (given : Address) (r : Reader)
    → find_attribute type r ≡ none
    → get_address_helper type given r ≡ (e_fail, given)
unfolding get_address_helper
absent_helper type given r e = ground (arith, e)

-- A getter that looks for two types finds the address under the one that is there.
either_address-Understood :
    {type : ℕ} {class : MessageClass} {id : TransactionId} {attributes : Attributes} {r : Reader}
    (u : Understood type class id attributes r) (first second : ℕ) (legacy : Bool)
    (a given : Address)
    → Laws.IsValid a
    → last_value first attributes ≡ (if legacy then none else some (address_value a))
    → last_value second attributes ≡ (if legacy then some (address_value a) else none)
    → either_address first second given r ≡ (s_ok, a)
either_address-Understood {r} u first second true a given v e f =
    rw (absent_helper first given r (absent-Understood u first e))
      (get_address_helper-Found (Found-Understood u second (address_value a) f) a given v refl)
either_address-Understood u first second false a given v e f =
    rw (get_address_helper-Found (Found-Understood u first (address_value a) e) a given v refl) refl

-- A getter that finds neither type fails.
no_address-Understood :
    {type : ℕ} {class : MessageClass} {id : TransactionId} {attributes : Attributes} {r : Reader}
    (u : Understood type class id attributes r) (first second : ℕ) (given : Address)
    → last_value first attributes ≡ none
    → last_value second attributes ≡ none
    → either_address first second given r ≡ (e_fail, given)
no_address-Understood {r} u first second given e f =
    rw (absent_helper first given r (absent-Understood u first e))
      (absent_helper second given r (absent-Understood u second f))

module _ (new_bytes : ℕ → Option (List ℕ)) (supplies : Supplies new_bytes) (crypto : Crypto) {n : ℕ}
    {buffer : Buffer} (role : Role) (h : Handler) (c : CanAnswer n buffer h) where
  success-IsMessage :
      IsMessage binding_type success_response h.transaction_id (success_attributes role h)
  success-IsMessage =
      let d = answered-Draft new_bytes role h c in
      record {
        good_class = ground arith;
        good_type = omega arith;
        id_length = c.id_length;
        sendable = d.sendable;
        few = omega (arith, d.few);
        short = omega (arith, d.small);
      }

  module _ (unsigned : h.integrity.send ≡ false) where
    client_reads :
        let out =
          add_bytes new_bytes
            (contents (build_success_response new_bytes crypto role h).stream)
            new_reader in
        (out.0 ≡ body_validated)
        × Understood binding_type success_response h.transaction_id
            (success_attributes role h)
            out.1
    client_reads =
        let sent = build_success_response-message new_bytes crypto n buffer role h c unsigned in
        subst
          (λ bytes.
            let out = add_bytes new_bytes bytes new_reader in
            (out.0 ≡ body_validated)
            × Understood binding_type success_response h.transaction_id (success_attributes role h)
                out.1)
          (sym (
            sent.0
            ∙ ap
                (λ xs.
                  message (type_field binding_type (class_code success_response)) h.transaction_id
                    (frames xs))
                (sym (success_attributes-expected role h))))
          (add_bytes-Understood new_bytes supplies binding_type success_response h.transaction_id
            (success_attributes role h) success-IsMessage)

-- A client that gives the success response of a server to a new reader gets a whole message of the
-- class of success responses with the transaction id of the request; both GetMappedAddress and
-- GetXorMappedAddress give the address that the server has seen, whatever was in the out
-- parameter. The caller's buffer has room, the addresses are well-formed, no integrity attribute
-- is asked for, and the client has memory.
pub mapped_address-understood :
    (new_bytes : ℕ → Option (List ℕ)) (crypto : Crypto) (n : ℕ) (buffer : Buffer) (role : Role)
    (h : Handler) (given : Address)
    → Supplies new_bytes
    → CanAnswer n buffer h
    → h.integrity.send ≡ false
    → let (state, r) =
        add_bytes new_bytes
          (contents (build_success_response new_bytes crypto role h).stream)
          new_reader in
      (state ≡ body_validated)
      × (r.msg_class ≡ success_response)
      × (r.transaction_id ≡ h.transaction_id)
      × (get_mapped_address given r ≡ (s_ok, h.msg_in.addr_remote))
      × (get_xor_mapped_address given r ≡ (s_ok, h.msg_in.addr_remote))
unfolding get_mapped_address get_xor_mapped_address
mapped_address-understood new_bytes crypto n buffer role h given supplies c unsigned =
    let (state, u) = client_reads new_bytes supplies crypto role h c unsigned in
    let remote = h.msg_in.addr_remote in
    let masked = apply_stun_xor_map h.transaction_id remote in
    let choice =
      last_xor (is_ip_address_zero (origin_of h role)) (sends_other h) h.legacy_mode _ _ _
        (address_value masked) in
    let found =
      either_address-Understood u attribute_xor_mapped_address attribute_xor_mapped_address_optional
        h.legacy_mode masked given
        (apply_stun_xor_map-IsValid h.transaction_id remote c.id_bytes c.remote) choice.0
        choice.1 in
    (
      state,
      u.class,
      u.id,
      get_address_helper-Found
          (Found-Understood u attribute_mapped_address (address_value remote) (
            last_mapped (is_ip_address_zero (origin_of h role)) (sends_other h) h.legacy_mode _ _ _
              _))
          remote given c.remote refl,
      rw (found, u.id) (ap (λ a. (s_ok, a)) (apply_stun_xor_map_twice h.transaction_id remote)),
    )

-- what a getter returns for an address that is there or not
abbrev pub told : Address → Option Address → Hresult × Address
told given none = (e_fail, given)
told given (some a) = (s_ok, a)

-- A client that gives the success response of a server to a new reader gets from GetOtherAddress the
-- address of the socket on the other IP address and the other port than the one that the request came
-- in on, in legacy mode too, if the server has all four sockets and that address is not zero;
-- otherwise GetOtherAddress fails and leaves the out parameter as it was. The other conditions are
-- those of the mapped address.
pub other_address-understood :
    (new_bytes : ℕ → Option (List ℕ)) (crypto : Crypto) (n : ℕ) (buffer : Buffer) (role : Role)
    (h : Handler) (given : Address)
    → Supplies new_bytes
    → CanAnswer n buffer h
    → h.integrity.send ≡ false
    → let (state, r) =
        add_bytes new_bytes
          (contents (build_success_response new_bytes crypto role h).stream)
          new_reader in
      get_other_address given r ≡ told given (other_expected h.addresses h.msg_in.role)
unfolding get_other_address
other_address-understood new_bytes crypto n buffer role h given supplies c unsigned =
    let (state, u) = client_reads new_bytes supplies crypto role h c unsigned in
    elim (Bool-cases (sends_other h)) [
      | inl sends ↦
          let choice =
            last_other (is_ip_address_zero (origin_of h role)) h.legacy_mode
              (address_value h.msg_in.addr_remote) (address_value (origin_of h role))
              (address_value other) xored in
          either_address-Understood u attribute_other_address attribute_changed_address
            h.legacy_mode other given (c.own (other_role h)) (rw sends choice.0) (rw sends choice.1)
          ∙ ap (λ b. told given (when b other)) (sym sends)
          ∙ ap (told given) (sends_other_lem h)
      | inr nothing ↦
          let choice =
            last_other_none (is_ip_address_zero (origin_of h role)) h.legacy_mode
              (address_value h.msg_in.addr_remote) (address_value (origin_of h role))
              (address_value other) xored in
          no_address-Understood u attribute_other_address attribute_changed_address given
            (rw nothing choice.0) (rw nothing choice.1)
          ∙ ap (λ b. told given (when b other)) (sym nothing)
          ∙ ap (told given) (sends_other_lem h)
    ]
  where
    other : Address
    other = (at_role h.addresses (other_role h)).addr

    xored : List ℕ
    xored = address_value (apply_stun_xor_map h.transaction_id h.msg_in.addr_remote)
