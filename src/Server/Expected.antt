-- ===== src/Server/Expected.antt =====
-- What the answers of a server are expected to be, by the sockets and the request alone, and that
-- the choices of `CStunRequestHandler` agree with it.
use nat_tester.Base.{
  ℕ, ◌≡◌, refl, ap₂, ◌∙◌, Bool, true, false, not, ◌&&◌, ◌||◌, List, [], ◌∷◌, ◌++◌, Option, none,
  some, if◌then◌else◌, ◌==◌, arith,
}
use nat_tester.Hresult.{succeeded}
use nat_tester.StunTypes.{TransactionId, ChangeRequest, binding_type, attribute_mapped_address}
use nat_tester.Address.{Address, apply_stun_xor_map, is_ip_address_zero}
use nat_tester.Builder.Emit.{be16}
use nat_tester.Builder.Addresses.{address_value, origin_type, other_type, xor_type}
use nat_tester.Reader.Get.{get_change_request, get_response_port, get_padding_attribute_size}
use nat_tester.Reader.Loop.{Attributes}
use nat_tester.Server.Roles.{
  Role, role_pp, role_pa, role_ap, role_aa, AddressSet, at_role, has_address, same_role, swap_ip,
  swap_port, is_ip_address_zero_or_invalid,
}
use nat_tester.Server.Handler.{Handler, MessageIn, output_role, origin_of, other_role, sends_other}

-- the socket on the primary or the alternate address, and on the primary or the alternate port
abbrev pub socket_at : Bool → Bool → Role
socket_at false false = role_pp
socket_at false true = role_pa
socket_at true false = role_ap
socket_at true true = role_aa

abbrev pub on_alternate_ip : Role → Bool
on_alternate_ip role_pp = false
on_alternate_ip role_pa = false
on_alternate_ip role_ap = true
on_alternate_ip role_aa = true

abbrev pub on_alternate_port : Role → Bool
on_alternate_port role_pp = false
on_alternate_port role_pa = true
on_alternate_port role_ap = false
on_alternate_port role_aa = true

abbrev pub opposite : Role → Role
opposite role = socket_at (not (on_alternate_ip role)) (not (on_alternate_port role))

-- a choice, the other one if there is to be a change
abbrev pub changed : Bool → Bool → Bool
changed true b = not b
changed false b = b

abbrev pub wanted_socket : ChangeRequest → Role → Role
wanted_socket change role =
    socket_at (changed change.change_ip (on_alternate_ip role))
      (changed change.change_port (on_alternate_port role))

-- the address of the opposite socket, if all four are there and it is known
abbrev pub other_expected : AddressSet → Role → Option Address
other_expected set role =
    let a = (at_role set (opposite role)).addr in
    if set.pp.valid
      && (set.pa.valid && (set.ap.valid && (set.aa.valid && not (is_ip_address_zero a))))
    then some a
    else none

-- the address of the socket that answers, if it is known or can be taken from the request
abbrev pub origin_expected : AddressSet → MessageIn → Role → Option Address
origin_expected set msg_in role =
    let own = (at_role set role).addr in
    if not (is_ip_address_zero own)
    then some own
    else if same_role role msg_in.role && not (is_ip_address_zero msg_in.addr_local)
    then some msg_in.addr_local
    else none

abbrev pub optional : ℕ → Option Address → Attributes
optional type none = []
optional type (some a) = (type, address_value a) ∷ []

-- the attributes of a success response to a request with this id and of this mode
abbrev pub expected_attributes : Bool → TransactionId → AddressSet → MessageIn → Role → Attributes
expected_attributes legacy id set msg_in role =
    (attribute_mapped_address, address_value msg_in.addr_remote)
    ∷ (optional (origin_type legacy) (origin_expected set msg_in role)
        ++ (optional (other_type legacy) (other_expected set msg_in.role)
            ++ ((xor_type legacy, address_value (apply_stun_xor_map id msg_in.addr_remote)) ∷ [])))

-- the RESPONSE-PORT of a request, 0 if it has none
abbrev pub requested_port : MessageIn → ℕ
requested_port msg_in = (get_response_port 0 msg_in.reader).1

abbrev pub asks_for_change : MessageIn → Bool
asks_for_change msg_in =
    let (hr, change) = get_change_request msg_in.reader in
    succeeded hr && (change.change_ip || change.change_port)

-- the socket that a request asks to be answered from
abbrev pub socket_expected : MessageIn → Role
socket_expected msg_in =
    if asks_for_change msg_in
    then wanted_socket (get_change_request msg_in.reader).1 msg_in.role
    else msg_in.role

-- where an answer goes to
abbrev pub address_expected : MessageIn → Address
address_expected msg_in =
    if requested_port msg_in == 0 || msg_in.connection_oriented
    then msg_in.addr_remote
    else record (msg_in.addr_remote) { port = be16 (requested_port msg_in) }

-- A binding request that can be answered: over a connection it asks neither for another port to
-- answer to nor for another socket; it has no PADDING if it asks for another port; and the socket
-- that it asks for is there.
abbrev pub is_answerable : AddressSet → MessageIn → Bool
is_answerable set msg_in =
    let padded = succeeded (get_padding_attribute_size msg_in.reader).0 in
    let stays = requested_port msg_in == 0 in
    (msg_in.reader.msg_type_normalized == binding_type)
    && ((stays || not (msg_in.connection_oriented || padded))
        && (not (asks_for_change msg_in)
            || (not msg_in.connection_oriented && has_address set (socket_expected msg_in))))

pub output_role-wanted :
    (change : ChangeRequest) (role : Role) → output_role change role ≡ wanted_socket change role
output_role-wanted change role = go change.change_ip change.change_port role
  where
    go :
        (ip port : Bool) (role : Role)
        → let change : ChangeRequest = record { change_ip = ip; change_port = port } in
          output_role change role ≡ wanted_socket change role
    go true true role_pp = refl
    go true true role_pa = refl
    go true true role_ap = refl
    go true true role_aa = refl
    go true false role_pp = refl
    go true false role_pa = refl
    go true false role_ap = refl
    go true false role_aa = refl
    go false true role_pp = refl
    go false true role_pa = refl
    go false true role_ap = refl
    go false true role_aa = refl
    go false false role_pp = refl
    go false false role_pa = refl
    go false false role_ap = refl
    go false false role_aa = refl

-- a value, if the test holds
abbrev pub when {ℓ} : {A : Type ℓ} → Bool → A → Option A
when test x = if test then some x else none

pub sends_other_lem :
    (h : Handler)
    → when (sends_other h) (at_role h.addresses (other_role h)).addr
      ≡ other_expected h.addresses h.msg_in.role
unfolding sends_other is_ip_address_zero_or_invalid
sends_other_lem h = go h.addresses h.msg_in.role
  where
    go :
        (set : AddressSet) (role : Role)
        → let other = swap_ip (swap_port role) in
          when
            ((has_address set role_pp
                && (has_address set role_pa
                    && (has_address set role_ap && has_address set role_aa)))
              && not (is_ip_address_zero_or_invalid set other))
            (at_role set other).addr
          ≡ other_expected set role
    go set role_pp = ground arith
    go set role_pa = ground arith
    go set role_ap = ground arith
    go set role_aa = ground arith

origin_of_lem :
    (h : Handler) (role : Role)
    → when (not (is_ip_address_zero (origin_of h role))) (origin_of h role)
      ≡ origin_expected h.addresses h.msg_in role
unfolding origin_of
origin_of_lem h role = ground arith

-- the attributes of a success response
abbrev pub success_attributes : Role → Handler → Attributes
success_attributes role h =
    let legacy = h.legacy_mode in
    let origin = origin_of h role in
    let other = (at_role h.addresses (other_role h)).addr in
    let mapped : Attributes = (attribute_mapped_address, address_value h.msg_in.addr_remote) ∷ [] in
    let placed =
      if is_ip_address_zero origin
      then mapped
      else mapped ++ ((origin_type legacy, address_value origin) ∷ []) in
    let others =
      if sends_other h then placed ++ ((other_type legacy, address_value other) ∷ []) else placed in
    others
    ++ ((xor_type legacy, address_value (apply_stun_xor_map h.transaction_id h.msg_in.addr_remote))
        ∷ [])

chosen_attributes :
    (z s : Bool) (t u : ℕ) (o x : Address) (a l : ℕ × List ℕ)
    → let mapped : Attributes = a ∷ [] in
      let placed = if z then mapped else mapped ++ ((t, address_value o) ∷ []) in
      ((if s then placed ++ ((u, address_value x) ∷ []) else placed) ++ (l ∷ []))
      ≡ a ∷ (optional t (when (not z) o) ++ (optional u (when s x) ++ (l ∷ [])))
chosen_attributes true true t u o x a l = refl
chosen_attributes true false t u o x a l = refl
chosen_attributes false true t u o x a l = refl
chosen_attributes false false t u o x a l = refl

-- The attributes that the handler writes are those that are expected.
pub success_attributes-expected :
    (role : Role) (h : Handler)
    → success_attributes role h
      ≡ expected_attributes h.legacy_mode h.transaction_id h.addresses h.msg_in role
success_attributes-expected role h =
    let a : ℕ × List ℕ = (attribute_mapped_address, address_value h.msg_in.addr_remote) in
    let l : ℕ × List ℕ = (
      xor_type h.legacy_mode,
      address_value (apply_stun_xor_map h.transaction_id h.msg_in.addr_remote),
    ) in
    let t = origin_type h.legacy_mode in
    let u = other_type h.legacy_mode in
    chosen_attributes (is_ip_address_zero (origin_of h role)) (sends_other h) t u (origin_of h role)
      (at_role h.addresses (other_role h)).addr a l
    ∙ ap₂ (λ o x. a ∷ (optional t o ++ (optional u x ++ (l ∷ [])))) (origin_of_lem h role)
        (sends_other_lem h)
