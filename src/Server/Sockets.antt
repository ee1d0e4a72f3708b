-- ===== src/Server/Sockets.antt =====
-- The socket that `CStunRequestHandler` answers from, and where it sends the answer.
use nat_tester.Base.{
  ℕ, ◌≡◌, ◌⊎◌, inl, inr, refl, sym, subst, ap, ap₂, ◌∙◌, Bool, true, false, not, ◌&&◌, ◌||◌, List,
  Option, some, arith, if◌then◌else◌, ◌==◌,
}
use nat_tester.Hresult.{Hresult, s_ok, e_fail, succeeded}
use nat_tester.StunTypes.{ChangeRequest}
use nat_tester.Stream.{Buffer}
use nat_tester.Address.{Address, set_port}
use nat_tester.Crypto.{Crypto}
use nat_tester.Reader.Get.{get_change_request, get_padding_attribute_size}
use nat_tester.Server.Roles.{Role, AddressSet, has_address}
use nat_tester.Server.Auth.{AuthProvider}
use nat_tester.Server.Handler.{
  Handler, MessageIn, MessageOut, process_request, new_handler, output_role, stage, check_type,
  validate_auth, judge, check_integrity, process_binding_request, honor_response_port, noted,
  with_error, build_error_response, build_success_response, response_builder, respond,
}
use nat_tester.Builder.Emit.{be16, uint16_bytes-htons}
use nat_tester.Server.Expected.{
  requested_port, asks_for_change, wanted_socket, address_expected, output_role-wanted,
}
use nat_tester.Server.Rules.{prepared, served, finished, process_request-Answered}

-- The response goes out from the socket of the request, or from the one that a CHANGE-REQUEST
-- asks for, which exists, for a request that did not come over a connection.
abbrev pub FromSocket : AddressSet → MessageIn → Role → Type 0
FromSocket set msg_in role =
    (role ≡ msg_in.role)
    ⊎ ((asks_for_change msg_in ≡ true)
        × (role ≡ wanted_socket (get_change_request msg_in.reader).1 msg_in.role)
        × (has_address set role ≡ true)
        × (msg_in.connection_oriented ≡ false))

-- a handler that is working on the request
record Working (set : AddressSet) (msg_in : MessageIn) (h : Handler) : Type 0 where
  request_of : h.msg_in ≡ msg_in
  addresses_of : h.addresses ≡ set
  from : FromSocket set msg_in h.msg_out.role
  to : h.msg_out.addr_dest ≡ address_expected msg_in

-- what a stage leaves alone: the request, the addresses, and all of the response but its bytes
record Kept (h h' : Handler) : Type 0 where
  msg_in : h'.msg_in ≡ h.msg_in
  addresses : h'.addresses ≡ h.addresses
  role : h'.msg_out.role ≡ h.msg_out.role
  dest : h'.msg_out.addr_dest ≡ h.msg_out.addr_dest

Working-Kept :
    (set : AddressSet) (msg_in : MessageIn) (h h' : Handler)
    → Working set msg_in h
    → Kept h h'
    → Working set msg_in h'
Working-Kept set msg_in h h' w k = record {
  request_of = k.msg_in ∙ w.request_of;
  addresses_of = k.addresses ∙ w.addresses_of;
  from = subst (FromSocket set msg_in) (sym k.role) w.from;
  to = k.dest ∙ w.to;
}

validate_auth-Kept : (crypto : Crypto) (h : Handler) → Kept h (validate_auth crypto h).1
unfolding validate_auth judge check_integrity
validate_auth-Kept crypto h = record {
  msg_in = ground arith;
  addresses = ground arith;
  role = ground arith;
  dest = ground arith;
}

build_error_response-Kept :
    (new_bytes : ℕ → Option (List ℕ)) (h : Handler) → Kept h (build_error_response new_bytes h)
unfolding build_error_response
build_error_response-Kept new_bytes h = record {
  msg_in = refl;
  addresses = refl;
  role = refl;
  dest = refl;
}

stage-Kept : (f : Handler → Hresult × Handler) (h : Handler) → Kept h (f h).1 → Kept h (stage f h)
stage-Kept f h k = go (not (h.error.code == 0)) (not (succeeded (f h).0) && (f h).1.error.code == 0)
  where
    go :
        (failed unnamed : Bool)
        → Kept h (if failed then h else if unnamed then with_error 400 (f h).1 else (f h).1)
    go true unnamed = record { msg_in = refl; addresses = refl; role = refl; dest = refl }
    go false true = record {
      msg_in = k.msg_in;
      addresses = k.addresses;
      role = k.role;
      dest = k.dest;
    }
    go false false = k

-- `address_expected` for an answer that is on its way to an address
abbrev destination : MessageIn → Address → Address
destination msg_in dest =
    if requested_port msg_in == 0 || msg_in.connection_oriented
    then dest
    else record dest { port = be16 (requested_port msg_in) }

honor_dest :
    (h : Handler)
    → (honor_response_port h).msg_out.addr_dest ≡ destination h.msg_in h.msg_out.addr_dest
unfolding honor_response_port set_port
honor_dest h = go (requested_port h.msg_in == 0) h.msg_in.connection_oriented
  where
    dest : Address
    dest = h.msg_out.addr_dest

    port : ℕ
    port = requested_port h.msg_in

    ported : Handler
    ported = record h { has_response_port = true }

    go :
        (none_asked connected : Bool)
        → (if none_asked then h else if connected then with_error 400 ported else record ported {
          msg_out = record (h.msg_out) { addr_dest = set_port port dest };
        }).msg_out.addr_dest
          ≡ (if none_asked || connected then dest else record dest { port = be16 port })
    go true connected = refl
    go false true = refl
    go false false = ap (λ xs. record dest { port = xs }) (uint16_bytes-htons port)

honor_response_port-Working :
    (set : AddressSet) (msg_in : MessageIn) (h : Handler)
    → h.msg_in ≡ msg_in
    → h.addresses ≡ set
    → h.msg_out.role ≡ msg_in.role
    → h.msg_out.addr_dest ≡ msg_in.addr_remote
    → Working set msg_in (honor_response_port h)
unfolding honor_response_port set_port
honor_response_port-Working set msg_in h i a r d = record {
  request_of = ground arith;
  addresses_of = ground arith;
  from = inl (ground arith);
  to = honor_dest h ∙ ap₂ (λ m x. destination m x) i d;
}

-- the choice of the socket in `ProcessBindingRequest`
chosen_role :
    (set : AddressSet) (msg_in : MessageIn)
    → let (change_hr, change) = get_change_request msg_in.reader in
      let changes = succeeded change_hr && (change.change_ip || change.change_port) in
      let role = if changes then output_role change msg_in.role else msg_in.role in
      (changes && (not (has_address set role) || msg_in.connection_oriented)) ≡ false
      → FromSocket set msg_in role
chosen_role set msg_in =
    go (succeeded (get_change_request msg_in.reader).0) (change.change_ip || change.change_port)
      refl refl
  where
    change : ChangeRequest
    change = (get_change_request msg_in.reader).1

    go :
        (ok flags : Bool)
        → succeeded (get_change_request msg_in.reader).0 ≡ ok
        → (change.change_ip || change.change_port) ≡ flags
        → let role = if ok && flags then output_role change msg_in.role else msg_in.role in
          ((ok && flags) && (not (has_address set role) || msg_in.connection_oriented)) ≡ false
          → FromSocket set msg_in role
    go true true e f allowed =
        inr (rw (e, f) refl, output_role-wanted change msg_in.role, ground arith, ground arith)
    go true false e f allowed = inl refl
    go false flags e f allowed = inl refl

Working-other_error :
    (set : AddressSet) (msg_in : MessageIn) (h h' : Handler)
    → Working set msg_in h
    → Kept h h'
    → Working set msg_in (with_error 400 h')
Working-other_error set msg_in h h' w k =
    Working-Kept set msg_in h (with_error 400 h') w
      record { msg_in = k.msg_in; addresses = k.addresses; role = k.role; dest = k.dest }

-- the three ends of `ProcessBindingRequest`
abbrev outcome : Bool → Bool → Hresult × Handler → Hresult × Handler → Hresult × Handler
outcome padded refused failed done = if padded then failed else if refused then failed else done

binding-Working :
    (new_bytes : ℕ → Option (List ℕ)) (crypto : Crypto) (h : Handler)
    → Working h.addresses h.msg_in h
    → Working h.addresses h.msg_in (process_binding_request new_bytes crypto h).1
unfolding process_binding_request
binding-Working new_bytes crypto h w =
    go (h.has_response_port && succeeded (get_padding_attribute_size h.msg_in.reader).0) refused
      refl
  where
    changes : Bool
    changes =
        succeeded (get_change_request h.msg_in.reader).0
        && ((get_change_request h.msg_in.reader).1.change_ip
            || (get_change_request h.msg_in.reader).1.change_port)

    role : Role
    role =
        if changes
        then output_role (get_change_request h.msg_in.reader).1 h.msg_in.role
        else h.msg_in.role

    refused : Bool
    refused = changes && (not (has_address h.addresses role) || h.msg_in.connection_oriented)

    emptied : Handler
    emptied = respond h (response_builder h)

    answered : Handler
    answered = respond h (build_success_response new_bytes crypto role h)

    go :
        (padded q : Bool)
        → refused ≡ q
        → Working h.addresses h.msg_in
            (outcome padded q
              (e_fail, with_error 400 emptied)
              (s_ok, record answered { msg_out = record (answered.msg_out) { role = role } })).1
    go true q e =
        Working-other_error h.addresses h.msg_in h emptied w
          record { msg_in = refl; addresses = refl; role = refl; dest = refl }
    go false true e =
        Working-other_error h.addresses h.msg_in h emptied w
          record { msg_in = refl; addresses = refl; role = refl; dest = refl }
    go false false e = record {
      request_of = refl;
      addresses_of = refl;
      from = chosen_role h.addresses h.msg_in e;
      to = w.to;
    }

stage-Working :
    (f : Handler → Hresult × Handler) (set : AddressSet) (msg_in : MessageIn) (h : Handler)
    → Working set msg_in h
    → Working set msg_in (f h).1
    → Working set msg_in (stage f h)
stage-Working f set msg_in h w k =
    go (not (h.error.code == 0)) (not (succeeded (f h).0) && (f h).1.error.code == 0)
  where
    go :
        (failed unnamed : Bool)
        → Working set msg_in
            (if failed then h else if unnamed then with_error 400 (f h).1 else (f h).1)
    go true unnamed = w
    go false true =
        Working-other_error set msg_in (f h).1 (f h).1 k
          record { msg_in = refl; addresses = refl; role = refl; dest = refl }
    go false false = k

check_type-Kept : (h : Handler) → Kept h (check_type h).1
check_type-Kept h = record {
  msg_in = ground arith;
  addresses = ground arith;
  role = ground arith;
  dest = ground arith;
}

binding-Working_of :
    (new_bytes : ℕ → Option (List ℕ)) (crypto : Crypto) (set : AddressSet) (msg_in : MessageIn)
    (h : Handler)
    → Working set msg_in h
    → Working set msg_in (process_binding_request new_bytes crypto h).1
binding-Working_of new_bytes crypto set msg_in h w =
    subst (λ m. Working set m (process_binding_request new_bytes crypto h).1) w.request_of
      (subst (λ s. Working s h.msg_in (process_binding_request new_bytes crypto h).1) w.addresses_of
        (binding-Working new_bytes crypto h (
          subst (λ s. Working s h.msg_in h) (sym w.addresses_of)
            (subst (λ m. Working set m h) (sym w.request_of) w))))

finished-Working :
    (new_bytes : ℕ → Option (List ℕ)) (crypto : Crypto) (set : AddressSet) (msg_in : MessageIn)
    (h : Handler)
    → Working set msg_in h
    → Working set msg_in (finished new_bytes crypto h)
finished-Working new_bytes crypto set msg_in h w = go (h.error.code == 0)
  where
    go : (b : Bool) → Working set msg_in (if b then h else build_error_response new_bytes h)
    go true = w
    go false =
        Working-Kept set msg_in h (build_error_response new_bytes h) w
          (build_error_response-Kept new_bytes h)

start-Working :
    (auth : Option AuthProvider) (set : AddressSet) (msg_in : MessageIn) (buffer : Buffer)
    → Working set msg_in
        (honor_response_port (noted (new_handler auth set msg_in (prepared msg_in buffer))))
unfolding new_handler
start-Working auth set msg_in buffer =
    honor_response_port-Working set msg_in
      (noted (new_handler auth set msg_in (prepared msg_in buffer))) refl refl refl refl

served-Working :
    (new_bytes : ℕ → Option (List ℕ)) (crypto : Crypto) (auth : Option AuthProvider)
    (set : AddressSet) (msg_in : MessageIn) (buffer : Buffer)
    → Working set msg_in
        (served new_bytes crypto (new_handler auth set msg_in (prepared msg_in buffer)))
served-Working new_bytes crypto auth set msg_in buffer =
    let start =
      honor_response_port (noted (new_handler auth set msg_in (prepared msg_in buffer))) in
    let typed = stage check_type start in
    let allowed = stage (validate_auth crypto) typed in
    let w₀ = start-Working auth set msg_in buffer in
    let w₁ =
      Working-Kept set msg_in start typed w₀
        (stage-Kept check_type start (check_type-Kept start)) in
    let w₂ =
      Working-Kept set msg_in typed allowed w₁
        (stage-Kept (validate_auth crypto) typed (validate_auth-Kept crypto typed)) in
    stage-Working (process_binding_request new_bytes crypto) set msg_in allowed w₂
      (binding-Working_of new_bytes crypto set msg_in allowed w₂)

-- Whatever `ProcessRequest` answers, with a success or with an error, goes out from the socket that
-- the request came in on, or, for a request that did not come over a connection and asks for a change
-- of address or port, from the socket that it asks for, which then is a socket of the server. The
-- answer goes to the address that the request came from, with the port of the RESPONSE-PORT if the
-- request has one that is not zero and did not come over a connection, and with its own port otherwise.
pub process_request-Sockets :
    (new_bytes : ℕ → Option (List ℕ)) (crypto : Crypto) (auth : Option AuthProvider)
    (set : AddressSet) (msg_in : MessageIn) (msg_out : MessageOut) (buffer : Buffer)
    → msg_out.buffer ≡ some buffer
    → succeeded (process_request new_bytes crypto auth (some set) msg_in msg_out).0 ≡ true
    → let (hr, out) = process_request new_bytes crypto auth (some set) msg_in msg_out in
      FromSocket set msg_in out.role × (out.addr_dest ≡ address_expected msg_in)
process_request-Sockets new_bytes crypto auth set msg_in msg_out buffer e ok =
    let a = process_request-Answered new_bytes crypto auth set msg_in msg_out buffer e ok in
    let w =
      finished-Working new_bytes crypto set msg_in _
        (served-Working new_bytes crypto auth set msg_in buffer) in
    (
      subst (λ out. FromSocket set msg_in out.role) (sym a.by) w.from,
      ap (λ out. out.addr_dest) a.by ∙ w.to,
    )
