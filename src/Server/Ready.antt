-- ===== src/Server/Ready.antt =====
-- What holds of the handler of a request between the stages of `ProcessRequestImpl`.
use nat_tester.Base.{
  ℕ, ◌≤◌, ◌≡◌, ◌≢◌, ◌⊎◌, inl, inr, refl, ap, ◌∙◌, Bool, true, false, not, ◌&&◌, ◌||◌, List, [], ◌∷◌,
  Option, none, some, length, length-take, take, arith, if◌then◌else◌, ◌==◌, Option-cases,
}
use nat_tester.Hresult.{Hresult, s_ok, e_fail, succeeded}
use nat_tester.StunTypes.{ChangeRequest, failure_response, binding_type}
use nat_tester.Stream.{Buffer, content, attach, set_size}
use nat_tester.Stream
use nat_tester.Crypto.{Crypto}
use nat_tester.Reader.Get.{get_change_request, get_padding_attribute_size}
use nat_tester.Builder.{set_legacy_mode, attach_stream}
use nat_tester.Builder.Drafts.{HasRoom}
use nat_tester.Server.Roles.{Role, AddressSet, has_address}
use nat_tester.Server.Auth.{c_string, terminated, auth_attributes}
use nat_tester.Server.Handler.{
  Handler, output_role, build_success_response, MessageIn, stage, check_type, validate_auth, judge,
  check_integrity, respond, response_builder, process_binding_request, honor_response_port,
  with_error,
}

length-c_string : (xs : List ℕ) → length (c_string xs) ≤ length xs
length-c_string [] = omega arith
length-c_string (x ∷ xs) = ground (arith, length-c_string xs)

terminated_short : (xs : List ℕ) → length (c_string (take 64 xs)) ≤ 64
terminated_short xs = omega (arith, length-c_string (take 64 xs), length-take 64 xs)

-- A handler on its way: what it has noted of the request, room for the response, and an error that
-- can be reported.
pub record Ready (n : ℕ) (set : AddressSet) (msg_in : MessageIn) (h : Handler) : Type 0 where
  pub request_of : h.msg_in ≡ msg_in
  pub addresses_of : h.addresses ≡ set
  pub id : h.transaction_id ≡ msg_in.reader.transaction_id
  pub msg_type : h.error.msg_type ≡ msg_in.reader.msg_type_normalized
  pub msg_class : h.error.msg_class ≡ failure_response
  pub buffer : Buffer
  pub is_there : h.msg_out.buffer ≡ some buffer
  pub room : HasRoom n buffer
  pub code :
      (h.error.code ≡ 0) ⊎ ((300 ≤ h.error.code) × (h.error.code ≤ 450) × (h.error.code ≢ 420))
  pub nonce : length h.error.nonce ≤ 64
  pub realm : length h.error.realm ≤ 64
  pub legacy : h.legacy_mode ≡ msg_in.reader.message_is_legacy_format
  pub unsigned : h.auth ≡ none → h.integrity.send ≡ false

pub honor_response_port-Ready :
    (n : ℕ) (set : AddressSet) (msg_in : MessageIn) (h : Handler)
    → Ready n set msg_in h
    → Ready n set msg_in (honor_response_port h)
unfolding honor_response_port
honor_response_port-Ready n set msg_in h r = record {
  request_of = ground (arith, r.request_of);
  addresses_of = ground (arith, r.addresses_of);
  id = ground (arith, r.id);
  msg_type = ground (arith, r.msg_type);
  msg_class = ground (arith, r.msg_class);
  buffer = r.buffer;
  is_there = ground (arith, r.is_there);
  room = r.room;
  code = ground (arith, r.code);
  nonce = ground (arith, r.nonce);
  realm = ground (arith, r.realm);
  legacy = ground (arith, r.legacy);
  unsigned = λ e. ground (arith, r.unsigned);
}

pub with_error-Ready :
    (n code : ℕ) (set : AddressSet) (msg_in : MessageIn) (h : Handler)
    → 300 ≤ code
    → code ≤ 450
    → code ≢ 420
    → Ready n set msg_in h
    → Ready n set msg_in (with_error code h)
with_error-Ready n code set msg_in h low high known r = record {
  request_of = r.request_of;
  addresses_of = r.addresses_of;
  id = r.id;
  msg_type = r.msg_type;
  msg_class = r.msg_class;
  buffer = r.buffer;
  is_there = r.is_there;
  room = r.room;
  code = inr (low, high, known);
  nonce = r.nonce;
  realm = r.realm;
  legacy = r.legacy;
  unsigned = r.unsigned;
}

pub check_type-Ready :
    (n : ℕ) (set : AddressSet) (msg_in : MessageIn) (h : Handler)
    → Ready n set msg_in h
    → Ready n set msg_in (check_type h).1
check_type-Ready n set msg_in h r = go (h.msg_in.reader.msg_type_normalized == binding_type)
  where
    typed : Bool → Hresult × Handler
    typed b = if b then (s_ok, h) else (s_ok, with_error 400 h)

    go : (b : Bool) → Ready n set msg_in (typed b).1
    go true = r
    go false = with_error-Ready n 400 set msg_in h (omega arith) (omega arith) (omega arith) r

pub validate_auth-Ready :
    (crypto : Crypto) (n : ℕ) (set : AddressSet) (msg_in : MessageIn) (h : Handler)
    → Ready n set msg_in h
    → Ready n set msg_in (validate_auth crypto h).1
unfolding validate_auth judge check_integrity terminated
validate_auth-Ready crypto n set msg_in h r = record {
  request_of = ground (arith, r.request_of);
  addresses_of = ground (arith, r.addresses_of);
  id = ground (arith, r.id);
  msg_type = ground (arith, r.msg_type);
  msg_class = ground (arith, r.msg_class);
  buffer = r.buffer;
  is_there = ground (arith, r.is_there);
  room = r.room;
  code = ground (arith, r.code);
  nonce = elim (Option-cases h.auth) [
    | inl e ↦ ground (arith, e, r.nonce)
    | inr (p, e) ↦
        ground (arith, e, r.nonce, terminated_short (p (auth_attributes h.msg_in.reader)).1.nonce)
  ];
  realm = elim (Option-cases h.auth) [
    | inl e ↦ ground (arith, e, r.realm)
    | inr (p, e) ↦
        ground (arith, e, r.realm, terminated_short (p (auth_attributes h.msg_in.reader)).1.realm)
  ];
  legacy = ground (arith, r.legacy);
  unsigned = λ e. ground (arith, r.unsigned);
}

pub stage-Ready :
    (f : Handler → Hresult × Handler) (n : ℕ) (set : AddressSet) (msg_in : MessageIn) (h : Handler)
    → Ready n set msg_in h
    → Ready n set msg_in (f h).1
    → Ready n set msg_in (stage f h)
stage-Ready f n set msg_in h r k =
    go (not (h.error.code == 0)) (not (succeeded (f h).0) && (f h).1.error.code == 0)
  where
    go :
        (failed unnamed : Bool)
        → Ready n set msg_in
            (if failed then h else if unnamed then with_error 400 (f h).1 else (f h).1)
    go true unnamed = r
    go false true =
        with_error-Ready n 400 set msg_in (f h).1 (omega arith) (omega arith) (omega arith) k
    go false false = k

-- the builder of a response leaves the caller's array as it is, with no bytes in it
pub emptied-Ready :
    (n : ℕ) (set : AddressSet) (msg_in : MessageIn) (h : Handler)
    → Ready n set msg_in h
    → Ready n set msg_in (respond h (response_builder h))
unfolding response_builder set_legacy_mode attach_stream attach set_size Stream.reset
emptied-Ready n set msg_in h r = record {
  request_of = r.request_of;
  addresses_of = r.addresses_of;
  id = r.id;
  msg_type = r.msg_type;
  msg_class = r.msg_class;
  buffer = record (r.buffer) { size = 0 };
  is_there = rw r.is_there (ground arith);
  room = record {
    allocated = r.room.allocated;
    array = r.room.array;
    enough = r.room.enough;
    small = r.room.small;
  };
  code = r.code;
  nonce = r.nonce;
  realm = r.realm;
  legacy = r.legacy;
  unsigned = r.unsigned;
}

-- the response that `ProcessBindingRequest` has built
abbrev pub bound : (ℕ → Option (List ℕ)) → Crypto → Role → Handler → Handler
bound new_bytes crypto role h =
    let answered = respond h (build_success_response new_bytes crypto role h) in
    record answered { msg_out = record (answered.msg_out) { role = role } }

one_of :
    (padded refused : Bool) (x y : Hresult × Handler)
    → ((if padded then x else if refused then x else y) ≡ x)
      ⊎ ((if padded then x else if refused then x else y) ≡ y)
one_of true refused x y = inl refl
one_of false true x y = inl refl
one_of false false x y = inr refl

-- `ProcessBindingRequest` fails with 400 and an empty buffer, or builds a response.
pub binding-cases :
    (new_bytes : ℕ → Option (List ℕ)) (crypto : Crypto) (h : Handler)
    → (process_binding_request new_bytes crypto h
        ≡ (e_fail, with_error 400 (respond h (response_builder h))))
      ⊎ ((role : Role) × (process_binding_request new_bytes crypto h
            ≡ (s_ok, bound new_bytes crypto role h)))
unfolding process_binding_request
binding-cases new_bytes crypto h =
    elim (one_of padded refused failed (s_ok, bound new_bytes crypto role h)) [
      | inl e ↦ inl e
      | inr e ↦ inr (role, e)
    ]
  where
    change : ChangeRequest
    change = (get_change_request h.msg_in.reader).1

    changes : Bool
    changes =
        succeeded (get_change_request h.msg_in.reader).0 && (change.change_ip || change.change_port)

    role : Role
    role = if changes then output_role change h.msg_in.role else h.msg_in.role

    padded : Bool
    padded = h.has_response_port && succeeded (get_padding_attribute_size h.msg_in.reader).0

    refused : Bool
    refused = changes && (not (has_address h.addresses role) || h.msg_in.connection_oriented)

    failed : Hresult × Handler
    failed = (e_fail, with_error 400 (respond h (response_builder h)))

pub stage_skips :
    (f : Handler → Hresult × Handler) (h : Handler) → (h.error.code == 0) ≡ false → stage f h ≡ h
stage_skips f h e = rw e refl

pub stage_runs :
    (f : Handler → Hresult × Handler) (h h' : Handler) (hr : Hresult)
    → h.error.code ≡ 0
    → f h ≡ (hr, h')
    → stage f h ≡ (if not (succeeded hr) && h'.error.code == 0 then with_error 400 h' else h')
stage_runs f h h' hr e run =
    ap
      (λ out.
        if not (h.error.code == 0)
        then h
        else if not (succeeded out.0) && out.1.error.code == 0
        then with_error 400 out.1
        else out.1)
      run
    ∙ ap
        (λ c.
          if not (c == 0)
          then h
          else if not (succeeded hr) && h'.error.code == 0
          then with_error 400 h'
          else h')
        e
