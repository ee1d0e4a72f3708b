-- ===== src/Server/Rules.antt =====
-- Which requests `CStunRequestHandler` answers, from which socket, and where to.
use nat_tester.Base.{
  ℕ, ◌≤◌, ◌<◌, ◌≡◌, ◌⊎◌, inl, inr, refl, sym, ap, ◌∙◌, Bool, true, false, not, List, Option, none,
  some, arith, if◌then◌else◌, ◌==◌, ltb, lt→ltb, ltb_false→le, le→ltb_false, Option-cases,
}
use nat_tester.Hresult.{Hresult, s_ok, e_fail, e_invalidarg, e_unexpected, succeeded}
use nat_tester.StunTypes.{
  MessageClass, request, indication, success_response, failure_response, invalid_class,
  max_message_size,
}
use nat_tester.Stream.{Buffer, set_size}
use nat_tester.Crypto.{Crypto}
use nat_tester.Reader.{body_validated}
use nat_tester.Reader.Auth.{is_body_validated}
use nat_tester.Server.Roles.{AddressSet}
use nat_tester.Server.Auth.{AuthProvider}
use nat_tester.Server.Handler.{
  Handler, MessageIn, MessageOut, process_request, process_request_impl, new_handler, stage,
  check_type, validate_auth, process_binding_request, honor_response_port, noted,
  build_error_response,
}

-- the two checks of `ProcessRequest` on a buffer that is there, and what follows them
abbrev gate : Bool → Bool → MessageOut → Hresult × MessageOut → Hresult × MessageOut
gate small valid msg_out out =
    if small then (e_invalidarg, msg_out) else if not valid then (e_unexpected, msg_out) else out

gate-refused :
    (small valid : Bool) (msg_out : MessageOut) (out : Hresult × MessageOut)
    → (small ≡ true) ⊎ (valid ≡ false)
    → (succeeded (gate small valid msg_out out).0 ≡ false)
      × ((gate small valid msg_out out).1 ≡ msg_out)
gate-refused true valid msg_out out why = (refl, refl)
gate-refused false false msg_out out why = (refl, refl)
gate-refused false true msg_out out why = ground arith

gate-open :
    (small valid : Bool) (msg_out : MessageOut) (out : Hresult × MessageOut)
    → succeeded (gate small valid msg_out out).0 ≡ true
    → (small ≡ false) × (valid ≡ true)
gate-open true valid msg_out out ok = absurd (ground arith)
gate-open false false msg_out out ok = absurd (ground arith)
gate-open false true msg_out out ok = (refl, refl)

gate-passed :
    (small valid : Bool) (msg_out : MessageOut) (out : Hresult × MessageOut)
    → succeeded (gate small valid msg_out out).0 ≡ true
    → gate small valid msg_out out ≡ out
gate-passed true valid msg_out out ok = ground arith
gate-passed false false msg_out out ok = ground arith
gate-passed false true msg_out out ok = refl

-- the caller's response, ready for the handler
abbrev pub prepared : MessageIn → Buffer → MessageOut
prepared msg_in buffer = record {
  role = msg_in.role;
  addr_dest = msg_in.addr_remote;
  buffer = some (set_size buffer 0).1;
}

module _ (new_bytes : ℕ → Option (List ℕ)) (crypto : Crypto) where
  abbrev handled : Option AuthProvider → AddressSet → MessageIn → Buffer → Hresult × Handler
  handled auth set msg_in buffer =
      process_request_impl new_bytes crypto (new_handler auth set msg_in (prepared msg_in buffer))

  -- the checks of `ProcessRequest` on a buffer and addresses that are there
  abbrev guarded :
      Option AuthProvider → AddressSet → MessageIn → MessageOut → Buffer → Hresult × MessageOut
  guarded auth set msg_in msg_out buffer =
      let (hr, h) = handled auth set msg_in buffer in
      gate (ltb buffer.allocated max_message_size) (is_body_validated msg_in.reader.state) msg_out
        (hr, h.msg_out)

  process_request-guarded :
      (auth : Option AuthProvider) (set : AddressSet) (msg_in : MessageIn) (msg_out : MessageOut)
      (buffer : Buffer)
      → msg_out.buffer ≡ some buffer
      → process_request new_bytes crypto auth (some set) msg_in msg_out
        ≡ guarded auth set msg_in msg_out buffer
  unfolding process_request
  process_request-guarded auth set msg_in msg_out buffer e =
      ap
        (λ b. elim b [
          | none ↦ (e_invalidarg, msg_out)
          | some x ↦ guarded auth set msg_in msg_out x
        ])
        e

  process_request-nothing :
      (auth : Option AuthProvider) (addresses : Option AddressSet) (msg_in : MessageIn)
      (msg_out : MessageOut)
      → (msg_out.buffer ≡ none) ⊎ (addresses ≡ none)
      → process_request new_bytes crypto auth addresses msg_in msg_out ≡ (e_invalidarg, msg_out)
  unfolding process_request
  process_request-nothing auth addresses msg_in msg_out (inl e) = rw e refl
  process_request-nothing auth addresses msg_in msg_out (inr e) = rw e (go msg_out.buffer)
    where
      go :
          (b : Option Buffer)
          → elim b as (λ _. Hresult × MessageOut) [
            | none ↦ (e_invalidarg, msg_out)
            | some _ ↦ (e_invalidarg, msg_out)
          ]
            ≡ (e_invalidarg, msg_out)
      go none = refl
      go (some b) = refl

-- `ProcessRequestImpl` goes on with requests only
abbrev by_class : MessageClass → Handler → Handler → Hresult × Handler
by_class k worked h = elim k [ request ↦ (s_ok, worked) | _ ↦ (e_fail, h) ]

by_class-request :
    (k : MessageClass) (worked h : Handler)
    → succeeded (by_class k worked h).0 ≡ true
    → (k ≡ request) × ((by_class k worked h).1 ≡ worked)
by_class-request request worked h ok = (refl, refl)
by_class-request indication worked h ok = absurd (ground arith)
by_class-request success_response worked h ok = absurd (ground arith)
by_class-request failure_response worked h ok = absurd (ground arith)
by_class-request invalid_class worked h ok = absurd (ground arith)

-- the stages of `ProcessRequestImpl`, and what it does at the end
module _ (new_bytes : ℕ → Option (List ℕ)) (crypto : Crypto) where
  abbrev pub served : Handler → Handler
  served h =
      stage (process_binding_request new_bytes crypto)
        (stage (validate_auth crypto) (stage check_type (honor_response_port (noted h))))

  abbrev pub finished : Handler → Handler
  finished h = if h.error.code == 0 then h else build_error_response new_bytes h

  impl-request :
      (h : Handler)
      → succeeded (process_request_impl new_bytes crypto h).0 ≡ true
      → (h.msg_in.reader.msg_class ≡ request)
        × ((process_request_impl new_bytes crypto h).1 ≡ finished (served h))
  unfolding process_request_impl
  impl-request h ok = by_class-request h.msg_in.reader.msg_class (finished (served h)) h ok

  -- What a successful `ProcessRequest` has gone through.
  pub record Answered (auth : Option AuthProvider) (set : AddressSet) (msg_in : MessageIn)
      (buffer : Buffer) (out : MessageOut) : Type 0 where
    pub parsed : is_body_validated msg_in.reader.state ≡ true
    pub enough : max_message_size ≤ buffer.allocated
    pub class : msg_in.reader.msg_class ≡ request
    pub by :
        out ≡ (finished (served (new_handler auth set msg_in (prepared msg_in buffer)))).msg_out

  pub process_request-Answered :
      (auth : Option AuthProvider) (set : AddressSet) (msg_in : MessageIn) (msg_out : MessageOut)
      (buffer : Buffer)
      → msg_out.buffer ≡ some buffer
      → succeeded (process_request new_bytes crypto auth (some set) msg_in msg_out).0 ≡ true
      → Answered auth set msg_in buffer
          (process_request new_bytes crypto auth (some set) msg_in msg_out).1
  process_request-Answered auth set msg_in msg_out buffer e ok =
      let start = new_handler auth set msg_in (prepared msg_in buffer) in
      let impl = process_request_impl new_bytes crypto start in
      let small = ltb buffer.allocated max_message_size in
      let valid = is_body_validated msg_in.reader.state in
      let steps = process_request-guarded new_bytes crypto auth set msg_in msg_out buffer e in
      let ok_gate : succeeded (gate small valid msg_out (impl.0, impl.1.msg_out)).0 ≡ true =
        sym (ap (λ out. succeeded out.0) steps) ∙ ok in
      let (big, parsed) = gate-open small valid msg_out (impl.0, impl.1.msg_out) ok_gate in
      let passed = gate-passed small valid msg_out (impl.0, impl.1.msg_out) ok_gate in
      let ok_impl : succeeded impl.0 ≡ true = sym (ap (λ out. succeeded out.0) passed) ∙ ok_gate in
      let (class, worked) = impl-request start ok_impl in
      record {
        parsed = parsed;
        enough = ltb_false→le buffer.allocated max_message_size big;
        class = unfold new_handler in class;
        by = ap (λ out. out.1) steps ∙ ap (λ out. out.1) passed ∙ ap (λ x. x.msg_out) worked;
      }

-- With room for a message it answers every request that was parsed to its end.
pub process_request-accepted :
    (new_bytes : ℕ → Option (List ℕ)) (crypto : Crypto) (auth : Option AuthProvider)
    (set : AddressSet) (msg_in : MessageIn) (msg_out : MessageOut) (buffer : Buffer)
    → msg_out.buffer ≡ some buffer
    → max_message_size ≤ buffer.allocated
    → msg_in.reader.state ≡ body_validated
    → msg_in.reader.msg_class ≡ request
    → succeeded (process_request new_bytes crypto auth (some set) msg_in msg_out).0 ≡ true
unfolding process_request_impl new_handler
process_request-accepted new_bytes crypto auth set msg_in msg_out buffer e enough parsed class =
    rw
      (
        process_request-guarded new_bytes crypto auth set msg_in msg_out buffer e,
        le→ltb_false buffer.allocated max_message_size enough,
        parsed,
        class,
      )
      refl

-- `ProcessRequest` refuses to work without a buffer, without addresses, with a buffer that is
-- shorter than the longest message, and on a request that was not parsed to its end: it reports a
-- failure, and what the caller passed for the response is as it was.
pub process_request-refused :
    (new_bytes : ℕ → Option (List ℕ)) (crypto : Crypto) (auth : Option AuthProvider)
    (addresses : Option AddressSet) (msg_in : MessageIn) (msg_out : MessageOut)
    → (msg_out.buffer ≡ none)
      ⊎ ((addresses ≡ none)
          ⊎ (((b : Buffer) × (msg_out.buffer ≡ some b) × (b.allocated < max_message_size))
              ⊎ (is_body_validated msg_in.reader.state ≡ false)))
    → let (hr, out) = process_request new_bytes crypto auth addresses msg_in msg_out in
      (succeeded hr ≡ false) × (out ≡ msg_out)
process_request-refused new_bytes crypto auth addresses msg_in msg_out why =
    elim (Option-cases msg_out.buffer) [
      | inl e ↦ nothing (inl e)
      | inr (buffer, e) ↦ elim (Option-cases addresses) [
        | inl f ↦ nothing (inr f)
        | inr (set, f) ↦
            rw (f, process_request-guarded new_bytes crypto auth set msg_in msg_out buffer e)
              (gate-refused (ltb buffer.allocated max_message_size)
                (is_body_validated msg_in.reader.state) msg_out _ (reason set f buffer e why))
      ]
    ]
  where
    nothing :
        (msg_out.buffer ≡ none) ⊎ (addresses ≡ none)
        → (succeeded (process_request new_bytes crypto auth addresses msg_in msg_out).0 ≡ false)
          × ((process_request new_bytes crypto auth addresses msg_in msg_out).1 ≡ msg_out)
    nothing h =
        rw (process_request-nothing new_bytes crypto auth addresses msg_in msg_out h) (refl, refl)

    reason :
        (set : AddressSet)
        → addresses ≡ some set
        → (buffer : Buffer) → msg_out.buffer ≡ some buffer
        → (msg_out.buffer ≡ none)
          ⊎ ((addresses ≡ none)
              ⊎ (((b : Buffer) × (msg_out.buffer ≡ some b) × (b.allocated < max_message_size))
                  ⊎ (is_body_validated msg_in.reader.state ≡ false)))
        → (ltb buffer.allocated max_message_size ≡ true)
          ⊎ (is_body_validated msg_in.reader.state ≡ false)
    reason set f buffer e (inl h) = absurd (ground arith)
    reason set f buffer e (inr (inl h)) = absurd (ground arith)
    reason set f buffer e (inr (inr (inl (b, h, small)))) =
        inl (ground (arith, lt→ltb b.allocated max_message_size small))
    reason set f buffer e (inr (inr (inr h))) = inr h
