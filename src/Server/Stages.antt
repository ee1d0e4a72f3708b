-- ===== src/Server/Stages.antt =====
-- The stages of `ProcessRequestImpl`, run one after another.
use nat_tester.Base.{
  ℕ, ◌≡◌, ◌≢◌, ◌⊎◌, inl, inr, refl, sym, ap, subst, ◌∙◌, List, Option, length, arith, le→leb, ◌==◌,
  ==→≡, Bool-cases,
}
use nat_tester.Hresult.{s_ok, e_fail}
use nat_tester.Stream.{Buffer, set_size}
use nat_tester.Address.Laws.{IsBytes}
use nat_tester.Address.Laws
use nat_tester.Crypto.{Crypto}
use nat_tester.Builder.Drafts.{HasRoom}
use nat_tester.Server.Roles.{Role, AddressSet, at_role}
use nat_tester.Server.Auth.{AuthProvider}
use nat_tester.Server.Handler.{
  Handler, MessageIn, new_handler, stage, check_type, validate_auth, process_binding_request,
  honor_response_port, noted,
}
use nat_tester.Server.Drafts.{CanAnswer}
use nat_tester.Server.Errors.{failed}
use nat_tester.Server.Rules.{prepared}
use nat_tester.Server.Ready.{
  Ready, bound, honor_response_port-Ready, with_error-Ready, check_type-Ready, validate_auth-Ready,
  stage-Ready, emptied-Ready, binding-cases, stage_skips, stage_runs,
}

-- The last stage leaves an error that can be reported, or the response that was built.
pub binding_stage :
    (new_bytes : ℕ → Option (List ℕ)) (crypto : Crypto) (n : ℕ) (set : AddressSet)
    (msg_in : MessageIn) (h : Handler)
    → Ready n set msg_in h
    → let out = stage (process_binding_request new_bytes crypto) h in
      ((out.error.code ≢ 0) × Ready n set msg_in out)
      ⊎ ((h.error.code ≡ 0) × ((role : Role) × (out ≡ bound new_bytes crypto role h)))
binding_stage new_bytes crypto n set msg_in h r = elim (Bool-cases (h.error.code == 0)) [
  | inr e ↦ inl (
    rw (stage_skips (process_binding_request new_bytes crypto) h e) (ground arith),
    rw (stage_skips (process_binding_request new_bytes crypto) h e) r,
  )
  | inl z ↦
      let zero_code = ==→≡ h.error.code 0 z in
      elim (binding-cases new_bytes crypto h) [
        | inl failed ↦
            let e =
              stage_runs (process_binding_request new_bytes crypto) h _ e_fail zero_code failed in
            inl (
              rw e (omega arith),
              rw e (
                  with_error-Ready n 400 set msg_in _ (omega arith) (omega arith) (omega arith)
                    (emptied-Ready n set msg_in h r)),
            )
        | inr (role, done) ↦ inr (
          zero_code,
          (role, stage_runs (process_binding_request new_bytes crypto) h _ s_ok zero_code done),
        )
      ]
]

-- What the kernel and the parser give a server: well-formed addresses and a transaction id.
pub record IsServable (set : AddressSet) (msg_in : MessageIn) : Type 0 where
  pub id_length : length msg_in.reader.transaction_id ≡ 16
  pub id_bytes : IsBytes msg_in.reader.transaction_id
  pub remote : Laws.IsValid msg_in.addr_remote
  pub local : Laws.IsValid msg_in.addr_local
  pub own : (role : Role) → Laws.IsValid (at_role set role).addr

pub Ready-CanAnswer :
    {n : ℕ} {set : AddressSet} {msg_in : MessageIn} {h : Handler} (r : Ready n set msg_in h)
    → IsServable set msg_in
    → CanAnswer n r.buffer h
Ready-CanAnswer r s = record {
  is_there = r.is_there;
  room = r.room;
  id_length = ap (λ xs. length xs) r.id ∙ s.id_length;
  id_bytes = subst IsBytes (sym r.id) s.id_bytes;
  remote = subst (λ m. Laws.IsValid m.addr_remote) (sym r.request_of) s.remote;
  local = subst (λ m. Laws.IsValid m.addr_local) (sym r.request_of) s.local;
  own = λ role. subst (λ a. Laws.IsValid (at_role a role).addr) (sym r.addresses_of) (s.own role);
}

pub start-Ready :
    (n : ℕ) (auth : Option AuthProvider) (set : AddressSet) (msg_in : MessageIn) (buffer : Buffer)
    → HasRoom n buffer
    → Ready n set msg_in (noted (new_handler auth set msg_in (prepared msg_in buffer)))
unfolding new_handler set_size
start-Ready n auth set msg_in buffer room = record {
  request_of = refl;
  addresses_of = refl;
  id = refl;
  msg_type = refl;
  msg_class = refl;
  buffer = record buffer { size = 0 };
  is_there = rw (le→leb 0 buffer.allocated (omega arith)) refl;
  room = record {
    allocated = room.allocated;
    array = room.array;
    enough = room.enough;
    small = room.small;
  };
  code = inl refl;
  nonce = omega arith;
  realm = omega arith;
  legacy = refl;
  unsigned = λ e. refl;
}

-- the handler once the request has been allowed, or not
abbrev pub judged : Crypto → Option AuthProvider → AddressSet → MessageIn → Buffer → Handler
judged crypto auth set msg_in buffer = stage (validate_auth crypto) (
    stage check_type
      (honor_response_port (noted (new_handler auth set msg_in (prepared msg_in buffer)))))

pub judged-Ready :
    (crypto : Crypto) (n : ℕ) (auth : Option AuthProvider) (set : AddressSet) (msg_in : MessageIn)
    (buffer : Buffer)
    → HasRoom n buffer
    → Ready n set msg_in (judged crypto auth set msg_in buffer)
judged-Ready crypto n auth set msg_in buffer room =
    let start = noted (new_handler auth set msg_in (prepared msg_in buffer)) in
    let ported = honor_response_port start in
    let typed = stage check_type ported in
    let r₀ =
      honor_response_port-Ready n set msg_in start (start-Ready n auth set msg_in buffer room) in
    let r₁ =
      stage-Ready check_type n set msg_in ported r₀ (check_type-Ready n set msg_in ported r₀) in
    stage-Ready (validate_auth crypto) n set msg_in typed r₁
      (validate_auth-Ready crypto n set msg_in typed r₁)
