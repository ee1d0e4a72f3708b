-- ===== src/Server/Binding.antt =====
-- What `ProcessBindingRequest` makes of a request that came through the checks before it, with no
-- authentication provider.
use nat_tester.Base.{
  ℕ, ◌≡◌, inl, inr, refl, sym, ap, ◌∙◌, Bool, true, false, not, ◌&&◌, ◌||◌, List, Option, none,
  arith, if◌then◌else◌, ◌==◌, Bool-cases,
}
use nat_tester.Hresult.{Hresult, s_ok, e_fail, succeeded}
use nat_tester.StunTypes.{binding_type}
use nat_tester.Stream.{Buffer}
use nat_tester.Crypto.{Crypto}
use nat_tester.Reader.Get.{get_change_request, get_padding_attribute_size}
use nat_tester.Server.Roles.{AddressSet, Role, has_address}
use nat_tester.Server.Handler.{
  Handler, MessageIn, new_handler, validate_auth, honor_response_port, stage, with_error, respond,
  response_builder, process_binding_request,
}
use nat_tester.Server.Expected.{
  requested_port, asks_for_change, socket_expected, is_answerable, output_role-wanted,
}
use nat_tester.Server.Ready.{bound, stage_runs}
use nat_tester.Server.Stages.{judged}

-- the checks in front of `ProcessBindingRequest`, and its own
abbrev pub admitted : MessageIn → Bool
admitted msg_in =
    (msg_in.reader.msg_type_normalized == binding_type)
    && (requested_port msg_in == 0 || not msg_in.connection_oriented)

abbrev pub refuses : AddressSet → MessageIn → Bool → Bool
refuses set msg_in ported =
    (ported && succeeded (get_padding_attribute_size msg_in.reader).0)
    || (asks_for_change msg_in
        && (not (has_address set (socket_expected msg_in)) || msg_in.connection_oriented))

two_checks :
    (t s c p a x : Bool)
    → (t && ((s || not (c || p)) && (not a || (not c && x))))
      ≡ ((t && (s || not c)) && not ((not s && p) || (a && (not x || c))))
two_checks false s c p a x = refl
two_checks true true c p false x = refl
two_checks true true false p true x = ground arith
two_checks true true true p true x = ground arith
two_checks true false false false a x = ground arith
two_checks true false false true a x = refl
two_checks true false true p a x = refl

pub is_answerable-admitted :
    (set : AddressSet) (msg_in : MessageIn)
    → is_answerable set msg_in
      ≡ (admitted msg_in && not (refuses set msg_in (not (requested_port msg_in == 0))))
is_answerable-admitted set msg_in =
    two_checks (msg_in.reader.msg_type_normalized == binding_type) (requested_port msg_in == 0)
      msg_in.connection_oriented (succeeded (get_padding_attribute_size msg_in.reader).0)
      (asks_for_change msg_in) (has_address set (socket_expected msg_in))

-- the handler in front of `ProcessBindingRequest`
pub record Judged (msg_in : MessageIn) (h : Handler) : Type 0 where
  pub code : h.error.code ≡ (if admitted msg_in then 0 else 400)
  pub ported : h.has_response_port ≡ not (requested_port msg_in == 0)
  pub role : h.msg_out.role ≡ msg_in.role
  pub auth : h.auth ≡ none

pub judged-Judged :
    (crypto : Crypto) (set : AddressSet) (msg_in : MessageIn) (buffer : Buffer)
    → Judged msg_in (judged crypto none set msg_in buffer)
unfolding honor_response_port new_handler validate_auth
judged-Judged crypto set msg_in buffer = record {
  code = ground arith;
  ported = ground arith;
  role = ground arith;
  auth = ground arith;
}

abbrev pub emptied : Handler → Handler
emptied h = with_error 400 (respond h (response_builder h))

two_ifs :
    (p r : Bool) (x y : Hresult × Handler)
    → (if p then x else if r then x else y) ≡ (if p || r then x else y)
two_ifs true r x y = refl
two_ifs false r x y = refl

module _ (new_bytes : ℕ → Option (List ℕ)) (crypto : Crypto) where
  -- the handler with the response from the socket that is asked for
  abbrev pub built : Handler → Handler
  built h = bound new_bytes crypto (socket_expected h.msg_in) h

  binding-exact :
      (h : Handler)
      → process_binding_request new_bytes crypto h ≡ (
          if refuses h.addresses h.msg_in h.has_response_port
          then (e_fail, emptied h)
          else (s_ok, built h))
  unfolding process_binding_request
  binding-exact h =
      ap by_role (
        ap (λ x. if asks_for_change h.msg_in then x else h.msg_in.role)
          (output_role-wanted (get_change_request h.msg_in.reader).1 h.msg_in.role))
      ∙ two_ifs padded _ (e_fail, emptied h) (s_ok, built h)
    where
      padded : Bool
      padded = h.has_response_port && succeeded (get_padding_attribute_size h.msg_in.reader).0

      by_role : Role → Hresult × Handler
      by_role role =
          if padded
          then (e_fail, emptied h)
          else if asks_for_change h.msg_in
              && (not (has_address h.addresses role) || h.msg_in.connection_oriented)
          then (e_fail, emptied h)
          else (s_ok, bound new_bytes crypto role h)

  pub binding_stage-exact :
      (h : Handler)
      → h.error.code ≡ 0
      → stage (process_binding_request new_bytes crypto) h
        ≡ (if refuses h.addresses h.msg_in h.has_response_port then emptied h else built h)
  binding_stage-exact h fine =
      elim (Bool-cases (refuses h.addresses h.msg_in h.has_response_port)) [
        | inl e ↦
            stage_runs (process_binding_request new_bytes crypto) h (emptied h) e_fail fine
              (binding-exact h ∙ ap tried e)
            ∙ sym (ap left e)
        | inr e ↦
            stage_runs (process_binding_request new_bytes crypto) h (built h) s_ok fine
              (binding-exact h ∙ ap tried e)
            ∙ sym (ap left e)
      ]
    where
      tried : Bool → Hresult × Handler
      tried refused = if refused then (e_fail, emptied h) else (s_ok, built h)

      left : Bool → Handler
      left refused = if refused then emptied h else built h
