-- ===== src/Server/Access.antt =====
-- Whom `CStunRequestHandler` serves, where an authentication provider is asked.
use nat_tester.Base.{
  ℕ, ◌≡◌, ◌⊎◌, inl, inr, refl, sym, ap, subst, ◌∙◌, Bool, true, false, not, ◌||◌, List, Option,
  none, some, arith, if◌then◌else◌, ◌==◌,
}
use nat_tester.Hresult.{Hresult, s_ok, succeeded}
use nat_tester.Stream.{Buffer}
use nat_tester.Crypto.{Crypto}
use nat_tester.Reader.{Reader}
use nat_tester.Reader.Auth.{validate_message_integrity_long, validate_message_integrity_short}
use nat_tester.Server.Roles.{AddressSet}
use nat_tester.Server.Auth.{
  AuthProvider, AuthResponse, AuthAttributes, ResponseType, allow, allow_conditional, stale_nonce,
  reject, unauthorized, short_term, long_term, auth_attributes, terminated,
}
use nat_tester.Server.Handler.{
  Handler, MessageIn, new_handler, stage, check_type, validate_auth, judge, check_integrity,
  process_binding_request, honor_response_port, noted, with_error,
}
use nat_tester.Server.Rules.{prepared, served}

-- The message integrity of the request holds under the password that the provider has given.
abbrev pub IntegrityHolds : Crypto → AuthAttributes → AuthResponse → Reader → Type 0
IntegrityHolds crypto attributes a reader =
    succeeded (elim a.mechanism [
      | short_term ↦ validate_message_integrity_short crypto a.password reader
      | long_term ↦
          validate_message_integrity_long crypto attributes.user attributes.realm a.password reader
    ])
    ≡ true

-- No provider is asked, or it allows the request, or allows it under a condition that is met.
abbrev pub Allowed : Crypto → Option AuthProvider → Reader → Type 0
Allowed crypto none reader = Unit
Allowed crypto (some provider) reader =
    let attributes = auth_attributes reader in
    let (hr, answer) = provider attributes in
    (succeeded hr ≡ true)
    × ((answer.response_type ≡ allow)
        ⊎ ((answer.response_type ≡ allow_conditional)
            × IntegrityHolds crypto attributes (terminated answer) reader))

stage-clean :
    (f : Handler → Hresult × Handler) (h : Handler)
    → (stage f h).error.code ≡ 0
    → (h.error.code ≡ 0) × (succeeded (f h).0 ≡ true) × ((f h).1.error.code ≡ 0)
stage-clean f h clean =
    go (h.error.code == 0) refl (succeeded (f h).0) refl ((f h).1.error.code == 0) refl
  where
    go :
        (before : Bool)
        → (h.error.code == 0) ≡ before
        → (ok : Bool) → succeeded (f h).0 ≡ ok
        → (after : Bool) → ((f h).1.error.code == 0) ≡ after
        → (h.error.code ≡ 0) × (succeeded (f h).0 ≡ true) × ((f h).1.error.code ≡ 0)
    go before b ok o after a = ground arith

check_integrity-clean :
    (crypto : Crypto) (attributes : AuthAttributes) (a : AuthResponse) (h : Handler)
    → (check_integrity crypto attributes a h).error.code ≡ 0
    → IntegrityHolds crypto attributes a h.msg_in.reader
unfolding check_integrity
check_integrity-clean crypto attributes a h clean = ground arith

judge-clean :
    (crypto : Crypto) (attributes : AuthAttributes) (a : AuthResponse) (h : Handler)
    → (judge crypto attributes a h).error.code ≡ 0
    → (a.response_type ≡ allow)
      ⊎ ((a.response_type ≡ allow_conditional) × IntegrityHolds crypto attributes a h.msg_in.reader)
unfolding judge
judge-clean crypto attributes a h clean = go a.response_type refl
  where
    judged : ResponseType → Handler
    judged t = elim t [
      | allow ↦ h
      | allow_conditional ↦ check_integrity crypto attributes a h
      | stale_nonce ↦ with_error 438 h
      | reject ↦ with_error 400 h
      | unauthorized ↦ with_error 401 h
    ]

    code : (t : ResponseType) → a.response_type ≡ t → (judged t).error.code ≡ 0
    code t e = ap (λ x. (judged x).error.code) (sym e) ∙ clean

    go :
        (t : ResponseType)
        → a.response_type ≡ t
        → (a.response_type ≡ allow)
          ⊎ ((a.response_type ≡ allow_conditional)
              × IntegrityHolds crypto attributes a h.msg_in.reader)
    go allow e = inl e
    go allow_conditional e =
        inr (e, check_integrity-clean crypto attributes a h (code allow_conditional e))
    go stale_nonce e = absurd (omega (arith, code stale_nonce e))
    go reject e = absurd (omega (arith, code reject e))
    go unauthorized e = absurd (omega (arith, code unauthorized e))

-- what `ValidateAuth` makes of the answer of a provider
abbrev asked : Crypto → AuthProvider → Handler → Hresult × Handler
asked crypto provider h =
    let attributes = auth_attributes h.msg_in.reader in
    let (hr, answer) = provider attributes in
    let a = terminated answer in
    let judged = judge crypto attributes a h in
    let challenged = record judged {
      error = record (judged.error) { realm = a.realm; nonce = a.nonce };
    } in
    if not (succeeded hr)
    then (hr, h)
    else if judged.error.code == 401 || judged.error.code == 438
    then (hr, challenged)
    else (hr, judged)

ending-clean :
    (hr : Hresult) (named : Bool) (h challenged judged : Handler)
    → challenged.error.code ≡ judged.error.code
    → let out : Hresult × Handler =
        if not (succeeded hr) then (hr, h) else if named then (hr, challenged) else (hr, judged) in
      succeeded out.0 ≡ true
      → out.1.error.code ≡ 0
      → (succeeded hr ≡ true) × (judged.error.code ≡ 0)
ending-clean hr true h challenged judged same ok clean = ground arith
ending-clean hr false h challenged judged same ok clean = ground arith

asked-clean :
    (crypto : Crypto) (provider : AuthProvider) (h : Handler)
    → succeeded (asked crypto provider h).0 ≡ true
    → (asked crypto provider h).1.error.code ≡ 0
    → Allowed crypto (some provider) h.msg_in.reader
asked-clean crypto provider h ok clean =
    let attributes = auth_attributes h.msg_in.reader in
    let (hr, answer) = provider attributes in
    let a = terminated answer in
    let judged = judge crypto attributes a h in
    let challenged : Handler = record judged {
      error = record (judged.error) { realm = a.realm; nonce = a.nonce };
    } in
    let (worked, code) =
      ending-clean hr (judged.error.code == 401 || judged.error.code == 438) h challenged judged
        refl ok clean in
    (worked, unfold terminated in judge-clean crypto attributes a h code)

validate_auth-clean :
    (crypto : Crypto) (h : Handler)
    → succeeded (validate_auth crypto h).0 ≡ true
    → (validate_auth crypto h).1.error.code ≡ 0
    → Allowed crypto h.auth h.msg_in.reader
unfolding validate_auth
validate_auth-clean crypto h ok clean = go h.auth refl
  where
    by_auth : Option AuthProvider → Hresult × Handler
    by_auth auth = elim auth [ none ↦ (s_ok, h) | some provider ↦ asked crypto provider h ]

    go : (auth : Option AuthProvider) → h.auth ≡ auth → Allowed crypto h.auth h.msg_in.reader
    go none e = rw e tt
    go (some provider) e =
        subst (λ x. Allowed crypto x h.msg_in.reader) (sym e)
          (asked-clean crypto provider h (ap (λ x. succeeded (by_auth x).0) (sym e) ∙ ok)
            (ap (λ x. (by_auth x).1.error.code) (sym e) ∙ clean))

allowed_start :
    (auth : Option AuthProvider) (set : AddressSet) (msg_in : MessageIn) (buffer : Buffer)
    → let h =
        stage check_type
          (honor_response_port (noted (new_handler auth set msg_in (prepared msg_in buffer)))) in
      (h.auth ≡ auth) × (h.msg_in.reader ≡ msg_in.reader)
unfolding honor_response_port new_handler
allowed_start auth set msg_in buffer = (ground arith, ground arith)

-- A request is served without an error only if no provider is asked, or the provider has answered
-- that it is allowed, or that it is allowed if its message integrity holds, which it then does
-- under the password of the answer.
pub served-Allowed :
    (new_bytes : ℕ → Option (List ℕ)) (crypto : Crypto) (auth : Option AuthProvider)
    (set : AddressSet) (msg_in : MessageIn) (buffer : Buffer)
    → (served new_bytes crypto (new_handler auth set msg_in (prepared msg_in buffer))).error.code
      ≡ 0
    → Allowed crypto auth msg_in.reader
served-Allowed new_bytes crypto auth set msg_in buffer clean =
    let typed =
      stage check_type
        (honor_response_port (noted (new_handler auth set msg_in (prepared msg_in buffer)))) in
    let (allowed, _, _) =
      stage-clean (process_binding_request new_bytes crypto) (stage (validate_auth crypto) typed)
        clean in
    let (_, worked, code) = stage-clean (validate_auth crypto) typed allowed in
    let (same_auth, same_reader) = allowed_start auth set msg_in buffer in
    subst (λ x. Allowed crypto x msg_in.reader) same_auth
      (subst (Allowed crypto typed.auth) same_reader (validate_auth-clean crypto typed worked code))
