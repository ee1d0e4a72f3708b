-- ===== src/Server/Auth.antt =====
-- all/stunauth.h: what an authentication provider is asked, and what it answers.
use nat_tester.Base.{ℕ, ◌+◌, Bool, List, [], ◌∷◌, take, ◌==◌, if◌then◌else◌}
use nat_tester.Hresult.{Hresult, succeeded}
use nat_tester.StunTypes.{
  attribute_username, attribute_realm, attribute_nonce, attribute_legacy_password,
}
use nat_tester.Builder.Auth.{max_auth_string_size}
use nat_tester.Reader.{Reader}
use nat_tester.Reader.Get.{get_string_attribute_by_type, has_message_integrity_attribute}

-- A string is the list of the characters in front of its final 0.
abbrev pub c_string : List ℕ → List ℕ
c_string [] = []
c_string (c ∷ text) = if c == 0 then [] else c ∷ c_string text

-- `AuthAttributes`
pub record AuthAttributes : Type 0 where
  pub user : List ℕ
  pub realm : List ℕ
  pub nonce : List ℕ
  pub legacy_password : List ℕ
  pub integrity_present : Bool

-- `AuthCredentialMechanism`
pub data CredentialMechanism : Type 0 where
  short_term long_term : CredentialMechanism

-- `AuthResponseType`
pub data ResponseType : Type 0 where
  allow allow_conditional stale_nonce reject unauthorized : ResponseType

-- `AuthResponse`
pub record AuthResponse : Type 0 where
  pub response_type : ResponseType
  pub mechanism : CredentialMechanism
  pub password : List ℕ
  pub realm : List ℕ
  pub nonce : List ℕ

-- `IStunAuth::DoAuthCheck`, which the user of the library implements
abbrev pub AuthProvider : Type 0
AuthProvider = AuthAttributes → Hresult × AuthResponse

-- a string attribute read to an array of 65 characters that holds zeros
abbrev pub string_attribute : ℕ → Reader → List ℕ
string_attribute type r =
    let (hr, text) = get_string_attribute_by_type type (max_auth_string_size + 1) r in
    if succeeded hr then c_string text else []

-- the attributes that `ValidateAuth` collects
unfoldable pub auth_attributes : Reader → AuthAttributes
auth_attributes r = record {
  user = string_attribute attribute_username r;
  realm = string_attribute attribute_realm r;
  nonce = string_attribute attribute_nonce r;
  legacy_password = string_attribute attribute_legacy_password r;
  integrity_present = has_message_integrity_attribute r;
}

-- `ValidateAuth` ends the arrays of the answer with a 0.
unfoldable pub terminated : AuthResponse → AuthResponse
terminated a = record a {
  password = c_string (take max_auth_string_size a.password);
  realm = c_string (take max_auth_string_size a.realm);
  nonce = c_string (take max_auth_string_size a.nonce);
}
