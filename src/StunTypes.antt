-- ===== src/StunTypes.antt =====
-- all/stuntypes.h: the attribute numbers, sizes and message classes of STUN.
use nat_tester.Base.{ℕ, Bool, List, ◌==◌, bit_and}

abbrev pub attribute_mapped_address : ℕ
attribute_mapped_address = 0x0001

abbrev pub attribute_change_request : ℕ
attribute_change_request = 0x0003

abbrev pub attribute_source_address : ℕ
attribute_source_address = 0x0004

abbrev pub attribute_changed_address : ℕ
attribute_changed_address = 0x0005

abbrev pub attribute_username : ℕ
attribute_username = 0x0006

abbrev pub attribute_legacy_password : ℕ
attribute_legacy_password = 0x0007

abbrev pub attribute_message_integrity : ℕ
attribute_message_integrity = 0x0008

abbrev pub attribute_error_code : ℕ
attribute_error_code = 0x0009

abbrev pub attribute_unknown_attributes : ℕ
attribute_unknown_attributes = 0x000A

abbrev pub attribute_realm : ℕ
attribute_realm = 0x0014

abbrev pub attribute_nonce : ℕ
attribute_nonce = 0x0015

abbrev pub attribute_xor_mapped_address : ℕ
attribute_xor_mapped_address = 0x0020

abbrev pub attribute_padding : ℕ
attribute_padding = 0x0026

abbrev pub attribute_response_port : ℕ
attribute_response_port = 0x0027

abbrev pub attribute_xor_mapped_address_optional : ℕ
attribute_xor_mapped_address_optional = 0x8020

abbrev pub attribute_fingerprint : ℕ
attribute_fingerprint = 0x8028

abbrev pub attribute_response_origin : ℕ
attribute_response_origin = 0x802b

abbrev pub attribute_other_address : ℕ
attribute_other_address = 0x802c

abbrev pub transaction_id_length : ℕ
transaction_id_length = 16

abbrev pub field_ipv4 : ℕ
field_ipv4 = 1

abbrev pub field_ipv6 : ℕ
field_ipv6 = 2

abbrev pub ipv4_length : ℕ
ipv4_length = 4

abbrev pub ipv6_length : ℕ
ipv6_length = 16

abbrev pub mapped_address_size_ipv4 : ℕ
mapped_address_size_ipv4 = 8

abbrev pub mapped_address_size_ipv6 : ℕ
mapped_address_size_ipv6 = 20

abbrev pub response_port_size : ℕ
response_port_size = 2

abbrev pub change_request_size : ℕ
change_request_size = 4

abbrev pub stun_cookie : ℕ
stun_cookie = 0x2112A442

abbrev pub fingerprint_xor : ℕ
fingerprint_xor = 0x5354554e

abbrev pub header_size : ℕ
header_size = 20

abbrev pub max_message_size : ℕ
max_message_size = 800

abbrev pub max_attribute_size : ℕ
max_attribute_size = 780

abbrev pub default_stun_port : ℕ
default_stun_port = 3478

-- `enum StunMessageClass`
pub data MessageClass : Type 0 where
  request indication success_response failure_response invalid_class : MessageClass

-- the value of the enumerator
abbrev pub class_code : MessageClass → ℕ
class_code request = 0
class_code indication = 1
class_code success_response = 2
class_code failure_response = 3
class_code invalid_class = 0xff

abbrev pub binding_type : ℕ
binding_type = 0x0001

-- `struct StunAttribute`
pub record Attribute : Type 0 where
  pub attribute_type : ℕ
  pub size : ℕ
  pub offset : ℕ

-- `struct StunChangeRequestAttribute`
pub record ChangeRequest : Type 0 where
  pub change_ip : Bool
  pub change_port : Bool

-- `STUN_IS_REQUEST` and its three kin
abbrev pub is_request : ℕ → Bool
is_request msg_type = bit_and msg_type 0x0110 == 0x0000

abbrev pub is_indication : ℕ → Bool
is_indication msg_type = bit_and msg_type 0x0110 == 0x0010

abbrev pub is_success_response : ℕ → Bool
is_success_response msg_type = bit_and msg_type 0x0110 == 0x0100

abbrev pub is_error_response : ℕ → Bool
is_error_response msg_type = bit_and msg_type 0x0110 == 0x0110

-- `StunTransactionId`: its 16 bytes
abbrev pub TransactionId : Type 0
TransactionId = List ℕ
