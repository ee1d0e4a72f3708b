-- ===== src/Tests/Messages.antt =====
-- The theorems on streams, messages and addresses, at concrete inputs.
use nat_tester.Base.{
  bit_xor, ℕ, ◌+◌, ◌≤◌, ◌≡◌, ◌↔◌, refl, true, false, List, [], ◌∷◌, some, length, drop, take,
  bit_and, arith, replicate,
}
use nat_tester.Word.{uint32_bytes, htonl}
use nat_tester.StunTypes.{Attribute, TransactionId, success_response, stun_cookie}
use nat_tester.Stream.{Stream, read, write, seek_direct}
use nat_tester.Stream.Laws.{IsValid, Wrote, contents, read-write}
use nat_tester.Stream.Fixed.{IsFixed, after_writes, after_writes-fitted}
use nat_tester.Address.Masked.{number, apply_stun_xor_map_lem}
use nat_tester.Stream.Growth.{write-Wrote}
use nat_tester.FastHash.Refine.{fast_hash-Represents}
use nat_tester.Address.{Address, inet, apply_stun_xor_map, is_same_ip_and_port}
use nat_tester.Address.Laws.{IsBytes, apply_stun_xor_map-IsValid, is_same_ip_and_port_iff}
use nat_tester.Address.Laws
use nat_tester.Builder.{random_transaction_id, type_field}
use nat_tester.Builder.TransactionIds.{random_transaction_id-drop}
use nat_tester.Builder.TypeField.{class_of-type_field}
use nat_tester.Reader.{
  Reader, add_bytes, read_body, new_reader, max_num_attributes, attribute_table_width, class_of,
  normalized_type,
}
use nat_tester.Reader.Safety.{Sound, InBounds, read_body-Sound}
use nat_tester.Reader.States.{IsReading}
use nat_tester.Reader.Feed.{add_bytes-IsReading, new_reader-IsReading}
use nat_tester.Reader.Attributes.{get_attribute_by_type-InBounds}
use nat_tester.Tests.{heap, heap-Supplies, request_message, request_reader, program, cookie_id}

add_bytes-IsReading_example :
    IsReading (add_bytes heap request_message new_reader).1
    × ((add_bytes heap request_message new_reader).0
        ≡ (add_bytes heap request_message new_reader).1.state)
unfolding program
add_bytes-IsReading_example =
    add_bytes-IsReading heap heap-Supplies request_message new_reader new_reader-IsReading
      (omega arith)

abbrev change_request_found : Attribute
change_request_found = record { attribute_type = 3; size = 4; offset = 24 }

get_attribute_by_type-InBounds_example : InBounds 28 (3, change_request_found)
unfolding program
get_attribute_by_type-InBounds_example =
    get_attribute_by_type-InBounds 3 request_reader change_request_found
      (add_bytes-IsReading heap heap-Supplies request_message new_reader new_reader-IsReading
        (omega arith)).0
      refl refl

-- four bytes in an array of six, the position behind the second
abbrev small_stream : Stream
small_stream = record {
  buffer = some (record { bytes = some (1 ∷ 2 ∷ 3 ∷ 4 ∷ 0 ∷ 0 ∷ []); size = 4; allocated = 6 });
  pos = 2;
  no_grow = false;
}

small_stream-IsValid : IsValid small_stream
small_stream-IsValid = record {
  pos_in = omega arith;
  fits = omega arith;
  room = omega arith;
  small = omega arith;
}

abbrev fixed_stream : Stream
fixed_stream = record small_stream { pos = 4; no_grow = true }

fixed_stream-IsValid : IsValid fixed_stream
fixed_stream-IsValid = record {
  pos_in = omega arith;
  fits = omega arith;
  room = omega arith;
  small = omega arith;
}

write-Wrote_example :
    Wrote small_stream
      (7 ∷ 8 ∷ 9 ∷ 10 ∷ 11 ∷ [])
      (write heap (7 ∷ 8 ∷ 9 ∷ 10 ∷ 11 ∷ []) small_stream)
write-Wrote_example =
    write-Wrote heap heap-Supplies (7 ∷ 8 ∷ 9 ∷ 10 ∷ 11 ∷ []) small_stream small_stream-IsValid
      (omega arith) (omega arith) (λ h. refl)

read-write_example :
    (read 3 (seek_direct 2 (write heap (7 ∷ 8 ∷ 9 ∷ []) small_stream).1).1).1 ≡ 7 ∷ 8 ∷ 9 ∷ []
read-write_example =
    read-write heap (7 ∷ 8 ∷ 9 ∷ []) small_stream small_stream-IsValid (omega arith) (omega arith)

fixed_stream-IsFixed : IsFixed 6 (contents fixed_stream) fixed_stream
fixed_stream-IsFixed = record {
  valid = fixed_stream-IsValid;
  fixed = refl;
  at_end = refl;
  capacity = refl;
  holds = refl;
}

after_writes-fitted_example :
    let calls : List (List ℕ) = (7 ∷ 8 ∷ 9 ∷ 10 ∷ 11 ∷ []) ∷ (12 ∷ []) ∷ [] in
    IsFixed 6 (1 ∷ 2 ∷ 3 ∷ 4 ∷ 12 ∷ []) (after_writes heap calls fixed_stream)
after_writes-fitted_example =
    after_writes-fitted heap 6 (contents fixed_stream) ((7 ∷ 8 ∷ 9 ∷ 10 ∷ 11 ∷ []) ∷ (12 ∷ []) ∷ [])
      fixed_stream fixed_stream-IsFixed (omega arith, (omega arith, tt))

-- 192.0.2.1, port 32853
abbrev mapped_address : Address
mapped_address = record { family = inet; port = 128 ∷ 85 ∷ []; ip = 192 ∷ 0 ∷ 2 ∷ 1 ∷ [] }

mapped_address-IsValid : Laws.IsValid mapped_address
mapped_address-IsValid = record {
  port_length = refl;
  port_bytes = ground arith;
  ip_length = refl;
  ip_bytes = ground arith;
}

cookie_id-IsBytes : IsBytes cookie_id
cookie_id-IsBytes = ground arith

apply_stun_xor_map_lem_example :
    let masked = apply_stun_xor_map cookie_id mapped_address in
    Laws.IsValid masked
    × (masked.family ≡ inet)
    × (number masked.port ≡ bit_xor 32853 0x2112)
    × (number masked.ip ≡ bit_xor 0xC0000201 0x2112A442)
    × (apply_stun_xor_map cookie_id masked ≡ mapped_address)
apply_stun_xor_map_lem_example =
    apply_stun_xor_map_lem cookie_id mapped_address refl cookie_id-IsBytes mapped_address-IsValid

is_same_ip_and_port_iff_example :
    (is_same_ip_and_port mapped_address mapped_address ≡ true) ↔ (mapped_address ≡ mapped_address)
is_same_ip_and_port_iff_example =
    is_same_ip_and_port_iff mapped_address mapped_address mapped_address-IsValid
      mapped_address-IsValid

abbrev dice : ℕ → ℕ
dice i = 1000 + i

abbrev stack_bytes : TransactionId
stack_bytes = replicate 16 0xcd

random_transaction_id-drop_example :
    (take 4 (random_transaction_id dice stack_bytes) ≡ uint32_bytes (htonl stun_cookie))
    × (drop 12 (random_transaction_id dice stack_bytes) ≡ drop 12 stack_bytes)
random_transaction_id-drop_example = random_transaction_id-drop dice stack_bytes refl

class_of-type_field_example :
    (bit_and (type_field 1 2) 0xc000 ≡ 0)
    × (normalized_type (type_field 1 2) ≡ 1)
    × (class_of (type_field 1 2) ≡ success_response)
class_of-type_field_example = class_of-type_field success_response 1 (ground arith) (omega arith)

-- the parser at the body of the request, in a stream that holds all of it
abbrev body_reader : Reader
body_reader = record new_reader {
  stream = record {
    buffer = some (record { bytes = some request_message; size = 28; allocated = 28 });
    pos = 20;
    no_grow = false;
  };
  msg_length = 8;
}

body_reader-Sound : Sound 28 body_reader []
unfolding program
body_reader-Sound = record {
  valid = record {
    pos_in = omega arith;
    fits = omega arith;
    room = omega arith;
    small = omega arith;
  };
  growing = refl;
  whole = refl;
  announced = refl;
  short = omega arith;
  capacity = refl;
  table = fast_hash-Represents max_num_attributes attribute_table_width (omega arith);
  bounds = tt;
  counted = refl;
}

read_body-Sound_example :
    (found : List (ℕ × Attribute)) × Sound 28 (read_body body_reader).1 found
    × (length found ≤ max_num_attributes)
unfolding program
read_body-Sound_example = read_body-Sound 28 body_reader body_reader-Sound (omega arith) refl
