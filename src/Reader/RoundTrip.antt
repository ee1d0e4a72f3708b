-- ===== src/Reader/RoundTrip.antt =====
-- What a message was made of, `CStunMessageReader` finds in it.
use nat_tester.Base.{ℕ, ◌≡◌, List, Option, none, some, slice}
use nat_tester.StunTypes.{MessageClass, class_code, TransactionId}
use nat_tester.Stream.Laws.{contents}
use nat_tester.Stream.Growth.{Supplies}
use nat_tester.Builder.{type_field}
use nat_tester.Builder.Message.{message}
use nat_tester.Reader.{Reader, body_validated, new_reader, add_bytes}
use nat_tester.Reader.Get.{get_attribute_by_type}
use nat_tester.Reader.Loop.{Attributes, frames}
use nat_tester.Reader.Whole.{IsMessage}
use nat_tester.Reader.Values.{last_value, values-Understood, add_bytes-Understood}

-- the value that `GetAttributeByType` points to
abbrev pub value_found : ℕ → Reader → Option (List ℕ)
value_found type r = elim (get_attribute_by_type type r) [
  | none ↦ none
  | some a ↦ some (slice (contents r.stream) a.offset a.size)
]

-- A new reader accepts every message of a valid type and class, a 16-byte id and at most 30
-- attributes of at most 780 bytes each, 800 with their headers and padding, if memory does not
-- run out: the state is `BodyValidated`, type, class and id are those of the message, and
-- `GetAttributeByType` finds the value of the last attribute of the type, and nothing if there is
-- none.
pub add_bytes-message :
    (new_bytes : ℕ → Option (List ℕ)) (msg_type : ℕ) (class : MessageClass) (id : TransactionId)
    (attributes : Attributes) (sought : ℕ)
    → Supplies new_bytes
    → IsMessage msg_type class id attributes
    → let (state, r) =
        add_bytes new_bytes
          (message (type_field msg_type (class_code class)) id (frames attributes))
          new_reader in
      (state ≡ body_validated)
      × (r.msg_type_normalized ≡ msg_type)
      × (r.msg_class ≡ class)
      × (r.transaction_id ≡ id)
      × (value_found sought r ≡ last_value sought attributes)
unfolding get_attribute_by_type
add_bytes-message new_bytes msg_type class id attributes sought supplies m =
    let (state, u) = add_bytes-Understood new_bytes supplies msg_type class id attributes m in
    (state, u.type, u.class, u.id, values-Understood u sought)
