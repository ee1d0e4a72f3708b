-- ===== src/Client/Requests.antt =====
-- The request that a client test sends, in the hands of a server.
use nat_tester.Base.{
  ℕ, zero, suc, ◌+◌, ◌-◌, ◌%◌, ◌≡◌, refl, ap, ◌∙◌, Bool, true, false, List, [], ◌∷◌, ◌++◌, Option,
  some, length, length-set, set, arith, if◌then◌else◌, Bool-cases, inl, inr,
}
use nat_tester.Hresult.{s_ok}
use nat_tester.StunTypes.{
  TransactionId, request, class_code, binding_type, attribute_change_request, stun_cookie,
}
use nat_tester.Word.{uint32_bytes, htonl}
use nat_tester.Stream.{Buffer}
use nat_tester.Stream.Laws.{contents}
use nat_tester.Stream.Growth.{Supplies}
use nat_tester.Builder.{
  Builder, type_field, new_builder, attach_stream, set_legacy_mode, add_header,
  add_binding_request_header, add_transaction_id, add_random_transaction_id, random_transaction_id,
  random_id_loop, add_change_request, fix_length_field,
}
use nat_tester.Builder.Emit.{Holds}
use nat_tester.Builder.Message.{message}
use nat_tester.Builder.Errors.{change_value, add_change_request-Emitted}
use nat_tester.Builder.Drafts.{
  HasRoom, Holds-nothing, added-Drafted, started-Drafted, fixed-message, length-draft,
}
use nat_tester.Reader.{body_validated, new_reader, add_bytes}
use nat_tester.Reader.Get.{get_change_request, is_transaction_id_valid}
use nat_tester.Reader.Loop.{Attributes, frames}
use nat_tester.Reader.Whole.{IsMessage}
use nat_tester.Reader.Values.{Found-Understood, add_bytes-Understood}
use nat_tester.Reader.Found.{get_change_request-Found}
use nat_tester.Client.{
  ClientTest, Config, Results, change_request_of, start_binding_request, get_message,
}

length-random_id_loop :
    (rounds x : ℕ) (rand : ℕ → ℕ) (id : TransactionId)
    → length (random_id_loop rounds x rand id) ≡ length id
unfolding random_id_loop
length-random_id_loop zero x rand id = refl
length-random_id_loop (suc rounds) x rand id =
    length-random_id_loop rounds (x + 1) rand (set id x (rand (x - 4) % 256))
    ∙ length-set id x (rand (x - 4) % 256)

length-random_transaction_id :
    (rand : ℕ → ℕ) (fresh : TransactionId)
    → length fresh ≡ 16
    → length (random_transaction_id rand fresh) ≡ 16
unfolding random_transaction_id
length-random_transaction_id rand (a ∷ b ∷ c ∷ d ∷ rest) e =
    length-random_id_loop 8 4 rand (uint32_bytes (htonl stun_cookie) ++ rest) ∙ e
length-random_transaction_id rand fresh e = absurd (ground arith)

-- the id that a test sends: its own, or a random one if it has none yet
abbrev pub id_of : (ℕ → ℕ) → TransactionId → ClientTest → TransactionId
id_of rand fresh t =
    if is_transaction_id_valid t.transaction_id
    then t.transaction_id
    else random_transaction_id rand fresh

start_steps :
    (new_bytes : ℕ → Option (List ℕ)) (rand : ℕ → ℕ) (fresh : TransactionId) (t : ClientTest)
    (b : Builder)
    → ((start_binding_request new_bytes rand fresh t b).1
        ≡ (add_transaction_id new_bytes
            (id_of rand fresh t)
            (add_header new_bytes binding_type request b).1).1)
      × ((start_binding_request new_bytes rand fresh t b).0.transaction_id ≡ id_of rand fresh t)
unfolding start_binding_request add_random_transaction_id add_binding_request_header
start_steps new_bytes rand fresh t b =
    elim (Bool-cases (is_transaction_id_valid t.transaction_id)) [
      | inl e ↦ (rw e refl, rw e refl)
      | inr e ↦ (rw e refl, rw e refl)
    ]

length-id_of :
    (rand : ℕ → ℕ) (fresh : TransactionId) (t : ClientTest)
    → length fresh ≡ 16
    → length t.transaction_id ≡ 16
    → length (id_of rand fresh t) ≡ 16
length-id_of rand fresh t e f = go (is_transaction_id_valid t.transaction_id)
  where
    go : (b : Bool) → length (if b then t.transaction_id else random_transaction_id rand fresh) ≡ 16
    go true = f
    go false = length-random_transaction_id rand fresh e

-- the attributes of a request
abbrev pub request_attributes : ClientTest → Attributes
request_attributes t =
    (attribute_change_request, change_value (change_request_of t.class t.is_test3)) ∷ []

module _ (new_bytes : ℕ → Option (List ℕ)) (rand : ℕ → ℕ) (fresh : TransactionId) (c : Config)
    (r : Results) (t : ClientTest) {n : ℕ} (buffer : Buffer) (room : HasRoom n buffer)
    (fresh_length : length fresh ≡ 16) (id_length : length t.transaction_id ≡ 16) where
  abbrev attached : Builder
  attached = attach_stream (some buffer) new_builder

  attached-Holds : Holds n new_builder.transaction_id false [] attached
  unfolding set_legacy_mode new_builder attach_stream
  attached-Holds = Holds-nothing n false buffer room

  -- The message that `GetMessage` builds.
  pub get_message-message :
      contents (get_message new_bytes rand fresh (some buffer) c r t).1.stream
      ≡ message
          (type_field binding_type (class_code request))
          (id_of rand fresh t)
          (frames (request_attributes t))
  unfolding get_message
  get_message-message =
      let id = id_of rand fresh t in
      let l = length-id_of rand fresh t fresh_length id_length in
      let change = change_request_of t.class t.is_test3 in
      let start =
        (add_transaction_id new_bytes id
          (add_header new_bytes binding_type request attached).1).1 in
      let field = type_field binding_type (class_code request) in
      let d =
        started-Drafted new_bytes {id = id} binding_type request new_builder.transaction_id attached
          attached-Holds (omega (arith, room.enough)) l in
      let e =
        add_change_request-Emitted new_bytes change _ start d
          (omega (arith, room.enough, length-draft field id [] l)) in
      let changed =
        added-Drafted field [] attribute_change_request (change_value change)
          (add_change_request new_bytes change start) e in
      let (_, out) =
        fixed-message new_bytes field (request_attributes t)
          (add_change_request new_bytes change start).1 changed l (omega arith) in
      ap
        (λ b.
          contents (fix_length_field new_bytes (add_change_request new_bytes change b).1).1.stream)
        (start_steps new_bytes rand fresh t attached).0
      ∙ out.holds

-- A server that gives the request of a client test to a new reader gets a whole message: a binding
-- request with the transaction id that the test has noted, and GetChangeRequest gives the two flags
-- that the test asks for. The client's buffer has room for a message, transaction ids have 16
-- bytes, and memory does not run out.
pub get_change_request-get_message :
    (new_bytes : ℕ → Option (List ℕ)) (rand : ℕ → ℕ) (fresh : TransactionId) (c : Config)
    (r : Results) (t : ClientTest) (n : ℕ) (buffer : Buffer)
    → Supplies new_bytes
    → HasRoom n buffer
    → length fresh ≡ 16
    → length t.transaction_id ≡ 16
    → let (t', b, dest) = get_message new_bytes rand fresh (some buffer) c r t in
      let (state, reader) = add_bytes new_bytes (contents b.stream) new_reader in
      (state ≡ body_validated)
      × (reader.msg_class ≡ request)
      × (reader.msg_type_normalized ≡ binding_type)
      × (reader.transaction_id ≡ t'.transaction_id)
      × (get_change_request reader ≡ (s_ok, change_request_of t.class t.is_test3))
get_change_request-get_message new_bytes rand fresh c r t n buffer supplies room fresh_length
      id_length =
    let id = id_of rand fresh t in
    let m : IsMessage binding_type request id (request_attributes t) = record {
      good_class = ground arith;
      good_type = omega arith;
      id_length = length-id_of rand fresh t fresh_length id_length;
      sendable = ((omega arith, omega arith), tt);
      few = omega arith;
      short = omega arith;
    } in
    let (state, u) =
      add_bytes-Understood new_bytes supplies binding_type request id (request_attributes t) m in
    let noted_id : (get_message new_bytes rand fresh (some buffer) c r t).0.transaction_id ≡ id =
      unfold get_message in
      (start_steps new_bytes rand fresh t (attach_stream (some buffer) new_builder)).1 in
    rw (get_message-message new_bytes rand fresh c r t buffer room fresh_length id_length, noted_id)
      (
        state,
        u.class,
        u.type,
        u.id,
        get_change_request-Found (change_request_of t.class t.is_test3) (
            Found-Understood u attribute_change_request
              (change_value (change_request_of t.class t.is_test3)) refl),
      )
