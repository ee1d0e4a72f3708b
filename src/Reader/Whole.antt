-- ===== src/Reader/Whole.antt =====
-- What `CStunMessageReader` makes of the bytes of a whole message.
use nat_tester.Base.{
  ℕ, ◌+◌, ◌%◌, ◌^◌, ◌≤◌, ◌<◌, ◌≡◌, ◌≢◌, refl, sym, ap, ◌∙◌, subst, true, false, not, List, [], ◌∷◌,
  ◌++◌, Option, length, length-append, take, slice, take-append, arith, if◌then◌else◌, ◌==◌,
  ==_refl, ne→==_false, ℕ_discrete, le→leb, le→ltb_false,
}
use nat_tester.Hresult.{s_ok, succeeded}
use nat_tester.Word.{htonl, uint32_at}
use nat_tester.StunTypes.{
  MessageClass, invalid_class, class_code, TransactionId, max_message_size, header_size,
  transaction_id_length, stun_cookie,
}
use nat_tester.Stream.{Stream, Buffer, get_size}
use nat_tester.Stream.Laws.{IsValid, contents, length-contents, seek_direct_lem, read_lem}
use nat_tester.FastHash.Chains.{All}
use nat_tester.Builder.{type_field}
use nat_tester.Builder.Emit.{be16, frame}
use nat_tester.Builder.Message.{message}
use nat_tester.Builder.TypeField.{class_of-type_field}
use nat_tester.Reader.{
  Reader, ParseState, header_not_read, header_validated, body_validated, parse_error, check_header,
  read_header, read_body, try_header, try_body, reject_excess, digest, after_header, padding_length,
  max_num_attributes,
}
use nat_tester.Reader.Frames.{seek_to, be16_at, read_uint16_lem}
use nat_tester.Reader.Safety.{Sound}
use nat_tester.Reader.States.{Open, with_header, with_body, Sound-nothing, Sound-state}
use nat_tester.Reader.Loop.{
  Attributes, frames, parsed, IsSendable, entries, values_in, onto, slice-append, be16_at-append,
  length-frame, read_body-frames,
}

length-message :
    (field : ℕ) (id : TransactionId) (body : List ℕ)
    → length id ≡ transaction_id_length
    → length (message field id body) ≡ header_size + length body
length-message field id body l = omega (arith, length-append id body)

-- the reader after the fields of a header
abbrev pub with_fields : ℕ → MessageClass → ℕ → TransactionId → Reader → Reader
with_fields type class size id r = record r {
  message_is_legacy_format = not (htonl (uint32_at id) == stun_cookie);
  msg_type_normalized = type;
  msg_length = size;
  transaction_id = id;
  msg_class = class;
}

module _ (type : ℕ) (class : MessageClass) (good_class : class ≢ invalid_class)
    (good_type : type < 4096) (id : TransactionId) where
  check_header-fields :
      (size : ℕ) (r : Reader)
      → r.allow_legacy_format ≡ true
      → size % 4 ≡ 0
      → size ≤ max_message_size
      → check_header (type_field type (class_code class)) size id r
        ≡ (s_ok, with_fields type class size id r)
  unfolding check_header
  check_header-fields size r allow four short =
      let (clear, type_same, class_same) = class_of-type_field class type good_class good_type in
      ground arith

moved-IsValid : (p : ℕ) (s : Stream) → IsValid s → p ≤ get_size s → IsValid (record s { pos = p })
moved-IsValid p s v h = record { pos_in = h; fits = v.fits; room = v.room; small = v.small }

-- The three reads of `ReadHeader` find the fields of a message.
read_header-fields :
    (field : ℕ) (id : TransactionId) (body : List ℕ) (r : Reader)
    → IsValid r.stream
    → contents r.stream ≡ message field id body
    → length id ≡ transaction_id_length
    → field < 2 ^ 16
    → length body < 2 ^ 16
    → read_header r ≡ check_header field (length body) id (seek_to header_size r)
unfolding read_header
read_header-fields field id body r v e l small_field small =
    let s = r.stream in
    let size : get_size s ≡ header_size + length body =
      sym (length-contents v) ∙ ap (λ xs. length xs) e ∙ length-message field id body l in
    let at : ℕ → Stream = λ p. record s { pos = p } in
    let typed = (read_uint16_lem (at 0) (moved-IsValid 0 s v (omega arith))).0 (omega arith) in
    let sized = (read_uint16_lem (at 2) (moved-IsValid 2 s v (omega arith))).0 (omega arith) in
    let named =
      (read_lem 16 (at 4) (moved-IsValid 4 s v (omega arith)) (omega arith)).0 (omega arith) in
    let rest = be16 (length body) ++ (id ++ body) in
    let type_same : be16_at (contents s) 0 ≡ field =
      ap (λ xs. be16_at xs 0) e ∙ be16_at-append [] rest 0 field refl small_field in
    let size_same : be16_at (contents s) 2 ≡ length body =
      ap (λ xs. be16_at xs 2) e
      ∙ be16_at-append (be16 field) (id ++ body) 2 (length body) refl small in
    let id_same : slice (contents s) 4 16 ≡ id =
      ap (λ xs. slice xs 4 16) e
      ∙ slice-append (be16 field ++ be16 (length body)) (id ++ body) 4 16 refl
      ∙ ap (λ n. take n (id ++ body)) (sym l)
      ∙ take-append id body in
    rw ((seek_direct_lem 0 s).0 (omega arith), typed, sized, named, type_same, size_same, id_same)
      refl

-- A reader that has parsed a message to its end: the fields, and the attributes in their order.
pub record Understood (msg_type : ℕ) (msg_class : MessageClass) (transid : TransactionId)
    (attributes : Attributes) (r : Reader) : Type 0 where
  pub state : r.state ≡ body_validated
  pub bytes :
      contents r.stream
      ≡ message (type_field msg_type (class_code msg_class)) transid (frames attributes)
  pub type : r.msg_type_normalized ≡ msg_type
  pub class : r.msg_class ≡ msg_class
  pub id : r.transaction_id ≡ transid
  pub legacy : r.message_is_legacy_format ≡ not (htonl (uint32_at transid) == stun_cookie)
  pub sound : Sound (get_size r.stream) r (entries header_size attributes [])
  pub values :
      values_in (contents r.stream) (entries header_size attributes []) ≡ onto attributes []

-- a message that can be sent and is short enough to be taken in
pub record IsMessage (type : ℕ) (class : MessageClass) (id : TransactionId)
    (attributes : Attributes) : Type 0 where
  pub good_class : class ≢ invalid_class
  pub good_type : type < 4096
  pub id_length : length id ≡ transaction_id_length
  pub sendable : All IsSendable attributes
  pub few : length attributes ≤ max_num_attributes
  pub short : length (frames attributes) ≤ max_message_size

reject_excess-whole :
    (r : Reader) → r.msg_length + header_size ≡ get_size r.stream → reject_excess r ≡ r
unfolding reject_excess
reject_excess-whole r e = go r.state refl
  where
    go : (s : ParseState) → r.state ≡ s → reject_excess r ≡ r
    go header_not_read h = rw h refl
    go header_validated h = rw h refl
    go body_validated h =
        rw (h, le→ltb_false (r.msg_length + header_size) (get_size r.stream) (omega arith)) refl
    go parse_error h = rw h refl

try_header-fields :
    (r t : Reader)
    → r.state ≡ header_not_read
    → header_size ≤ get_size r.stream
    → read_header r ≡ (s_ok, t)
    → try_header r
      ≡ record t { state = if t.msg_length == 0 then body_validated else header_validated }
unfolding try_header with_header
try_header-fields r t h enough e =
    let same : try_header r ≡ with_header r =
      rw (h, le→leb header_size (get_size r.stream) enough) refl in
    same ∙ ap (λ out. record out.1 { state = after_header out.0 out.1.msg_length }) e

try_body-skips : (r : Reader) → r.state ≡ body_validated → try_body r ≡ r
unfolding try_body
try_body-skips r h = rw h refl

try_body-whole :
    (r t : Reader)
    → r.state ≡ header_validated
    → r.msg_length + header_size ≡ get_size r.stream
    → read_body r ≡ (s_ok, t)
    → try_body r ≡ record t { state = body_validated }
unfolding try_body with_body
try_body-whole r t h whole e =
    let enough = le→ltb_false (get_size r.stream) (r.msg_length + header_size) (omega arith) in
    let exact : (get_size r.stream == r.msg_length + header_size) ≡ true =
      rw whole (==_refl (get_size r.stream)) in
    let same : try_body r ≡ with_body r = rw (h, enough, exact) refl in
    same
    ∙ ap (λ out. record out.1 { state = if succeeded out.0 then body_validated else parse_error }) e

frames-empty : (attributes : Attributes) → length (frames attributes) ≡ 0 → attributes ≡ []
frames-empty [] e = refl
frames-empty (a ∷ attributes) e =
    absurd (omega (arith, length-append (frame a.0 a.1) (frames attributes)))

length-frames-multiple : (attributes : Attributes) → length (frames attributes) % 4 ≡ 0
length-frames-multiple [] = refl
length-frames-multiple (a ∷ attributes) =
    let n = length a.1 in
    let whole : (n + padding_length n) % 4 ≡ 0 = ground arith in
    omega (
      arith,
      whole,
      length-frames-multiple attributes,
      length-append (frame a.0 a.1) (frames attributes),
      length-frame a.0 a.1,
    )

type_field-lt : (type class : ℕ) → type_field type class < 2 ^ 16
unfolding type_field
type_field-lt type class = omega arith

fields-Open :
    (s : ParseState) (type size : ℕ) (class : MessageClass) (id : TransactionId) (r : Reader)
    → Open r
    → header_size ≤ get_size r.stream
    → Open (record (with_fields type class size id (seek_to header_size r)) { state = s })
fields-Open s type size class id r o h = record {
  valid = moved-IsValid header_size r.stream o.valid h;
  growing = o.growing;
  capacity = o.capacity;
  table = o.table;
  counted = o.counted;
}

digest-steps :
    (r h : Reader)
    → try_header r ≡ h
    → (b : Reader) → try_body h ≡ b
    → b.msg_length + header_size ≡ get_size b.stream
    → digest r ≡ b
digest-steps r h eh b eb e =
    ap (λ x. reject_excess (try_body x)) eh ∙ ap reject_excess eb ∙ reject_excess-whole b e

-- the bytes that a buffer holds
abbrev taken_bytes : Option Buffer → List ℕ
taken_bytes buffer = contents (record { buffer = buffer; pos = 0; no_grow = false })

module _ {type : ℕ} {class : MessageClass} {id : TransactionId} {attributes : Attributes}
    (m : IsMessage type class id attributes) (r : Reader) (o : Open r)
    (unread : r.state ≡ header_not_read) (allow : r.allow_legacy_format ≡ true)
    (e : contents r.stream
      ≡ message (type_field type (class_code class)) id (frames attributes)) where
  abbrev headed : ParseState → Reader
  headed s =
      record (with_fields type class (length (frames attributes)) id (seek_to header_size r)) {
        state = s;
      }

  size-message : get_size r.stream ≡ header_size + length (frames attributes)
  size-message =
      sym (length-contents o.valid)
      ∙ ap (λ xs. length xs) e
      ∙ length-message (type_field type (class_code class)) id (frames attributes) m.id_length

  header-headed :
      try_header r
      ≡ headed (if length (frames attributes) == 0 then body_validated else header_validated)
  header-headed =
      try_header-fields r
        (with_fields type class (length (frames attributes)) id (seek_to header_size r)) unread
        (omega (arith, size-message))
        (read_header-fields (type_field type (class_code class)) id (frames attributes) r o.valid e
            m.id_length (type_field-lt type (class_code class)) (omega (arith, m.short))
          ∙ check_header-fields type class m.good_class m.good_type id (length (frames attributes))
              (seek_to header_size r) allow (length-frames-multiple attributes) m.short)

  digest-alone : length (frames attributes) ≡ 0 → Understood type class id attributes (digest r)
  digest-alone none_follow =
      let h = headed body_validated in
      let eh : try_header r ≡ h =
        header-headed
        ∙ ap (λ n. headed (if n == 0 then body_validated else header_validated)) none_follow in
      let open_h =
        fields-Open body_validated type (length (frames attributes)) class id r o
          (omega (arith, size-message)) in
      let result = digest-steps r h eh h (try_body-skips h refl) (omega (arith, size-message)) in
      let none : attributes ≡ [] = frames-empty attributes none_follow in
      let sound : Sound (get_size r.stream) h [] =
        Sound-nothing h open_h (omega (arith, size-message)) m.short in
      subst (Understood type class id attributes) (sym result) record {
        state = refl;
        bytes = e;
        type = refl;
        class = refl;
        id = refl;
        legacy = refl;
        sound =
            subst (λ xs. Sound (get_size r.stream) h (entries header_size xs [])) (sym none) sound;
        values =
            subst (λ xs. values_in (contents r.stream) (entries header_size xs []) ≡ onto xs [])
              (sym none) refl;
      }

  digest-body : length (frames attributes) ≢ 0 → Understood type class id attributes (digest r)
  digest-body some_follow =
      let n = length (frames attributes) in
      let h = headed header_validated in
      let eh : try_header r ≡ h =
        header-headed
        ∙ ap (λ b. headed (if b then body_validated else header_validated))
            (ne→==_false n 0 some_follow) in
      let open_h = fields-Open header_validated type n class id r o (omega (arith, size-message)) in
      let sound = Sound-nothing h open_h (omega (arith, size-message)) m.short in
      let header = be16 (type_field type (class_code class)) ++ (be16 n ++ id) in
      let split : contents r.stream ≡ header ++ frames attributes =
        e ∙ ap (λ xs. be16 (type_field type (class_code class)) ++ (be16 n ++ xs)) refl in
      let (body, sound', values, same) =
        read_body-frames (get_size r.stream) h header attributes sound split
          (omega (arith, m.id_length)) m.sendable m.few in
      let b = parsed attributes (seek_to header_size h) in
      let done : Reader = record b { state = body_validated } in
      let result =
        digest-steps r h eh done (try_body-whole h b refl (omega (arith, size-message)) body)
          (omega (arith, sound'.announced, sound'.whole)) in
      subst (Understood type class id attributes) (sym result) record {
        state = refl;
        bytes = ap (λ b. taken_bytes b) same.buffer ∙ e;
        type = same.type;
        class = same.class;
        id = same.id;
        legacy = same.legacy;
        sound =
            subst (λ n. Sound n done (entries header_size attributes [])) (sym sound'.whole)
              (Sound-state body_validated (get_size r.stream) b (entries header_size attributes [])
                sound');
        values =
            ap (λ b. values_in (taken_bytes b) (entries header_size attributes [])) same.buffer
            ∙ values;
      }

  -- The three parts of `AddBytes` take in a message that can be sent.
  pub digest-Understood : Understood type class id attributes (digest r)
  digest-Understood = elim (ℕ_discrete (length (frames attributes)) 0) [
    | yes p ↦ digest-alone p
    | no p ↦ digest-body p
  ]
