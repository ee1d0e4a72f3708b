-- ===== src/Builder/Drafts.antt =====
-- A message on its way through `CStunMessageBuilder`: header, id and attributes, with a length
-- field that is still to be fixed.
use nat_tester.Base.{
  ℕ, ◌+◌, ◌^◌, ◌≤◌, ◌<◌, ◌≡◌, refl, sym, ap, subst, ◌∙◌, Bool, false, List, [], ◌∷◌, ◌++◌,
  append_assoc, append-nil, Option, some, length, length-append, arith, le→leb,
}
use nat_tester.Hresult.{Run}
use nat_tester.StunTypes.{TransactionId, MessageClass, class_code}
use nat_tester.Stream
use nat_tester.Stream.{Buffer, content, attach, set_size}
use nat_tester.Builder.{
  Builder, type_field, add_header, add_transaction_id, fix_length_field, attach_stream,
  set_legacy_mode, new_builder, padding_of,
}
use nat_tester.Builder.Emit.{be16, frame, Holds, Emitted}
use nat_tester.Builder.Message.{
  message, add_header-Emitted, add_transaction_id-Emitted, fix_length_field-Emitted,
}
use nat_tester.Reader.Loop.{Attributes, frames, length-frame}

-- an array that `attach_stream` makes the stream of a builder, with `cap` bytes
pub record HasRoom (cap : ℕ) (buffer : Buffer) : Type 0 where
  pub allocated : buffer.allocated ≡ cap
  pub array : cap ≤ length (content buffer)
  pub enough : 800 ≤ cap
  pub small : cap < 2 ^ 31

-- a stream over the whole of a buffer, and nothing in it
abbrev emptied : Bool → Buffer → Builder
emptied legacy buffer = record {
  stream = record { buffer = some (record buffer { size = 0 }); pos = 0; no_grow = false };
  transaction_id = new_builder.transaction_id;
  legacy_mode = legacy;
}

attach_stream_lem :
    (legacy : Bool) (buffer : Buffer)
    → set_legacy_mode legacy (attach_stream (some buffer) new_builder) ≡ emptied legacy buffer
unfolding new_builder set_legacy_mode attach_stream attach set_size Stream.reset
attach_stream_lem legacy buffer = rw (le→leb 0 buffer.allocated (omega arith)) refl

pub Holds-nothing :
    (n : ℕ) (legacy : Bool) (buffer : Buffer)
    → HasRoom n buffer
    → Holds n new_builder.transaction_id legacy []
        (set_legacy_mode legacy (attach_stream (some buffer) new_builder))
Holds-nothing n legacy buffer h =
    subst (Holds n new_builder.transaction_id legacy []) (sym (attach_stream_lem legacy buffer))
      record {
        valid = record {
          pos_in = omega arith;
          fits = omega arith;
          room = omega (arith, h.allocated, h.array);
          small = omega (arith, h.allocated, h.small);
        };
        at_end = refl;
        capacity = h.allocated;
        holds = refl;
        identified = refl;
        mode = refl;
      }

pub frames-append : (xs ys : Attributes) → frames (xs ++ ys) ≡ frames xs ++ frames ys
frames-append [] ys = refl
frames-append (a ∷ xs) ys =
    ap (λ zs. frame a.0 a.1 ++ zs) (frames-append xs ys)
    ∙ sym (append_assoc (frame a.0 a.1) (frames xs) (frames ys))

-- the bytes of a message of which the length field is 0
abbrev pub draft : ℕ → TransactionId → Attributes → List ℕ
draft field id attributes = be16 field ++ (be16 0 ++ (id ++ frames attributes))

-- A builder that has written so far a message with these attributes.
abbrev pub Drafted : ℕ → TransactionId → Bool → ℕ → Attributes → Builder → Type 0
Drafted cap id legacy field attributes b = Holds cap id legacy (draft field id attributes) b

pub length-draft :
    (field : ℕ) (id : TransactionId) (attributes : Attributes)
    → length id ≡ 16
    → length (draft field id attributes) ≡ 20 + length (frames attributes)
length-draft field id attributes l = omega (arith, length-append id (frames attributes))

pub length-snoc :
    (attributes : Attributes) (type : ℕ) (value : List ℕ)
    → length (frames (attributes ++ ((type, value) ∷ [])))
      ≡ length (frames attributes) + (4 + length value + padding_of (length value))
length-snoc attributes type value =
    ap (λ xs. length xs) (frames-append attributes ((type, value) ∷ []))
    ∙ length-append (frames attributes) (frame type value ++ [])
    ∙ ap (λ xs. length (frames attributes) + length xs) (append-nil (frame type value))
    ∙ omega (arith, length-frame type value)

draft-snoc :
    (field : ℕ) (id : TransactionId) (attributes : Attributes) (type : ℕ) (value : List ℕ)
    → draft field id attributes ++ frame type value
      ≡ draft field id (attributes ++ ((type, value) ∷ []))
draft-snoc field id attributes type value =
    ap (λ xs. be16 field ++ (be16 0 ++ xs))
      (append_assoc id (frames attributes) (frame type value)
        ∙ ap (λ xs. id ++ xs)
            (ap (λ xs. frames attributes ++ xs) (sym (append-nil (frame type value)))
              ∙ sym (frames-append attributes ((type, value) ∷ []))))

module _ {cap : ℕ} {id : TransactionId} {legacy : Bool} where
  -- A call that adds a frame adds an attribute.
  pub added-Drafted :
      (field : ℕ) (attributes : Attributes) (type : ℕ) (value : List ℕ) (r : Run Builder)
      → Emitted cap id legacy (draft field id attributes ++ frame type value) r
      → Drafted cap id legacy field (attributes ++ ((type, value) ∷ [])) r.1
  added-Drafted field attributes type value r (ok, h) =
      subst (λ xs. Holds cap id legacy xs r.1) (draft-snoc field id attributes type value) h

module _ (new_bytes : ℕ → Option (List ℕ)) {cap : ℕ} {id : TransactionId} {legacy : Bool} where
  -- `AddHeader` and `AddTransactionId` on an empty stream
  pub started-Drafted :
      (type : ℕ) (class : MessageClass) (old : TransactionId) (b : Builder)
      → Holds cap old legacy [] b
      → 200 ≤ cap
      → length id ≡ 16
      → Drafted cap id legacy
          (type_field type (class_code class))
          []
          (add_transaction_id new_bytes id (add_header new_bytes type class b).1).1
  started-Drafted type class old b h room l =
      let (_, headed) = add_header-Emitted new_bytes type class b h room in
      let (_, named) =
        add_transaction_id-Emitted new_bytes id _ (add_header new_bytes type class b).1 headed
          (omega arith) (omega arith) in
      subst
        (λ xs.
          Holds cap id legacy (be16 (type_field type (class_code class)) ++ (be16 0 ++ xs))
            (add_transaction_id new_bytes id (add_header new_bytes type class b).1).1)
        (sym (append-nil id)) named

  -- `FixLengthField` at the end of a message
  pub fixed-message :
      (field : ℕ) (attributes : Attributes) (b : Builder)
      → Drafted cap id legacy field attributes b
      → length id ≡ 16
      → length (frames attributes) < 2 ^ 16
      → Emitted cap id legacy (message field id (frames attributes)) (fix_length_field new_bytes b)
  fixed-message field attributes b h l small =
      fix_length_field-Emitted new_bytes field 0 id (frames attributes) b h l small
