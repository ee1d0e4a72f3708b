-- ===== src/Reader/Values.antt =====
-- What the getters of `CStunMessageReader` return for the attributes of a message.
use nat_tester.Base.{
  ℕ, zero, suc, ◌≡◌, inl, inr, refl, sym, ap, ◌∙◌, List, [], ◌∷◌, ◌++◌, Option, none, some, length,
  length-append, length-slice, take, drop, slice, slice-take, arith, ◌==◌, Bool-cases, Option-cases,
}
use nat_tester.StunTypes.{Attribute, MessageClass, class_code, TransactionId, header_size}
use nat_tester.Stream.{Stream, get_size, data_pointer, write}
use nat_tester.Stream.Laws.{contents, length-contents, seek_direct_lem}
use nat_tester.Stream.Growth.{Supplies, write-Wrote}
use nat_tester.FastHash.Refine.{newest, lookup-newest}
use nat_tester.Builder.{type_field}
use nat_tester.Builder.Message.{message}
use nat_tester.Reader.{Reader, body_validated, new_reader, add_some_bytes, add_bytes}
use nat_tester.Reader.Get.{find_attribute, value_at}
use nat_tester.Reader.Attributes.{newest-InBounds}
use nat_tester.Reader.Loop.{Attributes, frames, entries, values_in, onto}
use nat_tester.FastHash.{fast_hash}
use nat_tester.Stream
use nat_tester.Reader.States.{Open}
use nat_tester.Reader.Feed.{new_reader-IsReading}
use nat_tester.Reader.Whole.{digest-Understood, Understood, IsMessage}

-- the value of the last attribute of a type
abbrev pub last_value : ℕ → Attributes → Option (List ℕ)
last_value type attributes = newest type (onto attributes [])

newest-values_in :
    (type : ℕ) (bytes : List ℕ) (pairs : List (ℕ × Attribute))
    → newest type (values_in bytes pairs)
      ≡ elim (newest type pairs) [ none ↦ none | some a ↦ some (slice bytes a.offset a.size) ]
newest-values_in type bytes [] = refl
newest-values_in type bytes (p ∷ pairs) = elim (Bool-cases (p.0 == type)) [
  | inl same ↦ rw same refl
  | inr other ↦ rw other (newest-values_in type bytes pairs)
]

-- The value of the attribute that a look up of its type finds.
pub record Found (type : ℕ) (value : List ℕ) (r : Reader) : Type 0 where
  pub attrib : Attribute
  pub is_there : find_attribute type r ≡ some attrib
  pub size : attrib.size ≡ length value
  pub rest : List ℕ
  pub at : value_at attrib r ≡ value ++ rest

take-drop : (n : ℕ) (xs : List ℕ) → xs ≡ take n xs ++ drop n xs
take-drop zero xs = refl
take-drop (suc n) [] = refl
take-drop (suc n) (x ∷ xs) = ap (λ ys. x ∷ ys) (take-drop n xs)

some_injective : {A : Type 0} (a b : A) → some a ≡ some b → a ≡ b
some_injective a b e = ap (λ o. elim o [ none ↦ a | some x ↦ x ]) e

module _ {msg_type : ℕ} {class : MessageClass} {id : TransactionId} {attributes : Attributes}
    {r : Reader} (u : Understood msg_type class id attributes r) where
  pub values-Understood :
      (type : ℕ)
      → elim (find_attribute type r) [
        | none ↦ none
        | some a ↦ some (slice (contents r.stream) a.offset a.size)
      ]
        ≡ last_value type attributes
  values-Understood type =
      let pairs = entries header_size attributes [] in
      ap (λ o. elim o [ none ↦ none | some a ↦ some (slice (contents r.stream) a.offset a.size) ])
        (lookup-newest r.attributes pairs type u.sound.table)
      ∙ sym (newest-values_in type (contents r.stream) pairs)
      ∙ ap (newest type) u.values

  pub Found-Understood :
      (type : ℕ) (value : List ℕ) → last_value type attributes ≡ some value → Found type value r
  Found-Understood type value e = elim (Option-cases (find_attribute type r)) [
    | inl absent ↦ absurd (ground (arith, values-Understood type))
    | inr (a, there) ↦
        let pairs = entries header_size attributes [] in
        let inside =
          newest-InBounds (get_size r.stream) type pairs a u.sound.bounds
            (sym (lookup-newest r.attributes pairs type u.sound.table) ∙ there) in
        let size = length-contents u.sound.valid in
        let same : slice (contents r.stream) a.offset a.size ≡ value =
          some_injective _ _ (rw there at (values-Understood type) ∙ e) in
        let memory = data_pointer r.stream in
        let here : slice memory a.offset a.size ≡ value =
          sym (slice-take memory a.offset a.size (get_size r.stream) inside.1) ∙ same in
        record {
          attrib = a;
          is_there = there;
          size =
              sym (length-slice (contents r.stream) a.offset a.size (omega (arith, size, inside)))
              ∙ ap (λ xs. length xs) same;
          rest = drop a.size (drop a.offset memory);
          at =
              take-drop a.size (drop a.offset memory)
              ∙ ap (λ xs. xs ++ drop a.size (drop a.offset memory)) here;
        }
  ]

  pub absent-Understood :
      (type : ℕ) → last_value type attributes ≡ none → find_attribute type r ≡ none
  absent-Understood type e = elim (Option-cases (find_attribute type r)) [
    | inl absent ↦ absent
    | inr (a, there) ↦ absurd (ground (arith, values-Understood type))
  ]

module _ (new_bytes : ℕ → Option (List ℕ)) (supplies : Supplies new_bytes) where
  -- `AddBytes` of a new reader takes in a message that can be sent, all at once.
  pub add_bytes-Understood :
      (msg_type : ℕ) (class : MessageClass) (id : TransactionId) (attributes : Attributes)
      → IsMessage msg_type class id attributes
      → let out =
          add_bytes new_bytes
            (message (type_field msg_type (class_code class)) id (frames attributes))
            new_reader in
        (out.0 ≡ body_validated) × Understood msg_type class id attributes out.1
  unfolding add_bytes add_some_bytes new_reader Stream.reset fast_hash
  add_bytes-Understood msg_type class id attributes m =
      let bytes = message (type_field msg_type (class_code class)) id (frames attributes) in
      let s = new_reader.stream in
      let w =
        write-Wrote new_bytes supplies bytes s new_reader-IsReading.valid (omega arith)
          (omega (arith, length-append id (frames attributes), m.short, m.id_length)) (λ h. refl) in
      let start : Reader = record new_reader { stream = (write new_bytes bytes s).1 } in
      let o : Open start = record {
        valid = w.valid;
        growing = w.no_grow;
        capacity = refl;
        table = new_reader-IsReading.table;
        counted = refl;
      } in
      let u = digest-Understood m start o refl refl w.holds in
      rw ((seek_direct_lem 0 s).0 (omega arith), w.ok) (u.state, u)
