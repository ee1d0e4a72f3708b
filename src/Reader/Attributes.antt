-- ===== src/Reader/Attributes.antt =====
-- The attributes that the getters of `CStunMessageReader` find in a whole message.
use nat_tester.Base.{
  ℕ, ◌≡◌, sym, ◌∙◌, List, [], ◌∷◌, some, ◌==◌, arith, Bool-cases, inl, inr, subst, ==→≡,
}
use nat_tester.StunTypes.{Attribute}
use nat_tester.Stream.{get_size}
use nat_tester.FastHash.Chains.{All}
use nat_tester.FastHash.Refine.{newest, lookup-newest}
use nat_tester.Reader.{Reader, body_validated}
use nat_tester.Reader.Get.{get_attribute_by_type}
use nat_tester.Reader.Safety.{InBounds}
use nat_tester.Reader.States.{IsReading, InState}

some_injective : (a b : Attribute) → some a ≡ some b → a ≡ b
some_injective a b e = ground arith

pub newest-InBounds :
    (total type : ℕ) (pairs : List (ℕ × Attribute)) (a : Attribute)
    → All (InBounds total) pairs
    → newest type pairs ≡ some a
    → InBounds total (type, a)
newest-InBounds total type [] a all e = absurd (ground arith)
newest-InBounds total type ((k, b) ∷ pairs) a all e = elim (Bool-cases (k == type)) [
  | inl same ↦
      let found : some b ≡ some a = rw same at e in
      subst (λ t. InBounds total (t, a)) (==→≡ k type same)
        (subst (λ c. InBounds total (k, c)) (some_injective b a found) all.0)
  | inr other ↦ newest-InBounds total type pairs a all.1 (rw other at e)
]

-- Whatever attribute `GetAttributeByType` finds in a message that was parsed to its end has the
-- type asked for, and lies within the bytes of the message with its value.
pub get_attribute_by_type-InBounds :
    (type : ℕ) (r : Reader) (a : Attribute)
    → IsReading r
    → r.state ≡ body_validated
    → get_attribute_by_type type r ≡ some a
    → InBounds (get_size r.stream) (type, a)
unfolding get_attribute_by_type
get_attribute_by_type-InBounds type r a o whole found =
    let (pairs, sound) = subst (λ s. InState s r) whole o in
    newest-InBounds (get_size r.stream) type pairs a sound.bounds
      (sym (lookup-newest r.attributes pairs type sound.table) ∙ found)
