-- ===== src/Builder/Endings.antt =====
-- A message whose last attribute needs no padding: the bytes in front of its value, and the value.
use nat_tester.Base.{
  ℕ, zero, suc, ◌+◌, ◌≡◌, refl, sym, ap, ap₂, ◌∙◌, List, [], ◌∷◌, ◌++◌, append_assoc, append-nil,
  length, overlay, replicate, arith,
}
use nat_tester.StunTypes.{TransactionId}
use nat_tester.Builder.{padding_of}
use nat_tester.Builder.Emit.{be16, frame}
use nat_tester.Builder.Message.{message}
use nat_tester.Builder.Drafts.{length-snoc, frames-append}
use nat_tester.Reader.Loop.{Attributes, frames}

-- the message up to its last attribute of `extra` bytes, which the length field counts
abbrev pub front_part : ℕ → ℕ → TransactionId → Attributes → List ℕ
front_part extra field id attributes =
    be16 field ++ (be16 (length (frames attributes) + extra) ++ (id ++ frames attributes))

pub overlay_end {ℓ} :
    {A : Type ℓ} (xs ys zs : List A) (i : ℕ)
    → i ≡ length xs
    → length ys ≡ length zs
    → overlay (xs ++ ys) i zs ≡ xs ++ zs
overlay_end [] [] [] i e f = refl
overlay_end [] [] (z ∷ zs) i e f = absurd (omega arith)
overlay_end [] (y ∷ ys) [] i e f = absurd (omega arith)
overlay_end [] (y ∷ ys) (z ∷ zs) zero e f =
    ap (λ t. z ∷ t) (overlay_end [] ys zs zero refl (omega arith))
overlay_end [] (y ∷ ys) (z ∷ zs) (suc i) e f = absurd (omega arith)
overlay_end (x ∷ xs) ys zs zero e f = absurd (omega arith)
overlay_end (x ∷ xs) ys zs (suc i) e f = ap (λ t. x ∷ t) (overlay_end xs ys zs i (omega arith) f)

-- a message that ends with an attribute is the part in front of its value, and the value
pub split_message :
    (field : ℕ) (id : TransactionId) (attributes : Attributes) (type n : ℕ) (value : List ℕ)
    → length value ≡ n
    → padding_of n ≡ 0
    → message field id (frames (attributes ++ ((type, value) ∷ [])))
      ≡ front_part (4 + n) field id attributes ++ ((be16 type ++ be16 n) ++ value)
split_message field id attributes type n value l whole =
    let frame_split : frame type value ≡ (be16 type ++ be16 n) ++ value =
      ap (λ k. be16 type ++ (be16 k ++ (value ++ replicate (padding_of k) 0))) l
      ∙ ap (λ k. be16 type ++ (be16 n ++ (value ++ replicate k 0))) whole
      ∙ ap (λ v. be16 type ++ (be16 n ++ v)) (append-nil value) in
    let size : length (frames (attributes ++ ((type, value) ∷ [])))
        ≡ length (frames attributes) + (4 + n) =
      length-snoc attributes type value
      ∙ ap (λ k. length (frames attributes) + (4 + k + padding_of k)) l
      ∙ omega (arith, whole) in
    let body : frames (attributes ++ ((type, value) ∷ []))
        ≡ frames attributes ++ ((be16 type ++ be16 n) ++ value) =
      frames-append attributes ((type, value) ∷ [])
      ∙ ap (λ ys. frames attributes ++ ys) (append-nil (frame type value) ∙ frame_split) in
    ap₂ (λ k xs. be16 field ++ (be16 k ++ (id ++ xs))) size body
    ∙ ap (λ xs. be16 field ++ (be16 (length (frames attributes) + (4 + n)) ++ xs))
        (sym (append_assoc id (frames attributes) ((be16 type ++ be16 n) ++ value)))
