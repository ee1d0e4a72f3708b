-- ===== src/Builder/TypeField.antt =====
-- The type field of a header: what `AddHeader` writes, `ReadHeader` takes apart.
use nat_tester.Base.{
  ℕ, zero, suc, ◌<◌, ◌≡◌, ◌≢◌, refl, Bool, true, ◌&&◌, ◌==◌, bit_and, arith, ℕ_discrete,
}
use nat_tester.StunTypes.{
  MessageClass, request, indication, success_response, failure_response, invalid_class, class_code,
}
use nat_tester.Builder.{type_field}
use nat_tester.Reader.{class_of, normalized_type}

-- a test of every number below a bound
abbrev all_below : (ℕ → Bool) → ℕ → Bool
all_below f zero = true
all_below f (suc n) = f n && all_below f n

all_below_lem : (f : ℕ → Bool) (n i : ℕ) → all_below f n ≡ true → i < n → f i ≡ true
all_below_lem f zero i e h = elim h [ ]
all_below_lem f (suc n) i e h = elim (ℕ_discrete i n) [
  | yes p ↦ ground arith
  | no p ↦ all_below_lem f n i (ground arith) (omega arith)
]

-- the three things that are tested of a type
abbrev good_type : MessageClass → ℕ → Bool
good_type class type =
    let field = type_field type (class_code class) in
    (bit_and field 0xc000 == 0)
    && ((normalized_type field == type) && (class_code (class_of field) == class_code class))

all_types_good :
    (class : MessageClass) → class ≢ invalid_class → all_below (good_type class) 4096 ≡ true
unfolding type_field class_of normalized_type
all_types_good request h = refl
all_types_good indication h = refl
all_types_good success_response h = refl
all_types_good failure_response h = refl
all_types_good invalid_class h = absurd (h refl)

class_code_injective : (c d : MessageClass) → (class_code c == class_code d) ≡ true → c ≡ d
class_code_injective c d h = ground arith

-- For every message type of 12 bits and every class but the invalid one, the field that
-- `AddHeader` writes has its two upper bits clear, and `ReadHeader` finds the type and the class
-- in it again.
pub class_of-type_field :
    (class : MessageClass) (type : ℕ)
    → class ≢ invalid_class
    → type < 4096
    → let field = type_field type (class_code class) in
      (bit_and field 0xc000 ≡ 0) × (normalized_type field ≡ type) × (class_of field ≡ class)
class_of-type_field class type h small =
    let good = all_below_lem (good_type class) 4096 type (all_types_good class h) small in
    let field = type_field type (class_code class) in
    (ground arith, ground arith, class_code_injective (class_of field) class (ground arith))
