-- ===== src/Bits.antt =====
-- `bit_xor` at variables: the library gives it by a recursion on binary digits.
use Prim.Native.Nat.{digits, bit_xor-bitwise, differ}
use native.Mathlib.Nat.{pow-suc}
use nat_tester.Base.{ℕ, zero, suc, ◌+◌, ◌*◌, ◌/◌, ◌%◌, ◌≤◌, ◌<◌, ◌^◌, bit_xor, ◌≡◌, refl, ap, arith}

abbrev xor_digits : ℕ → ℕ → ℕ → ℕ
xor_digits n a b = digits (λ b. b) differ n a b

-- Fuel beyond the first number changes nothing.
xor_digits_fuel : (n m a b : ℕ) → a ≤ n → a ≤ m → xor_digits n a b ≡ xor_digits m a b
xor_digits_fuel zero zero a b p q = refl
xor_digits_fuel zero (suc m) zero b p q = refl
xor_digits_fuel zero (suc m) (suc a) b p q = absurd (omega arith)
xor_digits_fuel (suc n) zero zero b p q = refl
xor_digits_fuel (suc n) zero (suc a) b p q = absurd (omega arith)
xor_digits_fuel (suc n) (suc m) zero b p q = refl
xor_digits_fuel (suc n) (suc m) (suc a) b p q =
    ap (λ t. t * 2 + differ (suc a % 2) (b % 2))
      (xor_digits_fuel n m (suc a / 2) (b / 2) (omega arith) (omega arith))

zero-bit_xor : (b : ℕ) → bit_xor 0 b ≡ b
zero-bit_xor b = bit_xor-bitwise 0 b

-- the exclusive or of two digits
abbrev digit_xor : ℕ → ℕ → ℕ
digit_xor a b = (a + b) % 2

differ-digit_xor : (a b : ℕ) → a < 2 → b < 2 → differ a b ≡ digit_xor a b
differ-digit_xor zero zero p q = refl
differ-digit_xor zero (suc zero) p q = refl
differ-digit_xor (suc zero) zero p q = refl
differ-digit_xor (suc zero) (suc zero) p q = refl
differ-digit_xor zero (suc (suc b)) p q = absurd (omega arith)
differ-digit_xor (suc zero) (suc (suc b)) p q = absurd (omega arith)
differ-digit_xor (suc (suc a)) b p q = absurd (omega arith)

pub bit_xor_step : (a b : ℕ) → bit_xor a b ≡ bit_xor (a / 2) (b / 2) * 2 + digit_xor (a % 2) (b % 2)
bit_xor_step zero b = omega (arith, zero-bit_xor b, zero-bit_xor (b / 2))
bit_xor_step (suc a) b = omega (
  arith,
  bit_xor-bitwise (suc a) b,
  bit_xor-bitwise (suc a / 2) (b / 2),
  xor_digits_fuel a (suc a / 2) (suc a / 2) (b / 2) (omega arith) (omega arith),
  differ-digit_xor (suc a % 2) (b % 2) (omega arith) (omega arith),
)

twice_below : (n a b : ℕ) → a ≤ n → b ≤ n → bit_xor (bit_xor a b) b ≡ a
twice_below zero zero zero p q = refl
twice_below zero zero (suc b) p q = absurd (omega arith)
twice_below zero (suc a) b p q = absurd (omega arith)
twice_below (suc n) a b p q =
    let half : bit_xor a b / 2 ≡ bit_xor (a / 2) (b / 2) = omega (arith, bit_xor_step a b) in
    omega (
      arith,
      bit_xor_step a b,
      bit_xor_step (bit_xor a b) b,
      ap (λ (t : ℕ). bit_xor t (b / 2)) half,
      twice_below n (a / 2) (b / 2) (omega arith) (omega arith),
    )

-- The exclusive or with the same number, twice, changes nothing.
pub bit_xor_twice : (a b : ℕ) → bit_xor (bit_xor a b) b ≡ a
bit_xor_twice a b = twice_below (a + b) a b (omega arith) (omega arith)

-- It stays below a power of two that bounds both numbers.
pub bit_xor-lt : (k a b : ℕ) → a < 2 ^ k → b < 2 ^ k → bit_xor a b < 2 ^ k
bit_xor-lt zero a b p q =
    omega (arith, bit_xor_step a b, zero-bit_xor b, ap (λ (t : ℕ). bit_xor t b) (le_zero a p))
  where
    le_zero : (a : ℕ) → a < 1 → a ≡ 0
    le_zero a h = omega arith
bit_xor-lt (suc k) a b p q = omega (
  arith,
  pow-suc 2 k,
  bit_xor_step a b,
  bit_xor-lt k (a / 2) (b / 2) (omega (arith, pow-suc 2 k)) (omega (arith, pow-suc 2 k)),
)
