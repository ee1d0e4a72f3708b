-- ===== src/Word.antt =====
-- Machine words of the little-endian target (armeabi): their bytes in memory, `htons` and `htonl`,
-- and `size_t` arithmetic.
use nat_tester.Base.{ℕ, ◌+◌, ◌-◌, ◌*◌, ◌/◌, ◌%◌, ◌^◌, ◌<◌, ◌≡◌, List, [], ◌∷◌, get_or, arith}

abbrev pub u8 : ℕ → ℕ
u8 n = n % 2 ^ 8

abbrev pub u16 : ℕ → ℕ
u16 n = n % 2 ^ 16

abbrev pub u32 : ℕ → ℕ
u32 n = n % 2 ^ 32

-- `size_t` has 32 bits in the build of Application.mk and libs/armeabi.
abbrev pub size_mod : ℕ
size_mod = 2 ^ 32

abbrev pub size_add : ℕ → ℕ → ℕ
size_add a b = (a + b) % size_mod

abbrev pub size_sub : ℕ → ℕ → ℕ
size_sub a b = (a + size_mod - b) % size_mod

-- The bytes that a `uint16_t` and a `uint32_t` occupy, lowest address first.
abbrev pub uint16_bytes : ℕ → List ℕ
uint16_bytes v = (v % 256) ∷ (v / 256 % 256) ∷ []

abbrev pub uint32_bytes : ℕ → List ℕ
uint32_bytes v = (v % 256) ∷ (v / 256 % 256) ∷ (v / 65536 % 256) ∷ (v / 16777216 % 256) ∷ []

-- The values that the bytes stand for, read at the lowest address.
abbrev pub uint16_at : List ℕ → ℕ
uint16_at bytes = get_or bytes 0 0 + get_or bytes 1 0 * 256

abbrev pub uint32_at : List ℕ → ℕ
uint32_at bytes =
    get_or bytes 0 0
    + get_or bytes 1 0 * 256
    + get_or bytes 2 0 * 65536
    + get_or bytes 3 0 * 16777216

-- `htons` and `ntohs` swap the two bytes.
unfoldable pub htons : ℕ → ℕ
htons v = v % 256 * 256 + v / 256 % 256

-- `htonl` and `ntohl` reverse the four.
unfoldable pub htonl : ℕ → ℕ
htonl v = v % 256 * 16777216 + v / 256 % 256 * 65536 + v / 65536 % 256 * 256 + v / 16777216 % 256

pub htons-htons : (v : ℕ) → v < 2 ^ 16 → htons (htons v) ≡ v
unfolding htons
htons-htons v h = omega arith

pub htonl-htonl : (v : ℕ) → v < 2 ^ 32 → htonl (htonl v) ≡ v
unfolding htonl
htonl-htonl v h = omega arith

pub htons-lt : (v : ℕ) → htons v < 2 ^ 16
unfolding htons
htons-lt v = omega arith

pub htonl-lt : (v : ℕ) → htonl v < 2 ^ 32
unfolding htonl
htonl-lt v = omega arith

-- A word is read back from its bytes.
pub uint16_at-uint16_bytes : (v : ℕ) → v < 2 ^ 16 → uint16_at (uint16_bytes v) ≡ v
uint16_at-uint16_bytes v h = omega arith

pub uint32_at-uint32_bytes : (v : ℕ) → v < 2 ^ 32 → uint32_at (uint32_bytes v) ≡ v
uint32_at-uint32_bytes v h = omega arith
