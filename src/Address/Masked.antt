-- ===== src/Address/Masked.antt =====
-- What `CSocketAddress::ApplyStunXorMap` does to the port and to the IP address as numbers.
use native.Mathlib.Nat.{pow-suc, mul_assoc}
use nat_tester.Base.{
  ℕ, zero, suc, ◌+◌, ◌*◌, ◌/◌, ◌^◌, ◌<◌, ◌≤◌, ◌≡◌, refl, sym, ap, ap₂, ◌∙◌, List, [], ◌∷◌, length,
  take, bit_xor, arith,
}
use nat_tester.Bits.{bit_xor_step}
use nat_tester.StunTypes.{TransactionId}
use nat_tester.Address.{Address, Family, inet, inet6, family_length, xor_bytes, apply_stun_xor_map}
use nat_tester.Address.Laws.{IsBytes, IsValid, apply_stun_xor_map-IsValid, apply_stun_xor_map_twice}

-- the number that bytes stand for in network order, behind those of `high`
abbrev pub number_from : ℕ → List ℕ → ℕ
number_from high [] = high
number_from high (x ∷ xs) = number_from (high * 256 + x) xs

abbrev pub number : List ℕ → ℕ
number xs = number_from 0 xs

-- The exclusive or of two numbers is that of their high and of their low parts.
bit_xor_parts :
    (k a b c d : ℕ)
    → b < 2 ^ k
    → d < 2 ^ k
    → bit_xor (2 ^ k * a + b) (2 ^ k * c + d) ≡ 2 ^ k * bit_xor a c + bit_xor b d
bit_xor_parts zero a b c d p q =
    let none_b : b ≡ 0 = omega arith in
    let none_d : d ≡ 0 = omega arith in
    let high_a : 2 ^ 0 * a + b ≡ a = omega arith in
    let high_c : 2 ^ 0 * c + d ≡ c = omega arith in
    ap₂ bit_xor high_a high_c ∙ omega (arith, ap₂ bit_xor none_b none_d)
bit_xor_parts (suc k) a b c d p q =
    let twice : 2 ^ suc k ≡ 2 * 2 ^ k = omega (arith, pow-suc 2 k) in
    let doubled : (n : ℕ) → 2 ^ suc k * n ≡ 2 * (2 ^ k * n) =
      λ n. ap (λ t. t * n) twice ∙ mul_assoc 2 (2 ^ k) n in
    let half_a : (2 ^ suc k * a + b) / 2 ≡ 2 ^ k * a + b / 2 = omega (arith, doubled a) in
    let half_c : (2 ^ suc k * c + d) / 2 ≡ 2 ^ k * c + d / 2 = omega (arith, doubled c) in
    omega (
      arith,
      bit_xor_step (2 ^ suc k * a + b) (2 ^ suc k * c + d),
      ap₂ bit_xor half_a half_c,
      bit_xor_parts k a (b / 2) c (d / 2) (omega (arith, pow-suc 2 k)) (omega (arith, pow-suc 2 k)),
      bit_xor_step b d,
      doubled a,
      doubled c,
      doubled (bit_xor a c),
    )

number_from-xor_bytes :
    (a b : ℕ) (xs ys : List ℕ)
    → length xs ≤ length ys
    → IsBytes xs
    → IsBytes ys
    → number_from (bit_xor a b) (xor_bytes (length xs) xs ys)
      ≡ bit_xor (number_from a xs) (number_from b (take (length xs) ys))
number_from-xor_bytes a b [] ys l p q = refl
number_from-xor_bytes a b (x ∷ xs) [] l p q = absurd (omega arith)
number_from-xor_bytes a b (x ∷ xs) (y ∷ ys) l p q =
    let joins : (m z : ℕ) → 2 ^ 8 * m + z ≡ m * 256 + z = λ m z. omega arith in
    let joined : bit_xor a b * 256 + bit_xor x y ≡ bit_xor (a * 256 + x) (b * 256 + y) =
      omega arith ∙ sym (bit_xor_parts 8 a x b y p.0 q.0) ∙ ap₂ bit_xor (joins a x) (joins b y) in
    ap (λ n. number_from n (xor_bytes (length xs) xs ys)) joined
    ∙ number_from-xor_bytes (a * 256 + x) (b * 256 + y) xs ys (omega arith) p.1 q.1

number-xor_bytes :
    (n : ℕ) (xs transid : List ℕ)
    → length xs ≡ n
    → n ≤ length transid
    → IsBytes xs
    → IsBytes transid
    → number (xor_bytes n xs transid) ≡ bit_xor (number xs) (number (take n transid))
number-xor_bytes n xs transid e l p q =
    ap (λ k. number (xor_bytes k xs transid)) (sym e)
    ∙ number_from-xor_bytes 0 0 xs transid (omega arith) p q
    ∙ ap (λ k. bit_xor (number xs) (number (take k transid))) e

family_length_le : (f : Family) → family_length f ≤ 16
family_length_le inet = omega arith
family_length_le inet6 = omega arith

-- Of a well-formed address and a transaction id of 16 bytes, `ApplyStunXorMap` makes a well-formed
-- address of the same family: in network order the port is the exclusive or of the port and the
-- first 2 bytes of the id, and the IP address that of the address and the first 4 bytes for IPv4, or
-- all 16 for IPv6. Applied again it gives the address back.
pub apply_stun_xor_map_lem :
    (transid : TransactionId) (a : Address)
    → length transid ≡ 16
    → IsBytes transid
    → IsValid a
    → let masked = apply_stun_xor_map transid a in
      IsValid masked
      × (masked.family ≡ a.family)
      × (number masked.port ≡ bit_xor (number a.port) (number (take 2 transid)))
      × (number masked.ip ≡ bit_xor (number a.ip) (number (take (family_length a.family) transid)))
      × (apply_stun_xor_map transid masked ≡ a)
unfolding apply_stun_xor_map
apply_stun_xor_map_lem transid a l t v = (
  apply_stun_xor_map-IsValid transid a t v,
  refl,
  number-xor_bytes 2 a.port transid v.port_length (omega arith) v.port_bytes t,
  number-xor_bytes (family_length a.family) a.ip transid v.ip_length
      (omega (arith, l, family_length_le a.family)) v.ip_bytes t,
  apply_stun_xor_map_twice transid a,
)
