-- ===== src/Address/Laws.antt =====
-- Addresses as the kernel and the parsers make them, and what the accessors agree on.
use nat_tester.Base.{
  ℕ, zero, suc, ◌<◌, ◌≡◌, ◌↔◌, refl, ap, ap₂, ◌∙◌, true, List, [], ◌∷◌, length, arith,
}
use nat_tester.Bits.{bit_xor_twice, bit_xor-lt}
use nat_tester.StunTypes.{TransactionId}
use nat_tester.Word.{htons, uint16_at}
use nat_tester.Address.{
  Address, family_length, get_port, xor_bytes, apply_stun_xor_map, same_bytes, is_same_ip,
  is_same_ip_and_port,
}

abbrev pub IsBytes : List ℕ → Type 0
IsBytes [] = Unit
IsBytes (x ∷ xs) = (x < 256) × IsBytes xs

-- two bytes of port, and as many of the IP address as its family has
pub record IsValid (a : Address) : Type 0 where
  pub port_length : length a.port ≡ 2
  pub port_bytes : IsBytes a.port
  pub ip_length : length a.ip ≡ family_length a.family
  pub ip_bytes : IsBytes a.ip

xor_bytes_twice : (n : ℕ) (xs ys : List ℕ) → xor_bytes n (xor_bytes n xs ys) ys ≡ xs
xor_bytes_twice zero xs ys = refl
xor_bytes_twice (suc n) [] [] = refl
xor_bytes_twice (suc n) [] (y ∷ ys) = refl
xor_bytes_twice (suc n) (x ∷ xs) [] = refl
xor_bytes_twice (suc n) (x ∷ xs) (y ∷ ys) = ap₂ ◌∷◌ (bit_xor_twice x y) (xor_bytes_twice n xs ys)

-- The XOR mapping is its own inverse: what a server masks, a client with the same transaction id
-- unmasks.
pub apply_stun_xor_map_twice :
    (transid : TransactionId) (a : Address)
    → apply_stun_xor_map transid (apply_stun_xor_map transid a) ≡ a
unfolding apply_stun_xor_map
apply_stun_xor_map_twice transid a = λ i. record {
  family = a.family;
  port = xor_bytes_twice 2 a.port transid i;
  ip = xor_bytes_twice (family_length a.family) a.ip transid i;
}

length-xor_bytes : (n : ℕ) (xs ys : List ℕ) → length (xor_bytes n xs ys) ≡ length xs
length-xor_bytes zero xs ys = refl
length-xor_bytes (suc n) [] [] = refl
length-xor_bytes (suc n) [] (y ∷ ys) = refl
length-xor_bytes (suc n) (x ∷ xs) [] = refl
length-xor_bytes (suc n) (x ∷ xs) (y ∷ ys) = ap suc (length-xor_bytes n xs ys)

IsBytes-xor_bytes : (n : ℕ) (xs ys : List ℕ) → IsBytes xs → IsBytes ys → IsBytes (xor_bytes n xs ys)
IsBytes-xor_bytes zero xs ys p q = p
IsBytes-xor_bytes (suc n) [] [] p q = p
IsBytes-xor_bytes (suc n) [] (y ∷ ys) p q = p
IsBytes-xor_bytes (suc n) (x ∷ xs) [] p q = p
IsBytes-xor_bytes (suc n) (x ∷ xs) (y ∷ ys) p q =
    (bit_xor-lt 8 x y p.0 q.0, IsBytes-xor_bytes n xs ys p.1 q.1)

pub apply_stun_xor_map-IsValid :
    (transid : TransactionId) (a : Address)
    → IsBytes transid
    → IsValid a
    → IsValid (apply_stun_xor_map transid a)
unfolding apply_stun_xor_map
apply_stun_xor_map-IsValid transid a t v = record {
  port_length = length-xor_bytes 2 a.port transid ∙ v.port_length;
  port_bytes = IsBytes-xor_bytes 2 a.port transid v.port_bytes t;
  ip_length = length-xor_bytes _ a.ip transid ∙ v.ip_length;
  ip_bytes = IsBytes-xor_bytes _ a.ip transid v.ip_bytes t;
}

same_bytes_iff : (xs ys : List ℕ) → (same_bytes xs ys ≡ true) ↔ (xs ≡ ys)
same_bytes_iff [] [] = ((λ h. refl), (λ h. refl))
same_bytes_iff [] (y ∷ ys) = ground arith
same_bytes_iff (x ∷ xs) [] = ground arith
same_bytes_iff (x ∷ xs) (y ∷ ys) = ground (arith, same_bytes_iff xs ys)

-- two bytes are determined by the port that they stand for
port_injective :
    (xs ys : List ℕ)
    → length xs ≡ 2
    → length ys ≡ 2
    → IsBytes xs
    → IsBytes ys
    → htons (uint16_at xs) ≡ htons (uint16_at ys)
    → xs ≡ ys
unfolding htons
port_injective (a ∷ b ∷ []) (c ∷ d ∷ []) e f p q h = ground arith
port_injective xs ys e f p q h = ground arith

-- `IsSameIP_and_Port` holds of two well-formed addresses exactly when they are the same address.
pub is_same_ip_and_port_iff :
    (a b : Address) → IsValid a → IsValid b → (is_same_ip_and_port a b ≡ true) ↔ (a ≡ b)
unfolding is_same_ip_and_port is_same_ip get_port
is_same_ip_and_port_iff a b v w =
    ground (arith, same_bytes_iff a.ip b.ip, port_injective a.port b.port)
