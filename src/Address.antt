-- ===== src/Address.antt =====
-- all/socketaddress.cpp: `CSocketAddress` holding an IPv4 or an IPv6 address. The port and the IP
-- address are kept as the bytes of the `sockaddr`, which are in network order; scope and flow of
-- an IPv6 address are only ever copied and have no field here.
pub mod Laws
pub mod Masked
use nat_tester.Base.{
  ℕ, suc, Bool, true, false, ◌&&◌, List, [], ◌∷◌, get_or, set, take, bit_xor, replicate, reverse,
  ltb, ◌==◌, if◌then◌else◌, length,
}
use nat_tester.StunTypes.{TransactionId, ipv4_length, ipv6_length}
use nat_tester.Word.{htons, htonl, uint16_bytes, uint32_bytes, uint16_at, uint32_at}

-- `sa_family`: AF_INET or AF_INET6. The constructors assert that it is one of the two.
pub data Family : Type 0 where
  inet inet6 : Family

pub record Address : Type 0 where
  pub family : Family
  pub port : List ℕ
  pub ip : List ℕ

-- `CSocketAddress()`
unfoldable pub zero_address : Address
zero_address = record { family = inet; port = 0 ∷ 0 ∷ []; ip = 0 ∷ 0 ∷ 0 ∷ 0 ∷ [] }

-- `CSocketAddress(ip, port)`
unfoldable pub of_ip_port : ℕ → ℕ → Address
of_ip_port ip port = record {
  family = inet;
  port = uint16_bytes (htons port);
  ip = uint32_bytes (htonl ip);
}

-- `CSocketAddress(sockaddr_in6)`
unfoldable pub of_sockaddr_in6 : List ℕ → ℕ → Address
of_sockaddr_in6 ip port_nbo = record { family = inet6; port = uint16_bytes port_nbo; ip = ip }

-- `CSocketAddress::GetPort_NBO`
unfoldable pub get_port_nbo : Address → ℕ
get_port_nbo a = uint16_at a.port

-- `CSocketAddress::GetPort`
unfoldable pub get_port : Address → ℕ
unfolding get_port_nbo
get_port a = htons (get_port_nbo a)

-- `CSocketAddress::SetPort`
unfoldable pub set_port : ℕ → Address → Address
set_port port a = record a { port = uint16_bytes (htons port) }

abbrev pub family_length : Family → ℕ
family_length inet = ipv4_length
family_length inet6 = ipv6_length

-- `CSocketAddress::GetIPLength`
unfoldable pub get_ip_length : Address → ℕ
get_ip_length a = family_length a.family

-- `htonl` of the IPv4 address where the host's order is asked for; an IPv6 address has one order.
abbrev pub ip_bytes : Family → List ℕ → Bool → List ℕ
ip_bytes inet ip true = ip
ip_bytes inet ip false = uint32_bytes (htonl (uint32_at ip))
ip_bytes inet6 ip nbo = ip

-- `CSocketAddress::GetIPImpl` for a buffer of `length` bytes that is not NULL: the bytes copied,
-- none on an error. Their number is the return value.
unfoldable pub get_ip_impl : ℕ → Bool → Address → List ℕ
unfolding get_ip_length
get_ip_impl length nbo a = if ltb length (get_ip_length a) then [] else ip_bytes a.family a.ip nbo

-- `CSocketAddress::GetIP` and `GetIP_NBO`
unfoldable pub get_ip : ℕ → Address → List ℕ
unfolding get_ip_impl
get_ip length a = get_ip_impl length false a

unfoldable pub get_ip_nbo : ℕ → Address → List ℕ
unfolding get_ip_impl
get_ip_nbo length a = get_ip_impl length true a

-- `n` rounds of the loop `p[i] = p[i] ^ id[i]`
abbrev pub xor_bytes : ℕ → List ℕ → List ℕ → List ℕ
xor_bytes (suc n) (x ∷ xs) (y ∷ ys) = bit_xor x y ∷ xor_bytes n xs ys
xor_bytes n xs ys = xs

-- `CSocketAddress::ApplyStunXorMap`
unfoldable pub apply_stun_xor_map : TransactionId → Address → Address
apply_stun_xor_map transid a = record a {
  port = xor_bytes 2 a.port transid;
  ip = xor_bytes (family_length a.family) a.ip transid;
}

-- `!memcmp(a, b, n)` for the n bytes of both
abbrev pub same_bytes : List ℕ → List ℕ → Bool
same_bytes [] [] = true
same_bytes (x ∷ xs) (y ∷ ys) = x == y && same_bytes xs ys
same_bytes _ _ = false

abbrev pub same_family : Family → Family → Bool
same_family inet inet = true
same_family inet6 inet6 = true
same_family _ _ = false

-- `CSocketAddress::IsSameIP`
unfoldable pub is_same_ip : Address → Address → Bool
is_same_ip a b = if same_family a.family b.family then same_bytes a.ip b.ip else false

-- `CSocketAddress::IsSameIP_and_Port`
unfoldable pub is_same_ip_and_port : Address → Address → Bool
unfolding is_same_ip get_port
is_same_ip_and_port a b = is_same_ip a b && get_port a == get_port b

-- `CSocketAddress::IsIPAddressZero`
unfoldable pub is_ip_address_zero : Address → Bool
is_ip_address_zero a = same_bytes a.ip (replicate (family_length a.family) 0)
