-- ===== src/Reader/Found.antt =====
-- The getters of `CStunMessageReader` for an attribute of which the value is known.
use nat_tester.Base.{
  ℕ, ◌+◌, ◌^◌, ◌<◌, ◌≡◌, inl, inr, refl, sym, ap, ap₂, ◌∙◌, subst, Bool, true, false, List, [], ◌∷◌,
  ◌++◌, append_assoc, none, some, length, take, drop, take-append, drop_all, arith, Option-cases,
}
use nat_tester.Hresult.{s_ok, e_fail}
use nat_tester.Word.{htons, htonl, uint16_at, uint32_at, uint16_bytes, uint32_bytes}
use nat_tester.StunTypes.{
  ChangeRequest, attribute_change_request, attribute_response_port, attribute_padding,
}
use nat_tester.Stream.{
  Stream, data_pointer, get_data_pointer_unsafe, init_no_alloc, of_buffer, seek_direct, read,
  read_uint8, read_uint16, read_uint32,
}
use nat_tester.Address.{Address, Family, inet, inet6, family_length, of_ip_port, of_sockaddr_in6}
use nat_tester.Address.Laws.{IsBytes, IsValid}
use nat_tester.Builder.Emit.{be16}
use nat_tester.Builder.Errors.{change_value}
use nat_tester.Builder.Addresses.{family_code, address_value, length-address_value}
use nat_tester.Reader.{Reader}
use nat_tester.Reader.Get.{
  value_at, get_string_attribute_by_type, get_change_request, get_response_port,
  get_padding_attribute_size, change_flags, parse_mapped_address, get_address_helper,
}
use nat_tester.Reader.Values.{Found}

-- four bytes are those of the IPv4 address that is read from them
ip_bytes-ip4 :
    (ip : List ℕ) → length ip ≡ 4 → IsBytes ip → uint32_bytes (htonl (htonl (uint32_at ip))) ≡ ip
unfolding htonl
ip_bytes-ip4 (a ∷ b ∷ c ∷ d ∷ []) l v = ground arith
ip_bytes-ip4 ip l v = ground arith

port_bytes_again :
    (port : List ℕ)
    → length port ≡ 2
    → IsBytes port
    → uint16_bytes (htons (htons (uint16_at port))) ≡ port
unfolding htons
port_bytes_again (p ∷ q ∷ []) l v = ground arith
port_bytes_again port l v = ground arith

parse-inet :
    (port ip rest : List ℕ) (addr : Address)
    → length port ≡ 2
    → IsBytes port
    → length ip ≡ 4
    → IsBytes ip
    → parse_mapped_address (0 ∷ 1 ∷ (port ++ (ip ++ rest))) 8 addr
      ≡ (s_ok, record { family = inet; port = port; ip = ip })
unfolding parse_mapped_address init_no_alloc of_buffer seek_direct read read_uint8 read_uint16
    read_uint32 of_ip_port
parse-inet (p ∷ q ∷ []) (a ∷ b ∷ c ∷ d ∷ []) rest addr lp vp li vi =
    ap₂ (λ xs ys. (s_ok, record { family = inet; port = xs; ip = ys }))
      (port_bytes_again (p ∷ q ∷ []) lp vp) (ip_bytes-ip4 (a ∷ b ∷ c ∷ d ∷ []) li vi)
parse-inet port ip rest addr lp vp li vi = ground arith

parse-inet6 :
    (port ip rest : List ℕ) (addr : Address)
    → length port ≡ 2
    → IsBytes port
    → length ip ≡ 16
    → parse_mapped_address (0 ∷ 2 ∷ (port ++ (ip ++ rest))) 20 addr
      ≡ (s_ok, record { family = inet6; port = port; ip = ip })
unfolding parse_mapped_address init_no_alloc of_buffer seek_direct read read_uint8 read_uint16
    of_sockaddr_in6
parse-inet6 (p ∷ q ∷ []) ip rest addr lp vp li =
    ap₂ (λ xs ys. (s_ok, record { family = inet6; port = xs; ip = ys }))
      (port_bytes_again (p ∷ q ∷ []) lp vp)
      (ap (λ n. take n (ip ++ rest)) (sym li) ∙ take-append ip rest)
parse-inet6 port ip rest addr lp vp li = ground arith

-- The bytes of an address, with the code of a family, are read as an address of that family.
abbrev Parses : Address → Address → List ℕ → Family → Type 0
Parses a addr rest f =
    parse_mapped_address (0 ∷ family_code f ∷ (a.port ++ (a.ip ++ rest))) (4 + family_length f) addr
    ≡ (s_ok, record { family = f; port = a.port; ip = a.ip })

-- An address is parsed from its value, whatever comes behind it.
pub parse_mapped_address-value :
    (a addr : Address) (rest : List ℕ)
    → IsValid a
    → parse_mapped_address (address_value a ++ rest) (length (address_value a)) addr ≡ (s_ok, a)
parse_mapped_address-value a addr rest v =
    ap₂ (λ xs n. parse_mapped_address (0 ∷ family_code a.family ∷ xs) n addr)
      (append_assoc a.port a.ip rest) (length-address_value a v)
    ∙ go a.family refl
  where
    go : (f : Family) → a.family ≡ f → Parses a addr rest a.family
    go inet e = subst (Parses a addr rest) (sym e) (
        parse-inet a.port a.ip rest addr v.port_length v.port_bytes
          (v.ip_length ∙ ap family_length e) v.ip_bytes)
    go inet6 e = subst (Parses a addr rest) (sym e) (
        parse-inet6 a.port a.ip rest addr v.port_length v.port_bytes
          (v.ip_length ∙ ap family_length e))

-- the two flags in the value of a CHANGE-REQUEST
flags-change_value :
    (ip port : Bool)
    → change_flags
        (htonl (uint32_at (change_value (record { change_ip = ip; change_port = port }))))
      ≡ record { change_ip = ip; change_port = port }
unfolding htonl
flags-change_value true true = refl
flags-change_value true false = refl
flags-change_value false true = refl
flags-change_value false false = refl

-- the data pointer of a stream that has bytes at an offset
pub pointer_at :
    (s : Stream) (offset x : ℕ) (xs : List ℕ)
    → drop offset (data_pointer s) ≡ x ∷ xs
    → (ys : List ℕ) × (get_data_pointer_unsafe s ≡ some ys) × (drop offset ys ≡ x ∷ xs)
pointer_at s offset x xs e = elim (Option-cases s.buffer) [
  | inl none_there ↦ absurd (ground (arith, drop_all {A = ℕ} [] offset))
  | inr (b, there) ↦ elim (Option-cases b.bytes) [
    | inl null ↦ absurd (ground (arith, drop_all {A = ℕ} [] offset))
    | inr (ys, bytes) ↦ (ys, ground (arith, there, bytes), ground (arith, there, bytes))
  ]
]

module _ {type : ℕ} {value : List ℕ} {r : Reader} (f : Found type value r) where
  pub get_string_attribute_by_type-Found :
      (size : ℕ) → length value < size → get_string_attribute_by_type type size r ≡ (s_ok, value)
  unfolding get_string_attribute_by_type
  get_string_attribute_by_type-Found size room =
      ground (arith, f.is_there, f.size, f.at, take-append value f.rest)

  pub get_address_helper-Found :
      (a addr : Address)
      → IsValid a
      → value ≡ address_value a
      → get_address_helper type addr r ≡ (s_ok, a)
  unfolding get_address_helper
  get_address_helper-Found a addr v e =
      ap
        (λ o. elim o [
          | none ↦ (e_fail, addr)
          | some attrib ↦ parse_mapped_address (value_at attrib r) attrib.size addr
        ])
        f.is_there
      ∙ rw (f.size, f.at, e) (parse_mapped_address-value a addr f.rest v)

pub get_change_request-Found :
    {r : Reader} (change : ChangeRequest)
    → Found attribute_change_request (change_value change) r
    → get_change_request r ≡ (s_ok, change)
unfolding get_change_request htonl
get_change_request-Found {r} change f =
    let (ys, p, e) = pointer_at r.stream f.attrib.offset _ _ f.at in
    rw (f.is_there, get_change_request)
      (rw (f.size, p, e)
        (ap (λ c. (s_ok, c)) (flags-change_value change.change_ip change.change_port)))

pub get_padding_attribute_size-Found :
    {r : Reader} (value : List ℕ)
    → Found attribute_padding value r
    → get_padding_attribute_size r ≡ (s_ok, length value)
unfolding get_padding_attribute_size
get_padding_attribute_size-Found value f = ground (arith, f.is_there, f.size)

pub get_response_port-Found :
    {r : Reader} (port given : ℕ)
    → port < 2 ^ 16
    → Found attribute_response_port (be16 port) r
    → get_response_port given r ≡ (s_ok, port)
unfolding get_response_port htons
get_response_port-Found {r} port given small f =
    let (ys, p, e) = pointer_at r.stream f.attrib.offset _ _ f.at in
    rw (f.is_there, get_response_port) (rw (f.size, p, e) (ap (λ n. (s_ok, n)) (omega arith)))
