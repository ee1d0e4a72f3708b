-- ===== src/Builder/Addresses.antt =====
-- The address attributes of `CStunMessageBuilder`, and the error code.
use nat_tester.Base.{
  ℕ, ◌+◌, ◌≤◌, ◌<◌, ◌≡◌, refl, sym, ap, subst, Bool, List, [], ◌∷◌, ◌++◌, append_assoc, append-nil,
  Option, length, length-append, arith, if◌then◌else◌,
}
use nat_tester.Hresult.{◌▷◌}
use nat_tester.Word.{u8, uint16_bytes, uint16_at}
use nat_tester.StunTypes.{
  TransactionId, mapped_address_size_ipv4, mapped_address_size_ipv6, field_ipv4, field_ipv6,
  attribute_mapped_address, attribute_source_address, attribute_response_origin,
  attribute_changed_address, attribute_other_address, attribute_xor_mapped_address,
  attribute_xor_mapped_address_optional,
}
use nat_tester.Address.{
  Address, Family, inet, inet6, family_length, apply_stun_xor_map, get_port_nbo, get_ip_nbo,
}
use nat_tester.Address.Laws.{IsBytes, apply_stun_xor_map-IsValid}
use nat_tester.Address.Laws
use nat_tester.Builder.{
  Builder, put, put_uint8, put_uint16, add_attribute_header, add_mapped_address_impl, padding_of,
  add_mapped_address, add_response_origin_address, add_other_address, add_xor_mapped_address,
}
use nat_tester.Builder.Emit.{
  be16, frame, Holds, Emitted, put-Emitted, recast, add_attribute_header-Emitted,
}

-- the types of the address attributes, by the mode of the builder
abbrev pub origin_type : Bool → ℕ
origin_type legacy = if legacy then attribute_source_address else attribute_response_origin

abbrev pub other_type : Bool → ℕ
other_type legacy = if legacy then attribute_changed_address else attribute_other_address

abbrev pub xor_type : Bool → ℕ
xor_type legacy =
    if legacy then attribute_xor_mapped_address_optional else attribute_xor_mapped_address

-- the value of an address attribute
abbrev pub family_code : Family → ℕ
family_code inet = 1
family_code inet6 = 2

abbrev pub address_value : Address → List ℕ
address_value addr = 0 ∷ family_code addr.family ∷ (addr.port ++ addr.ip)

pub length-address_value :
    (addr : Address)
    → Laws.IsValid addr
    → length (address_value addr) ≡ 4 + family_length addr.family
length-address_value addr v =
    omega (arith, length-append addr.port addr.ip, v.port_length, v.ip_length)

-- the bytes of a port are those of its number
port_bytes : (port : List ℕ) → length port ≡ 2 → IsBytes port → uint16_bytes (uint16_at port) ≡ port
port_bytes (x ∷ y ∷ []) l b = ground arith
port_bytes xs l b = ground arith

all_ip_bytes : (addr : Address) → Laws.IsValid addr → get_ip_nbo 16 addr ≡ addr.ip
unfolding get_ip_nbo
all_ip_bytes addr v = ground arith

family_code-lt : (f : Family) → family_code f < 256
family_code-lt inet = omega arith
family_code-lt inet6 = omega arith

family_length_bounds :
    (f : Family)
    → (4 ≤ family_length f) × (family_length f ≤ 16) × (padding_of (4 + family_length f) ≡ 0)
family_length_bounds inet = (omega arith, omega arith, refl)
family_length_bounds inet6 = (omega arith, omega arith, refl)

frame-address_value :
    (attribute : ℕ) (addr : Address)
    → Laws.IsValid addr
    → frame attribute (address_value addr)
      ≡ be16 attribute
        ++ (be16 (4 + family_length addr.family)
            ++ (0 ∷ family_code addr.family ∷ (uint16_bytes (get_port_nbo addr) ++ addr.ip)))
unfolding get_port_nbo
frame-address_value attribute addr v =
    rw
      (
        length-address_value addr v,
        (family_length_bounds addr.family).2,
        append-nil (addr.port ++ addr.ip),
      )
      (ap
        (λ xs.
          be16 attribute
          ++ (be16 (4 + family_length addr.family)
              ++ (0 ∷ family_code addr.family ∷ (xs ++ addr.ip))))
        (sym (port_bytes addr.port v.port_length v.port_bytes)))

module _ (new_bytes : ℕ → Option (List ℕ)) where
  -- `AddMappedAddressImpl` makes these calls.
  impl_steps :
      (attribute : ℕ) (addr : Address) (b : Builder)
      → Laws.IsValid addr
      → add_mapped_address_impl new_bytes attribute addr b ≡ (
          add_attribute_header new_bytes attribute (4 + family_length addr.family) b
          ▷ put_uint8 new_bytes 0
          ▷ put_uint8 new_bytes (family_code addr.family)
          ▷ put_uint16 new_bytes (get_port_nbo addr)
          ▷ put new_bytes addr.ip)
  unfolding add_mapped_address_impl
  impl_steps attribute addr b v = rw (all_ip_bytes addr v) (go addr.family)
    where
      go :
          (f : Family)
          → (add_attribute_header new_bytes attribute
                (elim f [ inet ↦ mapped_address_size_ipv4 | inet6 ↦ mapped_address_size_ipv6 ])
                b
              ▷ put_uint8 new_bytes 0
              ▷ put_uint8 new_bytes (elim f [ inet ↦ field_ipv4 | inet6 ↦ field_ipv6 ])
              ▷ put_uint16 new_bytes (get_port_nbo addr)
              ▷ put new_bytes addr.ip)
            ≡ (add_attribute_header new_bytes attribute (4 + family_length f) b
                ▷ put_uint8 new_bytes 0
                ▷ put_uint8 new_bytes (family_code f)
                ▷ put_uint16 new_bytes (get_port_nbo addr)
                ▷ put new_bytes addr.ip)
      go inet = refl
      go inet6 = refl

module _ (new_bytes : ℕ → Option (List ℕ)) {cap : ℕ} {id : TransactionId} {legacy : Bool} where
  -- the calls of `AddMappedAddressImpl` for a family with its code and the size of its attribute
  fields-Emitted :
      (attribute size code port_nbo : ℕ) (ip bytes : List ℕ) (b : Builder)
      → Holds cap id legacy bytes b
      → code < 256
      → 0 < length ip
      → length bytes + 8 + length ip ≤ cap
      → Emitted cap id legacy
          (bytes ++ (be16 attribute ++ (be16 size ++ (0 ∷ code ∷ (uint16_bytes port_nbo ++ ip)))))
          (add_attribute_header new_bytes attribute size b
            ▷ put_uint8 new_bytes 0
            ▷ put_uint8 new_bytes code
            ▷ put_uint16 new_bytes port_nbo
            ▷ put new_bytes ip)
  fields-Emitted attribute size code port_nbo ip bytes b h small some_bytes room =
      let head = be16 attribute ++ be16 size in
      let r₀ = add_attribute_header new_bytes attribute size b in
      let e₀ = add_attribute_header-Emitted new_bytes attribute size bytes b h (omega arith) in
      let r₁ = r₀ ▷ put_uint8 new_bytes 0 in
      let e₁ =
        put-Emitted new_bytes (u8 0 ∷ []) (bytes ++ head) r₀ e₀ (omega arith)
          (omega (arith, length-append bytes head)) in
      let b₁ = (bytes ++ head) ++ (u8 0 ∷ []) in
      let l₁ : length b₁ ≡ length bytes + 5 =
        omega (arith, length-append bytes head, length-append (bytes ++ head) (u8 0 ∷ [])) in
      let r₂ = r₁ ▷ put_uint8 new_bytes code in
      let e₂ = put-Emitted new_bytes (u8 code ∷ []) b₁ r₁ e₁ (omega arith) (omega arith) in
      let b₂ = b₁ ++ (u8 code ∷ []) in
      let l₂ : length b₂ ≡ length bytes + 6 = omega (arith, length-append b₁ (u8 code ∷ [])) in
      let r₃ = r₂ ▷ put_uint16 new_bytes port_nbo in
      let e₃ = put-Emitted new_bytes (uint16_bytes port_nbo) b₂ r₂ e₂ (omega arith) (omega arith) in
      let b₃ = b₂ ++ uint16_bytes port_nbo in
      let l₃ : length b₃ ≡ length bytes + 8 =
        omega (arith, length-append b₂ (uint16_bytes port_nbo)) in
      let e₄ = put-Emitted new_bytes ip b₃ r₃ e₃ some_bytes (omega arith) in
      let eight : u8 code ≡ code = omega arith in
      recast new_bytes (r₃ ▷ put new_bytes ip) (b₃ ++ ip) _ (rw eight (simp append_assoc)) e₄

  -- `AddMappedAddressImpl` adds the attribute with the family, the port and the IP address.
  pub add_mapped_address_impl-Emitted :
      (attribute : ℕ) (addr : Address) (bytes : List ℕ) (b : Builder)
      → Holds cap id legacy bytes b
      → Laws.IsValid addr
      → length bytes + 24 ≤ cap
      → Emitted cap id legacy
          (bytes ++ frame attribute (address_value addr))
          (add_mapped_address_impl new_bytes attribute addr b)
  add_mapped_address_impl-Emitted attribute addr bytes b h v room =
      rw (impl_steps new_bytes attribute addr b v, frame-address_value attribute addr v)
        (fields-Emitted attribute (4 + family_length addr.family) (family_code addr.family)
          (get_port_nbo addr) addr.ip bytes b h (family_code-lt addr.family)
          (omega (arith, v.ip_length, family_length_bounds addr.family))
          (omega (arith, v.ip_length, family_length_bounds addr.family)))

  pub add_mapped_address-Emitted :
      (addr : Address) (bytes : List ℕ) (b : Builder)
      → Holds cap id legacy bytes b
      → Laws.IsValid addr
      → length bytes + 24 ≤ cap
      → Emitted cap id legacy
          (bytes ++ frame attribute_mapped_address (address_value addr))
          (add_mapped_address new_bytes addr b)
  unfolding add_mapped_address
  add_mapped_address-Emitted = add_mapped_address_impl-Emitted attribute_mapped_address

  pub add_response_origin_address-Emitted :
      (addr : Address) (bytes : List ℕ) (b : Builder)
      → Holds cap id legacy bytes b
      → Laws.IsValid addr
      → length bytes + 24 ≤ cap
      → Emitted cap id legacy
          (bytes ++ frame (origin_type legacy) (address_value addr))
          (add_response_origin_address new_bytes addr b)
  unfolding add_response_origin_address
  add_response_origin_address-Emitted addr bytes b h v room =
      subst
        (λ m.
          Emitted cap id legacy (bytes ++ frame (origin_type legacy) (address_value addr))
            (add_mapped_address_impl new_bytes (origin_type m) addr b))
        (sym h.mode) (add_mapped_address_impl-Emitted (origin_type legacy) addr bytes b h v room)

  pub add_other_address-Emitted :
      (addr : Address) (bytes : List ℕ) (b : Builder)
      → Holds cap id legacy bytes b
      → Laws.IsValid addr
      → length bytes + 24 ≤ cap
      → Emitted cap id legacy
          (bytes ++ frame (other_type legacy) (address_value addr))
          (add_other_address new_bytes addr b)
  unfolding add_other_address
  add_other_address-Emitted addr bytes b h v room =
      subst
        (λ m.
          Emitted cap id legacy (bytes ++ frame (other_type legacy) (address_value addr))
            (add_mapped_address_impl new_bytes (other_type m) addr b))
        (sym h.mode) (add_mapped_address_impl-Emitted (other_type legacy) addr bytes b h v room)

  pub add_xor_mapped_address-Emitted :
      (addr : Address) (bytes : List ℕ) (b : Builder)
      → Holds cap id legacy bytes b
      → Laws.IsValid addr
      → IsBytes id
      → length bytes + 24 ≤ cap
      → Emitted cap id legacy
          (bytes ++ frame (xor_type legacy) (address_value (apply_stun_xor_map id addr)))
          (add_xor_mapped_address new_bytes addr b)
  unfolding add_xor_mapped_address
  add_xor_mapped_address-Emitted addr bytes b h v t room =
      let mapped = apply_stun_xor_map id addr in
      subst
        (λ m. Emitted cap id legacy (bytes ++ frame (xor_type legacy) (address_value mapped)) (
          add_mapped_address_impl new_bytes (xor_type m) (apply_stun_xor_map b.transaction_id addr)
            b))
        (sym h.mode)
        (subst
          (λ t.
            Emitted cap id legacy (bytes ++ frame (xor_type legacy) (address_value mapped))
              (add_mapped_address_impl new_bytes (xor_type legacy) (apply_stun_xor_map t addr) b))
          (sym h.identified)
          (add_mapped_address_impl-Emitted (xor_type legacy) mapped bytes b h
            (apply_stun_xor_map-IsValid id addr t v) room))
