-- ===== src/Server/Drafts.antt =====
-- Messages of `CStunRequestHandler` in the making, and what it takes to answer.
use nat_tester.Base.{
  ℕ, ◌+◌, ◌*◌, ◌^◌, ◌≤◌, ◌<◌, ◌≡◌, refl, ap, ◌∙◌, Bool, true, false, List, [], ◌∷◌, ◌++◌, Option,
  some, length, length-append, arith, if◌then◌else◌,
}
use nat_tester.Hresult.{Run}
use nat_tester.StunTypes.{TransactionId, MessageClass, class_code, max_attribute_size}
use nat_tester.Stream.{Buffer}
use nat_tester.FastHash.Chains.{All}
use nat_tester.Address.{Address, Family, inet, inet6, family_length}
use nat_tester.Address.Laws.{IsBytes, apply_stun_xor_map-IsValid}
use nat_tester.Address.Laws
use nat_tester.Builder.{
  Builder, type_field, add_header, add_transaction_id, padding_of, new_builder,
}
use nat_tester.Builder.Emit.{frame, frame_size, Emitted}
use nat_tester.Builder.Addresses.{
  address_value, length-address_value, origin_type, other_type, xor_type,
}
use nat_tester.Builder.Drafts.{
  HasRoom, Holds-nothing, draft, Drafted, length-draft, length-snoc, added-Drafted, started-Drafted,
}
use nat_tester.Reader.Loop.{Attributes, frames, IsSendable}
use nat_tester.Server.Roles.{Role, at_role}
use nat_tester.Server.Handler.{Handler, response_builder}

-- A draft of at most `k` attributes that are each as long as an address or shorter.
pub record IsDraft (n : ℕ) (id : TransactionId) (legacy : Bool) (field k : ℕ)
    (attributes : Attributes) (b : Builder) : Type 0 where
  pub holds : Drafted n id legacy field attributes b
  pub small : length (frames attributes) ≤ 24 * k
  pub few : length attributes ≤ k
  pub sendable : All IsSendable attributes

IsSendable-snoc :
    (xs : Attributes) (x : ℕ × List ℕ)
    → All IsSendable xs
    → IsSendable x
    → All IsSendable (xs ++ (x ∷ []))
IsSendable-snoc [] x all p = (p, tt)
IsSendable-snoc (y ∷ xs) x all p = (all.0, IsSendable-snoc xs x all.1 p)

address_size : (f : Family) → (4 + family_length f ≤ 20) × (padding_of (4 + family_length f) ≡ 0)
address_size inet = (omega arith, refl)
address_size inet6 = (omega arith, refl)

pub origin_type-lt :
    (legacy : Bool)
    → (origin_type legacy < 2 ^ 16) × (other_type legacy < 2 ^ 16) × (xor_type legacy < 2 ^ 16)
origin_type-lt true = (omega arith, omega arith, omega arith)
origin_type-lt false = (omega arith, omega arith, omega arith)

module _ {n : ℕ} {id : TransactionId} {legacy : Bool} where
  -- A call that adds the frame of a value for which `j` shares of the room are enough.
  pub value-IsDraft :
      (field k j : ℕ) (attributes : Attributes) (type : ℕ) (value : List ℕ) (b : Builder)
      (r : Run Builder)
      → IsDraft n id legacy field k attributes b
      → frame_size (length value) ≤ 24 * j
      → 1 ≤ j
      → type < 2 ^ 16
      → length value ≤ max_attribute_size
      → Emitted n id legacy (draft field id attributes ++ frame type value) r
      → IsDraft n id legacy field (k + j) (attributes ++ ((type, value) ∷ [])) r.1
  value-IsDraft field k j attributes type value b r d size some_room t short e = record {
    holds = added-Drafted field attributes type value r e;
    small = omega (arith, length-snoc attributes type value, d.small);
    few = omega (arith, length-append attributes ((type, value) ∷ []), d.few);
    sendable = IsSendable-snoc attributes (type, value) d.sendable (t, short);
  }

  -- A call that adds the frame of an address.
  pub address-IsDraft :
      (field k : ℕ) (attributes : Attributes) (type : ℕ) (addr : Address) (b : Builder)
      (r : Run Builder)
      → IsDraft n id legacy field k attributes b
      → Laws.IsValid addr
      → type < 2 ^ 16
      → Emitted n id legacy (draft field id attributes ++ frame type (address_value addr)) r
      → IsDraft n id legacy field (k + 1) (attributes ++ ((type, address_value addr) ∷ [])) r.1
  address-IsDraft field k attributes type addr b r d v t e =
      let l = length-address_value addr v in
      let size = address_size addr.family in
      let pad : padding_of (length (address_value addr)) ≡ 0 = ap padding_of l ∙ size.1 in
      value-IsDraft field k 1 attributes type (address_value addr) b r d
        (omega (arith, l, size, pad)) (omega arith) t (omega (arith, l, size)) e

  pub more-IsDraft :
      (field k : ℕ) (attributes : Attributes) (b : Builder)
      → IsDraft n id legacy field k attributes b
      → IsDraft n id legacy field (k + 1) attributes b
  more-IsDraft field k attributes b d = record {
    holds = d.holds;
    small = omega (arith, d.small);
    few = omega (arith, d.few);
    sendable = d.sendable;
  }

  -- a step that is taken or not
  pub either-IsDraft :
      (test : Bool) (field k : ℕ) (xs ys : Attributes) (b c : Builder)
      → IsDraft n id legacy field k xs b
      → IsDraft n id legacy field k ys c
      → IsDraft n id legacy field k (if test then xs else ys) (if test then b else c)
  either-IsDraft true field k xs ys b c d e = d
  either-IsDraft false field k xs ys b c d e = e

-- A request handler that can answer: room in the caller's buffer, an id, and well-formed addresses.
pub record CanAnswer (n : ℕ) (buffer : Buffer) (h : Handler) : Type 0 where
  pub is_there : h.msg_out.buffer ≡ some buffer
  pub room : HasRoom n buffer
  pub id_length : length h.transaction_id ≡ 16
  pub id_bytes : IsBytes h.transaction_id
  pub remote : Laws.IsValid h.msg_in.addr_remote
  pub local : Laws.IsValid h.msg_in.addr_local
  pub own : (role : Role) → Laws.IsValid (at_role h.addresses role).addr

-- room for `j` more shares
pub room_left :
    {n : ℕ} {id : TransactionId} {legacy : Bool} {field k : ℕ} {attributes : Attributes}
    {b : Builder} (j : ℕ)
    → IsDraft n id legacy field k attributes b
    → length id ≡ 16
    → 800 ≤ n
    → k + j ≤ 30
    → length (draft field id attributes) + 24 * j ≤ n
room_left {field} {k} {attributes} j d l room few =
    omega (arith, length-draft field _ attributes l, d.small)

-- `AddHeader` and `AddTransactionId` in the caller's buffer
pub started-IsDraft :
    (new_bytes : ℕ → Option (List ℕ)) {n : ℕ} {buffer : Buffer} (h : Handler) (type : ℕ)
    (class : MessageClass)
    → CanAnswer n buffer h
    → IsDraft n h.transaction_id h.legacy_mode
        (type_field type (class_code class))
        0
        []
        (add_transaction_id new_bytes h.transaction_id
          (add_header new_bytes type class (response_builder h)).1).1
unfolding response_builder
started-IsDraft new_bytes {n} {buffer} h type class c = record {
  holds =
      started-Drafted new_bytes type class new_builder.transaction_id (response_builder h)
        (rw c.is_there (Holds-nothing n h.legacy_mode buffer c.room)) (omega (arith, c.room.enough))
        c.id_length;
  small = omega arith;
  few = omega arith;
  sendable = tt;
}
