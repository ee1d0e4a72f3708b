-- ===== src/Builder/Emit.antt =====
-- What the calls of `CStunMessageBuilder` add to the bytes of a message, in an array with room.
use nat_tester.Base.{
  ℕ, ◌+◌, ◌/◌, ◌%◌, ◌≤◌, ◌<◌, ◌≡◌, refl, sym, ap, ap₂, ◌∙◌, Bool, true, false, List, [], ◌∷◌, ◌++◌,
  append_assoc, append-nil, Option, some, length, length-append, length-replicate, take_all,
  overlay_append, replicate, arith, if◌then◌else◌, ltb, ltb→lt, subst,
}
use nat_tester.Hresult.{s_ok, Run, succeeded, ◌▷◌, chk_when}
use nat_tester.Word.{u16, htons, uint16_bytes}
use nat_tester.StunTypes.{TransactionId}
use nat_tester.Stream.{get_size, allocated_size}
use nat_tester.Stream.Laws.{IsValid, contents, write_fits, length-contents}
use nat_tester.Stream.Fixed.{write_capacity}
use nat_tester.Builder.{Builder, put, put_uint16, padding_of, add_attribute_header, add_attribute}

-- numbers in network order
abbrev pub be16 : ℕ → List ℕ
be16 n = (n / 256 % 256) ∷ (n % 256) ∷ []

pub uint16_bytes-htons : (n : ℕ) → uint16_bytes (htons n) ≡ be16 n
unfolding htons
uint16_bytes-htons n = ground arith

pub be16-u16 : (n : ℕ) → be16 (u16 n) ≡ be16 n
be16-u16 n = ground arith

-- an attribute in a message: type, length, value and padding
abbrev pub frame : ℕ → List ℕ → List ℕ
frame type value =
    be16 type ++ (be16 (length value) ++ (value ++ replicate (padding_of (length value)) 0))

-- A builder at the end of the bytes that it has written to an array of `cap`.
pub record Holds (cap : ℕ) (id : TransactionId) (legacy : Bool) (bytes : List ℕ) (b : Builder)
    : Type 0 where
  pub valid : IsValid b.stream
  pub at_end : b.stream.pos ≡ get_size b.stream
  pub capacity : allocated_size b.stream ≡ cap
  pub holds : contents b.stream ≡ bytes
  pub identified : b.transaction_id ≡ id
  pub mode : b.legacy_mode ≡ legacy

-- a run that has succeeded so far
abbrev pub Emitted : ℕ → TransactionId → Bool → List ℕ → Run Builder → Type 0
Emitted cap id legacy bytes r = (succeeded r.0 ≡ true) × Holds cap id legacy bytes r.1

pub length-Holds :
    {cap : ℕ} {id : TransactionId} {legacy : Bool} {bytes : List ℕ} {b : Builder}
    → Holds cap id legacy bytes b
    → length bytes ≡ get_size b.stream
length-Holds h = ap (λ xs. length xs) (sym h.holds) ∙ length-contents h.valid

pub empty_of_length : (xs : List ℕ) → ltb 0 (length xs) ≡ false → xs ≡ []
empty_of_length [] h = refl
empty_of_length (x ∷ xs) h = ground arith

-- a value as it is announced: in legacy mode its padding counts
abbrev pub sized : Bool → List ℕ → List ℕ
sized legacy value = if legacy then value ++ replicate (padding_of (length value)) 0 else value

pub sized-whole :
    (legacy : Bool) (value : List ℕ) → padding_of (length value) ≡ 0 → sized legacy value ≡ value
sized-whole false value e = refl
sized-whole true value e = rw e (append-nil value)

padding_of-whole : (n : ℕ) → padding_of (n + padding_of n) ≡ 0
padding_of-whole n = ground arith

pub length-sized :
    (legacy : Bool) (value : List ℕ)
    → length (sized legacy value)
      ≡ (if legacy then length value + padding_of (length value) else length value)
length-sized false value = refl
length-sized true value = omega (
  arith,
  length-append value (replicate (padding_of (length value)) 0),
  length-replicate {A = ℕ} (padding_of (length value)) 0,
)

-- the length field of an attribute
pub header_size_lem :
    (legacy : Bool) (value : List ℕ)
    → let n = length value in
      be16 (if legacy then u16 (n + padding_of n) else n) ≡ be16 (length (sized legacy value))
header_size_lem false value = refl
header_size_lem true value =
    be16-u16 (length value + padding_of (length value)) ∙ ap be16 (sym (length-sized true value))

-- The padding comes behind the value, whether it is announced or not.
pub padded_value :
    (legacy : Bool) (value : List ℕ)
    → value ++ replicate (padding_of (length value)) 0
      ≡ sized legacy value ++ replicate (padding_of (length (sized legacy value))) 0
padded_value false value = refl
padded_value true value =
    let pad : List ℕ = replicate (padding_of (length value)) 0 in
    let nothing : padding_of (length (value ++ pad)) ≡ 0 =
      ap padding_of (length-sized true value) ∙ padding_of-whole (length value) in
    sym (ap (λ k. (value ++ pad) ++ replicate k 0) nothing ∙ append-nil (value ++ pad))

-- the room that an attribute takes
abbrev pub frame_size : ℕ → ℕ
frame_size n = 4 + n + padding_of n

module _ (new_bytes : ℕ → Option (List ℕ)) where
  module _ {cap : ℕ} {id : TransactionId} {legacy : Bool} where
    pub put-Holds :
        (src bytes : List ℕ) (b : Builder)
        → Holds cap id legacy bytes b
        → 0 < length src
        → length bytes + length src ≤ cap
        → Emitted cap id legacy (bytes ++ src) (put new_bytes src b)
    put-Holds src bytes b h some_bytes room =
        let s = b.stream in
        let fits : s.pos + length src ≤ allocated_size s =
          omega (arith, h.capacity, h.at_end, length-Holds h) in
        let w = write_fits new_bytes src s h.valid some_bytes fits in
        (
          w.ok,
          record {
            valid = w.valid;
            at_end = omega (arith, w.pos, w.size, h.at_end);
            capacity = write_capacity new_bytes src s h.valid some_bytes fits ∙ h.capacity;
            holds =
                w.holds
                ∙ overlay_append (contents s) src s.pos
                    (omega (arith, h.at_end, length-contents h.valid))
                ∙ ap (λ xs. xs ++ src) h.holds;
            identified = h.identified;
            mode = h.mode;
          },
        )

    -- the same as the next step of a chain
    pub put-Emitted :
        (src bytes : List ℕ) (r : Run Builder)
        → Emitted cap id legacy bytes r
        → 0 < length src
        → length bytes + length src ≤ cap
        → Emitted cap id legacy (bytes ++ src) (r ▷ put new_bytes src)
    put-Emitted src bytes r (ok, h) some_bytes room =
        rw ok (put-Holds src bytes r.1 h some_bytes room)

    pub put_uint16-Emitted :
        (n : ℕ) (bytes : List ℕ) (r : Run Builder)
        → Emitted cap id legacy bytes r
        → length bytes + 2 ≤ cap
        → Emitted cap id legacy (bytes ++ be16 n) (r ▷ put_uint16 new_bytes (htons n))
    put_uint16-Emitted n bytes r e room =
        subst
          (λ xs. Emitted cap id legacy (bytes ++ xs) (r ▷ put new_bytes (uint16_bytes (htons n))))
          (uint16_bytes-htons n)
          (put-Emitted (uint16_bytes (htons n)) bytes r e (omega arith) (omega arith))

    -- the bytes of an emitted message, written another way
    pub recast :
        (r : Run Builder) (xs ys : List ℕ)
        → xs ≡ ys
        → Emitted cap id legacy xs r
        → Emitted cap id legacy ys r
    recast r xs ys e h = subst (λ zs. Emitted cap id legacy zs r) e h

    pub add_attribute_header-Emitted :
        (type size : ℕ) (bytes : List ℕ) (b : Builder)
        → Holds cap id legacy bytes b
        → length bytes + 4 ≤ cap
        → Emitted cap id legacy
            (bytes ++ (be16 type ++ be16 size))
            (add_attribute_header new_bytes type size b)
    unfolding add_attribute_header
    add_attribute_header-Emitted type size bytes b h room =
        let typed = put_uint16-Emitted (u16 type) bytes (s_ok, b) (refl, h) (omega arith) in
        let first = put_uint16 new_bytes (htons (u16 type)) b in
        let sized =
          put_uint16-Emitted (u16 size) (bytes ++ be16 (u16 type)) first typed
            (omega (arith, length-append bytes (be16 (u16 type)))) in
        recast (first ▷ put_uint16 new_bytes (htons (u16 size))) _ _
          (append_assoc bytes (be16 (u16 type)) (be16 (u16 size))
            ∙ ap₂ (λ xs ys. bytes ++ (xs ++ ys)) (be16-u16 type) (be16-u16 size))
          sized

    -- a step of a chain that adds nothing where it is not taken
    pub put_when-Emitted :
        (test : Bool) (src bytes : List ℕ) (r : Run Builder)
        → Emitted cap id legacy bytes r
        → (test ≡ true → 0 < length src)
        → (test ≡ false → src ≡ [])
        → length bytes + length src ≤ cap
        → Emitted cap id legacy (bytes ++ src) (chk_when test (put new_bytes src) r)
    put_when-Emitted true src bytes r e some_bytes empty room =
        put-Emitted src bytes r e (some_bytes refl) room
    put_when-Emitted false src bytes r e some_bytes empty room =
        recast r bytes (bytes ++ src) (sym (rw (empty refl) (append-nil bytes))) e

    -- `AddAttribute` adds a frame.
    pub add_attribute-Emitted :
        (type : ℕ) (value bytes : List ℕ) (b : Builder)
        → Holds cap id legacy bytes b
        → length bytes + frame_size (length value) ≤ cap
        → Emitted cap id legacy
            (bytes ++ frame type (sized legacy value))
            (add_attribute new_bytes type (some value) (length value) b)
    unfolding add_attribute
    add_attribute-Emitted type value bytes b h room =
        let n = length value in
        let pad : List ℕ = replicate (padding_of n) 0 in
        let head = be16 type ++ be16 (length (sized legacy value)) in
        let lp : length pad ≡ padding_of n = length-replicate (padding_of n) 0 in
        let size_header = if b.legacy_mode then u16 (n + padding_of n) else n in
        let plain : be16 size_header ≡ be16 (length (sized legacy value)) =
          header_size_lem b.legacy_mode value ∙ ap (λ m. be16 (length (sized m value))) h.mode in
        let first = add_attribute_header new_bytes type size_header b in
        let headed =
          recast first _ _ (ap (λ xs. bytes ++ (be16 type ++ xs)) plain)
            (add_attribute_header-Emitted type size_header bytes b h (omega arith)) in
        let valued =
          put_when-Emitted (ltb 0 n) value (bytes ++ head) first headed (ltb→lt 0 n)
            (empty_of_length value) (omega (arith, length-append bytes head)) in
        let second = chk_when (ltb 0 n) (put new_bytes value) first in
        let padded =
          put_when-Emitted (ltb 0 (padding_of n)) pad ((bytes ++ head) ++ value) second valued
            (λ e. omega (arith, ltb→lt 0 (padding_of n) e)) (λ e. empty_of_length pad (rw lp e))
            (omega (arith, length-append (bytes ++ head) value, length-append bytes head)) in
        rw (take_all value n (omega arith)) (
          recast (chk_when (ltb 0 (padding_of n)) (put new_bytes pad) second) _ _
            (append_assoc (bytes ++ head) value pad
              ∙ append_assoc bytes head (value ++ pad)
              ∙ ap (λ xs. bytes ++ (head ++ xs)) (padded_value legacy value))
            padded)
