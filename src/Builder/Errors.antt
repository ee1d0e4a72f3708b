-- ===== src/Builder/Errors.antt =====
-- What `AddErrorCode`, `AddStringAttribute` and `AddChangeRequest` of `CStunMessageBuilder` add.
use nat_tester.Base.{
  ℕ, ◌+◌, ◌/◌, ◌%◌, ◌^◌, ◌≤◌, ◌<◌, ◌≡◌, refl, sym, ap, ap₂, subst, ◌∙◌, Bool, true, false, List, [],
  ◌∷◌, ◌++◌, append_assoc, append-nil, Option, some, length, length-append, length-replicate,
  replicate, arith, ltb, ltb→lt, lt→ltb, le→ltb_false, lt→leb_false, if◌then◌else◌, bit_or,
}
use nat_tester.Hresult.{Run, ◌▷◌, chk_when}
use nat_tester.Word.{u8, u16, uint16_bytes, uint32_bytes, htonl}
use nat_tester.StunTypes.{
  TransactionId, ChangeRequest, attribute_error_code, attribute_change_request,
}
use nat_tester.Builder.{
  Builder, put, put_uint8, put_uint16, padding_of, add_attribute_header, add_attribute,
  add_error_code, add_string_attribute, add_change_request, ignoring,
}
use nat_tester.Builder.Emit.{
  be16, frame, frame_size, sized, sized-whole, padded_value, Holds, Emitted, put-Emitted,
  put_when-Emitted, recast, add_attribute_header-Emitted, add_attribute-Emitted, empty_of_length,
  length-sized,
}

-- the value of an ERROR-CODE
abbrev pub error_value : ℕ → List ℕ → List ℕ
error_value number reason = 0 ∷ 0 ∷ (number / 100) ∷ (number % 100) ∷ reason

-- the value of a CHANGE-REQUEST
abbrev pub change_value : ChangeRequest → List ℕ
change_value change =
    0 ∷ 0 ∷ 0 ∷ ((if change.change_ip then 4 else 0) + (if change.change_port then 2 else 0)) ∷ []

-- the number that `AddChangeRequest` writes
change_bytes :
    (ip port : Bool)
    → uint32_bytes
        (htonl (if port then bit_or (if ip then 0x04 else 0) 0x02 else (if ip then 0x04 else 0)))
      ≡ change_value (record { change_ip = ip; change_port = port })
unfolding htonl
change_bytes true true = refl
change_bytes true false = refl
change_bytes false true = refl
change_bytes false false = refl

module _ (new_bytes : ℕ → Option (List ℕ)) {cap : ℕ} {id : TransactionId} {legacy : Bool} where
  -- a write of which the status is not looked at
  ignoring-Emitted :
      (src bytes : List ℕ) (r : Run Builder)
      → Emitted cap id legacy bytes r
      → length bytes + length src ≤ cap
      → Emitted cap id legacy
          (bytes ++ src)
          (if ltb 0 (length src) then ignoring new_bytes (put new_bytes src) r else r)
  ignoring-Emitted [] bytes r e room =
      recast new_bytes r bytes (bytes ++ []) (sym (append-nil bytes)) e
  ignoring-Emitted (x ∷ src) bytes r e room =
      let (ok, h) = put-Emitted new_bytes (x ∷ src) bytes r e (omega arith) room in
      let more : ltb 0 (length (x ∷ src)) ≡ true = lt→ltb 0 (length (x ∷ src)) (omega arith) in
      rw (more, e.0)
        (
          e.0,
          subst
              (λ q.
                Holds cap id legacy (bytes ++ (x ∷ src))
                  (if q then put new_bytes (x ∷ src) r.1 else r).1)
              e.0 h,
        )

  pub add_change_request-Emitted :
      (change : ChangeRequest) (bytes : List ℕ) (b : Builder)
      → Holds cap id legacy bytes b
      → length bytes + 8 ≤ cap
      → Emitted cap id legacy
          (bytes ++ frame attribute_change_request (change_value change))
          (add_change_request new_bytes change b)
  unfolding add_change_request
  add_change_request-Emitted change bytes b h room =
      let v = uint32_bytes (
        htonl (
          if change.change_port
          then bit_or (if change.change_ip then 0x04 else 0) 0x02
          else (if change.change_ip then 0x04 else 0))) in
      subst
        (λ xs.
          Emitted cap id legacy (bytes ++ frame attribute_change_request xs)
            (add_attribute new_bytes attribute_change_request (some v) 4 b))
        (sized-whole legacy v refl ∙ change_bytes change.change_ip change.change_port)
        (add_attribute-Emitted new_bytes attribute_change_request v bytes b h (omega arith))

  pub add_string_attribute-Emitted :
      (type c : ℕ) (text bytes : List ℕ) (b : Builder)
      → Holds cap id legacy bytes b
      → length (c ∷ text) < 2 ^ 16
      → length bytes + frame_size (length (c ∷ text)) ≤ cap
      → Emitted cap id legacy
          (bytes ++ frame type (sized legacy (c ∷ text)))
          (add_string_attribute new_bytes type (c ∷ text) b)
  unfolding add_string_attribute
  add_string_attribute-Emitted type c text bytes b h short room =
      let whole : u16 (length (c ∷ text)) ≡ length (c ∷ text) = omega arith in
      rw whole (add_attribute-Emitted new_bytes type (c ∷ text) bytes b h room)

  -- the fields in front of the text of `AddErrorCode`
  error_fields-Emitted :
      (size number : ℕ) (bytes : List ℕ) (b : Builder)
      → Holds cap id legacy bytes b
      → number ≤ 600
      → length bytes + 8 ≤ cap
      → Emitted cap id legacy
          (bytes ++ (be16 attribute_error_code ++ (be16 size ++ error_value number [])))
          (add_attribute_header new_bytes attribute_error_code size b
            ▷ put_uint16 new_bytes 0
            ▷ put_uint8 new_bytes (number / 100)
            ▷ put_uint8 new_bytes (number % 100))
  error_fields-Emitted size number bytes b h high room =
      let head = be16 attribute_error_code ++ be16 size in
      let b₀ = bytes ++ head in
      let l₀ : length b₀ ≡ length bytes + 4 = omega (arith, length-append bytes head) in
      let r₀ = add_attribute_header new_bytes attribute_error_code size b in
      let e₀ =
        add_attribute_header-Emitted new_bytes attribute_error_code size bytes b h (omega arith) in
      let b₁ = b₀ ++ uint16_bytes 0 in
      let l₁ : length b₁ ≡ length bytes + 6 = omega (arith, length-append b₀ (uint16_bytes 0)) in
      let r₁ = r₀ ▷ put_uint16 new_bytes 0 in
      let e₁ = put-Emitted new_bytes (uint16_bytes 0) b₀ r₀ e₀ (omega arith) (omega arith) in
      let b₂ = b₁ ++ (u8 (number / 100) ∷ []) in
      let l₂ : length b₂ ≡ length bytes + 7 =
        omega (arith, length-append b₁ (u8 (number / 100) ∷ [])) in
      let r₂ = r₁ ▷ put_uint8 new_bytes (number / 100) in
      let e₂ =
        put-Emitted new_bytes (u8 (number / 100) ∷ []) b₁ r₁ e₁ (omega arith) (omega arith) in
      let e₃ =
        put-Emitted new_bytes (u8 (number % 100) ∷ []) b₂ r₂ e₂ (omega arith) (omega arith) in
      let hundreds : u8 (number / 100) ≡ number / 100 = omega arith in
      let rest : u8 (number % 100) ≡ number % 100 = omega arith in
      recast new_bytes (r₂ ▷ put_uint8 new_bytes (number % 100)) _ _
        (append_assoc b₁ (u8 (number / 100) ∷ []) (u8 (number % 100) ∷ [])
          ∙ append_assoc b₀ (uint16_bytes 0) (u8 (number / 100) ∷ u8 (number % 100) ∷ [])
          ∙ append_assoc bytes head (0 ∷ 0 ∷ u8 (number / 100) ∷ u8 (number % 100) ∷ [])
          ∙ ap₂ (λ x y. bytes ++ (head ++ (0 ∷ 0 ∷ x ∷ y ∷ []))) hundreds rest)
        e₃

  -- `AddErrorCode` with a number and a text that it accepts
  pub add_error_code-Emitted :
      (number : ℕ) (reason bytes : List ℕ) (b : Builder)
      → Holds cap id legacy bytes b
      → 300 ≤ number
      → number ≤ 600
      → length reason < 128
      → length bytes + frame_size (length reason + 4) ≤ cap
      → Emitted cap id legacy
          (bytes ++ frame attribute_error_code (sized legacy (error_value number reason)))
          (add_error_code new_bytes number reason b)
  unfolding add_error_code
  add_error_code-Emitted number reason bytes b h low high short room =
      let n = length reason + 4 in
      let value = error_value number reason in
      let pad : List ℕ = replicate (padding_of n) 0 in
      let lp : length pad ≡ padding_of n = length-replicate (padding_of n) 0 in
      let size = if b.legacy_mode then n + padding_of n else n in
      let same : n ≡ length value = omega arith in
      let plain : be16 size ≡ be16 (length (sized legacy value)) =
        ap (λ m. be16 (if m then n + padding_of n else n)) h.mode
        ∙ ap (λ k. be16 (if legacy then k + padding_of k else k)) same
        ∙ ap be16 (sym (length-sized legacy value)) in
      let fields =
        add_attribute_header new_bytes attribute_error_code size b
        ▷ put_uint16 new_bytes 0
        ▷ put_uint8 new_bytes (number / 100)
        ▷ put_uint8 new_bytes (number % 100) in
      let front = be16 attribute_error_code ++ (be16 size ++ error_value number []) in
      let e₀ = error_fields-Emitted size number bytes b h high (omega arith) in
      let texted =
        if ltb 0 (length reason)
        then ignoring new_bytes (put new_bytes reason) fields
        else fields in
      let e₁ =
        ignoring-Emitted reason (bytes ++ front) fields e₀
          (omega (arith, length-append bytes front)) in
      let e₂ =
        put_when-Emitted new_bytes (ltb 0 (padding_of n)) pad ((bytes ++ front) ++ reason) texted e₁
          (λ e. omega (arith, ltb→lt 0 (padding_of n) e)) (λ e. empty_of_length pad (rw lp e))
          (omega (arith, length-append (bytes ++ front) reason, length-append bytes front)) in
      rw
        (
          le→ltb_false 600 number high,
          le→ltb_false number 300 low,
          lt→leb_false 128 (length reason) short,
        )
        (recast new_bytes (chk_when (ltb 0 (padding_of n)) (put new_bytes pad) texted) _ _
          (append_assoc (bytes ++ front) reason pad
            ∙ append_assoc bytes front (reason ++ pad)
            ∙ ap₂
                (λ xs k.
                  bytes
                  ++ (be16 attribute_error_code ++ (xs ++ (value ++ replicate (padding_of k) 0))))
                plain same
            ∙ ap
                (λ xs.
                  bytes
                  ++ (be16 attribute_error_code ++ (be16 (length (sized legacy value)) ++ xs)))
                (padded_value legacy value))
          e₂)
