-- ===== src/Builder/Message.antt =====
-- Headers, addresses and the length field: what makes the bytes of a builder a message.
use nat_tester.Base.{
  ℕ, ◌+◌, ◌-◌, ◌^◌, ◌≤◌, ◌<◌, ◌≡◌, refl, ap, ap₂, ◌∙◌, Bool, List, [], ◌∷◌, ◌++◌, Option, length,
  length-append, overlay, arith, le→ltb_false,
}
use nat_tester.Hresult.{s_ok}
use nat_tester.Word.{u16, htons, uint16_bytes}
use nat_tester.StunTypes.{TransactionId, MessageClass, class_code, header_size}
use nat_tester.Stream.{Stream, get_size, allocated_size, write, set_size_hint}
use nat_tester.Stream.Laws.{IsValid, write_fits, grow_fits, seek_direct_lem}
use nat_tester.Stream.Fixed.{write_capacity}
use nat_tester.Builder.{
  Builder, put_uint16, type_field, add_header, add_transaction_id, fix_length_field,
}
use nat_tester.Builder.Emit.{
  be16, Holds, Emitted, length-Holds, put-Emitted, put_uint16-Emitted, uint16_bytes-htons,
}

-- a whole message
abbrev pub message : ℕ → TransactionId → List ℕ → List ℕ
message field id body = be16 field ++ (be16 (length body) ++ (id ++ body))

overlay_nothing {ℓ} : {A : Type ℓ} (xs : List A) → overlay xs 0 [] ≡ xs
overlay_nothing [] = refl
overlay_nothing (x ∷ xs) = refl

set_length :
    (field old n : ℕ) (rest : List ℕ)
    → overlay (be16 field ++ (be16 old ++ rest)) 2 (be16 n) ≡ be16 field ++ (be16 n ++ rest)
set_length field old n rest = ap (λ xs. be16 field ++ (be16 n ++ xs)) (overlay_nothing rest)

module _ (new_bytes : ℕ → Option (List ℕ)) {cap : ℕ} {id : TransactionId} {legacy : Bool} where
  -- `AddHeader` at the start of a message
  pub add_header-Emitted :
      (type : ℕ) (class : MessageClass) (b : Builder)
      → Holds cap id legacy [] b
      → 200 ≤ cap
      → Emitted cap id legacy
          (be16 (type_field type (class_code class)) ++ be16 0)
          (add_header new_bytes type class b)
  unfolding add_header set_size_hint
  add_header-Emitted type class b h room =
      let field = type_field type (class_code class) in
      let hinted = grow_fits new_bytes 200 b.stream (omega (arith, h.capacity)) in
      rw hinted (
        put-Emitted new_bytes (uint16_bytes 0) (be16 field) (put_uint16 new_bytes (htons field) b)
          (put_uint16-Emitted new_bytes field [] (s_ok, b) (refl, h) (omega arith)) (omega arith)
          (omega arith))

  -- `AddTransactionId`, which notes the id as well
  pub add_transaction_id-Emitted :
      (transid bytes : List ℕ) (b : Builder)
      → Holds cap id legacy bytes b
      → 0 < length transid
      → length bytes + length transid ≤ cap
      → Emitted cap transid legacy (bytes ++ transid) (add_transaction_id new_bytes transid b)
  unfolding add_transaction_id
  add_transaction_id-Emitted transid bytes b h some_bytes room =
      put-Emitted new_bytes transid bytes (s_ok, record b { transaction_id = transid })
        (
          refl,
          record {
            valid = h.valid;
            at_end = h.at_end;
            capacity = h.capacity;
            holds = h.holds;
            identified = refl;
            mode = h.mode;
          },
        )
        some_bytes room

  -- `FixLengthField` over a message, whatever its length field
  pub fix_length_field-Emitted :
      (field old : ℕ) (transid body : List ℕ) (b : Builder)
      → Holds cap id legacy (be16 field ++ (be16 old ++ (transid ++ body))) b
      → length transid ≡ 16
      → length body < 2 ^ 16
      → Emitted cap id legacy (message field transid body) (fix_length_field new_bytes b)
  unfolding fix_length_field
  fix_length_field-Emitted field old transid body b h l small =
      let s = b.stream in
      let size : get_size s ≡ 20 + length body =
        omega (arith, length-Holds h, length-append transid body) in
      let seek_2 = (seek_direct_lem 2 s).0 (omega arith) in
      let t : Stream = record s { pos = 2 } in
      let n = length body in
      let src = uint16_bytes (htons (u16 (get_size s - header_size))) in
      let v : IsValid t = record {
        pos_in = omega arith;
        fits = h.valid.fits;
        room = h.valid.room;
        small = h.valid.small;
      } in
      let fits : 2 + 2 ≤ allocated_size t = omega (arith, h.valid.fits) in
      let w = write_fits new_bytes src t v (omega arith) fits in
      let back =
        (seek_direct_lem s.pos (write new_bytes src t).1).0 (omega (arith, w.size, h.at_end)) in
      let len : u16 (get_size s - header_size) ≡ length body = omega arith in
      let written : src ≡ be16 (length body) =
        uint16_bytes-htons (u16 (get_size s - header_size)) ∙ ap be16 len in
      rw (le→ltb_false (get_size s) header_size (omega arith), seek_2, w.ok, back)
        (
          refl,
          record {
            valid = record {
              pos_in = omega (arith, w.size, h.at_end);
              fits = w.valid.fits;
              room = w.valid.room;
              small = w.valid.small;
            };
            at_end = omega (arith, w.size, h.at_end);
            capacity = write_capacity new_bytes src t v (omega arith) fits ∙ h.capacity;
            holds =
                w.holds
                ∙ ap₂ (λ xs ys. overlay xs 2 ys) h.holds written
                ∙ set_length field old (length body) (transid ++ body);
            identified = h.identified;
            mode = h.mode;
          },
        )
