-- ===== src/Builder/Auth.antt =====
-- The fingerprint and the integrity attribute of `CStunMessageBuilder`.
use nat_tester.Base.{
  ℕ, ◌+◌, ◌*◌, ◌%◌, ◌-◌, List, [], ◌∷◌, ◌++◌, Option, none, some, length, take, replicate,
  copy_into, bit_xor, ltb, if◌then◌else◌,
}
use nat_tester.Hresult.{s_ok, e_fail, e_invalidarg, Run, ◌▷◌}
use nat_tester.Word.{htons, htonl, size_mod, size_sub}
use nat_tester.StunTypes.{attribute_fingerprint, attribute_message_integrity, fingerprint_xor}
use nat_tester.Stream.{content, get_size, data_pointer, seek_relative}
use nat_tester.Crypto.{Crypto}
use nat_tester.Builder.{Builder, on_stream, put_uint16, put_uint32, add_attribute, fix_length_field}

-- `c_hmacsize`
abbrev pub hmac_size : ℕ
hmac_size = 20

-- `MAX_STUN_AUTH_STRING_SIZE` of stunauth.h, and `MAX_KEY_SIZE`
abbrev pub max_auth_string_size : ℕ
max_auth_string_size = 64

abbrev pub max_key_size : ℕ
max_key_size = max_auth_string_size * 3 + 2

-- the key of the long-term mechanism before it is hashed
abbrev pub long_term_key : List ℕ → List ℕ → List ℕ → List ℕ
long_term_key user realm password = user ++ (b':' ∷ (realm ++ (b':' ∷ password)))

module _ (new_bytes : ℕ → Option (List ℕ)) (crypto : Crypto) where
  open crypto use {crc32, hmac_sha1, md5}

  -- the checksum of all but the last 8 bytes, put over the last 4
  abbrev pub put_checksum : Builder → Run Builder
  put_checksum b =
      let covered = take (size_sub (get_size b.stream) 8) (data_pointer b.stream) in
      on_stream (seek_relative (size_mod - 4)) b
      ▷ put_uint32 new_bytes (htonl (bit_xor (crc32 covered) fingerprint_xor))

  -- `CStunMessageBuilder::AddFingerprintAttribute`; once `FixLengthField` has succeeded there is a
  -- buffer.
  unfoldable pub add_fingerprint_attribute : Builder → Run Builder
  add_fingerprint_attribute b =
      put_uint16 new_bytes (htons attribute_fingerprint) b
      ▷ put_uint16 new_bytes (htons 4)
      ▷ put_uint32 new_bytes 0
      ▷ fix_length_field new_bytes
      ▷ put_checksum

  -- The hash of all but the last 24 bytes, which `HMAC` writes to the last 20 in the array itself.
  abbrev pub put_hmac : List ℕ → Builder → Run Builder
  put_hmac key b = elim b.stream.buffer [
    | none ↦ (e_fail, b)
    | some buffer ↦
        let covered = size_sub buffer.size 24 in
        let hash = hmac_sha1 key (take covered (content buffer)) in
        let signed = record buffer {
          bytes = some (copy_into (content buffer) (covered + 4) hash);
        } in
        (s_ok, record b { stream = record (b.stream) { buffer = some signed } })
  ]

  -- `CStunMessageBuilder::AddMessageIntegrityImpl`; NULL is the key of no bytes.
  unfoldable pub add_message_integrity_impl : List ℕ → Builder → Run Builder
  add_message_integrity_impl [] b = (e_invalidarg, b)
  add_message_integrity_impl (k ∷ key) b =
      add_attribute new_bytes attribute_message_integrity (some (replicate hmac_size 0)) hmac_size b
      ▷ fix_length_field new_bytes
      ▷ put_hmac (k ∷ key)

  -- `CStunMessageBuilder::AddMessageIntegrityShortTerm`
  unfoldable pub add_message_integrity_short_term : List ℕ → Builder → Run Builder
  unfolding add_message_integrity_impl
  add_message_integrity_short_term password = add_message_integrity_impl password

  -- `CStunMessageBuilder::AddMessageIntegrityLongTerm`
  unfoldable pub add_message_integrity_long_term : List ℕ → List ℕ → List ℕ → Builder → Run Builder
  unfolding add_message_integrity_impl
  add_message_integrity_long_term user realm password b =
      let total = (length user + length realm + length password + 2) % size_mod in
      if ltb max_key_size total
      then (e_invalidarg, b)
      else add_message_integrity_impl (md5 (long_term_key user realm password)) b
