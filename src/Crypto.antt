-- ===== src/Crypto.antt =====
-- What the code calls of OpenSSL and of Boost: `HMAC` and `MD5` of evp.h, and `crc_32_type`.
use nat_tester.Base.{ℕ, List}

-- A value is the bytes in memory, a checksum a `uint32_t`. The calls `HMAC_Init`, `HMAC_Update` and
-- `HMAC_Final` give what `HMAC` gives for all the bytes in their order.
pub record Crypto : Type 0 where
  pub crc32 : List ℕ → ℕ
  pub hmac_sha1 : List ℕ → List ℕ → List ℕ
  pub md5 : List ℕ → List ℕ
