-- ===== src/Addr.antt =====
-- IP addresses and prefixes: lib/utils/bgpstream_utils_addr.{h,c} and bgpstream_utils_pfx.{h,c}.
-- An address is kept in host byte order, so `ntohl`, `htonl`, `ntohll` and `htonll` are not written.
pub mod Parse
use bgpstream.Base.{ℕ}

-- bgpstream_addr_storage_t: the version, and the union that it selects. An IPv6 address is the two
-- 64-bit halves that the code reads.
pub data Addr : Type 0 where
  unknown : Addr
  ipv4 : ℕ → Addr
  ipv6 : ℕ → ℕ → Addr

-- bgpstream_pfx_storage_t; `mask_len` is a uint8_t.
pub record Pfx : Type 0 where
  pub address : Addr
  pub mask_len : ℕ
  pub allowed_matches : ℕ
