-- ===== src/Addr/Parse.antt =====
-- lib/utils/bgpstream_utils_addr.c and bgpstream_utils_pfx.c: bgpstream_str2addr, bgpstream_addr_mask
-- and bgpstream_str2pfx. inet_pton is a parameter.
use Prim.Native.Nat.{bit_and}
use bgpstream.Base.CString.{split_at, strtoul}
use bgpstream.Base.{
  ℕ, ◌-◌, ◌%◌, ◌^◌, ◌||◌, not, Option, none, some, List, ltb, leb, ◌==◌, if◌then◌else◌, length, min,
}
use bgpstream.Addr.{Addr, unknown, ipv4, ipv6, Pfx}

-- inet_pton for the two families, in host byte order.
pub record InetPton : Type 0 where
  pub inet : List ℕ → Option ℕ
  pub inet6 : List ℕ → Option (ℕ × ℕ)

unfoldable pub str2addr : InetPton → List ℕ → Option Addr
str2addr env text = elim (split_at b':' text) [
  | some _ ↦ elim (env.inet6 text) [ none ↦ none | some (ms, ls) ↦ some (ipv6 ms ls) ]
  | none ↦ elim (env.inet text) [ none ↦ none | some a ↦ some (ipv4 a) ]
]

unfoldable pub ipv4_addr_mask : ℕ → ℕ → ℕ
ipv4_addr_mask a mask_len = bit_and a (2 ^ 32 - 2 ^ (32 - min mask_len 32))

-- `none` where the code shifts by an amount that C leaves undefined: by 64 for a length of 0, and by a
-- negative number for one above 64.
unfoldable pub ipv6_addr_mask : ℕ → ℕ → Option (ℕ × ℕ)
ipv6_addr_mask ms mask_len =
    if mask_len == 0
    then none
    else if leb mask_len 64
    then some (bit_and ms (2 ^ 64 - 2 ^ (64 - mask_len)), 0)
    else none

unfoldable pub addr_mask : Addr → ℕ → Option Addr
addr_mask unknown mask_len = some unknown
addr_mask (ipv4 a) mask_len = some (ipv4 (ipv4_addr_mask a mask_len))
addr_mask (ipv6 ms ls) mask_len = elim (ipv6_addr_mask ms mask_len) [
  | none ↦ none
  | some (ms', ls') ↦ some (ipv6 ms' ls')
]

unfoldable pub max_len : Addr → ℕ
max_len unknown = 255
max_len (ipv4 a) = 32
max_len (ipv6 ms ls) = 128

-- What a call leaves in the prefix: a prefix, nothing new because the text is refused, or a result that
-- C does not define.
pub data Parsed : Type 0 where
  parsed : Pfx → Parsed
  refused : Parsed
  undefined : Parsed

-- INET6_ADDRSTRLEN + 3 bytes hold the copy of the text.
abbrev pub copy_size : ℕ
copy_size = 49

unfoldable pub read_len : Addr → List ℕ → Parsed
read_len address back =
    let (r, rest, range) = strtoul back in
    if not (length rest == 0) || (range || ltb (max_len address) r)
    then refused
    else elim (addr_mask address r) [
      | none ↦ undefined
      | some masked ↦ parsed (record { address = masked; mask_len = r % 256; allowed_matches = 0 })
    ]

unfoldable pub str2pfx : InetPton → List ℕ → Parsed
str2pfx env text = if leb copy_size (length text) then refused else elim (split_at b'/' text) [
  | none ↦ refused
  | some (front, back) ↦ elim (str2addr env front) [
    | none ↦ refused
    | some address ↦ read_len address back
  ]
]
