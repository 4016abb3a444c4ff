-- ===== src/Community/Parse.antt =====
-- lib/utils/bgpstream_utils_community.c: bgpstream_str2community. A text of 16 bytes or more fills the
-- copy without its NUL, and the code reads on behind it; here the copy ends.
use bgpstream.Base.CString.{split_at, strtoul}
use bgpstream.Base.{
  ℕ, ◌+◌, ◌%◌, ◌^◌, Bool, true, false, ◌||◌, not, Option, none, some, List, [], ◌∷◌, ◌==◌,
  if◌then◌else◌, length, take,
}
use bgpstream.Community.{Community}

abbrev pub community_max_str_len : ℕ
community_max_str_len = 16

-- One half: the value and whether it is given, or an error.
unfoldable pub read_half : List ℕ → Option (ℕ × Bool)
read_half [] = some (0, true)
read_half (c ∷ cs) =
    if c == b'*'
    then some (0, false)
    else let (r, rest, range) = strtoul (c ∷ cs) in
      if not (length rest == 0) || range then none else some (r % 2 ^ 16, true)

-- The community and its mask, or -1.
unfoldable pub str2community : List ℕ → Option (Community × ℕ)
str2community buf = elim (split_at b':' (take community_max_str_len buf)) [
  | none ↦ none
  | some (front, back) ↦ elim (read_half front) [
    | none ↦ none
    | some (asn, on_asn) ↦ elim (read_half back) [
      | none ↦ none
      | some (value, on_value) ↦ some (
        record { asn = asn; value = value },
        (if on_asn then 2 else 0) + (if on_value then 1 else 0),
      )
    ]
  ]
]
