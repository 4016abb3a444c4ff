-- ===== src/Community/Print.antt =====
-- lib/utils/bgpstream_utils_community.c: bgpstream_community_snprintf and
-- bgpstream_community_set_snprintf, which print into a buffer of a length.
use bgpstream.Base.{
  ℕ, ◌+◌, ◌-◌, ◌%◌, ◌^◌, Bool, true, false, List, [], ◌∷◌, ◌++◌, ltb, ◌==◌, if◌then◌else◌,
}
use bgpstream.AsPath.Memory.{Mem, poke}
use bgpstream.AsPath.Print.{decimal, put_text}
use bgpstream.Community.{Community, CommunitySet}

-- "%" PRIu16 ":%" PRIu16 for its two halves.
unfoldable pub community_text : Community → List ℕ
community_text comm = decimal comm.asn ++ (b':' ∷ decimal comm.value)

unfoldable pub community_snprintf : Mem → ℕ → ℕ → Community → Mem × ℕ
community_snprintf mem buf len comm = put_text mem buf len (community_text comm)

-- len - written, on size_t.
unfoldable pub size_left : ℕ → ℕ → ℕ
size_left len written = (len + 2 ^ 64 - written) % 2 ^ 64

-- What is printed, `bufp` and `written`.
pub record Printing : Type 0 where
  pub mem : Mem
  pub bufp : ℕ
  pub written : ℕ

-- ADD_CHAR.
unfoldable pub add_sep : ℕ → Printing → Printing
add_sep len p =
    if size_left len p.written == 0
    then record p { written = p.written + 1 }
    else record { mem = poke p.mem p.bufp b' '; bufp = p.bufp + 1; written = p.written + 1 }

-- One community, behind what has been printed.
unfoldable pub print_one : ℕ → ℕ → Printing → Community → Printing
print_one buf len p comm =
    let (mem1, size) = community_snprintf p.mem p.bufp (size_left len p.written) comm in
    record { mem = mem1; bufp = buf + (p.written + size); written = p.written + size }

-- The loop over the communities; the flag is `need_sep`.
unfoldable pub set_print_loop : ℕ → ℕ → Bool → List Community → Printing → Printing
set_print_loop buf len need_sep [] p = p
set_print_loop buf len false (comm ∷ rest) p =
    set_print_loop buf len true rest (print_one buf len p comm)
set_print_loop buf len true (comm ∷ rest) p =
    set_print_loop buf len true rest (print_one buf len (add_sep len p) comm)

unfoldable pub community_set_snprintf : Mem → ℕ → ℕ → CommunitySet → Mem × ℕ
community_set_snprintf mem buf len set =
    let p : Printing =
      set_print_loop buf len false set.communities
        (record { mem = mem; bufp = buf; written = 0 }) in
    let ended : Mem = poke p.mem p.bufp 0 in
    (if ltb len p.written then poke ended (buf + len - 1) 0 else ended, p.written)
