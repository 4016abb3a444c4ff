-- ===== src/Elem/FilterExamples.antt =====
-- lib/bgpstream_filter.c and lib/bgpstream_record.c: the filters of elements on small inputs.
use bgpstream.Base.{
  ℕ, ◌≡◌, inl, inr, refl, true, false, none, some, List, [], ◌∷◌, ◌==◌, if◌then◌else◌, Bool-cases,
}
use bgpstream.Addr.{ipv4}
use bgpstream.Addr.Parse.{InetPton}
use bgpstream.Base.CString.{
  strtoul, skip_space, is_space, read_signed, read_number, read_digits, is_digit,
}
use bgpstream.AsPath.{walk_segs, get_next_seg, sizeof_seg}
use bgpstream.AsPath.Memory.{word}
use bgpstream.AsPath.Segments.{read_seg}
use bgpstream.AsPath.Print.{digits}
use bgpstream.AsPath.SegPrinted.{seg_text}
use bgpstream.AsPath.Printed.{joined}
use bgpstream.Community.{set_create}
use bgpstream.FilterParser.{elem_type, elem_peer_asn, elem_aspath}
use bgpstream.Elem.Filters.{
  Elem, rib, ElemFilters, Regex, check_filters, is_withdrawal_or_state, version_passes,
}
use bgpstream.Elem.Adding.{ribs, type_bit, filter_adds, no_filters, same_text}
use bgpstream.Elem.Expressions.{IsPosix, all, expr_holds, filterable}
use bgpstream.Elem.Calls.{
  Call, is_plain, any, names, is_some, names_bit, names_type, is_peer, names_peer, is_expr,
  expr_or_other, version_after, type_named, accepts,
}
use bgpstream.Elem.Accepted.{check_filters-accepts}

-- Expressions that match themselves alone.
abbrev rx : Regex
rx = record {
  regcomp_negative = λ expr. false;
  regexec = λ expr text. if same_text expr text then 0 else 1;
}

rx-IsPosix : IsPosix rx
rx-IsPosix = record {
  compiles = λ expr. refl;
  decides = λ expr text. elim (Bool-cases (same_text expr text)) [
    | inl match ↦ inl (rw match refl)
    | inr other ↦ inr (rw other refl)
  ];
}

abbrev env : InetPton
env = record { inet = λ text. none; inet6 = λ text. none }

abbrev calls : List Call
calls = (elem_type, ribs) ∷ (elem_peer_asn, b'7' ∷ []) ∷ (elem_aspath, b'!' ∷ b'9' ∷ []) ∷ []

abbrev elem_of : ℕ → Elem
elem_of peer = record {
  elem_type = rib;
  peer_asnumber = peer;
  prefix = record { address = ipv4 0; mask_len = 8; allowed_matches = 0 };
  aspath = record {
    data_bytes = λ i. if i == 0 then 1 else if i == 1 then 7 else 0;
    data_len = 5;
    data_alloc_len = 5;
    seg_cnt = 1;
    origin_offset = 0;
  };
  communities = set_create;
}

check_filters-accepts_example :
    (g : ElemFilters) × (filter_adds env no_filters calls ≡ some g)
    × (check_filters rx g (elem_of 7) ≡ some (accepts rx calls (elem_of 7), g))
check_filters-accepts_example =
    check_filters-accepts rx env calls (elem_of 7) rx-IsPosix (unfold all is_plain in refl)

-- An element of the peer passes, one of another peer does not.
passes : accepts rx calls (elem_of 7) ≡ true
unfolding accepts any names_type type_named names_bit names is_peer names_peer version_after is_expr
    expr_or_other expr_holds all filterable is_withdrawal_or_state version_passes joined seg_text
    digits read_seg walk_segs get_next_seg sizeof_seg word type_bit same_text is_some strtoul
    skip_space is_space read_signed read_number read_digits is_digit
passes = refl

other_peer : accepts rx calls (elem_of 8) ≡ false
unfolding accepts any names_type type_named names_bit names is_peer names_peer version_after is_expr
    type_bit same_text is_some strtoul skip_space is_space read_signed read_number read_digits
    is_digit
other_peer = refl
