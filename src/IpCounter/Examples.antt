-- ===== src/IpCounter/Examples.antt =====
-- Runs of lib/utils/bgpstream_utils_ip_counter.c on small inputs.
use mathlib.Core.Option
use bgpstream.Base.Bits.{clear_low}
use bgpstream.Base.Count.{count_from}
use bgpstream.Base.{ℕ, ◌+◌, ◌-◌, ◌^◌, ◌≡◌, refl, true, ◌||◌, List, [], ◌∷◌, some, map, arith}
use bgpstream.IpCounter.{
  V6Int, IpCounter, create, add, v4, get_ipcount, is_overlapping4, merge_in_sorted_queue4,
  merge_in_sorted_queue6, mask4, ipcount4_loop, overlap4_loop, one_step_merge4, one_step_merge6,
  widen4, widen6_start, widen6_end, gt6,
}
use bgpstream.IpCounter.Covers.{IsAscending, covers}
use bgpstream.IpCounter.Counting.{contains}
use bgpstream.IpCounter.Prefixes.{pfx4, in_pfx4, add-covers}
use bgpstream.IpCounter.Distinct.{add_all, in_some_pfx4, ipcount-distinct}
use bgpstream.IpCounter.Six.{number, as_numbers, merge_in_sorted_queue6-refines}
use bgpstream.IpCounter.Whole.{ipcount-whole, is_overlapping4_lem}

-- What a run computes with.
runs : Unit {0}
unfolding add mask4 merge_in_sorted_queue4 one_step_merge4 widen4 merge_in_sorted_queue6
    one_step_merge6 widen6_start widen6_end gt6 get_ipcount ipcount4_loop is_overlapping4
    overlap4_loop
runs = tt

-- 10.0.0.0/8, 10.1.0.0/16 inside it, and 192.168.0.0/24 apart.
abbrev three : List (ℕ × ℕ)
three = (0x0a000000, 8) ∷ (0x0a010000, 16) ∷ (0xc0a80000, 24) ∷ []

abbrev one_eight : IpCounter
one_eight = record { v4list = record { start = 0x0a000000; end = 0x0affffff } ∷ []; v6list = [] }

add_eight : add true create (pfx4 0x0a000000 8) ≡ some one_eight
unfolding runs
add_eight = refl

count_eight : get_ipcount one_eight v4 ≡ 0x1000000
unfolding runs
count_eight = refl

overlap_sixteen : is_overlapping4 one_eight 0x0a010000 16 ≡ some (0x10000, true)
unfolding runs
overlap_sixteen = refl

ipcount-distinct_example :
    (ipc : IpCounter) × (add_all three create ≡ some ipc)
    × (get_ipcount ipc v4 ≡ count_from 0 (2 ^ 32) (in_some_pfx4 three))
ipcount-distinct_example = ipcount-distinct three (omega arith)

add-covers_example :
    IsAscending 0 one_eight.v4list
    × ((x : ℕ) → covers one_eight.v4list x ≡ (in_pfx4 0x0a000000 8 x || covers [] x))
    × (◌≡◌ {A = List V6Int} one_eight.v6list [])
add-covers_example =
    add-covers true create one_eight 0x0a000000 8 tt (omega arith) (omega arith) add_eight

is_overlapping4_lem_example :
    is_overlapping4 one_eight 0x0a010000 16
    ≡ some (
      count_from (clear_low 0x0a010000 16) (2 ^ 16) (covers one_eight.v4list),
      contains one_eight.v4list (clear_low 0x0a010000 16) (clear_low 0x0a010000 16 + (2 ^ 16 - 1)),
    )
is_overlapping4_lem_example =
    is_overlapping4_lem one_eight 0x0a010000 16 (omega arith) (omega arith) (omega arith)
      (omega arith)

abbrev whole : IpCounter
whole = record { v4list = record { start = 0; end = 0xffffffff } ∷ []; v6list = [] }

add-whole : add true one_eight (pfx4 0 0) ≡ some whole
unfolding runs
add-whole = refl

ipcount-whole_example : get_ipcount whole v4 ≡ 0
ipcount-whole_example = ipcount-whole one_eight whole 0 (omega arith) (omega arith) add-whole

-- 2001:db8::/32, and 2001:db8:0:1::/64 inside it.
abbrev v6_one : List V6Int
v6_one =
    record {
      start_ms = 0x20010db800000000;
      start_ls = 0;
      end_ms = 0x20010db8ffffffff;
      end_ls = 0xffffffffffffffff;
    }
    ∷ []

merge_inside :
    merge_in_sorted_queue6 true v6_one 0x20010db800000001 0 0x20010db800000001 0xffffffffffffffff
    ≡ some v6_one
unfolding runs
merge_inside = refl

merge_in_sorted_queue6-refines_example :
    Option.map (map as_numbers) (
      merge_in_sorted_queue6 true v6_one 0x20010db800000001 0 0x20010db800000001 0xffffffffffffffff)
    ≡ merge_in_sorted_queue4 true
        (map as_numbers v6_one)
        (number 0x20010db800000001 0)
        (number 0x20010db800000001 0xffffffffffffffff)
merge_in_sorted_queue6-refines_example =
    merge_in_sorted_queue6-refines true v6_one 0x20010db800000001 0 0x20010db800000001
      0xffffffffffffffff (omega arith) (omega arith) (omega arith)
