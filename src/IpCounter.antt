-- ===== src/IpCounter.antt =====
-- lib/utils/bgpstream_utils_ip_counter.c: the intervals of addresses that a set of prefixes covers.
-- A list is the C list from the pointer on; `previous->next = p` is the list rebuilt. `alloc` says
-- whether malloc_zero succeeds, and `none` is the return value -1, with the counter as it was.
pub mod Covers
mod Examples
pub mod Counting
pub mod Whole
pub mod Six
pub mod Prefixes
pub mod Distinct
use Prim.Native.Nat.{bit_and, bit_or}
use mathlib.Core.Option
use bgpstream.Base.{
  ℕ, ◌+◌, ◌-◌, ◌*◌, ◌/◌, ◌%◌, ◌^◌, Bool, false, ◌&&◌, ◌||◌, Option, none, some, List, [], ◌∷◌, ltb,
  leb, ◌==◌, if◌then◌else◌,
}
use bgpstream.Addr.{Pfx, ipv4, ipv6, unknown}

pub record V4Int : Type 0 where
  pub start : ℕ
  pub end : ℕ

pub record V6Int : Type 0 where
  pub start_ms : ℕ
  pub start_ls : ℕ
  pub end_ms : ℕ
  pub end_ls : ℕ

pub record IpCounter : Type 0 where
  pub v4list : List V4Int
  pub v6list : List V6Int

-- `pil` and the list behind it.
unfoldable pub one_step_merge4 : V4Int → List V4Int → List V4Int
one_step_merge4 previous [] = previous ∷ []
one_step_merge4 previous (current ∷ next) =
    if leb current.start previous.end
    then one_step_merge4
        (if ltb previous.end current.end then record previous { end = current.end } else previous)
        next
    else previous ∷ current ∷ next

-- current->start and current->end widened to the new interval.
unfoldable pub widen4 : V4Int → ℕ → ℕ → V4Int
widen4 current start end = record {
  start = if ltb start current.start then start else current.start;
  end = if ltb current.end end then end else current.end;
}

pub merge_in_sorted_queue4 : Bool → List V4Int → ℕ → ℕ → Option (List V4Int)
merge_in_sorted_queue4 alloc [] start end =
    if alloc then some (record { start = start; end = end } ∷ []) else none
merge_in_sorted_queue4 alloc (current ∷ next) start end =
    if ltb current.end start
    then Option.map (◌∷◌ current) (merge_in_sorted_queue4 alloc next start end)
    else if ltb end current.start
    then (if alloc then some (record { start = start; end = end } ∷ current ∷ next) else none)
    else some (one_step_merge4 (widen4 current start end) next)

-- The 128-bit comparisons, as the code writes them on the two halves.
pub gt6 : ℕ → ℕ → ℕ → ℕ → Bool
gt6 a_ms a_ls b_ms b_ls = ltb b_ms a_ms || (a_ms == b_ms && ltb b_ls a_ls)

pub le6 : ℕ → ℕ → ℕ → ℕ → Bool
le6 a_ms a_ls b_ms b_ls = ltb a_ms b_ms || (a_ms == b_ms && leb a_ls b_ls)

pub one_step_merge6 : V6Int → List V6Int → List V6Int
one_step_merge6 previous [] = previous ∷ []
one_step_merge6 previous (current ∷ next) =
    if le6 current.start_ms current.start_ls previous.end_ms previous.end_ls
    then one_step_merge6
        (if gt6 current.end_ms current.end_ls previous.end_ms previous.end_ls
          then record previous { end_ms = current.end_ms; end_ls = current.end_ls }
          else previous)
        next
    else previous ∷ current ∷ next

pub widen6_start : V6Int → ℕ → ℕ → V6Int
widen6_start current start_ms start_ls =
    if gt6 current.start_ms current.start_ls start_ms start_ls
    then record current { start_ms = start_ms; start_ls = start_ls }
    else current

pub widen6_end : V6Int → ℕ → ℕ → V6Int
widen6_end current end_ms end_ls =
    if gt6 end_ms end_ls current.end_ms current.end_ls
    then record current { end_ms = end_ms; end_ls = end_ls }
    else current

pub merge_in_sorted_queue6 : Bool → List V6Int → ℕ → ℕ → ℕ → ℕ → Option (List V6Int)
merge_in_sorted_queue6 alloc [] start_ms start_ls end_ms end_ls =
    if alloc
    then some
        (record { start_ms = start_ms; start_ls = start_ls; end_ms = end_ms; end_ls = end_ls } ∷ [])
    else none
merge_in_sorted_queue6 alloc (current ∷ next) start_ms start_ls end_ms end_ls =
    if gt6 start_ms start_ls current.end_ms current.end_ls
    then Option.map (◌∷◌ current)
        (merge_in_sorted_queue6 alloc next start_ms start_ls end_ms end_ls)
    else if gt6 current.start_ms current.start_ls end_ms end_ls
    then (if alloc
        then some (
            record { start_ms = start_ms; start_ls = start_ls; end_ms = end_ms; end_ls = end_ls }
            ∷ current
            ∷ next)
        else none)
    else some
        (one_step_merge6 (widen6_end (widen6_start current start_ms start_ls) end_ms end_ls) next)

abbrev pub create : IpCounter
create = record { v4list = []; v6list = [] }

-- ~x on 32 and on 64 bits.
abbrev pub not32 : ℕ → ℕ
not32 x = 2 ^ 32 - 1 - x

abbrev pub not64 : ℕ → ℕ
not64 x = 2 ^ 64 - 1 - x

-- The uint32_t mask: computed on 64 bits and truncated.
pub mask4 : ℕ → ℕ
mask4 mask_len = not64 (2 ^ (32 - mask_len) - 1) % 2 ^ 32

-- C leaves the shift by 64 for the mask length 0 undefined: this is the value where the machine takes
-- the count modulo 64.
pub mask6_ms : ℕ → ℕ
mask6_ms mask_len = if ltb 64 mask_len then not64 0 else not64 (2 ^ ((64 - mask_len) % 64) - 1)

pub mask6_ls : ℕ → ℕ
mask6_ls mask_len = if ltb 64 mask_len then not64 (2 ^ (64 - (mask_len - 64)) - 1) else 0

pub add : Bool → IpCounter → Pfx → Option IpCounter
add alloc ipc pfx = elim pfx.address [
  | ipv4 address ↦
      let mask = mask4 pfx.mask_len in
      let start = bit_and address mask in
      let end = bit_or start (not32 mask) in
      Option.map (λ l. record ipc { v4list = l })
        (merge_in_sorted_queue4 alloc ipc.v4list start end)
  | ipv6 ms ls ↦
      let mask_ms = mask6_ms pfx.mask_len in
      let mask_ls = mask6_ls pfx.mask_len in
      let start_ms = bit_and ms mask_ms in
      let start_ls = bit_and ls mask_ls in
      Option.map (λ l. record ipc { v6list = l })
        (merge_in_sorted_queue6 alloc ipc.v6list start_ms start_ls (bit_or start_ms (not64 mask_ms))
          (bit_or start_ls (not64 mask_ls)))
  | unknown ↦ some ipc
]

-- uint32_t and uint64_t end - start + 1.
abbrev pub size32 : ℕ → ℕ → ℕ
size32 start end = (end + 2 ^ 32 - start + 1) % 2 ^ 32

abbrev pub size64 : ℕ → ℕ → ℕ
size64 start end = (end + 2 ^ 64 - start + 1) % 2 ^ 64

-- The loop of is_overlapping4 over the intervals: `overlap_count` and `*more_specific`.
pub overlap4_loop : List V4Int → ℕ → ℕ → ℕ → Bool → ℕ × Bool
overlap4_loop [] start end overlap_count more_specific = (overlap_count, more_specific)
overlap4_loop (current ∷ next) start end overlap_count more_specific =
    let int_start = if ltb current.start start then start else current.start in
    let int_end = if ltb end current.end then end else current.end in
    let size = size32 int_start int_end in
    let behind = overlap4_loop next start end overlap_count more_specific in
    let counted =
      overlap4_loop next start end ((overlap_count + size) % 2 ^ 32)
        (size == size32 start end || more_specific) in
    if ltb end current.start
    then (overlap_count, more_specific)
    else if ltb current.end start
    then behind
    else counted

-- `none` is a shift by the whole width, which C leaves undefined: the prefixes of length 0.
pub is_overlapping4 : IpCounter → ℕ → ℕ → Option (ℕ × Bool)
is_overlapping4 ipc address mask_len =
    let len = 32 - mask_len in
    let start = address / 2 ^ len * 2 ^ len % 2 ^ 32 in
    let ones = not32 0 / 2 ^ len * 2 ^ len % 2 ^ 32 in
    let end = bit_or start (not32 ones) in
    if mask_len == 0 then none else some (overlap4_loop ipc.v4list start end 0 false)

-- The two loops of get_ipcount, from `ip_count` on.
pub ipcount4_loop : List V4Int → ℕ → ℕ
ipcount4_loop [] ip_count = ip_count
ipcount4_loop (current ∷ next) ip_count =
    ipcount4_loop next ((ip_count + size32 current.start current.end) % 2 ^ 64)

pub ipcount6_loop : Option V6Int → List V6Int → ℕ → ℕ
ipcount6_loop previous [] ip_count = ip_count
ipcount6_loop none (current ∷ next) ip_count =
    ipcount6_loop (some current) next ((ip_count + size64 current.start_ms current.end_ms) % 2 ^ 64)
ipcount6_loop (some previous) (current ∷ next) ip_count = ipcount6_loop (some current) next (
    if current.start_ms == previous.start_ms && current.end_ms == previous.end_ms
    then ip_count
    else (ip_count + size64 current.start_ms current.end_ms) % 2 ^ 64)

pub data Version : Type 0 where
  v4 v6 other : Version

pub get_ipcount : IpCounter → Version → ℕ
get_ipcount ipc v4 = ipcount4_loop ipc.v4list 0
get_ipcount ipc v6 = ipcount6_loop none ipc.v6list 0
get_ipcount ipc other = 0

pub clear : IpCounter → IpCounter
clear ipc = record { v4list = []; v6list = [] }
