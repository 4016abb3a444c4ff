-- ===== src/Patricia.antt =====
-- lib/utils/bgpstream_utils_patricia.c: the tree of prefixes.
-- A node is reached through its `parent` pointer as well, so a pointer to a node is a location: the
-- node, and the frames of its ancestors from the parent up. A function that changes nodes returns the
-- location of the node that it returns, in the changed tree. `none` is an assertion that fails, and
-- the failures of malloc are left out.
pub mod Bits
pub mod Valid
pub mod Search
pub mod Path
pub mod Descend
pub mod Climb
pub mod Entries
pub mod Below
pub mod Undo
pub mod Place
pub mod Insert
pub mod Removal
pub mod Locate
pub mod Remove
pub mod RemoveNode
pub mod RoundTrip
pub mod Results
pub mod Covers
pub mod Specifics
pub mod Minimum
pub mod Looks
pub mod Undone
pub mod OverlapInfo
pub mod Overlap
pub mod Tree
pub mod Whole
pub mod Merge
pub mod Examples
use mathlib.Core.Option
use bgpstream.Base.{
  ℕ, zero, suc, ◌+◌, ◌-◌, ◌*◌, ◌/◌, ◌%◌, ◌^◌, Bool, true, false, ◌&&◌, ◌||◌, not, Option, none,
  some, List, [], ◌∷◌, ◌++◌, ltb, leb, ◌==◌, if◌then◌else◌,
}
use bgpstream.Addr.{Addr, unknown, ipv4, ipv6, Pfx}

abbrev pub maxbits : ℕ
maxbits = 128

-- BIT_TEST(addr[i >> 3], 0x80 >> (i & 0x07)): bit i of the address, the highest first. Past the end of
-- an IPv4 address the code would read other memory.
unfoldable pub bit_at : Addr → ℕ → Bool
bit_at unknown i = false
bit_at (ipv4 a) i = ltb i 32 && a / 2 ^ (31 - i) % 2 == 1
bit_at (ipv6 ms ls) i =
    if ltb i 64 then ms / 2 ^ (63 - i) % 2 == 1 else ltb i 128 && ls / 2 ^ (127 - i) % 2 == 1

unfoldable pub same_bit : Bool → Bool → Bool
same_bit true b = b
same_bit false b = not b

-- The `count` bits from `base` on are the same.
unfoldable pub same_bits : Addr → Addr → ℕ → ℕ → Bool
same_bits a t base zero = true
same_bits a t base (suc count) =
    same_bit (bit_at a base) (bit_at t base) && same_bits a t (base + 1) count

-- memcmp of mask / 8 bytes, and the byte behind them under its mask.
unfoldable pub comp_with_mask : Addr → Addr → ℕ → Bool
comp_with_mask a t mask =
    same_bits a t 0 (8 * (mask / 8)) && (mask % 8 == 0 || same_bits a t (8 * (mask / 8)) (mask % 8))

-- bgpstream_patricia_node_t without its parent: bit, prefix, user, l and r. The prefix of a glue node,
-- whose address has the version UNKNOWN, is `none`.
pub data Node : Type 0 where
  null : Node
  node : ℕ → Option Pfx → Option ℕ → Node → Node → Node

-- A parent whose child on the right, or on the left, is the node.
pub record Frame : Type 0 where
  pub bit : ℕ
  pub prefix : Option Pfx
  pub user : Option ℕ
  pub right : Bool
  pub other : Node

pub record Loc : Type 0 where
  pub path : List Frame
  pub here : Node

unfoldable pub plug : Frame → Node → Node
plug f n =
    if f.right then node f.bit f.prefix f.user f.other n else node f.bit f.prefix f.user n f.other

unfoldable pub zip_up : List Frame → Node → Node
zip_up [] n = n
zip_up (f ∷ path) n = zip_up path (plug f n)

-- The tree that a location is in.
unfoldable pub root : Loc → Node
root loc = zip_up loc.path loc.here

unfoldable pub is_null : Node → Bool
is_null null = true
is_null (node bit prefix user l r) = false

unfoldable pub is_glue : Option Pfx → Bool
is_glue none = true
is_glue (some pfx) = false

unfoldable pub node_create : Pfx → Node
node_create pfx =
    node pfx.mask_len
      (some (record { address = pfx.address; mask_len = pfx.mask_len; allowed_matches = 0 })) none
      null null

-- The navigation of insert, from a node that is there on.
unfoldable pub descend : Addr → ℕ → List Frame → Node → Loc
descend addr bitlen path null = record { path = path; here = null }
descend addr bitlen path (node bit prefix user l r) =
    let right =
      descend addr bitlen
        (record { bit = bit; prefix = prefix; user = user; right = true; other = l } ∷ path) r in
    let left =
      descend addr bitlen
        (record { bit = bit; prefix = prefix; user = user; right = false; other = r } ∷ path) l in
    let stop : Loc = record { path = path; here = node bit prefix user l r } in
    if ltb bit bitlen || is_glue prefix
    then (if ltb bit maxbits && bit_at addr bit
        then (if is_null r then stop else right)
        else (if is_null l then stop else left))
    else stop

-- The first of the bits from `base` on that differs: in a byte, the j of BIT_TEST(r, 0x80 >> j).
unfoldable pub byte_differ : Addr → Addr → ℕ → ℕ → Option ℕ
byte_differ a t base zero = none
byte_differ a t base (suc count) =
    let rest = byte_differ a t (base + 1) count in
    if same_bit (bit_at a base) (bit_at t base) then rest else some base

-- The loop over the bytes, of which an address has 16.
unfoldable pub differ_loop : ℕ → Addr → Addr → ℕ → ℕ → ℕ → ℕ
differ_loop zero a t check_bit i differ = differ
differ_loop (suc rounds) a t check_bit i differ =
    let rest = differ_loop rounds a t check_bit (i + 1) ((i + 1) * 8) in
    if ltb (i * 8) check_bit
    then elim (byte_differ a t (i * 8) 8) [ none ↦ rest | some bit ↦ bit ]
    else differ

unfoldable pub differ_bit : Addr → Addr → ℕ → ℕ
differ_bit a t check_bit =
    let differ = differ_loop 16 a t check_bit 0 0 in
    if ltb check_bit differ then check_bit else differ

-- Back up while the parent's bit is not below the one that differs.
unfoldable pub climb : ℕ → List Frame → Node → Loc
climb differ [] n = record { path = []; here = n }
climb differ (f ∷ path) n =
    let up = climb differ path (plug f n) in
    if leb differ f.bit then up else record { path = f ∷ path; here = n }

-- What insert returns: the node, and whether it counted a new active one.
pub record Inserted : Type 0 where
  pub loc : Loc
  pub counted : Bool

-- The four ways to insert at the node where the climb ends. `test_addr` is the address of the node
-- where the navigation ended.
unfoldable pub place : Pfx → Addr → ℕ → List Frame → Node → Inserted
place pfx test_addr differ path null = record {
  loc = record { path = path; here = node_create pfx };
  counted = true;
}
place pfx test_addr differ path (node bit prefix user l r) =
    let here = node bit prefix user l r in
    let bitlen = pfx.mask_len in
    let addr = pfx.address in
    if differ == bitlen && bit == bitlen
    then (if is_glue prefix
        then record {
          loc = record { path = path; here = node bit (some pfx) user l r };
          counted = true;
        }
        else record { loc = record { path = path; here = here }; counted = false })
    else if bit == differ
    then record {
      loc = record {
        path =
            (if ltb bit maxbits && bit_at addr bit
              then record { bit = bit; prefix = prefix; user = user; right = true; other = l }
              else record { bit = bit; prefix = prefix; user = user; right = false; other = r })
            ∷ path;
        here = node_create pfx;
      };
      counted = true;
    }
    else if bitlen == differ
    then record {
      loc = record {
        path = path;
        here =
            (if ltb bitlen maxbits && bit_at test_addr bitlen
              then plug
                  (record {
                    bit = bitlen;
                    prefix = some (record pfx { allowed_matches = 0 });
                    user = none;
                    right = true;
                    other = null;
                  })
                  here
              else plug
                  (record {
                    bit = bitlen;
                    prefix = some (record pfx { allowed_matches = 0 });
                    user = none;
                    right = false;
                    other = null;
                  })
                  here);
      };
      counted = true;
    }
    else record {
      loc = record {
        path =
            record {
              bit = differ;
              prefix = none;
              user = none;
              right = ltb differ maxbits && bit_at addr differ;
              other = here;
            }
            ∷ path;
        here = node_create pfx;
      };
      counted = true;
    }

-- insert behind the navigation. At a glue node the address that it reads is not there.
unfoldable pub insert_from : Pfx → Loc → Option Inserted
insert_from pfx loc = elim loc.here [
  | null ↦ none
  | node bit prefix user l r ↦ elim prefix [
    | none ↦ none
    | some test ↦
        let check_bit = if ltb bit pfx.mask_len then bit else pfx.mask_len in
        let differ = differ_bit pfx.address test.address check_bit in
        let top = climb differ loc.path (node bit (some test) user l r) in
        some (place pfx test.address differ top.path top.here)
  ]
]

-- bgpstream_patricia_tree_insert on the tree of the prefix's version.
unfoldable pub insert_node : Node → Pfx → Option Inserted
insert_node null pfx =
    some (record { loc = record { path = []; here = node_create pfx }; counted = true })
insert_node (node bit prefix user l r) pfx =
    insert_from pfx (descend pfx.address pfx.mask_len [] (node bit prefix user l r))

-- bgpstream_patricia_tree_search_exact on the tree of the prefix's version.
unfoldable pub search_from : Pfx → List Frame → Node → Option Loc
search_from pfx path null = none
search_from pfx path (node bit prefix user l r) =
    let right =
      search_from pfx
        (record { bit = bit; prefix = prefix; user = user; right = true; other = l } ∷ path) r in
    let left =
      search_from pfx
        (record { bit = bit; prefix = prefix; user = user; right = false; other = r } ∷ path) l in
    if ltb bit pfx.mask_len then (if bit_at pfx.address bit then right else left) else elim prefix [
      | none ↦ none
      | some q ↦
          if ltb pfx.mask_len bit
          then none
          else if comp_with_mask q.address pfx.address pfx.mask_len
          then some (record { path = path; here = node bit (some q) user l r })
          else none
    ]

unfoldable pub search_exact : Node → Pfx → Option Loc
search_exact head pfx = search_from pfx [] head
