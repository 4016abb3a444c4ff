-- ===== src/Patricia/OverlapInfo.antt =====
-- bgpstream_patricia_tree_get_pfx_overlap_info on the tree of both versions: its mask, the nodes of the
-- tree behind it, and the counts.
use mathlib.Core.Path.{subst}
use Prim.Native.Nat.{bit_and, bit_or}
use bgpstream.Base.{
  ℕ, ◌^◌, ◌-◌, ◌<◌, ◌≤◌, ◌≡◌, ◌↔◌, inl, inr, refl, sym, ap, ◌∙◌, Bool, true, false, ◌&&◌, not,
  Option, none, some, ◌>>=◌, ◌==◌, if◌then◌else◌, Bool-cases,
}
use bgpstream.Addr.{Pfx}
use bgpstream.Patricia.{Node, Loc, maxbits, search_exact, insert_node, Inserted}
use bgpstream.Patricia.Removal.{remove_node}
use bgpstream.Patricia.Results.{
  overlap_less_specifics, overlap_exact_match, overlap_more_specifics, find_less_specific, more_of,
  get_node_overlap_info,
}
use bgpstream.Patricia.Bits.{Bits}
use bgpstream.Patricia.Valid.{IsTree, has}
use bgpstream.Patricia.Search.{missing, found, search_exact-Searched}
use bgpstream.Patricia.Entries.{IsCleared}
use bgpstream.Patricia.Insert.{insert_node-IsInserted}
use bgpstream.Patricia.Covers.{covers}
use bgpstream.Patricia.Looks.{Overlap, Looked, node_overlap, pfx_overlap}
use bgpstream.Patricia.Overlap.{IsOverlap, pfx_overlap-IsOverlap}
use bgpstream.Patricia.Tree.{Tree, get_head, count_up, prefix_count, get_pfx_overlap_info}
use bgpstream.Patricia.Undone.{fills_glue, fills_glue-found, in_and_out}

unfoldable pub is_set : ℕ → ℕ → Bool
is_set mask bit = not (bit_and mask bit == 0)

-- What the bits of a mask say of a prefix and a tree.
pub record IsMask (pfx : Pfx) (tree : Node) (mask : ℕ) : Type 0 where
  pub less :
      (is_set mask overlap_less_specifics ≡ true)
      ↔ ((q : Pfx) × ((has q tree && covers q pfx) ≡ true))
  pub exact : is_set mask overlap_exact_match ≡ has pfx tree
  pub more :
      (is_set mask overlap_more_specifics ≡ true)
      ↔ ((q : Pfx) × ((has q tree && covers pfx q) ≡ true))

-- The bits of the mask of a node, with EXACT_MATCH set or cleared.
record HasBits (mask : ℕ) (o : Overlap) : Type 0 where
  less : is_set mask overlap_less_specifics ≡ o.less_specifics
  exact : is_set mask overlap_exact_match ≡ o.exact_match
  more : is_set mask overlap_more_specifics ≡ o.more_specifics

node_bits :
    (loc : Loc)
    → HasBits (bit_or (get_node_overlap_info loc) overlap_exact_match) (node_overlap loc)
      × HasBits
          (bit_and (get_node_overlap_info loc) (0b1111_1111 - overlap_exact_match))
          (record (node_overlap loc) { exact_match = false })
unfolding node_overlap is_set get_node_overlap_info
node_bits loc = elim (Bool-cases (find_less_specific loc.path)) [
  | inl a ↦ elim (Bool-cases (more_of loc.here)) [
    | inl b ↦
        rw (a, b)
          (
            record { less = refl; exact = refl; more = refl },
            record { less = refl; exact = refl; more = refl },
          )
    | inr b ↦
        rw (a, b)
          (
            record { less = refl; exact = refl; more = refl },
            record { less = refl; exact = refl; more = refl },
          )
  ]
  | inr a ↦ elim (Bool-cases (more_of loc.here)) [
    | inl b ↦
        rw (a, b)
          (
            record { less = refl; exact = refl; more = refl },
            record { less = refl; exact = refl; more = refl },
          )
    | inr b ↦
        rw (a, b)
          (
            record { less = refl; exact = refl; more = refl },
            record { less = refl; exact = refl; more = refl },
          )
  ]
]

HasBits-IsMask :
    (pfx : Pfx) (tree : Node) (mask : ℕ) (o : Overlap)
    → HasBits mask o
    → IsOverlap pfx tree o
    → IsMask pfx tree mask
HasBits-IsMask pfx tree mask o h i = record {
  less = rw h.less i.less;
  exact = h.exact ∙ i.exact;
  more = rw h.more i.more;
}

overlap_in : Option Looked → Option Overlap
overlap_in none = none
overlap_in (some looked) = some looked.overlap

-- The mask of a look tells what the look does.
IsMask-of :
    (pfx : Pfx) (head : Node) (mask : ℕ) (looked there : Looked)
    → pfx_overlap head pfx ≡ some looked
    → IsOverlap pfx head looked.overlap
    → pfx_overlap head pfx ≡ some there
    → HasBits mask there.overlap
    → IsMask pfx head mask
unfolding overlap_in
IsMask-of pfx head mask looked there e i f h =
    let same : some looked.overlap ≡ some there.overlap = ap overlap_in (sym e ∙ f) in
    HasBits-IsMask pfx head mask looked.overlap (subst (HasBits mask) (cc same) h) i

found_look :
    (head : Node) (pfx : Pfx) (loc : Loc)
    → search_exact head pfx ≡ some loc
    → pfx_overlap head pfx
      ≡ some (record { overlap = node_overlap loc; tree = head; inserted = false; removed = false })
unfolding pfx_overlap
found_look head pfx loc s = rw (pfx_overlap, s) refl

pub missing_look :
    (head : Node) (pfx : Pfx) (done : Inserted)
    → search_exact head pfx ≡ none
    → insert_node head pfx ≡ some done
    → pfx_overlap head pfx
      ≡ some (record {
        overlap = record (node_overlap done.loc) { exact_match = false };
        tree = (remove_node done.loc).tree;
        inserted = done.counted;
        removed = (remove_node done.loc).counted;
      })
unfolding pfx_overlap
missing_look head pfx done s i = rw (pfx_overlap, s, i) refl

-- For a prefix of a version that is not UNKNOWN, on a well-formed tree of that version whose glue nodes
-- have no user data and whose count of active nodes is below 2 ^ 64: get_pfx_overlap_info leaves the
-- nodes of both trees as they were, and the counts too, but for one case: where the prefix is not in the
-- tree and the node that is made for it has two children, the count of its version is one higher
-- afterwards, on 64 bits. The bits LESS_SPECIFICS, EXACT_MATCH and MORE_SPECIFICS of its mask say exactly
-- whether the tree has a less specific prefix, the prefix, and a more specific one.
pub get_pfx_overlap_info-IsMask :
    (pt : Tree) (pfx : Pfx) (head : Node) (w : Bits)
    → get_head pt pfx.address ≡ some head
    → prefix_count pt pfx.address < 2 ^ 64
    → IsTree w 0 head
    → IsCleared head
    → pfx.mask_len ≤ maxbits
    → (mask : ℕ) × (get_pfx_overlap_info pt pfx
        ≡ some (mask, if fills_glue head pfx then count_up pt pfx.address else pt))
      × IsMask pfx head mask
unfolding get_pfx_overlap_info
get_pfx_overlap_info-IsMask pt pfx head w g small t clear m =
    let (looked, e, same, i) = pfx_overlap-IsOverlap head pfx w t clear m in
    elim (search_exact-Searched head pfx w t) [
      | found there loc s tree entry ↦ (
        bit_or (get_node_overlap_info loc) overlap_exact_match,
        rw (get_pfx_overlap_info, g, ◌>>=◌, s, fills_glue-found head pfx loc s) refl,
        IsMask-of pfx head _ looked _ e i (found_look head pfx loc s) (node_bits loc).0,
      )
      | missing absent s ↦
          let (done, inserts, ins) = insert_node-IsInserted head pfx w t m in
          let (placed, into, out) =
            in_and_out pt pfx head done g small clear absent s inserts ins in
          (
            bit_and (get_node_overlap_info done.loc) (0b1111_1111 - overlap_exact_match),
            rw (get_pfx_overlap_info, g, ◌>>=◌, s, into, out) refl,
            IsMask-of pfx head _ looked _ e i (missing_look head pfx done s inserts)
                (node_bits done.loc).1,
          )
    ]
