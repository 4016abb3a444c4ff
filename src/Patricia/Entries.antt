-- ===== src/Patricia/Entries.antt =====
-- What bgpstream_patricia_tree_insert comes to, and the prefixes of a place in a tree.
use bgpstream.Base.{
  ℕ, ◌≤◌, ◌≡◌, ◌≢◌, inl, inr, refl, sym, ◌∙◌, Bool, true, false, ◌||◌, not, Option, none, some,
  List, [], ◌∷◌, arith, ◌==◌, Bool-cases,
}
use bgpstream.Addr.{Pfx}
use bgpstream.Patricia.{
  Node, null, node, Frame, plug, zip_up, root, is_null, maxbits, Inserted, node_create,
}
use bgpstream.Patricia.Removal.{remove_node}
use bgpstream.Patricia.Bits.{Bits, Agree, comp_with_mask_iff}
use bgpstream.Patricia.Valid.{
  bits, IsHead, IsTree, IsTree-cong, same_pfx, same_pfx-parts, is_entry, has, Agree-le,
}
use bgpstream.Patricia.Search.{prefix_of, absent_other, absent_entry}
use bgpstream.Patricia.Path.{IsPath, IsFrameHead, has_path, has-zip_up, zip_up-IsTree}

pub same_pfx_intro :
    (p q : Pfx) → p.mask_len ≡ q.mask_len → Agree (bits p) (bits q) q.mask_len → same_pfx p q ≡ true
unfolding same_pfx
same_pfx_intro p q e h =
    let equal : (p.mask_len == q.mask_len) ≡ true = ground arith in
    rw (equal, (comp_with_mask_iff p.address q.address q.mask_len).1 h) refl

pub same_pfx_refl : (p : Pfx) → same_pfx p p ≡ true
same_pfx_refl p = same_pfx_intro p p refl (λ i q. refl)

-- Two ways to write one prefix.
pub same_pfx_cong :
    (p p' q : Pfx)
    → p.mask_len ≡ p'.mask_len
    → Agree (bits p) (bits p') p.mask_len
    → same_pfx p q ≡ same_pfx p' q
same_pfx_cong p p' q e h = elim (Bool-cases (same_pfx p q)) [
  | inl same ↦
      let (len, agree) = same_pfx-parts p q same in
      same
      ∙ sym (
          same_pfx_intro p' q (omega (arith, len, e))
            (λ i r. sym (h i (omega (arith, len))) ∙ agree i r))
  | inr other ↦ elim (Bool-cases (same_pfx p' q)) [
    | inr other' ↦ other ∙ sym other'
    | inl same' ↦
        let (len, agree) = same_pfx-parts p' q same' in
        absurd (
          cc (
            other,
            same_pfx_intro p q (omega (arith, len, e))
                (λ i r. h i (omega (arith, len, e)) ∙ agree i r),
          ))
  ]
]

pub absent_frame :
    (q : Pfx) (v : Bits) (b : ℕ) (prefix : Option Pfx) (other : Node)
    → IsFrameHead v b prefix other
    → q.mask_len ≢ b
    → is_entry q prefix ≡ false
unfolding IsFrameHead
absent_frame q v b none other h ne = unfold is_entry in refl
absent_frame q v b (some pfx) other h ne =
    absent_entry q v b (some pfx) null null (unfold IsHead in h) ne

pub not-not : (b : Bool) → b ≡ not (not b)
not-not b = ground arith

-- A prefix that belongs below a place is not on the way to it.
pub absent_path :
    (q : Pfx) (v : Bits) (d : ℕ) (path : List Frame)
    → IsPath v d path
    → d ≤ q.mask_len
    → Agree (bits q) v d
    → has_path q path ≡ false
unfolding IsPath has_path
absent_path q v d [] h p g = refl
absent_path q v d (f ∷ path) (under, top, turn, other, head, rest) p g =
    rw
      (
        absent_frame q v f.bit f.prefix f.other head (λ e. omega (arith, e)),
        absent_other q v f.bit (not f.right) f.other other
            (g f.bit under ∙ sym turn ∙ not-not f.right),
        absent_path q v f.bit path rest (omega arith) (Agree-le (bits q) v f.bit d (omega arith) g),
      )
      refl

-- A glue node has no data of the user.
unfoldable pub IsClear : Option Pfx → Option ℕ → Type 0
IsClear none user = user ≡ none
IsClear (some pfx) user = Unit

unfoldable pub IsCleared : Node → Type 0
IsCleared null = Unit
IsCleared (node b prefix user l r) = IsClear prefix user × IsCleared l × IsCleared r

IsCleared-plug :
    (b : ℕ) (prefix : Option Pfx) (user : Option ℕ) (right : Bool) (other n : Node)
    → IsCleared
        (plug (record { bit = b; prefix = prefix; user = user; right = right; other = other }) n)
    → IsCleared n
unfolding plug IsCleared
IsCleared-plug b prefix user true other n h = h.2
IsCleared-plug b prefix user false other n h = h.1

pub IsCleared-zip_up : (path : List Frame) (n : Node) → IsCleared (zip_up path n) → IsCleared n
unfolding zip_up
IsCleared-zip_up [] n h = h
IsCleared-zip_up (f ∷ path) n h =
    IsCleared-plug f.bit f.prefix f.user f.right f.other n (IsCleared-zip_up path (plug f n) h)

-- What an insert comes to: a well-formed tree that has the prefix, and besides it those that it had;
-- the node that is returned has the prefix, and it counts if the prefix was not in the tree; the
-- removal of a node that counted gives back the tree.
pub record IsInserted (pfx : Pfx) (tree : Node) (done : Inserted) : Type 0 where
  pub valid : IsTree (bits pfx) 0 (root done.loc)
  pub entries : (q : Pfx) → has q (root done.loc) ≡ (same_pfx pfx q || has q tree)
  pub entry : is_entry pfx (prefix_of done.loc.here) ≡ true
  pub counts : done.counted ≡ not (has pfx tree)
  pub undo : IsCleared tree → done.counted ≡ true → (remove_node done.loc).tree ≡ tree

pub inserted :
    (pfx : Pfx) (tree : Node) (v : Bits) (d : ℕ) (path : List Frame) (n : Node) (counted : Bool)
    → IsPath v d path
    → IsTree v d n
    → is_null n ≡ false
    → ((q : Pfx) → (has q n || has_path q path) ≡ (same_pfx pfx q || has q tree))
    → is_entry pfx (prefix_of n) ≡ true
    → counted ≡ not (has pfx tree)
    → (IsCleared tree
        → counted ≡ true
        → (remove_node (record { path = path; here = n })).tree ≡ tree)
    → IsInserted pfx tree (record { loc = record { path = path; here = n }; counted = counted })
inserted pfx tree v d path n counted h t there same entry counts undo = record {
  valid =
      unfold root in
      IsTree-cong v (bits pfx) 0 (zip_up path n) (λ i p. absurd (omega arith))
        (zip_up-IsTree v d path n h t there);
  entries = λ q. unfold root in (has-zip_up q path n ∙ same q);
  entry = entry;
  counts = counts;
  undo = undo;
}

-- The node of a new prefix, below a place that its bits lead to.
pub node_create-IsTree :
    (pfx : Pfx) (d : ℕ)
    → d ≤ pfx.mask_len
    → pfx.mask_len ≤ maxbits
    → IsTree (bits pfx) d (node_create pfx)
unfolding node_create IsTree IsHead
node_create-IsTree pfx d p m = (p, m, (bits pfx, λ i q. refl, (refl, λ i q. refl), tt, tt))

pub has-node_create : (pfx q : Pfx) → has q (node_create pfx) ≡ same_pfx pfx q
unfolding node_create has is_entry same_pfx
has-node_create pfx q = ground arith
