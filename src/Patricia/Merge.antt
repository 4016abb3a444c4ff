-- ===== src/Patricia/Merge.antt =====
-- bgpstream_patricia_tree_merge is the union of the sets of prefixes.
use bgpstream.Base.{
  ℕ, ◌+◌, ◌≡◌, refl, ap, ◌∙◌, Bool, true, false, ◌&&◌, ◌||◌, Option, none, some, arith,
}
use bgpstream.Addr.{Addr, unknown, ipv4, ipv6, Pfx}
use bgpstream.Patricia.{Node, null, node}
use bgpstream.Patricia.Bits.{Bits}
use bgpstream.Patricia.Valid.{with_bit, IsTree, IsHead, same_pfx, is_entry, has}
use bgpstream.Patricia.Descend.{NodeParts}
use bgpstream.Patricia.Tree.{Tree, merge_tree, merge}
use bgpstream.Patricia.Whole.{
  same_version, equal, has_at, member, IsValid, known, tree_insert-member,
}

-- The prefixes of a node's subtree have the version of an address.
unfoldable pub IsOf : Addr → Node → Type 0
IsOf a null = Unit
IsOf a (node b none user l r) = IsOf a l × IsOf a r
IsOf a (node b (some p) user l r) = (same_version p.address a ≡ true) × IsOf a l × IsOf a r

same_version-known : (x a : Addr) → same_version x a ≡ true → known a ≡ true → known x ≡ true
unfolding same_version known
same_version-known unknown unknown e k = k
same_version-known unknown (ipv4 b) e k = absurd (cc e)
same_version-known unknown (ipv6 b c) e k = absurd (cc e)
same_version-known (ipv4 x) a e k = refl
same_version-known (ipv6 x y) a e k = refl

same_version-left : (x a y : Addr) → same_version x a ≡ true → same_version x y ≡ same_version a y
unfolding same_version
same_version-left unknown unknown y e = refl
same_version-left (ipv4 x) (ipv4 a) y e = refl
same_version-left (ipv6 x y) (ipv6 a b) z e = refl
same_version-left unknown (ipv4 b) y e = absurd (cc e)
same_version-left unknown (ipv6 b c) y e = absurd (cc e)
same_version-left (ipv4 x) unknown y e = absurd (cc e)
same_version-left (ipv4 x) (ipv6 b c) y e = absurd (cc e)
same_version-left (ipv6 x x') unknown y e = absurd (cc e)
same_version-left (ipv6 x x') (ipv4 b) y e = absurd (cc e)

equal_version :
    (p : Pfx) (a : Addr) (q : Pfx)
    → same_version p.address a ≡ true
    → equal p q ≡ (same_version a q.address && same_pfx p q)
unfolding equal
equal_version p a q e = rw (same_version-left p.address a q.address e) refl

both :
    (m : Bool) (x : Addr) (q : Pfx) (src : Tree)
    → ((m || (same_version (ipv4 0) x && has q src.head4))
        || (same_version (ipv6 0 0) x && has q src.head6))
      ≡ (m || has_at src x q)
unfolding same_version has_at
both m unknown q src = ground arith
both m (ipv4 a) q src = ground arith
both m (ipv6 a b) q src = ground arith

-- What a merge of a subtree comes to.
abbrev Merges : Addr → Node → Tree → Option Tree → Type 0
Merges a n dst result =
    (pt : Tree) × (result ≡ some pt)
    × IsValid pt
    × ((q : Pfx) → member q pt ≡ (member q dst || (same_version a q.address && has q n)))

pub merge_tree-member :
    (a : Addr) (n : Node) (dst : Tree) (w : Bits) (d : ℕ)
    → known a ≡ true
    → IsValid dst
    → IsTree w d n
    → IsOf a n
    → Merges a n dst (merge_tree dst n)
unfolding merge_tree has is_entry IsOf
merge_tree-member a null dst w d k v t o = (dst, refl, v, λ q. ground arith)
merge_tree-member a (node b none user l r) dst w d k v t (o_l, o_r) =
    let (low, top, (x, g, head, left, right)) : NodeParts w d b none l r = unfold IsTree in t in
    let (one, e, v1, in_one) =
      merge_tree-member a l dst (with_bit x b false) (b + 1) k v left o_l in
    let (two, f, v2, in_two) =
      merge_tree-member a r one (with_bit x b true) (b + 1) k v1 right o_r in
    rw e (
      two,
      f,
      v2,
      λ q.
          in_two q ∙ ap (λ c. c || (same_version a q.address && has q r)) (in_one q) ∙ ground arith,
    )
merge_tree-member a (node b (some p) user l r) dst w d k v t (o, o_l, o_r) =
    let (low, top, (x, g, head, left, right)) : NodeParts w d b (some p) l r = unfold IsTree in t in
    let len : p.mask_len ≡ b = unfold IsHead in head.0 in
    let (own, e0, v0, in_own) =
      tree_insert-member dst p v (same_version-known p.address a o k) (omega (arith, len)) in
    let (one, e, v1, in_one) =
      merge_tree-member a l own.1 (with_bit x b false) (b + 1) k v0 left o_l in
    let (two, f, v2, in_two) =
      merge_tree-member a r one (with_bit x b true) (b + 1) k v1 right o_r in
    rw (e0, e)
      (
        two,
        f,
        v2,
        λ q.
            in_two q
            ∙ ap (λ c. c || (same_version a q.address && has q r))
                (in_one q
                  ∙ ap (λ c. c || (same_version a q.address && has q l))
                      (in_own q ∙ ap (λ c. c || member q dst) (equal_version p a q o)))
            ∙ ground arith,
      )

-- merge takes the union of the sets of two well-formed trees, whose result is well-formed.
pub merge-member :
    (dst src : Tree)
    → IsValid dst
    → IsValid src
    → IsOf (ipv4 0) src.head4
    → IsOf (ipv6 0 0) src.head6
    → (pt : Tree) × (merge dst (some src) ≡ some pt)
      × IsValid pt
      × ((q : Pfx) → member q pt ≡ (member q dst || member q src))
unfolding merge
merge-member dst src v u four six =
    let (one, e, v1, in_one) =
      merge_tree-member (ipv4 0) src.head4 dst (λ i. false) 0 (unfold known in refl) v
        (u.four (λ i. false)) four in
    let (two, f, v2, in_two) =
      merge_tree-member (ipv6 0 0) src.head6 one (λ i. false) 0 (unfold known in refl) v1
        (u.six (λ i. false)) six in
    rw e (
      two,
      f,
      v2,
      λ q.
          in_two q
          ∙ ap (λ c. c || (same_version (ipv6 0 0) q.address && has q src.head6)) (in_one q)
          ∙ both (member q dst) q.address q src
          ∙ (unfold member in refl),
    )
