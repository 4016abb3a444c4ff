-- ===== src/Patricia/Whole.antt =====
-- The tree of both versions of IP as a set of prefixes.
use mathlib.Core.Path.{subst}
use bgpstream.Base.{
  ◌≤◌, ◌≡◌, refl, sym, ap, ◌∙◌, Bool, true, false, ◌&&◌, ◌||◌, not, some, arith, if◌then◌else◌,
}
use bgpstream.Addr.{Addr, unknown, ipv4, ipv6, Pfx}
use bgpstream.Patricia.{Node, Loc, root, maxbits}
use bgpstream.Patricia.Removal.{remove}
use bgpstream.Patricia.Bits.{Bits}
use bgpstream.Patricia.Valid.{bits, IsTree, IsTree-cong, same_pfx, has}
use bgpstream.Patricia.Insert.{insert_node-IsInserted}
use bgpstream.Patricia.RoundTrip.{remove-IsRemoved}
use bgpstream.Patricia.Tree.{
  Tree, get_head, set_head, count_up, count_down, insert_done, tree_insert, tree_remove,
}

unfoldable pub same_version : Addr → Addr → Bool
same_version unknown unknown = true
same_version (ipv4 a) (ipv4 b) = true
same_version (ipv6 a b) (ipv6 c d) = true
same_version unknown (ipv4 b) = false
same_version unknown (ipv6 c d) = false
same_version (ipv4 a) unknown = false
same_version (ipv4 a) (ipv6 c d) = false
same_version (ipv6 a b) unknown = false
same_version (ipv6 a b) (ipv4 c) = false

-- The set of prefixes that a tree stands for, and the equality of its members.
unfoldable pub equal : Pfx → Pfx → Bool
equal p q = same_version p.address q.address && same_pfx p q

unfoldable pub has_at : Tree → Addr → Pfx → Bool
has_at pt unknown q = false
has_at pt (ipv4 a) q = has q pt.head4
has_at pt (ipv6 ms ls) q = has q pt.head6

unfoldable pub member : Pfx → Tree → Bool
member q pt = has_at pt q.address q

pub record IsValid (pt : Tree) : Type 0 where
  pub four : (w : Bits) → IsTree w 0 pt.head4
  pub six : (w : Bits) → IsTree w 0 pt.head6

-- The version of a prefix that a tree can take, and its length.
unfoldable pub known : Addr → Bool
known unknown = false
known (ipv4 a) = true
known (ipv6 a b) = true

-- A new head for a version.
module _ (pt : Tree) (v : IsValid pt) (n : Node) (t : (w : Bits) → IsTree w 0 n) where
  set_head-IsValid : (a : Addr) → IsValid (set_head pt a n)
  unfolding set_head
  set_head-IsValid unknown = v
  set_head-IsValid (ipv4 a) = record { four = t; six = v.six }
  set_head-IsValid (ipv6 ms ls) = record { four = v.four; six = t }

-- The counts do not matter to the set.
abbrev SameHeads : Tree → Tree → Type 0
SameHeads pt left = (left.head4 ≡ pt.head4) × (left.head6 ≡ pt.head6)

count_up-SameHeads :
    (pt : Tree) (a : Addr) (b : Bool) → SameHeads pt (if b then count_up pt a else pt)
unfolding count_up
count_up-SameHeads pt a false = (refl, refl)
count_up-SameHeads pt unknown true = (refl, refl)
count_up-SameHeads pt (ipv4 a) true = (refl, refl)
count_up-SameHeads pt (ipv6 a b) true = (refl, refl)

count_down-SameHeads :
    (pt : Tree) (a : Addr) (b : Bool) → SameHeads pt (if b then count_down pt a else pt)
unfolding count_down
count_down-SameHeads pt a false = (refl, refl)
count_down-SameHeads pt unknown true = (refl, refl)
count_down-SameHeads pt (ipv4 a) true = (refl, refl)
count_down-SameHeads pt (ipv6 a b) true = (refl, refl)

heads-IsValid : (pt left : Tree) → SameHeads pt left → IsValid pt → IsValid left
heads-IsValid pt left (e, f) v = record {
  four = λ w. subst (λ n. IsTree w 0 n) (sym e) (v.four w);
  six = λ w. subst (λ n. IsTree w 0 n) (sym f) (v.six w);
}

heads-has_at :
    (pt left : Tree) → SameHeads pt left → (x : Addr) (q : Pfx) → has_at left x q ≡ has_at pt x q
unfolding has_at
heads-has_at pt left (e, f) unknown q = refl
heads-has_at pt left (e, f) (ipv4 a) q = ap (has q) e
heads-has_at pt left (e, f) (ipv6 a b) q = ap (has q) f

-- The set after a new head for the version of p.
set_head-has_at :
    (pt : Tree) (a : Addr) (n : Node) (p : Pfx) (x : Addr) (q : Pfx) (f : Bool → Bool)
    → known a ≡ true
    → (has q n ≡ f (has_at pt a q))
    → has_at (set_head pt a n) x q ≡ (if same_version a x then f (has_at pt x q) else has_at pt x q)
unfolding set_head has_at same_version known
set_head-has_at pt unknown n p x q f k e = absurd (cc k)
set_head-has_at pt (ipv4 a) n p unknown q f k e = refl
set_head-has_at pt (ipv4 a) n p (ipv4 b) q f k e = e
set_head-has_at pt (ipv4 a) n p (ipv6 b c) q f k e = refl
set_head-has_at pt (ipv6 a b) n p unknown q f k e = refl
set_head-has_at pt (ipv6 a b) n p (ipv4 c) q f k e = refl
set_head-has_at pt (ipv6 a b) n p (ipv6 c d) q f k e = e

-- The tree of a version that is known.
head-at :
    (pt : Tree) (a : Addr)
    → IsValid pt
    → known a ≡ true
    → (head : Node) × (get_head pt a ≡ some head)
      × ((w : Bits) → IsTree w 0 head)
      × ((q : Pfx) → has q head ≡ has_at pt a q)
unfolding get_head has_at known
head-at pt unknown v k = absurd (cc k)
head-at pt (ipv4 a) v k = (pt.head4, refl, v.four, λ q. refl)
head-at pt (ipv6 a b) v k = (pt.head6, refl, v.six, λ q. refl)

under_or : (s e h : Bool) → (if s then e || h else h) ≡ ((s && e) || h)
under_or true e h = refl
under_or false e h = refl

-- tree_insert refines the insertion into a set: it returns a location and a well-formed tree, whose set
-- has the prefix and what it had before.
pub tree_insert-member :
    (pt : Tree) (p : Pfx)
    → IsValid pt
    → known p.address ≡ true
    → p.mask_len ≤ maxbits
    → (done : Loc × Tree) × (tree_insert pt p ≡ some done)
      × IsValid done.1
      × ((q : Pfx) → member q done.1 ≡ (equal p q || member q pt))
unfolding tree_insert insert_done member equal
tree_insert-member pt p v k m =
    let (head, at_head, t, same) = head-at pt p.address v k in
    let (done, e, i) = insert_node-IsInserted head p (bits p) (t (bits p)) m in
    let tree : (w : Bits) → IsTree w 0 (root done.loc) =
      λ w. IsTree-cong (bits p) w 0 (root done.loc) (λ j x. absurd (omega arith)) i.valid in
    let placed = set_head pt p.address (root done.loc) in
    rw (at_head, e)
      (
        _,
        refl,
        heads-IsValid placed _ (count_up-SameHeads placed p.address done.counted)
            (set_head-IsValid pt v (root done.loc) tree p.address),
        λ q.
            heads-has_at placed _ (count_up-SameHeads placed p.address done.counted) q.address q
            ∙ set_head-has_at pt p.address (root done.loc) p q.address q (λ b. same_pfx p q || b) k
                (i.entries q ∙ ap (λ b. same_pfx p q || b) (same q))
            ∙ under_or (same_version p.address q.address) (same_pfx p q) (has_at pt q.address q),
      )

under_not : (s e h : Bool) → (if s then h && not e else h) ≡ (h && not (s && e))
under_not true e h = refl
under_not false e h = ground arith

-- tree_remove refines the removal from a set: the tree that it returns is well-formed, and its set has all
-- that it had but the prefix.
pub tree_remove-member :
    (pt : Tree) (p : Pfx)
    → IsValid pt
    → known p.address ≡ true
    → (left : Tree) × (tree_remove pt p ≡ some left)
      × IsValid left
      × ((q : Pfx) → member q left ≡ (member q pt && not (equal p q)))
unfolding tree_remove member equal
tree_remove-member pt p v k =
    let (head, at_head, t, same) = head-at pt p.address v k in
    let r = remove-IsRemoved head p (bits p) (t (bits p)) in
    let out = remove head p in
    let placed = set_head pt p.address out.tree in
    rw at_head (
      _,
      refl,
      heads-IsValid placed _ (count_down-SameHeads placed p.address out.counted)
          (set_head-IsValid pt v out.tree r.valid p.address),
      λ q.
          heads-has_at placed _ (count_down-SameHeads placed p.address out.counted) q.address q
          ∙ set_head-has_at pt p.address out.tree p q.address q (λ b. b && not (same_pfx p q)) k
              (r.entries q ∙ ap (λ b. b && not (same_pfx p q)) (same q))
          ∙ under_not (same_version p.address q.address) (same_pfx p q) (has_at pt q.address q),
    )
