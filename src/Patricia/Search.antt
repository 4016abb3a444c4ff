-- ===== src/Patricia/Search.antt =====
-- bgpstream_patricia_tree_search_exact finds what a look at all nodes finds.
use bgpstream.Base.{
  ℕ, ◌+◌, ◌≤◌, ◌<◌, ◌≡◌, ◌≢◌, inl, inr, refl, sym, ◌∙◌, Bool, true, false, not, Option, none, some,
  List, [], ◌∷◌, arith, ltb, ◌==◌, if◌then◌else◌, Bool-cases,
}
use bgpstream.Addr.{Pfx}
use bgpstream.Patricia.{
  bit_at, comp_with_mask, Node, null, node, Frame, Loc, plug, zip_up, root, search_from,
  search_exact,
}
use bgpstream.Patricia.Bits.{Bits}
use bgpstream.Patricia.Valid.{
  bits, with_bit, IsHead, IsTree, same_pfx, is_entry, is_entry-bits, below-bits, has, has-IsTree,
}

unfoldable pub prefix_of : Node → Option Pfx
prefix_of null = none
prefix_of (node b prefix user l r) = prefix

pub not-ne : (c : Bool) → not c ≢ c
not-ne c e = ground arith

-- A prefix that is too short, or has the other bit, is not below a node.
module _ (q : Pfx) (v : Bits) (b : ℕ) (c : Bool) (n : Node)
    (t : IsTree (with_bit v b c) (b + 1) n) where
  pub absent_short : q.mask_len ≤ b → has q n ≡ false
  absent_short p = elim (Bool-cases (has q n)) [
    | inl there ↦ absurd (omega (arith, (has-IsTree q (with_bit v b c) (b + 1) n t there).0))
    | inr absent ↦ absent
  ]

  pub absent_other : bits q b ≡ not c → has q n ≡ false
  absent_other e = elim (Bool-cases (has q n)) [
    | inl there ↦
        let (agree, _) = below-bits q v b c (has-IsTree q (with_bit v b c) (b + 1) n t there).1 in
        absurd (not-ne c (sym e ∙ agree))
    | inr absent ↦ absent
  ]

-- A prefix that has another length is not the one of a node.
pub absent_entry :
    (q : Pfx) (v : Bits) (b : ℕ) (prefix : Option Pfx) (l r : Node)
    → IsHead v b prefix l r
    → q.mask_len ≢ b
    → is_entry q prefix ≡ false
absent_entry q v b prefix l r h ne = elim (Bool-cases (is_entry q prefix)) [
  | inl here ↦ absurd (ne (is_entry-bits q v b prefix l r h here).0)
  | inr absent ↦ absent
]

-- What a search comes to in the tree of a path and a node.
pub data Searched (pfx : Pfx) (path : List Frame) (n : Node) (result : Option Loc) : Type 0 where
  missing : has pfx n ≡ false → result ≡ none → Searched pfx path n result
  found :
      has pfx n ≡ true
      → (loc : Loc) → result ≡ some loc
      → root loc ≡ zip_up path n
      → is_entry pfx (prefix_of loc.here) ≡ true
      → Searched pfx path n result

module _ (pfx : Pfx) (path : List Frame) (b : ℕ) (prefix : Option Pfx) (user : Option ℕ)
    (l r : Node) (v : Bits) (h : IsHead v b prefix l r)
    (left : IsTree (with_bit v b false) (b + 1) l) (right : IsTree (with_bit v b true) (b + 1) r)
    (result : Option Loc) where
  go_right :
      b < pfx.mask_len
      → bits pfx b ≡ true
      → Searched pfx
          (record { bit = b; prefix = prefix; user = user; right = true; other = l } ∷ path)
          r
          result
      → Searched pfx path (node b prefix user l r) result
  unfolding has zip_up plug
  go_right p e s =
      let no_entry = absent_entry pfx v b prefix l r h (λ same. omega arith) in
      let not_left = absent_other pfx v b false l left e in
      elim s [
        | missing absent none_found ↦ missing (rw (no_entry, not_left) absent) none_found
        | found there loc e same entry ↦ found (rw (no_entry, not_left) there) loc e same entry
      ]

  go_left :
      b < pfx.mask_len
      → bits pfx b ≡ false
      → Searched pfx
          (record { bit = b; prefix = prefix; user = user; right = false; other = r } ∷ path)
          l
          result
      → Searched pfx path (node b prefix user l r) result
  unfolding has zip_up plug
  go_left p e s =
      let no_entry = absent_entry pfx v b prefix l r h (λ same. omega arith) in
      let not_right = absent_other pfx v b true r right e in
      elim s [
        | missing absent none_found ↦ missing (rw (no_entry, not_right, absent) refl) none_found
        | found there loc e same entry ↦
            found (rw (no_entry, not_right, there) refl) loc e same entry
      ]

-- At a node with a bit that is not below the length, the search ends.
module _ (pfx : Pfx) (path : List Frame) (b : ℕ) (user : Option ℕ) (l r : Node) (v : Bits)
    (left : IsTree (with_bit v b false) (b + 1) l) (right : IsTree (with_bit v b true) (b + 1) r)
    (p : pfx.mask_len ≤ b) where
  ends_glue : Searched pfx path (node b none user l r) none
  unfolding has is_entry
  ends_glue =
      missing (rw (absent_short pfx v b false l left p, absent_short pfx v b true r right p) refl)
        refl

  ends_prefix :
      (q : Pfx)
      → IsHead v b (some q) l r
      → Searched pfx path (node b (some q) user l r) (
          if ltb pfx.mask_len b
          then none
          else if comp_with_mask q.address pfx.address pfx.mask_len
          then some (record { path = path; here = node b (some q) user l r })
          else none)
  unfolding has is_entry IsHead same_pfx root prefix_of
  ends_prefix q (len, agree) =
      let not_left = absent_short pfx v b false l left p in
      let not_right = absent_short pfx v b true r right p in
      elim (Bool-cases (ltb pfx.mask_len b)) [
        | inl over ↦
            let other : (q.mask_len == pfx.mask_len) ≡ false = ground arith in
            rw over (missing (rw (other, not_left, not_right) refl) refl)
        | inr exact ↦
            let equal : (q.mask_len == pfx.mask_len) ≡ true = ground arith in
            elim (Bool-cases (comp_with_mask q.address pfx.address pfx.mask_len)) [
              | inl same ↦
                  rw (exact, same)
                    (found (rw (equal, same) refl)
                      (record { path = path; here = node b (some q) user l r }) refl refl
                      (rw (equal, same) refl))
              | inr differs ↦
                  rw (exact, differs) (missing (rw (equal, differs, not_left, not_right) refl) refl)
            ]
      ]

ends_at :
    (pfx : Pfx) (path : List Frame) (b : ℕ) (prefix : Option Pfx) (user : Option ℕ) (l r : Node)
    (v : Bits)
    → IsHead v b prefix l r
    → IsTree (with_bit v b false) (b + 1) l
    → IsTree (with_bit v b true) (b + 1) r
    → pfx.mask_len ≤ b
    → Searched pfx path (node b prefix user l r) (elim prefix [
      | none ↦ none
      | some q ↦
          if ltb pfx.mask_len b
          then none
          else if comp_with_mask q.address pfx.address pfx.mask_len
          then some (record { path = path; here = node b (some q) user l r })
          else none
    ])
ends_at pfx path b none user l r v h left right p = ends_glue pfx path b user l r v left right p
ends_at pfx path b (some q) user l r v h left right p =
    ends_prefix pfx path b user l r v left right p q h

search_from-Searched :
    (pfx : Pfx) (path : List Frame) (n : Node) (w : Bits) (d : ℕ)
    → IsTree w d n
    → Searched pfx path n (search_from pfx path n)
unfolding search_from IsTree
search_from-Searched pfx path null w d t = missing (unfold has in refl) refl
search_from-Searched pfx path (node b prefix user l r) w d (p, m, (v, g, head, left, right)) =
    let on_left =
      search_from-Searched pfx
        (record { bit = b; prefix = prefix; user = user; right = false; other = r } ∷ path) l
        (with_bit v b false) (b + 1) left in
    let on_right =
      search_from-Searched pfx
        (record { bit = b; prefix = prefix; user = user; right = true; other = l } ∷ path) r
        (with_bit v b true) (b + 1) right in
    elim (Bool-cases (ltb b pfx.mask_len)) [
      | inl below ↦ elim (Bool-cases (bit_at pfx.address b)) [
        | inl one ↦
            rw (below, one)
              (go_right pfx path b prefix user l r v head left right _ (ground arith) one on_right)
        | inr zero_bit ↦
            rw (below, zero_bit)
              (go_left pfx path b prefix user l r v head left right _ (ground arith) zero_bit
                on_left)
      ]
      | inr ends ↦ rw ends (ends_at pfx path b prefix user l r v head left right (ground arith))
    ]

-- In a well-formed tree search_exact returns a node exactly when some node of the tree has the prefix;
-- the node is in the tree, and has the prefix.
pub search_exact-Searched :
    (head : Node) (pfx : Pfx) (w : Bits)
    → IsTree w 0 head
    → Searched pfx [] head (search_exact head pfx)
unfolding search_exact
search_exact-Searched head pfx w t = search_from-Searched pfx [] head w 0 t
