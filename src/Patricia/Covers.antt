-- ===== src/Patricia/Covers.antt =====
-- The prefixes that add_less_specifics and add_more_specifics add.
use bgpstream.Base.{
  ℕ, zero, suc, ◌+◌, ◌≤◌, ◌<◌, ◌≡◌, inl, inr, refl, sym, ap, ◌∙◌, Bool, true, false, ◌&&◌, ◌||◌,
  not, Option, none, some, List, [], ◌∷◌, ◌++◌, arith, ltb, Bool-cases, Option-cases,
}
use bgpstream.Addr.{Pfx}
use bgpstream.Patricia.{comp_with_mask, Node, null, node, Frame, Loc, plug, is_glue, maxbits}
use bgpstream.Patricia.Results.{ResultSet, add_node, add_more_specifics, add_less_specifics}
use bgpstream.Patricia.Bits.{Bits, Agree, comp_with_mask_iff}
use bgpstream.Patricia.Valid.{
  bits, with_bit, IsHead, IsTree, is_entry, is_entry-bits, below-bits, has, has-IsTree,
}
use bgpstream.Patricia.Search.{prefix_of, not-ne}
use bgpstream.Patricia.Path.{IsPath, IsFrameHead}
use bgpstream.Patricia.Descend.{NodeParts}

-- q is a less specific prefix than p.
unfoldable pub covers : Pfx → Pfx → Bool
covers q p = ltb q.mask_len p.mask_len && comp_with_mask q.address p.address q.mask_len

-- Whether a prefix is among the nodes of a result set.
unfoldable pub returns : Pfx → List Loc → Bool
returns q [] = false
returns q (loc ∷ nodes) = is_entry q (prefix_of loc.here) || returns q nodes

pub returns_append :
    (q : Pfx) (xs ys : List Loc) → returns q (xs ++ ys) ≡ (returns q xs || returns q ys)
unfolding returns
returns_append q [] ys = refl
returns_append q (x ∷ xs) ys = rw (returns_append q xs ys) (ground arith)

returns-add_node :
    (q : Pfx) (set : ResultSet) (loc : Loc)
    → returns q (add_node set loc).result_nodes
      ≡ (returns q set.result_nodes || is_entry q (prefix_of loc.here))
unfolding add_node
returns-add_node q set loc =
    returns_append q set.result_nodes (loc ∷ []) ∙ (unfold returns in ground arith)

-- With a depth that is enough, add_more_specifics adds all prefixes of a subtree.
pub add_more_specifics-returns :
    (q : Pfx) (n : Node) (set : ResultSet) (path : List Frame) (depth : ℕ) (w : Bits) (d : ℕ)
    → IsTree w d n
    → maxbits < d + depth
    → returns q (add_more_specifics set path n depth).result_nodes
      ≡ (returns q set.result_nodes || has q n)
unfolding add_more_specifics has is_glue
add_more_specifics-returns q null set path depth w d t m = ground arith
add_more_specifics-returns q (node b prefix user l r) set path zero w d t m =
    unfold IsTree in absurd (omega (arith, t.0, t.1))
add_more_specifics-returns q (node b none user l r) set path (suc depth) w d t m =
    let (p, top, (v, g, head, left, right)) : NodeParts w d b none l r = unfold IsTree in t in
    add_more_specifics-returns q r _ _ (suc depth) (with_bit v b true) (b + 1) right (omega arith)
    ∙ ap (λ x. x || has q r)
        (add_more_specifics-returns q l set _ (suc depth) (with_bit v b false) (b + 1) left
          (omega arith))
    ∙ (unfold is_entry in ground arith)
add_more_specifics-returns q (node b (some pfx) user l r) set path (suc depth) w d t m =
    let (p, top, (v, g, head, left, right)) : NodeParts w d b (some pfx) l r = unfold IsTree in t in
    let own : Loc = record { path = path; here = node b (some pfx) user l r } in
    add_more_specifics-returns q r _ _ depth (with_bit v b true) (b + 1) right (omega arith)
    ∙ ap (λ x. x || has q r)
        (add_more_specifics-returns q l _ _ depth (with_bit v b false) (b + 1) left (omega arith)
          ∙ ap (λ x. x || has q l) (returns-add_node q set own))
    ∙ (unfold prefix_of in ground arith)

-- The prefixes of the ancestors.
unfoldable pub on_path : Pfx → List Frame → Bool
on_path q [] = false
on_path q (f ∷ path) = is_entry q f.prefix || on_path q path

pub has_plugged :
    (b : ℕ) (prefix : Option Pfx) (user : Option ℕ) (right : Bool) (other n : Node)
    → prefix_of
        (plug (record { bit = b; prefix = prefix; user = user; right = right; other = other }) n)
      ≡ prefix
unfolding plug prefix_of
has_plugged b prefix user true other n = refl
has_plugged b prefix user false other n = refl

pub add_less_specifics-returns :
    (q : Pfx) (set : ResultSet) (path : List Frame) (n : Node) (depth : ℕ) (v : Bits) (d : ℕ)
    → IsPath v d path
    → d ≤ depth
    → returns q (add_less_specifics set path n depth).result_nodes
      ≡ (returns q set.result_nodes || on_path q path)
unfolding add_less_specifics on_path IsPath is_glue
add_less_specifics-returns q set [] n depth v d h m = ground arith
add_less_specifics-returns q set (f ∷ path) n zero v d h m = absurd (omega (arith, h.0))
add_less_specifics-returns q set (f ∷ path) n (suc depth) v d (p, top, turn, other, head, rest) m =
    elim (Option-cases f.prefix) [
      | inl glue ↦
          let flag : is_glue f.prefix ≡ true = ap is_glue glue in
          let absent : is_entry q f.prefix ≡ false = unfold is_entry in ap (is_entry q) glue in
          rw (flag, absent)
            (add_less_specifics-returns q set path (plug f n) (suc depth) v f.bit rest
              (omega arith))
      | inr (pfx, e) ↦
          let flag : is_glue f.prefix ≡ false = ap is_glue e in
          let own : Loc = record { path = path; here = plug f n } in
          rw flag (
            add_less_specifics-returns q (add_node set own) path (plug f n) depth v f.bit rest
              (omega arith)
            ∙ ap (λ x. x || on_path q path)
                (returns-add_node q set own
                  ∙ ap (λ x. returns q set.result_nodes || is_entry q x)
                      (has_plugged f.bit f.prefix f.user f.right f.other n))
            ∙ ground arith)
    ]

pub covers_intro :
    (q p : Pfx) → q.mask_len < p.mask_len → Agree (bits q) (bits p) q.mask_len → covers q p ≡ true
unfolding covers
covers_intro q p m g =
    let low : ltb q.mask_len p.mask_len ≡ true = ground arith in
    rw (low, (comp_with_mask_iff q.address p.address q.mask_len).1 g) refl

pub covers_parts :
    (q p : Pfx) → covers q p ≡ true → (q.mask_len < p.mask_len) × Agree (bits q) (bits p) q.mask_len
unfolding covers
covers_parts q p e =
    (ground arith, (comp_with_mask_iff q.address p.address q.mask_len).0 (ground arith))

-- The prefix of an ancestor covers those below it; one on the other side does not.
pub frame_covers :
    (q p : Pfx) (v : Bits) (b : ℕ) (prefix : Option Pfx) (other : Node)
    → IsFrameHead v b prefix other
    → is_entry q prefix ≡ true
    → b < p.mask_len
    → Agree (bits p) v b
    → covers q p ≡ true
unfolding IsFrameHead
frame_covers q p v b none other h e m g = absurd (unfold is_entry in cc e)
frame_covers q p v b (some pfx) other h e m g =
    let (len, agree) = is_entry-bits q v b (some pfx) null null (unfold IsHead in h) e in
    covers_intro q p (omega (arith, len))
      (λ i x. agree i (omega (arith, len)) ∙ sym (g i (omega (arith, len))))

pub other_covers :
    (q p : Pfx) (v : Bits) (b : ℕ) (c : Bool) (n : Node)
    → IsTree (with_bit v b c) (b + 1) n
    → has q n ≡ true
    → bits p b ≡ not c
    → covers q p ≡ false
other_covers q p v b c n t there e = elim (Bool-cases (covers q p)) [
  | inr apart ↦ apart
  | inl over ↦
      let (len, agree) = covers_parts q p over in
      let (deep, own) = has-IsTree q (with_bit v b c) (b + 1) n t there in
      let (same, _) = below-bits q v b c own in
      absurd (not-ne c (sym e ∙ sym (agree b (omega (arith, deep))) ∙ same))
]
