-- ===== src/Patricia/Valid.antt =====
-- The well-formed trees of prefixes: the bits that lead to a node are those of the prefixes below it.
use bgpstream.Base.{
  ℕ, ◌+◌, ◌≤◌, ◌≡◌, inl, inr, sym, ◌∙◌, Bool, true, false, ◌&&◌, ◌||◌, Option, none, some, arith,
  ◌==◌, if◌then◌else◌, Bool-cases,
}
use bgpstream.Addr.{Pfx}
use bgpstream.Patricia.{bit_at, comp_with_mask, Node, null, node, is_null, maxbits}
use bgpstream.Patricia.Bits.{Bits, Agree, comp_with_mask_iff}

abbrev pub bits : Pfx → Bits
bits pfx = bit_at pfx.address

-- v with bit b set.
unfoldable pub with_bit : Bits → ℕ → Bool → Bits
with_bit v b c i = if i == b then c else v i

pub with_bit-same : (v : Bits) (b : ℕ) (c : Bool) → with_bit v b c b ≡ c
unfolding with_bit
with_bit-same v b c = ground arith

pub with_bit-Agree : (v : Bits) (b : ℕ) (c : Bool) → Agree (with_bit v b c) v b
unfolding with_bit
with_bit-Agree v b c i p = ground arith

-- The prefix of a node with bit b whose path has the bits of v: a glue node has both children.
unfoldable pub IsHead : Bits → ℕ → Option Pfx → Node → Node → Type 0
IsHead v b none l r = (is_null l ≡ false) × (is_null r ≡ false)
IsHead v b (some pfx) l r = (pfx.mask_len ≡ b) × Agree (bits pfx) v b

-- A tree whose prefixes have the first d bits of w, and are longer than that or as long.
unfoldable pub IsTree : Bits → ℕ → Node → Type 0
IsTree w d null = Unit
IsTree w d (node b prefix user l r) =
    (d ≤ b)
    × (b ≤ maxbits)
    × ((v : Bits) × Agree v w d
        × IsHead v b prefix l r
        × IsTree (with_bit v b false) (b + 1) l
        × IsTree (with_bit v b true) (b + 1) r)

-- The same prefix: the same length, and the same bits up to it.
unfoldable pub same_pfx : Pfx → Pfx → Bool
same_pfx p q = p.mask_len == q.mask_len && comp_with_mask p.address q.address q.mask_len

unfoldable pub is_entry : Pfx → Option Pfx → Bool
is_entry q none = false
is_entry q (some pfx) = same_pfx pfx q

-- Whether a prefix is in a tree, by a look at all its nodes.
unfoldable pub has : Pfx → Node → Bool
has q null = false
has q (node b prefix user l r) = is_entry q prefix || (has q l || has q r)

pub Agree-le : (v w : Bits) (m n : ℕ) → m ≤ n → Agree v w n → Agree v w m
Agree-le v w m n p h i q = h i (omega arith)

pub Agree-trans : (u v w : Bits) (n : ℕ) → Agree u v n → Agree v w n → Agree u w n
Agree-trans u v w n g h i p = g i p ∙ h i p

pub Agree-sym : (v w : Bits) (n : ℕ) → Agree v w n → Agree w v n
Agree-sym v w n h i p = sym (h i p)

pub IsTree-cong : (v w : Bits) (d : ℕ) (n : Node) → Agree v w d → IsTree v d n → IsTree w d n
unfolding IsTree
IsTree-cong v w d null h t = tt
IsTree-cong v w d (node b prefix user l r) h (p, m, (u, g, head, left, right)) =
    (p, m, (u, Agree-trans u v w d g h, head, left, right))

pub IsTree-le : (v : Bits) (d e : ℕ) (n : Node) → d ≤ e → IsTree v e n → IsTree v d n
unfolding IsTree
IsTree-le v d e null q t = tt
IsTree-le v d e (node b prefix user l r) q (p, m, (u, g, head, left, right)) =
    (omega arith, m, (u, Agree-le u v d e q g, head, left, right))

pub same_pfx-parts :
    (p q : Pfx)
    → same_pfx p q ≡ true
    → (p.mask_len ≡ q.mask_len) × Agree (bits p) (bits q) q.mask_len
unfolding same_pfx
same_pfx-parts p q e =
    (ground arith, (comp_with_mask_iff p.address q.address q.mask_len).0 (ground arith))

-- The bits of a prefix that stands at a node, and of one that is below it on a side.
pub is_entry-bits :
    (q : Pfx) (v : Bits) (b : ℕ) (prefix : Option Pfx) (l r : Node)
    → IsHead v b prefix l r
    → is_entry q prefix ≡ true
    → (q.mask_len ≡ b) × Agree (bits q) v b
unfolding IsHead is_entry
is_entry-bits q v b none l r h e = absurd (cc e)
is_entry-bits q v b (some pfx) l r (same, agree) e =
    let (len, equal) = same_pfx-parts pfx q e in
    (sym len ∙ same, λ i p. sym (equal i (omega (arith, len, same))) ∙ agree i p)

pub below-bits :
    (q : Pfx) (v : Bits) (b : ℕ) (c : Bool)
    → Agree (bits q) (with_bit v b c) (b + 1)
    → (bits q b ≡ c) × Agree (bits q) v b
below-bits q v b c h =
    (h b (omega arith) ∙ with_bit-same v b c, λ i p. h i (omega arith) ∙ with_bit-Agree v b c i p)

-- A prefix in a tree has its bits and is not shorter.
pub has-IsTree :
    (q : Pfx) (w : Bits) (d : ℕ) (n : Node)
    → IsTree w d n
    → has q n ≡ true
    → (d ≤ q.mask_len) × Agree (bits q) w d
unfolding IsTree has
has-IsTree q w d null t e = absurd (cc e)
has-IsTree q w d (node b prefix user l r) (p, m, (v, g, head, left, right)) e =
    elim (Bool-cases (is_entry q prefix)) [
      | inl here ↦
          let (len, agree) = is_entry-bits q v b prefix l r head here in
          (omega arith, Agree-trans (bits q) v w d (Agree-le (bits q) v d b p agree) g)
      | inr past ↦ elim (Bool-cases (has q l)) [
        | inl on_left ↦
            let (len, agree) = has-IsTree q (with_bit v b false) (b + 1) l left on_left in
            let (_, rest) = below-bits q v b false agree in
            (omega arith, Agree-trans (bits q) v w d (Agree-le (bits q) v d b p rest) g)
        | inr not_left ↦
            let on_right : has q r ≡ true = rw (past, not_left) at e in
            let (len, agree) = has-IsTree q (with_bit v b true) (b + 1) r right on_right in
            let (_, rest) = below-bits q v b true agree in
            (omega arith, Agree-trans (bits q) v w d (Agree-le (bits q) v d b p rest) g)
      ]
    ]
