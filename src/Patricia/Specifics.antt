-- ===== src/Patricia/Specifics.antt =====
-- The prefixes that get_less_specifics and get_more_specifics return.
use bgpstream.Base.{
  ℕ, ◌+◌, ◌≤◌, ◌≡◌, inl, inr, refl, sym, ap, ◌∙◌, Bool, true, false, ◌&&◌, ◌||◌, not, Option, some,
  List, [], ◌∷◌, arith, Bool-cases,
}
use bgpstream.Addr.{Pfx}
use bgpstream.Patricia.{Node, node, Frame, zip_up, is_null, maxbits}
use bgpstream.Patricia.Results.{ResultSet, clear, get_more_specifics, get_less_specifics}
use bgpstream.Patricia.Bits.{Bits, Agree}
use bgpstream.Patricia.Valid.{
  bits, with_bit, IsHead, IsTree, is_entry, below-bits, has, has-IsTree, Agree-le, Agree-trans,
}
use bgpstream.Patricia.Search.{absent_short, absent_entry}
use bgpstream.Patricia.Path.{IsPath, has_path, has-zip_up}
use bgpstream.Patricia.Locate.{zip_up-IsPlace}
use bgpstream.Patricia.Descend.{NodeParts}
use bgpstream.Patricia.Entries.{absent_path, not-not}
use bgpstream.Patricia.Covers.{
  covers, returns, add_more_specifics-returns, on_path, add_less_specifics-returns, covers_intro,
  covers_parts, frame_covers, other_covers,
}

module _ (p : Pfx) (v : Bits) where
  pub on_path-covers :
      (q : Pfx) (d : ℕ) (path : List Frame)
      → IsPath v d path
      → d ≤ p.mask_len
      → Agree (bits p) v d
      → on_path q path ≡ (has_path q path && covers q p)
  unfolding on_path has_path IsPath
  on_path-covers q d [] h m g = refl
  on_path-covers q d (f ∷ path) (under, top, turn, other, head, rest) m g =
      let below =
        on_path-covers q f.bit path rest (omega arith)
          (Agree-le (bits p) v f.bit d (omega arith) g) in
      elim (Bool-cases (is_entry q f.prefix)) [
        | inl own ↦
            rw
              (
                own,
                frame_covers q p v f.bit f.prefix f.other head own (omega arith)
                    (Agree-le (bits p) v f.bit d (omega arith) g),
              )
              refl
        | inr past ↦ elim (Bool-cases (has q f.other)) [
          | inr absent ↦ rw (past, absent) below
          | inl there ↦
              rw
                (
                  past,
                  there,
                  below,
                  other_covers q p v f.bit (not f.right) f.other other there
                      (g f.bit under ∙ sym turn ∙ not-not f.right),
                )
                (ground arith)
        ]
      ]

guarded : (c x y : Bool) → (c ≡ true → x ≡ false) → (y && c) ≡ ((x || y) && c)
guarded true x y h = rw (h refl) refl
guarded false x y h = ground arith

below_only :
    (c e x y : Bool)
    → (x ≡ true → c ≡ true)
    → (c ≡ true → (e ≡ false) × (y ≡ false))
    → x ≡ (((e || x) || y) && c)
below_only true e x y h k = rw ((k refl).0, (k refl).1) (ground arith)
below_only false e true y h k = absurd (cc (h refl))
below_only false e false y h k = ground arith

-- A prefix below a node is covered by the node's.
pub side_covers :
    (q p : Pfx) (v : Bits) (b : ℕ) (c : Bool) (n : Node)
    → IsTree (with_bit v b c) (b + 1) n
    → p.mask_len ≡ b
    → Agree (bits p) v b
    → has q n ≡ true
    → covers p q ≡ true
side_covers q p v b c n t len agree there =
    let (deep, own) = has-IsTree q (with_bit v b c) (b + 1) n t there in
    let (_, same) = below-bits q v b c own in
    covers_intro p q (omega (arith, deep, len))
      (λ i y. agree i (omega (arith, len)) ∙ sym (same i (omega (arith, len))))

-- Around a node with a prefix, in a well-formed tree.
module _ (path : List Frame) (b : ℕ) (p : Pfx) (user : Option ℕ) (l r : Node) (w : Bits)
    (t : IsTree w 0 (zip_up path (node b (some p) user l r))) where
  -- The ancestors' prefixes are those of the tree that are shorter and cover the node's.
  pub on_path-has :
      (q : Pfx) → on_path q path ≡ (has q (zip_up path (node b (some p) user l r)) && covers q p)
  on_path-has q =
      let (v, d, h, u) =
        zip_up-IsPlace path (node b (some p) user l r) w (unfold is_null in refl) t in
      let (low, top, (x, g, head, left, right)) : NodeParts v d b (some p) l r =
        unfold IsTree in u in
      let (len, agree) : (p.mask_len ≡ b) × Agree (bits p) x b = unfold IsHead in head in
      let above : on_path q path ≡ (has_path q path && covers q p) =
        on_path-covers p v q d path h (omega (arith, len))
          (Agree-trans (bits p) x v d (Agree-le (bits p) x d b low agree) g) in
      let here : covers q p ≡ true → has q (node b (some p) user l r) ≡ false = λ e.
        unfold has in
        let short = (covers_parts q p e).0 in
        rw
          (
            absent_entry q x b (some p) l r head (λ same. omega (arith, same, short, len)),
            absent_short q x b false l left (omega (arith, short, len)),
            absent_short q x b true r right (omega (arith, short, len)),
          )
          refl in
      rw (above, has-zip_up q path (node b (some p) user l r))
        (guarded (covers q p) (has q (node b (some p) user l r)) (has_path q path) here)

  -- The prefixes below the node are those of the tree that the node's covers.
  pub below-has :
      (q : Pfx)
      → (has q l || has q r) ≡ (has q (zip_up path (node b (some p) user l r)) && covers p q)
  below-has q =
      let (v, d, h, u) =
        zip_up-IsPlace path (node b (some p) user l r) w (unfold is_null in refl) t in
      let (low, top, (x, g, head, left, right)) : NodeParts v d b (some p) l r =
        unfold IsTree in u in
      let (len, agree) : (p.mask_len ≡ b) × Agree (bits p) x b = unfold IsHead in head in
      let inside : (has q l || has q r) ≡ true → covers p q ≡ true = λ e.
        elim (Bool-cases (has q l)) [
          | inl on_left ↦ side_covers q p x b false l left len agree on_left
          | inr past ↦ side_covers q p x b true r right len agree (rw past at e)
        ] in
      let outside : covers p q ≡ true → (is_entry q (some p) ≡ false) × (has_path q path ≡ false) =
        λ e.
          let (long, same) = covers_parts p q e in
          (
            absent_entry q x b (some p) l r head (λ y. omega (arith, y, long, len)),
            absent_path q v d path h (omega (arith, long, len))
                (λ i y. sym (same i (omega (arith, len))) ∙ agree i (omega arith) ∙ g i y),
          ) in
      rw (has-zip_up q path (node b (some p) user l r)) (
        unfold has in
        below_only (covers p q) (is_entry q (some p)) (has q l || has q r) (has_path q path) inside
          outside)

  -- In a well-formed tree get_less_specifics returns the prefixes that are shorter than the node's and
  -- cover it, and no others.
  pub get_less_specifics-returns :
      (results : ResultSet) (q : Pfx)
      → returns q
          (get_less_specifics
            (record { path = path; here = node b (some p) user l r })
            results).result_nodes
        ≡ (has q (zip_up path (node b (some p) user l r)) && covers q p)
  unfolding get_less_specifics
  get_less_specifics-returns results q =
      let (v, d, h, u) =
        zip_up-IsPlace path (node b (some p) user l r) w (unfold is_null in refl) t in
      let (low, top, rest) : NodeParts v d b (some p) l r = unfold IsTree in u in
      let listed : returns q
            (get_less_specifics (record { path = path; here = node b (some p) user l r })
              results).result_nodes
          ≡ on_path q path =
        add_less_specifics-returns q (clear results) path _ (maxbits + 1) v d h (omega arith)
        ∙ (unfold clear returns in refl) in
      listed ∙ on_path-has q

  -- In a well-formed tree get_more_specifics returns the prefixes that the node's covers, and no others.
  pub get_more_specifics-returns :
      (results : ResultSet) (q : Pfx)
      → returns q
          (get_more_specifics
            (record { path = path; here = node b (some p) user l r })
            results).result_nodes
        ≡ (has q (zip_up path (node b (some p) user l r)) && covers p q)
  unfolding get_more_specifics
  get_more_specifics-returns results q =
      let (v, d, h, u) =
        zip_up-IsPlace path (node b (some p) user l r) w (unfold is_null in refl) t in
      let (low, top, (x, g, head, left, right)) : NodeParts v d b (some p) l r =
        unfold IsTree in u in
      let listed : returns q
            (get_more_specifics (record { path = path; here = node b (some p) user l r })
              results).result_nodes
          ≡ (has q l || has q r) =
        add_more_specifics-returns q r _ _ (maxbits + 1) (with_bit x b true) (b + 1) right
          (omega arith)
        ∙ ap (λ y. y || has q r)
            (add_more_specifics-returns q l (clear results) _ (maxbits + 1) (with_bit x b false)
              (b + 1) left (omega arith))
        ∙ (unfold clear returns in refl) in
      listed ∙ below-has q
