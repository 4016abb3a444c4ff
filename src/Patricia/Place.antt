-- ===== src/Patricia/Place.antt =====
-- bgpstream_patricia_tree_insert beside a node, and above it.
use bgpstream.Base.{
  ℕ, ◌+◌, ◌≤◌, ◌<◌, ◌≡◌, ◌≢◌, inl, inr, refl, sym, ◌∙◌, Bool, true, false, ◌&&◌, not, Option, none,
  some, List, ◌∷◌, arith, ltb, if◌then◌else◌, Bool-cases,
}
use bgpstream.Addr.{Addr, Pfx}
use bgpstream.Patricia.{
  bit_at, Node, null, node, Frame, plug, zip_up, is_null, is_glue, maxbits, node_create,
}
use bgpstream.Patricia.Removal.{remove_leaf}
use bgpstream.Patricia.Bits.{Bits, Agree}
use bgpstream.Patricia.Valid.{
  bits, with_bit, IsTree, IsTree-cong, IsTree-le, same_pfx, is_entry, has, Agree-trans, Agree-sym,
}
use bgpstream.Patricia.Path.{
  IsPath, IsFrameHead, IsFrameHead-cong, plug-IsTree, has-zip_up, has-plug, with_bit-cong,
  with_bit-extends,
}
use bgpstream.Patricia.Descend.{NodeParts, child_of, IsFrameHead-left, IsFrameHead-right}
use bgpstream.Patricia.Entries.{absent_path, IsInserted, inserted}
use bgpstream.Patricia.Below.{place_below}
use bgpstream.Patricia.Undo.{
  has-null, undo_right, undo_left, undo_parent, inner_bit, inner_length, IsTree-maxbits, has_longer,
  parent_entry, other_bit,
}

module _ (pfx : Pfx) (t : Bits) (path : List Frame) (b : ℕ) (prefix : Option Pfx) (user : Option ℕ)
    (l r : Node) (tree : IsTree t b (node b prefix user l r)) (m : pfx.mask_len ≤ maxbits) where
  -- The node has no child on the side of the prefix.
  pub place_child :
      IsPath t b path
      → b < pfx.mask_len
      → Agree (bits pfx) t b
      → is_null (child_of pfx.address (node b prefix user l r)) ≡ true
      → IsInserted pfx (zip_up path (node b prefix user l r)) (record {
        loc = record {
          path =
              (if ltb b maxbits && bit_at pfx.address b
                then record { bit = b; prefix = prefix; user = user; right = true; other = l }
                else record { bit = b; prefix = prefix; user = user; right = false; other = r })
              ∷ path;
          here = node_create pfx;
        };
        counted = true;
      })
  unfolding child_of
  place_child h p g empty =
      let (_, _, (v, e, head, left, right)) : NodeParts t b b prefix l r = unfold IsTree in tree in
      let over : ltb b maxbits ≡ true = ground arith in
      let cong = Agree-trans v t (bits pfx) b e (Agree-sym (bits pfx) t b g) in
      elim (Bool-cases (bit_at pfx.address b)) [
        | inl one ↦
            let gone : is_null r ≡ true = rw (over, one) at empty in
            rw (over, one)
              (place_below pfx t path b prefix user true l _ h p m g (sym one)
                (IsTree-cong (with_bit v b false) (with_bit (bits pfx) b false) (b + 1) l
                  (with_bit-cong v (bits pfx) b false cong) left)
                (IsFrameHead-cong v t b prefix l e (IsFrameHead-left b v prefix l r head))
                (λ q.
                  has-zip_up q path (node b prefix user l r)
                  ∙ (unfold has in rw (has-null q r gone) (ground arith)))
                (undo_right v b prefix user l r path head gone))
        | inr nought ↦
            let gone : is_null l ≡ true = rw (over, nought) at empty in
            rw (over, nought)
              (place_below pfx t path b prefix user false r _ h p m g (sym nought)
                (IsTree-cong (with_bit v b true) (with_bit (bits pfx) b true) (b + 1) r
                  (with_bit-cong v (bits pfx) b true cong) right)
                (IsFrameHead-cong v t b prefix r e (IsFrameHead-right b v prefix l r head))
                (λ q.
                  has-zip_up q path (node b prefix user l r)
                  ∙ (unfold has in rw (has-null q l gone) (ground arith)))
                (undo_left v b prefix user l r path head gone))
      ]

  -- A new glue node takes the prefix on one side, and the node on the other.
  pub place_fork :
      (d : ℕ)
      → IsPath t d path
      → d < b
      → d < pfx.mask_len
      → Agree (bits pfx) t d
      → bits pfx d ≢ t d
      → IsInserted pfx (zip_up path (node b prefix user l r)) (record {
        loc = record {
          path =
              record {
                bit = d;
                prefix = none;
                user = none;
                right = ltb d maxbits && bit_at pfx.address d;
                other = node b prefix user l r;
              }
              ∷ path;
          here = node_create pfx;
        };
        counted = true;
      })
  place_fork d h under p g differs =
      let over : ltb d maxbits ≡ true = ground arith in
      rw over (
        place_below pfx t path d none none (bits pfx d) (node b prefix user l r) _ h p m g refl
          (IsTree-cong t (with_bit (bits pfx) d (not (bits pfx d))) (d + 1) (node b prefix user l r)
            (with_bit-extends t (bits pfx) d (not (bits pfx d)) (Agree-sym (bits pfx) t d g)
              (other_bit (t d) (bits pfx d) differs))
            (IsTree-le t (d + 1) b (node b prefix user l r) (omega arith) tree))
          (unfold IsFrameHead is_null in refl)
          (λ q. has-zip_up q path (node b prefix user l r) ∙ (unfold is_entry in ground arith))
          (unfold remove_leaf is_glue in refl))

  parent_side :
      (c : Bool)
      → c ≡ t pfx.mask_len
      → IsPath t pfx.mask_len path
      → pfx.mask_len < b
      → Agree (bits pfx) t pfx.mask_len
      → IsInserted pfx (zip_up path (node b prefix user l r)) (record {
        loc = record {
          path = path;
          here =
              plug
                (record {
                  bit = pfx.mask_len;
                  prefix = some (record pfx { allowed_matches = 0 });
                  user = none;
                  right = c;
                  other = null;
                })
                (node b prefix user l r);
        };
        counted = true;
      })
  parent_side c turn h p g =
      let f : Frame = record {
        bit = pfx.mask_len;
        prefix = some (record pfx { allowed_matches = 0 });
        user = none;
        right = c;
        other = null;
      } in
      let here = node b prefix user l r in
      let (new, there) =
        plug-IsTree t b f path here
          (unfold IsPath IsFrameHead IsTree in
            (
              p,
              inner_bit pfx.mask_len b p (IsTree-maxbits t b b prefix user l r tree),
              turn,
              tt,
              (refl, g),
              h,
            ))
          tree (unfold is_null in refl) in
      let absent = has_longer pfx t b here tree p in
      inserted pfx (zip_up path here) t pfx.mask_len path (plug f here) true h new there
        (λ q.
          rw (has-zip_up q path here, has-plug q pfx.mask_len f.prefix none c null here)
            (unfold has is_entry same_pfx in ground arith))
        (parent_entry pfx c here)
        (rw
          (has-zip_up pfx path here, absent, absent_path pfx t pfx.mask_len path h (omega arith) g)
          refl)
        (λ clear e. undo_parent pfx path c b prefix user l r)

  -- The prefix becomes the parent of the node.
  pub place_parent :
      (test : Addr)
      → bit_at test pfx.mask_len ≡ t pfx.mask_len
      → IsPath t pfx.mask_len path
      → pfx.mask_len < b
      → Agree (bits pfx) t pfx.mask_len
      → IsInserted pfx (zip_up path (node b prefix user l r)) (record {
        loc = record {
          path = path;
          here =
              (if ltb pfx.mask_len maxbits && bit_at test pfx.mask_len
                then plug
                    (record {
                      bit = pfx.mask_len;
                      prefix = some (record pfx { allowed_matches = 0 });
                      user = none;
                      right = true;
                      other = null;
                    })
                    (node b prefix user l r)
                else plug
                    (record {
                      bit = pfx.mask_len;
                      prefix = some (record pfx { allowed_matches = 0 });
                      user = none;
                      right = false;
                      other = null;
                    })
                    (node b prefix user l r));
        };
        counted = true;
      })
  place_parent test turn h p g =
      let over : ltb pfx.mask_len maxbits ≡ true =
        inner_length pfx.mask_len b p (IsTree-maxbits t b b prefix user l r tree) in
      elim (Bool-cases (bit_at test pfx.mask_len)) [
        | inl one ↦ rw (over, one) (parent_side true (sym one ∙ turn) h p g)
        | inr nought ↦ rw (over, nought) (parent_side false (sym nought ∙ turn) h p g)
      ]
