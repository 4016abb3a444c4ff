-- ===== src/Patricia/Undo.antt =====
-- The removal of a node that is new.
use bgpstream.Base.{
  ℕ, ◌≤◌, ◌<◌, ◌≡◌, ◌≢◌, inl, inr, refl, Bool, true, false, not, Option, none, some, List, ◌∷◌,
  arith, ltb, Bool-cases, Option-cases,
}
use bgpstream.Addr.{Pfx}
use bgpstream.Patricia.{Node, null, node, Frame, plug, zip_up, is_null, is_glue, maxbits}
use bgpstream.Patricia.Removal.{remove_node, remove_leaf}
use bgpstream.Patricia.Bits.{Bits}
use bgpstream.Patricia.Valid.{IsHead, IsTree, same_pfx, is_entry, has, has-IsTree}
use bgpstream.Patricia.Search.{prefix_of}
use bgpstream.Patricia.Entries.{same_pfx_refl}
use bgpstream.Patricia.Below.{is_null-null}

pub has-null : (q : Pfx) (n : Node) → is_null n ≡ true → has q n ≡ false
unfolding has is_null
has-null q null e = refl
has-null q (node b prefix user l r) e = absurd (cc e)

-- A child that goes again.
module _ (v : Bits) (b : ℕ) (prefix : Option Pfx) (user : Option ℕ) (l r : Node)
    (path : List Frame) where
  pub undo_right :
      IsHead v b prefix l r
      → is_null r ≡ true
      → remove_leaf
          (record { bit = b; prefix = prefix; user = user; right = true; other = l } ∷ path)
        ≡ zip_up path (node b prefix user l r)
  unfolding IsHead remove_leaf is_glue plug
  undo_right h gone = elim (Option-cases prefix) [
    | inl glue ↦ absurd (cc (gone, (rw glue at h).1))
    | inr (q, e) ↦ rw (e, is_null-null r gone) refl
  ]

  pub undo_left :
      IsHead v b prefix l r
      → is_null l ≡ true
      → remove_leaf
          (record { bit = b; prefix = prefix; user = user; right = false; other = r } ∷ path)
        ≡ zip_up path (node b prefix user l r)
  unfolding IsHead remove_leaf is_glue plug
  undo_left h gone = elim (Option-cases prefix) [
    | inl glue ↦ absurd (cc (gone, (rw glue at h).0))
    | inr (q, e) ↦ rw (e, is_null-null l gone) refl
  ]

pub undo_parent :
    (pfx : Pfx) (path : List Frame) (c : Bool) (b : ℕ) (prefix : Option Pfx) (user : Option ℕ)
    (l r : Node)
    → let f : Frame = record {
      bit = pfx.mask_len;
      prefix = some (record pfx { allowed_matches = 0 });
      user = none;
      right = c;
      other = null;
    } in
      (remove_node (record { path = path; here = plug f (node b prefix user l r) })).tree
      ≡ zip_up path (node b prefix user l r)
unfolding remove_node plug is_glue is_null
undo_parent pfx path true b prefix user l r = refl
undo_parent pfx path false b prefix user l r = refl

pub inner_bit : (m b : ℕ) → m < b → b ≤ maxbits → m < maxbits
inner_bit m b p q = omega arith

pub inner_length : (m b : ℕ) → m < b → b ≤ maxbits → ltb m maxbits ≡ true
inner_length m b p q = ground arith

pub IsTree-maxbits :
    (w : Bits) (d b : ℕ) (prefix : Option Pfx) (user : Option ℕ) (l r : Node)
    → IsTree w d (node b prefix user l r)
    → b ≤ maxbits
unfolding IsTree
IsTree-maxbits w d b prefix user l r (p, m, rest) = m

pub has_longer :
    (q : Pfx) (w : Bits) (d : ℕ) (n : Node) → IsTree w d n → q.mask_len < d → has q n ≡ false
has_longer q w d n t p = elim (Bool-cases (has q n)) [
  | inl there ↦ absurd (omega (arith, (has-IsTree q w d n t there).0))
  | inr absent ↦ absent
]

pub parent_entry :
    (pfx : Pfx) (c : Bool) (n : Node)
    → is_entry pfx (
        prefix_of (
          plug
            (record {
              bit = pfx.mask_len;
              prefix = some (record pfx { allowed_matches = 0 });
              user = none;
              right = c;
              other = null;
            })
            n))
      ≡ true
unfolding is_entry prefix_of plug same_pfx
parent_entry pfx true n = unfold same_pfx in same_pfx_refl pfx
parent_entry pfx false n = unfold same_pfx in same_pfx_refl pfx

pub other_bit : (a b : Bool) → b ≢ a → a ≡ not b
other_bit a b ne = ground arith
