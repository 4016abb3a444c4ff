-- ===== src/Patricia/Minimum.antt =====
-- bgpstream_patricia_tree_get_mincovering_prefix: the longest of the prefixes that cover a node's.
use bgpstream.Base.{
  ℕ, ◌≤◌, ◌<◌, ◌≡◌, ◌⊎◌, inl, inr, refl, sym, ap, ◌∙◌, Bool, true, false, ◌&&◌, Option, none, some,
  List, [], ◌∷◌, arith, Bool-cases, Option-cases,
}
use bgpstream.Addr.{Pfx}
use bgpstream.Patricia.{Node, null, node, Frame, Loc, plug, zip_up, is_null, is_glue}
use bgpstream.Patricia.Results
use bgpstream.Patricia.Results.{ResultSet, add_node, add_less_specifics, get_mincovering_prefix}
use bgpstream.Patricia.Bits.{Bits}
use bgpstream.Patricia.Valid.{IsTree, IsHead, is_entry, is_entry-bits, has}
use bgpstream.Patricia.Search.{prefix_of}
use bgpstream.Patricia.Path.{IsPath, IsFrameHead}
use bgpstream.Patricia.Locate.{zip_up-IsPlace}
use bgpstream.Patricia.Entries.{same_pfx_refl}
use bgpstream.Patricia.Covers.{covers, on_path, has_plugged}
use bgpstream.Patricia.Specifics.{on_path-has}

-- The prefixes of the ancestors are shorter than their bits say.
frame_length :
    (q : Pfx) (v : Bits) (b : ℕ) (prefix : Option Pfx) (other : Node)
    → IsFrameHead v b prefix other
    → is_entry q prefix ≡ true
    → q.mask_len ≡ b
unfolding IsFrameHead
frame_length q v b none other h e = absurd (unfold is_entry in cc e)
frame_length q v b (some pfx) other h e =
    (is_entry-bits q v b (some pfx) null null (unfold IsHead in h) e).0

on_path_short :
    (q : Pfx) (v : Bits) (d : ℕ) (path : List Frame)
    → IsPath v d path
    → on_path q path ≡ true
    → q.mask_len < d
unfolding on_path IsPath
on_path_short q v d [] h e = absurd (cc e)
on_path_short q v d (f ∷ path) (under, top, turn, other, head, rest) e =
    elim (Bool-cases (is_entry q f.prefix)) [
      | inl own ↦ omega (arith, frame_length q v f.bit f.prefix f.other head own)
      | inr past ↦
          let short = on_path_short q v f.bit path rest (rw past at e) in omega (arith, short)
    ]

-- What a result set with the longest prefix of a set of prefixes is.
abbrev pub Longest : (Pfx → Bool) → List Loc → Type 0
Longest among nodes =
    ((nodes ≡ []) × ((q : Pfx) → among q ≡ false))
    ⊎ ((loc : Loc) × (p : Pfx) × (nodes ≡ loc ∷ [])
        × (prefix_of loc.here ≡ some p)
        × (among p ≡ true)
        × ((q : Pfx) → among q ≡ true → q.mask_len ≤ p.mask_len))

no_depth : (set : ResultSet) (path : List Frame) (n : Node) → add_less_specifics set path n 0 ≡ set
unfolding add_less_specifics
no_depth set [] n = refl
no_depth set (f ∷ path) n = refl

first-Longest :
    (path : List Frame) (n : Node) (c : ℕ) (v : Bits) (d : ℕ)
    → IsPath v d path
    → Longest
        (λ q. on_path q path)
        (add_less_specifics (record { result_nodes = []; cursor = c }) path n 1).result_nodes
unfolding add_less_specifics on_path IsPath
first-Longest [] n c v d h = inl (refl, λ q. refl)
first-Longest (f ∷ path) n c v d (under, top, turn, other, head, rest) =
    elim (Option-cases f.prefix) [
      | inl glue ↦
          let flag : is_glue f.prefix ≡ true = unfold is_glue in ap is_glue glue in
          let absent : (q : Pfx) → is_entry q f.prefix ≡ false =
            λ q. unfold is_entry in ap (is_entry q) glue in
          elim (first-Longest path (plug f n) c v f.bit rest) [
            | inl (none_there, never) ↦ inl (rw flag none_there, λ q. rw (absent q) (never q))
            | inr (loc, p, one, own, there, most) ↦
                inr (
                  loc,
                  p,
                  rw flag one,
                  own,
                  rw (absent p) there,
                  λ q e. most q (rw (absent q) at e),
                )
          ]
      | inr (p, e) ↦
          let flag : is_glue f.prefix ≡ false = unfold is_glue in ap is_glue e in
          let here : Loc = record { path = path; here = plug f n } in
          let own : is_entry p f.prefix ≡ true =
            ap (is_entry p) e ∙ (unfold is_entry in same_pfx_refl p) in
          inr (
            here,
            p,
            rw
                (
                  flag,
                  no_depth (add_node (record { result_nodes = []; cursor = c }) here) path
                      (plug f n),
                )
                (unfold add_node in refl),
            has_plugged f.bit f.prefix f.user f.right f.other n ∙ e,
            rw own refl,
            λ q x. elim (Bool-cases (is_entry q f.prefix)) [
              | inl same ↦ omega (
                arith,
                frame_length q v f.bit f.prefix f.other head same,
                frame_length p v f.bit f.prefix f.other head own,
              )
              | inr past ↦ omega (
                arith,
                on_path_short q v f.bit path rest (rw past at x),
                frame_length p v f.bit f.prefix f.other head own,
              )
            ],
          )
    ]

-- In a well-formed tree get_mincovering_prefix returns, for a node with a prefix, the longest of the
-- prefixes of the tree that cover it, or nothing if there is none.
pub get_mincovering_prefix-Longest :
    (path : List Frame) (b : ℕ) (p : Pfx) (user : Option ℕ) (l r : Node) (w : Bits)
    (results : ResultSet)
    → IsTree w 0 (zip_up path (node b (some p) user l r))
    → Longest
        (λ q. has q (zip_up path (node b (some p) user l r)) && covers q p)
        (get_mincovering_prefix
          (record { path = path; here = node b (some p) user l r })
          results).result_nodes
unfolding get_mincovering_prefix Results.clear
get_mincovering_prefix-Longest path b p user l r w results t =
    let (v, d, h, u) =
      zip_up-IsPlace path (node b (some p) user l r) w (unfold is_null in refl) t in
    let same = on_path-has path b p user l r w t in
    elim (first-Longest path (node b (some p) user l r) results.cursor v d h) [
      | inl (none_there, never) ↦ inl (none_there, λ q. sym (same q) ∙ never q)
      | inr (loc, x, one, own, there, most) ↦
          inr (loc, x, one, own, sym (same x) ∙ there, λ q e. most q (same q ∙ e))
    ]
