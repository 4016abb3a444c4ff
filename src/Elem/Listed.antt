-- ===== src/Elem/Listed.antt =====
-- The result sets of the specifics, where all prefixes allow any match, and the loop over them.
use bgpstream.Base.{
  ℕ, zero, suc, ◌≡◌, inl, inr, refl, sym, ap, ◌∙◌, Bool, true, false, ◌&&◌, ◌||◌, not, none, some,
  List, [], ◌∷◌, ◌++◌, All, arith, leb, if◌then◌else◌, Option-cases, length,
}
use bgpstream.Addr.{Pfx}
use bgpstream.Patricia.{Node, null, node, Frame, Loc, plug, is_glue}
use bgpstream.Patricia.Search.{prefix_of}
use bgpstream.Patricia.Results
use bgpstream.Patricia.Results.{
  ResultSet, add_node, next, add_more_specifics, add_less_specifics, find_more_specific,
  find_less_specific,
}
use bgpstream.Patricia.Covers.{has_plugged}
use bgpstream.Elem.{match_any, allows, scan_results, scan_all}
use bgpstream.Elem.Allowed.{IsOpen, IsAny, IsAnyPath}

unfoldable pub IsOpenLoc : Loc → Type 0
IsOpenLoc loc = (kind : ℕ) → allows kind (prefix_of loc.here) ≡ true

unfoldable pub is_listed : List Loc → Bool
is_listed [] = false
is_listed (loc ∷ nodes) = true

-- A set of nodes that allow any match, with its cursor, and whether it has nodes.
pub record IsList (cursor : ℕ) (some_nodes : Bool) (set : ResultSet) : Type 0 where
  pub place : set.cursor ≡ cursor
  pub opened : All IsOpenLoc set.result_nodes
  pub listed : is_listed set.result_nodes ≡ some_nodes

All-last :
    (xs : List Loc) (x : Loc) → All IsOpenLoc xs → IsOpenLoc x → All IsOpenLoc (xs ++ (x ∷ []))
All-last [] x h t = (t, tt)
All-last (y ∷ xs) x (h, hs) t = (h, All-last xs x hs t)

is_listed-last : (xs : List Loc) (x : Loc) → is_listed (xs ++ (x ∷ [])) ≡ true
unfolding is_listed
is_listed-last [] x = refl
is_listed-last (y ∷ xs) x = refl

add_node-IsList :
    (cursor : ℕ) (b : Bool) (set : ResultSet) (loc : Loc)
    → IsList cursor b set
    → IsOpenLoc loc
    → IsList cursor true (add_node set loc)
unfolding add_node
add_node-IsList cursor b set loc h t = record {
  place = h.place;
  opened = All-last set.result_nodes loc h.opened t;
  listed = is_listed-last set.result_nodes loc;
}

here-IsOpenLoc :
    (path : List Frame) (n : Node) (pfx : Pfx)
    → prefix_of n ≡ some pfx
    → pfx.allowed_matches ≡ match_any
    → IsOpenLoc (record { path = path; here = n })
unfolding IsOpenLoc allows
here-IsOpenLoc path n pfx e f kind = rw (e, f) refl

or_false : (b : Bool) → (b || false) ≡ b
or_false b = ground arith

or_true : (b : Bool) → (b || true) ≡ true
or_true b = ground arith

glue_found :
    (b x y : Bool) → ((b || x) || y) ≡ (b || (if true && (not x && not y) then false else true))
glue_found b x y = ground arith

-- The ancestors, from a depth that is not 0 or after one was added.
pub add_less_specifics-IsList :
    (cursor : ℕ) (b : Bool) (path : List Frame) (n : Node) (set : ResultSet) (depth : ℕ)
    → IsAnyPath path
    → IsList cursor b set
    → (depth ≡ 0 → b ≡ true)
    → IsList cursor (b || find_less_specific path) (add_less_specifics set path n depth)
unfolding add_less_specifics find_less_specific IsAnyPath
add_less_specifics-IsList cursor b [] n set depth a h p = rw (or_false b) h
add_less_specifics-IsList cursor b (f ∷ path) n set zero a h p = rw (p refl) (rw (p refl) at h)
add_less_specifics-IsList cursor b (f ∷ path) n set (suc depth) (o, other, rest) h p =
    elim (Option-cases f.prefix) [
      | inl glue ↦
          let flag : is_glue f.prefix ≡ true = unfold is_glue in ap is_glue glue in
          rw flag (add_less_specifics-IsList cursor b path (plug f n) set (suc depth) rest h p)
      | inr (pfx, e) ↦
          let flag : is_glue f.prefix ≡ false = unfold is_glue in ap is_glue e in
          let own =
            here-IsOpenLoc path (plug f n) pfx
              (has_plugged f.bit f.prefix f.user f.right f.other n ∙ e)
              (unfold IsOpen in (rw e at o)) in
          let more =
            add_less_specifics-IsList cursor true path (plug f n) _ depth rest
              (add_node-IsList cursor b set _ h own) (λ z. refl) in
          rw (flag, or_true b) more
    ]

-- A subtree.
pub add_more_specifics-IsList :
    (n : Node) (cursor : ℕ) (b : Bool) (path : List Frame) (set : ResultSet) (depth : ℕ)
    → IsAny n
    → IsList cursor b set
    → (depth ≡ 0 → b ≡ true)
    → IsList cursor (b || find_more_specific n) (add_more_specifics set path n depth)
unfolding add_more_specifics find_more_specific IsAny is_glue
add_more_specifics-IsList null cursor b path set depth a h p = rw (or_false b) h
add_more_specifics-IsList (node bit prefix user l r) cursor b path set zero a h p =
    rw (p refl) (rw (p refl) at h)
add_more_specifics-IsList (node bit none user l r) cursor b path set (suc depth) (o, left, right) h
      p =
    rw (sym (glue_found b (find_more_specific l) (find_more_specific r))) (
      add_more_specifics-IsList r cursor (b || find_more_specific l) _ _ (suc depth) right
        (add_more_specifics-IsList l cursor b _ set (suc depth) left h p)
        (λ z. absurd (omega (arith, z))))
add_more_specifics-IsList (node bit (some pfx) user l r) cursor b path set (suc depth)
      (o, left, right) h p =
    let own =
      here-IsOpenLoc path (node bit (some pfx) user l r) pfx (unfold prefix_of in refl)
        (unfold IsOpen in o) in
    let one =
      add_more_specifics-IsList l cursor true _ _ depth left (add_node-IsList cursor b set _ h own)
        (λ z. refl) in
    let two = add_more_specifics-IsList r cursor true _ _ depth right one (λ z. refl) in
    rw (or_true b) two

next-none :
    next (record { result_nodes = []; cursor = 0 })
    ≡ (none, record { result_nodes = []; cursor = 0 })
unfolding next
next-none = refl

next-some :
    (loc : Loc) (nodes : List Loc)
    → next (record { result_nodes = loc ∷ nodes; cursor = 0 })
      ≡ (some loc, record { result_nodes = loc ∷ nodes; cursor = 1 })
unfolding next
next-some loc nodes = let more : leb (suc (length nodes)) 0 ≡ false = ground arith in rw more refl

scan_results_at :
    (turns kind : ℕ) (nodes : List Loc)
    → All IsOpenLoc nodes
    → let set : ResultSet = record { result_nodes = nodes; cursor = 0 } in
      ((scan_results (suc turns) kind set).0 ≡ is_listed nodes)
      × (is_listed nodes ≡ false → (scan_results (suc turns) kind set).1 ≡ set)
unfolding scan_results is_listed
scan_results_at turns kind [] h =
    (rw (scan_results, next-none) refl, λ e. rw (scan_results, next-none) (ap (λ r. r.1) next-none))
scan_results_at turns kind (loc ∷ nodes) (h, hs) =
    let opened : allows kind (prefix_of loc.here) ≡ true = unfold IsOpenLoc in h kind in
    (rw (scan_results, next-some loc nodes, opened) refl, λ e. absurd (cc e))

-- The loop over nodes that allow any match.
pub scan_all-IsList :
    (kind : ℕ) (b : Bool) (set : ResultSet)
    → IsList 0 b set
    → ((scan_all kind set).0 ≡ b) × (b ≡ false → IsList 0 false (scan_all kind set).1)
unfolding scan_all
scan_all-IsList kind b set h =
    let start : ResultSet = record { result_nodes = set.result_nodes; cursor = 0 } in
    let same : start ≡ set =
      ap (λ c. record { result_nodes = set.result_nodes; cursor = c }) (sym h.place) in
    let (found, kept) = scan_results_at (Results.count set) kind set.result_nodes h.opened in
    (
      ap (λ s. (scan_results (suc (Results.count set)) kind s).0) (sym same) ∙ found ∙ h.listed,
      λ e.
          let left : (scan_results (suc (Results.count set)) kind set).1 ≡ set =
            ap (λ s. (scan_results (suc (Results.count set)) kind s).1) (sym same)
            ∙ kept (h.listed ∙ e)
            ∙ same in
          rw left (rw e at h),
    )
