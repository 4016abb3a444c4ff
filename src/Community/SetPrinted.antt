-- ===== src/Community/SetPrinted.antt =====
-- lib/utils/bgpstream_utils_community.c: what bgpstream_community_set_snprintf prints of a set.
use bgpstream.Base.{ℕ, ◌+◌, ◌≡◌, List, [], ◌∷◌, ◌++◌}
use bgpstream.AsPath.Appends.{Appends}
use bgpstream.Community.{Community}
use bgpstream.Community.Print.{community_text, Printing}

-- The communities behind the first one, each with a space in front.
unfoldable pub rest_text : List Community → List ℕ
rest_text [] = []
rest_text (comm ∷ rest) = b' ' ∷ (community_text comm ++ rest_text rest)

-- The communities with a space between them.
unfoldable pub set_text : List Community → List ℕ
set_text [] = []
set_text (comm ∷ rest) = community_text comm ++ rest_text rest

-- What has been printed from one state to another, where `bufp` keeps up with `written`.
record Prints (buf len : ℕ) (text : List ℕ) (p q : Printing) : Type 0 where
  appends : Appends buf len text p.mem p.written q.mem q.written
  in_step : q.bufp ≡ buf + q.written
