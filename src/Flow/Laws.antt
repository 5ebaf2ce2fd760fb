-- ===== src/Flow/Laws.antt =====
-- The edge that `find_next` takes.
use pocket_flow_go.Prelude.{String, List, Bool, ◌≡◌, not, true, any, ◌∷◌, ◌++◌, arith, [], refl}
use pocket_flow_go.Flow.{find_next, DefEdge, edge_matches}

module _ (from action : String) where
  abbrev no_match : List DefEdge → Bool
  no_match edges = not (any (edge_matches from action) edges)

  -- Where no edge matches the node and the action, findNext gives the empty key.
  find_next_none : (edges : List DefEdge) → no_match edges ≡ true → find_next edges from action ≡ ""
  unfolding find_next
  find_next_none [] h = refl
  find_next_none (ed ∷ rest) h = ground (arith, find_next_none rest)

  -- Where an edge matches the node and the action, and none before it does, findNext gives its
  -- target, whatever edges follow.
  find_next_first :
      (before : List DefEdge) (ed : DefEdge) (behind : List DefEdge)
      → no_match before ≡ true
      → edge_matches from action ed ≡ true
      → find_next (before ++ ed ∷ behind) from action ≡ ed.to
  unfolding find_next
  find_next_first [] ed behind h m = rw m
  find_next_first (e ∷ before) ed behind h m = ground (arith, find_next_first before ed behind)
