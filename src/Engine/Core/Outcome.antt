-- ===== src/Engine/Core/Outcome.antt =====
-- How a finished node leaves, said without the code's functions: the status, the edge that is
-- followed, and the action that a node's post section names (`finishNode` and `pickAction` of
-- pkg/engine).
use pocket_flow_go.Engine.Core.{finished_status}
use pocket_flow_go.Flow.{find_next, DefEdge, pick_action, Post, edge_matches}
use pocket_flow_go.Value.{Value, Object, obj, str, get}
use pocket_flow_go.Error.{Err}
use pocket_flow_go.Prelude.{
  List, Option, String, if◌then◌else◌, [], none, not, some, ◌≡◌, ◌≢◌, ◌∷◌, ◌==◌, Bool-cases, false,
  inl, true, arith, eq_iff, inr, sym, refl,
}
use mathlib.Core.Path.{subst}

-- A task that has a next node runs; else it is completed, or failed where there is an error.
pub data StatusOf : Option Err → String → String → Type 0 where
  is_completed : StatusOf none "" "completed"
  is_failed : {x : Err} → StatusOf (some x) "" "failed"
  still_running : {x : Option Err} {next : String} → next ≢ "" → StatusOf x next "running"

-- The edge leaves the node under the action; the empty action is called "default".
pub data Fits : String → String → DefEdge → Type 0 where
  fits_named :
      {from action : String} {ed : DefEdge}
      → ed.from ≡ from
      → action ≢ ""
      → ed.action ≡ action
      → Fits from action ed
  fits_default :
      {from : String} {ed : DefEdge} → ed.from ≡ from → ed.action ≡ "default" → Fits from "" ed

-- The target of the first edge that fits, or the empty key.
pub data Follows : List DefEdge → String → String → String → Type 0 where
  no_edge : {from action : String} → Follows [] from action ""
  edge_taken :
      {from action : String} {ed : DefEdge} {rest : List DefEdge}
      → Fits from action ed
      → Follows (ed ∷ rest) from action ed.to
  edge_passed :
      {from action next : String} {ed : DefEdge} {rest : List DefEdge}
      → (Fits from action ed → ⊥)
      → Follows rest from action next
      → Follows (ed ∷ rest) from action next

pub finished_status-StatusOf :
    (x : Option Err) (next : String) → StatusOf x next (finished_status x next)
unfolding finished_status
finished_status-StatusOf none next = elim (Bool-cases (next == "")) [
  | inl h ↦ rw (finished_status, (eq_iff next "").0 h) is_completed
  | inr h ↦ rw h (still_running (λ same. ground (arith, h, eq_iff next "", same)))
]
finished_status-StatusOf (some x) next = elim (Bool-cases (next == "")) [
  | inl h ↦ rw (h, (eq_iff next "").0 h) is_failed
  | inr h ↦ rw h (still_running (λ same. ground (arith, h, eq_iff next "", same)))
]

matched-Fits :
    (from action : String) (ed : DefEdge) → edge_matches from action ed ≡ true → Fits from action ed
matched-Fits from action ed h = elim (Bool-cases (action == "")) [
  | inl t ↦
      let same : action ≡ "" = (eq_iff action "").0 t in
      subst (λ a. Fits from a ed) (sym same)
        (fits_default (ground (arith, h, eq_iff ed.from from))
          (ground (arith, h, t, eq_iff ed.action "default")))
  | inr f ↦
      fits_named (ground (arith, h, eq_iff ed.from from))
        (λ same. ground (arith, f, eq_iff action "", same))
        (ground (arith, h, f, eq_iff ed.action action))
]

unmatched-Fits :
    (from action : String) (ed : DefEdge)
    → edge_matches from action ed ≡ false
    → Fits from action ed
    → ⊥
unmatched-Fits from action ed h (fits_named f n a) =
    ground (arith, h, eq_iff ed.from from, eq_iff action "", eq_iff ed.action action)
unmatched-Fits from action ed h (fits_default f a) =
    ground (arith, h, eq_iff ed.from from, eq_iff ed.action "default")

pub find_next-Follows :
    (edges : List DefEdge) (from action : String)
    → Follows edges from action (find_next edges from action)
unfolding find_next
find_next-Follows [] from action = no_edge
find_next-Follows (ed ∷ rest) from action = elim (Bool-cases (edge_matches from action ed)) [
  | inl h ↦ rw h (edge_taken (matched-Fits from action ed h))
  | inr h ↦
      rw h (edge_passed (unmatched-Fits from action ed h) (find_next-Follows rest from action))
]

module _ {F : Type 0} where
  abbrev pub NoText : Option (Value F) → Type 0
  NoText (some (str s)) = ⊥
  NoText _ = Unit

  abbrev pub NoMap : Value F → Type 0
  NoMap (obj m) = ⊥
  NoMap _ = Unit

  -- The text that a value holds under a key, if it is a map that holds a text there; else "".
  pub data TextAt : String → Value F → String → Type 0 where
    text_there : {key s : String} {m : Object F} → get key m ≡ some (str s) → TextAt key (obj m) s
    no_text : {key : String} {m : Object F} → NoText (get key m) → TextAt key (obj m) ""
    no_map : {key : String} {v : Value F} → NoMap v → TextAt key v ""

  found-TextAt :
      (key : String) (m : Object F) (o : Option (Value F))
      → get key m ≡ o
      → TextAt key (obj m) (elim o [ some (str s) ↦ s | _ ↦ "" ])
  found-TextAt key m none h = no_text (rw h tt)
  found-TextAt key m (some (str s)) h = text_there h
  found-TextAt key m (some v) h = no_text (rw h tt)

  pub pick_action-TextAt : (v : Value F) (key : String) → TextAt key v (pick_action v key)
  unfolding pick_action
  pick_action-TextAt (obj m) key = found-TextAt key m (get key m) refl
  pick_action-TextAt v key = no_map tt

  -- The action of a node: the static one, if there is one, else the text under the action key.
  pub data Selects : Post → Value F → String → Type 0 where
    by_static :
        {post : Post} {v : Value F} → post.action_static ≢ "" → Selects post v post.action_static
    by_key :
        {post : Post} {v : Value F} {action : String}
        → post.action_static ≡ ""
        → post.action_key ≢ ""
        → TextAt post.action_key v action
        → Selects post v action
    by_nothing :
        {post : Post} {v : Value F}
        → post.action_static ≡ ""
        → post.action_key ≡ ""
        → Selects post v ""

  pub selected-Selects :
      (post : Post) (v : Value F)
      → Selects post v (
          if not (post.action_static == "")
          then post.action_static
          else if not (post.action_key == "")
          then pick_action v post.action_key
          else "")
  selected-Selects post v = elim (Bool-cases (post.action_static == "")) [
    | inr f ↦ rw f (by_static (λ same. ground (arith, f, eq_iff post.action_static "", same)))
    | inl t ↦ elim (Bool-cases (post.action_key == "")) [
      | inl u ↦
          rw (t, u)
            (by_nothing ((eq_iff post.action_static "").0 t) ((eq_iff post.action_key "").0 u))
      | inr f ↦
          rw (t, f)
            (by_key ((eq_iff post.action_static "").0 t)
              (λ same. ground (arith, f, eq_iff post.action_key "", same))
              (pick_action-TextAt v post.action_key))
    ]
  ]
