-- ===== src/Client/Loader/Params.antt =====
-- What the loader makes up for a sample flow (cmd/loadexamples/main.go): the parameters of its task,
-- and the signals that it sends. The order of the fields stands for the order of the range over the
-- map of the nodes.
pub mod Laws
use pocket_flow_go.Runtime.{Runtime}
use pocket_flow_go.Value.{
  as_object, at, Object, Value, items, object?, put, string?, arr, empty, field, float, bool, str,
  cons, nil,
}
use pocket_flow_go.Prelude.Text.{strip_prefix}
use pocket_flow_go.Prelude.{List, String, ℕ, Option, if◌then◌else◌, none, ◌∷◌, ◌==◌, [], some, true}
use pocket_flow_go.Path.{drop_dot, is_null}
use pocket_flow_go.Prelude.Int.{pos}

-- The name behind "$params." or "$shared.", without a further dot.
unfoldable pub name_behind : {F : Type 0} → String → Value F → Option String
unfolding strip_prefix drop_dot
name_behind prefix (str s) = elim (strip_prefix prefix s) [
  | none ↦ none
  | some k ↦ some (drop_dot k)
]
name_behind prefix _ = none

-- A text, or the empty text.
unfoldable pub text_at : {F : Type 0} → String → Object F → String
unfolding at string?
text_at key m = elim (string? (at key m)) [ none ↦ "" | some s ↦ s ]

-- "approved" where the node picks its action by a key, else true.
unfoldable pub approval_value : {F : Type 0} → Object F → Value F
unfolding at object? string?
approval_value node = elim (object? (at "post" node)) [
  | none ↦ bool true
  | some post ↦ elim (string? (at "action_key" post)) [
    | none ↦ bool true
    | some key ↦ str "approved"
  ]
]

unfoldable pub pick_first_action : {F : Type 0} → List (Value F) → String
unfolding text_at as_object
pick_first_action [] = "B"
pick_first_action (c ∷ cases) =
    let rest = pick_first_action cases in
    if text_at "action" (as_object c) == "" then rest else text_at "action" (as_object c)

unfoldable pub choice_cases : {F : Type 0} → Object F → List (Value F)
unfolding at items
choice_cases node = elim (at "choice_cases" node) [ arr cases ↦ items cases | _ ↦ [] ]

module _ {F : Type 0} (rt : Runtime F) where
  abbrev number : ℕ → Value F
  number n = float (rt.of_int (pos n))

  abbrev three_numbers : Value F
  three_numbers = arr (cons (number 1) (cons (number 2) (cons (number 3) nil)))

  unfoldable pub input_value : String → Value F
  input_value key =
      if key == "val"
      then number 2
      else if key == "text"
      then str "Hello PocketFlow"
      else if key == "list"
      then three_numbers
      else number 1

  -- One node's part of deriveParams: the approval, the input and the choice.
  unfoldable pub approval_param : Object F → Object F → Object F
  unfolding text_at object? at name_behind approval_value put
  approval_param node params =
      if text_at "kind" node == "approval"
      then elim (object? (at "params" node)) [
        | none ↦ params
        | some pm ↦ elim (name_behind "$params." (at "approval_key" pm)) [
          | none ↦ params
          | some k ↦ put k (approval_value node) params
        ]
      ]
      else params

  unfoldable pub input_param : Object F → Object F → Object F
  unfolding object? at name_behind put input_value
  input_param node params = elim (object? (at "prep" node)) [
    | none ↦ params
    | some prep ↦ elim (name_behind "$params." (at "input_key" prep)) [
      | none ↦ params
      | some k ↦ put k (input_value k) params
    ]
  ]

  unfoldable first_path : List (Value F) → Object F → Object F
  unfolding put pick_first_action
  first_path [] params = params
  first_path (c ∷ cases) params = put "path" (str (pick_first_action (c ∷ cases))) params

  unfoldable usual_path : Object F → Object F
  unfolding at put
  usual_path params = if is_null (at "path" params) then put "path" (str "B") params else params

  unfoldable pub choice_param : Object F → Object F → Object F
  unfolding text_at choice_cases first_path usual_path
  choice_param node params =
      if text_at "kind" node == "choice"
      then usual_path (first_path (choice_cases node) params)
      else params

  unfoldable pub derive_node : Object F → Object F → Object F
  unfolding approval_param input_param choice_param
  derive_node node params = choice_param node (input_param node (approval_param node params))

  unfoldable pub derive_nodes : Object F → Object F → Object F
  unfolding derive_node as_object
  derive_nodes empty params = params
  derive_nodes (field key node nodes) params =
      derive_nodes nodes (derive_node (as_object node) params)

  unfoldable pub derive_params : Object F → Object F
  unfolding derive_nodes as_object at
  derive_params def = derive_nodes (as_object (at "nodes" def)) empty

  -- One node's part of detectSignals.
  unfoldable pub event_signal : Object F → Object F → Object F
  unfolding text_at as_object at name_behind put
  event_signal node signals =
      if text_at "kind" node == "wait_event"
      then elim (name_behind "$shared." (at "signal_key" (as_object (at "params" node)))) [
        | none ↦ signals
        | some k ↦ put k (bool true) signals
      ]
      else signals

  unfoldable pub approval_signal : Object F → Object F → Object F
  unfolding text_at as_object at name_behind put approval_value
  approval_signal node signals =
      if text_at "kind" node == "approval"
      then elim (name_behind "$shared." (at "approval_key" (as_object (at "params" node)))) [
        | none ↦ signals
        | some k ↦ put k (approval_value node) signals
      ]
      else signals

  unfoldable pub list_signal : Object F → Object F → Object F
  unfolding object? at name_behind put
  list_signal node signals = elim (object? (at "prep" node)) [
    | none ↦ signals
    | some prep ↦ elim (name_behind "$shared." (at "input_key" prep)) [
      | none ↦ signals
      | some k ↦ if k == "list" then put k three_numbers signals else signals
    ]
  ]

  unfoldable pub detect_node : Object F → Object F → Object F
  unfolding event_signal approval_signal list_signal
  detect_node node signals = list_signal node (approval_signal node (event_signal node signals))

  unfoldable pub detect_nodes : Object F → Object F → Object F
  unfolding detect_node as_object
  detect_nodes empty signals = signals
  detect_nodes (field key node nodes) signals =
      detect_nodes nodes (detect_node (as_object node) signals)

  unfoldable pub detect_signals : Object F → Object F
  unfolding detect_nodes as_object at
  detect_signals def = detect_nodes (as_object (at "nodes" def)) empty
