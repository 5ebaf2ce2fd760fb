-- ===== src/Client/Loader/Params/Laws.antt =====
-- That what the loader makes up lets the nodes that wait go on.
use pocket_flow_go.Value.{
  Object, at, Value, field, as_object, put, empty, object?, string?, str, null,
}
use pocket_flow_go.Prelude.{
  String, List, ◌==◌, Bool-cases, Option-cases, inl, ◌≡◌, false, if◌then◌else◌, inr, true, ◌⊎◌,
  arith, eq_iff, eq_refl, some, sym, ◌∷◌, [], refl, ◌≢◌, ap,
}
use pocket_flow_go.Client.Loader.Params.{
  approval_value, pick_first_action, approval_param, choice_param, derive_node, derive_nodes,
  derive_params, input_param, input_value, text_at, name_behind, choice_cases,
}
use pocket_flow_go.Engine.Waiting.Approval.{is_decided}
use mathlib.Core.Path.{subst}
use pocket_flow_go.Value.Laws.{get-put}
use pocket_flow_go.Client.Loader.Params.{first_path, usual_path}
use pocket_flow_go.Engine.{Engine}
use pocket_flow_go.Path.{is_null}

-- The node is one of the map's values.
abbrev pub Among : {F : Type 0} → Object F → Object F → Type 0
Among node empty = ⊥
Among node (field key v rest) = (as_object v ≡ node) ⊎ Among node rest

module _ {F : Type 0} (e : Engine F) where
  at-put :
      (k j : String) (v : Value F) (m : Object F)
      → at k (put j v m) ≡ (if j == k then v else at k m)
  unfolding at
  at-put k j v m = elim (Bool-cases (j == k)) [
    | inl t ↦ rw (get-put j k v m, t) refl
    | inr f ↦ rw (get-put j k v m, f) refl
  ]

  abbrev text_of : Value F → String
  text_of (str s) = s
  text_of _ = "other"

  -- A decision stands under the key.
  abbrev pub Decides : String → Object F → Type 0
  Decides k m = is_decided e (at k m) ≡ true

  put-Decides :
      (k j : String) (v : Value F) (m : Object F)
      → is_decided e v ≡ true
      → Decides k m
      → Decides k (put j v m)
  put-Decides k j v m h old = elim (Bool-cases (j == k)) [
    | inl t ↦ rw (at-put k j v m, t) h
    | inr f ↦ rw (at-put k j v m, f) old
  ]

  put-Decides_self :
      (k : String) (v : Value F) (m : Object F) → is_decided e v ≡ true → Decides k (put k v m)
  put-Decides_self k v m h = rw (at-put k k v m, eq_refl) h

  approval_value-decided : (node : Object F) → is_decided e (approval_value node) ≡ true
  unfolding approval_value is_decided
  approval_value-decided node = elim (Option-cases (object? (at "post" node))) [
    | inl h ↦ rw (is_decided, h) refl
    | inr (post, h) ↦ elim (Option-cases (string? (at "action_key" post))) [
      | inl k ↦ rw (is_decided, h, k) refl
      | inr (key, k) ↦ rw (is_decided, h, k) refl
    ]
  ]

  pick_first_action-some : (cases : List (Value F)) → (pick_first_action cases == "") ≡ false
  unfolding pick_first_action
  pick_first_action-some [] = refl
  pick_first_action-some (c ∷ cases) = elim (Bool-cases (text_at "action" (as_object c) == "")) [
    | inl t ↦ rw t (pick_first_action-some cases)
    | inr f ↦ rw f f
  ]

  module _ (k : String) where
    approval_param-keeps :
        (node params : Object F) → Decides k params → Decides k (approval_param e.rt node params)
    unfolding approval_param
    approval_param-keeps node params h = elim (Bool-cases (text_at "kind" node == "approval")) [
      | inr f ↦ rw f h
      | inl t ↦ elim (Option-cases (object? (at "params" node))) [
        | inl none_given ↦ rw (t, none_given) h
        | inr (pm, given) ↦ elim (Option-cases (name_behind "$params." (at "approval_key" pm))) [
          | inl other ↦ rw (t, given, other) h
          | inr (j, named) ↦
              rw (t, given, named)
                (put-Decides k j (approval_value node) params (approval_value-decided node) h)
        ]
      ]
    ]

    input_value-decided : (j : String) → is_decided e (input_value e.rt j) ≡ true
    unfolding input_value is_decided
    input_value-decided j = ground arith

    input_param-keeps :
        (node params : Object F) → Decides k params → Decides k (input_param e.rt node params)
    unfolding input_param
    input_param-keeps node params h = elim (Option-cases (object? (at "prep" node))) [
      | inl none_given ↦ rw (input_param, none_given) h
      | inr (prep, given) ↦ elim (Option-cases (name_behind "$params." (at "input_key" prep))) [
        | inl other ↦ rw (input_param, given, other) h
        | inr (j, named) ↦
            rw (input_param, given, named)
              (put-Decides k j (input_value e.rt j) params (input_value-decided j) h)
      ]
    ]

    first_path-keeps :
        (cases : List (Value F)) (params : Object F)
        → Decides k params
        → Decides k (first_path e.rt cases params)
    unfolding first_path is_decided
    first_path-keeps [] params h = h
    first_path-keeps (c ∷ cases) params h =
        put-Decides k "path" (str (pick_first_action (c ∷ cases))) params
          (rw (pick_first_action-some (c ∷ cases)) refl) h

    usual_path-keeps : (params : Object F) → Decides k params → Decides k (usual_path e.rt params)
    unfolding usual_path is_decided
    usual_path-keeps params h = elim (Bool-cases (is_null (at "path" params))) [
      | inl t ↦ rw t (put-Decides k "path" (str "B") params refl h)
      | inr f ↦ rw f h
    ]

    choice_param-keeps :
        (node params : Object F) → Decides k params → Decides k (choice_param e.rt node params)
    unfolding choice_param
    choice_param-keeps node params h = elim (Bool-cases (text_at "kind" node == "choice")) [
      | inl t ↦ rw t (
          usual_path-keeps (first_path e.rt (choice_cases node) params)
            (first_path-keeps (choice_cases node) params h))
      | inr f ↦ rw f h
    ]

    derive_node-keeps :
        (node params : Object F) → Decides k params → Decides k (derive_node e.rt node params)
    unfolding derive_node
    derive_node-keeps node params h =
        choice_param-keeps node (input_param e.rt node (approval_param e.rt node params)) (
          input_param-keeps node (approval_param e.rt node params)
            (approval_param-keeps node params h))

    derive_nodes-keeps :
        (nodes params : Object F) → Decides k params → Decides k (derive_nodes e.rt nodes params)
    unfolding derive_nodes
    derive_nodes-keeps empty params h = h
    derive_nodes-keeps (field key v nodes) params h =
        derive_nodes-keeps nodes (derive_node e.rt (as_object v) params)
          (derive_node-keeps (as_object v) params h)

    -- The node asks for an approval under the name, in the task's parameters.
    abbrev pub Asks : Object F → Type 0
    Asks node =
        (text_at "kind" node ≡ "approval")
        × (pm : Object F) × (object? (at "params" node) ≡ some pm)
        × (name_behind "$params." (at "approval_key" pm) ≡ some k)

    approval_param-Asks :
        (node params : Object F) → Asks node → Decides k (approval_param e.rt node params)
    unfolding approval_param
    approval_param-Asks node params (kind, pm, given, named) =
        let approval : (text_at "kind" node == "approval") ≡ true =
          (eq_iff (text_at "kind" node) "approval").1 kind in
        rw (approval, given, named)
          (put-Decides_self k (approval_value node) params (approval_value-decided node))

    derive_node-Asks :
        (node params : Object F) → Asks node → Decides k (derive_node e.rt node params)
    unfolding derive_node
    derive_node-Asks node params asks =
        choice_param-keeps node (input_param e.rt node (approval_param e.rt node params)) (
          input_param-keeps node (approval_param e.rt node params)
            (approval_param-Asks node params asks))

    derive_nodes-Asks :
        (nodes params node : Object F)
        → Among node nodes
        → Asks node
        → Decides k (derive_nodes e.rt nodes params)
    unfolding derive_nodes
    derive_nodes-Asks empty params node m asks = elim m [ ]
    derive_nodes-Asks (field key v nodes) params node (inl same) asks =
        derive_nodes-keeps nodes (derive_node e.rt (as_object v) params)
          (derive_node-Asks (as_object v) params (subst Asks (sym same) asks))
    derive_nodes-Asks (field key v nodes) params node (inr m) asks =
        derive_nodes-Asks nodes (derive_node e.rt (as_object v) params) node m asks

    -- A value that is neither nil nor the empty text stands under the key.
    abbrev pub HoldsDecision : Object F → Type 0
    HoldsDecision m = (at k m ≢ null) × (at k m ≢ str "")

    is_decided-value : (v : Value F) → is_decided e v ≡ true → (v ≢ null) × (v ≢ str "")
    unfolding is_decided
    is_decided-value null h = cc
    is_decided-value (str s) h = (
      (λ same. cc),
      (λ same. let none_there = ap text_of same in ground (arith, h, eq_iff s "", none_there)),
    )
    is_decided-value v h = ((λ same. cc), (λ same. cc))

    -- For every node of a definition that is of the kind approval, has parameters, and names its
    -- approval key behind $params., the parameters that deriveParams makes up hold a value that
    -- is neither nil nor the empty text under that name, whatever the other nodes write.
    pub derive_params-Decides :
        (def node : Object F)
        → Among node (as_object (at "nodes" def))
        → Asks node
        → HoldsDecision (derive_params e.rt def)
    unfolding derive_params
    derive_params-Decides def node m asks =
        is_decided-value (at k (derive_params e.rt def))
          (derive_nodes-Asks (as_object (at "nodes" def)) empty node m asks)
