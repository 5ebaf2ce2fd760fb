-- ===== src/Engine/Executor/Node/Output.antt =====
-- What the post section of a node writes into the shared data, said key by key
-- (`OutputKey` and `OutputMap` of pkg/engine/types.go).
use pocket_flow_go.Engine.Executor.Node.{copy_fields, copy_output, output_shared}
use pocket_flow_go.Engine.Core.{NodeRunInput, put_output}
use pocket_flow_go.Value.Laws.{get-put_self, get-put_ne}
use pocket_flow_go.Engine.{Engine}
use pocket_flow_go.Prelude.{
  List, String, Bool-cases, Option, ◌≢◌, ◌==◌, [], some, ◌≡◌, ◌∷◌, inl, ◌⊎◌, eq_iff, none, inr,
  refl, arith, sym,
}
use pocket_flow_go.Value.{Object, Value, get, at, obj, put}
use pocket_flow_go.Flow.{Post, TextMap}
use mathlib.Core.Path.{subst}

module _ {F : Type 0} where
  -- The value under the key, after the fields of the map have been copied in their order.
  pub data CopiedTo
      : Object F
        → List (String × String)
        → String
        → Option (Value F)
        → Option (Value F)
        → Type 0 where
    nothing_copied : {m : Object F} {k : String} {old : Option (Value F)} → CopiedTo m [] k old old
    copied_here :
        {m : Object F} {k from : String} {rest : List (String × String)}
        {old new : Option (Value F)}
        → CopiedTo m rest k (some (at from m)) new
        → CopiedTo m ((k, from) ∷ rest) k old new
    copied_elsewhere :
        {m : Object F} {k to from : String} {rest : List (String × String)}
        {old new : Option (Value F)}
        → to ≢ k
        → CopiedTo m rest k old new
        → CopiedTo m ((to, from) ∷ rest) k old new

  -- Only a map has fields to copy.
  abbrev pub MapCopied : TextMap → Value F → String → Option (Value F) → Option (Value F) → Type 0
  MapCopied (some fields) (obj m) k old new = CopiedTo m fields k old new
  MapCopied _ _ k old new = new ≡ old

  -- The result stands under the output key, if there is one; every other key holds what is copied
  -- there, or what it held.
  abbrev pub OutputIs : Post → Value F → Object F → Object F → Type 0
  OutputIs post res shared shared' =
      (post.output_key ≢ "" → get post.output_key shared' ≡ some res)
      × ((k : String)
          → (post.output_key ≡ "") ⊎ (k ≢ post.output_key)
          → MapCopied post.output_map res k (get k shared) (get k shared'))

  copy_fields-CopiedTo :
      (fields : List (String × String)) (m shared : Object F) (k : String)
      → CopiedTo m fields k (get k shared) (get k (copy_fields fields m shared))
  unfolding copy_fields
  copy_fields-CopiedTo [] m shared k = nothing_copied
  copy_fields-CopiedTo ((to, from) ∷ rest) m shared k =
      let written : Object F = put to (at from m) shared in
      let others = copy_fields-CopiedTo rest m written k in
      elim (Bool-cases (to == k)) [
        | inl t ↦
            let same : to ≡ k = (eq_iff to k).0 t in
            let here : get k written ≡ some (at from m) =
              subst (λ i. get i written ≡ some (at from m)) same
                (get-put_self to (at from m) shared) in
            subst
              (λ i.
                CopiedTo m ((i, from) ∷ rest) k (get k shared) (get k (copy_fields rest m written)))
              (sym same)
              (copied_here
                (subst (λ o. CopiedTo m rest k o (get k (copy_fields rest m written))) here others))
        | inr f ↦
            let differ : to ≢ k = λ same. ground (arith, f, eq_iff to k, same) in
            copied_elsewhere differ (
              subst (λ o. CopiedTo m rest k o (get k (copy_fields rest m written)))
                (get-put_ne to k (at from m) shared differ) others)
      ]

  copy_output-MapCopied :
      (fields : TextMap) (res : Value F) (shared : Object F) (k : String)
      → MapCopied fields res k (get k shared) (get k (copy_output fields res shared))
  unfolding copy_output
  copy_output-MapCopied (some fields) (obj m) shared k = copy_fields-CopiedTo fields m shared k
  copy_output-MapCopied (some fields) _ shared k = refl
  copy_output-MapCopied none _ shared k = refl

  pub output_shared-OutputIs :
      (e : Engine F) (inp : NodeRunInput F) (res : Value F)
      → OutputIs inp.node.post res inp.shared (output_shared e inp res)
  unfolding output_shared put_output
  output_shared-OutputIs e inp res =
      let post = inp.node.post in
      let copied = copy_output post.output_map res inp.shared in
      elim (Bool-cases (post.output_key == "")) [
        | inl t ↦ rw t (
          (λ named. absurd (named ((eq_iff post.output_key "").0 t))),
          (λ k other. copy_output-MapCopied post.output_map res inp.shared k),
        )
        | inr f ↦ rw f (
          (λ named. get-put_self post.output_key res copied),
          (λ k other. elim other [
            | inl none_named ↦ absurd (ground (arith, f, eq_iff post.output_key "", none_named))
            | inr differ ↦
                subst (λ o. MapCopied post.output_map res k (get k inp.shared) o)
                  (sym (get-put_ne post.output_key k res copied (λ same. differ (sym same))))
                  (copy_output-MapCopied post.output_map res inp.shared k)
          ]),
        )
      ]
