-- ===== src/Engine/Fanout/Laws.antt =====
-- That it does not matter which of two branches ends first.
use pocket_flow_go.Engine.Fanout.{Collected, store_result, fanout_action}
use pocket_flow_go.Prelude.{
  String, ◌≡◌, ◌≢◌, Option, arith, true, eq_iff, some, none, refl, List, Bool-cases, ◌==◌, inl, inr,
}
use pocket_flow_go.Engine.Executor.Result.{ExecutorResult}
use pocket_flow_go.Value.{Value, get, Object, put, str, Items, obj, field, arr, empty}
use pocket_flow_go.Value.Laws.{get-put}
use pocket_flow_go.Error.{message, Err, async_pending}
use pocket_flow_go.Flow.{pick_action, Post}
use pocket_flow_go.Engine.Executor.Node.{result_action}

-- What a result does to the collection.
data Effect (F : Type 0) : Type 0 where
  to_done to_errs : Value F → Effect F
  suspends : Effect F

module _ {F : Type 0} where
  -- The same results under every key, and the same flags.
  abbrev pub Same : Collected F → Collected F → Type 0
  Same a b =
      ((x : String) → get x a.done ≡ get x b.done)
      × ((x : String) → get x a.errs ≡ get x b.errs)
      × (a.had_err ≡ b.had_err)
      × (a.has_pending ≡ b.has_pending)

  get-put_swap :
      (k j : String) (v w : Value F) (m : Object F)
      → k ≢ j
      → (x : String) → get x (put k v (put j w m)) ≡ get x (put j w (put k v m))
  get-put_swap k j v w m ne x =
      rw (get-put k x, get-put j x, get-put j x, get-put k x)
        (ground (arith, eq_iff k x, eq_iff j x))

  unfoldable effect : String → Effect F → Collected F → Collected F
  unfolding put
  effect k (to_done v) c = record c { done = put k v c.done }
  effect k (to_errs v) c = record c { errs = put k v c.errs; had_err = true }
  effect k suspends c = record c { has_pending = true }

  effect_swap :
      (k j : String) (a b : Effect F) (c : Collected F)
      → k ≢ j
      → Same (effect k a (effect j b c)) (effect j b (effect k a c))
  unfolding effect
  effect_swap k j (to_done v) (to_done w) c ne =
      (get-put_swap k j v w c.done ne, λ x. refl, refl, refl)
  effect_swap k j (to_errs v) (to_errs w) c ne =
      (λ x. refl, get-put_swap k j v w c.errs ne, refl, refl)
  effect_swap k j suspends (to_done w) c ne = (λ x. refl, λ x. refl, refl, refl)
  effect_swap k j _ _ c ne = (λ x. refl, λ x. refl, refl, refl)

  effect_of : ExecutorResult F → Option Err → Effect F
  unfolding message
  effect_of r none = to_done r.result
  effect_of r (some async_pending) = suspends
  effect_of r (some x) = to_errs (str (message x))

  store_result-effect :
      (k : String) (r : ExecutorResult F) (er : Option Err) (c : Collected F)
      → store_result k (record r { error = er }) c ≡ effect k (effect_of r er) c
  unfolding store_result effect effect_of
  store_result-effect k r none c = refl
  store_result-effect k r (some async_pending) c = refl
  store_result-effect k r (some _) c = refl

  store_result_as :
      (k : String) (r : ExecutorResult F) (c : Collected F)
      → store_result k r c ≡ effect k (effect_of r r.error) c
  store_result_as k r c = store_result-effect k r r.error c

  -- Merging the results of two branches with different keys gives the same results and errors
  -- under every key, and the same flags, whichever of the two comes first.
  pub store_result_swap :
      (k j : String) (r s : ExecutorResult F) (c : Collected F)
      → k ≢ j
      → Same (store_result k r (store_result j s c)) (store_result j s (store_result k r c))
  store_result_swap k j r s c ne =
      simp store_result_as (effect_swap k j (effect_of r r.error) (effect_of s s.error) c ne)

  list_action :
      (key : String) (xs : Items F) → pick_action (obj (field "result" (arr xs) empty)) key ≡ ""
  unfolding pick_action get
  list_action key xs = elim (Bool-cases ("result" == key)) [
    | inl h ↦ rw (pick_action, h) refl
    | inr h ↦ rw (pick_action, h) refl
  ]

  -- Without a static action, a parallel or foreach node takes the empty action for every list of
  -- results, whatever its action key.
  pub fanout_action-key :
      (post : Post) (agg : List (Value F)) → post.action_static ≡ "" → fanout_action post agg ≡ ""
  unfolding fanout_action result_action
  fanout_action-key post agg h = rw h (elim (Bool-cases (post.action_key == "")) [
    | inl k ↦ rw k refl
    | inr k ↦ rw (k, list_action) refl
  ])
