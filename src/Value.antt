-- ===== src/Value.antt =====
-- The dynamic values of the engine (`interface{}`), as `encoding/json` and the engine build them.
-- A float64 is a value of the parameter `F`; `int` and `int64` are what the engine itself writes.
pub mod Laws
use pocket_flow_go.Prelude.{
  ℕ, zero, suc, ◌+◌, Bool, true, false, String, Option, none, some, List, [], ◌∷◌, ◌==◌,
  if◌then◌else◌,
}
use pocket_flow_go.Prelude.Int.{ℤ}

mutual
  pub data Value (F : Type 0) : Type 0 where
    null : Value F
    bool : Bool → Value F
    int int64 : ℤ → Value F
    float : F → Value F
    str : String → Value F
    arr : Items F → Value F
    obj : Object F → Value F

  -- []interface{}
  pub data Items (F : Type 0) : Type 0 where
    nil : Items F
    cons : Value F → Items F → Items F

  -- map[string]interface{}, in one of the orders that `range` may go through it
  pub data Object (F : Type 0) : Type 0 where
    empty : Object F
    field : String → Value F → Object F → Object F

module _ {F : Type 0} where
  unfoldable pub items : Items F → List (Value F)
  items nil = []
  items (cons v vs) = v ∷ items vs

  unfoldable pub of_list : List (Value F) → Items F
  of_list [] = nil
  of_list (v ∷ vs) = cons v (of_list vs)

  -- v, ok := m[k]
  unfoldable pub get : String → Object F → Option (Value F)
  get k empty = none
  get k (field j v m) = if j == k then some v else get k m

  abbrev pub or_null : Option (Value F) → Value F
  or_null none = null
  or_null (some v) = v

  -- m[k]: the zero value of interface{} where the key is missing
  unfoldable pub at : String → Object F → Value F
  unfolding get
  at k m = or_null (get k m)

  abbrev pub has : String → Object F → Bool
  has k m = elim (get k m) [ none ↦ false | some v ↦ true ]

  -- m[k] = v
  unfoldable pub put : String → Value F → Object F → Object F
  put k v empty = field k v empty
  put k v (field j w m) = let rest = put k v m in if j == k then field k v m else field j w rest

  -- delete(m, k)
  unfoldable pub delete : String → Object F → Object F
  delete k empty = empty
  delete k (field j w m) = let rest = delete k m in if j == k then rest else field j w rest

  -- len(m)
  unfoldable pub size : Object F → ℕ
  size empty = 0
  size (field j w m) = suc (size m)

  -- for k, v := range src { m[k] = v }
  unfoldable pub put_all : Object F → Object F → Object F
  unfolding put
  put_all empty m = m
  put_all (field k v src) m = put_all src (put k v m)

  -- m, _ := v.(map[string]interface{}); the failed assertion gives a nil map, which reads as empty
  unfoldable pub as_object : Value F → Object F
  as_object (obj m) = m
  as_object _ = empty

  -- the same with `ok`
  unfoldable pub object? : Value F → Option (Object F)
  object? (obj m) = some m
  object? _ = none

  -- s, ok := v.(string)
  unfoldable pub string? : Value F → Option String
  string? (str s) = some s
  string? _ = none
