-- ===== src/Value/Laws.antt =====
-- The laws of the maps: what a key reads after a write, a delete and a copy.
use pocket_flow_go.Prelude.{
  ◌≡◌, refl, String, none, some, arith, ◌==◌, eq_iff, eq_refl, if◌then◌else◌, ◌≢◌,
}
use pocket_flow_go.Value.{Value, Object, empty, field, get, put, delete}

module _ {F : Type 0} where
  pub get-put :
      (k j : String) (v : Value F) (m : Object F)
      → get j (put k v m) ≡ (if k == j then some v else get j m)
  unfolding get put
  get-put k j v empty = refl
  get-put k j v (field i w m) = ground (arith, eq_iff i k, eq_iff i j, eq_iff k j, get-put k j v m)

  pub get-delete :
      (k j : String) (m : Object F) → get j (delete k m) ≡ (if k == j then none else get j m)
  unfolding get delete
  get-delete k j empty = ground arith
  get-delete k j (field i w m) =
      ground (arith, eq_iff i k, eq_iff i j, eq_iff k j, get-delete k j m)

  pub get-put_self : (k : String) (v : Value F) (m : Object F) → get k (put k v m) ≡ some v
  get-put_self k v m = simp (get-put, eq_refl)

  pub get-put_ne : (k j : String) (v : Value F) (m : Object F) → k ≢ j → get j (put k v m) ≡ get j m
  get-put_ne k j v m ne = ground (arith, get-put k j v m, eq_iff k j)

  pub get-delete_self : (k : String) (m : Object F) → get k (delete k m) ≡ none
  get-delete_self k m = simp (get-delete, eq_refl)

  pub get-delete_ne : (k j : String) (m : Object F) → k ≢ j → get j (delete k m) ≡ get j m
  get-delete_ne k j m ne = ground (arith, get-delete k j m, eq_iff k j)
