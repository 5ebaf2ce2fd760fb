-- ===== src/Engine/Core/SharedData.antt =====
-- What the handlers write into the shared data, said key by key: the output, and the state under
-- `_rt` that a node keeps and clears.
use pocket_flow_go.Engine.Core.{put_output, keep_runtime, clear_runtime}
use pocket_flow_go.Value.Laws.{get-put_self, get-put_ne, get-delete_self, get-delete_ne}
use pocket_flow_go.Prelude.{
  String, Bool-cases, ◌≡◌, ◌≢◌, ◌==◌, nat_eq, none, some, sym, inl, refl, ◌⊎◌, arith, eq_iff, inr,
}
use pocket_flow_go.Value.{size, Object, Value, delete, get, obj, put, empty, field}

module _ {F : Type 0} where
  -- The value stands under the key, if there is one; all else is as before.
  abbrev pub OutputKeyIs : String → Value F → Object F → Object F → Type 0
  OutputKeyIs key v shared shared' =
      (key ≢ "" → get key shared' ≡ some v)
      × ((k : String) → (key ≡ "") ⊎ (k ≢ key) → get k shared' ≡ get k shared)

  -- The map stands under the key of another map, which is else as before.
  abbrev pub Under : String → Value F → Object F → Object F → Type 0
  Under key v m m' = (get key m' ≡ some v) × ((k : String) → k ≢ key → get k m' ≡ get k m)

  -- The state stands under the key in `_rt`.
  abbrev pub Keeps : String → Object F → Object F → Object F → Object F → Type 0
  Keeps key state rt shared shared' =
      (rt' : Object F) × Under "_rt" (obj rt') shared shared' × Under key (obj state) rt rt'

  -- The key is gone from the map, which is else as before.
  abbrev pub Without : String → Object F → Object F → Type 0
  Without key m m' = (get key m' ≡ none) × ((k : String) → k ≢ key → get k m' ≡ get k m)

  -- The state under the key is gone from `_rt`, and `_rt` itself where nothing else was there.
  abbrev pub Clears : String → Object F → Object F → Object F → Type 0
  Clears key rt shared shared' =
      (rt' : Object F) × Without key rt rt'
      × (((rt' ≡ empty) × Without "_rt" shared shared')
          ⊎ ((rt' ≢ empty) × Under "_rt" (obj rt') shared shared'))

  pub put-Under : (key : String) (v : Value F) (m : Object F) → Under key v m (put key v m)
  put-Under key v m =
      (get-put_self key v m, λ k differ. get-put_ne key k v m (λ same. differ (sym same)))

  pub delete-Without : (key : String) (m : Object F) → Without key m (delete key m)
  delete-Without key m =
      (get-delete_self key m, λ k differ. get-delete_ne key k m (λ same. differ (sym same)))

  pub put_output-OutputKeyIs :
      (key : String) (v : Value F) (shared : Object F)
      → OutputKeyIs key v shared (put_output key v shared)
  unfolding put_output
  put_output-OutputKeyIs key v shared = elim (Bool-cases (key == "")) [
    | inl t ↦ rw t ((λ named. absurd (named ((eq_iff key "").0 t))), (λ k other. refl))
    | inr f ↦ rw f (
      (λ named. get-put_self key v shared),
      (λ k other. elim other [
        | inl unnamed ↦ absurd (ground (arith, f, eq_iff key "", unnamed))
        | inr differ ↦ get-put_ne key k v shared (λ same. differ (sym same))
      ]),
    )
  ]

  pub keep_runtime-Keeps :
      (key : String) (state rt shared : Object F)
      → Keeps key state rt shared (keep_runtime key state rt shared)
  unfolding keep_runtime
  keep_runtime-Keeps key state rt shared = (
    put key (obj state) rt,
    put-Under "_rt" (obj (put key (obj state) rt)) shared,
    put-Under key (obj state) rt,
  )

  pub size-empty : (m : Object F) → size m ≡ 0 → m ≡ empty
  unfolding size
  size-empty empty h = refl
  size-empty (field k v m) h = absurd (omega (arith, h))

  pub empty-size : (m : Object F) → m ≡ empty → size m ≡ 0
  unfolding size
  empty-size m h = rw h refl

  pub clear_runtime-Clears :
      (key : String) (rt shared : Object F) → Clears key rt shared (clear_runtime key rt shared)
  unfolding clear_runtime
  clear_runtime-Clears key rt shared =
      let left : Object F = delete key rt in
      elim (Bool-cases (nat_eq (size left) 0)) [
        | inl t ↦ rw t (
          left,
          delete-Without key rt,
          inl (size-empty left (ground (arith, t)), delete-Without "_rt" shared),
        )
        | inr f ↦ rw f (
          left,
          delete-Without key rt,
          inr (
            (λ gone. let none_left = empty-size left gone in ground (arith, f, none_left)),
            put-Under "_rt" (obj left) shared,
          ),
        )
      ]
