-- ===== src/Server/Workers/Laws.antt =====
-- Which worker is allocated.
use pocket_flow_go.Prelude.{suc, ℕ, ◌⊎◌, String, inl, inr, select, sym, List-cases}
use pocket_flow_go.Engine.{unix, Engine, World}
use mathlib.Core.List.{Memᴰ}
use pocket_flow_go.Server.Workers.{least_loaded, handle_allocate}
use pocket_flow_go.Store.{WorkerInfo, Db}
use pocket_flow_go.Prelude.{List, ◌∷◌, [], Bool, arith, ◌≡◌, if◌then◌else◌, refl, true, false}
use pocket_flow_go.Prelude.Int.{◌≤ℤ◌, ℤ, ltb_ℤ, pos}
use pocket_flow_go.Store.Sql.Laws.{All, select-mem, All-mem, All-select}
use pocket_flow_go.Store.Workers.{list_workers, is_listed, refresh_workers_status}
use pocket_flow_go.Engine.Core.Laws.{Ends}
use pocket_flow_go.Server.{error_body, worker_body}
use mathlib.Core.Path.{subst}

≤ℤ-trans : (a b c : ℤ) → a ≤ℤ b → b ≤ℤ c → a ≤ℤ c
≤ℤ-trans a b c h k = omega (arith, h, k)

abbrev Best : WorkerInfo → WorkerInfo → List WorkerInfo → Type 0
Best x best ws =
    Memᴰ x (best ∷ ws) × (x.load ≤ℤ best.load) × All (λ (w : WorkerInfo). x.load ≤ℤ w.load) ws

keep-Best :
    (x best w : WorkerInfo) (ws : List WorkerInfo) (b : Bool)
    → ltb_ℤ w.load best.load ≡ b
    → Best x (if b then w else best) ws
    → Best x best (w ∷ ws)
keep-Best x best w ws true h (mem, le, all) =
    (Memᴰ.tail mem, ≤ℤ-trans x.load w.load best.load le (ground (arith, h)), (le, all))
keep-Best x best w ws false h (mem, le, all) = (
  elim mem [ Memᴰ.head e ↦ Memᴰ.head e | Memᴰ.tail m ↦ Memᴰ.tail (Memᴰ.tail m) ],
  le,
  (≤ℤ-trans x.load best.load w.load le (ground (arith, h)), all),
)

-- The worker that the loop of handleAllocate chooses is among the given ones, and none of these
-- has a smaller load.
least_loaded_lem :
    (best : WorkerInfo) (ws : List WorkerInfo)
    → Memᴰ (least_loaded best ws) (best ∷ ws)
      × ((least_loaded best ws).load ≤ℤ best.load)
      × All (λ (w : WorkerInfo). (least_loaded best ws).load ≤ℤ w.load) ws
unfolding least_loaded
least_loaded_lem best [] = (Memᴰ.head refl, omega arith, tt)
least_loaded_lem best (w ∷ ws) =
    keep-Best _ best w ws _ refl (least_loaded_lem (if ltb_ℤ w.load best.load then w else best) ws)

-- A listed worker.
abbrev pub Allocated : ℕ → String → Db → WorkerInfo → Type 0
Allocated now service db x =
    Memᴰ x db.workers
    × (is_listed now service (pos 15) x ≡ true)
    × All (λ (y : WorkerInfo). x.load ≤ℤ y.load) (list_workers now service (pos 15) db)

pub allocated :
    (now : ℕ) (service : String) (db : Db) (w : WorkerInfo) (ws : List WorkerInfo)
    → list_workers now service (pos 15) db ≡ w ∷ ws
    → Allocated now service db (least_loaded w (w ∷ ws))
unfolding list_workers
allocated now service db w ws h =
    let x = least_loaded w (w ∷ ws) in
    let (mem, le, all) = least_loaded_lem w (w ∷ ws) in
    let chosen : Memᴰ x (w ∷ ws) = elim mem [ Memᴰ.head same ↦ Memᴰ.head same | Memᴰ.tail m ↦ m ] in
    let listed : Memᴰ x (select (is_listed now service (pos 15)) db.workers) =
      subst (λ l. Memᴰ x l) (sym h) chosen in
    (
      select-mem (is_listed now service (pos 15)) db.workers x listed,
      All-mem (λ y. is_listed now service (pos 15) y ≡ true)
          (select (is_listed now service (pos 15)) db.workers) x
          (All-select (is_listed now service (pos 15)) db.workers) listed,
      subst (λ l. All (λ (y : WorkerInfo). x.load ≤ℤ y.load) l) (sym h) all,
    )

module _ {F : Type 0} (e : Engine F) where
  -- handleAllocate ends: with the status 500 where no worker is listed for the service, else with
  -- the status 200 and a registered worker that passes the tests of ListWorkers for the service
  -- and a ttl of 15, and whose load is the least of all that pass them.
  pub handle_allocate-Allocated :
      (service : String) (w : World)
      → Ends (handle_allocate e service w) (λ res v.
        ((res ≡ record { code = 500; body = error_body "no worker" })
          × (list_workers (unix e (suc w.tick)) service (pos 15) v.db ≡ []))
        ⊎ ((x : WorkerInfo) × (res ≡ record { code = 200; body = worker_body x })
            × Allocated (unix e (suc w.tick)) service v.db x))
  unfolding handle_allocate
  handle_allocate-Allocated service w =
      let db = refresh_workers_status (unix e w.tick) (pos 15) w.db in
      elim (List-cases (list_workers (unix e (suc w.tick)) service (pos 15) db)) [
        | inl h ↦ rw h (inl (refl, h))
        | inr (x, xs, h) ↦ rw h (inr (least_loaded x (x ∷ xs), refl, allocated _ service db x xs h))
      ]
