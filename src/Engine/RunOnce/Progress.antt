-- ===== src/Engine/RunOnce/Progress.antt =====
-- That a step of a task makes progress, in a flow of choice and executor nodes without cycles.
use pocket_flow_go.Engine.RunOnce.{run_definition, run_leased, run_once}
use pocket_flow_go.Engine.{Engine, World}
use pocket_flow_go.Prelude.{
  String, ℕ, Option, ◌≡◌, some, ◌<◌, ◌⊎◌, ◌==◌, inl, none, true, false, inr, Bool-cases, refl,
  Option-cases, sym, eq_iff,
}
use pocket_flow_go.Store.{Task, FlowVersion}
use pocket_flow_go.Store.Flows.{get_flow_version_by_id}
use pocket_flow_go.Prelude.Int.{ℤ}
use pocket_flow_go.Value.{Object}
use pocket_flow_go.Store.Tasks.Laws.{find_task, find_task-id}
use pocket_flow_go.Error.{Err, ok, Result-cases}
use pocket_flow_go.Flow.{FlowDef}
use pocket_flow_go.Engine.Core.Laws.{Moved, Writable, Ends, moved, Ends-map}
use pocket_flow_go.Engine.RunOnce.Forward.{Step, is_left, IsForward, dispatch-Step}
use pocket_flow_go.Store.Tasks.Joined.{named}
use mathlib.Core.Path.{subst}
use pocket_flow_go.Engine.RunOnce.Laws.{run_once-canceling, run_once-Runs}

module _ {F : Type 0} (e : Engine F) (rank : String → ℕ) where
  -- The flow of the row, where it can be read, goes forward.
  abbrev pub ForwardRow : Task → World → Type 0
  ForwardRow r w =
      (fv : FlowVersion) (def : FlowDef F)
      → get_flow_version_by_id r.flow_version_id w.db ≡ ok fv
      → e.decode_flow fv.definition_json ≡ some def
      → IsForward rank def

  abbrev pub FoundRow : String → World → Type 0
  FoundRow id v = (r : Task) × (find_task id v.db ≡ some r)

  abbrev pub LeftRow : String → World → Type 0
  LeftRow id v = (r : Task) × (find_task id v.db ≡ some r) × (is_left r ≡ true)

  abbrev pub LowerRow : String → Task → World → World → Type 0
  LowerRow id r w v =
      (r' : Task) × (find_task id v.db ≡ some r')
      × (r'.flow_version_id ≡ r.flow_version_id)
      × (r'.lease_owner ≡ r.lease_owner)
      × (rank r'.current_node_key < rank r.current_node_key)
      × (v.db.flow_versions ≡ w.db.flow_versions)

  -- A step fails, leaves the row, or brings it down.
  abbrev pub Goes : String → Task → World → Option Err → World → Type 0
  Goes id r w (some x) v = FoundRow id v
  Goes id r w none v = LeftRow id v ⊎ LowerRow id r w v

  Step-Goes :
      (id : String) (r : Task) (w : World) (res : Option Err) (v : World)
      → Step e rank id r w res v
      → Goes id r w res v
  Step-Goes id r w none v (fine, (r', found, (flow, owner, inl left)), same) = inl (r', found, left)
  Step-Goes id r w none v (fine, (r', found, (flow, owner, inr lower)), same) =
      inr (r', found, flow, owner, lower, same)
  Step-Goes id r w (some x) v (fine, (r', found, down), same) = (r', found)

  run_leased-Goes :
      (flow name : String) (version : ℤ) (r : Task) (w : World)
      → find_task r.id w.db ≡ some r
      → Writable e r
      → ForwardRow r w
      → (r.status == "canceling") ≡ false
      → Ends (run_leased e (named flow name version r) w) (Goes r.id r w)
  unfolding run_leased run_definition
  run_leased-Goes flow name version r w found may forward going =
      elim (Result-cases (get_flow_version_by_id r.flow_version_id w.db)) [
        | inr (x, h) ↦ rw (Ends, going, h) (r, found)
        | inl (fv, h) ↦ elim (Option-cases (e.decode_flow fv.definition_json)) [
          | inl bad ↦ rw (Ends, going, h, run_definition, bad) (r, found)
          | inr (def, good) ↦
              rw (going, h, run_definition, good)
                (Ends-map _ (Goes r.id r w) _
                  (dispatch-Step e rank flow name version r def (forward fv def h good) w found may)
                  (Step-Goes r.id r w))
        ]
      ]

  canceled-Goes :
      (id : String) (r : Task) (w : World) (shared : Object F) (res : Option Err) (v : World)
      → Moved e id r "canceled" "" "canceled" shared r.step_count v
      → Goes id r w res v
  canceled-Goes id r w shared none v (stamp, h) =
      inl (moved e stamp "canceled" "" "canceled" shared r.step_count r, h, refl)
  canceled-Goes id r w shared (some x) v (stamp, h) =
      (moved e stamp "canceled" "" "canceled" shared r.step_count r, h)

  run_once-Goes_own :
      (r : Task) (w : World)
      → find_task r.id w.db ≡ some r
      → Writable e r
      → ForwardRow r w
      → Ends (run_once e r.id w) (Goes r.id r w)
  run_once-Goes_own r w found may forward = elim (Bool-cases (r.status == "canceling")) [
    | inl asked ↦
        Ends-map _ (Goes r.id r w) _
          (run_once-canceling e r.id w r found may ((eq_iff r.status "canceling").0 asked))
          (canceled-Goes r.id r w _)
    | inr going ↦
        let (flow, name, version, tick, step) = run_once-Runs e r.id w r found may in
        subst (λ o. Ends o (Goes r.id r w)) (sym step)
          (run_leased-Goes flow name version r (record w { tick = tick }) found may forward going)
  ]

  -- A step of a found row that may be written, in a forward flow, fails and keeps the row, or
  -- leaves it, or brings it down.
  pub run_once-Goes :
      (id : String) (r : Task) (w : World)
      → find_task id w.db ≡ some r
      → Writable e r
      → ForwardRow r w
      → Ends (run_once e id w) (Goes id r w)
  run_once-Goes id r w found may forward =
      let own = find_task-id id w.db r found in
      subst (λ i. Ends (run_once e i w) (Goes i r w)) own
        (run_once-Goes_own r w (subst (λ i. find_task i w.db ≡ some r) (sym own) found) may forward)

  -- The flow of a lower row is that of the row it comes from.
  pub LowerRow-ForwardRow :
      (r r' : Task) (w v : World)
      → ForwardRow r w
      → r'.flow_version_id ≡ r.flow_version_id
      → v.db.flow_versions ≡ w.db.flow_versions
      → ForwardRow r' v
  unfolding get_flow_version_by_id
  LowerRow-ForwardRow r r' w v forward flow same fv def stored decoded =
      forward fv def (rw (flow, same) at stored) decoded
