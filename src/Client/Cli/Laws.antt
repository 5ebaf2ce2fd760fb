-- ===== src/Client/Cli/Laws.antt =====
-- What the command line client leaves in the tables, and what its watching says.
use pocket_flow_go.Client.Cli.{create_from_args}
use pocket_flow_go.Prelude.{
  Bool, List, select, String, any, ℕ, ◌≡◌, ◌++◌, ◌<>◌, [], if◌then◌else◌, ◌==◌, true, ◌&&◌, false,
  ◌∷◌, Bool-cases, some, eq_refl, inl, arith, refl, inr, ◌≢◌, eq_iff, suc, ◌∙◌, ap,
}
use pocket_flow_go.Engine.{Engine, World, unix, returned}
use pocket_flow_go.Client.{Outside, answered, post_flow, post_version, post_task, call_api, id_of}
use pocket_flow_go.Store.Flows.{
  newest, new_flow, new_flow_version, create_flow, create_flow_version, latest_published_version,
}
use pocket_flow_go.Store.{FlowRow, FlowVersion, Task, Db}
use pocket_flow_go.Client.Cli.{
  create_from_file, base_name, made, create_flow_task, parse_args, is_map,
}
use pocket_flow_go.Store.Tasks.{new_task, create_task}
use pocket_flow_go.Prelude.Int.{pos, ℤ}
use pocket_flow_go.Server.Listing.{handle_create_flow, handle_create_flow_version}
use pocket_flow_go.Server.Tasks.{handle_create_task}
use pocket_flow_go.Store.Sql.{insert_row}
use pocket_flow_go.Server.{Response, id_body}
use pocket_flow_go.Error.{ok}

select-last :
    {A : Type 0} (p : A → Bool) (x : A) (xs : List A)
    → select p xs ≡ []
    → p x ≡ true
    → select p (xs ++ x ∷ []) ≡ x ∷ []
select-last p x [] none_before h = rw h refl
select-last p x (y ∷ ys) none_before h = elim (Bool-cases (p y)) [
  | inl t ↦ ground arith
  | inr f ↦ rw f (select-last p x ys (rw f at none_before) h)
]

create_flow-fresh :
    (now : ℕ) (id name description : String) (db : Db)
    → any (λ (f : FlowRow). f.id == id) db.flows ≡ false
    → create_flow now id name description db
      ≡ (ok id, record db { flows = db.flows ++ new_flow now id name description ∷ [] })
unfolding create_flow insert_row
create_flow-fresh now id name description db fresh = rw (create_flow, insert_row, fresh) refl

create_flow_version-fresh :
    (id flow : String) (version : ℤ) (definition status : String) (db : Db)
    → any (λ (v : FlowVersion). v.id == id) db.flow_versions ≡ false
    → create_flow_version id flow version definition status db ≡ (
      ok id,
      record db {
        flow_versions = db.flow_versions ++ new_flow_version id flow version definition status ∷ [];
      },
    )
unfolding create_flow_version insert_row
create_flow_version-fresh id flow version definition status db fresh =
    rw (create_flow_version, insert_row, fresh) refl

create_task-fresh :
    (created updated : ℕ) (id version params request start : String) (db : Db)
    → any (λ (t : Task). t.id == id) db.tasks ≡ false
    → create_task created updated id version params request start db ≡ (
      ok id,
      record db {
        tasks = db.tasks ++ new_task created updated id version params request start ∷ [];
      },
    )
unfolding create_task insert_row
create_task-fresh created updated id version params request start db fresh =
    rw (create_task, insert_row, fresh) refl

module _ {F : Type 0} (e : Engine F) (o : Outside) (w : World) where
  -- The ids that the three requests draw.
  abbrev pub flow_id : String
  flow_id = "flow" <> "-" <> e.uuid (suc w.tick)

  abbrev pub version_id : String
  version_id = "ver" <> "-" <> e.uuid (suc (suc (suc (suc w.tick))))

  abbrev pub task_id : String
  task_id = "task" <> "-" <> e.uuid (suc (suc (suc (suc (suc (suc w.tick))))))

  -- None of the ids is in use.
  abbrev pub FreshIds : Type 0
  FreshIds =
      (any (λ (f : FlowRow). f.id == flow_id) w.db.flows ≡ false)
      × (any (λ (v : FlowVersion). v.id == version_id) w.db.flow_versions ≡ false)
      × (any (λ (t : Task). t.id == task_id) w.db.tasks ≡ false)
      × (select (λ (v : FlowVersion). v.flow_id == flow_id && v.status == "published")
            w.db.flow_versions
          ≡ [])

  abbrev pub first_version : String → FlowVersion
  first_version definition = new_flow_version version_id flow_id (pos 1) definition "published"

  abbrev pub task_params : String → String
  task_params params = if params == "" then "{}" else params

  abbrev pub first_task : String → String → Task
  first_task params start =
      new_task (unix e (suc (suc (suc (suc (suc (suc (suc w.tick))))))))
        (unix e (suc (suc (suc (suc (suc (suc (suc (suc w.tick))))))))) task_id version_id
        (task_params params) "" start

  -- The flow, its version and the task are added.
  abbrev pub made_world : String → String → String → String → World
  made_world flow_file definition params start = record {
    db = record w.db {
      flows =
          w.db.flows ++ new_flow (unix e (suc (suc w.tick))) flow_id (base_name flow_file) "" ∷ [];
      flow_versions = w.db.flow_versions ++ first_version definition ∷ [];
      tasks = w.db.tasks ++ first_task params start ∷ [];
    };
    tick = suc (suc (suc (suc (suc (suc (suc (suc (suc w.tick))))))));
  }

  latest-first :
      (definition : String)
      → FreshIds
      → newest (
          select
            (λ (v : FlowVersion). v.flow_id == flow_id && v.status == "published")
            (w.db.flow_versions ++ first_version definition ∷ []))
        ≡ some (first_version definition)
  unfolding newest
  latest-first definition fresh =
      rw (select-last _ (first_version definition) w.db.flow_versions fresh.3 (rw eq_refl refl))
        refl

  -- The tables behind each request.
  abbrev with_flow : String → World
  with_flow name = record {
    db = record w.db {
      flows = w.db.flows ++ new_flow (unix e (suc (suc w.tick))) flow_id name "" ∷ [];
    };
    tick = suc (suc (suc w.tick));
  }

  abbrev with_version : String → String → World
  with_version name definition = record {
    db = record (with_flow name).db {
      flow_versions = w.db.flow_versions ++ first_version definition ∷ [];
    };
    tick = suc (suc (suc (suc (suc w.tick))));
  }

  abbrev id_reply : String → Response
  id_reply id = record { code = 200; body = id_body id }

  module _ (reached : (n : ℕ) → o.link n ≡ answered) (fresh : FreshIds) where
    post_flow-stored :
        (name : String) → post_flow e o name w ≡ returned (some (id_reply flow_id)) (with_flow name)
    unfolding post_flow call_api handle_create_flow
    post_flow-stored name =
        rw (reached, create_flow-fresh (unix e (suc (suc w.tick))) flow_id name "" w.db fresh.0)
          refl

    post_version-stored :
        (name definition : String)
        → post_version e o flow_id definition (with_flow name)
          ≡ returned (some (id_reply version_id)) (with_version name definition)
    unfolding post_version call_api handle_create_flow_version
    post_version-stored name definition =
        rw
          (
            reached,
            create_flow_version-fresh version_id flow_id (pos 1) definition "published"
                (with_flow name).db fresh.1,
          )
          refl

    post_task-stored :
        (flow_file definition params start : String)
        → e.decode_start definition ≡ start
        → start ≢ ""
        → post_task e o flow_id (task_params params) (with_version (base_name flow_file) definition)
          ≡ returned (some (id_reply task_id)) (made_world flow_file definition params start)
    unfolding post_task call_api handle_create_task latest_published_version
    post_task-stored flow_file definition params start decoded named_start =
        let started : (start == "") ≡ false = ground (arith, eq_iff start "", named_start) in
        rw
          (
            reached,
            latest-first definition fresh,
            decoded,
            started,
            create_task-fresh (unix e (suc (suc (suc (suc (suc (suc (suc w.tick))))))))
                (unix e (suc (suc (suc (suc (suc (suc (suc (suc w.tick))))))))) task_id version_id
                (task_params params) "" start (with_version (base_name flow_file) definition).db
                fresh.2,
          )
          refl

    create_from_file-made :
        (flow_file definition params start : String)
        → e.decode_start definition ≡ start
        → start ≢ ""
        → create_from_file e o flow_file definition params w
          ≡ returned
              (made flow_id version_id task_id)
              (made_world flow_file definition params start)
    unfolding create_from_file id_of
    create_from_file-made flow_file definition params start decoded named_start =
        rw
          (
            create_from_file,
            post_flow-stored (base_name flow_file),
            post_version-stored (base_name flow_file) definition,
            post_task-stored flow_file definition params start decoded named_start,
          )
          refl

    -- Where every request is answered, the ids that are drawn are new, no version is stored for
    -- the new flow's id, and the arguments name a readable file whose content is JSON of a map in
    -- which the server finds a start: `cli create`, with the server's handlers behind it, answers
    -- with the three ids, and has added exactly a flow under the file's base name, its version 1,
    -- published, and a pending task of that version at the flow's start with the given
    -- parameters, or {} where none are given.
    pub create_flow_task-made :
        (args : List String) (flow_file definition params start : String)
        → parse_args args "" "" ≡ (flow_file, params)
        → flow_file ≢ ""
        → o.read_file flow_file ≡ some definition
        → is_map (e.rt.unmarshal definition) ≡ true
        → e.decode_start definition ≡ start
        → start ≢ ""
        → create_flow_task e o args w
          ≡ returned
              (made flow_id version_id task_id)
              (made_world flow_file definition params start)
    unfolding create_flow_task create_from_args
    create_flow_task-made args flow_file definition params start parsed named content mapped decoded
          named_start =
        let given : (flow_file == "") ≡ false = ground (arith, eq_iff flow_file "", named) in
        let step : create_from_args e o (flow_file, params) w
            ≡ create_from_file e o flow_file definition params w =
          rw (create_from_args, given, content, mapped) refl in
        ap (λ read. create_from_args e o read w) parsed
        ∙ step
        ∙ create_from_file-made flow_file definition params start decoded named_start
