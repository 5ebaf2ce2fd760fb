-- ===== src/Server/Listing.antt =====
-- The handlers that read (pkg/server/server.go).
use Prim.Native.Nat.{◌^◌}
pub mod Laws
use pocket_flow_go.Store.Flows.{get_flow_version_by_id, create_flow, create_flow_version}
use pocket_flow_go.Store.Listing.{list_flow_versions, list_flows, list_tasks}
use pocket_flow_go.Store.Runs.{list_node_runs, get_node_run}
use pocket_flow_go.Prelude.{ℕ, ◌%◌, String, if◌then◌else◌, ◌-◌, ◌*◌, ◌==◌, ltb, ◌⊎◌, inl, inr}
use pocket_flow_go.Prelude.Int.{ℤ, pos_part, leb_ℤ, pos, negsuc, eq_ℤ}
use pocket_flow_go.Engine.{M, ◌>>=◌, gets, Engine, gen_id, now_unix, statement, ◌>>◌, modify}
use pocket_flow_go.Server.Tasks.{store_error}
use pocket_flow_go.Server.{
  Response, respond_error, respond, flow_page, run_list, task_page, version_list, version_body,
  task_body, content_body, id_body, worker_list,
}
use pocket_flow_go.Error.{err, ok, message, Result, no_rows}
use pocket_flow_go.Store.Tasks.{get_task}
use pocket_flow_go.Store.Workers.{refresh_workers_status, list_workers}

-- The product of two ints, as an int of 64 bits.
unfoldable pub wrap_int64 : ℕ → ℤ
wrap_int64 n = let m = n % 2 ^ 64 in if ltb m (2 ^ 63) then pos m else negsuc (2 ^ 64 - m - 1)

-- `if page < 1 { page = 1 }`
abbrev pub page_number : ℤ → ℤ
page_number page = if leb_ℤ (pos 1) page then page else pos 1

-- `if pageSize < 1 { pageSize = 10 }`
abbrev pub page_size : ℤ → ℤ
page_size size = if leb_ℤ (pos 1) size then size else pos 10

-- offset := (page - 1) * pageSize
unfoldable pub offset_of : ℤ → ℤ → ℤ
unfolding wrap_int64
offset_of page size = wrap_int64 ((pos_part page - 1) * pos_part size)

-- GET; a parameter that is no number is 0.
unfoldable pub handle_list_flows : ℤ → ℤ → M Response
unfolding list_flows offset_of
handle_list_flows page size = do
  let number = page_number page
  let limit = page_size size
  (rows, total) ← gets (list_flows limit (offset_of number limit))
  respond 200 (flow_page rows total number limit)

unfoldable pub handle_list_tasks : String → String → ℤ → ℤ → M Response
unfolding list_tasks offset_of
handle_list_tasks status flow_version_id page size = do
  let number = page_number page
  let limit = page_size size
  (rows, total) ← gets (list_tasks status flow_version_id limit (offset_of number limit))
  respond 200 (task_page rows total number limit)

unfoldable pub handle_list_versions : String → M Response
unfolding list_flow_versions
handle_list_versions flow_id =
    if flow_id == ""
    then respond_error 400 "missing flow_id"
    else (do rows ← gets (list_flow_versions flow_id); respond 200 (version_list rows))

unfoldable pub handle_get_flow_version : String → M Response
unfolding get_flow_version_by_id store_error
handle_get_flow_version id = if id == "" then respond_error 400 "missing id" else (do
  found ← gets (get_flow_version_by_id id)
  elim found [ err x ↦ store_error x | ok v ↦ respond 200 (version_body v) ])

unfoldable pub handle_task_runs : String → M Response
unfolding list_node_runs
handle_task_runs task_id = do runs ← gets (list_node_runs task_id); respond 200 (run_list runs)

unfoldable pub handle_get_task : String → M Response
unfolding get_task store_error
handle_get_task id = do
  found ← gets (get_task id)
  elim found [ err x ↦ store_error x | ok t ↦ respond 200 (task_body t) ]

-- How reading a file ends (os.ReadFile).
pub data FileRead : Type 0 where
  content : String → FileRead
  not_exist : FileRead
  unreadable : String → FileRead

-- The log of a run, from the file that the run names.
unfoldable pub handle_task_logs : (String → FileRead) → String → M Response
unfolding get_node_run message
handle_task_logs read_file run_id = if run_id == "" then respond_error 400 "missing run_id" else (do
  found ← gets (get_node_run run_id)
  elim found [
    | err no_rows ↦ respond_error 404 "run not found"
    | err x ↦ respond_error 500 (message x)
    | ok run ↦
        if run.log_path == ""
        then respond_error 404 "no log path"
        else elim (read_file run.log_path) [
          | content s ↦ respond 200 (content_body s)
          | not_exist ↦ respond_error 404 "log file not found"
          | unreadable s ↦ respond_error 500 s
        ]
  ])

module _ {F : Type 0} (e : Engine F) where
  unfoldable pub handle_list_workers : String → ℤ → M Response
  unfolding refresh_workers_status list_workers
  handle_list_workers service asked = do
    let ttl : ℤ = if eq_ℤ asked (pos 0) then pos 15 else asked
    refreshed ← now_unix e
    modify (refresh_workers_status refreshed ttl)
    now ← now_unix e
    lst ← gets (list_workers now service ttl)
    respond 200 (worker_list lst)

  -- What a creation answers.
  created : Result String → M Response
  unfolding message
  created (ok id) = respond 200 (id_body id)
  created (err x) = respond_error 500 (message x)

  unfoldable pub handle_create_flow : String → String → M Response
  unfolding create_flow created
  handle_create_flow name description = do
    id ← gen_id e "flow"
    now ← now_unix e
    made ← statement (create_flow now id name description)
    created made

  -- The definition is JSON, or YAML that `convert` turns into JSON (yaml.Unmarshal and json.Marshal):
  -- `convert` gives the JSON, or the status and the text of the failure.
  unfoldable pub handle_create_flow_version :
      (String → (String ⊎ (ℕ × String))) → String → ℤ → String → String → String → M Response
  unfolding create_flow_version created
  handle_create_flow_version convert flow_id version definition_json definition_yaml status =
      let converted : String ⊎ (ℕ × String) =
        if definition_yaml == "" then inl definition_json else convert definition_yaml in
      elim converted [
        | inr (code, failure) ↦ respond_error code failure
        | inl json ↦ (do
          id ← gen_id e "ver"
          made ← statement (create_flow_version id flow_id version json status)
          created made)
      ]
