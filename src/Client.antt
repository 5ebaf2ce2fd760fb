-- ===== src/Client.antt =====
-- The programs that call the HTTP API (cmd/cli, cmd/loadexamples): what they share. A call goes over
-- a link that may fail before the server has handled the request, or behind it; while a client
-- sleeps, the rest of the system goes on. Both are parameters, like the files that are read.
pub mod Cli
pub mod Loader
use pocket_flow_go.Prelude.Int.{pos}
use pocket_flow_go.Prelude.{String, Option, ℕ, none, some, inl, ◌≡◌, ◌⊎◌, inr, refl}
use pocket_flow_go.Engine.{Engine, World, M, ◌>>=◌, ◌>>◌, ask, pure}
use pocket_flow_go.Server.{Response, Body, id_body, task_body}
use pocket_flow_go.Server.Tasks.{handle_create_task, handle_task_signal}
use pocket_flow_go.Server.Listing.{handle_create_flow, handle_create_flow_version, handle_get_task}

-- How http.DefaultClient.Do ends: the request was not handled, it was but its answer is lost, or
-- the answer has come.
pub data Link : Type 0 where
  refused lost answered : Link

pub Link-cases : (l : Link) → (l ≡ refused) ⊎ (l ≡ lost) ⊎ (l ≡ answered)
Link-cases refused = inl refl
Link-cases lost = inr (inl refl)
Link-cases answered = inr (inr refl)

pub record Outside : Type 0 where
  pub link : ℕ → Link
  pub meanwhile : World → World  -- what the others do during time.Sleep
  pub read_file : String → Option String  -- os.ReadFile

-- postJSON and getJSON: `none` is the error; the status code is not looked at.
unfoldable pub call_api : Outside → M Response → M (Option Response)
call_api o call = do
  link ← ask o.link
  elim link [
    | refused ↦ pure none
    | lost ↦ (do call; pure none)
    | answered ↦ (do res ← call; pure (some res))
  ]

abbrev pub sleep : Outside → M (Unit {0})
sleep o w = pure tt (o.meanwhile w)

-- resp["id"] of an answer that is decoded into a map of texts
unfoldable pub id_of : Response → String
id_of res = elim res.body [ id_body id ↦ id | _ ↦ "" ]

-- The field Status of an answer that is decoded into a struct.
unfoldable pub status_of : Response → String
status_of res = elim res.body [ task_body t ↦ t.status | _ ↦ "" ]

module _ {F : Type 0} (e : Engine F) (o : Outside) where
  -- The requests, as the server handles them: the field FlowVersionID of a task's request is not
  -- one that handleTasks decodes.
  unfoldable pub post_flow : String → M (Option Response)
  unfolding call_api handle_create_flow
  post_flow name = call_api o (handle_create_flow e name "")

  unfoldable pub post_version : String → String → M (Option Response)
  unfolding call_api handle_create_flow_version
  post_version flow_id definition =
      call_api o
        (handle_create_flow_version e (λ yaml. inl yaml) flow_id (pos 1) definition "" "published")

  unfoldable pub post_task : String → String → M (Option Response)
  unfolding call_api handle_create_task
  post_task flow_id params_json = call_api o (handle_create_task e flow_id (pos 0) params_json)

  unfoldable pub get_status : String → M (Option String)
  unfolding call_api handle_get_task status_of
  get_status id = do
    res ← call_api o (handle_get_task id)
    pure (elim res [ none ↦ none | some r ↦ some (status_of r) ])
