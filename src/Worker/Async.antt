-- ===== src/Worker/Async.antt =====
-- The sample worker of the pull mode (cmd/worker-async/main.go): a round of its main loop. It reaches
-- the scheduler by three end points, the interface `QueueApi`. Its logging and its pauses are
-- not modelled.
pub mod Served
pub mod Laws
pub mod RoundTrip
pub mod Handed
use pocket_flow_go.Worker.{Toolkit}
use pocket_flow_go.Worker.Http.{text_or}
use pocket_flow_go.Engine.{M, pure, ◌>>=◌, ◌>>◌, ask}
use pocket_flow_go.Prelude.{Option, String, some, List, if◌then◌else◌, ℕ, ◌==◌, none, ◌<>◌, nat_eq}
use pocket_flow_go.Error.{Result, err_string, message, Err, err, ok, text}
use pocket_flow_go.Value.{Value, at, string?, Object, as_object, null, str, obj, field, empty}
use pocket_flow_go.Server.Queue.{Completion}
use pocket_flow_go.Prelude.Decimal.{itoa}
use pocket_flow_go.Worker.Registry.{heartbeat, register, RegistryClient}
use pocket_flow_go.Prelude.Int.{pos}

-- QueueTask: the part of a row of the queue that the worker decodes
pub record Work : Type 0 where
  pub id : String
  pub task_id : String
  pub node_key : String
  pub service : String
  pub input_json : String

pub record Payload (F : Type 0) : Type 0 where
  pub input : Value F
  pub params : Object F

-- The scheduler as the worker sees it: the status code of the answer and what it decodes to, or `none`
-- where the call itself fails.
pub record QueueApi (F : Type 0) : Type 0 where
  pub poll_queue : String → List String → M (Option (ℕ × Option Work))
  pub update_run : String → String → M (Option ℕ)
  pub complete_queue : Completion F → M (Option ℕ)

-- The worker's flags, and its surroundings: JSON and the disk. `run_id_of` is what json.Unmarshal
-- leaves in the field `run_id`, whether it succeeds or not.
pub record AsyncWorker (F : Type 0) : Type 0 where
  pub kit : Toolkit F
  pub worker_id : String
  pub services : List String
  pub payload_of : String → Result (Payload F)
  pub run_id_of : String → String
  pub make_log_dir : ℕ → Option String
  pub log_file : ℕ → String → String
  pub create_file : ℕ → String → Option String

-- What a round of the main loop did.
pub data Round : Type 0 where
  idle poll_failed : Round
  worked : String → Option Err → Round

module _ {F : Type 0} (a : AsyncWorker F) where
  transform_params : Object F → Result (Value F)
  unfolding at
  transform_params params = elim (string? (at "text" params)) [
    | some s ↦ ok (str (a.kit.upper s <> " (ASYNC PROCESSED)"))
    | none ↦ err (text "expected string input or params['text']")
  ]

  transform_text : Payload F → Result (Value F)
  unfolding string? transform_params
  transform_text p = elim (string? p.input) [
    | some s ↦ ok (str (a.kit.upper s <> " (ASYNC PROCESSED)"))
    | none ↦ transform_params p.params
  ]

  transform_object : Payload F → Result (Value F)
  unfolding at as_object string? transform_text
  transform_object p =
      let m = as_object p.input in
      elim (string? (at "text" m)) [
        | some s ↦ ok (str ("[" <> a.kit.show (at "title" m) <> "] " <> a.kit.upper s))
        | none ↦ transform_text p
      ]

  unfoldable pub run_service : String → Payload F → Result (Value F)
  unfolding transform_object
  run_service service p =
      if service == "async-transform"
      then transform_object p
      else if service == "email-service"
      then ok (
          obj
            (field "status" (str "sent") (field "to" (str (text_or "" (at "to" p.params))) empty)))
      else err (text ("unknown service: " <> service))

  unfoldable pub execute : Work → Result (Value F)
  unfolding run_service message
  execute work = elim (a.payload_of work.input_json) [
    | err x ↦ err (text ("invalid input json: " <> message x))
    | ok p ↦ run_service work.service p
  ]

  module _ (api : QueueApi F) where
    unfoldable pub update_status : String → String → M (Option ℕ)
    update_status run_id status = api.update_run run_id status

    -- The result, the path of the log and the error.
    abbrev pub Executed : Type 0
    Executed = Value F × String × Option Err

    abbrev pub executed : String → Result (Value F) → Executed
    executed path (ok v) = (v, path, none)
    executed path (err x) = (null, path, some x)

    unfoldable pub run_logged : Work → String → M Executed
    unfolding execute update_status
    run_logged work path = do
      let run_id = a.run_id_of work.input_json
      if run_id == "" then pure none else update_status run_id "running"
      pure (executed path (execute work))

    unfoldable pub execute_with_log : Work → M Executed
    unfolding run_logged
    execute_with_log work = do
      dir ← ask a.make_log_dir
      elim dir [
        | some x ↦ pure (null, "", some (text ("failed to create log dir: " <> x)))
        | none ↦ (do
          path ← ask (λ n. a.log_file n work.id)
          file ← ask (λ n. a.create_file n path)
          elim file [
            | some x ↦ pure (null, "", some (text ("failed to create log file: " <> x)))
            | none ↦ run_logged work path
          ])
      ]

    abbrev polled : Option (ℕ × Option Work) → Result (Option Work)
    polled none = err (text "no connection")
    polled (some (code, body)) =
        if nat_eq code 204
        then ok none
        else if nat_eq code 200
        then elim body [ none ↦ err (text "decoding") | some work ↦ ok (some work) ]
        else err (text ("poll status " <> itoa code))

    unfoldable pub poll : M (Result (Option Work))
    poll = do answer ← api.poll_queue a.worker_id a.services; pure (polled answer)

    abbrev pub completion_of : Work → Value F → String → String → Completion F
    completion_of work result error_text log_path = record {
      queue_id = work.id;
      result = result;
      error = error_text;
      log_path = log_path;
      run_id = a.run_id_of work.input_json;
    }

    abbrev pub completed : Option ℕ → Option Err
    completed none = some (text "no connection")
    completed (some code) =
        if nat_eq code 200 then none else some (text ("complete status " <> itoa code))

    unfoldable pub complete_task : Work → Value F → String → String → M (Option Err)
    complete_task work result error_text log_path = do
      answer ← api.complete_queue (completion_of work result error_text log_path)
      pure (completed answer)

    unfoldable pub async_round : M Round
    unfolding poll execute_with_log complete_task err_string
    async_round = do
      task ← poll
      elim task [
        | err x ↦ pure poll_failed
        | ok none ↦ pure idle
        | ok (some work) ↦ (do
          (result, log_path, x) ← execute_with_log work
          done ← complete_task work result (err_string x) log_path
          pure (worked work.id done))
      ]

  -- The loops that register the worker and send its heartbeats: a round of each.
  unfoldable pub register_round : RegistryClient → M (Option Err)
  unfolding register
  register_round rc = register rc (record {
    id = a.worker_id;
    url = "queue";
    services = a.services;
    load = pos 0;
    last_heartbeat = 0;
    worker_type = "async";
  })

  unfoldable pub heartbeat_round : RegistryClient → M (Option Err)
  unfolding heartbeat
  heartbeat_round rc = heartbeat rc a.worker_id "queue" (pos 0)
