-- ===== src/Worker/Registry.antt =====
-- The client of the worker registry (pkg/flow/registry.go). `send` is c.Do with http.NewRequest and the
-- reading of the answer: a status code and a body, or the error. JSON texts are made and read by
-- parameters.
use pocket_flow_go.Engine.{M, pure, ◌>>=◌}
use pocket_flow_go.Prelude.{Option, String, ◌<>◌, List, ℕ, some, if◌then◌else◌, none, nat_eq}
use pocket_flow_go.Error.{Result, Err, err, ok, text}
use pocket_flow_go.Prelude.Int.{ℤ}
use pocket_flow_go.Prelude.Decimal.{itoa}

-- The client's own WorkerInfo.
pub record RemoteWorker : Type 0 where
  pub id : String
  pub url : String
  pub services : List String
  pub load : ℤ
  pub last_heartbeat : ℕ
  pub worker_type : String

pub record RegistryClient : Type 0 where
  pub base_url : String
  pub send : String → String → String → M (Result (ℕ × String))
  pub encode_worker : RemoteWorker → Result String
  pub encode_heartbeat : String → String → ℤ → Result String
  pub decode_worker : String → Result RemoteWorker
  pub decode_workers : String → Result (List RemoteWorker)

-- `return err`, or the status where it is not 200
abbrev accepted : String → Result (ℕ × String) → Result String
accepted name (err x) = err x
accepted name (ok (code, body)) =
    if nat_eq code 200 then ok body else err (text (name <> " status: " <> itoa code))

abbrev error_of : {A : Type 0} → Result A → Option Err
error_of (ok a) = none
error_of (err x) = some x

-- The answer's body, decoded.
abbrev decoded : {A : Type 0} → (String → Result A) → Result String → Result A
decoded decode (err x) = err x
decoded decode (ok body) = decode body

module _ (rc : RegistryClient) where
  unfoldable pub register : RemoteWorker → M (Option Err)
  register w = elim (rc.encode_worker w) [
    | err x ↦ pure (some x)
    | ok b ↦ (do
      res ← rc.send "POST" (rc.base_url <> "/register") b
      pure (error_of (accepted "register" res)))
  ]

  unfoldable pub heartbeat : String → String → ℤ → M (Option Err)
  heartbeat id url load = elim (rc.encode_heartbeat id url load) [
    | err x ↦ pure (some x)
    | ok b ↦ (do
      res ← rc.send "POST" (rc.base_url <> "/heartbeat") b
      pure (error_of (accepted "heartbeat" res)))
  ]

  unfoldable pub allocate : String → M (Result RemoteWorker)
  allocate service = do
    res ← rc.send "GET" (rc.base_url <> "/allocate?service=" <> service) ""
    pure (decoded rc.decode_worker (accepted "allocate" res))

  unfoldable pub list_remote : String → M (Result (List RemoteWorker))
  list_remote service = do
    res ← rc.send "GET" (rc.base_url <> "/list?service=" <> service) ""
    pure (decoded rc.decode_workers (accepted "list" res))
