-- ===== src/Scheduler.antt =====
-- The scheduling loop (cmd/scheduler/main.go): lease a task, then step it until it ends, waits for
-- the queue or fails. The loops never end by themselves; a round of each is a function here, also of
-- the loops that refresh the workers and register the local one.
pub mod Laws
pub mod Round
pub mod Stolen
use pocket_flow_go.Engine.{Engine, M, pure, ◌>>=◌, now_unix, statement, ◌>>◌, modify, gets}
use pocket_flow_go.Store.{Task, WorkerInfo}
use pocket_flow_go.Prelude.{
  Bool, ℕ, ◌==◌, String, Option, ◌||◌, if◌then◌else◌, suc, zero, none, some, ◌∷◌, [],
}
use pocket_flow_go.Error.{Result, err, ok, Err}
use pocket_flow_go.Store.Tasks.{extend_lease, lease_next_task, update_task_status, get_task}
use pocket_flow_go.Engine.RunOnce.{run_once}
use pocket_flow_go.Store.Workers.{refresh_workers_status, register_worker}
use pocket_flow_go.Prelude.Int.{ℤ, is_pos, pos}

-- What a round of the inner loop says about the task: leave it, or step it again.
pub data Next : Type 0 where
  leave again : Next

abbrev leaves : Task → Bool
leaves t =
    t.status == "completed"
    || t.status == "failed"
    || t.status == "waiting_queue"
    || t.current_node_key == ""

module _ {F : Type 0} (e : Engine F) where
  abbrev ttl : ℕ
  ttl = 3

  -- GetTask's error is ignored: the zero task has an empty node key.
  abbrev next_of : Result Task → Next
  next_of (err x) = leave
  next_of (ok t) = if leaves t then leave else again

  -- A step that fails makes the task fail.
  unfoldable after_step : String → Option Err → M Next
  unfolding update_task_status get_task
  after_step id (some x) = do
    failed_at ← now_unix e
    modify (update_task_status failed_at id "failed")
    pure leave
  after_step id none = do t ← gets (get_task id); pure (next_of t)

  unfoldable pub step_task : String → M Next
  unfolding extend_lease run_once after_step
  step_task id = do
    now ← now_unix e
    modify (extend_lease now id e.owner ttl)
    done ← run_once e id
    after_step id done

  unfoldable or_more : M Next → Next → M Next
  or_more more leave = pure leave
  or_more more again = more

  -- The inner loop, for at most `rounds` rounds.
  unfoldable pub step_rounds : ℕ → String → M Next
  unfolding step_task or_more
  step_rounds zero id = pure again
  step_rounds (suc rounds) id = do
    let more = step_rounds rounds id
    next ← step_task id
    or_more more next

  unfoldable pub lease_and_step : ℕ → M (Option String)
  unfolding lease_next_task step_rounds
  lease_and_step rounds = do
    now ← now_unix e
    leased ← statement (lease_next_task now e.owner ttl)
    elim leased [ err x ↦ pure none | ok t ↦ (do step_rounds rounds t.id; pure (some t.id)) ]

-- An environment variable that holds a positive number, or the default.
unfoldable pub setting : ℤ → Option ℤ → ℤ
setting usual none = usual
setting usual (some n) = if is_pos n then n else usual

abbrev local_worker : String → ℕ → WorkerInfo
local_worker owner heartbeat = record {
  id = owner;
  url = "local";
  services = "mul" ∷ "upper" ∷ "log_result" ∷ [];
  load = pos 0;
  last_heartbeat = heartbeat;
  status = "online";
  worker_type = "local";
}

module _ {F : Type 0} (e : Engine F) where
  unfoldable pub refresh_round : Option ℤ → M (Unit {0})
  unfolding refresh_workers_status setting
  refresh_round configured = do
    now ← now_unix e
    modify (refresh_workers_status now (setting (pos 15) configured))

  unfoldable pub register_local_round : M (Unit {0})
  unfolding register_worker
  register_local_round = do
    heartbeat ← now_unix e
    now ← now_unix e
    modify (register_worker now (local_worker e.owner heartbeat))
