-- ===== src/Engine/Executor/Script.antt =====
-- Execution of a script (pkg/engine/executor_local_script.go). Starting the process is outside the
-- model; the command that is started, the retries and the reading of the output are not.
pub mod Laws
use pocket_flow_go.Engine.{Engine, M, Command, CommandOutput, to_json, ◌>>=◌, ask, pure, hang}
use pocket_flow_go.Prelude.{
  List, String, Option, [], if◌then◌else◌, ℕ, ◌∷◌, ◌<>◌, ◌==◌, some, none, ◌||◌, ◌+◌, suc, zero,
}
use pocket_flow_go.Flow.{Script, TextMap}
use pocket_flow_go.Engine.Executor.Result.{
  ExecutorInput, ExecutorResult, payload, failure, goes_on, success,
}
use pocket_flow_go.Value.{Value, str}
use pocket_flow_go.Prelude.Decimal.{itoa}
use pocket_flow_go.Error.{Result, err, ok, text}
use pocket_flow_go.Prelude.Int.{pos_part}

-- The interpreter that the language names, and the extension of its files.
unfoldable pub interpreter : Script → String × String
interpreter s =
    if s.language == ""
    then (if s.cmd == "" then ("bash", ".sh") else (s.cmd, ".sh"))
    else if s.language == "python"
    then ("python3", ".py")
    else if s.language == "javascript" || s.language == "node"
    then ("node", ".js")
    else if s.language == "go"
    then ("go run", ".go")
    else (s.language, ".sh")

env_entries : List (String × String) → List String
env_entries [] = []
env_entries ((k, v) ∷ rest) = (k <> "=" <> v) ∷ env_entries rest

abbrev extra_env : TextMap → List String
extra_env none = []
extra_env (some entries) = env_entries entries

module _ {F : Type 0} (e : Engine F) (inp : ExecutorInput F) where
  -- The command for code that stands in a file of its own, and for a plain command.
  unfoldable pub script_command : Option String → Command
  unfolding interpreter env_entries
  script_command file = record {
    name = elim file [
      | none ↦ s.cmd
      | some path ↦ if s.cmd == "" then (interpreter s).0 else s.cmd
    ];
    args = elim file [ none ↦ s.args | some path ↦ path ∷ s.args ];
    dir = s.work_dir;
    extra_env = extra_env s.env;
    stdin = if s.stdin_mode == "json" then some (to_json e (payload inp)) else none;
  }
    where
      open inp.node use {script as s}

  script_output : String → Value F
  script_output out =
      if inp.node.script.output_mode == "json"
      then elim (e.rt.unmarshal out) [ none ↦ str out | some v ↦ v ]
      else str out

  abbrev log_path : ℕ → String
  log_path attempt =
      "logs/tasks/" <> inp.task.id <> "/" <> inp.node_key <> "_" <> itoa attempt <> ".log"

  -- One round: the file of the code, the command, and what it prints.
  unfoldable start_script : M (Result CommandOutput)
  unfolding script_command interpreter
  start_script =
      if inp.node.script.code_text == ""
      then (do out ← ask (λ n. e.run_command n (script_command none)); pure (ok out))
      else (do
        file ← ask (λ n. e.temp_file n ("pf-script-*" <> (interpreter inp.node.script).1))
        elim file [
          | err x ↦ pure (err x)
          | ok path ↦ (do
            out ← ask (λ n. e.run_command n (script_command (some path)))
            pure (ok out))
        ])

  unfoldable script_rounds : ℕ → ℕ → M (ExecutorResult F)
  unfolding start_script script_output itoa
  script_rounds zero attempts = hang
  script_rounds (suc rounds) attempts = do
    let again = script_rounds rounds (attempts + 1)
    started ← start_script
    elim started [
      | err x ↦ pure (failure "" "" x)
      | ok out ↦
          if out.failed
          then (if goes_on inp.node.max_attempts (attempts + 1)
              then again
              else pure (failure "" "" (text "failed")))
          else pure (
              success (script_output out.output) ("local-script:" <> inp.node.script.cmd) "local"
                (log_path (attempts + 1)))
    ]

  unfoldable pub exec_local_script : M (ExecutorResult F)
  unfolding script_rounds
  exec_local_script = script_rounds (pos_part inp.node.max_attempts + e.patience + 1) 0
