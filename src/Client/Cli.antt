-- ===== src/Client/Cli.antt =====
-- The command line client (cmd/cli/main.go): it stores a flow and its first version, makes a task
-- of it, and watches the task for a minute.
pub mod Laws
pub mod Watch
use pocket_flow_go.Engine.{Engine, M, pure, ◌>>=◌, ◌>>◌}
use pocket_flow_go.Prelude.{
  List, Option, String, if◌then◌else◌, nat_eq, ◌∷◌, ◌==◌, Bool, ◌&&◌, some, true, ℕ, ◌<>◌, [], none,
  suc, false, ◌||◌, zero,
}
use pocket_flow_go.Client.{Outside, get_status, post_flow, post_version, post_task, id_of, sleep}
use pocket_flow_go.Value.{Value, obj, null}
use Prim.Native.Char.{code}

-- filepath.Base on a path with the separator '/': the slashes at its end are cut off, and then
-- everything up to the last slash.
drop_slashes : String → String
drop_slashes String.[] = String.[]
drop_slashes (String.◌∷◌ c s) =
    let rest = drop_slashes s in
    if rest == "" && nat_eq (code c) b'/' then "" else String.◌∷◌ c rest

last_part : String → String → String
last_part current String.[] = current
last_part current (String.◌∷◌ c s) = elim (nat_eq (code c) b'/') [
  | true ↦ last_part "" s
  | false ↦ last_part (current <> String.◌∷◌ c String.[]) s
]

unfoldable pub base_name : String → String
unfolding drop_slashes last_part
base_name path =
    if path == ""
    then "."
    else if drop_slashes path == ""
    then "/"
    else last_part "" (drop_slashes path)

-- The loop over the arguments, for -f and -p, with what it has found so far.
unfoldable pub parse_args : List String → String → String → String × String
parse_args [] flow_file params = (flow_file, params)
parse_args (a ∷ []) flow_file params = (flow_file, params)
parse_args (a ∷ b ∷ rest) flow_file params = elim (a == "-f") [
  | true ↦ parse_args rest b params
  | false ↦ elim (a == "-p") [
    | true ↦ parse_args rest flow_file b
    | false ↦ parse_args (b ∷ rest) flow_file params
  ]
]

-- How `cli create` ends.
pub data Created : Type 0 where
  usage read_failed not_json flow_failed version_failed task_failed : Created
  made : String → String → String → Created

-- How monitorTask ends: with the final status that it has seen, or after its last round.
pub data Watched : Type 0 where
  final : String → Watched
  gave_up : Watched

-- json.Unmarshal of the file into a map fails on what is neither an object nor null.
unfoldable pub is_map : {F : Type 0} → Option (Value F) → Bool
is_map (some (obj m)) = true
is_map (some null) = true
is_map _ = false

module _ {F : Type 0} (e : Engine F) (o : Outside) where
  unfoldable pub create_from_file : String → String → String → M Created
  unfolding post_flow post_version post_task id_of base_name
  create_from_file flow_file definition params = do
    flow ← post_flow e o (base_name flow_file)
    elim flow [
      | none ↦ pure flow_failed
      | some f ↦ (do
        version ← post_version e o (id_of f) definition
        elim version [
          | none ↦ pure version_failed
          | some v ↦ (do
            task ← post_task e o (id_of f) (if params == "" then "{}" else params)
            elim task [
              | none ↦ pure task_failed
              | some t ↦ pure (made (id_of f) (id_of v) (id_of t))
            ])
        ])
    ]

  unfoldable create_from_args : String × String → M Created
  unfolding create_from_file is_map
  create_from_args (flow_file, params) =
      if flow_file == "" then pure usage else elim (o.read_file flow_file) [
        | none ↦ pure read_failed
        | some definition ↦
            if is_map (e.rt.unmarshal definition)
            then create_from_file flow_file definition params
            else pure not_json
      ]

  -- handleCreate, up to the watching
  unfoldable pub create_flow_task : List String → M Created
  unfolding parse_args create_from_args
  create_flow_task args = create_from_args (parse_args args "" "")

  -- monitorTask, with the rounds that are left
  unfoldable pub watch_rounds : ℕ → String → M Watched
  unfolding get_status
  watch_rounds zero id = pure gave_up
  watch_rounds (suc rounds) id = do
    let later = watch_rounds rounds id
    status ← get_status e o id
    elim status [
      | none ↦ (do sleep o; later)
      | some s ↦ if s == "completed" || s == "failed" then pure (final s) else (do sleep o; later)
    ]

  unfoldable pub handle_create : List String → M (Created × Option Watched)
  unfolding create_flow_task watch_rounds
  handle_create args = do
    done ← create_flow_task args
    elim done [
      | made flow version task ↦ (do
        seen ← watch_rounds 60 task
        pure (made flow version task, some seen))
      | other ↦ pure (other, none)
    ]

  -- main: the command
  unfoldable pub run_cli : List String → M (Option (Created × Option Watched))
  unfolding handle_create
  run_cli [] = pure none
  run_cli (command ∷ args) =
      if command == "create" then (do done ← handle_create args; pure (some done)) else pure none
