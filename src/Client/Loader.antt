-- ===== src/Client/Loader.antt =====
-- The loader of sample flows (cmd/loadexamples/main.go): every file of a folder is stored as a flow
-- with one version and one task, whose parameters and signals it makes up, and the task is watched.
pub mod Params
use pocket_flow_go.Prelude.{
  Bool, List, String, ℕ, ◌&&◌, ◌==◌, Option, if◌then◌else◌, none, true, ◌∷◌, [], false, leb, nat_eq,
  some, ◌||◌, ◌+◌, ◌<>◌, select, suc, zero,
}
use pocket_flow_go.Engine.{Engine, M, pure, ◌>>=◌, ◌>>◌, to_json}
use pocket_flow_go.Prelude.Text.{text_lt}
use pocket_flow_go.Client.{
  Outside, call_api, get_status, post_flow, id_of, post_version, post_task, sleep,
}
use pocket_flow_go.Value.{Object, as_object, or_null, field, empty, size, obj}
use pocket_flow_go.Server.{Response}
use pocket_flow_go.Client.Cli.{Watched, is_map, gave_up, final}
use Prim.Native.Char.{code}
use pocket_flow_go.Server.Tasks.{handle_task_signal}
use pocket_flow_go.Client.Loader.Params.{derive_params, detect_signals}
use pocket_flow_go.Server.Listing.{handle_task_runs}

-- An entry of os.ReadDir.
pub record Entry : Type 0 where
  pub name : String
  pub is_regular : Bool

pub record Samples (F : Type 0) : Type 0 where
  pub read_dir : String → Option (List Entry)
  pub read_yaml : String → Option (Object F)  -- yaml.Unmarshal into a map
  pub json_of : Object F → Option String  -- json.Marshal

-- strings.HasSuffix(strings.ToLower(s), suffix) for a suffix of small ASCII letters: no other
-- character than a letter's own capital is lowered to one of those of the three endings.
abbrev lower_code : ℕ → ℕ
lower_code n = if leb b'A' n && leb n b'Z' then n + 32 else n

same_lower : String → String → Bool
same_lower String.[] String.[] = true
same_lower (String.◌∷◌ c s) (String.◌∷◌ d t) =
    nat_eq (lower_code (code c)) (code d) && same_lower s t
same_lower _ _ = false

ends_with : String → String → Bool
unfolding same_lower
ends_with suffix String.[] = suffix == ""
ends_with suffix (String.◌∷◌ c s) = same_lower (String.◌∷◌ c s) suffix || ends_with suffix s

unfoldable pub is_sample : Entry → Bool
unfolding ends_with
is_sample x =
    x.is_regular
    && (ends_with ".json" x.name || ends_with ".yaml" x.name || ends_with ".yml" x.name)

-- sort.Slice by name; the names of a folder are distinct
insert_by_name : Entry → List Entry → List Entry
unfolding text_lt
insert_by_name x [] = x ∷ []
insert_by_name x (y ∷ ys) =
    let rest = insert_by_name x ys in if text_lt y.name x.name then y ∷ rest else x ∷ y ∷ ys

unfoldable pub sort_by_name : List Entry → List Entry
unfolding insert_by_name
sort_by_name [] = []
sort_by_name (x ∷ xs) = insert_by_name x (sort_by_name xs)

-- strings.TrimSuffix(name, filepath.Ext(name)): the text before the last dot.
before_dot : String → Option String
before_dot String.[] = none
before_dot (String.◌∷◌ c s) = elim (before_dot s) [
  | some rest ↦ some (String.◌∷◌ c rest)
  | none ↦ if nat_eq (code c) b'.' then some "" else none
]

unfoldable pub stem : String → String
unfolding before_dot
stem name = elim (before_dot name) [ none ↦ name | some s ↦ s ]

module _ {F : Type 0} (e : Engine F) (o : Outside) (samples : Samples F) where
  -- The files' names without their endings, and their contents; none where a file cannot be read.
  read_files : String → List Entry → Option (List (String × String))
  unfolding stem
  read_files dir [] = some []
  read_files dir (x ∷ xs) = elim (o.read_file (dir <> "/" <> x.name)) [
    | none ↦ none
    | some content ↦ elim (read_files dir xs) [
      | none ↦ none
      | some rest ↦ some ((stem x.name, content) ∷ rest)
    ]
  ]

  unfoldable pub read_defs : String → Option (List (String × String))
  unfolding read_files sort_by_name is_sample
  read_defs dir = elim (samples.read_dir dir) [
    | none ↦ none
    | some entries ↦ read_files dir (sort_by_name (select is_sample entries))
  ]

  -- The white space of strings.TrimSpace.
  abbrev is_space : ℕ → Bool
  is_space n =
      (leb 9 n && leb n 13)
      || nat_eq n 32
      || nat_eq n 133
      || nat_eq n 160
      || nat_eq n 5760
      || (leb 8192 n && leb n 8202)
      || nat_eq n 8232
      || nat_eq n 8233
      || nat_eq n 8239
      || nat_eq n 8287
      || nat_eq n 12288

  -- strings.HasPrefix(strings.TrimSpace(s), "{")
  starts_object : String → Bool
  starts_object String.[] = false
  starts_object (String.◌∷◌ c s) =
      let rest = starts_object s in if is_space (code c) then rest else nat_eq (code c) b'{'

  -- The definition as a map, and as the JSON that is stored.
  unfoldable pub read_definition : String → Option (Object F × String)
  unfolding starts_object as_object is_map
  read_definition content =
      if starts_object content
      then (if is_map (e.rt.unmarshal content)
          then some (as_object (or_null (e.rt.unmarshal content)), content)
          else none)
      else elim (samples.read_yaml content) [
        | none ↦ none
        | some def ↦ elim (samples.json_of def) [ none ↦ none | some json ↦ some (def, json) ]
      ]

  -- An answer's id; the map stays empty where there is no answer.
  abbrev id_or_empty : Option Response → String
  id_or_empty none = ""
  id_or_empty (some res) = id_of res

  unfoldable pub send_signals : String → Object F → M (Unit {0})
  unfolding call_api handle_task_signal
  send_signals task_id empty = pure tt
  send_signals task_id (field key value rest) = do
    let others = send_signals task_id rest
    call_api o (handle_task_signal e task_id key value)
    others

  abbrev is_over : String → Bool
  is_over s = s == "completed" || s == "canceled" || s == "failed"

  -- The loop over the 40 polls, with those that are left.
  unfoldable pub poll_rounds : ℕ → String → M Watched
  unfolding get_status
  poll_rounds zero task_id = pure gave_up
  poll_rounds (suc rounds) task_id = do
    let later = poll_rounds rounds task_id
    status ← get_status e o task_id
    elim status [
      | none ↦ (do sleep o; later)
      | some s ↦ if is_over s then pure (final s) else (do sleep o; later)
    ]

  -- One file: `none` where its definition cannot be read.
  unfoldable pub load_sample : String → String → M (Option (String × Watched))
  unfolding read_definition post_flow post_version post_task derive_params detect_signals
      send_signals poll_rounds get_status call_api handle_task_runs id_of size
  load_sample name content = elim (read_definition content) [
    | none ↦ pure none
    | some (def, json) ↦ (do
      flow ← post_flow e o name
      post_version e o (id_or_empty flow) json
      task ← post_task e o (id_or_empty flow) (to_json e (obj (derive_params e.rt def)))
      let task_id = id_or_empty task
      if nat_eq (size (detect_signals e.rt def)) 0
          then pure tt
          else (do sleep o; send_signals task_id (detect_signals e.rt def))
      seen ← poll_rounds 40 task_id
      get_status e o task_id
      call_api o (handle_task_runs task_id)
      pure (some (task_id, seen)))
  ]

  load_samples : List (String × String) → M (List (Option (String × Watched)))
  unfolding load_sample
  load_samples [] = pure []
  load_samples ((name, content) ∷ rest) = do
    first ← load_sample name content
    others ← load_samples rest
    pure (first ∷ others)

  -- main; `none` where the folder or a file cannot be read
  unfoldable pub load_examples : M (Option (List (Option (String × Watched))))
  unfolding read_defs load_samples
  load_examples = elim (read_defs "examples/flowjson") [
    | none ↦ pure none
    | some files ↦ (do done ← load_samples files; pure (some done))
  ]
