-- ===== src/Flow.antt =====
-- Flow definitions (pkg/engine/types.go), and the choice of the next node (pkg/engine/util.go).
-- A node of an embedded flow is run as an executor whatever its kind, so its own `subflow` is never
-- read: `DefNode` has the other fields, and `FlowNode` adds the embedded flow of a top-level node.
pub mod Laws
use pocket_flow_go.Prelude.{
  List, Option, String, [], Bool, if◌then◌else◌, none, ◌∷◌, ◌==◌, false, ◌&&◌, some,
}
use pocket_flow_go.Value.{empty, get, Object, Value, obj, str}
use pocket_flow_go.Prelude.Int.{pos, ℤ}

-- A Go map that may be nil, of texts; `range` goes through it in the order of the list.
abbrev pub TextMap : Type 0
TextMap = Option (List (String × String))

pub record Script : Type 0 where
  pub cmd : String
  pub args : List String
  pub code_text : String
  pub language : String
  pub timeout_millis : ℤ
  pub env : TextMap
  pub work_dir : String
  pub stdin_mode : String
  pub output_mode : String

pub record Prep : Type 0 where
  pub input_key : String
  pub input_map : TextMap

pub record Post : Type 0 where
  pub output_key : String
  pub output_map : TextMap
  pub action_static : String
  pub action_key : String

pub record ChoiceCase (F : Type 0) : Type 0 where
  pub action : String
  pub expr : Object F

pub record ExecSpec (F : Type 0) : Type 0 where
  pub service : String
  pub exec_type : String
  pub func : String
  pub params : Object F
  pub node : String
  pub index : ℤ
  pub script : Script

pub record DefNode (F : Type 0) : Type 0 where
  pub kind : String
  pub service : String
  pub exec_type : String
  pub func : String
  pub script : Script
  pub params : Object F
  pub prep : Prep
  pub post : Post
  pub max_retries : ℤ
  pub wait_millis : ℤ
  pub max_attempts : ℤ
  pub attempt_delay_millis : ℤ
  pub weighted_by_load : Bool
  pub parallel_services : List String
  pub parallel_execs : List (ExecSpec F)
  pub foreach_execs : List (ExecSpec F)
  pub choice_key : String
  pub default_action : String
  pub subflow_execs : List (ExecSpec F)
  pub choice_cases : List (ChoiceCase F)
  pub parallel_mode : String
  pub max_parallel : ℤ
  pub failure_strategy : String

pub record DefEdge : Type 0 where
  pub from : String
  pub action : String
  pub to : String

-- map[string]DefNode; the keys of a decoded map are distinct.
pub record EmbeddedFlow (F : Type 0) : Type 0 where
  pub start : String
  pub nodes : List (String × DefNode F)
  pub edges : List DefEdge

pub record FlowNode (F : Type 0) : Type 0 where
  pub node : DefNode F
  pub subflow : Option (EmbeddedFlow F)

pub record FlowDef (F : Type 0) : Type 0 where
  pub start : String
  pub nodes : List (String × FlowNode F)
  pub edges : List DefEdge

abbrev pub empty_script : Script
empty_script = record {
  cmd = "";
  args = [];
  code_text = "";
  language = "";
  timeout_millis = pos 0;
  env = none;
  work_dir = "";
  stdin_mode = "";
  output_mode = "";
}

-- The zero value of `DefNode`, which a missing key of `Nodes` reads.
abbrev pub zero_node : {F : Type 0} → DefNode F
zero_node = record {
  kind = "";
  service = "";
  exec_type = "";
  func = "";
  script = empty_script;
  params = empty;
  prep = record { input_key = ""; input_map = none };
  post = record { output_key = ""; output_map = none; action_static = ""; action_key = "" };
  max_retries = pos 0;
  wait_millis = pos 0;
  max_attempts = pos 0;
  attempt_delay_millis = pos 0;
  weighted_by_load = false;
  parallel_services = [];
  parallel_execs = [];
  foreach_execs = [];
  choice_key = "";
  default_action = "";
  subflow_execs = [];
  choice_cases = [];
  parallel_mode = "";
  max_parallel = pos 0;
  failure_strategy = "";
}

-- m[key] of a map of nodes
unfoldable pub node_at : {A : Type 0} → A → String → List (String × A) → A
node_at zero_value key [] = zero_value
node_at zero_value key ((k, n) ∷ rest) = if k == key then n else node_at zero_value key rest

abbrev pub or_default : String → String
or_default a = if a == "" then "default" else a

abbrev pub edge_matches : String → String → DefEdge → Bool
edge_matches from action ed = ed.from == from && ed.action == or_default action

unfoldable pub find_next : List DefEdge → String → String → String
find_next [] from action = ""
find_next (ed ∷ rest) from action =
    if edge_matches from action ed then ed.to else find_next rest from action

module _ {F : Type 0} where
  -- The action that a result names, if it is a text.
  unfoldable pub pick_action : Value F → String → String
  unfolding get
  pick_action (obj m) key = elim (get key m) [ some (str s) ↦ s | _ ↦ "" ]
  pick_action _ key = ""
