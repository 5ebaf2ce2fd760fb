-- ===== src/Engine.antt =====
-- The engine (pkg/engine/core.go): what it is given, and the actions of which its handlers are made.
-- A handler runs in a world: the tables, and a counter that every look at the outside advances. What
-- the outside answers is a function of that counter: the clock, fresh ids, the HTTP workers, the
-- registered functions and the commands.
pub mod Core
pub mod Choice
pub mod Waiting
pub mod Executor
pub mod Fanout
pub mod Parallel
pub mod Foreach
pub mod Subflow
pub mod RunOnce
use pocket_flow_go.Store.{Db}
use pocket_flow_go.Runtime.{Runtime}
use pocket_flow_go.Prelude.{String, ℕ, ◌/◌, ◌<>◌, Bool, List, Option, suc, none, some}
use pocket_flow_go.Value.{Value, Object, empty, as_object}
use pocket_flow_go.Flow.{FlowDef}
use pocket_flow_go.Error.{Result}

pub record HttpReply (F : Type 0) : Type 0 where
  pub result : Value F
  pub error : String

-- A process that was started: its combined output, and whether it failed.
pub record CommandOutput : Type 0 where
  pub output : String
  pub failed : Bool

-- What `exec.Cmd` is given.
pub record Command : Type 0 where
  pub name : String
  pub args : List String
  pub dir : String
  pub extra_env : List String
  pub stdin : Option String

pub record Engine (F : Type 0) : Type 0 where
  pub rt : Runtime F
  pub decode_flow : String → Option (FlowDef F)  -- json.Unmarshal into a FlowDef
  pub decode_start : String → String  -- the Start of json.Unmarshal into struct{ Start string }
  pub owner : String
  pub local_funcs : String → Option (ℕ → Value F → Object F → Result (Value F))
  pub clock : ℕ → ℕ  -- time.Now().UnixMilli()
  pub uuid : ℕ → String
  pub http : ℕ → String → String → Option (HttpReply F)
  pub temp_file : ℕ → String → Result String  -- os.CreateTemp, by its pattern
  pub run_command : ℕ → Command → CommandOutput
  -- The order in which the results of n branches arrive: for each branch, how many of the later ones
  -- arrive before it.
  pub arrival : ℕ → ℕ → List ℕ
  pub patience : ℕ  -- rounds after which a loop that has not ended counts as endless

pub record World : Type 0 where
  pub db : Db
  pub tick : ℕ

-- How a call ends: with a result, by a Go panic, or not within the patience of the observer.
pub data Outcome (A : Type 0) : Type 0 where
  returned : A → World → Outcome A
  panicked looping : Outcome A

abbrev pub M : Type 0 → Type 0
M A = World → Outcome A

abbrev pub continue : {A B : Type 0} → Outcome A → (A → M B) → Outcome B
continue (returned a w) f = f a w
continue panicked f = panicked
continue looping f = looping

abbrev pub pure : {A : Type 0} → A → M A
pure a w = returned a w

abbrev pub panic : {A : Type 0} → M A
panic w = panicked

-- A loop that is still running when the patience ends.
abbrev pub hang : {A : Type 0} → M A
hang w = looping

infixl 5 ◌>>=◌ ◌>>◌
abbrev pub ◌>>=◌ : {A B : Type 0} → M A → (A → M B) → M B
◌>>=◌ m f w = continue (m w) f

abbrev pub ◌>>◌ : {A B : Type 0} → M A → M B → M B
m >> k = m >>= λ _. k

abbrev pub gets : {A : Type 0} → (Db → A) → M A
gets f w = returned (f w.db) w

abbrev pub modify : (Db → Db) → M (Unit {0})
modify f w = returned tt (record w { db = f w.db })

-- A statement that returns a value beside the new tables.
abbrev pub statement : {A : Type 0} → (Db → A × Db) → M A
statement f w = let (a, db) = f w.db in returned a (record w { db = db })

-- An answer from outside.
abbrev pub ask : {A : Type 0} → (ℕ → A) → M A
ask f w = returned (f w.tick) (record w { tick = suc w.tick })

module _ {F : Type 0} (e : Engine F) where
  abbrev pub now_milli : M ℕ
  now_milli = ask e.clock

  abbrev pub unix : ℕ → ℕ
  unix n = e.clock n / 1000

  abbrev pub now_unix : M ℕ
  now_unix = ask unix

  -- store.GenID
  abbrev pub gen_id : String → M String
  gen_id prefix = ask (λ n. prefix <> "-" <> e.uuid n)

  abbrev pub to_json : Value F → String
  to_json v = e.rt.marshal v

  -- json.Unmarshal into a map, its error ignored
  abbrev pub object_of : String → Object F
  object_of s = elim (e.rt.unmarshal s) [ none ↦ empty | some v ↦ as_object v ]
