-- ===== src/Examples/Clients.antt =====
-- The theorems on the programs that call the API, applied.
use pocket_flow_go.Engine.Core.Laws.{Ends}
use pocket_flow_go.Value.{Object, at, get, as_object, field, str, obj, string?, empty, object?}
use pocket_flow_go.Client.{Outside, answered}
use pocket_flow_go.Engine.{World, returned}
use pocket_flow_go.Client.Cli.{parse_args, is_map, watch_rounds, create_flow_task, made}
use pocket_flow_go.Store.{empty_db}
use pocket_flow_go.Prelude.Int.{ℤ}
use pocket_flow_go.Prelude.{if◌then◌else◌, ◌==◌, some, ◌∷◌, [], none, ◌≡◌, arith, eq_iff, inl, refl}
use pocket_flow_go.Prelude.Decimal.{itoa}
use pocket_flow_go.Examples.{toy_engine, one_leased, toy_runtime}
use pocket_flow_go.Client.Loader.Params.{text_at, name_behind, derive_params}
use pocket_flow_go.Client.Cli.Watch.{Seen, watch_rounds-Seen}
use pocket_flow_go.Prelude.Text.{strip_prefix}
use pocket_flow_go.Path.{drop_dot}
use pocket_flow_go.Client.Loader.Params.Laws.{HoldsDecision, derive_params-Decides}
use pocket_flow_go.Client.Cli.Laws.{made_world, create_flow_task-made}

-- Every request is answered, nothing happens between the polls, and one file can be read.
abbrev reachable : Outside
reachable = record {
  link = λ n. answered;
  meanwhile = λ w. w;
  read_file = λ path. if path == "flows/sum.json" then some "{}" else none;
}

abbrev no_world : World
no_world = record { db = empty_db; tick = 0 }

create_flow_task-made_example :
    create_flow_task toy_engine reachable ("-p" ∷ "{}" ∷ "-f" ∷ "flows/sum.json" ∷ []) no_world
    ≡ returned
        (made "flow-1" "ver-4" "task-6")
        (made_world toy_engine reachable no_world "flows/sum.json" "{}" "{}" "a")
unfolding parse_args is_map itoa
create_flow_task-made_example =
    create_flow_task-made toy_engine reachable no_world (λ n. refl) (refl, refl, refl, refl)
      ("-p" ∷ "{}" ∷ "-f" ∷ "flows/sum.json" ∷ []) "flows/sum.json" "{}" "{}" "a" refl
      (λ same. ground (arith, eq_iff "flows/sum.json" "", same)) refl refl refl
      (λ same. ground (arith, eq_iff "a" "", same))

watch_rounds-Seen_example :
    Ends
      (watch_rounds toy_engine reachable 60 "t1" (one_leased "failed"))
      (λ seen v. Seen toy_engine reachable "t1" (one_leased "failed") seen)
watch_rounds-Seen_example = watch_rounds-Seen toy_engine reachable 60 "t1" (one_leased "failed")

abbrev asking : Object ℤ
asking =
    field "kind" (str "approval")
      (field "params" (obj (field "approval_key" (str "$params.ok") empty)) empty)

derive_params-Decides_example :
    HoldsDecision toy_engine "ok"
      (derive_params toy_runtime (field "nodes" (obj (field "a" (obj asking) empty)) empty))
unfolding at get as_object text_at string? object? name_behind strip_prefix drop_dot
derive_params-Decides_example =
    derive_params-Decides toy_engine "ok" (field "nodes" (obj (field "a" (obj asking) empty)) empty)
      asking (inl refl) (refl, field "approval_key" (str "$params.ok") empty, refl, refl)
