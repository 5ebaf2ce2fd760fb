-- ===== src/Worker/Http/Load.antt =====
-- The counter of running requests of the sample HTTP worker (currentLoad in cmd/worker/main.go),
-- which its heartbeats report. Requests run at the same time; each changes the counter at its start
-- and, deferred, at its end, both atomically.
use pocket_flow_go.Prelude.{
  List, String, ◌≡◌, ◌++◌, Bool, [], ap, if◌then◌else◌, ℕ, ◌∷◌, ◌+◌, ◌==◌, ◌∙◌, arith, sym, ◌||◌,
  refl,
}
use pocket_flow_go.Prelude.Int.{pos, ℤ, ◌+ℤ◌, ◌-ℤ◌}

-- The counter, and the handlers that are running.
pub record Serving : Type 0 where
  pub current_load : ℤ
  pub running : List String

-- The handlers that count: transformHandler and sumHandler.
abbrev pub counts : String → Bool
counts service = service == "transform" || service == "sum"

unfoldable pub enter_request : String → ℤ → ℤ
enter_request service n = if counts service then n +ℤ pos 1 else n

unfoldable pub leave_request : String → ℤ → ℤ
leave_request service n = if counts service then n -ℤ pos 1 else n

pub data ServeStep (s : Serving) : Serving → Type 0 where
  enters :
      (service : String)
      → ServeStep s (record {
        current_load = enter_request service s.current_load;
        running = service ∷ s.running;
      })
  leaves :
      (before after : List String) (service : String)
      → s.running ≡ before ++ service ∷ after
      → ServeStep s (record {
        current_load = leave_request service s.current_load;
        running = before ++ after;
      })

pub data Serves : Serving → Type 0 where
  starts : Serves (record { current_load = pos 0; running = [] })
  steps : {s t : Serving} → Serves s → ServeStep s t → Serves t

-- How many of the running handlers count.
abbrev pub busy : List String → ℕ
busy [] = 0
busy (service ∷ rest) = (if counts service then 1 else 0) + busy rest

busy-append : (before after : List String) → busy (before ++ after) ≡ busy before + busy after
busy-append [] after = omega arith
busy-append (s ∷ before) after = let rest = busy-append before after in omega arith

enter_request-busy :
    (service : String) (n : ℕ)
    → enter_request service (pos n) ≡ pos ((if counts service then 1 else 0) + n)
unfolding enter_request
enter_request-busy service n = ground arith

leave_request-busy :
    (service : String) (a b : ℕ)
    → leave_request service (pos (a + ((if counts service then 1 else 0) + b))) ≡ pos (a + b)
unfolding leave_request
leave_request-busy service a b = ground arith

step-busy :
    {s t : Serving}
    → ServeStep s t
    → s.current_load ≡ pos (busy s.running)
    → t.current_load ≡ pos (busy t.running)
step-busy {s} (enters service) h =
    ap (enter_request service) h ∙ enter_request-busy service (busy s.running)
step-busy {s} (leaves before after service e) h =
    let whole : busy s.running ≡ busy before + ((if counts service then 1 else 0) + busy after) =
      ap busy e ∙ busy-append before (service ∷ after) in
    ap (leave_request service) (h ∙ ap pos whole)
    ∙ leave_request-busy service (busy before) (busy after)
    ∙ ap pos (sym (busy-append before after))

-- The counter is the number of running requests that count: never negative, and 0 when none runs.
pub Serves-busy : {s : Serving} → Serves s → s.current_load ≡ pos (busy s.running)
Serves-busy starts = refl
Serves-busy (steps r step) = step-busy step (Serves-busy r)
