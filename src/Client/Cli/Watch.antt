-- ===== src/Client/Cli/Watch.antt =====
-- What the command line client says about its task.
use pocket_flow_go.Engine.{Engine, World, continue, pure}
use pocket_flow_go.Prelude.{
  String, Option, ◌≡◌, some, ◌⊎◌, ◌≢◌, Option-cases, none, inl, inr, refl, suc, ℕ, Bool-cases, ◌==◌,
  ◌||◌, arith, eq_iff, zero, sym, ◌∙◌,
}
use pocket_flow_go.Client.{Outside, get_status, call_api, status_of, Link-cases}
use pocket_flow_go.Client.Cli.{Watched, final, gave_up, watch_rounds}
use pocket_flow_go.Server.Listing.{handle_get_task}
use pocket_flow_go.Engine.Core.Laws.{Ends, Ends-continue, Ends-map}
use pocket_flow_go.Server.Tasks.{store_error}
use pocket_flow_go.Store.{Task}
use pocket_flow_go.Store.Tasks.{get_task}
use pocket_flow_go.Store.Tasks.Laws.{find_task}
use pocket_flow_go.Store.Tasks.Joined.{joined-named}
use pocket_flow_go.Server.{Response}
use pocket_flow_go.Engine.Core.Kept.{Ends-returned}
use pocket_flow_go.Engine.{returned}
use mathlib.Core.Option.{some-injective}

module _ {F : Type 0} (e : Engine F) (o : Outside) where
  -- The worlds that a watch from a world asks about the task: the first, and what others leave after
  -- each poll whose answer is not final.
  pub data Moments : String → World → World → Type 0 where
    first_poll : {id : String} {w : World} → Moments id w w
    next_poll :
        {id : String} {w v u : World} {s : Option String}
        → get_status e o id w ≡ returned s v
        → s ≢ some "completed"
        → s ≢ some "failed"
        → Moments id (o.meanwhile v) u
        → Moments id w u

  -- A final status was the task's at a moment of the watch.
  abbrev pub Seen : String → World → Watched → Type 0
  Seen id w gave_up = Unit
  Seen id w (final s) =
      ((s ≡ "completed") ⊎ (s ≡ "failed"))
      × (u : World) × Moments id w u
      × (t : Task) × (find_task id u.db ≡ some t)
      × (t.status ≡ s)

  later-Seen :
      (id : String) (w v : World) (s : Option String) (seen : Watched)
      → get_status e o id w ≡ returned s v
      → s ≢ some "completed"
      → s ≢ some "failed"
      → Seen id (o.meanwhile v) seen
      → Seen id w seen
  later-Seen id w v s gave_up asked_it no_end no_fail h = tt
  later-Seen id w v s (final x) asked_it no_end no_fail (ended, u, moments, t, found, same) =
      (ended, u, next_poll asked_it no_end no_fail moments, t, found, same)

  -- What an answer says of the task's status.
  abbrev Told : String → World → Option String → Type 0
  Told id u none = Unit
  Told id u (some s) = s ≢ "" → (t : Task) × (find_task id u.db ≡ some t) × (t.status ≡ s)

  final-Told :
      (id : String) (w : World) (s : String)
      → (s ≡ "completed") ⊎ (s ≡ "failed")
      → Told id w (some s)
      → (t : Task) × (find_task id w.db ≡ some t) × (t.status ≡ s)
  final-Told id w s (inl h) told =
      told (λ same. ground (arith, eq_iff "completed" "", sym h ∙ same))
  final-Told id w s (inr h) told = told (λ same. ground (arith, eq_iff "failed" "", sym h ∙ same))

  asked :
      (id : String) (w : World)
      → Ends (handle_get_task id w) (λ res v.
        status_of res ≢ "" → (t : Task) × (find_task id w.db ≡ some t) × (t.status ≡ status_of res))
  unfolding handle_get_task status_of store_error get_task
  asked id w = elim (Option-cases (find_task id w.db)) [
    | inl h ↦ rw (Ends, h) (λ some_status. absurd (some_status refl))
    | inr (t, h) ↦
        let (flow, name, version, read) = joined-named w.db t in
        rw (Ends, h, read) (λ some_status. (t, refl, refl))
  ]

  get_status-Told : (id : String) (w : World) → Ends (get_status e o id w) (λ s v. Told id w s)
  unfolding get_status call_api
  get_status-Told id w =
      let there : World = record w { tick = suc w.tick } in
      elim (Link-cases (o.link w.tick)) [
        | inl h ↦ rw h tt
        | inr (inl h) ↦ rw h (
            Ends-continue _ (λ s v. Told id w s)
              (continue (handle_get_task id there) (λ _. pure {A = Option Response} none)) _
              (Ends-continue _ (λ res v. res ≡ none) (handle_get_task id there) _ (asked id there)
                (λ _ v told. refl))
              (λ res v lost. rw lost tt))
        | inr (inr h) ↦ rw h (
            Ends-continue _ (λ s v. Told id w s)
              (continue (handle_get_task id there) (λ res. pure {A = Option Response} (some res))) _
              (Ends-continue _
                (λ res v. Told id w (elim res [ none ↦ none | some r ↦ some (status_of r) ]))
                (handle_get_task id there) _ (asked id there) (λ _ v told. told))
              (λ res v told. told))
      ]

  -- Whatever the links do and whatever others do between the polls, monitorTask ends within its
  -- rounds; where it reports a final status, that is completed or failed, and was the status of
  -- the task's row at one of its polls, before which no poll had a final answer.
  pub watch_rounds-Seen :
      (rounds : ℕ) (id : String) (w : World)
      → Ends (watch_rounds e o rounds id w) (λ seen v. Seen id w seen)
  unfolding watch_rounds
  watch_rounds-Seen zero id w = tt
  watch_rounds-Seen (suc rounds) id w =
      Ends-continue (λ s v. Told id w s × (get_status e o id w ≡ returned s v))
        (λ seen v. Seen id w seen) (get_status e o id w) _
        (Ends-returned _ _ (get_status-Told id w))
        (λ status v (told, polled). elim (Option-cases status) [
          | inl h ↦ rw h (
              Ends-map (λ seen x. Seen id (o.meanwhile v) seen) (λ seen x. Seen id w seen)
                (watch_rounds e o rounds id (o.meanwhile v))
                (watch_rounds-Seen rounds id (o.meanwhile v))
                (λ seen x. later-Seen id w v status seen polled (λ same. cc) (λ same. cc)))
          | inr (s, h) ↦ elim (Bool-cases (s == "completed" || s == "failed")) [
            | inl ended ↦
                let final_status : (s ≡ "completed") ⊎ (s ≡ "failed") =
                  ground (arith, ended, eq_iff s "completed", eq_iff s "failed") in
                let (t, found, same) = final-Told id w s final_status (rw h at told) in
                rw (Ends, h, ended) (final_status, w, first_poll, t, found, same)
            | inr goes_on ↦
                let no_end : status ≢ some "completed" = λ same.
                  let s_end = some-injective _ _ (sym h ∙ same) in
                  ground (arith, goes_on, eq_iff s "completed", s_end) in
                let no_fail : status ≢ some "failed" = λ same.
                  let s_fail = some-injective _ _ (sym h ∙ same) in
                  ground (arith, goes_on, eq_iff s "failed", s_fail) in
                rw (h, goes_on)
                  (Ends-map (λ seen x. Seen id (o.meanwhile v) seen) (λ seen x. Seen id w seen)
                    (watch_rounds e o rounds id (o.meanwhile v))
                    (watch_rounds-Seen rounds id (o.meanwhile v))
                    (λ seen x. later-Seen id w v status seen polled no_end no_fail))
          ]
        ])
