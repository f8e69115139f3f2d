-- ===== src/JobService/Cancel.antt =====
-- What a cancellation does on a calm network.
use mathlib.Core.Path.{subst}
use mini_databricks.Base.{
  ◌≡◌, ◌∙◌, refl, sym, ap, ◌⊎◌, inl, inr, Bool, true, false, ◌||◌, some, List, [], ◌∷◌, All, select,
  update, insert_by, order_by, first, first-update, map_option, ltb, ◌==◌, arith, Bool-cases,
}
use mini_databricks.Base.Text.{Text}
use mini_databricks.Errors.{Result, ok}
use mini_databricks.Db.{Uuid, Job, JobState, Run, RunState}
use mini_databricks.Db.Row.{job_has_id, run_has_id}
use mini_databricks.World.{World, calm, tick, call, query, ignore, actions, parse_uuid}
use mini_databricks.World.Chains.{bind_ok, then_ok, wrap_ok}
use mini_databricks.Queries.Jobs.{update_job_state, with_job_state}
use mini_databricks.Queries.Runs.{list_runs_by_job, update_run_state, with_run_state}
use mini_databricks.JobService.{cancel_job, cancel_runs}

abbrev mem_id : Uuid → List Run → Bool
mem_id i [] = false
mem_id i (r ∷ rs) = (r.id == i) || mem_id i rs

mem_id-insert_by :
    (before : Run → Run → Bool) (i : Uuid) (r : Run) (rs : List Run)
    → mem_id i (insert_by before r rs) ≡ ((r.id == i) || mem_id i rs)
mem_id-insert_by before i r [] = refl
mem_id-insert_by before i r (x ∷ xs) = elim (Bool-cases (before x r)) [
  | inl first ↦ rw (first, mem_id-insert_by before i r xs) (ground arith)
  | inr later ↦ rw later
]

mem_id-order_by :
    (before : Run → Run → Bool) (i : Uuid) (rs : List Run)
    → mem_id i (order_by before rs) ≡ mem_id i rs
mem_id-order_by before i [] = refl
mem_id-order_by before i (r ∷ rs) =
    mem_id-insert_by (λ a b. before a b) i r (order_by before rs)
    ∙ ap (λ b. (r.id == i) || b) (mem_id-order_by before i rs)

module _ (k : Uuid) where
  abbrev of_job : Run → Bool
  of_job r = r.job_id == k

  -- Every run of the job is cancelled or one of those still to be cancelled.
  abbrev CancelledOr : List Run → Run → Type 0
  CancelledOr rs r = of_job r ≡ true → (r.state ≡ RunState.cancelled) ⊎ (mem_id r.id rs ≡ true)

  abbrev Listed : List Run → List Run → Type 0
  Listed rs xs = All (λ r. of_job r ≡ true → mem_id r.id rs ≡ true) xs

  more : (x : Run) (rs xs : List Run) → Listed rs xs → Listed (x ∷ rs) xs
  more x rs [] h = tt
  more x rs (y ∷ ys) h = (λ e. ground (arith, h.0 e), more x rs ys h.1)

  select_hit :
      (r : Run) (rs : List Run) → of_job r ≡ true → r ∷ select of_job rs ≡ select of_job (r ∷ rs)
  select_hit r rs h = rw h

  select_miss :
      (r : Run) (rs : List Run) → of_job r ≡ false → select of_job rs ≡ select of_job (r ∷ rs)
  select_miss r rs h = rw h

  selected : (rs : List Run) → Listed (select of_job rs) rs
  selected [] = tt
  selected (r ∷ rs) = elim (Bool-cases (of_job r)) [
    | inl hit ↦
        subst (λ l. Listed l (r ∷ rs)) (select_hit r rs hit)
          (λ _. ground arith, more r (select of_job rs) rs (selected rs))
    | inr miss ↦
        subst (λ l. Listed l (r ∷ rs)) (select_miss r rs miss)
          (λ e. absurd (ground (arith, e, miss)), selected rs)
  ]

  listed :
      (before : Run → Run → Bool) (rs xs : List Run)
      → Listed rs xs
      → All (CancelledOr (order_by before rs)) xs
  listed before rs [] h = tt
  listed before rs (x ∷ xs) h =
      (λ e. inr (mem_id-order_by before x.id rs ∙ h.0 e), listed before rs xs h.1)

  cancel_one :
      (x : Run) (rs runs : List Run)
      → All (CancelledOr (x ∷ rs)) runs
      → All (CancelledOr rs) (update (run_has_id x.id) (with_run_state RunState.cancelled) runs)
  cancel_one x rs [] h = tt
  cancel_one x rs (r ∷ runs) h = elim (Bool-cases (run_has_id x.id r)) [
    | inl hit ↦ rw hit (λ _. inl refl, cancel_one x rs runs h.1)
    | inr miss ↦ rw miss (
      λ e. elim (h.0 e) [
        | inl cancelled ↦ inl cancelled
        | inr mem ↦ inr (ground (arith, mem, miss))
      ],
      cancel_one x rs runs h.1,
    )
  ]

-- The world after the loop over these runs.
abbrev after_loop : List Run → World → World
after_loop [] w = w
after_loop (r ∷ rs) w = after_loop rs (record (tick w) {
  db = record w.db {
    runs = update (run_has_id r.id) (with_run_state RunState.cancelled) w.db.runs;
  };
})

cancel_runs_loop :
    (rs : List Run) (w : World) → cancel_runs rs (calm w) ≡ (ok tt, calm (after_loop rs w))
unfolding cancel_runs
cancel_runs_loop [] w = unfold actions in refl
cancel_runs_loop (r ∷ rs) w =
    then_ok _ (cancel_runs rs) (calm w) (cancelled r w) ∙ cancel_runs_loop rs _
  where
    cancelled :
        (r : Run) (w : World)
        → ignore (query (update_run_state r.id RunState.cancelled)) (calm w)
          ≡ (ok tt, calm (after_loop (r ∷ []) w))
    cancelled r w = unfold actions call update_run_state in refl

after_loop-All :
    (k : Uuid) (rs : List Run) (w : World)
    → All (CancelledOr k rs) w.db.runs
    → All (CancelledOr k []) (after_loop rs w).db.runs
after_loop-All k [] w h = h
after_loop-All k (r ∷ rs) w h = after_loop-All k rs _ (cancel_one k r rs w.db.runs h)

after_loop-tables :
    (rs : List Run) (w : World)
    → ((after_loop rs w).db.jobs ≡ w.db.jobs) × ((after_loop rs w).db.tasks ≡ w.db.tasks)
after_loop-tables [] w = (refl, refl)
after_loop-tables (r ∷ rs) w = after_loop-tables rs _

all_cancelled :
    (k : Uuid) (runs : List Run)
    → All (CancelledOr k []) runs
    → All (λ r. (r.job_id == k) ≡ true → r.state ≡ RunState.cancelled) runs
all_cancelled k [] h = tt
all_cancelled k (r ∷ rs) h = (
  λ e. elim (h.0 e) [ inl cancelled ↦ cancelled | inr mem ↦ absurd (ground (arith, mem)) ],
  all_cancelled k rs h.1,
)

module _ (t : Text) (k : Uuid) (w : World) {j : Job} (read : w.env.parse_uuid t ≡ ok k)
    (has_job : first (job_has_id k) w.db.jobs ≡ some j) where
  abbrev newest_first : Run → Run → Bool
  newest_first a b = ltb b.created_at a.created_at

  abbrev runs_of : List Run
  runs_of = order_by newest_first (select (of_job k) w.db.runs)

  -- The world in which the job is cancelled and its runs are read.
  abbrev job_cancelled : World
  job_cancelled = record (tick (tick w)) {
    db = record w.db { jobs = update (job_has_id k) (with_job_state JobState.cancelled) w.db.jobs };
  }

  -- The job is cancelled, and so is every run of it; no task changes.
  abbrev pub IsCancelled : Result Job × World → Type 0
  IsCancelled x =
      (x.0 ≡ ok (with_job_state JobState.cancelled j))
      × (first (job_has_id k) x.1.db.jobs ≡ some (with_job_state JobState.cancelled j))
      × All (λ r. (r.job_id == k) ≡ true → r.state ≡ RunState.cancelled) x.1.db.runs
      × (x.1.db.tasks ≡ w.db.tasks)

  cancel_job_runs :
      cancel_job t (calm w)
      ≡ (ok (with_job_state JobState.cancelled j), calm (after_loop runs_of job_cancelled))
  unfolding cancel_job
  cancel_job_runs =
      bind_ok _ _ (calm w) (wrap_ok _ (calm w) _ id_read)
      ∙ bind_ok _ _ (calm w) (wrap_ok _ (calm w) _ job_updated)
      ∙ bind_ok _ _ _ (wrap_ok _ (calm job_updated_world) _ runs_read)
      ∙ then_ok _ _ _ (cancel_runs_loop runs_of job_cancelled)
      ∙ unfold actions in refl
    where
      id_read : parse_uuid t (calm w) ≡ (ok k, calm w)
      id_read = unfold actions in ap (λ r. (r, calm w)) read

      job_updated_world : World
      job_updated_world = record (tick w) {
        db = record w.db {
          jobs = update (job_has_id k) (with_job_state JobState.cancelled) w.db.jobs;
        };
      }

      job_updated :
          query (update_job_state k JobState.cancelled) (calm w)
          ≡ (ok (with_job_state JobState.cancelled j), calm job_updated_world)
      job_updated = unfold actions call update_job_state in rw has_job

      runs_read :
          query (list_runs_by_job k) (calm job_updated_world) ≡ (ok runs_of, calm job_cancelled)
      runs_read = unfold actions call list_runs_by_job in refl

  -- On a network that answers every call, for a job that has a row: whatever states they were in, the
  -- job and every run of it are cancelled then, and no task changes.
  pub cancel_job-IsCancelled : IsCancelled (cancel_job t (calm w))
  cancel_job-IsCancelled =
      let (same_jobs, same_tasks) = after_loop-tables runs_of job_cancelled in
      subst IsCancelled (sym cancel_job_runs) (
        refl,
        ap (first (job_has_id k)) same_jobs
            ∙ first-update (job_has_id k) (with_job_state JobState.cancelled) (λ x. refl) w.db.jobs
            ∙ ap (map_option (with_job_state JobState.cancelled)) has_job,
        all_cancelled k _ (
            after_loop-All k runs_of job_cancelled (
              listed k newest_first (select (of_job k) w.db.runs) w.db.runs
                (selected k w.db.runs))),
        same_tasks,
      )
