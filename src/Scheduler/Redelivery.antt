-- ===== src/Scheduler/Redelivery.antt =====
-- An event that is delivered twice is handled twice.
use mathlib.Core.Path.{subst}
use mini_databricks.Base.{
  ◌+◌, ◌<◌, ◌≤◌, ◌∙◌, ◌≡◌, sym, ap, false, some, List, [], ◌∷◌, All, All-append, first, length,
  length-append, arith,
}
use mini_databricks.Db.{Db, Uuid, Run, Job, Json}
use mini_databricks.Db.Row.{job_has_id}
use mini_databricks.World.{World, calm, actions}
use mini_databricks.Scheduler.{handle_job_submitted, start_workers}
use mini_databricks.Scheduler.Created.{IsNewRun, ready}
use mini_databricks.Scheduler.Plan.{
  IsEvent, IsPlan, handled_all, job_queued, ready-IsPlan, handle_job_submitted_plans,
}

-- `next_id` is above the identifier of every run.
abbrev pub RunsBelow : Db → Type 0
RunsBelow db = All (λ r. r.id < db.next_id) db.runs

below_is_new : (k : Uuid) (rs : List Run) → All (λ r. r.id < k) rs → IsNewRun k rs
below_is_new k [] h = tt
below_is_new k (r ∷ rs) h = (ground (arith, h.0), below_is_new k rs h.1)

below_more : (k m : Uuid) (rs : List Run) → k ≤ m → All (λ r. r.id < k) rs → All (λ r. r.id < m) rs
below_more k m [] le h = tt
below_more k m (r ∷ rs) le h = (omega (arith, h.0), below_more k m rs le h.1)

length-IsPlan-runs :
    (job workspace : Uuid) (a b : Db) → IsPlan job workspace a b → length b.runs ≡ length a.runs + 1
length-IsPlan-runs job workspace a b p = ap length p.runs ∙ length-append a.runs (p.run ∷ [])

length-IsPlan-tasks :
    (job workspace : Uuid) (a b : Db)
    → IsPlan job workspace a b
    → length b.tasks ≡ length a.tasks + 3
length-IsPlan-tasks job workspace a b p =
    ap length p.tasks ∙ length-append a.tasks (p.task_0 ∷ p.task_1 ∷ p.task_2 ∷ [])

module _ (payload : Json) (job workspace : Uuid) (w : World) {j : Job}
    (e : IsEvent w payload job workspace) (has_job : first (job_has_id job) w.db.jobs ≡ some j)
    (below : RunsBelow w.db) where
  new : IsNewRun w.db.next_id w.db.runs
  new = below_is_new w.db.next_id w.db.runs below

  abbrev once : World
  once = ready e.event job workspace w has_job (below_is_new w.db.next_id w.db.runs below)

  handled_once : (handle_job_submitted false payload (calm w)).1 ≡ calm once
  unfolding start_workers actions
  handled_once = ap (λ x. x.1) (handled_all false payload job workspace w e has_job new)

  below_once : RunsBelow once.db
  below_once =
      All-append (λ r. r.id < once.db.next_id) w.db.runs (_ ∷ [])
        (below_more w.db.next_id once.db.next_id w.db.runs (omega arith) below) (omega arith, tt)

  event_once : IsEvent once payload job workspace
  event_once = record {
    event = e.event;
    parsed = e.parsed;
    job_id = e.job_id;
    workspace_id = e.workspace_id;
  }

  abbrev twice : World
  twice = (handle_job_submitted false payload (calm once)).1

  second-IsPlan : IsPlan job workspace once.db twice.db
  second-IsPlan =
      (handle_job_submitted_plans false payload job workspace once event_once
        (job_queued false payload job workspace w e has_job new)
        (below_is_new once.db.next_id once.db.runs below_once)).1

  -- On a network that answers every call and with no cluster, with a well-formed event about a job
  -- that has a row, and identifiers not used before: handling the same event twice adds two runs
  -- and six tasks.
  pub redelivery_doubles :
      let v = (handle_job_submitted false payload (calm w)).1 in
      let v' = (handle_job_submitted false payload v).1 in
      (length v'.db.runs ≡ length w.db.runs + 2) × (length v'.db.tasks ≡ length w.db.tasks + 6)
  redelivery_doubles =
      subst
        (λ v.
          let v' = (handle_job_submitted false payload v).1 in
          (length v'.db.runs ≡ length w.db.runs + 2) × (length v'.db.tasks ≡ length w.db.tasks + 6))
        (sym handled_once)
        (
          omega (
            arith,
            length-IsPlan-runs job workspace w.db once.db
                (ready-IsPlan false payload job workspace w e has_job new),
            length-IsPlan-runs job workspace once.db twice.db second-IsPlan,
          ),
          omega (
            arith,
            length-IsPlan-tasks job workspace w.db once.db
                (ready-IsPlan false payload job workspace w e has_job new),
            length-IsPlan-tasks job workspace once.db twice.db second-IsPlan,
          ),
        )
