-- ===== src/Worker/System.antt =====
-- Several workers and the other services on one tasks table, in any order: what the statements of
-- services/worker, services/scheduler and services/cleanup on that table can do, one at a time.
pub mod Held
pub mod Exclusive
pub mod Turns
pub mod Refined
use mini_databricks.Base.{
  ℕ, suc, ◌+◌, ◌<◌, ◌≡◌, Bool, true, false, Option, none, some, List, [], ◌∷◌, ◌++◌, All, update,
  delete, ◌==◌, if◌then◌else◌,
}
use mini_databricks.Base.Text.{Text}
use mini_databricks.Db.{Task, TaskState, Uuid}
use mini_databricks.Db.Row.{task_has_id}
use mini_databricks.Queries.Tasks.{
  oldest_leasable, lease_to, with_state, failed_with, back_to_pending, is_held_by, new_task,
  is_stale_task,
}

-- The rows, the next identifier, and the task that each worker has in hand.
pub record System : Type 0 where
  pub tasks : List Task
  pub next_id : Uuid
  pub hand : ℕ → Option Task

abbrev pub set_hand : ℕ → Option Task → (ℕ → Option Task) → ℕ → Option Task
set_hand i x hand j = if j == i then x else hand j

-- How a worker ends a task in hand: the four statements on its row.
pub data Ending : (Task → Task) → Type 0 where
  dies : Ending (with_state TaskState.dead)
  succeeds : Ending (with_state TaskState.succeeded)
  fails : (m : Text) (now : ℕ) → Ending (failed_with m now)
  goes_back : (m : Text) → Ending (back_to_pending m)

abbrev pub leased_tasks : Text → ℕ → Task → List Task → List Task
leased_tasks owner now c ts = update (task_has_id c.id) (lease_to owner now) ts

-- What a poll of a worker does. A worker without a task leases the oldest one, or leases it and does
-- not get the answer; it ends the task in hand, or its poll returns or the worker dies and leaves
-- the task as it is.
pub data PollStep (name : ℕ → Text) (i : ℕ) (s : System) : System → Type 0 where
  lease :
      (now : ℕ) {c : Task}
      → s.hand i ≡ none
      → oldest_leasable now s.tasks ≡ some c
      → PollStep name i s (record s {
        tasks = leased_tasks (name i) now c s.tasks;
        hand = set_hand i (some (lease_to (name i) now c)) s.hand;
      })
  lease_unanswered :
      (now : ℕ) {c : Task}
      → s.hand i ≡ none
      → oldest_leasable now s.tasks ≡ some c
      → PollStep name i s (record s { tasks = leased_tasks (name i) now c s.tasks })
  finish :
      {t : Task} {f : Task → Task}
      → s.hand i ≡ some t
      → Ending f
      → PollStep name i s
          (record s { tasks = update (task_has_id t.id) f s.tasks; hand = set_hand i none s.hand })
  give_up : PollStep name i s (record s { hand = set_hand i none s.hand })

abbrev pub until : ℕ → Task → Task
until n t = record t { lease_expires_at = some n }

-- A heartbeat extends the lease of a task that its worker holds by 30 seconds from now.
pub data BeatStep (name : ℕ → Text) (i : ℕ) (k : Uuid) (s : System) : System → Type 0 where
  beat :
      (now : ℕ)
      → BeatStep name i k s
          (record s { tasks = update (is_held_by k (name i)) (until (now + 30)) s.tasks })

-- A worker polls or its heartbeat beats, the scheduler adds a task, or the cleanup removes old ones.
pub data Step (name : ℕ → Text) (s : System) : System → Type 0 where
  polls : (i : ℕ) {t : System} → PollStep name i s t → Step name s t
  beats : (i : ℕ) (k : Uuid) {t : System} → BeatStep name i k s t → Step name s t
  create :
      (run workspace : Uuid) (index now : ℕ)
      → Step name s (record s {
        tasks = s.tasks ++ new_task run workspace index s.next_id now ∷ [];
        next_id = suc s.next_id;
      })
  clean : (now : ℕ) → Step name s (record s { tasks = delete (is_stale_task now) s.tasks })

-- Any number of steps of a kind.
pub data Steps (R : System → System → Type 0) (s : System) : System → Type 0 where
  done : Steps R s s
  later : {t u : System} → Steps R s t → R t u → Steps R s u

-- The start: rows with identifiers that have been given out, and no task in hand.
pub record IsStart (s : System) : Type 0 where
  pub below : All (λ r. r.id < s.next_id) s.tasks
  pub idle : (i : ℕ) → s.hand i ≡ none
