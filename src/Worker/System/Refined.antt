-- ===== src/Worker/System/Refined.antt =====
-- A poll of a worker and a tick of its heartbeat (`pollAndProcess` and `heartbeat` of
-- services/worker) take steps of the system of workers.
use mini_databricks.Base.{◌≡◌, ℕ, some, List}
use mini_databricks.Base.Text.{Text}
use mini_databricks.Db.{Task, Uuid}
use mini_databricks.World.{World}
use mini_databricks.World.Ends.{Ends}
use mini_databricks.Queries.Tasks.{oldest_leasable}
use mini_databricks.Worker.System.{System, Steps}
use mini_databricks.Worker.System.Turns.{Hand}

module _ (owner : Text) (ts : List Task) where
  -- The worker has leased the oldest task, by whatever row the identifier found.
  record InHand (t : Task) (v : World) : Type 0 where
    now : ℕ
    chosen : Task
    is_oldest : oldest_leasable now ts ≡ some chosen
    same : t.id ≡ chosen.id
    rows : Hand owner ts now chosen is_oldest t same v

-- What a system has become by steps of a kind: the rows are those of a world, and the hands are as they
-- were.
pub record Refines (R : System → System → Type 0) (s : System) (w : World) : Type 0 where
  pub after : System
  pub steps : Steps R s after
  pub same_tasks : after.tasks ≡ w.db.tasks
  pub same_hands : (j : ℕ) → after.hand j ≡ s.hand j

module _ (name : ℕ → Text) (s : System) (i : ℕ) (k : Uuid) where
  abbrev SameRows : World → Type 0
  SameRows v = s.tasks ≡ v.db.tasks
