-- ===== src/Pipeline/Queue.antt =====
-- New tasks at the end of the tasks table.
use mini_databricks.Base.{◌+◌, ◌≤◌, ◌<◌, ◌≡◌, false, List, [], ◌∷◌, ◌++◌, All, ◌==◌, arith}
use mini_databricks.Db.{Task, Uuid}
use mini_databricks.Worker.Drain.Measure.{Unique, ids_of}
use mini_databricks.Worker.WholeRun.Pending.{pending_count}

pub pending_count-append :
    (ts us : List Task) → pending_count (ts ++ us) ≡ pending_count ts + pending_count us
unfolding pending_count
pending_count-append [] us = omega arith
pending_count-append (t ∷ ts) us = rw (pending_count-append ts us) (omega arith)

-- Identifiers below a bound and identifiers from it on are different.
apart :
    (n k : Uuid) (ts us : List Task)
    → k < n
    → All (λ j. (j == k) ≡ false) (ids_of ts)
    → All (λ t. n ≤ t.id) us
    → All (λ j. (j == k) ≡ false) (ids_of (ts ++ us))
apart n k [] [] le h above = tt
apart n k [] (u ∷ us) le h above = (ground (arith, above.0), apart n k [] us le tt above.1)
apart n k (t ∷ ts) us le h above = (h.0, apart n k ts us le h.1 above)

pub Unique-append :
    (n : Uuid) (ts us : List Task)
    → Unique (ids_of ts)
    → All (λ t. t.id < n) ts
    → Unique (ids_of us)
    → All (λ t. n ≤ t.id) us
    → Unique (ids_of (ts ++ us))
Unique-append n [] us u below new above = new
Unique-append n (t ∷ ts) us u below new above =
    (apart n t.id ts us below.0 u.0 above, Unique-append n ts us u.1 below.1 new above)
