-- ===== src/Queries/Outbox.antt =====
-- internal/db/generated/outbox.sql.go
use mini_databricks.Base.{
  ℕ, ◌+◌, Bool, true, false, ◌&&◌, Option, none, some, List, [], ◌∷◌, ◌++◌, take, select, update,
  delete, order_by, ltb,
}
use mini_databricks.Base.Text.{Text}
use mini_databricks.Errors.{ok}
use mini_databricks.Db.{Outbox, OutboxStatus, Json, Uuid, Timestamp}
use mini_databricks.Db.Row.{outbox_has_id, outbox_is_pending}
use mini_databricks.World.{Query}
use mini_databricks.Queries.Rows.{returning, take_id}

abbrev pub update_outbox : (Outbox → Bool) → (Outbox → Outbox) → Query Outbox
update_outbox p f now db = (returning p f db.outbox, record db { outbox = update p f db.outbox })

abbrev pub new_event : Text → Uuid → Json → Uuid → Timestamp → Outbox
new_event kind aggregate payload k now = record {
  id = k;
  event_type = kind;
  aggregate_id = aggregate;
  payload = payload;
  status = OutboxStatus.pending;
  attempts = 0;
  created_at = now;
  published_at = none;
}

unfoldable pub create_outbox_event : Text → Uuid → Json → Query Outbox
create_outbox_event kind aggregate payload now db =
    let e : Outbox = new_event kind aggregate payload db.next_id now in
    (ok e, record (take_id db) { outbox = db.outbox ++ e ∷ [] })

-- `ORDER BY created_at ASC LIMIT 10`
abbrev pub created_before : Outbox → Outbox → Bool
created_before a b = ltb a.created_at b.created_at

-- The events that `GetPendingOutboxEvents` selects.
abbrev pub pending_events : List Outbox → List Outbox
pending_events rows =
    take 10 (order_by created_before (select (λ e. outbox_is_pending e.status) rows))

unfoldable pub get_pending_outbox_events : Query (List Outbox)
get_pending_outbox_events now db = (ok (pending_events db.outbox), db)

abbrev pub delivered_at : Timestamp → Outbox → Outbox
delivered_at now e = record e { status = OutboxStatus.delivered; published_at = some now }

unfoldable pub mark_outbox_delivered : Uuid → Query Outbox
mark_outbox_delivered k now = update_outbox (outbox_has_id k) (delivered_at now) now

abbrev pub failed_once_more : Outbox → Outbox
failed_once_more e = record e { status = OutboxStatus.failed; attempts = e.attempts + 1 }

unfoldable pub mark_outbox_failed : Uuid → Query Outbox
mark_outbox_failed k = update_outbox (outbox_has_id k) failed_once_more

-- `INTERVAL '24 hours'`
abbrev pub day_seconds : ℕ
day_seconds = 86400

abbrev pub is_delivered : OutboxStatus → Bool
is_delivered OutboxStatus.delivered = true
is_delivered _ = false

-- `published_at < NOW() - INTERVAL '24 hours'`, which a NULL does not satisfy
abbrev older_than_day : Option Timestamp → Timestamp → Bool
older_than_day none now = false
older_than_day (some t) now = ltb (t + day_seconds) now

abbrev pub is_old_delivery : Timestamp → Outbox → Bool
is_old_delivery now e = is_delivered e.status && older_than_day e.published_at now

unfoldable pub cleanup_delivered_outbox_events : Query (Unit {0})
cleanup_delivered_outbox_events now db =
    (ok tt, record db { outbox = delete (is_old_delivery now) db.outbox })
