-- ===== src/Kafka/Drained.antt =====
-- What the dispatcher does on a calm network.
use mathlib.Core.List.{append_assoc, append-nil}
use mini_databricks.Base.{
  ℕ, ◌∙◌, ◌≡◌, refl, sym, true, List, [], ◌∷◌, ◌++◌, All, All-update, map, update, arith,
}
use mini_databricks.Errors.{ok}
use mini_databricks.Db.{Outbox, OutboxStatus, Uuid}
use mini_databricks.Db.Row.{outbox_has_id}
use mini_databricks.World.{World, calm, tick, actions, call, query}
use mini_databricks.World.Chains.{bind_ok, then_ok}
use mini_databricks.Kafka.Oldest.{IsOldestPending, pending_events-IsOldestPending}
use mini_databricks.Queries.Outbox.{
  get_pending_outbox_events, mark_outbox_delivered, delivered_at, pending_events,
}
use mini_databricks.Kafka.{dispatch, dispatch_all, dispatch_event, event_message}

-- The world after one event is published and marked.
abbrev pub delivered : Outbox → World → World
delivered e w = record (tick (tick w)) {
  topics = w.topics ++ event_message e w ∷ [];
  db = record w.db {
    outbox = update (outbox_has_id e.id) (delivered_at (tick (tick w)).now) w.db.outbox;
  };
}

event_delivered :
    (e : Outbox) (w : World) → dispatch_event e (calm w) ≡ (ok tt, calm (delivered e w))
unfolding dispatch_event actions call mark_outbox_delivered
event_delivered e w = refl

abbrev pub all_delivered : List Outbox → World → World
all_delivered [] w = w
all_delivered (e ∷ es) w = all_delivered es (delivered e w)

events_delivered :
    (es : List Outbox) (w : World) → dispatch_all es (calm w) ≡ (ok tt, calm (all_delivered es w))
unfolding dispatch_all
events_delivered [] w = unfold actions in refl
events_delivered (e ∷ es) w =
    then_ok (dispatch_event e) (dispatch_all es) (calm w) (event_delivered e w)
    ∙ events_delivered es (delivered e w)

delivered-topics :
    (es : List Outbox) (w : World)
    → (all_delivered es w).topics ≡ w.topics ++ map (λ e. event_message e w) es
delivered-topics [] w = sym (append-nil w.topics)
delivered-topics (e ∷ es) w =
    delivered-topics es (delivered e w) ∙ append_assoc w.topics (event_message e w ∷ []) _

-- Every row with the event's identifier is delivered.
abbrev pub IsDelivered : Uuid → List Outbox → Type 0
IsDelivered k rows = All (λ r. outbox_has_id k r ≡ true → r.status ≡ OutboxStatus.delivered) rows

IsDelivered-now :
    (k : Uuid) (now : ℕ) (rows : List Outbox)
    → IsDelivered k (update (outbox_has_id k) (delivered_at now) rows)
IsDelivered-now k now [] = tt
IsDelivered-now k now (r ∷ rows) = (ground arith, IsDelivered-now k now rows)

stays-IsDelivered :
    (k j : Uuid) (now : ℕ) (rows : List Outbox)
    → IsDelivered k rows
    → IsDelivered k (update (outbox_has_id j) (delivered_at now) rows)
stays-IsDelivered k j now rows h =
    All-update (λ r. outbox_has_id k r ≡ true → r.status ≡ OutboxStatus.delivered) (outbox_has_id j)
      (delivered_at now) (λ r hit d same. refl) rows h

all_stay :
    (k : Uuid) (es : List Outbox) (w : World)
    → IsDelivered k w.db.outbox
    → IsDelivered k (all_delivered es w).db.outbox
all_stay k [] w h = h
all_stay k (e ∷ es) w h =
    all_stay k es (delivered e w) (stays-IsDelivered k e.id (tick (tick w)).now w.db.outbox h)

All-IsDelivered :
    (es : List Outbox) (w : World) → All (λ e. IsDelivered e.id (all_delivered es w).db.outbox) es
All-IsDelivered [] w = tt
All-IsDelivered (e ∷ es) w = (
  all_stay e.id es (delivered e w) (IsDelivered-now e.id (tick (tick w)).now w.db.outbox),
  All-IsDelivered es (delivered e w),
)

pending_found :
    (w : World)
    → query get_pending_outbox_events (calm w) ≡ (ok (pending_events w.db.outbox), calm (tick w))
unfolding get_pending_outbox_events actions call
pending_found w = refl

pub dispatch_run :
    (w : World)
    → dispatch (calm w) ≡ (ok tt, calm (all_delivered (pending_events w.db.outbox) (tick w)))
unfolding dispatch
dispatch_run w =
    bind_ok (query get_pending_outbox_events) dispatch_all (calm w) (pending_found w)
    ∙ events_delivered (pending_events w.db.outbox) (tick w)

-- On a calm network a dispatch takes the oldest pending events of the outbox, all of them or ten, and
-- reports no error; it publishes one message for each, the oldest first, after what the topics hold,
-- and every row with the identifier of one of them is delivered then. Of the outbox's other events,
-- those that are pending are no older than any of those taken.
pub dispatch_drains :
    (w : World)
    → (es : List Outbox) × IsOldestPending w.db.outbox es
      × ((dispatch (calm w)).0 ≡ ok tt)
      × ((dispatch (calm w)).1.topics ≡ w.topics ++ map (λ e. event_message e w) es)
      × All (λ e. IsDelivered e.id (dispatch (calm w)).1.db.outbox) es
dispatch_drains w = rw (dispatch_run w) (
  pending_events w.db.outbox,
  pending_events-IsOldestPending w.db.outbox,
  refl,
  delivered-topics (pending_events w.db.outbox) (tick w),
  All-IsDelivered (pending_events w.db.outbox) (tick w),
)
