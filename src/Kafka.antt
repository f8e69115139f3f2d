-- ===== src/Kafka.antt =====
-- internal/kafka: the dispatcher that publishes the outbox, and the consumer that retries a handler.
pub mod Attempts
pub mod Oldest
pub mod Drained
pub mod Delivered
pub mod Stuck
use mini_databricks.Base.{
  ℕ, zero, suc, ◌-◌, Bool, true, false, not, Option, none, some, List, [], ◌∷◌, ◌++◌, leb, ltb,
  if◌then◌else◌,
}
use mini_databricks.Base.Text.{Text, codes, same_text}
use mini_databricks.Errors.{GoError, Result, ok, err, error_text}
use mini_databricks.Db.{Outbox, Json, object, other_json}
use mini_databricks.World.{
  World, Action, Done, Message, pure, raise, attempt, ignore, gets, query, publish, ◌>>=◌, ◌>>◌,
}
use mini_databricks.Queries.Outbox.{
  get_pending_outbox_events, mark_outbox_delivered, mark_outbox_failed,
}

-- The last field of the name, as `json.Unmarshal` leaves it in a map.
unfoldable pub lookup_field : Text → List (Text × Text) → Option Text → Option Text
lookup_field k [] v = v
lookup_field k ((j, u) ∷ fields) v = lookup_field k fields (if same_text j k then some u else v)

abbrev pub non_empty : Option Text → Option Text
non_empty none = none
non_empty (some []) = none
non_empty (some (c ∷ t)) = some (c ∷ t)

-- The `traceparent` that the payload carries; a payload that is no map of texts carries none.
unfoldable pub trace_of : Json → Option Text
unfolding lookup_field
trace_of (object fields) = non_empty (lookup_field (codes "traceparent") fields none)
trace_of (other_json t) = none

abbrev pub event_message : Outbox → World → Message
event_message e w = record {
  topic = e.event_type;
  key = w.env.format_uuid e.aggregate_id;
  value = e.payload;
  traceparent = trace_of e.payload;
}

-- The results of the two marks are dropped.
abbrev pub mark : Outbox → Result Done → Action Done
mark e (ok _) = ignore (query (mark_outbox_delivered e.id))
mark e (err _) = ignore (query (mark_outbox_failed e.id))

unfoldable pub publish_event : Outbox → Action (Result Done)
publish_event e = gets (event_message e) >>= λ m. attempt (publish m)

unfoldable pub dispatch_event : Outbox → Action Done
unfolding publish_event
dispatch_event e = publish_event e >>= mark e

-- The loop over the pending events: a failed one does not stop it.
unfoldable pub dispatch_all : List Outbox → Action Done
unfolding dispatch_event
dispatch_all [] = pure tt
dispatch_all (e ∷ es) = dispatch_event e >> dispatch_all es

unfoldable pub dispatch : Action Done
unfolding dispatch_all
dispatch = query get_pending_outbox_events >>= dispatch_all

-- `maxRetries`
abbrev pub max_retries : ℕ
max_retries = 3

-- How the attempts of one message end: the context is done while the consumer backs off, the handler
-- has succeeded, or the last attempt has failed.
pub data Attempted : Type 0 where
  stopped handled : Attempted
  gave_up : GoError → Attempted

-- After a failed attempt: the last one gives up, any other backs off, unless the context is done.
-- `done k` says that it is done in the backoff after attempt `k`.
abbrev pub back_off : (ℕ → Bool) → ℕ → ℕ → GoError → Action Attempted → Action Attempted
back_off done zero attempt_no e again = pure (gave_up e)
back_off done (suc left) attempt_no e again = if done attempt_no then pure stopped else again

abbrev pub after_attempt : (ℕ → Bool) → ℕ → ℕ → Action Attempted → Result Done → Action Attempted
after_attempt done left attempt_no again (ok _) = pure handled
after_attempt done left attempt_no again (err e) = back_off done left attempt_no e again

-- The loop, with the attempts left after this one.
unfoldable pub attempts : (ℕ → Bool) → ℕ → ℕ → Action Done → Action Attempted
attempts done zero attempt_no handler =
    attempt handler >>= after_attempt done zero attempt_no (pure handled)
attempts done (suc left) attempt_no handler =
    let again = attempts done left (suc attempt_no) handler in
    attempt handler >>= after_attempt done (suc left) attempt_no again

abbrev pub dead_letter : Text → Message → GoError → World → Message
dead_letter dlq m e w = record {
  topic = dlq;
  key = m.key;
  value = object (
      (codes "original_payload", w.env.json_text m.value)
      ∷ (codes "error", error_text e)
      ∷ (codes "topic", m.topic)
      ∷ []);
  traceparent = none;
}

-- A message that was given up goes to the dead letters.
abbrev pub give_up : Text → Message → Attempted → Action Done
give_up dlq m stopped = pure tt
give_up dlq m handled = pure tt
give_up dlq m (gave_up e) = gets (dead_letter dlq m e) >>= λ d. ignore (publish d)

-- `Consume`, for one message that was read.
unfoldable pub consume : (ℕ → Bool) → Text → (Json → Action Done) → Message → Action Done
unfolding attempts
consume done dlq handler m = attempts done (max_retries - 1) 1 (handler m.value) >>= give_up dlq m
