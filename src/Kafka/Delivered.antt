-- ===== src/Kafka/Delivered.antt =====
-- Under any faults: an event is marked delivered only when its message is in the topics.
use mathlib.Core.List.{Memᴰ}
use mathlib.Core.Path.{subst}
use mini_databricks.Base.{
  ◌≡◌, ◌∙◌, refl, sym, ap, List, [], ◌∷◌, ◌++◌, All, All-update, All-select, update, ==→eq, arith,
}
use mini_databricks.Base.Sorted.{All-order_by, All-take}
use mini_databricks.Errors.{Result, ok, err}
use mini_databricks.Db.{Outbox, OutboxStatus, Uuid, Timestamp}
use mini_databricks.Db.Row.{outbox_has_id, outbox_is_pending}
use mini_databricks.World.{World, Env, Done, Message, gets, publish, query, modify}
use mini_databricks.World.Keeps.{Keeps-ignore, Keeps-query, Keeps-pure}
use mini_databricks.World.Ends.{
  Ends, Ends-Keeps, Ends-bind, Ends-attempt, Ends-call, Ends-query, Ends-then,
}
use mini_databricks.Queries.Outbox.{
  get_pending_outbox_events, mark_outbox_delivered, mark_outbox_failed, pending_events,
  delivered_at, failed_once_more, created_before,
}
use mini_databricks.Kafka.{
  dispatch, dispatch_all, dispatch_event, publish_event, mark, event_message,
}

Memᴰ-append : {x : Message} (xs ys : List Message) → Memᴰ x xs → Memᴰ x (xs ++ ys)
Memᴰ-append [] ys m = elim m [ ]
Memᴰ-append (y ∷ xs) ys (Memᴰ.head e) = Memᴰ.head e
Memᴰ-append (y ∷ xs) ys (Memᴰ.tail m) = Memᴰ.tail (Memᴰ-append xs ys m)

Memᴰ-last : (x : Message) (xs : List Message) → Memᴰ x (xs ++ x ∷ [])
Memᴰ-last x [] = Memᴰ.head refl
Memᴰ-last x (y ∷ xs) = Memᴰ.tail (Memᴰ-last x xs)

-- `content k` is the message about the events with identifier `k`.
module _ (content : Uuid → Message) (w : World) where
  abbrev HasContent : Outbox → Type 0
  HasContent e = event_message e w ≡ content e.id

  -- The row has its content, and is marked delivered only when its message is there.
  pub record IsBacked (topics : List Message) (r : Outbox) : Type 0 where
    pub has_content : HasContent r
    pub published : r.status ≡ OutboxStatus.delivered → Memᴰ (content r.id) topics

  record Backed (e : Env) (topics : List Message) (outbox : List Outbox) : Type 0 where
    env : e ≡ w.env
    rows : All (IsBacked topics) outbox

  abbrev AllBacked : World → Type 0
  AllBacked v = Backed v.env v.topics v.db.outbox

  IsBacked-more :
      (m : Message) (topics : List Message) (rows : List Outbox)
      → All (IsBacked topics) rows
      → All (IsBacked (topics ++ m ∷ [])) rows
  IsBacked-more m topics [] h = tt
  IsBacked-more m topics (r ∷ rows) h = (
    record {
      has_content = h.0.has_content;
      published = λ d. Memᴰ-append topics (m ∷ []) (h.0.published d);
    },
    IsBacked-more m topics rows h.1,
  )

  contents :
      (topics : List Message) (rows : List Outbox)
      → All (IsBacked topics) rows
      → All HasContent rows
  contents topics [] h = tt
  contents topics (r ∷ rows) h = (h.0.has_content, contents topics rows h.1)

  -- After the fetch, the events taken have their contents.
  abbrev Fetched : Result (List Outbox) → World → Type 0
  Fetched (ok es) v = AllBacked v × All HasContent es
  Fetched (err e) v = AllBacked v

  fetched : Ends AllBacked (query get_pending_outbox_events) Fetched
  unfolding get_pending_outbox_events
  fetched = Ends-query get_pending_outbox_events (λ v h. h) taken (λ e v h. h) (λ e v h. h)
    where
      taken : (v : World) → AllBacked v → AllBacked v × All HasContent (pending_events v.db.outbox)
      taken v h = (
        h,
        All-take HasContent 10 _ (
            All-order_by HasContent created_before _ (
              All-select HasContent (λ e. outbox_is_pending e.status) v.db.outbox
                (contents v.topics v.db.outbox h.rows))),
      )

  abbrev Published : Outbox → Result Done → World → Type 0
  Published e (ok _) v = AllBacked v × Memᴰ (content e.id) v.topics
  Published e (err _) v = AllBacked v

  abbrev Tried : Outbox → Result (Result Done) → World → Type 0
  Tried e (ok r) v = Published e r v
  Tried e (err _) v = AllBacked v

  -- The message to publish is the content.
  abbrev Ready : Outbox → Message → World → Type 0
  Ready e m v = AllBacked v × (m ≡ content e.id)

  backed_with :
      (m : Message) (v : World) → AllBacked v → AllBacked (record v { topics = v.topics ++ m ∷ [] })
  backed_with m v h = record { env = h.env; rows = IsBacked-more m v.topics v.db.outbox h.rows }

  publish-Published : (e : Outbox) (m : Message) → Ends (Ready e m) (publish m) (Published e)
  unfolding publish modify
  publish-Published e m =
      Ends-call (modify (λ v. record v { topics = v.topics ++ m ∷ [] })) (λ v h. h)
        (λ v h. (
          backed_with m v h.0,
          subst (λ c. Memᴰ c (v.topics ++ m ∷ [])) h.1 (Memᴰ-last m v.topics),
        ))
        (λ x v h. h.0) (λ x v h. backed_with m v h.0)

  abbrev GotMessage : Outbox → Result Message → World → Type 0
  GotMessage e (ok m) v = Ready e m v
  GotMessage e (err _) v = AllBacked v

  got_message : (e : Outbox) → HasContent e → Ends AllBacked (gets (event_message e)) (GotMessage e)
  unfolding gets
  got_message e c = record {
    run = λ v h. (h, ap (λ env. event_message e (record w { env = env })) h.env ∙ c);
  }

  publish_event-Tried : (e : Outbox) → HasContent e → Ends AllBacked (publish_event e) (Tried e)
  unfolding publish_event
  publish_event-Tried e c =
      Ends-bind (got_message e c) (λ m. Ends-attempt (publish-Published e m) (λ r v h. h))
        (λ x v h. h)

  delivered_rows :
      (k : Uuid) (now : Timestamp) (topics : List Message)
      → Memᴰ (content k) topics
      → (rows : List Outbox) → All (IsBacked topics) rows
      → All (IsBacked topics) (update (outbox_has_id k) (delivered_at now) rows)
  delivered_rows k now topics mem rows h =
      All-update (IsBacked topics) (outbox_has_id k) (delivered_at now)
        (λ r hit b. record {
          has_content = b.has_content;
          published = λ _. subst (λ i. Memᴰ (content i) topics) (sym (==→eq r.id k hit)) mem;
        })
        rows h

  failed_rows :
      (k : Uuid) (topics : List Message) (rows : List Outbox)
      → All (IsBacked topics) rows
      → All (IsBacked topics) (update (outbox_has_id k) failed_once_more rows)
  failed_rows k topics rows h =
      All-update (IsBacked topics) (outbox_has_id k) failed_once_more
        (λ r hit b. record {
          has_content = b.has_content;
          published = λ d. absurd (ground (arith, d));
        })
        rows h

  abbrev Backs : Outbox → World → Type 0
  Backs e v = AllBacked v × Memᴰ (content e.id) v.topics

  marked : (e : Outbox) (r : Result Done) → Ends (Published e r) (mark e r) (λ x v. AllBacked v)
  unfolding mark_outbox_delivered mark_outbox_failed
  marked e (ok _) = record {
    run = λ v h.
        ((Keeps-ignore (Backs e) (λ v h. h)
            (Keeps-query (Backs e) (λ v h. h) (mark_outbox_delivered e.id)
              (λ v h. (
                record {
                  env = h.0.env;
                  rows = delivered_rows e.id v.now v.topics h.1 v.db.outbox h.0.rows;
                },
                h.1,
              )))).run
          v h).0;
  }
  marked e (err _) = Ends-Keeps (
      Keeps-ignore AllBacked (λ v h. h)
        (Keeps-query AllBacked (λ v h. h) (mark_outbox_failed e.id)
          (λ v h. record { env = h.env; rows = failed_rows e.id v.topics v.db.outbox h.rows })))

  dispatch_event-Backed :
      (e : Outbox) → HasContent e → Ends AllBacked (dispatch_event e) (λ x v. AllBacked v)
  unfolding dispatch_event
  dispatch_event-Backed e c = Ends-bind (publish_event-Tried e c) (λ r. marked e r) (λ x v h. h)

  dispatch_all-Backed :
      (es : List Outbox) → All HasContent es → Ends AllBacked (dispatch_all es) (λ x v. AllBacked v)
  unfolding dispatch_all
  dispatch_all-Backed [] h = Ends-Keeps (Keeps-pure AllBacked (λ v h. h) tt)
  dispatch_all-Backed (e ∷ es) h =
      Ends-then (dispatch_event-Backed e h.0) (λ _. dispatch_all-Backed es h.1) (λ x v h. h)

  dispatch-Backed : Ends AllBacked dispatch (λ x v. AllBacked v)
  unfolding dispatch
  dispatch-Backed = Ends-bind fetched fetched_all (λ x v h. h)
    where
      fetched_all :
          (es : List Outbox) → Ends (Fetched (ok es)) (dispatch_all es) (λ x v. AllBacked v)
      fetched_all es = record { run = λ v h. (dispatch_all-Backed es h.1).run v h.0 }

-- However its calls end, a dispatch keeps it true that an event is marked delivered only when the
-- message about it is in the topics, where events with one identifier have one message.
pub dispatch-IsBacked :
    (content : Uuid → Message) (w : World)
    → All (IsBacked content w w.topics) w.db.outbox
    → All (IsBacked content w (dispatch w).1.topics) (dispatch w).1.db.outbox
dispatch-IsBacked content w h =
    ((dispatch-Backed content w).run w (record { env = refl; rows = h })).rows
