-- ===== src/Kafka/Stuck.antt =====
-- A dispatch does not touch the events that are not pending.
use mathlib.Core.Path.{subst}
use mini_databricks.Base.{
  ◌≡◌, ◌∙◌, refl, sym, Bool, true, false, List, [], ◌∷◌, All, All-of_select, select, select-update,
  update, ◌==◌, arith, Bool-cases, inl, inr,
}
use mini_databricks.Base.Sorted.{All-order_by, All-take}
use mini_databricks.Errors.{Result, ok, err}
use mini_databricks.Db.{Outbox, Uuid}
use mini_databricks.Db.Row.{outbox_has_id, outbox_is_pending}
use mini_databricks.World.{World, Done, query}
use mini_databricks.World.Keeps.{
  Keeps, Keeps-attempt, Keeps-bind, Keeps-gets, Keeps-ignore, Keeps-publish, Keeps-pure,
  Keeps-query, Keeps-then,
}
use mini_databricks.World.Ends.{Ends, Ends-bind, Ends-query}
use mini_databricks.Queries.Outbox.{
  get_pending_outbox_events, mark_outbox_delivered, mark_outbox_failed, pending_events,
  delivered_at, failed_once_more, created_before,
}
use mini_databricks.Kafka.{
  dispatch, dispatch_all, dispatch_event, publish_event, mark, event_message,
}

abbrev pub IsSettled : Outbox → Type 0
IsSettled e = outbox_is_pending e.status ≡ false

module _ (k : Uuid) (rows : List Outbox) (settled : All IsSettled rows) where
  abbrev HasRows : World → Type 0
  HasRows w = select (outbox_has_id k) w.db.outbox ≡ rows

  abbrev IsOther : Outbox → Type 0
  IsOther e = (e.id == k) ≡ false

  others :
      (es : List Outbox)
      → All (λ e. outbox_has_id k e ≡ true → IsSettled e) es
      → All IsOther (select (λ e. outbox_is_pending e.status) es)
  others [] h = tt
  others (e ∷ es) h = elim (Bool-cases (outbox_is_pending e.status)) [
    | inl pending ↦ rw pending (other (outbox_has_id k e) refl pending, others es h.1)
    | inr idle ↦ rw idle (others es h.1)
  ]
    where
      other : (b : Bool) → outbox_has_id k e ≡ b → outbox_is_pending e.status ≡ true → IsOther e
      other true same pending = absurd (ground (arith, h.0 same, pending))
      other false differ pending = differ

  abbrev Fetched : Result (List Outbox) → World → Type 0
  Fetched (ok es) w = HasRows w × All IsOther es
  Fetched (err e) w = HasRows w

  fetched : Ends HasRows (query get_pending_outbox_events) Fetched
  unfolding get_pending_outbox_events
  fetched =
      Ends-query get_pending_outbox_events (λ w h. h) (λ w h. (h, taken w h)) (λ e w h. h)
        (λ e w h. h)
    where
      taken : (w : World) → HasRows w → All IsOther (pending_events w.db.outbox)
      taken w h = All-take IsOther 10 _ (
          All-order_by IsOther created_before _ (
            others w.db.outbox (
              All-of_select IsSettled (outbox_has_id k) w.db.outbox
                (subst (All IsSettled) (sym h) settled))))

  update_other :
      (j : Uuid) (f : Outbox → Outbox)
      → (j == k) ≡ false
      → ((e : Outbox) → (f e).id ≡ e.id)
      → (es : List Outbox)
      → select (outbox_has_id k) (update (outbox_has_id j) f es) ≡ select (outbox_has_id k) es
  update_other j f ne same es =
      select-update (outbox_has_id k) (outbox_has_id j) f
        (λ x hit. (ground arith, ground (arith, same x))) es

  mark-Keeps : (e : Outbox) → IsOther e → (r : Result Done) → Keeps HasRows (mark e r)
  unfolding mark_outbox_delivered mark_outbox_failed
  mark-Keeps e other (ok _) =
      Keeps-ignore HasRows (λ w h. h)
        (Keeps-query HasRows (λ w h. h) (mark_outbox_delivered e.id)
          (λ w h. update_other e.id (delivered_at w.now) other (λ x. refl) w.db.outbox ∙ h))
  mark-Keeps e other (err _) =
      Keeps-ignore HasRows (λ w h. h)
        (Keeps-query HasRows (λ w h. h) (mark_outbox_failed e.id)
          (λ w h. update_other e.id failed_once_more other (λ x. refl) w.db.outbox ∙ h))

  dispatch_event-Keeps : (e : Outbox) → IsOther e → Keeps HasRows (dispatch_event e)
  unfolding dispatch_event publish_event
  dispatch_event-Keeps e other =
      Keeps-bind HasRows (λ w h. h)
        (Keeps-bind HasRows (λ w h. h) (Keeps-gets HasRows (λ w h. h) (event_message e))
          (λ m. Keeps-attempt HasRows (λ w h. h) (Keeps-publish HasRows (λ w h. h) m (λ w h. h))))
        (mark-Keeps e other)

  dispatch_all-Keeps : (es : List Outbox) → All IsOther es → Keeps HasRows (dispatch_all es)
  unfolding dispatch_all
  dispatch_all-Keeps [] h = Keeps-pure HasRows (λ w h. h) tt
  dispatch_all-Keeps (e ∷ es) h =
      Keeps-then HasRows (λ w h. h) (dispatch_event-Keeps e h.0) (dispatch_all-Keeps es h.1)

  dispatch-HasRows : Ends HasRows dispatch (λ r w. HasRows w)
  unfolding dispatch
  dispatch-HasRows = Ends-bind fetched for_all (λ e w h. h)
    where
      for_all : (es : List Outbox) → Ends (Fetched (ok es)) (dispatch_all es) (λ r w. HasRows w)
      for_all es = record { run = λ w h. (dispatch_all-Keeps es h.1).run w h.0 }

-- However its calls end, a dispatch changes no row of an event that is not pending: one that has been
-- marked failed stays so.
pub dispatch_frame :
    (k : Uuid) (w : World)
    → All IsSettled (select (outbox_has_id k) w.db.outbox)
    → select (outbox_has_id k) (dispatch w).1.db.outbox ≡ select (outbox_has_id k) w.db.outbox
dispatch_frame k w settled =
    (dispatch-HasRows k (select (outbox_has_id k) w.db.outbox) settled).run w refl
