-- ===== src/Gateway/Theirs/Workspaces.antt =====
-- The workspace service (internal/service/workspace_service.go) leaves an owner's workspaces alone when
-- it is called for another.
use mini_databricks.Base.{◌≢◌, sym, ap, ◌∙◌, Option, inl, inr}
use mini_databricks.Base.Text.{Text}
use mini_databricks.Errors.{ok, Result-cases}
use mini_databricks.Db.{Uuid, WorkspacePlan}
use mini_databricks.World.{Action, wrap, parse_uuid, ◌>>=◌, actions, bind_result}
use mini_databricks.World.Keeps.{Keeps, Keeps-bind, Keeps-wrap}
use mini_databricks.WorkspaceService.{new_workspace_for, remove_workspace, change_workspace}
use mini_databricks.Gateway.Theirs.{
  View, Theirs, create_workspace-Theirs, delete_workspace-Theirs, update_workspace-Theirs,
}
use mini_databricks.Gateway.Theirs.Statements.{timeless, parse-Theirs, get_workspace_by_id-Theirs}

module _ (v : View) where
  -- A text that is not the identifier of the owner.
  abbrev pub NotTheirs : Text → Type 0
  NotTheirs t = v.env.parse_uuid t ≢ ok v.owner

  -- An action that goes on with the identifier that such a text is.
  as_other :
      {A : Type 0} (m t : Text) {f : Uuid → Action A}
      → NotTheirs t
      → ((k : Uuid) → k ≢ v.owner → Keeps (Theirs v) (f k))
      → Keeps (Theirs v) (wrap m (parse_uuid t) >>= f)
  unfolding actions bind_result
  as_other m t {f} other kept = record {
    run = λ w h. elim (Result-cases (w.env.parse_uuid t)) [
      | inl (e, bad) ↦ rw bad h
      | inr (k, good) ↦ rw good (
          (kept k (λ same. other (ap (λ e. e.parse_uuid t) (sym h.0) ∙ good ∙ ap ok same))).run w h)
    ];
  }

  pub new_workspace_for-Theirs :
      (name t : Text) (plan : WorkspacePlan)
      → NotTheirs t
      → Keeps (Theirs v) (new_workspace_for name t plan)
  unfolding new_workspace_for
  new_workspace_for-Theirs name t plan other =
      as_other _ t other (λ k is_other. create_workspace-Theirs v _ is_other)

  pub remove_workspace-Theirs :
      (ws t : Text) → NotTheirs t → Keeps (Theirs v) (remove_workspace ws t)
  unfolding remove_workspace
  remove_workspace-Theirs ws t other =
      Keeps-bind (Theirs v) (timeless v) (Keeps-wrap (Theirs v) (timeless v) _ (parse-Theirs v ws))
        (λ k. as_other _ t other (λ o is_other. delete_workspace-Theirs v k o is_other))

  pub change_workspace-Theirs :
      (ws t : Text) (name : Option Text) (plan : Option WorkspacePlan)
      → NotTheirs t
      → Keeps (Theirs v) (change_workspace ws t name plan)
  unfolding change_workspace
  change_workspace-Theirs ws t name plan other =
      Keeps-bind (Theirs v) (timeless v) (Keeps-wrap (Theirs v) (timeless v) _ (parse-Theirs v ws))
        (λ k. as_other _ t other (λ o is_other.
          Keeps-bind (Theirs v) (timeless v)
            (Keeps-wrap (Theirs v) (timeless v) _ (get_workspace_by_id-Theirs v k))
            (λ existing. update_workspace-Theirs v _ is_other)))
