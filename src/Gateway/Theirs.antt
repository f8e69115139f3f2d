-- ===== src/Gateway/Theirs.antt =====
-- The workspaces of one owner, and which statements and services leave them alone however their calls
-- end.
pub mod Statements
pub mod Services
pub mod Jobs
pub mod Workspaces
pub mod Handlers
use mini_databricks.Base.{
  ◌≡◌, ◌≢◌, refl, sym, ap, ◌∙◌, Bool, true, false, ◌&&◌, List, [], ◌∷◌, ◌++◌, inl, inr, Bool-cases,
  select, update, select-update, select-delete, select-append, delete, ◌==◌, ne→==, ==→eq,
  if◌then◌else◌, arith,
}
use mini_databricks.Base.Text.{Text, codes}
use mini_databricks.Errors.{GoError, Result, ok, err, Result-cases}
use mini_databricks.Db.{Db, Uuid, Run, Workspace, Job}
use mini_databricks.Db.Row.{workspace_owned_by}
use mini_databricks.World.{
  World, Env, Action, Done, Query, on_db, query, call, pure, gets, modify, wrap, attempt,
  parse_uuid, ◌>>=◌, ◌>>◌, actions,
}
use mini_databricks.World.Keeps.{
  Keeps, IsTimeless, Keeps-pure, Keeps-raise, Keeps-attempt, Keeps-wrap, Keeps-ignore, Keeps-gets,
  Keeps-modify, Keeps-if, Keeps-bind, Keeps-then, Keeps-query, Keeps-call,
}
use mini_databricks.Queries.Accounts.{
  CreateUserParams, create_user, email_is_taken, get_user_by_email, create_workspace,
  CreateWorkspaceParams, delete_workspace, get_workspace_by_id, get_workspaces_by_owner,
  update_workspace, UpdateWorkspaceParams, workspace_of, renamed_workspace, is_workspace_plan,
  new_workspace,
}

-- An owner, and the rows of the owner's workspaces, in the environment that reads identifiers.
pub record View : Type 0 where
  pub env : Env
  pub owner : Uuid
  pub rows : List Workspace

abbrev pub workspaces_owned : Uuid → World → List Workspace
workspaces_owned owner w = select (workspace_owned_by owner) w.db.workspaces

abbrev pub Theirs : View → World → Type 0
Theirs v w = (w.env ≡ v.env) × (workspaces_owned v.owner w ≡ v.rows)

-- A new row that is not selected.
select-append_miss :
    (p : Workspace → Bool) (rows : List Workspace) (x : Workspace)
    → p x ≡ false
    → select p (rows ++ x ∷ []) ≡ select p rows
select-append_miss p [] x miss = rw miss
select-append_miss p (y ∷ rows) x miss = elim (Bool-cases (p y)) [
  | inl hit ↦ rw (hit, select-append_miss p rows x miss)
  | inr other ↦ rw other (select-append_miss p rows x miss)
]

module _ (v : View) where
  pub Theirs-IsTimeless : IsTimeless (Theirs v)
  Theirs-IsTimeless w h = h

  -- A statement that leaves the owner's rows as they are, or is on other tables.
  Keeps-owned :
      {A : Type 0} (q : Query A)
      → ((w : World)
          → select (workspace_owned_by v.owner) (q w.now w.db).1.workspaces
            ≡ workspaces_owned v.owner w)
      → Keeps (Theirs v) (query q)
  Keeps-owned q same = Keeps-query (Theirs v) (λ w h. h) q (λ w h. (h.0, same w ∙ h.1))

  pub Keeps-elsewhere :
      {A : Type 0} (q : Query A)
      → ((w : World) → (q w.now w.db).1.workspaces ≡ w.db.workspaces)
      → Keeps (Theirs v) (query q)
  Keeps-elsewhere q same =
      Keeps-owned q (λ w. ap (λ rows. select (workspace_owned_by v.owner) rows) (same w))

  not_theirs :
      (k owner : Uuid) (ws : Workspace)
      → owner ≢ v.owner
      → workspace_of k owner ws ≡ true
      → workspace_owned_by v.owner ws ≡ false
  not_theirs k owner ws other mine = ground arith

  pub create_workspace-Theirs :
      (p : CreateWorkspaceParams)
      → p.owner_id ≢ v.owner
      → Keeps (Theirs v) (query (create_workspace p))
  unfolding create_workspace
  create_workspace-Theirs p other = Keeps-owned (create_workspace p) (λ w.
      elim (Bool-cases (is_workspace_plan p.plan)) [
        | inl valid ↦ rw valid (
            select-append_miss (workspace_owned_by v.owner) w.db.workspaces
              (new_workspace p w.db.next_id w.now) (ne→== p.owner_id v.owner other))
        | inr invalid ↦ rw invalid refl
      ])

  pub delete_workspace-Theirs :
      (k owner : Uuid) → owner ≢ v.owner → Keeps (Theirs v) (query (delete_workspace k owner))
  unfolding delete_workspace
  delete_workspace-Theirs k owner other = Keeps-owned (delete_workspace k owner) (λ w.
      select-delete (workspace_owned_by v.owner) (workspace_of k owner) (λ ws e. ground arith)
        w.db.workspaces)

  pub update_workspace-Theirs :
      (p : UpdateWorkspaceParams)
      → p.owner_id ≢ v.owner
      → Keeps (Theirs v) (query (update_workspace p))
  unfolding update_workspace
  update_workspace-Theirs p other = Keeps-owned (update_workspace p) (λ w.
      elim (Bool-cases (is_workspace_plan p.plan)) [
        | inl valid ↦ rw valid (
            select-update (workspace_owned_by v.owner) (workspace_of p.id p.owner_id)
              (renamed_workspace p)
              (λ ws e.
                (not_theirs p.id p.owner_id ws other e, not_theirs p.id p.owner_id ws other e))
              w.db.workspaces)
        | inr invalid ↦ rw invalid refl
      ])
