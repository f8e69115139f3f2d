-- ===== src/Queries/Accounts.antt =====
-- internal/db/generated/users.sql.go and workspace.sql.go
use mini_databricks.Base.{
  Bool, true, false, ◌&&◌, none, some, List, [], ◌∷◌, ◌++◌, first, select, update, delete,
  if◌then◌else◌,
}
use mini_databricks.Base.Text.{Text, same_text}
use mini_databricks.Errors.{ok, err}
use mini_databricks.Db.{User, UserRole, Workspace, WorkspacePlan, Uuid, Timestamp}
use mini_databricks.Db.Row.{user_has_id, workspace_has_id, workspace_owned_by}
use mini_databricks.World.{Query}
use mini_databricks.Queries.Rows.{one, returning, take_id, invalid_enum}
use mini_databricks.Queries.Jobs.{duplicate_key}

-- `CreateUserParams`
pub record CreateUserParams : Type 0 where
  pub email : Text
  pub password_hash : Text
  pub role : UserRole

abbrev pub new_user : CreateUserParams → Uuid → Timestamp → User
new_user p k now = record {
  id = k;
  email = p.email;
  password_hash = p.password_hash;
  role = p.role;
  created_at = now;
}

abbrev pub user_has_email : Text → User → Bool
user_has_email email u = same_text u.email email

-- `email TEXT NOT NULL UNIQUE`
unfoldable pub email_is_taken : Text → List User → Bool
email_is_taken email users = elim (first (user_has_email email) users) [
  | none ↦ false
  | some u ↦ true
]

unfoldable pub create_user : CreateUserParams → Query User
create_user p now db =
    let u : User = new_user p db.next_id now in
    if email_is_taken p.email db.users
    then (err duplicate_key, db)
    else (ok u, record (take_id db) { users = db.users ++ u ∷ [] })

unfoldable pub get_user_by_email : Text → Query User
get_user_by_email email now db = (one (first (user_has_email email) db.users), db)

unfoldable pub get_user_by_id : Uuid → Query User
get_user_by_id k now db = (one (first (user_has_id k) db.users), db)

-- `CreateWorkspaceParams`
pub record CreateWorkspaceParams : Type 0 where
  pub owner_id : Uuid
  pub name : Text
  pub plan : WorkspacePlan

abbrev pub new_workspace : CreateWorkspaceParams → Uuid → Timestamp → Workspace
new_workspace p k now = record {
  id = k;
  owner_id = p.owner_id;
  name = p.name;
  plan = p.plan;
  created_at = now;
}

abbrev pub is_workspace_plan : WorkspacePlan → Bool
is_workspace_plan (WorkspacePlan.other_plan t) = false
is_workspace_plan _ = true

unfoldable pub create_workspace : CreateWorkspaceParams → Query Workspace
create_workspace p now db =
    let ws : Workspace = new_workspace p db.next_id now in
    if is_workspace_plan p.plan
    then (ok ws, record (take_id db) { workspaces = db.workspaces ++ ws ∷ [] })
    else (err invalid_enum, db)

abbrev pub workspace_of : Uuid → Uuid → Workspace → Bool
workspace_of k owner ws = workspace_has_id k ws && workspace_owned_by owner ws

unfoldable pub delete_workspace : Uuid → Uuid → Query (Unit {0})
delete_workspace k owner now db =
    (ok tt, record db { workspaces = delete (workspace_of k owner) db.workspaces })

unfoldable pub get_workspace_by_id : Uuid → Query Workspace
get_workspace_by_id k now db = (one (first (workspace_has_id k) db.workspaces), db)

-- The statement gives no order; the rows come as the table has them.
unfoldable pub get_workspaces_by_owner : Uuid → Query (List Workspace)
get_workspaces_by_owner owner now db = (ok (select (workspace_owned_by owner) db.workspaces), db)

-- `UpdateWorkspaceParams`
pub record UpdateWorkspaceParams : Type 0 where
  pub id : Uuid
  pub name : Text
  pub plan : WorkspacePlan
  pub owner_id : Uuid

-- The arguments are no NULL, so `COALESCE` gives them.
abbrev pub renamed_workspace : UpdateWorkspaceParams → Workspace → Workspace
renamed_workspace p ws = record ws { name = p.name; plan = p.plan }

unfoldable pub update_workspace : UpdateWorkspaceParams → Query Workspace
update_workspace p now db =
    let mine : Workspace → Bool = workspace_of p.id p.owner_id in
    if is_workspace_plan p.plan
    then (
      returning mine (renamed_workspace p) db.workspaces,
      record db { workspaces = update mine (renamed_workspace p) db.workspaces },
    )
    else (err invalid_enum, db)
