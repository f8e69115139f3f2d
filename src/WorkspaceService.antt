-- ===== src/WorkspaceService.antt =====
-- internal/service/workspace_service.go
use mini_databricks.Base.{Option, none, some, List}
use mini_databricks.Base.Text.{Text, codes}
use mini_databricks.Db.{Workspace, WorkspacePlan}
use mini_databricks.World.{Action, Done, wrap, query, parse_uuid, ◌>>=◌}
use mini_databricks.Queries.Accounts.{
  create_workspace, get_workspaces_by_owner, get_workspace_by_id, delete_workspace,
  update_workspace,
}

unfoldable pub new_workspace_for : Text → Text → WorkspacePlan → Action Workspace
new_workspace_for name owner plan = do
  k ← wrap (codes "invalid owner id") (parse_uuid owner)
  query (create_workspace (record { owner_id = k; name = name; plan = plan }))

unfoldable pub workspaces_of_owner : Text → Action (List Workspace)
workspaces_of_owner owner = do
  k ← wrap (codes "invalid owner id") (parse_uuid owner)
  query (get_workspaces_by_owner k)

unfoldable pub find_workspace : Text → Action Workspace
find_workspace workspace = do
  k ← wrap (codes "invalid workspace id") (parse_uuid workspace)
  query (get_workspace_by_id k)

unfoldable pub remove_workspace : Text → Text → Action Done
remove_workspace workspace owner = do
  k ← wrap (codes "invalid workspace id") (parse_uuid workspace)
  o ← wrap (codes "invalid owner id") (parse_uuid owner)
  query (delete_workspace k o)

-- A pointer that is nil keeps the existing value.
abbrev pub or_existing {ℓ} : {A : Type ℓ} → Option A → A → A
or_existing none x = x
or_existing (some y) x = y

unfoldable pub change_workspace :
    Text → Text → Option Text → Option WorkspacePlan → Action Workspace
change_workspace workspace owner name plan = do
  k ← wrap (codes "invalid workspace id") (parse_uuid workspace)
  o ← wrap (codes "invalid owner id") (parse_uuid owner)
  existing ← wrap (codes "workspace not found") (query (get_workspace_by_id k))
  query (
      update_workspace (record {
        id = k;
        owner_id = o;
        name = or_existing name existing.name;
        plan = or_existing plan existing.plan;
      }))
