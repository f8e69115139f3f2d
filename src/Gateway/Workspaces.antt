-- ===== src/Gateway/Workspaces.antt =====
-- services/api-gateway/handlers/workspace_handler.go
use mini_databricks.Base.Text.{codes}
use mini_databricks.WorkspaceService.{
  new_workspace_for, workspaces_of_owner, find_workspace, remove_workspace, change_workspace,
}
use mini_databricks.Gateway.Http.{
  Handler, error_reply, message, workspace_reply, workspaces_reply, value_at, respond, failed,
  answer, bind_json,
}
use mini_databricks.Gateway.Binding.{workspace_request, workspace_change}

unfoldable pub handle_create_workspace : Handler
handle_create_workspace req ctx = bind_json workspace_request req (λ r.
    answer (failed 500) (λ ws. respond 201 (workspace_reply ws))
      (new_workspace_for r.name ctx.user_id r.plan))

unfoldable pub handle_get_workspace : Handler
handle_get_workspace req ctx =
    answer (λ e. respond 404 (error_reply (codes "workspace not found")))
      (λ ws. respond 200 (workspace_reply ws)) (find_workspace (value_at (codes "id") ctx.params))

unfoldable pub handle_list_my_workspaces : Handler
handle_list_my_workspaces req ctx =
    answer (failed 500) (λ ws. respond 200 (workspaces_reply ws)) (workspaces_of_owner ctx.user_id)

unfoldable pub handle_update_workspace : Handler
handle_update_workspace req ctx = bind_json workspace_change req (λ r.
    answer (failed 500) (λ ws. respond 200 (workspace_reply ws))
      (change_workspace (value_at (codes "id") ctx.params) ctx.user_id r.name r.plan))

unfoldable pub handle_delete_workspace : Handler
handle_delete_workspace req ctx =
    answer (failed 500) (λ d. respond 200 (message (codes "workspace deleted")))
      (remove_workspace (value_at (codes "id") ctx.params) ctx.user_id)
