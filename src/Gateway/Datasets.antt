-- ===== src/Gateway/Datasets.antt =====
-- services/api-gateway/handlers/dataset_handler.go
use mini_databricks.Base.Text.{Text, codes}
use mini_databricks.Db.{Dataset}
use mini_databricks.Storage.{MinioClient}
use mini_databricks.DatasetService.{
  initiate_upload, complete_upload, get_dataset, list_datasets, remove_dataset,
}
use mini_databricks.Gateway.Http.{
  Response, Handler, error_reply, message, upload_reply, dataset_reply, datasets_reply, value_at,
  respond, failed, answer, bind_json,
}
use mini_databricks.Gateway.Binding.{upload_request, complete_request}

abbrev pub upload_started : Dataset × Text → Response
upload_started (d, url) = respond 201 (upload_reply d url)

unfoldable pub handle_initiate : MinioClient → Handler
handle_initiate minio req ctx = bind_json upload_request req (λ r.
    answer (failed 500) upload_started
      (initiate_upload minio r.workspace_id ctx.user_id r.name r.file_format))

unfoldable pub handle_complete : Handler
handle_complete req ctx = bind_json complete_request req (λ r.
    answer (failed 500) (λ d. respond 200 (dataset_reply d))
      (complete_upload (value_at (codes "id") ctx.params) r.storage_path r.size_bytes))

unfoldable pub handle_get_dataset : Handler
handle_get_dataset req ctx =
    answer (λ e. respond 404 (error_reply (codes "dataset not found")))
      (λ d. respond 200 (dataset_reply d))
      (get_dataset (value_at (codes "id") ctx.params) (value_at (codes "workspace_id") req.query))

unfoldable pub handle_list_datasets : Handler
handle_list_datasets req ctx =
    answer (failed 500) (λ ds. respond 200 (datasets_reply ds))
      (list_datasets (value_at (codes "workspace_id") req.query))

unfoldable pub handle_delete_dataset : Handler
handle_delete_dataset req ctx =
    answer (failed 500) (λ d. respond 200 (message (codes "dataset deleted")))
      (remove_dataset (value_at (codes "id") ctx.params)
        (value_at (codes "workspace_id") req.query))
