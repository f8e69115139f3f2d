-- ===== src/DatasetService.antt =====
-- internal/service/dataset_service.go
pub mod Uploads
use mini_databricks.Base.{ℤ, some, List, ◌++◌}
use mini_databricks.Base.Text.{Text, codes}
use mini_databricks.Db.{Dataset, FileFormat}
use mini_databricks.World.{Action, Done, pure, wrap, gets, query, parse_uuid, ◌>>=◌}
use mini_databricks.Queries.Files.{
  initiate_dataset, update_dataset_storage_path, get_dataset_by_id, list_datasets_by_workspace,
  delete_dataset,
}
use mini_databricks.Storage.{MinioClient, generate_upload_url}

abbrev pub format_text : FileFormat → Text
format_text FileFormat.csv = codes "csv"
format_text FileFormat.parquet = codes "parquet"
format_text FileFormat.json = codes "json"
format_text FileFormat.jsonl = codes "jsonl"
format_text (FileFormat.other_format t) = t

-- `fmt.Sprintf("%s/%s/%s.%s", …)`
abbrev pub object_key : Text → Text → Text → FileFormat → Text
object_key workspace dataset name format =
    workspace
    ++ (codes "/" ++ (dataset ++ (codes "/" ++ (name ++ (codes "." ++ format_text format)))))

unfoldable pub initiate_upload :
    MinioClient → Text → Text → Text → FileFormat → Action (Dataset × Text)
initiate_upload minio workspace user name format = do
  ws ← wrap (codes "invalid workspace id") (parse_uuid workspace)
  u ← wrap (codes "invalid user id") (parse_uuid user)
  d ← wrap (codes "failed to create dataset") (query (initiate_dataset ws u name format))
  key ← gets (λ w. object_key workspace (w.env.format_uuid d.id) name format)
  url ← wrap (codes "failed to generate upload url") (generate_upload_url minio key)
  pure (d, url)

unfoldable pub complete_upload : Text → Text → ℤ → Action Dataset
complete_upload dataset path size = do
  k ← wrap (codes "invalid dataset id") (parse_uuid dataset)
  wrap (codes "failed to complete upload")
      (query (update_dataset_storage_path k (some path) (some size)))

unfoldable pub get_dataset : Text → Text → Action Dataset
get_dataset dataset workspace = do
  k ← wrap (codes "invalid dataset id") (parse_uuid dataset)
  ws ← wrap (codes "invalid workspace id") (parse_uuid workspace)
  query (get_dataset_by_id k ws)

unfoldable pub list_datasets : Text → Action (List Dataset)
list_datasets workspace = do
  ws ← wrap (codes "invalid workspace id") (parse_uuid workspace)
  query (list_datasets_by_workspace ws)

unfoldable pub remove_dataset : Text → Text → Action Done
remove_dataset dataset workspace = do
  k ← wrap (codes "invalid dataset id") (parse_uuid dataset)
  ws ← wrap (codes "invalid workspace id") (parse_uuid workspace)
  query (delete_dataset k ws)
