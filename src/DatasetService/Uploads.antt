-- ===== src/DatasetService/Uploads.antt =====
-- What an upload does, from its start to the dataset that is found, on a calm network
-- (internal/service/dataset_service.go).
use mini_databricks.Base.{
  All-weaken, ◌+◌, ◌≡◌, refl, sym, ap, ◌∙◌, ℤ, true, false, some, [], ◌∷◌, ◌++◌, All, first, update,
  update-append, update_none, first-append_none, ==_refl,
}
use mini_databricks.Base.Text.{Text}
use mini_databricks.Errors.{ok}
use mini_databricks.Db.{Uuid, Dataset, FileFormat}
use mini_databricks.Db.Row.{dataset_has_id}
use mini_databricks.World.{World, calm, tick, actions, call}
use mini_databricks.Queries.Rows.{take_id}
use mini_databricks.Queries.Files.{
  new_dataset, stored_at, dataset_in, is_file_format, initiate_dataset, update_dataset_storage_path,
  get_dataset_by_id,
}
use mini_databricks.Storage.{MinioClient, generate_upload_url}
use mini_databricks.DatasetService.{object_key, initiate_upload, complete_upload, get_dataset}

module _ (minio : MinioClient) (workspace user name : Text) (format : FileFormat) (w : World) where
  abbrev pub after_start : World
  after_start = (initiate_upload minio workspace user name format (calm w)).1

  -- A dataset that is announced, stored and found again; the other datasets are as they were.
  pub record IsUploaded (path : Text) (size : ℤ) : Type 0 where
    pub dataset : Dataset
    pub started :
        (initiate_upload minio workspace user name format (calm w)).0
        ≡ ok (
          dataset,
          w.env.upload_url after_start.now minio.bucket_name
              (object_key workspace (w.env.format_uuid dataset.id) name format),
        )
    pub completed : complete_upload (w.env.format_uuid dataset.id) path size after_start ≡ (
      ok (stored_at (some path) (some size) dataset),
      record (tick after_start) {
        db = record after_start.db {
          datasets = w.db.datasets ++ stored_at (some path) (some size) dataset ∷ [];
        };
      },
    )
    pub found :
        (get_dataset
          (w.env.format_uuid dataset.id)
          workspace
          (complete_upload (w.env.format_uuid dataset.id) path size after_start).1).0
        ≡ ok (stored_at (some path) (some size) dataset)

  module _ (ws u : Uuid) where
    abbrev announced : Dataset
    announced = new_dataset ws u name format w.db.next_id (w.now + w.env.elapsed w.calls)

    abbrev announced_world : World
    announced_world = record (tick (tick (calm w))) {
      db = record (take_id w.db) { datasets = w.db.datasets ++ announced ∷ [] };
    }

    started_calm :
        w.env.parse_uuid workspace ≡ ok ws
        → w.env.parse_uuid user ≡ ok u
        → is_file_format format ≡ true
        → initiate_upload minio workspace user name format (calm w) ≡ (
          ok (
            announced,
            w.env.upload_url announced_world.now minio.bucket_name
                (object_key workspace (w.env.format_uuid w.db.next_id) name format),
          ),
          announced_world,
        )
    unfolding initiate_upload initiate_dataset generate_upload_url actions call
    started_calm hws hu valid = rw (hws, hu, valid) refl

    module _ (path : Text) (size : ℤ)
        (fresh : All (λ d. dataset_has_id w.db.next_id d ≡ false) w.db.datasets)
        (printed : w.env.parse_uuid (w.env.format_uuid w.db.next_id) ≡ ok w.db.next_id) where
      abbrev stored : Dataset
      stored = stored_at (some path) (some size) announced

      abbrev stored_world : World
      stored_world = record (tick announced_world) {
        db = record announced_world.db { datasets = w.db.datasets ++ stored ∷ [] };
      }

      updated_rows :
          update
            (dataset_has_id w.db.next_id)
            (stored_at (some path) (some size))
            (w.db.datasets ++ announced ∷ [])
          ≡ w.db.datasets ++ stored ∷ []
      updated_rows = rw (
        update-append (dataset_has_id w.db.next_id) (stored_at (some path) (some size))
            w.db.datasets (announced ∷ []),
        update_none (dataset_has_id w.db.next_id) (stored_at (some path) (some size)) w.db.datasets
            fresh,
        ==_refl w.db.next_id,
      )

      first_row :
          first (dataset_has_id w.db.next_id) (w.db.datasets ++ announced ∷ []) ≡ some announced
      first_row =
          first-append_none (dataset_has_id w.db.next_id) w.db.datasets (announced ∷ []) fresh
          ∙ rw (==_refl w.db.next_id)

      completed_calm :
          complete_upload (w.env.format_uuid w.db.next_id) path size announced_world
          ≡ (ok stored, stored_world)
      unfolding complete_upload update_dataset_storage_path actions call
      completed_calm = rw (printed, first_row, updated_rows) refl

      not_in : All (λ d. dataset_in w.db.next_id ws d ≡ false) w.db.datasets
      not_in = All-weaken _ _ (λ d h. rw h) w.db.datasets fresh

      found_calm :
          w.env.parse_uuid workspace ≡ ok ws
          → (get_dataset (w.env.format_uuid w.db.next_id) workspace stored_world).0 ≡ ok stored
      unfolding get_dataset get_dataset_by_id actions call
      found_calm hws =
          rw
            (
              printed,
              hws,
              first-append_none (dataset_in w.db.next_id ws) w.db.datasets (stored ∷ []) not_in,
              ==_refl w.db.next_id,
              ==_refl ws,
            )
            refl

-- On a calm network an upload is started in its workspace with the address of its object, completing it
-- stores its path and size and makes it ready, it is then found in its workspace as it was
-- completed, and the other datasets stay as they were. The identifiers of the request parse, the
-- format is known, no dataset has the new identifier, and that identifier parses as it is printed.
pub upload-IsUploaded :
    (minio : MinioClient) (workspace user name : Text) (format : FileFormat) (w : World)
    (ws u : Uuid) (path : Text) (size : ℤ)
    → w.env.parse_uuid workspace ≡ ok ws
    → w.env.parse_uuid user ≡ ok u
    → is_file_format format ≡ true
    → All (λ d. dataset_has_id w.db.next_id d ≡ false) w.db.datasets
    → w.env.parse_uuid (w.env.format_uuid w.db.next_id) ≡ ok w.db.next_id
    → IsUploaded minio workspace user name format w path size
upload-IsUploaded minio workspace user name format w ws u path size hws hu valid fresh printed =
    let d : Dataset = announced minio workspace user name format w ws u in
    let first = started_calm minio workspace user name format w ws u hws hu valid in
    let world = ap (λ x. x.1) first in
    let second =
      ap (λ v. complete_upload (w.env.format_uuid w.db.next_id) path size v) world
      ∙ completed_calm minio workspace user name format w ws u path size fresh printed in
    record {
      dataset = d;
      started =
          ap (λ x. x.0) first
          ∙ ap
              (λ (v : World). ok (
                d,
                w.env.upload_url v.now minio.bucket_name
                    (object_key workspace (w.env.format_uuid w.db.next_id) name format),
              ))
              (sym world);
      completed =
          second
          ∙ ap
              (λ (v : World). (
                ok (stored_at (some path) (some size) d),
                record (tick v) {
                  db = record v.db {
                    datasets = w.db.datasets ++ stored_at (some path) (some size) d ∷ [];
                  };
                },
              ))
              (sym world);
      found =
          ap (λ v. (get_dataset (w.env.format_uuid w.db.next_id) workspace v).0)
            (ap (λ x. x.1) second)
          ∙ found_calm minio workspace user name format w ws u path size fresh printed hws;
    }
