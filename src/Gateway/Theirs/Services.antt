-- ===== src/Gateway/Theirs/Services.antt =====
-- The services of internal/service that leave an owner's workspaces alone, however
-- their calls end.
use mini_databricks.Base.{ℤ}
use mini_databricks.Base.Text.{Text}
use mini_databricks.Errors.{Result, ok, err}
use mini_databricks.Db.{FileFormat, User}
use mini_databricks.World.{gets}
use mini_databricks.World.Keeps.{Keeps, Keeps-wrap, Keeps-if, Keeps-call}
use mini_databricks.Storage.{MinioClient, generate_upload_url, generate_download_url}
use mini_databricks.UserService.{
  register, hash_password, login, check_password, issue_token, signed_string,
}
use mini_databricks.WorkspaceService.{workspaces_of_owner, find_workspace}
use mini_databricks.DatasetService.{
  initiate_upload, complete_upload, get_dataset, list_datasets, remove_dataset,
}
use mini_databricks.Gateway.Theirs.{View, Theirs}
use mini_databricks.Gateway.Theirs.Statements.{keeps, statements, timeless}

module _ (v : View) where
  hash-Theirs : (t : Text) → Keeps (Theirs v) (hash_password t)
  unfolding hash_password
  hash-Theirs t = record { run = λ w h. h }

  sign-Theirs : (t : Text) (u : User) → Keeps (Theirs v) (signed_string t u)
  unfolding signed_string
  sign-Theirs t u = record { run = λ w h. h }

  pub register-Theirs : (email password : Text) → Keeps (Theirs v) (register email password)
  unfolding register
  register-Theirs email password = search (keeps, statements, hash-Theirs)

  check_password-Theirs :
      (password secret : Text) (r : Result User)
      → Keeps (Theirs v) (check_password password secret r)
  unfolding check_password issue_token
  check_password-Theirs password secret (err e) = search keeps
  check_password-Theirs password secret (ok u) = search (keeps, Keeps-if, sign-Theirs)

  pub login-Theirs : (email password secret : Text) → Keeps (Theirs v) (login email password secret)
  unfolding login
  login-Theirs email password secret = search (keeps, statements, check_password-Theirs)

  pub workspaces_of_owner-Theirs : (t : Text) → Keeps (Theirs v) (workspaces_of_owner t)
  unfolding workspaces_of_owner
  workspaces_of_owner-Theirs t = search (keeps, statements)

  pub find_workspace-Theirs : (t : Text) → Keeps (Theirs v) (find_workspace t)
  unfolding find_workspace
  find_workspace-Theirs t = search (keeps, statements)

  generate_upload_url-Theirs :
      (c : MinioClient) (t : Text) → Keeps (Theirs v) (generate_upload_url c t)
  unfolding generate_upload_url gets
  generate_upload_url-Theirs c t =
      Keeps-wrap (Theirs v) (timeless v) _ (Keeps-call (Theirs v) (timeless v) (gets _) (λ w h. h))

  pub generate_download_url-Theirs :
      (c : MinioClient) (t : Text) → Keeps (Theirs v) (generate_download_url c t)
  unfolding generate_download_url gets
  generate_download_url-Theirs c t =
      Keeps-wrap (Theirs v) (timeless v) _ (Keeps-call (Theirs v) (timeless v) (gets _) (λ w h. h))

  pub initiate_upload-Theirs :
      (c : MinioClient) (ws u t : Text) (f : FileFormat)
      → Keeps (Theirs v) (initiate_upload c ws u t f)
  unfolding initiate_upload
  initiate_upload-Theirs c ws u t f =
      search (keeps, statements, generate_upload_url-Theirs) depth 12

  pub complete_upload-Theirs : (k p : Text) (n : ℤ) → Keeps (Theirs v) (complete_upload k p n)
  unfolding complete_upload
  complete_upload-Theirs k p n = search (keeps, statements)

  pub get_dataset-Theirs : (k ws : Text) → Keeps (Theirs v) (get_dataset k ws)
  unfolding get_dataset
  get_dataset-Theirs k ws = search (keeps, statements)

  pub list_datasets-Theirs : (ws : Text) → Keeps (Theirs v) (list_datasets ws)
  unfolding list_datasets
  list_datasets-Theirs ws = search (keeps, statements)

  pub remove_dataset-Theirs : (k ws : Text) → Keeps (Theirs v) (remove_dataset k ws)
  unfolding remove_dataset
  remove_dataset-Theirs k ws = search (keeps, statements)
