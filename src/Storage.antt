-- ===== src/Storage.antt =====
-- internal/storage/minio.go: the client of the object store.
use mini_databricks.Base.{
  ℤ, pos, Bool, false, List, [], ◌∷◌, ◌++◌, ◌||◌, length, select, not, ◌&&◌, if◌then◌else◌,
}
use mini_databricks.Base.Text.{Text, codes, same_text}
use mini_databricks.World.{
  World, StoredObject, Action, Done, pure, wrap, gets, modify, call, ◌>>=◌, ◌>>◌,
}

-- `MinioClient`; its client is the world's buckets and objects.
pub record MinioClient : Type 0 where
  pub bucket_name : Text

abbrev pub has_bucket : Text → List Text → Bool
has_bucket b [] = false
has_bucket b (x ∷ xs) = same_text x b || has_bucket b xs

-- `MakeBucket`
abbrev pub with_bucket : Text → World → World
with_bucket b w = record w { buckets = w.buckets ++ b ∷ [] }

abbrev pub make_bucket : MinioClient → Action Done
make_bucket c =
    wrap (codes "failed to create bucket") (call (modify (λ w. with_bucket c.bucket_name w)))

unfoldable pub ensure_bucket_exists : MinioClient → Action Done
ensure_bucket_exists c = do
  exists ←
      wrap (codes "failed to check bucket") (call (gets (λ w. has_bucket c.bucket_name w.buckets)))
  if exists then pure tt else make_bucket c

unfoldable pub generate_upload_url : MinioClient → Text → Action Text
generate_upload_url c key =
    wrap (codes "failed to generate upload url")
      (call (gets (λ w. w.env.upload_url w.now c.bucket_name key)))

unfoldable pub generate_download_url : MinioClient → Text → Action Text
generate_download_url c key =
    wrap (codes "failed to generate download url")
      (call (gets (λ w. w.env.download_url w.now c.bucket_name key)))

-- `PutObject`: an object with the same key is replaced by the later one.
abbrev pub is_other_object : StoredObject → StoredObject → Bool
is_other_object o x = not (same_text x.bucket o.bucket && same_text x.key o.key)

abbrev pub put_object : StoredObject → World → World
put_object o w = record w { objects = o ∷ select (is_other_object o) w.objects }

unfoldable pub upload_bytes : MinioClient → Text → Text → Text → Action ℤ
upload_bytes c key bytes content_type = wrap (codes "failed to upload object") (
    call (
      modify (
        put_object (record {
          bucket = c.bucket_name;
          key = key;
          bytes = bytes;
          content_type = content_type;
        })))
    >> pure (pos (length bytes)))
