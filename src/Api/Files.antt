-- ===== src/Api/Files.antt =====
-- api/src/lib.rs: presign_handler and download_handler. The S3 client is a parameter: a bucket from the
-- configuration, whose construction panics where it fails, and the URLs that it signs.
use invisible_backend.Api.{text, json}
use Prim.Native.String.{◌++◌ as append}
use invisible_backend.Prelude.{none, some, String, Option, ℕ}
use invisible_backend.Config.{AppConfig}
use invisible_backend.Postgres.Schema.{Uuid}
use invisible_backend.Api.{Reply}

pub record S3 : Type 1 where
  pub Bucket : Type 0
  pub bucket : AppConfig → Option Bucket
  pub presign_put : Bucket → String → ℕ → Option String → Option String
  pub presign_get : Bucket → String → ℕ → Option String

pub record PresignQuery : Type 0 where
  pub file_name : String
  pub mime_type : String

pub record PresignResponse : Type 0 where
  pub upload_url : String
  pub download_url : String
  pub file_id : String

-- `.unwrap_or_else(|_| "".to_string())`
abbrev pub url_or_empty : Option String → String
url_or_empty none = ""
url_or_empty (some url) = url

module _ (s3 : S3) (format_uuid : Uuid → String) (header_value : String → Option String) where
  abbrev pub presigned : String → PresignQuery → Option s3.Bucket → Option (Reply PresignResponse)
  presigned file_id params none = none
  presigned file_id params (some bucket) =
      let file_path = append "/" file_id in
      some (
        json 200 (record {
          upload_url =
              url_or_empty (s3.presign_put bucket file_path 3600 (header_value params.mime_type));
          download_url = url_or_empty (s3.presign_get bucket file_path 3600);
          file_id = file_id;
        }))

  -- `id` is the UUID drawn for the file; `none` is a panic of `expect`
  unfoldable pub presign_handler : AppConfig → PresignQuery → Uuid → Option (Reply PresignResponse)
  presign_handler config params id = presigned (format_uuid id) params (s3.bucket config)

unfoldable pub download_handler : String → Reply (Unit {0})
download_handler file_id = text 200 (append "file: " file_id)
