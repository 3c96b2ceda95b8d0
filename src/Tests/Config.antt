-- ===== src/Tests/Config.antt =====
-- shared/src/config.rs with an environment that sets nothing.
use Prim.Native.String.{◌++◌ as append}
use invisible_backend.Prelude.{none, some, false, refl, ◌≡◌}
use invisible_backend.Postgres.{ok, err}
use invisible_backend.Config.{validate_config, load, default_config}
use invisible_backend.Api.Files.{S3, presign_handler}
use invisible_backend.Tests.{format_uuid}
use invisible_backend.Api.{json}

load_default : load false (λ c. ok c) ≡ err "JWT_SECRET must be explicitly set in production"
unfolding load validate_config
load_default = refl

-- api/src/lib.rs: an S3 client that signs each path by what it signs it for.
abbrev signer : S3
signer = record {
  Bucket = Unit;
  bucket = λ c. some tt;
  presign_put = λ b path seconds mime. some (append "put" path);
  presign_get = λ b path seconds. none;
}

presign_of_two :
    presign_handler signer format_uuid
      (λ t. some t)
      default_config
      (record { file_name = "f"; mime_type = "image/png" })
      2
    ≡ some (json 200 (record { upload_url = "put/two"; download_url = ""; file_id = "two" }))
unfolding presign_handler
presign_of_two = refl
