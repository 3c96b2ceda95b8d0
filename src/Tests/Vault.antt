-- ===== src/Tests/Vault.antt =====
-- api/src/backup.rs on the sample data.
use invisible_backend.Postgres.Schema.{has_user}
use invisible_backend.Prelude.{◌≡◌, refl, arith}
use invisible_backend.Api.{json}
use invisible_backend.Api.Backup.{
  BackupVaultRequest, vault_row, upload_backup, get_backup, to_response, save_vault, select_vault,
}
use invisible_backend.Api.Backup.Vault.{get_backup-upload_backup}
use invisible_backend.Tests.{alice, sample}
use invisible_backend.Postgres.{World}

abbrev request : BackupVaultRequest
request = record { encrypted_vault = "v"; salt = "s"; mac = "m" }

abbrev saved : World
saved = (upload_backup alice request sample).1

get_backup-upload_backup_example :
    (get_backup alice saved).0 ≡ json 200 (to_response (vault_row "alice" request 7))
unfolding upload_backup save_vault get_backup select_vault has_user
get_backup-upload_backup_example =
    get_backup-upload_backup alice request sample saved refl refl (λ h. ground arith)
