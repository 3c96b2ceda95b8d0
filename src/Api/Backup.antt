-- ===== src/Api/Backup.antt =====
-- api/src/backup.rs: the encrypted key vault of a user.
pub mod Vault
use invisible_backend.Prelude.{
  ℕ, String, Option, none, some, ◌==◌, string_eq, not, retain, if◌then◌else◌,
}
use invisible_backend.Models.{Claims}
use invisible_backend.Postgres.{
  World, Sql, ok, err, foreign_key_violation, query, ◌>>=◌, ◌>>◌, pure,
}
use invisible_backend.Postgres.Schema.{KeyBackup, has_user}
use invisible_backend.Postgres.Tables.{upsert, row_at}
use invisible_backend.Api.{Reply, text, json, respond, database_error}

pub record BackupVaultRequest : Type 0 where
  pub encrypted_vault : String
  pub salt : String
  pub mac : String

pub record BackupVaultResponse : Type 0 where
  pub encrypted_vault : String
  pub salt : String
  pub mac : String
  pub updated_at : ℕ

abbrev pub owner : KeyBackup → String
owner b = b.user_username

abbrev pub vault_row : String → BackupVaultRequest → ℕ → KeyBackup
vault_row username p now = record {
  user_username = username;
  encrypted_vault = p.encrypted_vault;
  salt = p.salt;
  mac = p.mac;
  updated_at = now;
}

-- INSERT INTO user_key_backups … ON CONFLICT (user_username) DO UPDATE
unfoldable pub save_vault : String → BackupVaultRequest → Sql (Unit {0})
save_vault username p db =
    if has_user db username
    then ok (
      tt,
      record db {
        user_key_backups = upsert owner (vault_row username p db.now) db.user_key_backups;
      },
    )
    else err foreign_key_violation

-- SELECT … FROM user_key_backups WHERE user_username = $1
unfoldable pub select_vault : String → Sql (Option KeyBackup)
select_vault username db = ok (row_at owner username db.user_key_backups, db)

-- DELETE FROM user_key_backups WHERE user_username = $1
unfoldable pub delete_vault : String → Sql (Unit {0})
delete_vault username db = ok (
  tt,
  record db { user_key_backups = retain (λ b. not (owner b == username)) db.user_key_backups },
)

unfoldable pub upload_backup : Claims → BackupVaultRequest → World → Reply (Unit {0}) × World
unfolding query ◌>>=◌
upload_backup user payload =
    respond (do query database_error (save_vault user.sub payload); pure (text 200 "Backup saved"))

abbrev pub to_response : KeyBackup → BackupVaultResponse
to_response b = record {
  encrypted_vault = b.encrypted_vault;
  salt = b.salt;
  mac = b.mac;
  updated_at = b.updated_at;
}

abbrev pub found : Option KeyBackup → Reply BackupVaultResponse
found (some b) = json 200 (to_response b)
found none = text 404 "No backup found"

unfoldable pub get_backup : Claims → World → Reply BackupVaultResponse × World
unfolding query ◌>>=◌
get_backup user = respond (do row ← query database_error (select_vault user.sub); pure (found row))

unfoldable pub delete_backup : Claims → World → Reply (Unit {0}) × World
unfolding query ◌>>=◌
delete_backup user =
    respond (do query database_error (delete_vault user.sub); pure (text 200 "Backup deleted"))
