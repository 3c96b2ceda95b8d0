-- ===== src/Api/Backup/Vault.antt =====
-- api/src/backup.rs: the vault of each user, as the other handlers leave it and a read shows it.
use invisible_backend.Prelude.{
  String, ◌≡◌, List, ◌∷◌, Option, some, none, arith, [], eq_iff, ◌==◌, string_eq, if◌then◌else◌,
  not, retain, ◌≢◌, ==_refl,
}
use invisible_backend.Models.{Claims}
use invisible_backend.Postgres.{World}
use invisible_backend.Postgres.Schema.{KeyBackup}
use invisible_backend.Postgres.Tables.{row_at, row_at-upsert}
use invisible_backend.Api.{text, json}
use invisible_backend.Api.Backup.{
  BackupVaultRequest, owner, upload_backup, get_backup, delete_backup, save_vault, select_vault,
  delete_vault, vault_row, found, to_response,
}

-- the vault of a user
abbrev pub vault : World → String → Option KeyBackup
vault w name = row_at owner name w.db.user_key_backups

-- A confirmed upload replaces the vault of its user and leaves every other user's alone.
pub vault-upload_backup :
    (user : Claims) (p : BackupVaultRequest) (w : World) (name : String)
    → (upload_backup user p w).0 ≡ text 200 "Backup saved"
    → vault (upload_backup user p w).1 name
      ≡ (if user.sub == name then some (vault_row user.sub p w.db.now) else vault w name)
unfolding upload_backup save_vault
vault-upload_backup user p w name h =
    ground (arith, row_at-upsert owner (vault_row user.sub p w.db.now) name w.db.user_key_backups)

row_at-retain :
    (k name : String) (rs : List KeyBackup)
    → row_at owner name (retain (λ b. not (owner b == k)) rs)
      ≡ (if k == name then none else row_at owner name rs)
row_at-retain k name [] = ground arith
row_at-retain k name (r ∷ rs) =
    ground
      (arith, eq_iff (owner r) k, eq_iff (owner r) name, eq_iff k name, row_at-retain k name rs)

-- A confirmed deletion removes the vault of its user and leaves every other user's alone.
pub vault-delete_backup :
    (user : Claims) (w : World) (name : String)
    → (delete_backup user w).0 ≡ text 200 "Backup deleted"
    → vault (delete_backup user w).1 name ≡ (if user.sub == name then none else vault w name)
unfolding delete_backup delete_vault
vault-delete_backup user w name h =
    ground (arith, row_at-retain user.sub name w.db.user_key_backups)

-- A read that does not fail shows the user's own vault, or 404, and changes no table.
pub get_backup-vault :
    (user : Claims) (w : World)
    → (get_backup user w).0 ≢ text 500 "Database error"
    → ((get_backup user w).0 ≡ found (vault w user.sub)) × ((get_backup user w).1.db ≡ w.db)
unfolding get_backup select_vault
get_backup-vault user w answered = ground arith

-- After a confirmed upload, a read of the same user that does not fail answers 200 with the uploaded
-- vault, salt and MAC and the time of the upload, on any world whose tables the upload left.
pub get_backup-upload_backup :
    (user : Claims) (p : BackupVaultRequest) (w v : World)
    → (upload_backup user p w).0 ≡ text 200 "Backup saved"
    → v.db ≡ (upload_backup user p w).1.db
    → (get_backup user v).0 ≢ text 500 "Database error"
    → (get_backup user v).0 ≡ json 200 (to_response (vault_row user.sub p w.db.now))
get_backup-upload_backup user p w v h e answered = ground (
  arith,
  (get_backup-vault user v answered).0,
  vault-upload_backup user p w user.sub h,
  ==_refl user.sub,
)
