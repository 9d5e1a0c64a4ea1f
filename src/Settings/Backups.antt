-- ===== src/Settings/Backups.antt =====
-- `Restore` and `LatestBackup` of internal/settings/settings.go.
use claude_mem_lan_sync.Prelude.{
  ℕ, Bool, true, false, List, [], ◌∷◌, Option, none, some, if◌then◌else◌, ltb, ◌==◌, Bytes, Result,
  ok, err,
}
use claude_mem_lan_sync.Settings.{SettingsDir}

pub data BackupError : Type 0 where
  unreadable unwritten no_backup : BackupError

-- The content under a backup's time.
unfoldable pub content_of : List (ℕ × Bytes) → ℕ → Option Bytes
content_of [] stamp = none
content_of ((s, text) ∷ backups) stamp =
    let rest = content_of backups stamp in if s == stamp then some text else rest

abbrev restored_from :
    ℕ → Bool → SettingsDir → Option Bytes → SettingsDir × Result BackupError (Unit {0})
restored_from now fails d none = (d, err unreadable)
restored_from now true d (some text) = (d, err unwritten)
restored_from now false d (some text) =
    (record d { file = some (record { content = text; modified = now }) }, ok tt)

-- `Restore`, at a time, where the write may fail before it touches the file.
unfoldable pub restore : ℕ → Bool → SettingsDir → ℕ → SettingsDir × Result BackupError (Unit {0})
restore now fails d stamp = restored_from now fails d (content_of d.backups stamp)

-- The loop over the matches: a file that `Stat` fails for has no time.
unfoldable pub newest : List (Bytes × Option ℕ) → Bytes × ℕ → Bytes × ℕ
newest [] best = best
newest ((name, none) ∷ matches) best = newest matches best
newest ((name, some time) ∷ matches) best =
    newest matches (if ltb best.1 time then (name, time) else best)

-- `LatestBackup`, on the matches in their order; times are counted from Go's zero time.
unfoldable pub latest_backup : List (Bytes × Option ℕ) → Result BackupError Bytes
latest_backup [] = err no_backup
latest_backup ((name, time) ∷ matches) = ok (newest ((name, time) ∷ matches) (name, 0)).0
