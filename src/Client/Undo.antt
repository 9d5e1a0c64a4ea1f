-- ===== src/Client/Undo.antt =====
-- `UndoBackfill` of internal/clientdb/backfill.go.
use claude_mem_lan_sync.Prelude.{
  ℕ, ◌-◌, Bool, ◌&&◌, List, [], ◌∷◌, Option, none, some, Result, ok, err, ◌>>=◌, ◌>>◌, length,
}
use claude_mem_lan_sync.Proto.Dec.{dec_string}
use claude_mem_lan_sync.Client.Database.{
  Table, kind_of, sync_tables, Row, Exclusion, Database, is_null,
}
use claude_mem_lan_sync.Client.Exclusions.{insert_or_ignore, has_key}
use claude_mem_lan_sync.Client.Backfill.{
  find_undo, begin_undo, restore, drop_undo, commit_undo, stamp, BackfillError, no_backfill,
  ClientEnv, Disk, run, stamped, update_rows,
}

-- The rows that the undo stamps.
abbrev pub is_restamped : List Exclusion → Table → Row → Bool
is_restamped undo t r =
    is_null r.synced_at && is_null r.origin_device_id && has_key undo (kind_of t) (dec_string r.id)

unfoldable pub restamp_all :
    ClientEnv → List Exclusion → Database → List Table → Result BackfillError Database
restamp_all env undo db [] = ok db
restamp_all env undo db (t ∷ ts) = do
  run env (stamp t)
  restamp_all env undo (update_rows t (stamped (is_restamped undo t) (some env.now)) db) ts

abbrev pub restored : List Exclusion → Database → Database
restored undo db = record db { launch_exclusions = insert_or_ignore db.launch_exclusions undo }

unfoldable pub undo_tx : ClientEnv → Database → List Exclusion → Result BackfillError (Database × ℕ)
undo_tx env db undo = do
  run env begin_undo
  run env restore
  db' ← restamp_all env undo (restored undo db) sync_tables
  run env drop_undo
  run env commit_undo
  ok (
    record db' { undo_table = none },
    length (restored undo db).launch_exclusions - length db.launch_exclusions,
  )

abbrev pub or_no_backfill : Option (List Exclusion) → Result BackfillError (List Exclusion)
or_no_backfill none = err no_backfill
or_no_backfill (some undo) = ok undo

abbrev pub undone : Disk → Result BackfillError (Database × ℕ) → Disk × Result BackfillError ℕ
undone d (err e) = (d, err e)
undone d (ok (db, n)) = (record d { db = db }, ok n)

-- `UndoBackfill`
unfoldable pub undo_backfill : ClientEnv → Disk → Disk × Result BackfillError ℕ
undo_backfill env d =
    undone d (do run env find_undo; undo ← or_no_backfill d.db.undo_table; undo_tx env d.db undo)
