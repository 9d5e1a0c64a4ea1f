-- ===== src/Client/Backfill.antt =====
-- internal/clientdb/backfill.go: rows that were there before the sync are queued.
pub mod Keeps
pub mod Baseline
pub mod Undo
pub mod Scope
pub mod Report
use claude_mem_lan_sync.Prelude.{
  ℕ, zero, suc, ◌+◌, ◌-◌, Bool, true, false, not, ◌&&◌, ◌||◌, List, [], ◌∷◌, ◌++◌, map, Option,
  none, some, if◌then◌else◌, ltb, leb, ◌==◌, Bytes, bytes_eq, codes, Result, ok, err, ◌>>=◌, ◌>>◌,
  length, trim_space, is_empty,
}
use claude_mem_lan_sync.Proto.Dec.{dec_string}
use claude_mem_lan_sync.Client.Database.{
  Table, observations, session_summaries, user_prompts, kind_of, sync_tables, same_table, Row,
  Session, Exclusion, Database, is_null, count,
}
use claude_mem_lan_sync.Client.Select.{
  BackfillOpts, session_project, through_session, project_of, or_empty, equals, not_excluded,
  filter_for, is_selected,
}
use claude_mem_lan_sync.Client.Exclusions.{
  through_rev, insert_if_new, insert_or_ignore, keep_if, undo_rows, has_key,
}

-- `backup` is the name of the file in the directory of the database, empty in a dry run.
pub record BackfillResult : Type 0 where
  pub per_table : List (Table × ℕ)
  pub bytes : ℕ
  pub backup : Bytes
  pub exclusions : ℕ

-- The calls that may fail.
pub data ClientCall : Type 0 where
  read_versions vacuum chmod begin create_undo commit : ClientCall
  measure save clear requeue : Table → ClientCall
  find_undo begin_undo restore drop_undo commit_undo : ClientCall
  stamp : Table → ClientCall

pub data BackfillError : Type 0 where
  worker_is_running no_baseline no_backfill call_failed : BackfillError

-- `running` is what WorkerRunning finds.
pub record ClientEnv : Type 0 where
  pub now : ℕ
  pub running : Bool
  pub fails : ClientCall → Bool

-- The database, and the backups by name.
pub record Disk : Type 0 where
  pub db : Database
  pub backups : List (Bytes × Database)

abbrev pub run : ClientEnv → ClientCall → Result BackfillError (Unit {0})
run env c = if env.fails c then err call_failed else ok tt

abbrev pub refuse_unless : Bool → BackfillError → Result BackfillError (Unit {0})
refuse_unless true e = ok tt
refuse_unless false e = err e

unfoldable pub has_version : ℕ → List ℕ → Bool
has_version v [] = false
has_version v (w ∷ ws) = if v == w then true else has_version v ws

-- `LENGTH` of a TEXT: the characters, each of which has one byte that is no continuation.
unfoldable pub text_length : Bytes → ℕ
text_length [] = 0
text_length (c ∷ s) =
    let rest = text_length s in if leb 0x80 c && ltb c 0xc0 then rest else suc rest

abbrev pub row_length : Row → ℕ
row_length r = text_length (or_empty r.first_text) + text_length (or_empty r.second_text)

unfoldable pub sum_lengths : (Row → Bool) → List Row → ℕ
sum_lengths p [] = 0
sum_lengths p (r ∷ rows) =
    let rest = sum_lengths p rows in if p r then row_length r + rest else rest

-- The loop that counts.
unfoldable pub measured :
    ClientEnv → BackfillOpts → Database → List Table → Result BackfillError (List (Table × ℕ) × ℕ)
measured env o db [] = ok ([], 0)
measured env o db (t ∷ ts) = do
  run env (measure t)
  (counts, bytes) ← measured env o db ts
  ok (
    (t, count (is_selected o db t) (db.rows t)) ∷ counts,
    sum_lengths (is_selected o db t) (db.rows t) + bytes,
  )

unfoldable pub has_id : (Row → Bool) → List Row → Bytes → Bool
has_id p [] id = false
has_id p (r ∷ rows) id = if p r && bytes_eq (dec_string r.id) id then true else has_id p rows id

-- `kind = ? AND origin_local_id IN (SELECT CAST(id AS TEXT) …)`
abbrev pub covers : BackfillOpts → Database → Table → Bytes → Bytes → Bool
covers o db t kind id = bytes_eq kind (kind_of t) && has_id (is_selected o db t) (db.rows t) id

-- `UPDATE … SET synced_at = ? WHERE p`
abbrev pub stamped : (Row → Bool) → Option ℕ → Row → Row
stamped p at r = if p r then record r { synced_at = at } else r

abbrev pub update_rows : Table → (Row → Row) → Database → Database
update_rows t f db = record db {
  rows = λ u. if same_table u t then map f (db.rows u) else db.rows u;
}

abbrev pub saved : BackfillOpts → Database → Table → List Exclusion
saved o db t =
    insert_or_ignore (undo_rows db.undo_table) (keep_if (covers o db t) db.launch_exclusions)

-- What the three statements for a table make of the database.
abbrev pub requeued : BackfillOpts → Table → Database → Database
requeued o t db = update_rows t (stamped (is_selected o db t) none) (record db {
  undo_table = some (saved o db t);
  launch_exclusions = keep_if (λ kind id. not (covers o db t kind id)) db.launch_exclusions;
})

-- The loop of the transaction, with the rows affected by the inserts.
unfoldable pub requeue_all :
    ClientEnv → BackfillOpts → Database → List Table → Result BackfillError (Database × ℕ)
requeue_all env o db [] = ok (db, 0)
requeue_all env o db (t ∷ ts) = do
  run env (save t)
  run env (clear t)
  run env (requeue t)
  (db', n) ← requeue_all env o (requeued o t db) ts
  ok (db', length (saved o db t) - length (undo_rows db.undo_table) + n)

-- `CREATE TABLE IF NOT EXISTS`
abbrev pub with_undo_table : Database → Database
with_undo_table db = record db { undo_table = some (undo_rows db.undo_table) }

unfoldable pub backfill_tx :
    ClientEnv → BackfillOpts → Database → Result BackfillError (Database × ℕ)
backfill_tx env o db = do
  run env begin
  run env create_undo
  (db', n) ← requeue_all env o (with_undo_table db) sync_tables
  run env commit
  ok (db', n)

-- What comes before the backup.
unfoldable pub plan :
    ClientEnv → BackfillOpts → Database → Result BackfillError (List (Table × ℕ) × ℕ)
plan env o db = do
  refuse_unless (o.force || not env.running) worker_is_running
  run env read_versions
  refuse_unless (has_version 47 db.schema_versions) no_baseline
  measured env o db sync_tables

abbrev pub backup_name : ℕ → Bytes
backup_name now = codes "claude-mem.backup-" ++ dec_string now ++ codes ".db"

unfoldable pub has_backup : List (Bytes × Database) → Bytes → Bool
has_backup [] name = false
has_backup ((n, db) ∷ backups) name = if bytes_eq n name then true else has_backup backups name

abbrev pub result_of : List (Table × ℕ) × ℕ → Bytes → ℕ → BackfillResult
result_of (per_table, bytes) backup n = record {
  per_table = per_table;
  bytes = bytes;
  backup = backup;
  exclusions = n;
}

abbrev pub committed :
    Disk
    → List (Table × ℕ) × ℕ
    → Bytes
    → Result BackfillError (Database × ℕ)
    → Disk × Result BackfillError BackfillResult
committed d sizes backup (err e) = (d, err e)
committed d sizes backup (ok (db, n)) = (record d { db = db }, ok (result_of sizes backup n))

-- `VACUUM INTO` fails where the file is there already; then the mode of the file, and the transaction.
abbrev pub requeue_behind_backup :
    ClientEnv
    → BackfillOpts
    → Disk
    → List (Table × ℕ) × ℕ
    → Disk × Result BackfillError BackfillResult
requeue_behind_backup env o d sizes =
    let name = backup_name env.now in
    let d' = record d { backups = (name, d.db) ∷ d.backups } in
    if env.fails vacuum || has_backup d.backups name
    then (d, err call_failed)
    else if env.fails chmod
    then (d', err call_failed)
    else committed d' sizes name (backfill_tx env o d.db)

abbrev pub planned :
    ClientEnv
    → BackfillOpts
    → Disk
    → Result BackfillError (List (Table × ℕ) × ℕ)
    → Disk × Result BackfillError BackfillResult
planned env o d (err e) = (d, err e)
planned env o d (ok sizes) =
    if o.dry_run then (d, ok (result_of sizes [] 0)) else requeue_behind_backup env o d sizes

-- `Backfill`
unfoldable pub backfill :
    ClientEnv → BackfillOpts → Disk → Disk × Result BackfillError BackfillResult
backfill env o d = planned env o d (plan env o d.db)
