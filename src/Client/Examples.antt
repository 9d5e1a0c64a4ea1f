-- ===== src/Client/Examples.antt =====
-- A backfill and its undo on a small database: tests, and instances of the theorems.
use claude_mem_lan_sync.Prelude.{
  ℕ, ◌≡◌, refl, inr, true, false, List, [], ◌∷◌, Option, none, some, Bytes, codes, ok, err, pos,
  get_elem?, bytes_eq, trim_left, trim_right,
}
use claude_mem_lan_sync.Proto.Dec.{dec_string, digits, all_digits, digits_value}
use claude_mem_lan_sync.Hub.Handlers.{atoi}
use claude_mem_lan_sync.Client.Database.{
  Table, observations, session_summaries, user_prompts, Row, Exclusion, Database, count,
  pending_counts, total,
}
use claude_mem_lan_sync.Client.Worker.{worker_pid, process_alive, worker_running}
use claude_mem_lan_sync.Client.Select.{BackfillOpts, session_project, not_excluded, filter_for}
use claude_mem_lan_sync.Client.Backfill.{
  ClientEnv, Disk, worker_is_running, no_baseline, no_backfill, has_version, text_length,
  sum_lengths, measured, has_id, requeue_all, backfill_tx, plan, has_backup, backfill,
}
use claude_mem_lan_sync.Client.Exclusions.{through_rev, insert_or_ignore, keep_if, has_key}
use claude_mem_lan_sync.Client.Undo.{restamp_all, undo_tx, undo_backfill}
use claude_mem_lan_sync.Client.Backfill.Undo.{backfill_all, backfill_all-undo_backfill}
use claude_mem_lan_sync.Client.Backfill.Scope.{backfill-IsProtected}
use claude_mem_lan_sync.Client.Backfill.Report.{IsReported, backfill-IsReported}

abbrev note : ℕ → Option Bytes → Option Bytes → Row
note id device project = record {
  id = id;
  origin_device_id = device;
  synced_at = some 1;
  project = project;
  session_db_id = none;
  first_text = some (codes "text");
  second_text = none;
}

abbrev prompt_row : Row
prompt_row = record (note 4 none none) { session_db_id = some 9 }

-- A note of this device, one of another device, one of a private project, and a prompt of that project.
abbrev rows_then : Table → List Row
rows_then observations =
    note 1 none (some (codes "work"))
    ∷ note 2 (some (codes "d")) (some (codes "work"))
    ∷ note 3 none (some (codes "home"))
    ∷ []
rows_then session_summaries = []
rows_then user_prompts = prompt_row ∷ []

abbrev exclusion : Bytes → Bytes → Exclusion
exclusion kind id = record { kind = kind; origin_local_id = id; through_rev = codes "1" }

abbrev database : Database
database = record {
  schema_versions = 46 ∷ 47 ∷ [];
  rows = rows_then;
  sdk_sessions = record { id = 9; project = some (codes "home") } ∷ [];
  launch_exclusions =
      exclusion (codes "observation") (codes "1")
      ∷ exclusion (codes "observation") (codes "3")
      ∷ exclusion (codes "prompt") (codes "4")
      ∷ [];
  undo_table = none;
}

abbrev disk : Disk
disk = record { db = database; backups = [] }

abbrev calm : ClientEnv
calm = record { now = 8; running = false; fails = λ _. false }

abbrev options : BackfillOpts
options = record {
  dry_run = false;
  force = false;
  project = [];
  excluded_projects = codes " home " ∷ [];
}

opens_backfill : Unit {0}
unfolding backfill plan has_version measured count filter_for not_excluded session_project bytes_eq
    trim_left trim_right sum_lengths text_length has_backup backfill_tx requeue_all insert_or_ignore
    through_rev keep_if has_id dec_string digits undo_backfill undo_tx restamp_all has_key
    backfill_all
opens_backfill = tt

-- The note of this device is queued, and its baseline moves to the undo table.
backfill_moves :
    (total (pending_counts (backfill calm options disk).0.db) ≡ 1)
    × ((backfill calm options disk).1
        ≡ ok (record {
          per_table = (observations, 1) ∷ (session_summaries, 0) ∷ (user_prompts, 0) ∷ [];
          bytes = 4;
          backup = codes "claude-mem.backup-8.db";
          exclusions = 1;
        }))
    × ((backfill calm options disk).0.db.undo_table
        ≡ some (exclusion (codes "observation") (codes "1") ∷ []))
unfolding opens_backfill
backfill_moves = (refl, refl, refl)

-- A worker that runs, a database from before the sync, and an undo with nothing to undo.
backfill_refuses :
    ((backfill (record calm { running = true }) options disk).1 ≡ err worker_is_running)
    × ((backfill calm options (record disk { db = record database { schema_versions = [] } })).1
        ≡ err no_baseline)
    × ((undo_backfill calm disk).1 ≡ err no_backfill)
unfolding opens_backfill
backfill_refuses = (refl, refl, refl)

backfill_all-undo_backfill_example :
    let d = (undo_backfill calm (backfill_all ((calm, options) ∷ []) disk)).0 in
    ((kind id : Bytes)
      → through_rev d.db.launch_exclusions kind id ≡ through_rev database.launch_exclusions kind id)
    × (d.db.undo_table ≡ none)
unfolding opens_backfill
backfill_all-undo_backfill_example =
    backfill_all-undo_backfill ((calm, options) ∷ []) calm disk 1 refl refl

backfill-IsProtected_example :
    get_elem? ((backfill calm options disk).0.db.rows user_prompts) 0 ≡ some prompt_row
unfolding opens_backfill
backfill-IsProtected_example =
    backfill-IsProtected calm options disk user_prompts 0 prompt_row refl
      (inr (inr ([], [], codes " home ", refl, (λ e. cc), refl)))

backfill-IsReported_example : IsReported options disk (backfill calm options disk)
backfill-IsReported_example = backfill-IsReported calm options disk

-- A pid file with JSON, one with a bare number, and a pid that is none.
pids :
    (worker_pid (λ _. some (pos 7)) (some (codes "{\"pid\":7}")) ≡ some (pos 7))
    × (worker_pid (λ _. none) (some (codes " 12\n")) ≡ some (pos 12))
    × (worker_running (λ _. none) (λ _. true) (some (codes "-1")) ≡ false)
unfolding worker_pid process_alive atoi all_digits digits_value trim_left trim_right
pids = (refl, refl, refl)
