-- ===== src/Cli/BackfillCommand/Examples.antt =====
-- Runs of `cmemlan backfill`.
use claude_mem_lan_sync.Prelude.{
  ℕ, ◌≡◌, refl, true, false, List, [], ◌∷◌, Option, none, some, Bytes, bytes_eq, codes, trim_left,
  trim_right, get_elem?,
}
use claude_mem_lan_sync.Proto.Json.{unmarshal_string}
use claude_mem_lan_sync.Proto.Unquote.{unquote_json_string, unquote_loop, piece}
use claude_mem_lan_sync.Proto.Fields.{Fields, field}
use claude_mem_lan_sync.Proto.Dec.{dec_string, digits}
use claude_mem_lan_sync.Settings.{value}
use claude_mem_lan_sync.Client.Database.{
  Table, observations, session_summaries, user_prompts, Row, count,
}
use claude_mem_lan_sync.Client.Select.{not_excluded, filter_for}
use claude_mem_lan_sync.Client.Exclusions.{through_rev, keep_if, insert_or_ignore}
use claude_mem_lan_sync.Client.Backfill.{
  ClientEnv, Disk, backfill, plan, has_version, measured, sum_lengths, text_length, has_backup,
  backfill_tx, requeue_all, has_id,
}
use claude_mem_lan_sync.Cli.BackfillCommand.{
  key_excluded_projects, split_commas, trim_parts, listed_projects, BackfillFlags, counted,
  total_rows, run_backfill,
}
use claude_mem_lan_sync.Cli.BackfillCommand.Split.{is_part, join_commas}
use claude_mem_lan_sync.Cli.BackfillCommand.Excluded.{run_backfill-IsExcluded}

abbrev note : ℕ → Bytes → Row
note id project = record {
  id = id;
  origin_device_id = none;
  synced_at = some 1;
  project = some project;
  session_db_id = none;
  first_text = some (codes "text");
  second_text = none;
}

abbrev rows_then : Table → List Row
rows_then observations = note 1 (codes "work") ∷ note 2 (codes "home") ∷ []
rows_then session_summaries = []
rows_then user_prompts = []

abbrev disk : Disk
disk = record {
  db = record {
    schema_versions = 47 ∷ [];
    rows = rows_then;
    sdk_sessions = [];
    launch_exclusions = [];
    undo_table = none;
  };
  backups = [];
}

abbrev calm : ClientEnv
calm = record { now = 8; running = false; fails = λ _. false }

abbrev flags : BackfillFlags
flags = record { dry_run = false; force = false; only_project = []; undo = false }

abbrev settings : Fields
settings = (key_excluded_projects, codes "\"play, home \"") ∷ []

abbrev no_array : Bytes → Option (List Bytes)
no_array _ = none

opens_command : Unit {0}
unfolding run_backfill listed_projects split_commas trim_parts total_rows value field bytes_eq
    unmarshal_string unquote_json_string unquote_loop piece trim_left trim_right backfill plan
    has_version measured count filter_for not_excluded sum_lengths text_length has_backup
    backfill_tx requeue_all insert_or_ignore through_rev keep_if has_id dec_string digits is_part
    join_commas
opens_command = tt

run_backfill_counts :
    (run_backfill no_array (some settings) true calm flags disk).printed
    ≡ counted
        ((observations, 1) ∷ (session_summaries, 0) ∷ (user_prompts, 0) ∷ [])
        1
        4
        (codes "play" ∷ codes "home" ∷ [])
        (some (codes "claude-mem.backup-8.db"))
unfolding opens_command
run_backfill_counts = refl

-- Settings that cannot be read exclude nothing, and the row of the excluded project is queued as well.
run_backfill_opens :
    get_elem? ((run_backfill no_array none true calm flags disk).disk.db.rows observations) 1
    ≡ some (record (note 2 (codes "home")) { synced_at = none })
unfolding opens_command
run_backfill_opens = refl

run_backfill-IsExcluded_example :
    get_elem?
      ((run_backfill no_array (some settings) true calm flags disk).disk.db.rows observations)
      1
    ≡ some (note 2 (codes "home"))
unfolding opens_command
run_backfill-IsExcluded_example =
    run_backfill-IsExcluded no_array settings true calm flags disk (codes "play")
      (codes " home " ∷ []) (codes "play" ∷ []) [] (codes " home ") observations 1
      (note 2 (codes "home")) refl refl (refl, (refl, tt)) refl (λ e. cc) refl refl refl
