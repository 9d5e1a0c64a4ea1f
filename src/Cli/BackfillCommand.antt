-- ===== src/Cli/BackfillCommand.antt =====
-- internal/cli/backfill_cmd.go: the command that queues old memories, with the exclusions of claude-mem.
pub mod Split
pub mod Blank
pub mod Excluded
mod Examples
use claude_mem_lan_sync.Prelude.{
  ℕ, ◌+◌, Bool, true, false, not, ◌&&◌, List, [], ◌∷◌, ◌++◌, Option, none, some, if◌then◌else◌,
  ◌==◌, Bytes, codes, Result, ok, err, is_empty, trim_space,
}
use claude_mem_lan_sync.Proto.Fields.{Fields}
use claude_mem_lan_sync.Settings.{value}
use claude_mem_lan_sync.Client.Database.{Table}
use claude_mem_lan_sync.Client.Select.{BackfillOpts}
use claude_mem_lan_sync.Client.Backfill.{BackfillError, BackfillResult, ClientEnv, Disk, backfill}
use claude_mem_lan_sync.Client.Undo.{undo_backfill}

abbrev pub key_excluded_projects : Bytes
key_excluded_projects = codes "CLAUDE_MEM_EXCLUDED_PROJECTS"

abbrev pub onto_first : ℕ → List Bytes → List Bytes
onto_first c [] = (c ∷ []) ∷ []
onto_first c (part ∷ parts) = (c ∷ part) ∷ parts

-- `strings.Split(s, ",")`
unfoldable pub split_commas : Bytes → List Bytes
split_commas [] = [] ∷ []
split_commas (c ∷ s) =
    let parts = split_commas s in if c == b',' then [] ∷ parts else onto_first c parts

-- The loop over the parts.
unfoldable pub trim_parts : List Bytes → List Bytes
trim_parts [] = []
trim_parts (part ∷ parts) =
    let rest = trim_parts parts in
    if is_empty (trim_space part) then rest else trim_space part ∷ rest

-- `strings.HasPrefix(strings.TrimSpace(raw), "[")`
abbrev pub opens_array : Bytes → Bool
opens_array [] = false
opens_array (c ∷ _) = c == b'['

abbrev pub or_split : Bytes → Option (List Bytes) → List Bytes
or_split raw none = trim_parts (split_commas raw)
or_split raw (some arr) = arr

-- `decode_array` is `json.Unmarshal` into a list of strings.
unfoldable pub listed_projects : (Bytes → Option (List Bytes)) → Bytes → List Bytes
listed_projects decode_array raw =
    if is_empty (trim_space raw)
    then []
    else or_split raw (if opens_array (trim_space raw) then decode_array raw else none)

-- The settings are none where there is no path to them or they cannot be read.
abbrev pub excluded_projects : (Bytes → Option (List Bytes)) → Option Fields → List Bytes
excluded_projects decode_array none = []
excluded_projects decode_array (some current) =
    listed_projects decode_array (value current key_excluded_projects)

pub record BackfillFlags : Type 0 where
  pub dry_run : Bool
  pub force : Bool
  pub only_project : Bytes
  pub undo : Bool

-- What is printed: the counts by table and their sum, the size, the exclusions and the name of the
-- backup; or the number of entries that an undo restores.
pub data Printed : Type 0 where
  nothing : Printed
  restored : ℕ → Printed
  counted : List (Table × ℕ) → ℕ → ℕ → List Bytes → Option Bytes → Printed

unfoldable pub total_rows : List (Table × ℕ) → ℕ
total_rows [] = 0
total_rows ((t, n) ∷ counts) = n + total_rows counts

pub record BackfillRun : Type 0 where
  pub disk : Disk
  pub status : ℕ
  pub printed : Printed

abbrev pub undo_run : Disk × Result BackfillError ℕ → BackfillRun
undo_run (d, err e) = record { disk = d; status = 1; printed = nothing }
undo_run (d, ok n) = record { disk = d; status = 0; printed = restored n }

abbrev pub counted_run : BackfillOpts → Disk × Result BackfillError BackfillResult → BackfillRun
counted_run o (d, err e) = record { disk = d; status = 1; printed = nothing }
counted_run o (d, ok res) = record {
  disk = d;
  status = 0;
  printed =
      counted res.per_table (total_rows res.per_table) res.bytes o.excluded_projects
        (if o.dry_run then none else some res.backup);
}

abbrev pub backfill_opts :
    (Bytes → Option (List Bytes)) → Option Fields → BackfillFlags → BackfillOpts
backfill_opts decode_array settings flags = record {
  dry_run = flags.dry_run;
  force = flags.force;
  project = flags.only_project;
  excluded_projects = excluded_projects decode_array settings;
}

-- `runBackfill` behind the reading of the flags; `opens` says whether the database can be found and
-- opened.
unfoldable pub run_backfill :
    (Bytes → Option (List Bytes))
    → Option Fields
    → Bool
    → ClientEnv
    → BackfillFlags
    → Disk
    → BackfillRun
run_backfill decode_array settings opens env flags d =
    if not opens
    then record { disk = d; status = 1; printed = nothing }
    else if flags.undo
    then undo_run (undo_backfill env d)
    else counted_run (backfill_opts decode_array settings flags)
        (backfill env (backfill_opts decode_array settings flags) d)
