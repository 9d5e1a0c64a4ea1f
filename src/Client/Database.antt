-- ===== src/Client/Database.antt =====
-- internal/clientdb/clientdb.go: the tables that replicate, and the queue of rows to upload.
use claude_mem_lan_sync.Prelude.{
  ℕ, suc, ◌+◌, Bool, true, false, ◌&&◌, List, [], ◌∷◌, Option, none, some, if◌then◌else◌, Bytes,
  codes,
}

pub data Table : Type 0 where
  observations session_summaries user_prompts : Table

abbrev pub kind_of : Table → Bytes
kind_of observations = codes "observation"
kind_of session_summaries = codes "summary"
kind_of user_prompts = codes "prompt"

abbrev pub sync_tables : List Table
sync_tables = observations ∷ session_summaries ∷ user_prompts ∷ []

abbrev pub same_table : Table → Table → Bool
same_table observations observations = true
same_table session_summaries session_summaries = true
same_table user_prompts user_prompts = true
same_table _ _ = false

-- The columns that the code reads; `first_text` and `second_text` are text and narrative, request and
-- learned, or prompt_text and nothing. A NULL is none.
pub record Row : Type 0 where
  pub id : ℕ
  pub origin_device_id : Option Bytes
  pub synced_at : Option ℕ
  pub project : Option Bytes
  pub session_db_id : Option ℕ
  pub first_text : Option Bytes
  pub second_text : Option Bytes

pub record Session : Type 0 where
  pub id : ℕ
  pub project : Option Bytes

-- A row of sync_launch_exclusions or of the undo table, whose key is its kind and id.
pub record Exclusion : Type 0 where
  pub kind : Bytes
  pub origin_local_id : Bytes
  pub through_rev : Bytes

-- `undo_table` is none where the table cmemlan_backfill_exclusions is not there.
pub record Database : Type 0 where
  pub schema_versions : List ℕ
  pub rows : Table → List Row
  pub sdk_sessions : List Session
  pub launch_exclusions : List Exclusion
  pub undo_table : Option (List Exclusion)

abbrev pub is_null : {A : Type 0} → Option A → Bool
is_null none = true
is_null (some a) = false

-- `SELECT COUNT(*)`
unfoldable pub count : (Row → Bool) → List Row → ℕ
count p [] = 0
count p (r ∷ rows) = let rest = count p rows in if p r then suc rest else rest

abbrev pub is_pending : Row → Bool
is_pending r = is_null r.synced_at && is_null r.origin_device_id

pub record Counts : Type 0 where
  pub observations : ℕ
  pub summaries : ℕ
  pub prompts : ℕ

-- `Counts.Total`
abbrev pub total : Counts → ℕ
total c = c.observations + c.summaries + c.prompts

abbrev pub pending_in : Database → Table → ℕ
pending_in db t = count is_pending (db.rows t)

-- `Pending`, if no query fails.
abbrev pub pending_counts : Database → Counts
pending_counts db = record {
  observations = pending_in db observations;
  summaries = pending_in db session_summaries;
  prompts = pending_in db user_prompts;
}
