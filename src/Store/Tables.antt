-- ===== src/Store/Tables.antt =====
-- internal/store/schema.go and the queries of ops.go: the tables, and the SQL that `Push` runs.
-- Rows are listed in the order of insertion. Every row of the three tables carries the user_id of the
-- one meta row, and every query asks for that user_id, so the column is left out.
pub mod Rows
use claude_mem_lan_sync.Prelude.{
  ℕ, suc, Bool, ◌&&◌, List, [], ◌∷◌, ◌++◌, Option, none, some, if◌then◌else◌, ◌==◌, Bytes, bytes_eq,
  Result, ok, err,
}
use claude_mem_lan_sync.Proto.Errors.{Fault, other}

pub record OpRow : Type 0 where
  pub seq : ℕ
  pub entity_id : Bytes
  pub entity_rev : Bytes
  pub kind : Bytes
  pub origin_device_id : Bytes
  pub operation_sha256 : Bytes
  pub body : Bytes
  pub server_ts : ℕ

pub record Meta : Type 0 where
  pub user_id : Bytes
  pub epoch : Bytes
  pub head_seq : ℕ

pub record DeviceRow : Type 0 where
  pub device_id : Bytes
  pub device_name : Bytes
  pub first_seen : ℕ
  pub last_seen : ℕ
  pub revoked_at : Option ℕ

pub record Tables : Type 0 where
  pub ops : List OpRow
  pub meta : Meta
  pub devices : List DeviceRow

-- `Store`: the database, and the fields that the process keeps.
pub record Store : Type 0 where
  pub tables : Tables
  pub user_id : Bytes
  pub epoch : ℕ

abbrev pub is_revision : Bytes → Bytes → OpRow → Bool
is_revision id rev r = bytes_eq r.entity_id id && bytes_eq r.entity_rev rev

-- `SELECT seq FROM ops WHERE user_id = ? AND entity_id = ? AND entity_rev = ?`
unfoldable pub existing_seq : List OpRow → Bytes → Bytes → Option ℕ
existing_seq [] id rev = none
existing_seq (r ∷ rows) id rev =
    if is_revision id rev r then some r.seq else existing_seq rows id rev

-- `SELECT operation_sha256 FROM ops WHERE user_id = ? AND seq = ?`
unfoldable pub stored_digest : List OpRow → ℕ → Option Bytes
stored_digest [] seq = none
stored_digest (r ∷ rows) seq =
    if r.seq == seq then some r.operation_sha256 else stored_digest rows seq

-- `INSERT INTO ops`: the primary key and the unique index ux_ops_entity refuse a row.
abbrev refuse_or_append : List OpRow → OpRow → Option ℕ → Option Bytes → Result Fault (List OpRow)
refuse_or_append rows r none none = ok (rows ++ r ∷ [])
refuse_or_append rows r none (some _) = err other
refuse_or_append rows r (some _) _ = err other

unfoldable pub insert_row : List OpRow → OpRow → Result Fault (List OpRow)
insert_row rows r =
    refuse_or_append rows r (existing_seq rows r.entity_id r.entity_rev) (stored_digest rows r.seq)
