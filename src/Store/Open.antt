-- ===== src/Store/Open.antt =====
-- internal/store/store.go and schema.go: opening the database, and the epoch.
pub mod Repair
pub mod Stages
pub mod Epochs
use claude_mem_lan_sync.Prelude.{
  ℕ, suc, Bool, true, false, List, [], ◌∷◌, Option, none, some, if◌then◌else◌, ltb, ◌==◌, Bytes,
  Result, ok, err, ◌>>=◌, ◌>>◌,
}
use claude_mem_lan_sync.Proto.Dec.{dec_string, parse_dec_positive}
use claude_mem_lan_sync.Proto.Errors.{Fault, other}
use claude_mem_lan_sync.Store.Env.{
  Env, run, journal_mode, migrate_tx, read_meta, random_id, random_epoch, insert_meta, chmod,
  read_head, read_max, update_head, update_epoch,
}
use claude_mem_lan_sync.Store.Tables.{OpRow, Meta, DeviceRow, Tables, Store}

abbrev pub schema_version : ℕ
schema_version = 1

-- A database file; before the first migration it has version 0 and no tables.
pub record Database : Type 0 where
  pub user_version : ℕ
  pub meta : Option Meta
  pub ops : List OpRow
  pub devices : List DeviceRow

abbrev pub database_of : Store → Database
database_of s = record {
  user_version = schema_version;
  meta = some s.tables.meta;
  ops = s.tables.ops;
  devices = s.tables.devices;
}

-- `migrate`: schemaV1 creates the three tables, which are empty then.
unfoldable pub migrate : Env → Database → Result Fault Database
migrate env db =
    if ltb schema_version db.user_version
    then err other
    else if db.user_version == schema_version
    then ok db
    else do
      run env migrate_tx
      ok (record { user_version = schema_version; meta = none; ops = []; devices = [] })

-- `randomEpoch`: a positive number below 2^63.
unfoldable pub new_epoch : Env → Result Fault ℕ
new_epoch env = do run env random_epoch; ok (if env.random == 0 then 1 else env.random)

abbrev pub store_of : Database → Meta → ℕ → Store
store_of db meta epoch = record {
  tables = record { ops = db.ops; meta = meta; devices = db.devices };
  user_id = meta.user_id;
  epoch = epoch;
}

abbrev pub parsed_epoch : Bytes → Result Fault ℕ
parsed_epoch s = elim (parse_dec_positive s) [ ok e ↦ ok e | err _ ↦ err other ]

unfoldable pub load_or_create : Env → Database → Option Meta → Result Fault Store
unfolding new_epoch
load_or_create env db (some meta) = do e ← parsed_epoch meta.epoch; ok (store_of db meta e)
load_or_create env db none = do
  run env random_id
  e ← new_epoch env
  run env insert_meta
  ok (store_of db (record { user_id = env.fresh_id; epoch = dec_string e; head_seq = 0 }) e)

-- `loadOrCreateMeta`
unfoldable pub load_or_create_meta : Env → Database → Result Fault Store
unfolding load_or_create
load_or_create_meta env db = do run env read_meta; load_or_create env db db.meta

-- A rotated store: the new epoch in memory, and its print on disk.
abbrev pub with_epoch : Store → ℕ → Store
with_epoch s e = record s {
  tables = record s.tables { meta = record s.tables.meta { epoch = dec_string e } };
  epoch = e;
}

abbrev pub rotated : Store → Result Fault ℕ → Store × Result Fault (Unit {0})
rotated s (err f) = (s, err f)
rotated s (ok e) = (with_epoch s e, ok tt)

-- `BumpEpoch`
unfoldable pub bump_epoch : Env → Store → Store × Result Fault (Unit {0})
bump_epoch env s = rotated s (do e ← new_epoch env; run env update_epoch; ok e)

-- `SELECT MAX(seq) FROM ops`, and 0 where that is NULL.
unfoldable pub max_seq : List OpRow → ℕ
max_seq [] = 0
max_seq (r ∷ rows) = let rest = max_seq rows in if ltb rest r.seq then r.seq else rest

abbrev pub with_head : Store → ℕ → Store
with_head s n = record s {
  tables = record s.tables { meta = record s.tables.meta { head_seq = n } };
}

-- The counter is repaired by one statement, and the epoch rotated by the next.
abbrev pub repaired : Env → Store → Result Fault (Unit {0}) → Store × Result Fault (Unit {0})
repaired env s (err f) = (s, err f)
repaired env s (ok _) = bump_epoch env (with_head s (max_seq s.tables.ops))

abbrev pub verified : Env → Store → Result Fault (Unit {0}) → Store × Result Fault (Unit {0})
verified env s (err f) = (s, err f)
verified env s (ok _) =
    if max_seq s.tables.ops == s.tables.meta.head_seq
    then (s, ok tt)
    else repaired env s (run env update_head)

-- `verifyHeadConsistency`
unfoldable pub verify_head_consistency : Env → Store → Store × Result Fault (Unit {0})
verify_head_consistency env s = verified env s (run env read_head >> run env read_max)

abbrev pub opened : Store × Result Fault (Unit {0}) → Database × Result Fault Store
opened (s, ok _) = (database_of s, ok s)
opened (s, err f) = (database_of s, err f)

-- `if err != nil { return nil, err }`, with the database as it is on disk by then.
abbrev pub unless_failed :
    Database
    → Result Fault (Unit {0})
    → Database × Result Fault Store
    → Database × Result Fault Store
unless_failed db (err f) rest = (db, err f)
unless_failed db (ok _) rest = rest

abbrev pub start : Env → Database → Result Fault Store → Database × Result Fault Store
start env db (err f) = (db, err f)
start env db (ok s) =
    unless_failed (database_of s) (run env chmod) (opened (verify_head_consistency env s))

abbrev pub load : Env → Database → Result Fault Database → Database × Result Fault Store
load env db (err f) = (db, err f)
load env db (ok migrated) = start env migrated (load_or_create_meta env migrated)

-- `Open`: what is on disk afterwards, and the store.
unfoldable pub open_store : Env → Database → Database × Result Fault Store
open_store env db = unless_failed db (run env journal_mode) (load env db (migrate env db))
