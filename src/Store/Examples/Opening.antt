-- ===== src/Store/Examples/Opening.antt =====
-- Opening databases: tests, and instances of the theorems.
use claude_mem_lan_sync.Prelude.{◌≡◌, ◌≢◌, refl, some, arith, codes, ok, bytes_eq}
use claude_mem_lan_sync.Proto.Dec.{
  dec_string, digits, parse_dec_positive, parse_dec, parse_uint, is_canonical_decimal, all_digits,
}
use claude_mem_lan_sync.Store.Tables.{Meta, Store}
use claude_mem_lan_sync.Store.Open.{
  Database, database_of, open_store, migrate, load_or_create_meta, load_or_create, new_epoch,
  verify_head_consistency, bump_epoch, max_seq,
}
use claude_mem_lan_sync.Store.Open.Epochs.{
  open_store-IsReopened, IsReopened, interrupted, open_store_after_interruption,
}
use claude_mem_lan_sync.Store.Examples.{quiet, two_rows, two_rows-IsSound}

opens_database : Unit {0}
unfolding open_store migrate load_or_create_meta load_or_create new_epoch verify_head_consistency
    bump_epoch max_seq parse_dec_positive parse_dec parse_uint is_canonical_decimal all_digits
    dec_string digits bytes_eq
opens_database = tt

abbrev behind : Meta
behind = record { user_id = codes "ab12"; epoch = codes "42"; head_seq = 1 }

-- The database of `two_rows` with a head counter that is behind.
abbrev drifted : Database
drifted = record (database_of two_rows) { meta = some behind }

-- What opening it gives: the counter is repaired, and the epoch is the one drawn.
abbrev replayed_rows : Store
replayed_rows = record two_rows {
  tables = record two_rows.tables {
    meta = record { user_id = codes "ab12"; epoch = codes "77"; head_seq = 2 };
  };
  epoch = 77;
}

open_drifted : (open_store quiet drifted).1 ≡ ok replayed_rows
unfolding opens_database
open_drifted = refl

open_store-IsReopened_example : IsReopened quiet drifted behind replayed_rows
open_store-IsReopened_example =
    open_store-IsReopened quiet drifted behind replayed_rows (omega arith) refl refl
      two_rows-IsSound.numbered open_drifted

epoch_42 : parse_dec_positive (codes "42") ≡ ok 42
unfolding opens_database
epoch_42 = refl

open_interrupted : (open_store quiet (open_store (interrupted quiet) drifted).0).1 ≡ ok two_rows
unfolding opens_database
open_interrupted = refl

open_store_after_interruption_example :
    (dec_string two_rows.epoch ≡ behind.epoch) × (two_rows.tables.meta.head_seq ≢ behind.head_seq)
open_store_after_interruption_example =
    open_store_after_interruption quiet quiet drifted behind 42 two_rows (omega arith) refl refl
      two_rows-IsSound.numbered epoch_42 (omega arith) open_interrupted
