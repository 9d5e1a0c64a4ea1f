-- ===== src/Store/Invariant.antt =====
-- The invariant of the hub's store.
use claude_mem_lan_sync.Prelude.{◌≤◌, ◌<◌, ◌≡◌, length}
use claude_mem_lan_sync.Proto.Dec.{dec_string, max_dec, max_int64}
use claude_mem_lan_sync.Store.Tables.{Store}
use claude_mem_lan_sync.Store.Tables.Rows.{Runs, Distinct}

-- The log is gapless from 1 and holds no revision twice, the head counter is its length, and the
-- stored epoch is the print of the epoch in memory, which is positive.
pub record IsSound (s : Store) : Type 0 where
  pub numbered : Runs 1 s.tables.ops
  pub distinct : Distinct s.tables.ops
  pub counted : s.tables.meta.head_seq ≡ length s.tables.ops
  pub bounded : s.tables.meta.head_seq ≤ max_int64
  pub epoch_stored : s.tables.meta.epoch ≡ dec_string s.epoch
  pub epoch_pos : 0 < s.epoch
  pub epoch_fits : s.epoch ≤ max_dec
