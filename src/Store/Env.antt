-- ===== src/Store/Env.antt =====
-- What the store asks of the world: the clock, and which calls of the database fail.
use claude_mem_lan_sync.Prelude.{ℕ, Bool, Bytes, if◌then◌else◌, Result, ok, err}
use claude_mem_lan_sync.Proto.Errors.{Fault, other}

-- One constructor for each call that may return an error. A call inside the loop of `Push` is
-- named with the position of its operation.
pub data Call : Type 0 where
  check_revoked begin read_head : Call
  find_revision insert_op read_digest : ℕ → Call
  write_head upsert tx_hook commit : Call
  journal_mode migrate_tx read_meta random_id random_epoch insert_meta chmod : Call
  read_max update_head update_epoch : Call
  read_state read_page list_query revoke_update : Call

-- `random` is what `rand.Int` draws below 2^63, `fresh_id` the hex text of sixteen random bytes.
pub record Env : Type 0 where
  pub now : ℕ
  pub random : ℕ
  pub fresh_id : Bytes
  pub fails : Call → Bool

-- `if err != nil { return … }` behind a call.
abbrev pub run : Env → Call → Result Fault (Unit {0})
run env c = if env.fails c then err other else ok tt
