-- ===== src/Store/Push.antt =====
-- internal/store/ops.go: `Push` appends operations to the log and acknowledges each of them.
pub mod Round
pub mod Log
pub mod Commit
pub mod Retry
pub mod Total
pub mod Tuples
pub mod Marks
use claude_mem_lan_sync.Prelude.{
  ℕ, suc, ◌+◌, Bool, true, false, List, [], ◌∷◌, ◌++◌, Option, none, some, if◌then◌else◌, ◌==◌,
  Bytes, bytes_eq, Result, ok, err, ◌>>=◌, ◌>>◌, pos,
}
use claude_mem_lan_sync.Proto.Dec.{dec_string, dec_from_int64, max_int64}
use claude_mem_lan_sync.Proto.Errors.{Fault, reject, other, unauthorized}
use claude_mem_lan_sync.Proto.Op.{Op, Ack}
use claude_mem_lan_sync.Store.Env.{
  Env, run, begin, read_head, find_revision, insert_op, read_digest, write_head, tx_hook, commit,
}
use claude_mem_lan_sync.Store.Tables.{OpRow, Tables, Store, existing_seq, stored_digest, insert_row}
use claude_mem_lan_sync.Store.Devices.{device_revoked, upsert_device}

pub record PushResult : Type 0 where
  pub acks : List Ack
  pub head_seq : ℕ
  pub projected_seq : ℕ

-- The variables of the loop: the rows that the transaction sees, the head counter, the map of the
-- entities seen in this batch, and the sequence numbers of the warnings logged.
pub record Loop : Type 0 where
  pub ops : List OpRow
  pub head : ℕ
  pub batch : List (Bytes × ℕ)
  pub warned : List ℕ

-- `key := op.ID + "\x00" + op.EntityRev.String()`
abbrev pub entity_key : Op → Bytes
entity_key op = op.id ++ 0 ∷ dec_string op.entity_rev

-- `batch[key]`
unfoldable pub batch_seq : List (Bytes × ℕ) → Bytes → Option ℕ
batch_seq [] key = none
batch_seq ((k, seq) ∷ batch) key = if bytes_eq k key then some seq else batch_seq batch key

abbrev pub row_of : Env → Op → ℕ → OpRow
row_of env op seq = record {
  seq = seq;
  entity_id = op.id;
  entity_rev = dec_string op.entity_rev;
  kind = op.kind;
  origin_device_id = op.origin_device_id;
  operation_sha256 = op.digest;
  body = op.raw_literal;
  server_ts = env.now;
}

-- The branches of `switch`: the revision is stored already, or it takes the next number.
unfoldable pub allocate : Env → ℕ → Loop → Op → Option ℕ → Result Fault (Loop × ℕ)
allocate env i l op (some stored) = ok (l, stored)
allocate env i l op none = if l.head == max_int64 then err other else do
  run env (insert_op i)
  rows ← insert_row l.ops (row_of env op (l.head + 1))
  ok (record l { ops = rows; head = l.head + 1 }, l.head + 1)

-- `if !seen { … batch[key] = seq }`
unfoldable pub assign_seq : Env → ℕ → Loop → Op → Option ℕ → Result Fault (Loop × ℕ)
unfolding allocate
assign_seq env i l op (some seq) = ok (l, seq)
assign_seq env i l op none = do
  run env (find_revision i)
  (l', seq) ← allocate env i l op (existing_seq l.ops op.id (dec_string op.entity_rev))
  ok (record l' { batch = (entity_key op, seq) ∷ l'.batch }, seq)

abbrev conflicts : Option Bytes → Bytes → Bool
conflicts none digest = false
conflicts (some stored) digest = if bytes_eq stored digest then false else true

-- `warnOnDigestConflict`: a different stored body is logged, and nothing else.
unfoldable pub warn_on_digest_conflict : Env → ℕ → Loop → Op → ℕ → Result Fault Loop
warn_on_digest_conflict env i l op seq = do
  run env (read_digest i)
  ok (
      if conflicts (stored_digest l.ops seq) op.digest
      then record l { warned = seq ∷ l.warned }
      else l)

abbrev pub ack_of : Op → ℕ → Ack
ack_of op seq = record {
  id = op.id;
  kind = op.kind;
  entity_rev = op.entity_rev;
  digest = op.digest;
  origin_local_id = op.origin_local_id;
  seq = seq;
}

-- A stored number that is not negative; `DecFromInt64` refuses any other.
abbrev pub stored_dec : ℕ → Result Fault ℕ
stored_dec v = elim (dec_from_int64 (pos v)) [ ok d ↦ ok d | err _ ↦ err other ]

-- One round of `for _, op := range ops`.
unfoldable pub push_one : Env → ℕ → Loop → Op → Result Fault (Loop × Ack)
unfolding assign_seq warn_on_digest_conflict
push_one env i l op = do
  (l1, seq) ← assign_seq env i l op (batch_seq l.batch (entity_key op))
  l2 ← warn_on_digest_conflict env i l1 op seq
  d ← stored_dec seq
  ok (l2, ack_of op d)

unfoldable pub push_all : Env → ℕ → Loop → List Op → Result Fault (Loop × List Ack)
push_all env i l [] = ok (l, [])
push_all env i l (op ∷ ops) = do
  (l', ack) ← push_one env i l op
  (l'', acks) ← push_all env (suc i) l' ops
  ok (l'', ack ∷ acks)

abbrev refuse_revoked : Bool → Result Fault (Unit {0})
refuse_revoked true = err (reject unauthorized)
refuse_revoked false = ok tt

abbrev pub first_loop : Store → Loop
first_loop s = record { ops = s.tables.ops; head = s.tables.meta.head_seq; batch = []; warned = [] }

-- The transaction: what it commits, and the acknowledgements.
unfoldable pub push_tx : Env → Store → List Op → Bytes → Bytes → Result Fault (Tables × List Ack)
push_tx env s ops device_id device_name = do
  revoked ← device_revoked env s device_id
  refuse_revoked revoked
  run env begin
  run env read_head
  (l, acks) ← push_all env 0 (first_loop s) ops
  run env write_head
  devices ← upsert_device env device_id device_name s.tables.devices
  run env tx_hook
  run env commit
  ok (
    record { ops = l.ops; meta = record s.tables.meta { head_seq = l.head }; devices = devices },
    acks,
  )

-- An error before the commit rolls the transaction back.
unfoldable pub finish_push :
    Store → Result Fault (Tables × List Ack) → Store × Result Fault PushResult
finish_push s (err e) = (s, err e)
finish_push s (ok (t, acks)) = (
  record s { tables = t },
  do
    head ← stored_dec t.meta.head_seq
    ok (record { acks = acks; head_seq = head; projected_seq = head }),
)

unfoldable pub push : Env → Store → List Op → Bytes → Bytes → Store × Result Fault PushResult
unfolding push_tx finish_push
push env s ops device_id device_name = finish_push s (push_tx env s ops device_id device_name)
