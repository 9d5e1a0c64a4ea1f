-- ===== src/Store/Changes.antt =====
-- internal/store/changes.go: `Changes` returns a page of the log behind a cursor.
pub mod Page
pub mod Collect
pub mod Cursor
pub mod Pull
use claude_mem_lan_sync.Prelude.{
  ℕ, suc, ◌+◌, Bool, true, false, ◌&&◌, List, [], ◌∷◌, some, if◌then◌else◌, ltb, leb, ◌==◌, ◌||◌,
  Bytes, Result, ok, err, ◌>>=◌, ◌>>◌, ℤ, pos, negsuc, length, take,
}
use claude_mem_lan_sync.Proto.Dec.{parse_dec_positive, dec_int64}
use claude_mem_lan_sync.Proto.Errors.{Fault, reject, other, bad_cursor}
use claude_mem_lan_sync.Proto.Op.{max_page_limit}
use claude_mem_lan_sync.Store.Env.{Env, run, begin, read_state, read_page}
use claude_mem_lan_sync.Store.Tables.{OpRow, Store}
use claude_mem_lan_sync.Store.Push.{stored_dec}

pub record ChangeOp : Type 0 where
  pub seq : ℕ
  pub server_ts : ℕ
  pub raw_literal : Bytes
  pub digest : Bytes

pub record ChangesResult : Type 0 where
  pub ops : List ChangeOp
  pub more : Bool
  pub head_seq : ℕ
  pub epoch : ℕ

-- `8 << 20`
abbrev pub default_max_page_bytes : ℕ
default_max_page_bytes = 8388608

-- `if limit <= 0 || limit > proto.MaxPageLimit`
abbrev pub page_limit : ℤ → ℕ
page_limit (negsuc n) = max_page_limit
page_limit (pos n) = if n == 0 || ltb max_page_limit n then max_page_limit else n

-- `if maxBytes <= 0`
abbrev pub page_bytes : ℤ → ℕ
page_bytes (negsuc n) = default_max_page_bytes
page_bytes (pos n) = if n == 0 then default_max_page_bytes else n

-- `WHERE seq > ?`
unfoldable pub rows_after : ℕ → List OpRow → List OpRow
rows_after since [] = []
rows_after since (r ∷ rows) =
    let rest = rows_after since rows in if ltb since r.seq then r ∷ rest else rest

unfoldable pub insert_by_seq : OpRow → List OpRow → List OpRow
insert_by_seq r [] = r ∷ []
insert_by_seq r (x ∷ rows) = if leb r.seq x.seq then r ∷ x ∷ rows else x ∷ insert_by_seq r rows

-- `ORDER BY seq`
unfoldable pub order_by_seq : List OpRow → List OpRow
unfolding insert_by_seq
order_by_seq [] = []
order_by_seq (r ∷ rows) = insert_by_seq r (order_by_seq rows)

abbrev pub change_of : OpRow → ChangeOp
change_of r = record {
  seq = r.seq;
  server_ts = r.server_ts;
  raw_literal = r.body;
  digest = r.operation_sha256;
}

-- `for rows.Next()`: `count` operations of `bytes` bytes are on the page already.
unfoldable pub collect : ℕ → ℕ → ℕ → ℕ → List OpRow → Result Fault (List ChangeOp × Bool)
collect limit max_bytes count bytes [] = ok ([], false)
collect limit max_bytes count bytes (r ∷ rows) =
    let next = (do
      seq ← stored_dec r.seq
      ts ← stored_dec r.server_ts
      (ops, more) ← collect limit max_bytes (suc count) (bytes + length r.body) rows
      ok (record (change_of r) { seq = seq; server_ts = ts } ∷ ops, more)) in
    if count == limit
    then ok ([], true)
    else if ltb 0 count && ltb max_bytes (bytes + length r.body)
    then ok ([], true)
    else next

unfoldable pub cursor_of : ℕ → Result Fault (Unit {0})
cursor_of since = elim (dec_int64 since) [ ok _ ↦ ok tt | err _ ↦ err (reject bad_cursor) ]

unfoldable pub epoch_of : Bytes → Result Fault ℕ
epoch_of s = elim (parse_dec_positive s) [ ok e ↦ ok e | err _ ↦ err other ]

unfoldable pub changes : Env → Store → ℕ → ℤ → ℤ → Result Fault ChangesResult
unfolding rows_after order_by_seq collect
changes env s since limit max_bytes = do
  cursor_of since
  run env begin
  run env read_state
  epoch ← epoch_of s.tables.meta.epoch
  run env read_page
  let n = page_limit limit
  let rows = take (suc n) (order_by_seq (rows_after since s.tables.ops))
  head ← stored_dec s.tables.meta.head_seq
  (ops, more) ← collect n (page_bytes max_bytes) 0 0 rows
  ok (record { ops = ops; more = more; head_seq = head; epoch = epoch })
