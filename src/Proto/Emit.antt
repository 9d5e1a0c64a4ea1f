-- ===== src/Proto/Emit.antt =====
-- internal/proto/emit.go: the bytes of acknowledgements and of pages.
use claude_mem_lan_sync.Prelude.{ℕ, List, [], ◌∷◌, ◌++◌, Option, none, some, Bytes, codes}
use claude_mem_lan_sync.Proto.Dec.{dec_string}
use claude_mem_lan_sync.Proto.Op.{Ack}

-- `s += t` for each text in turn.
abbrev pub written : List Bytes → Bytes
written [] = []
written (t ∷ ts) = t ++ written ts

-- `quote` is `strconv.Quote`.
module _ (quote : Bytes → Bytes) where
  abbrev pub emit_change_op : ℕ → ℕ → Bytes → Bytes → Bytes
  emit_change_op seq server_ts raw_literal digest = written (
      codes "{\"seq\":\""
      ∷ dec_string seq
      ∷ codes "\",\"server_ts\":\""
      ∷ dec_string server_ts
      ∷ codes "\",\"body\":"
      ∷ raw_literal
      ∷ codes ",\"operation_sha256\":"
      ∷ quote digest
      ∷ codes "}"
      ∷ [])

  abbrev pub local_id : Option ℕ → Bytes
  local_id none = codes "null"
  local_id (some d) = written (codes "\"" ∷ dec_string d ∷ codes "\"" ∷ [])

  abbrev pub emit_ack : Ack → Bytes
  emit_ack a = written (
      codes "{\"id\":"
      ∷ quote a.id
      ∷ codes ",\"kind\":"
      ∷ quote a.kind
      ∷ codes ",\"entity_rev\":\""
      ∷ dec_string a.entity_rev
      ∷ codes "\",\"operation_sha256\":"
      ∷ quote a.digest
      ∷ codes ",\"seq\":\""
      ∷ dec_string a.seq
      ∷ codes "\",\"origin_local_id\":"
      ∷ local_id a.origin_local_id
      ∷ codes "}"
      ∷ [])
