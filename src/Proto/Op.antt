-- ===== src/Proto/Op.antt =====
-- internal/proto/wrapper.go: the validated operation, its acknowledgement, and the limits.
use claude_mem_lan_sync.Prelude.{ℕ, ◌+◌, ◌*◌, Option, Bytes}

abbrev pub max_body_bytes : ℕ
max_body_bytes = 256_000

abbrev pub max_body_literal : ℕ
max_body_literal = 6 * max_body_bytes + 2

abbrev pub max_request_bytes : ℕ
max_request_bytes = 4_000_000

abbrev pub max_ops_per_push : ℕ
max_ops_per_push = 1_000

abbrev pub max_page_limit : ℕ
max_page_limit = 500

abbrev pub max_device_id_len : ℕ
max_device_id_len = 128

pub record Op : Type 0 where
  pub raw_literal : Bytes
  pub digest : Bytes
  pub id : Bytes
  pub kind : Bytes
  pub entity_rev : ℕ
  pub origin_device_id : Bytes
  pub origin_local_id : Option ℕ

pub record Ack : Type 0 where
  pub id : Bytes
  pub kind : Bytes
  pub entity_rev : ℕ
  pub digest : Bytes
  pub origin_local_id : Option ℕ
  pub seq : ℕ
