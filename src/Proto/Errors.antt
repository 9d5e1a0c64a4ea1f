-- ===== src/Proto/Errors.antt =====
-- internal/proto/errors.go: the fixed vocabulary of rejections.
use claude_mem_lan_sync.Prelude.{Bytes, codes}

pub data RejectReason : Type 0 where
  protocol_version wrapper_shape digest_mismatch body_shape unknown_kind entity_rev : RejectReason
  too_large bad_cursor user_mismatch unauthorized storage_full : RejectReason
  bad_request overloaded internal : RejectReason

-- The text of a reason, as a response carries it.
abbrev pub reason_text : RejectReason → Bytes
reason_text protocol_version = codes "protocol_version"
reason_text wrapper_shape = codes "wrapper_shape"
reason_text digest_mismatch = codes "digest_mismatch"
reason_text body_shape = codes "body_shape"
reason_text unknown_kind = codes "unknown_kind"
reason_text entity_rev = codes "entity_rev"
reason_text too_large = codes "too_large"
reason_text bad_cursor = codes "bad_cursor"
reason_text user_mismatch = codes "user_mismatch"
reason_text unauthorized = codes "unauthorized"
reason_text storage_full = codes "storage_full"
reason_text bad_request = codes "bad_request"
reason_text overloaded = codes "overloaded"
reason_text internal = codes "internal"

-- A Go error as the handlers tell it apart: a `RejectError`, or any other.
pub data Fault : Type 0 where
  reject : RejectReason → Fault
  other : Fault

abbrev pub reason_of : Fault → RejectReason
reason_of (reject r) = r
reason_of other = internal
