-- ===== src/Hub/Push.antt =====
-- `handlePush` of internal/hub/handlers.go: the operations of a request go to the log.
pub mod Asked
pub mod Answer
use claude_mem_lan_sync.Prelude.{
  ℕ, Bool, true, false, not, List, [], ◌∷◌, ◌++◌, if◌then◌else◌, ◌==◌, Bytes, codes, Result, ok,
  err, ◌>>=◌, ◌>>◌, Option, none, some, ℤ, pos, negsuc, length,
}
use claude_mem_lan_sync.Proto.Dec.{dec_string}
use claude_mem_lan_sync.Proto.Emit.{written, emit_ack}
use claude_mem_lan_sync.Proto.Errors.{
  Fault, RejectReason, reason_of, bad_request, internal, unauthorized, storage_full, too_large,
  protocol_version,
}
use claude_mem_lan_sync.Proto.Op.{Op, Ack}
use claude_mem_lan_sync.Proto.Parse.{parse_op}
use claude_mem_lan_sync.Store.Env.{Env}
use claude_mem_lan_sync.Store.Tables.{Store}
use claude_mem_lan_sync.Store.Push.{PushResult, push}
use claude_mem_lan_sync.Hub.Server.{Request, Response, Options, write_error, answer}
use claude_mem_lan_sync.Hub.Handlers.{lt_int, check_free_space}

-- The status and the reason of an error response.
abbrev pub Refusal : Type 0
Refusal = ℕ × RejectReason

abbrev pub refuse_when : Bool → RejectReason → Result Refusal (Unit {0})
refuse_when true reason = err (400, reason)
refuse_when false reason = ok tt

abbrev pub or_full : Result Fault (Unit {0}) → Result Refusal (Unit {0})
or_full (ok u) = ok u
or_full (err e) = err (507, storage_full)

abbrev pub or_bad_request : {A : Type 0} → Option A → Result Refusal A
or_bad_request none = err (400, bad_request)
or_bad_request (some a) = ok a

abbrev pub or_rejected : {A : Type 0} → Result Fault A → Result Refusal A
or_rejected (ok a) = ok a
or_rejected (err e) = err (400, reason_of e)

abbrev pub is_version_2 : ℤ → Bool
is_version_2 (pos n) = n == 2
is_version_2 (negsuc n) = false

-- `store.Push` failed.
abbrev pub push_error : Options → RejectReason → Response
push_error o unauthorized = write_error o 401 unauthorized
push_error o _ = write_error o 500 internal

-- The loop over `req.Ops`.
unfoldable pub parse_ops : (Bytes → Bytes) → List Bytes → Result Fault (List Op)
parse_ops digest_of [] = ok []
parse_ops digest_of (wrapper ∷ wrappers) = do
  op ← parse_op digest_of wrapper
  ops ← parse_ops digest_of wrappers
  ok (op ∷ ops)

-- `digest_of` is `Digest`, and `decode` finds the version and the operations in a JSON body, or none for
-- an error.
module _ (digest_of : Bytes → Bytes) (decode : Bytes → Option (ℤ × List Bytes)) where
  -- What `handlePush` checks before it calls the store.
  unfoldable pub push_request :
      Options → Option (Result Fault ℤ) → Request → Result Refusal (List Op)
  push_request o free r = do
    or_full (check_free_space o free)
    refuse_when (lt_int o.max_request_bytes (pos (length r.body))) too_large
    (version, wrappers) ← or_bad_request (decode r.body)
    refuse_when (not (is_version_2 version)) protocol_version
    refuse_when (lt_int o.max_ops_per_push (pos (length wrappers))) too_large
    or_rejected (parse_ops digest_of wrappers)

-- `quote` is `strconv.Quote`.
module _ (quote : Bytes → Bytes) where
  unfoldable pub emit_acks : List Ack → Bytes
  emit_acks [] = []
  emit_acks (a ∷ []) = emit_ack quote a
  emit_acks (a ∷ a' ∷ acks) = emit_ack quote a ++ b',' ∷ emit_acks (a' ∷ acks)

  abbrev pub push_body : PushResult → Bytes
  push_body res = written (
      codes "{\"acked\":["
      ∷ emit_acks res.acks
      ∷ codes "],\"head_seq\":\""
      ∷ dec_string res.head_seq
      ∷ codes "\",\"projected_seq\":\""
      ∷ dec_string res.projected_seq
      ∷ codes "\"}"
      ∷ [])

  abbrev pub pushed : Options → Store × Result Fault PushResult → Store × Response
  pushed o (s, err e) = (s, push_error o (reason_of e))
  pushed o (s, ok res) = (s, answer o 200 (push_body res))

  abbrev pub push_with :
      Env → Options → Request → Store → Result Refusal (List Op) → Store × Response
  push_with env o r s (err (status, reason)) = (s, write_error o status reason)
  push_with env o r s (ok ops) = pushed o (push env s ops r.device_id r.device_name)

-- `handlePush`
unfoldable pub handle_push :
    (quote digest_of : Bytes → Bytes)
    → (Bytes → Option (ℤ × List Bytes))
    → Env
    → Options
    → Option (Result Fault ℤ)
    → Request
    → Store
    → Store × Response
handle_push quote digest_of decode env o free r s =
    push_with quote env o r s (push_request digest_of decode o free r)
