-- ===== src/Hub/Push/Answer.antt =====
-- What `handlePush` answers, and what it leaves alone.
use claude_mem_lan_sync.Prelude.{
  ℕ, ◌+◌, ◌≤◌, ◌≡◌, ◌⊎◌, inl, inr, refl, false, List, Bytes, Result, ok, err, Option, some, ℤ, pos,
  arith, length, Ensures, given, Blames, at_fault,
}
use claude_mem_lan_sync.Proto.Dec.{max_int64}
use claude_mem_lan_sync.Proto.Errors.{Fault, RejectReason, reason_of, unauthorized, internal}
use claude_mem_lan_sync.Proto.Op.{Op}
use claude_mem_lan_sync.Store.Env.{Env, Call}
use claude_mem_lan_sync.Store.Tables.{Store}
use claude_mem_lan_sync.Store.Invariant.{IsSound}
use claude_mem_lan_sync.Store.Devices.{device_revoked}
use claude_mem_lan_sync.Store.Push.{PushResult, push}
use claude_mem_lan_sync.Store.Push.Commit.{IsAcknowledged, push_acked, push_failed}
use claude_mem_lan_sync.Store.Push.Total.{push-total}
use claude_mem_lan_sync.Hub.Server.{Request, Response, Options, write_error, answer}
use claude_mem_lan_sync.Hub.Handlers.{lt_int, check_free_space}
use claude_mem_lan_sync.Hub.Push.Asked.{
  IsAsked, IsRefused, push_request-Blames, push_request-Ensures,
}
use claude_mem_lan_sync.Hub.Push.{
  Refusal, push_error, parse_ops, push_request, push_body, pushed, push_with, handle_push,
}

-- The two outcomes of a push: the log has the operations of the request, and the answer is their
-- acknowledgements, or the answer is one of four errors and the store is as it was.
pub data IsAnswered (quote digest_of : Bytes → Bytes) (decode : Bytes → Option (ℤ × List Bytes))
    (o : Options) (r : Request) (s : Store) (out : Store × Response) : Type 0 where
  committed :
      (ops : List Op) (res : PushResult)
      → IsAsked digest_of decode o r ops
      → IsAcknowledged ops s out.0 res
      → out.1 ≡ answer o 200 (push_body quote res)
      → IsAnswered quote digest_of decode o r s out
  turned_down :
      (status : ℕ) (reason : RejectReason)
      → (status ≡ 400) ⊎ (status ≡ 401) ⊎ (status ≡ 500) ⊎ (status ≡ 507)
      → out ≡ (s, write_error o status reason)
      → IsAnswered quote digest_of decode o r s out

push_error-status :
    (o : Options) (reason : RejectReason)
    → (status : ℕ) × (named : RejectReason) × (push_error o reason ≡ write_error o status named)
      × ((status ≡ 401) ⊎ (status ≡ 500))
push_error-status o unauthorized = (401, unauthorized, refl, inl refl)
push_error-status o _ = (500, internal, refl, inr refl)

pushed-status :
    (quote : Bytes → Bytes) (o : Options) (out : Store × Result Fault PushResult) (res : PushResult)
    → out.1 ≡ ok res
    → (pushed quote o out).1.status ≡ 200
pushed-status quote o (s, err e) res h = cc
pushed-status quote o (s, ok res') res h = refl

module _ (quote digest_of : Bytes → Bytes) (decode : Bytes → Option (ℤ × List Bytes)) (o : Options)
    (r : Request) (s : Store) (ops : List Op) where
  -- The store's answer `out`, with what is known of its two cases.
  pushed-IsAnswered :
      (out : Store × Result Fault PushResult)
      → IsAsked digest_of decode o r ops
      → ((e : Fault) → out.1 ≡ err e → out.0 ≡ s)
      → ((res : PushResult) → out.1 ≡ ok res → IsAcknowledged ops s out.0 res)
      → IsAnswered quote digest_of decode o r s (pushed quote o out)
  pushed-IsAnswered (s', err e) accepted failed acked =
      let (status, reason, same, one) = push_error-status o (reason_of e) in
      turned_down status reason (ground arith) (rw (same, failed e refl) refl)
  pushed-IsAnswered (s', ok res) accepted failed acked =
      committed ops res accepted (acked res refl) refl

module _ (quote digest_of : Bytes → Bytes) (decode : Bytes → Option (ℤ × List Bytes)) (env : Env)
    (o : Options) (free : Option (Result Fault ℤ)) (r : Request) (s : Store) where
  push_with-IsAnswered :
      (asked : Result Refusal (List Op))
      → IsSound s
      → Ensures (IsAsked digest_of decode o r) asked
      → Blames IsRefused asked
      → IsAnswered quote digest_of decode o r s (push_with quote env o r s asked)
  push_with-IsAnswered (err (status, reason)) h accepts refuses =
      turned_down status reason (ground (arith, at_fault (status, reason) refuses refl)) refl
  push_with-IsAnswered (ok ops) h accepts refuses =
      pushed-IsAnswered quote digest_of decode o r s ops (push env s ops r.device_id r.device_name)
        (given ops accepts refl)
        (λ e failed. push_failed env s ops r.device_id r.device_name failed)
        (λ res done. push_acked env s ops r.device_id r.device_name h done)

  -- On a sound store `handlePush` has two outcomes, whatever the request and whatever fails. Either the
  -- body is within the limit and is JSON for version 2 and for a number of operations within the limit,
  -- `ParseOp` accepts every one of these, the log has the operations that it returns for them, and the
  -- answer is 200 with an acknowledgement for each of them, in order; or the answer is an error of
  -- status 400, 401, 500 or 507 and the store is as it was.
  pub handle_push-IsAnswered :
      IsSound s
      → IsAnswered quote digest_of decode o r s (handle_push quote digest_of decode env o free r s)
  unfolding handle_push
  handle_push-IsAnswered h =
      push_with-IsAnswered (push_request digest_of decode o free r) h
        (push_request-Ensures digest_of decode o free r)
        (push_request-Blames digest_of decode o free r)

  -- If no call fails, there is space enough, the body is within the limit and is JSON for version 2 and
  -- for a number of operations within the limit, all of which `ParseOp` accepts, the device is not
  -- revoked, and the head and the number of operations add up to 2^63 - 1 at most, then the answer of
  -- `handlePush` is a 200.
  pub handle_push-accepts :
      (wrappers : List Bytes) (ops : List Op)
      → ((c : Call) → env.fails c ≡ false)
      → IsSound s
      → check_free_space o free ≡ ok tt
      → lt_int o.max_request_bytes (pos (length r.body)) ≡ false
      → decode r.body ≡ some (pos 2, wrappers)
      → lt_int o.max_ops_per_push (pos (length wrappers)) ≡ false
      → parse_ops digest_of wrappers ≡ ok ops
      → device_revoked env s r.device_id ≡ ok false
      → s.tables.meta.head_seq + length ops ≤ max_int64
      → (handle_push quote digest_of decode env o free r s).1.status ≡ 200
  unfolding handle_push push_request
  handle_push-accepts wrappers ops quiet h space short read few parsed active room =
      let (res, done) = push-total env quiet s ops r.device_id r.device_name h active room in
      rw (space, short, read, few, parsed)
        (pushed-status quote o (push env s ops r.device_id r.device_name) res done)
