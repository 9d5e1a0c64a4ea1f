-- ===== src/Store/Push/Commit.antt =====
-- `Push` as a whole: what a committed push leaves, and that a failed one leaves nothing.
use claude_mem_lan_sync.Prelude.{
  ◌≡◌, refl, ap, sym, ◌∙◌, List, arith, length, Bytes, Result, ok, err, >>=-eq-ok,
}
use claude_mem_lan_sync.Proto.Errors.{Fault}
use claude_mem_lan_sync.Proto.Op.{Op, Ack}
use claude_mem_lan_sync.Store.Env.{Env, run, begin, read_head, write_head, tx_hook, commit}
use claude_mem_lan_sync.Store.Tables.{DeviceRow, Tables, Store}
use claude_mem_lan_sync.Store.Devices.{device_revoked, upsert_device}
use claude_mem_lan_sync.Store.Invariant.{IsSound}
use claude_mem_lan_sync.Store.Push.{
  Loop, PushResult, batch_seq, first_loop, refuse_revoked, push_all, push_tx, finish_push, push,
}
use claude_mem_lan_sync.Store.Push.Round.{LoopIsSound}
use claude_mem_lan_sync.Store.Push.Log.{Acked, Extends, push_all-IsPushed}

-- The tables that a push commits after its loop.
abbrev pub committed : Store → Loop → List DeviceRow → Tables
committed s l devices = record {
  ops = l.ops;
  meta = record s.tables.meta { head_seq = l.head };
  devices = devices;
}

module _ (env : Env) (s : Store) (ops : List Op) (id name : Bytes) where
  pub push_tx-eq-ok :
      {t : Tables} {acks : List Ack}
      → push_tx env s ops id name ≡ ok (t, acks)
      → (l : Loop) × (devices : List DeviceRow) × (push_all env 0 (first_loop s) ops ≡ ok (l, acks))
        × (t ≡ committed s l devices)
        × (upsert_device env id name s.tables.devices ≡ ok devices)
  unfolding push_tx
  push_tx-eq-ok h =
      let (b, p1, h1) = >>=-eq-ok (device_revoked env s id) _ h in
      let (_, p2, h2) = >>=-eq-ok (refuse_revoked b) _ h1 in
      let (_, p3, h3) = >>=-eq-ok (run env begin) _ h2 in
      let (_, p4, h4) = >>=-eq-ok (run env read_head) _ h3 in
      let ((l, acks), p5, h5) = >>=-eq-ok (push_all env 0 (first_loop s) ops) _ h4 in
      let (_, p6, h6) = >>=-eq-ok (run env write_head) _ h5 in
      let (devices, p7, h7) = >>=-eq-ok (upsert_device env id name s.tables.devices) _ h6 in
      let (_, p8, h8) = >>=-eq-ok (run env tx_hook) _ h7 in
      let (_, p9, h9) = >>=-eq-ok (run env commit) _ h8 in (l, devices, p5 ∙ cc, cc, p7)

-- What a client reads off a push that succeeds, and what has become of the log.
pub record IsAcknowledged (ops : List Op) (s s' : Store) (r : PushResult) : Type 0 where
  pub acked : Acked s'.tables.ops ops r.acks
  pub added : Extends (length ops) s.tables.ops s'.tables.ops
  pub head : r.head_seq ≡ length s'.tables.ops
  pub projected : r.projected_seq ≡ r.head_seq

-- What `push` makes of the transaction's result.
module _ (s : Store) where
  pub finish_push-eq-ok :
      (o : Result Fault (Tables × List Ack)) {r : PushResult}
      → (finish_push s o).1 ≡ ok r
      → (t : Tables) × (o ≡ ok (t, r.acks))
        × ((finish_push s o).0 ≡ record s { tables = t })
        × (r.head_seq ≡ t.meta.head_seq)
        × (r.projected_seq ≡ t.meta.head_seq)
  unfolding finish_push
  finish_push-eq-ok (err e) h = absurd (cc)
  finish_push-eq-ok (ok (t, acks)) h = (t, ground arith, refl, ground arith, ground arith)

  finish_push-eq-err :
      (o : Result Fault (Tables × List Ack)) {e : Fault}
      → (finish_push s o).1 ≡ err e
      → (finish_push s o).0 ≡ s
  unfolding finish_push
  finish_push-eq-err (err e) h = refl
  finish_push-eq-err (ok (t, acks)) h = absurd (cc)

  pub finish_push-keeps :
      (P : Store → Type 0) (o : Result Fault (Tables × List Ack))
      → P s
      → ((t : Tables) (acks : List Ack) → o ≡ ok (t, acks) → P (record s { tables = t }))
      → P (finish_push s o).0
  unfolding finish_push
  finish_push-keeps P (err e) h k = h
  finish_push-keeps P (ok (t, acks)) h k = k t acks refl

pub first_loop-IsSound : (s : Store) → IsSound s → LoopIsSound (first_loop s)
unfolding batch_seq
first_loop-IsSound s h = record {
  numbered = h.numbered;
  counted = h.counted;
  distinct = h.distinct;
  bounded = h.bounded;
  remembered = λ op seq b. absurd (cc);
}

module _ (env : Env) (s : Store) (ops : List Op) (id name : Bytes) where
  committed-IsSound :
      (l : Loop) (devices : List DeviceRow)
      → IsSound s
      → LoopIsSound l
      → IsSound (record s { tables = committed s l devices })
  committed-IsSound l devices h k = record {
    numbered = k.numbered;
    distinct = k.distinct;
    counted = k.counted;
    bounded = k.bounded;
    epoch_stored = h.epoch_stored;
    epoch_pos = h.epoch_pos;
    epoch_fits = h.epoch_fits;
  }

  -- Whatever is pushed and whatever call fails, the log stays gapless and holds no revision twice, and
  -- the head counter stays its length.
  pub push-IsSound : IsSound s → IsSound (push env s ops id name).0
  unfolding push
  push-IsSound h = finish_push-keeps s IsSound (push_tx env s ops id name) h λ t acks e.
      let (l, devices, p, q, _) = push_tx-eq-ok env s ops id name e in
      let pushed = push_all-IsPushed env 0 (first_loop s) ops l acks (first_loop-IsSound s h) p in
      rw q (committed-IsSound l devices h pushed.sound)

  -- A push that returns an error has changed nothing: it has taken no sequence number.
  pub push_failed :
      {e : Fault} → (push env s ops id name).1 ≡ err e → (push env s ops id name).0 ≡ s
  unfolding push
  push_failed h = finish_push-eq-err s (push_tx env s ops id name) h

  -- A push that succeeds returns one acknowledgement for each operation, in order; each echoes its
  -- operation and has the number of the row that holds the operation's revision. The old rows stay in
  -- place, with at most one new row for each operation behind them. The two heads that are returned
  -- are the length of the log.
  pub push_acked :
      {r : PushResult}
      → IsSound s
      → (push env s ops id name).1 ≡ ok r
      → IsAcknowledged ops s (push env s ops id name).0 r
  unfolding push
  push_acked {r} h e =
      let (t, p, q, hd, pr) = finish_push-eq-ok s (push_tx env s ops id name) e in
      let (l, devices, p2, q2, _) = push_tx-eq-ok env s ops id name p in
      let pushed =
        push_all-IsPushed env 0 (first_loop s) ops l r.acks (first_loop-IsSound s h) p2 in
      let same : (finish_push s (push_tx env s ops id name)).0
          ≡ record s { tables = committed s l devices } =
        cc in
      rw same (record {
        acked = pushed.acked;
        added = pushed.added;
        head = hd ∙ ap (λ (x : Tables). x.meta.head_seq) q2 ∙ pushed.sound.counted;
        projected = pr ∙ sym hd;
      })
