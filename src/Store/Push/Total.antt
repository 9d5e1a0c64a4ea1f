-- ===== src/Store/Push/Total.antt =====
-- `Push` succeeds unless a call fails, the device is revoked, or the sequence space is exhausted.
use claude_mem_lan_sync.Prelude.{
  ℕ, suc, ◌+◌, ◌≤◌, ◌<◌, ◌≡◌, refl, false, List, [], ◌∷◌, ◌++◌, Option, none, some, arith, length,
  length-append, Bytes, ok, if◌then◌else◌,
}
use claude_mem_lan_sync.Proto.Op.{Op, Ack}
use claude_mem_lan_sync.Proto.Dec.{dec_string, max_int64}
use claude_mem_lan_sync.Store.Env.{
  Call, Env, find_revision, insert_op, read_digest, begin, read_head, write_head, tx_hook, commit,
}
use claude_mem_lan_sync.Store.Tables.{Store, existing_seq, stored_digest}
use claude_mem_lan_sync.Store.Tables.Rows.{insert_row-next}
use claude_mem_lan_sync.Store.Devices.{device_revoked}
use claude_mem_lan_sync.Store.Devices.Access.{upsert_device-total}
use claude_mem_lan_sync.Store.Invariant.{IsSound}
use claude_mem_lan_sync.Store.Push.{
  Loop, PushResult, row_of, batch_seq, entity_key, ack_of, allocate, conflicts, assign_seq,
  warn_on_digest_conflict, first_loop, push_one, push_all, push_tx, finish_push, push,
}
use claude_mem_lan_sync.Store.Push.Round.{LoopIsSound, push_one-IsRound}
use claude_mem_lan_sync.Store.Push.Commit.{first_loop-IsSound}

module _ (env : Env) (quiet : (c : Call) → env.fails c ≡ false) where
  allocate-total :
      (i : ℕ) (l : Loop) (op : Op) (o : Option ℕ)
      → LoopIsSound l
      → existing_seq l.ops op.id (dec_string op.entity_rev) ≡ o
      → l.head < max_int64
      → (p : Loop × ℕ) × (allocate env i l op o ≡ ok p)
  unfolding allocate
  allocate-total i l op (some seq) s e h = ((l, seq), refl)
  allocate-total i l op none s e h = (
    (record l { ops = l.ops ++ row_of env op (l.head + 1) ∷ []; head = l.head + 1 }, l.head + 1),
    ground (
      arith,
      quiet (insert_op i),
      insert_row-next l.ops (row_of env op (l.head + 1)) s.numbered (omega (arith, s.counted)) e,
    ),
  )

  assign_seq-total :
      (i : ℕ) (l : Loop) (op : Op) (o : Option ℕ)
      → LoopIsSound l
      → l.head < max_int64
      → (p : Loop × ℕ) × (assign_seq env i l op o ≡ ok p)
  unfolding assign_seq
  assign_seq-total i l op (some seq) s h = ((l, seq), refl)
  assign_seq-total i l op none s h =
      let ((l', seq), e) = allocate-total i l op _ s refl h in
      (
        (record l' { batch = (entity_key op, seq) ∷ l'.batch }, seq),
        rw (quiet (find_revision i), e),
      )

  push_one-total :
      (i : ℕ) (l : Loop) (op : Op)
      → LoopIsSound l
      → l.head < max_int64
      → (p : Loop × Ack) × (push_one env i l op ≡ ok p)
  unfolding push_one warn_on_digest_conflict
  push_one-total i l op s h =
      let ((l1, seq), e) = assign_seq-total i l op (batch_seq l.batch (entity_key op)) s h in
      (
        (
          if conflicts (stored_digest l1.ops seq) op.digest
              then record l1 { warned = seq ∷ l1.warned }
              else l1,
          ack_of op seq,
        ),
        rw (e, quiet (read_digest i)),
      )

  push_all-total :
      (i : ℕ) (l : Loop) (ops : List Op)
      → LoopIsSound l
      → l.head + length ops ≤ max_int64
      → (p : Loop × List Ack) × (push_all env i l ops ≡ ok p)
  unfolding push_all
  push_all-total i l [] s h = ((l, []), refl)
  push_all-total i l (op ∷ ops) s h =
      let ((l1, a), e) = push_one-total i l op s (omega arith) in
      let r = push_one-IsRound env i l op s l1 a e in
      let size : length l1.ops ≡ length l.ops + length r.added.0 =
        rw r.added.1 (length-append l.ops r.added.0) in
      let room : l1.head + length ops ≤ max_int64 =
        omega (arith, s.counted, r.sound.counted, r.added.2) in
      let ((l2, acks), e2) = push_all-total (suc i) l1 ops r.sound room in
      ((l2, a ∷ acks), rw (e, e2))

  -- If no call fails, the device is not revoked and the numbers up to 2^63 - 1 suffice, a push to a
  -- sound store succeeds: in particular, no INSERT is refused by the primary key or the unique index.
  pub push-total :
      (s : Store) (ops : List Op) (id name : Bytes)
      → IsSound s
      → device_revoked env s id ≡ ok false
      → s.tables.meta.head_seq + length ops ≤ max_int64
      → (r : PushResult) × ((push env s ops id name).1 ≡ ok r)
  unfolding push push_tx finish_push
  push-total s ops id name h active room =
      let ((l, acks), e) = push_all-total 0 (first_loop s) ops (first_loop-IsSound s h) room in
      let (ds, e2) = upsert_device-total env id name s.tables.devices quiet in
      (
        record { acks = acks; head_seq = l.head; projected_seq = l.head },
        rw (
          active,
          quiet begin,
          quiet read_head,
          e,
          quiet write_head,
          e2,
          quiet tx_hook,
          quiet commit,
        ),
      )
