-- ===== src/Store/Push/Log.antt =====
-- What a whole push does to the log, and what its acknowledgements say.
use claude_mem_lan_sync.Prelude.{
  ℕ, suc, ◌≤◌, ◌≡◌, ap, sym, ◌∙◌, List, [], ◌∷◌, ◌++◌, append-nil, append_assoc, some, arith,
  length, length-append, ok, >>=-eq-ok,
}
use claude_mem_lan_sync.Proto.Op.{Op, Ack}
use claude_mem_lan_sync.Proto.Dec.{dec_string}
use claude_mem_lan_sync.Store.Env.{Env}
use claude_mem_lan_sync.Store.Tables.{OpRow, existing_seq}
use claude_mem_lan_sync.Store.Tables.Rows.{existing_seq_stays}
use claude_mem_lan_sync.Store.Push.{Loop, ack_of, push_one, push_all}
use claude_mem_lan_sync.Store.Push.Round.{LoopIsSound, push_one-IsRound}

-- One acknowledgement for each operation, in order: it echoes the operation, and its number is that
-- of the row which holds the operation's revision.
abbrev pub Acked : List OpRow → List Op → List Ack → Type 0
Acked rows [] [] = Unit
Acked rows [] (a ∷ acks) = ⊥
Acked rows (op ∷ ops) [] = ⊥
Acked rows (op ∷ ops) (a ∷ acks) =
    (a ≡ ack_of op a.seq)
    × (existing_seq rows op.id (dec_string op.entity_rev) ≡ some a.seq)
    × Acked rows ops acks

-- The rows of `before`, with at most `n` rows behind them.
abbrev pub Extends : ℕ → List OpRow → List OpRow → Type 0
Extends n before after = (rows : List OpRow) × (after ≡ before ++ rows) × (length rows ≤ n)

pub record IsPushed (ops : List Op) (l l' : Loop) (acks : List Ack) : Type 0 where
  pub sound : LoopIsSound l'
  pub acked : Acked l'.ops ops acks
  pub added : Extends (length ops) l.ops l'.ops

pub push_all-IsPushed :
    (env : Env) (i : ℕ) (l : Loop) (ops : List Op) (l' : Loop) (acks : List Ack)
    → LoopIsSound l
    → push_all env i l ops ≡ ok (l', acks)
    → IsPushed ops l l' acks
unfolding push_all
push_all-IsPushed env i l [] l' acks s h =
    let same : l' ≡ l = cc in
    let none_left : acks ≡ [] = cc in
    rw (same, none_left)
      (record { sound = s; acked = tt; added = ([], sym (append-nil l.ops), omega arith) })
push_all-IsPushed env i l (op ∷ ops) l' acks s h =
    let ((l1, a), p, q) = >>=-eq-ok (push_one env i l op) _ h in
    let ((l2, rest), p2, q2) = >>=-eq-ok (push_all env (suc i) l1 ops) _ q in
    let r = push_one-IsRound env i l op s l1 a p in
    let ih = push_all-IsPushed env (suc i) l1 ops l2 rest r.sound p2 in
    let same : l' ≡ l2 = cc in
    let all_acks : acks ≡ a ∷ rest = cc in
    rw (same, all_acks)
      (record {
        sound = ih.sound;
        acked = (
          r.echoes,
          rw ih.added.1 (existing_seq_stays l1.ops ih.added.0 op.id _ r.stored),
          ih.acked,
        );
        added = (
          r.added.0 ++ ih.added.0,
          ih.added.1
              ∙ ap (λ xs. xs ++ ih.added.0) r.added.1
              ∙ append_assoc l.ops r.added.0 ih.added.0,
          rw length-append (omega (arith, r.added.2, ih.added.2)),
        );
      })
