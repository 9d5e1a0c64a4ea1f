-- ===== src/Store/Push/Retry.antt =====
-- A push that is sent again: first write wins, and nothing is written twice.
use claude_mem_lan_sync.Prelude.{
  ℕ, suc, ◌≡◌, refl, ap, subst, sym, ◌∙◌, List, [], ◌∷◌, some, arith, length, Bytes, ok, >>=-eq-ok,
}
use claude_mem_lan_sync.Proto.Op.{Op, Ack}
use claude_mem_lan_sync.Proto.Dec.{dec_string}
use claude_mem_lan_sync.Store.Env.{Env}
use claude_mem_lan_sync.Store.Tables.{OpRow, Tables, Store, existing_seq}
use claude_mem_lan_sync.Store.Invariant.{IsSound}
use claude_mem_lan_sync.Store.Push.{
  Loop, PushResult, ack_of, first_loop, push_one, push_all, push_tx, push,
}
use claude_mem_lan_sync.Store.Push.Log.{Acked}
use claude_mem_lan_sync.Store.Push.Commit.{
  push-IsSound, push_acked, finish_push-eq-ok, push_tx-eq-ok,
}

-- The revisions of all these operations are rows of the table.
abbrev pub Stored : List OpRow → List Op → Type 0
Stored rows [] = Unit
Stored rows (op ∷ ops) =
    ((seq : ℕ) × (existing_seq rows op.id (dec_string op.entity_rev) ≡ some seq)) × Stored rows ops

Acked-Stored :
    (rows : List OpRow) (ops : List Op) (acks : List Ack) → Acked rows ops acks → Stored rows ops
Acked-Stored rows [] [] h = tt
Acked-Stored rows [] (a ∷ acks) h = absurd h
Acked-Stored rows (op ∷ ops) [] h = absurd h
Acked-Stored rows (op ∷ ops) (a ∷ acks) (e, p, h) = ((a.seq, p), Acked-Stored rows ops acks h)

-- The log determines the acknowledgements.
Acked-unique :
    (rows : List OpRow) (ops : List Op) (acks acks' : List Ack)
    → Acked rows ops acks
    → Acked rows ops acks'
    → acks ≡ acks'
Acked-unique rows [] [] [] h h' = refl
Acked-unique rows [] [] (b ∷ acks') h h' = absurd h'
Acked-unique rows [] (a ∷ acks) acks' h h' = absurd h
Acked-unique rows (op ∷ ops) [] acks' h h' = absurd h
Acked-unique rows (op ∷ ops) (a ∷ acks) [] h h' = absurd h'
Acked-unique rows (op ∷ ops) (a ∷ acks) (b ∷ acks') (e, p, h) (e', p', h') =
    let number : a.seq ≡ b.seq = cc in
    cc (Acked-unique rows ops acks acks' h h', e, e', ap (ack_of op) number)

push_one-stored :
    (env : Env) (i : ℕ) (l : Loop) (op : Op) (seq : ℕ) (l' : Loop) (a : Ack)
    → existing_seq l.ops op.id (dec_string op.entity_rev) ≡ some seq
    → push_one env i l op ≡ ok (l', a)
    → l'.ops ≡ l.ops
unfolding push_one
push_one-stored env i l op seq l' a stored h = ground arith

push_all-Stored :
    (env : Env) (i : ℕ) (l : Loop) (ops : List Op) (l' : Loop) (acks : List Ack)
    → Stored l.ops ops
    → push_all env i l ops ≡ ok (l', acks)
    → l'.ops ≡ l.ops
unfolding push_all
push_all-Stored env i l [] l' acks st h = cc
push_all-Stored env i l (op ∷ ops) l' acks ((seq, st), more) h =
    let ((l1, a), p, q) = >>=-eq-ok (push_one env i l op) _ h in
    let ((l2, rest), p2, q2) = >>=-eq-ok (push_all env (suc i) l1 ops) _ q in
    let same = push_one-stored env i l op seq l1 a st p in
    let still : Stored l1.ops ops = subst (λ rows. Stored rows ops) (sym same) more in
    let last : l' ≡ l2 = cc in
    ap (λ (x : Loop). x.ops) last ∙ push_all-Stored env (suc i) l1 ops l2 rest still p2 ∙ same

module _ (env : Env) (s : Store) (ops : List Op) (id name : Bytes) where
  -- A push of revisions that are all stored leaves the log as it is, whatever bodies it carries.
  pub push-Stored :
      {r : PushResult}
      → Stored s.tables.ops ops
      → (push env s ops id name).1 ≡ ok r
      → (push env s ops id name).0.tables.ops ≡ s.tables.ops
  unfolding push
  push-Stored st h =
      let (t, p, q, _, _) = finish_push-eq-ok s (push_tx env s ops id name) h in
      let (l, devices, p2, q2, _) = push_tx-eq-ok env s ops id name p in
      ap (λ (x : Store). x.tables.ops) q
      ∙ ap (λ (x : Tables). x.ops) q2
      ∙ push_all-Stored env 0 (first_loop s) ops l _ st p2

-- A client that did not see the answer to a push and sends it again, at any later time and from any
-- device, gets the same acknowledgements and the same head, and the log is as the first push left it.
pub push-push :
    (env env' : Env) (s : Store) (ops : List Op) (id name id' name' : Bytes) {r r' : PushResult}
    → IsSound s
    → (push env s ops id name).1 ≡ ok r
    → (push env' (push env s ops id name).0 ops id' name').1 ≡ ok r'
    → ((push env' (push env s ops id name).0 ops id' name').0.tables.ops
        ≡ (push env s ops id name).0.tables.ops)
      × (r'.acks ≡ r.acks)
      × (r'.head_seq ≡ r.head_seq)
push-push env env' s ops id name id' name' {r} {r'} h e e' =
    let s1 = (push env s ops id name).0 in
    let first = push_acked env s ops id name h e in
    let second = push_acked env' s1 ops id' name' (push-IsSound env s ops id name h) e' in
    let same = push-Stored env' s1 ops id' name' (Acked-Stored _ ops r.acks first.acked) e' in
    (
      same,
      Acked-unique _ ops r'.acks r.acks (rw same at second.acked) first.acked,
      second.head ∙ ap length same ∙ sym first.head,
    )
