-- ===== src/Store/Push/Tuples.antt =====
-- The acknowledgements of one push, compared with one another.
use claude_mem_lan_sync.Prelude.{
  ℕ, zero, suc, ◌≤◌, ◌≡◌, refl, ap, sym, ◌∙◌, ◌↔◌, List, [], ◌∷◌, some, arith, get_elem?, Bytes, ok,
}
use claude_mem_lan_sync.Proto.Dec.{dec_string, max_dec}
use claude_mem_lan_sync.Proto.Dec.RoundTrip.{dec_string-injective}
use claude_mem_lan_sync.Proto.Op.{Op, Ack}
use claude_mem_lan_sync.Store.Env.{Env}
use claude_mem_lan_sync.Store.Tables.{OpRow, Store, existing_seq}
use claude_mem_lan_sync.Store.Tables.Rows.{existing_seq_bounds, existing_seq_injective}
use claude_mem_lan_sync.Store.Invariant.{IsSound}
use claude_mem_lan_sync.Store.Push.{PushResult, ack_of, push}
use claude_mem_lan_sync.Store.Push.Log.{Acked}
use claude_mem_lan_sync.Store.Push.Commit.{push-IsSound, push_acked}

Acked-get_elem? :
    (rows : List OpRow) (ops : List Op) (acks : List Ack) (i : ℕ) (op : Op)
    → Acked rows ops acks
    → get_elem? ops i ≡ some op
    → (a : Ack) × (get_elem? acks i ≡ some a)
      × (a ≡ ack_of op a.seq)
      × (existing_seq rows op.id (dec_string op.entity_rev) ≡ some a.seq)
Acked-get_elem? rows [] acks i op h e = absurd (cc)
Acked-get_elem? rows (x ∷ ops) [] i op h e = absurd h
Acked-get_elem? rows (x ∷ ops) (a ∷ acks) zero op (p, q, h) e =
    let same : x ≡ op = cc in (a, refl, rw (← same) p, rw (← same) q)
Acked-get_elem? rows (x ∷ ops) (a ∷ acks) (suc i) op (p, q, h) e =
    Acked-get_elem? rows ops acks i op h e

-- Two places of a push that succeeds: their acknowledgements have numbers from 1 to the head that is
-- returned, and have one number exactly if the operations are the same revision of the same entity.
pub push-share :
    (env : Env) (s : Store) (ops : List Op) (id name : Bytes) {r : PushResult} (i j : ℕ)
    (op op' : Op)
    → IsSound s
    → (push env s ops id name).1 ≡ ok r
    → get_elem? ops i ≡ some op
    → get_elem? ops j ≡ some op'
    → op.entity_rev ≤ max_dec
    → op'.entity_rev ≤ max_dec
    → (a a' : Ack) × (get_elem? r.acks i ≡ some a)
      × (get_elem? r.acks j ≡ some a')
      × (1 ≤ a.seq)
      × (a.seq ≤ r.head_seq)
      × ((a.seq ≡ a'.seq) ↔ ((op.id ≡ op'.id) × (op.entity_rev ≡ op'.entity_rev)))
push-share env s ops id name {r} i j op op' h e ei ej fits fits' =
    let s' = (push env s ops id name).0 in
    let sound = push-IsSound env s ops id name h in
    let acked = push_acked env s ops id name h e in
    let (a, p, echo, q) = Acked-get_elem? s'.tables.ops ops r.acks i op acked.acked ei in
    let (a', p', echo', q') = Acked-get_elem? s'.tables.ops ops r.acks j op' acked.acked ej in
    let (low, high) = existing_seq_bounds 1 s'.tables.ops op.id _ a.seq sound.numbered q in
    (
      a,
      a',
      p,
      p',
      low,
      omega (arith, acked.head),
      (
        λ same.
            let (ids, revs) =
              existing_seq_injective 1 s'.tables.ops op.id _ op'.id _ a.seq sound.numbered q
                (q' ∙ ap some (sym same)) in
            (ids, dec_string-injective op.entity_rev op'.entity_rev fits fits' revs),
        λ (ids, revs). cc (q, q', ids, ap dec_string revs),
      ),
    )
