-- ===== src/Store/Push/Round.antt =====
-- One round of the loop of `Push`: what it keeps, and what its acknowledgement says.
use claude_mem_lan_sync.Prelude.{
  ℕ, ◌+◌, ◌≤◌, ◌<◌, ◌≡◌, refl, ap, sym, ◌∙◌, Bool, true, false, List, [], ◌∷◌, ◌++◌, append-nil,
  Option, none, some, arith, length, length-append, Bytes, bytes_eq, bytes_eq_iff, ok,
  if◌then◌else◌, Bool-cases, inl, inr, >>=-eq-ok,
}
use claude_mem_lan_sync.Proto.Op.{Op, Ack}
use claude_mem_lan_sync.Proto.Dec.{dec_string, max_int64, all_digits}
use claude_mem_lan_sync.Proto.Dec.RoundTrip.{all_digits-dec_string, all_digits-zero}
use claude_mem_lan_sync.Store.Env.{Env, find_revision, read_digest}
use claude_mem_lan_sync.Store.Tables.{OpRow, existing_seq, stored_digest}
use claude_mem_lan_sync.Store.Tables.Rows.{
  Runs, Distinct, Runs-append, Distinct-append, existing_seq_stays, existing_seq_last,
  insert_row-next,
}
use claude_mem_lan_sync.Store.Push.{
  Loop, entity_key, batch_seq, row_of, allocate, assign_seq, warn_on_digest_conflict, ack_of,
  push_one, conflicts,
}

tail_eq : {x y : ℕ} {xs ys : Bytes} → ◌≡◌ {A = Bytes} (x ∷ xs) (y ∷ ys) → xs ≡ ys
tail_eq e = cc

-- A revision has no zero byte, so the key of an operation says where its id ends.
key_parts :
    (id id' rev rev' : Bytes)
    → all_digits rev ≡ true
    → all_digits rev' ≡ true
    → id ++ 0 ∷ rev ≡ id' ++ 0 ∷ rev'
    → (id ≡ id') × (rev ≡ rev')
key_parts [] [] rev rev' h h' e = (refl, cc)
key_parts [] (x ∷ id') rev rev' h h' e =
    absurd (cc (h, all_digits-zero id' rev', ap all_digits (tail_eq e)))
key_parts (x ∷ id) [] rev rev' h h' e =
    absurd (cc (h', all_digits-zero id rev, ap all_digits (tail_eq e)))
key_parts (x ∷ id) (y ∷ id') rev rev' h h' e =
    let (p, q) = key_parts id id' rev rev' h h' (tail_eq e) in (cc, q)

pub entity_key-injective :
    (op op' : Op)
    → entity_key op ≡ entity_key op'
    → (op.id ≡ op'.id) × (dec_string op.entity_rev ≡ dec_string op'.entity_rev)
entity_key-injective op op' =
    key_parts op.id op'.id _ _ (all_digits-dec_string op.entity_rev)
      (all_digits-dec_string op'.entity_rev)

pub record LoopIsSound (l : Loop) : Type 0 where
  pub numbered : Runs 1 l.ops
  pub counted : l.head ≡ length l.ops
  pub distinct : Distinct l.ops
  pub bounded : l.head ≤ max_int64
  pub remembered :
      (op : Op) (seq : ℕ)
      → batch_seq l.batch (entity_key op) ≡ some seq
      → existing_seq l.ops op.id (dec_string op.entity_rev) ≡ some seq

-- What one round leaves.
pub record IsRound (op : Op) (l l' : Loop) (a : Ack) : Type 0 where
  pub sound : LoopIsSound l'
  pub stored : existing_seq l'.ops op.id (dec_string op.entity_rev) ≡ some a.seq
  pub echoes : a ≡ ack_of op a.seq
  pub added : (rows : List OpRow) × (l'.ops ≡ l.ops ++ rows) × (length rows ≤ 1)

warning_keeps :
    (b : Bool) (seq : ℕ) (l : Loop)
    → LoopIsSound l
    → LoopIsSound (if b then record l { warned = seq ∷ l.warned } else l)
      × ((if b then record l { warned = seq ∷ l.warned } else l).ops ≡ l.ops)
warning_keeps true seq l s = (
  record {
    numbered = s.numbered;
    counted = s.counted;
    distinct = s.distinct;
    bounded = s.bounded;
    remembered = s.remembered;
  },
  refl,
)
warning_keeps false seq l s = (s, refl)

module _ (env : Env) (i : ℕ) (l : Loop) (op : Op) (s : LoopIsSound l) where
  record IsAssigned (l' : Loop) (seq : ℕ) : Type 0 where
    numbered : Runs 1 l'.ops
    counted : l'.head ≡ length l'.ops
    distinct : Distinct l'.ops
    bounded : l'.head ≤ max_int64
    kept : l'.batch ≡ l.batch
    remembered :
        (op' : Op) (seq' : ℕ)
        → batch_seq l.batch (entity_key op') ≡ some seq'
        → existing_seq l'.ops op'.id (dec_string op'.entity_rev) ≡ some seq'
    stored : existing_seq l'.ops op.id (dec_string op.entity_rev) ≡ some seq
    added : (rows : List OpRow) × (l'.ops ≡ l.ops ++ rows) × (length rows ≤ 1)

  allocate_new :
      (l' : Loop) (seq : ℕ)
      → existing_seq l.ops op.id (dec_string op.entity_rev) ≡ none
      → allocate env i l op none ≡ ok (l', seq)
      → (l' ≡ record l { ops = l.ops ++ row_of env op (l.head + 1) ∷ []; head = l.head + 1 })
        × (seq ≡ l.head + 1)
        × (l.head < max_int64)
  unfolding allocate
  allocate_new l' seq new h = ground (
    arith,
    s.counted,
    s.bounded,
    insert_row-next l.ops (row_of env op (l.head + 1)) s.numbered (omega (arith, s.counted)) new,
  )

  -- A new revision takes the next number.
  allocated_new :
      (l' : Loop) (seq : ℕ)
      → existing_seq l.ops op.id (dec_string op.entity_rev) ≡ none
      → allocate env i l op none ≡ ok (l', seq)
      → IsAssigned l' seq
  allocated_new l' seq new h =
      let (e, e', room) = allocate_new l' seq new h in
      let r = row_of env op (l.head + 1) in
      rw (e, e')
        (record {
          numbered = Runs-append 1 l.ops r s.numbered (omega (arith, s.counted));
          counted = rw (length-append l.ops (r ∷ [])) (omega (arith, s.counted));
          distinct = Distinct-append l.ops r s.distinct new;
          bounded = omega arith;
          kept = refl;
          remembered = λ op' seq' b. existing_seq_stays l.ops _ op'.id _ (s.remembered op' seq' b);
          stored = existing_seq_last l.ops r new;
          added = (r ∷ [], refl, omega arith);
        })

  -- The number of an operation that the batch has not seen, whether its revision is stored or new.
  allocated :
      (o : Option ℕ) (l' : Loop) (seq : ℕ)
      → existing_seq l.ops op.id (dec_string op.entity_rev) ≡ o
      → allocate env i l op o ≡ ok (l', seq)
      → IsAssigned l' seq
  allocated none l' seq e h = allocated_new l' seq e h
  allocated (some known) l' seq e h =
      let same : l' ≡ l = unfold allocate in ground arith in
      let number : seq ≡ known = unfold allocate in ground arith in
      rw (same, number)
        (record {
          numbered = s.numbered;
          counted = s.counted;
          distinct = s.distinct;
          bounded = s.bounded;
          kept = refl;
          remembered = s.remembered;
          stored = e;
          added = ([], sym (append-nil l.ops), omega arith);
        })

  -- What the batch remembers when the number of this operation is added to it.
  remembers :
      (l' : Loop) (seq : ℕ)
      → IsAssigned l' seq
      → (op' : Op) (seq' : ℕ)
      → batch_seq ((entity_key op, seq) ∷ l'.batch) (entity_key op') ≡ some seq'
      → existing_seq l'.ops op'.id (dec_string op'.entity_rev) ≡ some seq'
  unfolding batch_seq
  remembers l' seq a op' seq' h = elim (Bool-cases (bytes_eq (entity_key op) (entity_key op'))) [
    | inl same ↦
        let (p, q) = entity_key-injective op op' ((bytes_eq_iff _ _).0 same) in
        let found : seq ≡ seq' = ground arith in cc (a.stored, found, p, q)
    | inr differ ↦ a.remembered op' seq' (rw (← a.kept) (ground arith))
  ]

  -- The assignment, seen or not.
  record IsNumbered (l' : Loop) (seq : ℕ) : Type 0 where
    sound : LoopIsSound l'
    stored : existing_seq l'.ops op.id (dec_string op.entity_rev) ≡ some seq
    added : (rows : List OpRow) × (l'.ops ≡ l.ops ++ rows) × (length rows ≤ 1)

  remember_added :
      (la : Loop) (sq : ℕ)
      → IsAssigned la sq
      → IsNumbered (record la { batch = (entity_key op, sq) ∷ la.batch }) sq
  remember_added la sq a = record {
    sound = record {
      numbered = a.numbered;
      counted = a.counted;
      distinct = a.distinct;
      bounded = a.bounded;
      remembered = remembers la sq a;
    };
    stored = a.stored;
    added = a.added;
  }

  IsNumbered-unseen :
      (l' : Loop) (seq : ℕ) → assign_seq env i l op none ≡ ok (l', seq) → IsNumbered l' seq
  unfolding assign_seq
  IsNumbered-unseen l' seq h = elim (Bool-cases (env.fails (find_revision i))) [
    | inl failed ↦ absurd (cc (rw failed at h))
    | inr went ↦
        let ((la, sq), p, q) =
          >>=-eq-ok (allocate env i l op (existing_seq l.ops op.id (dec_string op.entity_rev))) _
            (rw went at h) in
        let same : l' ≡ record la { batch = (entity_key op, sq) ∷ la.batch } = cc in
        let number : seq ≡ sq = cc in
        rw (same, number) (remember_added la sq (allocated _ la sq refl p))
  ]

  assigned :
      (o : Option ℕ) (l' : Loop) (seq : ℕ)
      → batch_seq l.batch (entity_key op) ≡ o
      → assign_seq env i l op o ≡ ok (l', seq)
      → IsNumbered l' seq
  assigned none l' seq b h = IsNumbered-unseen l' seq h
  assigned (some known) l' seq b h =
      let same : l' ≡ l = unfold assign_seq in ground arith in
      let number : seq ≡ known = unfold assign_seq in ground arith in
      rw (same, number)
        (record {
          sound = s;
          stored = s.remembered op known b;
          added = ([], sym (append-nil l.ops), omega arith);
        })

  warned :
      (seq : ℕ) (l1 l2 : Loop)
      → warn_on_digest_conflict env i l1 op seq ≡ ok l2
      → LoopIsSound l1
      → LoopIsSound l2 × (l2.ops ≡ l1.ops)
  unfolding warn_on_digest_conflict
  warned seq l1 l2 h s1 = elim (Bool-cases (env.fails (read_digest i))) [
    | inl failed ↦ absurd (cc (rw failed at h))
    | inr went ↦
        let b = conflicts (stored_digest l1.ops seq) op.digest in
        let same : l2 ≡ (if b then record l1 { warned = seq ∷ l1.warned } else l1) = ground arith in
        rw same (warning_keeps b seq l1 s1)
  ]

  -- A round that succeeds keeps the loop sound, stores the revision, and acknowledges it by its number.
  pub push_one-IsRound :
      (l' : Loop) (a : Ack) → push_one env i l op ≡ ok (l', a) → IsRound op l l' a
  unfolding push_one
  push_one-IsRound l' a h =
      let ((l1, seq), p, q) =
        >>=-eq-ok (assign_seq env i l op (batch_seq l.batch (entity_key op))) _ h in
      let (l2, p2, q2) = >>=-eq-ok (warn_on_digest_conflict env i l1 op seq) _ q in
      let n = assigned _ l1 seq refl p in
      let (sound2, rows) = warned seq l1 l2 p2 n.sound in
      let same : l' ≡ l2 = cc in
      let ack : a ≡ ack_of op seq = cc in
      rw (same, ack)
        (record {
          sound = sound2;
          stored = rw rows n.stored;
          echoes = refl;
          added = (n.added.0, rows ∙ n.added.1, n.added.2);
        })
