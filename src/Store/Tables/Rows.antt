-- ===== src/Store/Tables/Rows.antt =====
-- Numbered tables: the rows hold the sequence numbers from 1 on with no gap, and no revision twice.
use claude_mem_lan_sync.Prelude.{
  ℕ, suc, ◌+◌, ◌≤◌, ◌<◌, ◌≡◌, refl, false, List, [], ◌∷◌, ◌++◌, none, some, arith, length, Bytes,
  bytes_eq_iff, ok, Bool-cases, inl, inr,
}
use claude_mem_lan_sync.Store.Tables.{OpRow, is_revision, existing_seq, stored_digest, insert_row}

-- The rows are numbered from `n` on, one by one.
abbrev pub Runs : ℕ → List OpRow → Type 0
Runs n [] = Unit
Runs n (r ∷ rows) = (r.seq ≡ n) × Runs (suc n) rows

-- No two rows hold the same revision of one entity.
abbrev pub Distinct : List OpRow → Type 0
Distinct [] = Unit
Distinct (r ∷ rows) = (existing_seq rows r.entity_id r.entity_rev ≡ none) × Distinct rows

pub Runs-append :
    (n : ℕ) (xs : List OpRow) (r : OpRow)
    → Runs n xs
    → r.seq ≡ n + length xs
    → Runs n (xs ++ r ∷ [])
Runs-append n [] r h e = (omega arith, tt)
Runs-append n (x ∷ xs) r h e = (h.0, Runs-append (suc n) xs r h.1 (omega arith))

-- A lookup is answered by the first rows that hold the revision.
pub existing_seq-append :
    (xs ys : List OpRow) (id rev : Bytes)
    → existing_seq (xs ++ ys) id rev
      ≡ elim (existing_seq xs id rev) [ none ↦ existing_seq ys id rev | some seq ↦ some seq ]
unfolding existing_seq
existing_seq-append [] ys id rev = refl
existing_seq-append (x ∷ xs) ys id rev = elim (Bool-cases (is_revision id rev x)) [
  | inl found ↦ rw found
  | inr other ↦ rw other (existing_seq-append xs ys id rev)
]

pub existing_seq_stays :
    (xs ys : List OpRow) (id rev : Bytes) {seq : ℕ}
    → existing_seq xs id rev ≡ some seq
    → existing_seq (xs ++ ys) id rev ≡ some seq
existing_seq_stays xs ys id rev h = rw (existing_seq-append xs ys id rev, h)

pub existing_seq_last :
    (xs : List OpRow) (r : OpRow)
    → existing_seq xs r.entity_id r.entity_rev ≡ none
    → existing_seq (xs ++ r ∷ []) r.entity_id r.entity_rev ≡ some r.seq
unfolding existing_seq
existing_seq_last xs r h =
    rw (existing_seq-append xs (r ∷ []) r.entity_id r.entity_rev, h)
      (ground (arith, bytes_eq_iff r.entity_id r.entity_id, bytes_eq_iff r.entity_rev r.entity_rev))

-- An answer lies among the numbers of the table.
pub existing_seq_bounds :
    (n : ℕ) (xs : List OpRow) (id rev : Bytes) (seq : ℕ)
    → Runs n xs
    → existing_seq xs id rev ≡ some seq
    → (n ≤ seq) × (seq < n + length xs)
unfolding existing_seq
existing_seq_bounds n [] id rev seq h e = ground arith
existing_seq_bounds n (x ∷ xs) id rev seq h e = elim (Bool-cases (is_revision id rev x)) [
  | inl found ↦ ground arith
  | inr other ↦ ground (arith, existing_seq_bounds (suc n) xs id rev seq h.1)
]

-- In a numbered table two revisions with one number are one revision.
pub existing_seq_injective :
    (n : ℕ) (xs : List OpRow) (id rev id' rev' : Bytes) (seq : ℕ)
    → Runs n xs
    → existing_seq xs id rev ≡ some seq
    → existing_seq xs id' rev' ≡ some seq
    → (id ≡ id') × (rev ≡ rev')
unfolding existing_seq
existing_seq_injective n [] id rev id' rev' seq h e e' = ground arith
existing_seq_injective n (x ∷ xs) id rev id' rev' seq h e e' = ground (
  arith,
  existing_seq_injective (suc n) xs id rev id' rev' seq h.1,
  existing_seq_bounds (suc n) xs id rev seq h.1,
  existing_seq_bounds (suc n) xs id' rev' seq h.1,
  bytes_eq_iff x.entity_id id,
  bytes_eq_iff x.entity_rev rev,
  bytes_eq_iff x.entity_id id',
  bytes_eq_iff x.entity_rev rev',
)

other_revision :
    (x r : OpRow)
    → is_revision r.entity_id r.entity_rev x ≡ false
    → existing_seq (r ∷ []) x.entity_id x.entity_rev ≡ none
unfolding existing_seq
other_revision x r h = ground (
  arith,
  bytes_eq_iff x.entity_id r.entity_id,
  bytes_eq_iff r.entity_id x.entity_id,
  bytes_eq_iff x.entity_rev r.entity_rev,
  bytes_eq_iff r.entity_rev x.entity_rev,
)

pub Distinct-append :
    (xs : List OpRow) (r : OpRow)
    → Distinct xs
    → existing_seq xs r.entity_id r.entity_rev ≡ none
    → Distinct (xs ++ r ∷ [])
unfolding existing_seq
Distinct-append [] r h e = (refl, tt)
Distinct-append (x ∷ xs) r h e = elim (Bool-cases (is_revision r.entity_id r.entity_rev x)) [
  | inl same ↦ absurd (cc (rw (same, existing_seq) at e))
  | inr differ ↦ (
    rw (existing_seq-append xs (r ∷ []) x.entity_id x.entity_rev, h.0) (other_revision x r differ),
    Distinct-append xs r h.1 (ground arith),
  )
]

-- No row of a numbered table has a number past its end.
pub stored_digest-past :
    (n : ℕ) (xs : List OpRow) (seq : ℕ)
    → Runs n xs
    → n + length xs ≤ seq
    → stored_digest xs seq ≡ none
unfolding stored_digest
stored_digest-past n [] seq h past = refl
stored_digest-past n (x ∷ xs) seq h past = ground (arith, stored_digest-past (suc n) xs seq h.1)

-- A new revision with the next number is accepted.
pub insert_row-next :
    (xs : List OpRow) (r : OpRow)
    → Runs 1 xs
    → r.seq ≡ suc (length xs)
    → existing_seq xs r.entity_id r.entity_rev ≡ none
    → insert_row xs r ≡ ok (xs ++ r ∷ [])
unfolding insert_row
insert_row-next xs r h e new = rw (new, stored_digest-past 1 xs r.seq h (omega arith))
