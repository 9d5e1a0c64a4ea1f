-- ===== src/Client/Backfill/Undo.antt =====
-- Backfills, and the undo that takes the baseline back.
use claude_mem_lan_sync.Prelude.{
  ℕ, ◌≡◌, ◌⊎◌, inl, inr, refl, sym, ◌∙◌, List, [], ◌∷◌, Option, none, some, Bytes, Result, ok, err,
  Ensures, giving, Ensures-bind, given,
}
use claude_mem_lan_sync.Client.Database.{Table, Exclusion, Database, sync_tables}
use claude_mem_lan_sync.Client.Select.{BackfillOpts}
use claude_mem_lan_sync.Client.Backfill.{
  BackfillError, ClientEnv, Disk, begin, create_undo, commit, save, clear, requeue, run, requeued,
  requeue_all, with_undo_table, backfill_tx, backfill, find_undo, begin_undo, restore, drop_undo,
  commit_undo, stamp, update_rows, stamped,
}
use claude_mem_lan_sync.Client.Exclusions.{through_rev, insert_or_ignore, undo_rows}
use claude_mem_lan_sync.Client.Undo.{
  restored, restamp_all, undo_tx, or_no_backfill, undone, undo_backfill, is_restamped,
}
use claude_mem_lan_sync.Client.Backfill.Keeps.{backfill-keeps}
use claude_mem_lan_sync.Client.Backfill.Baseline.{
  IsSplit, requeued-IsSplit, first_of, first_of_absorbs, through_rev-insert_or_ignore,
}

-- Backfills, one after another.
unfoldable pub backfill_all : List (ClientEnv × BackfillOpts) → Disk → Disk
backfill_all [] d = d
backfill_all ((env, o) ∷ runs) d = backfill_all runs (backfill env o d).0

module _ (before : Bytes → Bytes → Option Bytes) (env : ClientEnv) where
  requeue_all-IsSplit :
      (o : BackfillOpts) (db : Database) (ts : List Table)
      → IsSplit before db
      → Ensures (λ out. IsSplit before out.0) (requeue_all env o db ts)
  unfolding requeue_all
  requeue_all-IsSplit o db [] split = giving split
  requeue_all-IsSplit o db (t ∷ ts) split = Ensures-bind (run env (save t)) λ _ _.
      Ensures-bind (run env (clear t)) λ _ _. Ensures-bind (run env (requeue t)) λ _ _.
        Ensures-bind (requeue_all env o (requeued o t db) ts) λ (db', n) e. giving (
          given (db', n)
            (requeue_all-IsSplit o (requeued o t db) ts (requeued-IsSplit before o t db split)) e)

  backfill_tx-IsSplit :
      (o : BackfillOpts) (db : Database)
      → IsSplit before db
      → Ensures (λ out. IsSplit before out.0) (backfill_tx env o db)
  unfolding backfill_tx
  backfill_tx-IsSplit o db split = Ensures-bind (run env begin) λ _ _.
      Ensures-bind (run env create_undo) λ _ _.
        Ensures-bind (requeue_all env o (with_undo_table db) sync_tables) λ (db', n) e.
          Ensures-bind (run env commit) λ _ _.
            giving (given (db', n) (requeue_all-IsSplit o (with_undo_table db) sync_tables split) e)

  backfill-IsSplit :
      (o : BackfillOpts) (d : Disk) → IsSplit before d.db → IsSplit before ((backfill env o d).0.db)
  backfill-IsSplit o d split =
      backfill-keeps (IsSplit before) env o d split (backfill_tx-IsSplit o d.db split)

backfill_all-IsSplit :
    (before : Bytes → Bytes → Option Bytes) (runs : List (ClientEnv × BackfillOpts)) (d : Disk)
    → IsSplit before d.db
    → IsSplit before ((backfill_all runs d).db)
unfolding backfill_all
backfill_all-IsSplit before [] d split = split
backfill_all-IsSplit before ((env, o) ∷ runs) d split =
    backfill_all-IsSplit before runs (backfill env o d).0 (backfill-IsSplit before env o d split)

-- The stamps of the undo leave both tables of the baseline alone.
restamp_all-keeps :
    (env : ClientEnv) (undo : List Exclusion) (db : Database) (ts : List Table)
    → Ensures (λ db'. db'.launch_exclusions ≡ db.launch_exclusions) (restamp_all env undo db ts)
unfolding restamp_all
restamp_all-keeps env undo db [] = giving refl
restamp_all-keeps env undo db (t ∷ ts) = Ensures-bind (run env (stamp t)) λ _ _.
    restamp_all-keeps env undo (update_rows t (stamped (is_restamped undo t) (some env.now)) db) ts

-- The baseline is what the two tables held together.
abbrev IsRestored : List Exclusion → Database → Database → Type 0
IsRestored undo db db' =
    (db'.undo_table ≡ none) × (db'.launch_exclusions ≡ insert_or_ignore db.launch_exclusions undo)

undo_tx-IsRestored :
    (env : ClientEnv) (db : Database) (undo : List Exclusion)
    → Ensures (λ out. IsRestored undo db out.0) (undo_tx env db undo)
unfolding undo_tx
undo_tx-IsRestored env db undo = Ensures-bind (run env begin_undo) λ _ _.
    Ensures-bind (run env restore) λ _ _.
      Ensures-bind (restamp_all env undo (restored undo db) sync_tables) λ db' e.
        Ensures-bind (run env drop_undo) λ _ _. Ensures-bind (run env commit_undo) λ _ _.
          giving (refl, given db' (restamp_all-keeps env undo (restored undo db) sync_tables) e)

or_no_backfill-eq-ok :
    (o : Option (List Exclusion)) (undo : List Exclusion)
    → or_no_backfill o ≡ ok undo
    → undo_rows o ≡ undo
or_no_backfill-eq-ok none undo h = cc
or_no_backfill-eq-ok (some es) undo h = cc

undone-eq-ok :
    (d : Disk) (out : Result BackfillError (Database × ℕ)) (n : ℕ)
    → (undone d out).1 ≡ ok n
    → out ≡ ok ((undone d out).0.db, n)
undone-eq-ok d (err e) n h = cc
undone-eq-ok d (ok (db, m)) n h = cc

undo_backfill-IsRestored :
    (env : ClientEnv) (d : Disk) (n : ℕ)
    → (undo_backfill env d).1 ≡ ok n
    → IsRestored (undo_rows d.db.undo_table) d.db ((undo_backfill env d).0.db)
unfolding undo_backfill
undo_backfill-IsRestored env d n h =
    given {P = λ out. IsRestored (undo_rows d.db.undo_table) d.db out.0} (_, n)
      (Ensures-bind (run env find_undo) λ _ _.
        Ensures-bind (or_no_backfill d.db.undo_table) λ undo e.
          rw (or_no_backfill-eq-ok d.db.undo_table undo e) (undo_tx-IsRestored env d.db undo))
      (undone-eq-ok d _ n h)

first_of-split :
    (a b c : Option Bytes) → ((a ≡ c) × (b ≡ none)) ⊎ ((a ≡ none) × (b ≡ c)) → first_of a b ≡ c
first_of-split a b c (inl (p, q)) = rw q (sym (first_of_absorbs a none (λ _. refl)) ∙ p)
first_of-split a b c (inr (p, q)) = rw (p, q) refl

-- A database without an undo table, on which any backfills run, with any options and any failures, and
-- then an undo that succeeds, has its launch baseline back: under each kind and id it has the revision
-- that it had, and the undo table is gone.
pub backfill_all-undo_backfill :
    (runs : List (ClientEnv × BackfillOpts)) (env : ClientEnv) (d : Disk) (n : ℕ)
    → d.db.undo_table ≡ none
    → (undo_backfill env (backfill_all runs d)).1 ≡ ok n
    → ((kind id : Bytes)
        → through_rev (undo_backfill env (backfill_all runs d)).0.db.launch_exclusions kind id
          ≡ through_rev d.db.launch_exclusions kind id)
      × ((undo_backfill env (backfill_all runs d)).0.db.undo_table ≡ none)
unfolding through_rev
backfill_all-undo_backfill runs env d n fresh done =
    let before : Bytes → Bytes → Option Bytes =
      λ kind id. through_rev d.db.launch_exclusions kind id in
    let d' = backfill_all runs d in
    let split = backfill_all-IsSplit before runs d (λ kind id. inl (refl, rw fresh refl)) in
    let (gone, back) = undo_backfill-IsRestored env d' n done in
    (
      λ kind id. rw back (
          through_rev-insert_or_ignore d'.db.launch_exclusions (undo_rows d'.db.undo_table) kind id
          ∙ first_of-split _ _ _ (split kind id)),
      gone,
    )
