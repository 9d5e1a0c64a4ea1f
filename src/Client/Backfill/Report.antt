-- ===== src/Client/Backfill/Report.antt =====
-- What a backfill reports, and what it queues.
use claude_mem_lan_sync.Prelude.{
  ℕ, ◌+◌, ◌≡◌, refl, ap, Bool, true, false, not, ◌&&◌, ◌||◌, List, [], ◌∷◌, map, none, Bytes,
  Result, ok, err, Bool-cases, inl, inr, Ensures, giving, Ensures-bind, given, arith, if-keeps,
}
use claude_mem_lan_sync.Client.Database.{
  Table, observations, session_summaries, user_prompts, Row, Database, is_null, count, is_pending,
  pending_in, sync_tables,
}
use claude_mem_lan_sync.Client.Select.{BackfillOpts, is_selected}
use claude_mem_lan_sync.Client.Backfill.{
  BackfillResult, BackfillError, worker_is_running, no_baseline, call_failed, ClientEnv, Disk,
  begin, create_undo, commit, read_versions, measure, save, clear, requeue, run, refuse_unless,
  has_version, measured, stamped, requeued, requeue_all, with_undo_table, backfill_tx, plan,
  backup_name, has_backup, result_of, committed, requeue_behind_backup, planned, backfill, vacuum,
  chmod,
}

-- How many rows of each table are in the scope.
abbrev pub in_scope : BackfillOpts → Database → List Table → List (Table × ℕ)
in_scope o db = map (λ t. (t, count (is_selected o db t) (db.rows t)))

measured-in_scope :
    (env : ClientEnv) (o : BackfillOpts) (db : Database) (ts : List Table)
    → Ensures (λ sizes. sizes.0 ≡ in_scope o db ts) (measured env o db ts)
unfolding measured
measured-in_scope env o db [] = giving refl
measured-in_scope env o db (t ∷ ts) = Ensures-bind (run env (measure t)) λ _ _.
    Ensures-bind (measured env o db ts) λ (counts, bytes) e. giving (
      ap (λ cs. (t, count (is_selected o db t) (db.rows t)) ∷ cs)
        (given (counts, bytes) (measured-in_scope env o db ts) e))

plan-in_scope :
    (env : ClientEnv) (o : BackfillOpts) (db : Database)
    → Ensures (λ sizes. sizes.0 ≡ in_scope o db sync_tables) (plan env o db)
unfolding plan
plan-in_scope env o db =
    Ensures-bind (refuse_unless (o.force || not env.running) worker_is_running) λ _ _.
      Ensures-bind (run env read_versions) λ _ _.
        Ensures-bind (refuse_unless (has_version 47 db.schema_versions) no_baseline)
          λ _ _. measured-in_scope env o db sync_tables

unfoldable all_requeued : BackfillOpts → Database → List Table → Database
all_requeued o db [] = db
all_requeued o db (t ∷ ts) = all_requeued o (requeued o t db) ts

requeue_all-all_requeued :
    (env : ClientEnv) (o : BackfillOpts) (db : Database) (ts : List Table)
    → Ensures (λ out. out.0 ≡ all_requeued o db ts) (requeue_all env o db ts)
unfolding requeue_all all_requeued
requeue_all-all_requeued env o db [] = giving refl
requeue_all-all_requeued env o db (t ∷ ts) = Ensures-bind (run env (save t)) λ _ _.
    Ensures-bind (run env (clear t)) λ _ _. Ensures-bind (run env (requeue t)) λ _ _.
      Ensures-bind (requeue_all env o (requeued o t db) ts) λ (db', n) e.
        giving (given (db', n) (requeue_all-all_requeued env o (requeued o t db) ts) e)

-- Row by row: a selected row has lost its stamp and nothing else, and any other row is as it was.
pub data AreRequeued (selected : Row → Bool) : List Row → List Row → Type 0 where
  no_rows : AreRequeued selected [] []
  is_requeued :
      {r : Row} {before after : List Row}
      → selected r ≡ true
      → AreRequeued selected before after
      → AreRequeued selected (r ∷ before) (record r { synced_at = none } ∷ after)
  is_kept :
      {r : Row} {before after : List Row}
      → selected r ≡ false
      → AreRequeued selected before after
      → AreRequeued selected (r ∷ before) (r ∷ after)

-- The rows of a table afterwards, and how many of them are queued: those in the scope, and those that
-- were before.
abbrev pub IsQueued : BackfillOpts → Database → Database → Type 0
IsQueued o db db' =
    (t : Table)
    → AreRequeued (is_selected o db t) (db.rows t) (db'.rows t)
      × (pending_in db' t
          ≡ count (is_selected o db t) (db.rows t)
            + count (λ r. is_pending r && not (is_selected o db t r)) (db.rows t))

map-stamped : (p : Row → Bool) (rows : List Row) → AreRequeued p rows (map (stamped p none) rows)
map-stamped p [] = no_rows
map-stamped p (r ∷ rows) =
    if-keeps (λ r'. AreRequeued p (r ∷ rows) (r' ∷ map (stamped p none) rows)) (p r) _ _
      (λ e. is_requeued e (map-stamped p rows)) (λ e. is_kept e (map-stamped p rows))

-- A predicate of local rows; the stamp of those it holds of goes.
count-stamped :
    (p : Row → Bool) (rows : List Row)
    → ((r : Row) → p r ≡ true → is_null r.origin_device_id ≡ true)
    → count is_pending (map (stamped p none) rows)
      ≡ count p rows + count (λ r. is_pending r && not (p r)) rows
unfolding count
count-stamped p [] own = refl
count-stamped p (r ∷ rows) own = elim (Bool-cases (p r)) [
  | inl e ↦ rw (e, own r e) (ground (arith, count-stamped p rows own))
  | inr e ↦ rw e (ground (arith, count-stamped p rows own))
]

is_selected-local :
    (o : BackfillOpts) (db : Database) (t : Table) (r : Row)
    → is_selected o db t r ≡ true
    → is_null r.origin_device_id ≡ true
is_selected-local o db t r h = ground arith

stamped-IsQueued :
    (o : BackfillOpts) (db : Database) (t : Table)
    → let selected : Row → Bool = is_selected o db t in
      AreRequeued selected (db.rows t) (map (stamped selected none) (db.rows t))
      × (count is_pending (map (stamped selected none) (db.rows t))
          ≡ count selected (db.rows t) + count (λ r. is_pending r && not (selected r)) (db.rows t))
stamped-IsQueued o db t = (
  map-stamped (is_selected o db t) (db.rows t),
  count-stamped (is_selected o db t) (db.rows t) (is_selected-local o db t),
)

all_requeued-IsQueued :
    (o : BackfillOpts) (db : Database)
    → IsQueued o db (all_requeued o (with_undo_table db) sync_tables)
unfolding all_requeued
all_requeued-IsQueued o db observations = stamped-IsQueued o db observations
all_requeued-IsQueued o db session_summaries = stamped-IsQueued o db session_summaries
all_requeued-IsQueued o db user_prompts = stamped-IsQueued o db user_prompts

backfill_tx-IsQueued :
    (env : ClientEnv) (o : BackfillOpts) (db : Database)
    → Ensures (λ out. IsQueued o db out.0) (backfill_tx env o db)
unfolding backfill_tx
backfill_tx-IsQueued env o db = Ensures-bind (run env begin) λ _ _.
    Ensures-bind (run env create_undo) λ _ _.
      Ensures-bind (requeue_all env o (with_undo_table db) sync_tables) λ (db', n) e.
        Ensures-bind (run env commit) λ _ _.
          let same =
            given (db', n) (requeue_all-all_requeued env o (with_undo_table db) sync_tables) e in
          giving (rw same (all_requeued-IsQueued o db))

-- The outcomes of a backfill: an error, and the database as it was; in a dry run, the numbers of rows in
-- the scope, and nothing changed; or these numbers, the database as it was under the name of the backup,
-- and the rows in the scope in the queue.
pub data IsReported (o : BackfillOpts) (d : Disk) (out : Disk × Result BackfillError BackfillResult)
    : Type 0 where
  failed : (e : BackfillError) → out.1 ≡ err e → out.0.db ≡ d.db → IsReported o d out
  counted :
      (res : BackfillResult)
      → o.dry_run ≡ true
      → out ≡ (d, ok res)
      → res.per_table ≡ in_scope o d.db sync_tables
      → IsReported o d out
  queued :
      (res : BackfillResult)
      → o.dry_run ≡ false
      → out.1 ≡ ok res
      → res.per_table ≡ in_scope o d.db sync_tables
      → out.0.backups ≡ (res.backup, d.db) ∷ d.backups
      → IsQueued o d.db out.0.db
      → IsReported o d out

module _ (env : ClientEnv) (o : BackfillOpts) (d : Disk) where
  committed-IsReported :
      (sizes : List (Table × ℕ) × ℕ) (name : Bytes) (out : Result BackfillError (Database × ℕ))
      → o.dry_run ≡ false
      → sizes.0 ≡ in_scope o d.db sync_tables
      → Ensures (λ x. IsQueued o d.db x.0) out
      → IsReported o d (committed (record d { backups = (name, d.db) ∷ d.backups }) sizes name out)
  committed-IsReported sizes name (err e) wet counts done = failed e refl refl
  committed-IsReported sizes name (ok (db, n)) wet counts done =
      queued (result_of sizes name n) wet refl counts refl (given (db, n) done refl)

  requeue_behind_backup-IsReported :
      (sizes : List (Table × ℕ) × ℕ)
      → o.dry_run ≡ false
      → sizes.0 ≡ in_scope o d.db sync_tables
      → IsReported o d (requeue_behind_backup env o d sizes)
  requeue_behind_backup-IsReported sizes wet counts =
      if-keeps (IsReported o d) (env.fails vacuum || has_backup d.backups (backup_name env.now)) _ _
        (λ _. failed call_failed refl refl)
        λ _.
          if-keeps (IsReported o d) (env.fails chmod) _ _ (λ _. failed call_failed refl refl)
            (λ _.
              committed-IsReported sizes (backup_name env.now) (backfill_tx env o d.db) wet counts
                (backfill_tx-IsQueued env o d.db))

  planned-IsReported :
      (sizes : Result BackfillError (List (Table × ℕ) × ℕ))
      → Ensures (λ s. s.0 ≡ in_scope o d.db sync_tables) sizes
      → IsReported o d (planned env o d sizes)
  planned-IsReported (err e) counts = failed e refl refl
  planned-IsReported (ok sizes) counts =
      let same : sizes.0 ≡ in_scope o d.db sync_tables = given sizes counts refl in
      if-keeps (IsReported o d) o.dry_run _ _ (λ dry. counted (result_of sizes [] 0) dry refl same)
        (λ wet. requeue_behind_backup-IsReported sizes wet same)

  -- A backfill that fails leaves the database as it was. A dry run changes nothing, and reports for each
  -- table the number of rows in its scope, which is what the real run reports. A real run that succeeds
  -- has left the database as it was in the backup that it names, each row in the scope has lost its stamp
  -- and nothing else, any other row is as it was, and the number of queued rows of a table is that of the
  -- rows in the scope and of those that were queued before and are not in it.
  pub backfill-IsReported : IsReported o d (backfill env o d)
  unfolding backfill
  backfill-IsReported = planned-IsReported (plan env o d.db) (plan-in_scope env o d.db)
