-- ===== src/Client/Backfill/Keeps.antt =====
-- What a backfill leaves behind is the database as it was, or what the transaction commits.
use claude_mem_lan_sync.Prelude.{
  ℕ, refl, ◌||◌, List, ◌∷◌, Bytes, Result, ok, err, Ensures, given, if-keeps,
}
use claude_mem_lan_sync.Client.Database.{Table, Database}
use claude_mem_lan_sync.Client.Select.{BackfillOpts}
use claude_mem_lan_sync.Client.Backfill.{
  BackfillResult, BackfillError, ClientEnv, Disk, backfill_tx, plan, committed,
  requeue_behind_backup, planned, backfill, backup_name, has_backup, vacuum, chmod,
}

module _ (P : Database → Type 0) (env : ClientEnv) (o : BackfillOpts) (d : Disk)
    (idle : P d.db) where
  committed-keeps :
      (backups : List (Bytes × Database)) (sizes : List (Table × ℕ) × ℕ) (name : Bytes)
      (out : Result BackfillError (Database × ℕ))
      → Ensures (λ x. P x.0) out
      → P (committed (record d { backups = backups }) sizes name out).0.db
  committed-keeps backups sizes name (err e) done = idle
  committed-keeps backups sizes name (ok (db, n)) done = given (db, n) done refl

  module _ (done : Ensures (λ x. P x.0) (backfill_tx env o d.db)) where
    requeue_behind_backup-keeps :
        (sizes : List (Table × ℕ) × ℕ) → P (requeue_behind_backup env o d sizes).0.db
    requeue_behind_backup-keeps sizes =
        if-keeps Q (env.fails vacuum || has_backup d.backups (backup_name env.now)) _ _ (λ _. idle)
          λ _.
            if-keeps Q (env.fails chmod) _ _ (λ _. idle)
              (λ _.
                committed-keeps ((backup_name env.now, d.db) ∷ d.backups) sizes
                  (backup_name env.now) (backfill_tx env o d.db) done)
      where
        Q : Disk × Result BackfillError BackfillResult → Type 0
        Q out = P out.0.db

    planned-keeps :
        (sizes : Result BackfillError (List (Table × ℕ) × ℕ)) → P (planned env o d sizes).0.db
    planned-keeps (err e) = idle
    planned-keeps (ok sizes) =
        if-keeps {S = Disk × Result BackfillError BackfillResult} (λ out. P out.0.db) o.dry_run _ _
          (λ _. idle) (λ _. requeue_behind_backup-keeps sizes)

    pub backfill-keeps : P (backfill env o d).0.db
    unfolding backfill
    backfill-keeps = planned-keeps (plan env o d.db)
