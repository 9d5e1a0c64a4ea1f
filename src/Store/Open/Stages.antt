-- ===== src/Store/Open/Stages.antt =====
-- The stages of an `Open` that returns a store.
use claude_mem_lan_sync.Prelude.{◌≡◌, refl, ap, ◌∙◌, Result, ok, err, >>=-eq-ok}
use claude_mem_lan_sync.Proto.Errors.{Fault}
use claude_mem_lan_sync.Store.Env.{Env, run, read_meta, chmod, journal_mode}
use claude_mem_lan_sync.Store.Tables.{Store}
use claude_mem_lan_sync.Store.Open.{
  Database, database_of, migrate, load_or_create, load_or_create_meta, verify_head_consistency,
  opened, unless_failed, start, load, open_store,
}

-- What an `Open` that returns a store has gone through.
pub record IsOpening (env : Env) (db : Database) (s : Store) : Type 0 where
  pub migrated : Database
  pub migrates : migrate env db ≡ ok migrated
  pub loaded : Store
  pub loads : load_or_create env migrated migrated.meta ≡ ok loaded
  pub passes : (verify_head_consistency env loaded).1 ≡ ok tt
  pub ends : (verify_head_consistency env loaded).0 ≡ s
  pub disk : (open_store env db).0 ≡ database_of s

opened-eq-ok :
    (p : Store × Result Fault (Unit {0})) (s : Store)
    → (opened p).1 ≡ ok s
    → (p.1 ≡ ok tt) × (p.0 ≡ s) × ((opened p).0 ≡ database_of s)
opened-eq-ok (s', ok _) s h = let same : s' ≡ s = cc in (refl, same, ap database_of same)
opened-eq-ok (s', err f) s h = absurd (cc)

unless_failed-eq-ok :
    (db : Database) (o : Result Fault (Unit {0})) (rest : Database × Result Fault Store) (s : Store)
    → (unless_failed db o rest).1 ≡ ok s
    → unless_failed db o rest ≡ rest
unless_failed-eq-ok db (err f) rest s h = absurd (cc)
unless_failed-eq-ok db (ok _) rest s h = refl

start-eq-ok :
    (env : Env) (db : Database) (o : Result Fault Store) (s : Store)
    → (start env db o).1 ≡ ok s
    → (l : Store) × (o ≡ ok l)
      × ((verify_head_consistency env l).1 ≡ ok tt)
      × ((verify_head_consistency env l).0 ≡ s)
      × ((start env db o).0 ≡ database_of s)
start-eq-ok env db (err f) s h = absurd (cc)
start-eq-ok env db (ok l) s h =
    let go =
      unless_failed-eq-ok (database_of l) (run env chmod) (opened (verify_head_consistency env l)) s
        h in
    let (a, b, c) = opened-eq-ok (verify_head_consistency env l) s (rw go at h) in
    (l, refl, a, b, ap (λ (p : Database × Result Fault Store). p.0) go ∙ c)

load-eq-ok :
    (env : Env) (db : Database) (o : Result Fault Database) (s : Store)
    → (load env db o).1 ≡ ok s
    → (m : Database) × (o ≡ ok m)
      × ((start env m (load_or_create_meta env m)).1 ≡ ok s)
      × ((load env db o).0 ≡ (start env m (load_or_create_meta env m)).0)
load-eq-ok env db (err f) s h = absurd (cc)
load-eq-ok env db (ok m) s h = (m, refl, h, refl)

pub open_store-eq-ok :
    (env : Env) (db : Database) (s : Store) → (open_store env db).1 ≡ ok s → IsOpening env db s
unfolding open_store load_or_create_meta
open_store-eq-ok env db s h =
    let go = unless_failed-eq-ok db (run env journal_mode) (load env db (migrate env db)) s h in
    let (m, p, q, d) = load-eq-ok env db (migrate env db) s (rw go at h) in
    let (l, p2, ran, ends, disk) = start-eq-ok env m (load_or_create_meta env m) s q in
    let (_, p3, q3) = >>=-eq-ok (run env read_meta) _ (unfold load_or_create_meta in p2) in
    record {
      migrated = m;
      migrates = p;
      loaded = l;
      loads = q3;
      passes = ran;
      ends = ends;
      disk = ap (λ (x : Database × Result Fault Store). x.0) go ∙ d ∙ disk;
    }
