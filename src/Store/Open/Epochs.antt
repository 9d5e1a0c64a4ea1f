-- ===== src/Store/Open/Epochs.antt =====
-- `Open`: which epoch a database has afterwards.
use claude_mem_lan_sync.Prelude.{
  ℕ, ◌≤◌, ◌≡◌, ◌≢◌, refl, ap, sym, ◌∙◌, Bool, true, false, [], some, arith, length, if◌then◌else◌,
  ltb, ◌==◌, ok, err, Bool-cases, inl, inr, >>=-eq-ok,
}
use claude_mem_lan_sync.Proto.Dec.{dec_string, parse_dec_positive, max_dec, max_int64}
use claude_mem_lan_sync.Proto.Dec.RoundTrip.{parse_dec_positive-eq-ok}
use claude_mem_lan_sync.Proto.Errors.{other}
use claude_mem_lan_sync.Store.Env.{Call, Env, update_epoch}
use claude_mem_lan_sync.Store.Tables.{Meta, Store}
use claude_mem_lan_sync.Store.Tables.Rows.{Runs, Distinct}
use claude_mem_lan_sync.Store.Invariant.{IsSound}
use claude_mem_lan_sync.Store.Open.{
  Database, schema_version, migrate, with_head, max_seq, new_epoch, store_of, parsed_epoch,
  load_or_create, load_or_create_meta, bump_epoch, verify_head_consistency, open_store,
}
use claude_mem_lan_sync.Store.Open.Repair.{
  IsVerified, kept, replayed, verify_head_consistency-IsVerified, load_or_create-IsLogged,
  IsVerified-IsSound, parsed_epoch-eq-ok, new_epoch-eq-ok, max_seq-eq-length,
}
use claude_mem_lan_sync.Store.Open.Stages.{open_store-eq-ok}

migrate-logged :
    (env : Env) (db m : Database)
    → Runs 1 db.ops
    → Distinct db.ops
    → length db.ops ≤ max_int64
    → migrate env db ≡ ok m
    → Runs 1 m.ops × Distinct m.ops × (length m.ops ≤ max_int64)
unfolding migrate
migrate-logged env db m runs distinct fits h =
    elim (Bool-cases (ltb schema_version db.user_version)) [
      | inl new ↦ absurd (cc (rw new at h))
      | inr old ↦ elim (Bool-cases (db.user_version == schema_version)) [
        | inl current ↦ let same : db ≡ m = ground arith in rw (← same) (runs, distinct, fits)
        | inr first ↦ let none_yet : m.ops ≡ [] = ground arith in rw none_yet (tt, tt, omega arith)
      ]
    ]

-- Whatever the head counter says, opening a database whose log is gapless, holds no revision twice and
-- fits 2^63 - 1 numbers gives a sound store, if it gives one.
pub open_store-IsSound :
    (env : Env) (db : Database) (s : Store)
    → env.random ≤ max_dec
    → Runs 1 db.ops
    → Distinct db.ops
    → length db.ops ≤ max_int64
    → (open_store env db).1 ≡ ok s
    → IsSound s
open_store-IsSound env db s fits runs distinct room h =
    let o = open_store-eq-ok env db s h in
    let (runs', distinct', room') =
      migrate-logged env db o.migrated runs distinct room o.migrates in
    let (logged, rows) =
      load_or_create-IsLogged env o.migrated o.migrated.meta o.loaded fits runs' distinct' room'
        o.loads in
    rw o.ends at (
      IsVerified-IsSound env fits logged
        (verify_head_consistency-IsVerified env o.loaded logged.numbered o.passes))

-- What an `Open` leaves of a database that is in use: the log as it was, a head counter that fits it,
-- and the stored epoch if the counter fitted before, or else a new one.
pub record IsReopened (env : Env) (db : Database) (m : Meta) (s : Store) : Type 0 where
  pub ops : s.tables.ops ≡ db.ops
  pub head : s.tables.meta.head_seq ≡ length db.ops
  pub epoch_kept : m.head_seq ≡ length db.ops → dec_string s.epoch ≡ m.epoch
  pub epoch_new : m.head_seq ≢ length db.ops → s.epoch ≡ (if env.random == 0 then 1 else env.random)

load_or_create-eq-ok :
    (env : Env) (db : Database) (m : Meta) (s : Store)
    → load_or_create env db (some m) ≡ ok s
    → (e : ℕ) × (dec_string e ≡ m.epoch) × (s ≡ store_of db m e)
unfolding load_or_create
load_or_create-eq-ok env db m s h =
    let (e, p, q) = >>=-eq-ok (parsed_epoch m.epoch) _ h in
    (e, (parse_dec_positive-eq-ok m.epoch e (parsed_epoch-eq-ok m.epoch e p)).0, cc)

migrate-current :
    (env : Env) (db : Database) → db.user_version ≡ schema_version → migrate env db ≡ ok db
unfolding migrate
migrate-current env db h = ground arith

IsVerified-IsReopened :
    (env : Env) (db : Database) (m : Meta) (l s : Store)
    → dec_string l.epoch ≡ m.epoch
    → l.tables.ops ≡ db.ops
    → l.tables.meta ≡ m
    → env.random ≤ max_dec
    → IsVerified env l s
    → IsReopened env db m s
IsVerified-IsReopened env db m l s epoch rows meta fits (kept same e) =
    let size = ap length rows in
    let head = ap (λ (x : Meta). x.head_seq) meta in
    rw e (record {
      ops = rows;
      head = sym same ∙ size;
      epoch_kept = λ _. epoch;
      epoch_new = λ ne. absurd (ne (sym head ∙ sym same ∙ size));
    })
IsVerified-IsReopened env db m l s epoch rows meta fits (replayed d ne p e) =
    let size = ap length rows in
    let head = ap (λ (x : Meta). x.head_seq) meta in
    rw e (record {
      ops = rows;
      head = size;
      epoch_kept = λ same. absurd (ne (size ∙ sym same ∙ sym head));
      epoch_new = λ _. (new_epoch-eq-ok env d fits p).0;
    })

-- Opening a database that is in use, with a gapless log, repairs the head counter, and rotates the
-- epoch exactly if the counter did not fit the log.
pub open_store-IsReopened :
    (env : Env) (db : Database) (m : Meta) (s : Store)
    → env.random ≤ max_dec
    → db.user_version ≡ schema_version
    → db.meta ≡ some m
    → Runs 1 db.ops
    → (open_store env db).1 ≡ ok s
    → IsReopened env db m s
open_store-IsReopened env db m s fits current used runs h =
    let o = open_store-eq-ok env db s h in
    let same : o.migrated ≡ db = cc (o.migrates, migrate-current env db current) in
    let used' : o.migrated.meta ≡ some m = ap (λ (d : Database). d.meta) same ∙ used in
    let (e, print, l) = load_or_create-eq-ok env o.migrated m o.loaded (rw used' at o.loads) in
    let rows : o.loaded.tables.ops ≡ db.ops =
      ap (λ (x : Store). x.tables.ops) l ∙ ap (λ (d : Database). d.ops) same in
    let v = verify_head_consistency-IsVerified env o.loaded (rw rows runs) o.passes in
    rw (← o.ends) (
      IsVerified-IsReopened env db m o.loaded _ (ap (λ (x : Store). dec_string x.epoch) l ∙ print)
        rows (ap (λ (x : Store). x.tables.meta) l) fits v)

abbrev at_update_epoch : Call → Bool
at_update_epoch update_epoch = true
at_update_epoch _ = false

-- Nothing fails but the statement that stores a new epoch.
abbrev pub interrupted : Env → Env
interrupted env = record env { fails = at_update_epoch }

load_or_create-some :
    (env : Env) (db : Database) (m : Meta) (e : ℕ)
    → parse_dec_positive m.epoch ≡ ok e
    → load_or_create env db (some m) ≡ ok (store_of db m e)
unfolding load_or_create
load_or_create-some env db m e h = ground arith

verify_head_consistency-interrupted :
    (env : Env) (s : Store)
    → Runs 1 s.tables.ops
    → s.tables.meta.head_seq ≢ length s.tables.ops
    → verify_head_consistency (interrupted env) s ≡ (with_head s (length s.tables.ops), err other)
unfolding verify_head_consistency bump_epoch new_epoch
verify_head_consistency-interrupted env s runs drift =
    let no_match : (max_seq s.tables.ops == s.tables.meta.head_seq) ≡ false =
      ground (arith, max_seq-eq-length s.tables.ops runs) in
    rw (no_match, max_seq-eq-length s.tables.ops runs)

open_store-interrupted :
    (env : Env) (db : Database) (m : Meta) (e : ℕ)
    → db.user_version ≡ schema_version
    → db.meta ≡ some m
    → Runs 1 db.ops
    → parse_dec_positive m.epoch ≡ ok e
    → m.head_seq ≢ length db.ops
    → (open_store (interrupted env) db).0 ≡ record {
      user_version = schema_version;
      meta = some (record m { head_seq = length db.ops });
      ops = db.ops;
      devices = db.devices;
    }
unfolding open_store load_or_create_meta
open_store-interrupted env db m e current used runs parsed drift =
    let loads : load_or_create (interrupted env) db db.meta ≡ ok (store_of db m e) =
      rw used (load_or_create-some (interrupted env) db m e parsed) in
    let fails = verify_head_consistency-interrupted env (store_of db m e) runs drift in
    rw (migrate-current (interrupted env) db current, loads, fails)

-- If an `Open` repairs the head counter and is then stopped before the epoch is rotated, the next
-- `Open` that succeeds finds nothing to repair: the head has moved and the epoch has not, so no device
-- is told to replay.
pub open_store_after_interruption :
    (env env' : Env) (db : Database) (m : Meta) (e : ℕ) (s : Store)
    → env'.random ≤ max_dec
    → db.user_version ≡ schema_version
    → db.meta ≡ some m
    → Runs 1 db.ops
    → parse_dec_positive m.epoch ≡ ok e
    → m.head_seq ≢ length db.ops
    → (open_store env' (open_store (interrupted env) db).0).1 ≡ ok s
    → (dec_string s.epoch ≡ m.epoch) × (s.tables.meta.head_seq ≢ m.head_seq)
open_store_after_interruption env env' db m e s fits current used runs parsed drift h =
    let left = open_store-interrupted env db m e current used runs parsed drift in
    let r =
      open_store-IsReopened env' _ (record m { head_seq = length db.ops }) s fits refl refl runs
        (rw left at h) in
    (r.epoch_kept refl, λ same. drift (sym same ∙ r.head))
