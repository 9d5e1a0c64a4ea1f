-- ===== src/Store/Open/Repair.antt =====
-- What `Open` makes of the epoch, and of a head counter that does not fit the log.
use claude_mem_lan_sync.Prelude.{
  ℕ, suc, ◌+◌, ◌≤◌, ◌<◌, ◌≡◌, ◌≢◌, refl, ap, sym, ◌∙◌, List, [], ◌∷◌, Option, none, some, arith,
  length, if◌then◌else◌, ◌==◌, Bytes, Result, ok, err, Bool-cases, inl, inr, >>=-eq-ok, ◌>>=◌, ◌>>◌,
}
use claude_mem_lan_sync.Proto.Dec.{dec_string, parse_dec_positive, max_dec, max_int64}
use claude_mem_lan_sync.Proto.Dec.RoundTrip.{parse_dec_positive-eq-ok}
use claude_mem_lan_sync.Proto.Errors.{Fault}
use claude_mem_lan_sync.Store.Env.{Env, run, random_id, insert_meta, update_head, update_epoch}
use claude_mem_lan_sync.Store.Tables.{OpRow, Meta, Store}
use claude_mem_lan_sync.Store.Tables.Rows.{Runs, Distinct}
use claude_mem_lan_sync.Store.Invariant.{IsSound}
use claude_mem_lan_sync.Store.Open.{
  Database, new_epoch, store_of, parsed_epoch, load_or_create, with_epoch, rotated, repaired,
  verified, bump_epoch, max_seq, with_head, verify_head_consistency,
}

max_seq-Runs :
    (k : ℕ) (r : OpRow) (rows : List OpRow)
    → Runs (suc k) (r ∷ rows)
    → max_seq (r ∷ rows) ≡ k + length (r ∷ rows)
unfolding max_seq
max_seq-Runs k r [] h = ground arith
max_seq-Runs k r (x ∷ rows) h = ground (arith, max_seq-Runs (suc k) x rows h.1)

-- In a gapless log the largest number is the length.
pub max_seq-eq-length : (rows : List OpRow) → Runs 1 rows → max_seq rows ≡ length rows
max_seq-eq-length [] h = unfold max_seq in refl
max_seq-eq-length (r ∷ rows) h = omega (arith, max_seq-Runs 0 r rows h)

-- Everything that the invariant asks for but the head counter.
pub record IsLogged (s : Store) : Type 0 where
  pub numbered : Runs 1 s.tables.ops
  pub distinct : Distinct s.tables.ops
  pub fits : length s.tables.ops ≤ max_int64
  pub epoch_stored : s.tables.meta.epoch ≡ dec_string s.epoch
  pub epoch_pos : 0 < s.epoch
  pub epoch_fits : s.epoch ≤ max_dec

pub new_epoch-eq-ok :
    (env : Env) (e : ℕ)
    → env.random ≤ max_dec
    → new_epoch env ≡ ok e
    → (e ≡ (if env.random == 0 then 1 else env.random)) × (0 < e) × (e ≤ max_dec)
unfolding new_epoch
new_epoch-eq-ok env e fits h = ground arith

pub parsed_epoch-eq-ok : (s : Bytes) (e : ℕ) → parsed_epoch s ≡ ok e → parse_dec_positive s ≡ ok e
parsed_epoch-eq-ok s e h = ground arith

pub load_or_create-IsLogged :
    (env : Env) (db : Database) (m : Option Meta) (s : Store)
    → env.random ≤ max_dec
    → Runs 1 db.ops
    → Distinct db.ops
    → length db.ops ≤ max_int64
    → load_or_create env db m ≡ ok s
    → IsLogged s × (s.tables.ops ≡ db.ops)
unfolding load_or_create
load_or_create-IsLogged env db (some m) s fits numbered distinct room h =
    let (e, p, q) = >>=-eq-ok (parsed_epoch m.epoch) _ h in
    let (print, pos, top) = parse_dec_positive-eq-ok m.epoch e (parsed_epoch-eq-ok m.epoch e p) in
    let same : s ≡ store_of db m e = cc in
    rw same (
      record {
        numbered = numbered;
        distinct = distinct;
        fits = room;
        epoch_stored = sym print;
        epoch_pos = pos;
        epoch_fits = top;
      },
      refl,
    )
load_or_create-IsLogged env db none s fits numbered distinct room h =
    let (_, p1, h1) = >>=-eq-ok (run env random_id) _ h in
    let (e, p2, h2) = >>=-eq-ok (new_epoch env) _ h1 in
    let (_, p3, h3) = >>=-eq-ok (run env insert_meta) _ h2 in
    let (drawn, pos, top) = new_epoch-eq-ok env e fits p2 in
    let same : s
        ≡ store_of db (record { user_id = env.fresh_id; epoch = dec_string e; head_seq = 0 }) e =
      cc in
    rw same (
      record {
        numbered = numbered;
        distinct = distinct;
        fits = room;
        epoch_stored = refl;
        epoch_pos = pos;
        epoch_fits = top;
      },
      refl,
    )

rotated-eq-ok :
    (s : Store) (o : Result Fault ℕ)
    → (rotated s o).1 ≡ ok tt
    → (e : ℕ) × (o ≡ ok e) × ((rotated s o).0 ≡ with_epoch s e)
rotated-eq-ok s (err f) h = absurd (cc)
rotated-eq-ok s (ok e) h = (e, refl, refl)

bump_epoch-eq-ok :
    (env : Env) (s : Store)
    → (bump_epoch env s).1 ≡ ok tt
    → (e : ℕ) × (new_epoch env ≡ ok e) × ((bump_epoch env s).0 ≡ with_epoch s e)
unfolding bump_epoch
bump_epoch-eq-ok env s h =
    let (e, p, q) = rotated-eq-ok s _ h in
    let (e', p', q') = >>=-eq-ok (new_epoch env) _ p in
    let (_, p2, q2) = >>=-eq-ok (run env update_epoch) _ q' in (e, p' ∙ cc, q)

-- What the check of the head leaves when it returns no error: nothing new if the counter is the
-- length of the log, and otherwise the repaired counter and a new epoch.
pub data IsVerified (env : Env) (s s' : Store) : Type 0 where
  kept : length s.tables.ops ≡ s.tables.meta.head_seq → s' ≡ s → IsVerified env s s'
  replayed :
      (e : ℕ)
      → length s.tables.ops ≢ s.tables.meta.head_seq
      → new_epoch env ≡ ok e
      → s' ≡ with_epoch (with_head s (length s.tables.ops)) e
      → IsVerified env s s'

repaired-IsVerified :
    (env : Env) (s : Store) (o : Result Fault (Unit {0}))
    → Runs 1 s.tables.ops
    → length s.tables.ops ≢ s.tables.meta.head_seq
    → (repaired env s o).1 ≡ ok tt
    → IsVerified env s (repaired env s o).0
repaired-IsVerified env s (err f) runs ne h = absurd (cc)
repaired-IsVerified env s (ok _) runs ne h =
    let (e, p, q) = bump_epoch-eq-ok env (with_head s (max_seq s.tables.ops)) h in
    replayed e ne p
      (q ∙ ap (λ n. with_epoch (with_head s n) e) (max_seq-eq-length s.tables.ops runs))

verified-IsVerified :
    (env : Env) (s : Store) (o : Result Fault (Unit {0}))
    → Runs 1 s.tables.ops
    → (verified env s o).1 ≡ ok tt
    → IsVerified env s (verified env s o).0
verified-IsVerified env s (err f) runs h = absurd (cc)
verified-IsVerified env s (ok _) runs h =
    let top = max_seq-eq-length s.tables.ops runs in
    elim (Bool-cases (max_seq s.tables.ops == s.tables.meta.head_seq)) [
      | inl same ↦ rw same (kept (ground arith) refl)
      | inr drift ↦
          rw drift (
            repaired-IsVerified env s (run env update_head) runs (λ e. ground arith)
              (rw drift at h))
    ]

pub verify_head_consistency-IsVerified :
    (env : Env) (s : Store)
    → Runs 1 s.tables.ops
    → (verify_head_consistency env s).1 ≡ ok tt
    → IsVerified env s (verify_head_consistency env s).0
unfolding verify_head_consistency
verify_head_consistency-IsVerified env s = verified-IsVerified env s _

pub bump_epoch-IsSound :
    (env : Env) (s : Store) → env.random ≤ max_dec → IsSound s → IsSound (bump_epoch env s).0
unfolding bump_epoch
bump_epoch-IsSound env s fits h = go _ refl
  where
    go :
        (o : Result Fault ℕ)
        → (do e ← new_epoch env; run env update_epoch; ok e) ≡ o
        → IsSound (rotated s o).0
    go (err f) p = h
    go (ok e) p =
        let (e', p', q') = >>=-eq-ok (new_epoch env) _ p in
        let (_, p2, q2) = >>=-eq-ok (run env update_epoch) _ q' in
        let (drawn, pos, top) = new_epoch-eq-ok env e fits (p' ∙ cc) in
        record {
          numbered = h.numbered;
          distinct = h.distinct;
          counted = h.counted;
          bounded = h.bounded;
          epoch_stored = refl;
          epoch_pos = pos;
          epoch_fits = top;
        }

pub IsVerified-IsSound :
    (env : Env) {s s' : Store}
    → env.random ≤ max_dec
    → IsLogged s
    → IsVerified env s s'
    → IsSound s'
IsVerified-IsSound env fits h (kept same e) = rw e (record {
  numbered = h.numbered;
  distinct = h.distinct;
  counted = sym same;
  bounded = rw (← same) h.fits;
  epoch_stored = h.epoch_stored;
  epoch_pos = h.epoch_pos;
  epoch_fits = h.epoch_fits;
})
IsVerified-IsSound env fits h (replayed d ne p e) =
    let (drawn, pos, top) = new_epoch-eq-ok env d fits p in
    rw e (record {
      numbered = h.numbered;
      distinct = h.distinct;
      counted = refl;
      bounded = h.fits;
      epoch_stored = refl;
      epoch_pos = pos;
      epoch_fits = top;
    })

-- A rotation keeps the log and the devices, whether it fails or not.
pub bump_epoch-kept :
    (env : Env) (s : Store)
    → ((bump_epoch env s).0.tables.ops ≡ s.tables.ops)
      × ((bump_epoch env s).0.tables.devices ≡ s.tables.devices)
unfolding bump_epoch
bump_epoch-kept env s = go (do e ← new_epoch env; run env update_epoch; ok e)
  where
    go :
        (o : Result Fault ℕ)
        → ((rotated s o).0.tables.ops ≡ s.tables.ops)
          × ((rotated s o).0.tables.devices ≡ s.tables.devices)
    go (err f) = (refl, refl)
    go (ok e) = (refl, refl)
