-- ===== src/Store/Devices/Access.antt =====
-- Revocation: no push and no sighting gives a revoked device its access back.
use claude_mem_lan_sync.Prelude.{
  ℕ, ◌≡◌, refl, ◌≢◌, ap, ◌∙◌, Bool, true, false, List, [], ◌∷◌, Option, arith, Bytes, bytes_eq_iff,
  Result, ok, err, >>=-eq-ok, take,
}
use claude_mem_lan_sync.Proto.Errors.{Fault}
use claude_mem_lan_sync.Store.Env.{Call, Env, run, begin, commit, upsert}
use claude_mem_lan_sync.Store.Tables.{DeviceRow, Tables, Store}
use claude_mem_lan_sync.Store.Devices.{
  max_device_name_len, upsert_row, upsert_device, revoked_at, is_valid, device_revoked, seen_tx,
  seen_device, revoke_rows, rows_affected, revoke_device, settle,
}

-- A sighting leaves every revocation as it is; a new device is not revoked.
revoked_at-upsert_row :
    (id name j : Bytes) (now : ℕ) (ds : List DeviceRow)
    → revoked_at j (upsert_row id name now ds) ≡ revoked_at j ds
unfolding revoked_at upsert_row
revoked_at-upsert_row id name j now [] = ground arith
revoked_at-upsert_row id name j now (d ∷ ds) =
    ground (arith, revoked_at-upsert_row id name j now ds)

pub revoked_at-upsert_device :
    (env : Env) (id name j : Bytes) (ds ds' : List DeviceRow)
    → upsert_device env id name ds ≡ ok ds'
    → revoked_at j ds' ≡ revoked_at j ds
unfolding upsert_device
revoked_at-upsert_device env [] name j ds ds' h = ground arith
revoked_at-upsert_device env (c ∷ id) name j ds ds' h =
    ground (arith, revoked_at-upsert_row (c ∷ id) (take max_device_name_len name) j env.now ds)

pub upsert_device-total :
    (env : Env) (id name : Bytes) (ds : List DeviceRow)
    → ((c : Call) → env.fails c ≡ false)
    → (ds' : List DeviceRow) × (upsert_device env id name ds ≡ ok ds')
unfolding upsert_device
upsert_device-total env [] name ds quiet = (ds, refl)
upsert_device-total env (c ∷ id) name ds quiet =
    (upsert_row (c ∷ id) (take max_device_name_len name) env.now ds, rw (quiet upsert))

-- The update marks every active row of the device, and no row of another.
revoked_at-revoke_rows :
    (id : Bytes) (now : ℕ) (ds : List DeviceRow)
    → rows_affected id ds ≢ 0
    → is_valid (revoked_at id (revoke_rows id now ds)) ≡ true
unfolding revoked_at revoke_rows rows_affected
revoked_at-revoke_rows id now [] h = absurd (h refl)
revoked_at-revoke_rows id now (d ∷ ds) h = ground (arith, revoked_at-revoke_rows id now ds)

revoked_at-revoke_rows_ne :
    (id j : Bytes) (now : ℕ) (ds : List DeviceRow)
    → j ≢ id
    → revoked_at j (revoke_rows id now ds) ≡ revoked_at j ds
unfolding revoked_at revoke_rows
revoked_at-revoke_rows_ne id j now [] ne = refl
revoked_at-revoke_rows_ne id j now (d ∷ ds) ne = ground (
  arith,
  revoked_at-revoke_rows_ne id j now ds,
  bytes_eq_iff d.device_id id,
  bytes_eq_iff d.device_id j,
)

-- The revocation mark of a device in a store.
abbrev pub mark : Store → Bytes → Option ℕ
mark s id = revoked_at id s.tables.devices

-- A sighting changes no revocation mark.
pub mark-seen_device :
    (env : Env) (s : Store) (id name j : Bytes) → mark (seen_device env s id name).0 j ≡ mark s j
unfolding seen_device
mark-seen_device env s [] name j = refl
mark-seen_device env s (c ∷ id) name j = settled (seen_tx env s (c ∷ id) name) refl
  where
    settled :
        (o : Result Fault Tables)
        → seen_tx env s (c ∷ id) name ≡ o
        → mark (settle s o).0 j ≡ mark s j
    settled (err e) h = refl
    settled (ok t) h =
        let (_, p1, h1) = >>=-eq-ok (run env begin) _ h in
        let (ds, p2, h2) = >>=-eq-ok (upsert_device env (c ∷ id) name s.tables.devices) _ h1 in
        let (_, p3, h3) = >>=-eq-ok (run env commit) _ h2 in
        let same : t ≡ record s.tables { devices = ds } = cc in
        ap (λ (x : Tables). revoked_at j x.devices) same
        ∙ revoked_at-upsert_device env (c ∷ id) name j s.tables.devices ds p2

-- The device is marked; the mark of every other device, the log, the head counter and the epoch are
-- as they were.
pub record IsRevocation (s s' : Store) (id : Bytes) : Type 0 where
  pub marked : is_valid (mark s' id) ≡ true
  pub others : (j : Bytes) → j ≢ id → mark s' j ≡ mark s j
  pub ops : s'.tables.ops ≡ s.tables.ops
  pub meta : s'.tables.meta ≡ s.tables.meta
  pub epoch : s'.epoch ≡ s.epoch

revoke_device-eq-ok :
    (env : Env) (s : Store) (id : Bytes)
    → (revoke_device env s id).1 ≡ ok tt
    → (rows_affected id s.tables.devices ≢ 0)
      × ((revoke_device env s id).0 ≡ record s {
        tables = record s.tables { devices = revoke_rows id env.now s.tables.devices };
      })
unfolding revoke_device
revoke_device-eq-ok env s id h = (λ e. ground arith, ground arith)

-- A revocation that returns no error marks exactly this device and touches neither log nor epoch.
pub revoke_device-IsRevocation :
    (env : Env) (s : Store) (id : Bytes)
    → (revoke_device env s id).1 ≡ ok tt
    → IsRevocation s (revoke_device env s id).0 id
revoke_device-IsRevocation env s id h =
    let (found, e) = revoke_device-eq-ok env s id h in
    rw e (record {
      marked = revoked_at-revoke_rows id env.now s.tables.devices found;
      others = λ j ne. revoked_at-revoke_rows_ne id j env.now s.tables.devices ne;
      ops = refl;
      meta = refl;
      epoch = refl;
    })

-- No revocation takes a mark away.
is_valid-revoke_rows :
    (id j : Bytes) (now : ℕ) (ds : List DeviceRow)
    → is_valid (revoked_at j ds) ≡ true
    → is_valid (revoked_at j (revoke_rows id now ds)) ≡ true
unfolding revoked_at revoke_rows
is_valid-revoke_rows id j now [] h = cc
is_valid-revoke_rows id j now (d ∷ ds) h = ground (arith, is_valid-revoke_rows id j now ds)

pub mark-revoke_device :
    (env : Env) (s : Store) (id j : Bytes)
    → is_valid (mark s j) ≡ true
    → is_valid (mark (revoke_device env s id).0 j) ≡ true
unfolding revoke_device
mark-revoke_device env s id j h = ground (arith, is_valid-revoke_rows id j env.now s.tables.devices)

-- A marked device is refused: its revocation is found, or the query fails.
pub device_revoked-marked :
    (env : Env) (s : Store) (id : Bytes) (b : Bool)
    → is_valid (mark s id) ≡ true
    → id ≢ []
    → device_revoked env s id ≡ ok b
    → b ≡ true
unfolding device_revoked
device_revoked-marked env s [] b h ne e = absurd (ne refl)
device_revoked-marked env s (c ∷ id) b h ne e = ground arith

-- The log, the head counter and the epoch are as they were.
pub record IsKept (s t : Store) : Type 0 where
  pub ops : t.tables.ops ≡ s.tables.ops
  pub meta : t.tables.meta ≡ s.tables.meta
  pub epoch : t.epoch ≡ s.epoch

pub seen_device-IsKept :
    (env : Env) (s : Store) (id name : Bytes) → IsKept s (seen_device env s id name).0
unfolding seen_device
seen_device-IsKept env s [] name = record { ops = refl; meta = refl; epoch = refl }
seen_device-IsKept env s (c ∷ id) name = settled (seen_tx env s (c ∷ id) name) refl
  where
    settled : (o : Result Fault Tables) → seen_tx env s (c ∷ id) name ≡ o → IsKept s (settle s o).0
    settled (err e) h = record { ops = refl; meta = refl; epoch = refl }
    settled (ok t) h =
        let (_, p1, h1) = >>=-eq-ok (run env begin) _ h in
        let (ds, p2, h2) = >>=-eq-ok (upsert_device env (c ∷ id) name s.tables.devices) _ h1 in
        let (_, p3, h3) = >>=-eq-ok (run env commit) _ h2 in
        let same : t ≡ record s.tables { devices = ds } = cc in
        record {
          ops = ap (λ (x : Tables). x.ops) same;
          meta = ap (λ (x : Tables). x.meta) same;
          epoch = refl;
        }

pub revoke_device-IsKept :
    (env : Env) (s : Store) (id : Bytes) → IsKept s (revoke_device env s id).0
unfolding revoke_device
revoke_device-IsKept env s id = record {
  ops = ground arith;
  meta = ground arith;
  epoch = ground arith;
}
