-- ===== src/Store/Devices.antt =====
-- internal/store/devices.go: the devices that the hub has seen, and their revocation.
pub mod Access
use claude_mem_lan_sync.Prelude.{
  ℕ, suc, Bool, true, false, ◌&&◌, List, [], ◌∷◌, Option, none, some, if◌then◌else◌, leb, Bytes,
  bytes_eq, take, Result, ok, err, ◌>>=◌, ◌>>◌, ◌+◌, ◌==◌, ltb, not, map,
}
use claude_mem_lan_sync.Proto.Errors.{Fault, other}
use claude_mem_lan_sync.Store.Env.{
  Env, run, check_revoked, begin, upsert, commit, revoke_update, list_query,
}
use claude_mem_lan_sync.Store.Tables.{DeviceRow, Tables, Store}

abbrev pub max_device_name_len : ℕ
max_device_name_len = 80

-- `INSERT INTO devices … ON CONFLICT(user_id, device_id) DO UPDATE SET device_name, last_seen`
unfoldable pub upsert_row : Bytes → Bytes → ℕ → List DeviceRow → List DeviceRow
upsert_row id name now [] =
    record {
      device_id = id;
      device_name = name;
      first_seen = now;
      last_seen = now;
      revoked_at = none;
    }
    ∷ []
upsert_row id name now (d ∷ ds) =
    if bytes_eq d.device_id id
    then record d { device_name = name; last_seen = now } ∷ ds
    else d ∷ upsert_row id name now ds

unfoldable pub upsert_device : Env → Bytes → Bytes → List DeviceRow → Result Fault (List DeviceRow)
upsert_device env [] name ds = ok ds
upsert_device env (c ∷ id) name ds = do
  run env upsert
  ok (upsert_row (c ∷ id) (take max_device_name_len name) env.now ds)

-- `SELECT revoked_at FROM devices WHERE user_id = ? AND device_id = ?`
unfoldable pub revoked_at : Bytes → List DeviceRow → Option ℕ
revoked_at id [] = none
revoked_at id (d ∷ ds) = if bytes_eq d.device_id id then d.revoked_at else revoked_at id ds

abbrev pub is_valid : Option ℕ → Bool
is_valid none = false
is_valid (some _) = true

-- `DeviceRevoked`: an unknown device is not revoked.
unfoldable pub device_revoked : Env → Store → Bytes → Result Fault Bool
device_revoked env s [] = ok false
device_revoked env s (c ∷ id) = do
  run env check_revoked
  ok (is_valid (revoked_at (c ∷ id) s.tables.devices))

unfoldable pub seen_tx : Env → Store → Bytes → Bytes → Result Fault Tables
seen_tx env s id name = do
  run env begin
  ds ← upsert_device env id name s.tables.devices
  run env commit
  ok (record s.tables { devices = ds })

-- What an uncommitted transaction wrote is rolled back.
abbrev pub settle : Store → Result Fault Tables → Store × Result Fault (Unit {0})
settle s (ok t) = (record s { tables = t }, ok tt)
settle s (err e) = (s, err e)

-- `SeenDevice`
unfoldable pub seen_device : Env → Store → Bytes → Bytes → Store × Result Fault (Unit {0})
unfolding seen_tx
seen_device env s [] name = (s, ok tt)
seen_device env s (c ∷ id) name = settle s (seen_tx env s (c ∷ id) name)

abbrev is_active : Bytes → DeviceRow → Bool
is_active id d = bytes_eq d.device_id id && not (is_valid d.revoked_at)

-- `UPDATE devices SET revoked_at = ? WHERE device_id = ? AND revoked_at IS NULL`
unfoldable pub revoke_rows : Bytes → ℕ → List DeviceRow → List DeviceRow
revoke_rows id now [] = []
revoke_rows id now (d ∷ ds) =
    (if is_active id d then record d { revoked_at = some now } else d) ∷ revoke_rows id now ds

-- The number of rows that the update affects.
unfoldable pub rows_affected : Bytes → List DeviceRow → ℕ
rows_affected id [] = 0
rows_affected id (d ∷ ds) = (if is_active id d then 1 else 0) + rows_affected id ds

-- `RevokeDevice`
unfoldable pub revoke_device : Env → Store → Bytes → Store × Result Fault (Unit {0})
unfolding revoke_rows rows_affected
revoke_device env s id =
    if env.fails revoke_update
    then (s, err other)
    else if rows_affected id s.tables.devices == 0
    then (s, err other)
    else (
      record s { tables = record s.tables { devices = revoke_rows id env.now s.tables.devices } },
      ok tt,
    )

-- `ListDevices`: `ORDER BY last_seen DESC`, by insertion.
insert_by_last_seen : DeviceRow → List DeviceRow → List DeviceRow
insert_by_last_seen d [] = d ∷ []
insert_by_last_seen d (e ∷ es) =
    if ltb d.last_seen e.last_seen then e ∷ insert_by_last_seen d es else d ∷ e ∷ es

pub order_by_last_seen : List DeviceRow → List DeviceRow
unfolding insert_by_last_seen
order_by_last_seen [] = []
order_by_last_seen (d ∷ ds) = insert_by_last_seen d (order_by_last_seen ds)

pub record Device : Type 0 where
  pub id : Bytes
  pub name : Bytes
  pub first_seen : ℕ
  pub last_seen : ℕ
  pub revoked : Bool

abbrev device_of : DeviceRow → Device
device_of d = record {
  id = d.device_id;
  name = d.device_name;
  first_seen = d.first_seen;
  last_seen = d.last_seen;
  revoked = is_valid d.revoked_at;
}

pub list_devices : Env → Store → Result Fault (List Device)
unfolding order_by_last_seen
list_devices env s = do run env list_query; ok (map device_of (order_by_last_seen s.tables.devices))
