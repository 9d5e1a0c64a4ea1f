-- ===== src/Cli/Doctor.antt =====
-- internal/cli/doctor.go and status.go, and `Status` of hubclient.go: what is wrong with the sync.
pub mod Marks
pub mod Healthy
mod Examples
use claude_mem_lan_sync.Prelude.{
  ℕ, Bool, true, false, not, ◌&&◌, ◌||◌, List, [], ◌∷◌, ◌++◌, Option, none, some, if◌then◌else◌,
  ◌==◌, Bytes, bytes_eq, codes, is_empty,
}
use claude_mem_lan_sync.Proto.Fields.{Fields, field, is_some}
use claude_mem_lan_sync.Settings.{value}
use claude_mem_lan_sync.Cli.Connect.{key_hub_url, key_token, key_user_id, key_ws, trim_slashes}

abbrev pub device_id_key : Bytes
device_id_key = codes "CLAUDE_MEM_CLOUD_SYNC_DEVICE_ID"

pub data CheckLabel : Type 0 where
  claude_mem_installed database_found settings_readable sync_configured device_id device_id_present
        no_conflict database_readable worker_up worker_down local_queue hub_reachable
        websocket_off :
      CheckLabel

pub record Check : Type 0 where
  pub ok : Bool
  pub warn : Bool
  pub label : CheckLabel

-- The answer to `GET /v1/sync/status`: its status, the epoch and the head if the body is JSON, and the
-- header X-Sync-Mode.
pub record StatusReply : Type 0 where
  pub status : ℕ
  pub body : Option (Bytes × Bytes)
  pub sync_mode : Bytes

pub record StatusResult : Type 0 where
  pub epoch : Bytes
  pub head_seq : Bytes
  pub sync_mode : Bytes

-- What a machine is like. `settings` is none if they cannot be read; `code_env` are the variables in the
-- settings of Claude Code, of which the path may be unknown; `pending` is none if a query fails. `get`
-- is asked with an address, an id and a key, and is none if the request fails.
pub record Machine : Type 0 where
  pub has_mem_dir : Bool
  pub has_database : Bool
  pub settings : Option Fields
  pub has_code_path : Bool
  pub code_env : Option Fields
  pub opens : Bool
  pub worker : Bool
  pub pending : Option ℕ
  pub get : Bytes → Bytes → Bytes → Option StatusReply

abbrev pub decoded_status : Bytes → Option (Bytes × Bytes) → Option StatusResult
decoded_status mode none = none
decoded_status mode (some (epoch, head)) =
    some (record { epoch = epoch; head_seq = head; sync_mode = mode })

abbrev pub status_result : Option StatusReply → Option StatusResult
status_result none = none
status_result (some r) =
    if r.status == 401 || r.status == 403
    then none
    else if not (r.status == 200)
    then none
    else decoded_status r.sync_mode r.body

-- `httpHubClient.Status`
unfoldable pub hub_status : Machine → Bytes → Bytes → Bytes → Option StatusResult
hub_status m url user token =
    status_result (m.get (trim_slashes url ++ codes "/v1/sync/status") user token)

abbrev pub tick : CheckLabel → Check
tick l = record { ok = true; warn = false; label = l }

abbrev pub warning : CheckLabel → Check
warning l = record { ok = false; warn = true; label = l }

abbrev pub cross : CheckLabel → Check
cross l = record { ok = false; warn = false; label = l }

-- The checks so far, and `failed`.
abbrev pub Report : Type 0
Report = List Check × Bool

abbrev pub also : Report → Report → Report
also (cs, f) (cs', f') = (cs ++ cs', f || f')

abbrev pub current_of : Option Fields → Fields
current_of none = []
current_of (some current) = current

abbrev pub settings_check : Option Fields → Report
settings_check none = (cross settings_readable ∷ [], true)
settings_check (some current) = ([], false)

abbrev pub is_unconfigured : Fields → Bool
is_unconfigured current =
    is_empty (value current key_hub_url)
    || (is_empty (value current key_token) || is_empty (value current key_user_id))

abbrev pub configured_check : Fields → Report
configured_check current =
    if is_unconfigured current
    then (cross sync_configured ∷ [], true)
    else (tick sync_configured ∷ [], false)

abbrev pub device_check : Fields → Report
device_check current =
    if is_empty (value current device_id_key)
    then (warning device_id ∷ [], false)
    else (tick device_id_present ∷ [], false)

abbrev pub synced_keys : List Bytes
synced_keys = key_hub_url ∷ key_token ∷ key_user_id ∷ key_ws ∷ device_id_key ∷ []

-- The loop of `shadowingKeys`.
unfoldable pub keys_in : Fields → List Bytes → List Bytes
keys_in env [] = []
keys_in env (k ∷ ks) = let rest = keys_in env ks in if is_some (field env k) then k ∷ rest else rest

abbrev pub shadowing_keys : Option Fields → List Bytes
shadowing_keys none = []
shadowing_keys (some env) = keys_in env synced_keys

abbrev pub shadow_report : List Bytes → Report
shadow_report [] = (tick no_conflict ∷ [], false)
shadow_report (_ ∷ _) = (cross no_conflict ∷ [], true)

abbrev pub conflict_check : Machine → Report
conflict_check m =
    if m.has_code_path then shadow_report (shadowing_keys m.code_env) else ([], false)

abbrev pub queue_check : Option ℕ → List Check
queue_check none = []
queue_check (some _) = tick local_queue ∷ []

abbrev pub database_check : Machine → Report
database_check m =
    if m.opens
    then ((if m.worker then tick worker_up else warning worker_down) ∷ queue_check m.pending, false)
    else (cross database_readable ∷ [], true)

abbrev pub reached : Option StatusResult → Report
reached none = (cross hub_reachable ∷ [], true)
reached (some r) = (
  tick hub_reachable
      ∷ (if bytes_eq r.sync_mode (codes "poll") then tick websocket_off ∷ [] else []),
  false,
)

abbrev pub hub_check : Machine → Fields → Report
hub_check m current =
    if is_unconfigured current
    then ([], false)
    else reached (
        hub_status m (value current key_hub_url) (value current key_user_id)
          (value current key_token))

unfoldable pub gathered : List Report → Report
gathered [] = ([], false)
gathered (r ∷ rs) = also r (gathered rs)

-- All checks behind that for the database, in their order.
abbrev pub reports : Machine → List Report
reports m =
    let current = current_of m.settings in
    (tick database_found ∷ [], false)
    ∷ settings_check m.settings
    ∷ configured_check current
    ∷ device_check current
    ∷ conflict_check m
    ∷ database_check m
    ∷ hub_check m current
    ∷ []

abbrev pub concluded : Report → List Check × ℕ
concluded (cs, failed) = (cs, if failed then 1 else 0)

-- `runDoctor` behind the reading of the flags: the checks that are written, and the exit status.
unfoldable pub run_doctor : Machine → List Check × ℕ
run_doctor m =
    if not m.has_mem_dir
    then ([], 1)
    else if not m.has_database
    then (cross claude_mem_installed ∷ [], 1)
    else concluded (gathered (reports m))

abbrev pub reach_status : Option StatusResult → ℕ
reach_status none = 1
reach_status (some _) = 0

abbrev pub status_with : Machine → Option Fields → ℕ
status_with m none = 1
status_with m (some current) =
    if is_empty (value current key_hub_url)
    then 0
    else reach_status (
        hub_status m (value current key_hub_url) (value current key_user_id)
          (value current key_token))

-- The exit status of `runStatus` behind the reading of the flags.
unfoldable pub run_status : Machine → ℕ
run_status m = if not m.has_mem_dir then 1 else status_with m m.settings
