-- ===== src/Cli/Connect.antt =====
-- internal/cli/connect.go: a machine is told which hub it syncs with. And `redeem` of hubclient.go.
pub mod Faults
pub mod Checks
pub mod Effect
mod Examples
use claude_mem_lan_sync.Prelude.{
  ℕ, zero, suc, Bool, true, false, not, ◌&&◌, ◌||◌, List, [], ◌∷◌, ◌++◌, Option, none, some,
  if◌then◌else◌, ◌==◌, Bytes, bytes_eq, codes, Result, ok, err, ◌>>=◌, is_empty, trim_space,
}
use claude_mem_lan_sync.Proto.Fields.{Fields}
use claude_mem_lan_sync.Pair.Keys.{Keys, fingerprint}
use claude_mem_lan_sync.Hub.Server.{equal_fold}
use claude_mem_lan_sync.Settings.{SettingsDir, SettingsEnv, SettingsError, update}
use claude_mem_lan_sync.Settings.Backups.{BackupError, restore, latest_backup}

abbrev pub key_hub_url : Bytes
key_hub_url = codes "CLAUDE_MEM_CLOUD_SYNC_HUB_URL"

abbrev pub key_token : Bytes
key_token = codes "CLAUDE_MEM_CLOUD_SYNC_TOKEN"

abbrev pub key_user_id : Bytes
key_user_id = codes "CLAUDE_MEM_CLOUD_SYNC_USER_ID"

abbrev pub key_device_name : Bytes
key_device_name = codes "CLAUDE_MEM_CLOUD_SYNC_DEVICE_NAME"

abbrev pub key_ws : Bytes
key_ws = codes "CLAUDE_MEM_CLOUD_SYNC_WS"

pub record ConnectFlags : Type 0 where
  pub code : Bytes
  pub token : Bytes
  pub user_id : Bytes
  pub expected : Bytes
  pub yes : Bool
  pub device_name : Bytes
  pub undo : Bool

-- The answer to `POST /pair`: none if the request fails; else the status and, if the body can be
-- decoded, the token and the user id in it.
pub record PairReply : Type 0 where
  pub status : ℕ
  pub body : Option (Bytes × Bytes)

-- What is outside of the command. `post` is asked with the address and the code; `matches` are the
-- backups that `Glob` finds, and `stamp_of` is the time in the name of one.
pub record Surroundings : Type 0 where
  pub has_settings_path : Bool
  pub browse : Option (List Bytes)
  pub post : Bytes → Bytes → Option PairReply
  pub hostname : Option Bytes
  pub settings_env : SettingsEnv
  pub matches : List (Bytes × Option ℕ)
  pub stamp_of : Bytes → ℕ
  pub restore_fails : Bool

-- What a run leaves: the settings, the requests for pairing, each with its address and code, and the
-- exit status.
pub record ConnectOutcome : Type 0 where
  pub dir : SettingsDir
  pub asked : List (Bytes × Bytes)
  pub status : ℕ

-- `strings.TrimRight(s, "/")`
unfoldable pub trim_slashes : Bytes → Bytes
trim_slashes [] = []
trim_slashes (c ∷ s) =
    let rest = trim_slashes s in if c == b'/' && is_empty rest then [] else c ∷ rest

-- `hostname`
abbrev pub hostname_or : Option Bytes → Bytes
hostname_or none = codes "unknown"
hostname_or (some h) = if is_empty h then codes "unknown" else h

-- `discoverHub`, whose errors exit with 1.
abbrev pub single_hub : Option (List Bytes) → Result ℕ Bytes
single_hub none = err 1
single_hub (some []) = err 1
single_hub (some (url ∷ [])) = ok url
single_hub (some (_ ∷ _ ∷ _)) = err 1

-- The address of the hub, or the exit status.
abbrev pub hub_address : Surroundings → ConnectFlags → List Bytes → Result ℕ Bytes
hub_address world flags [] = if not (is_empty flags.code) then err 2 else single_hub world.browse
hub_address world flags (url ∷ []) = ok (trim_slashes url)
hub_address world flags (_ ∷ _ ∷ _) = err 2

abbrev pub complete_pair : Bytes × Bytes → Result ℕ (Bytes × Bytes)
complete_pair (token, user) = if is_empty token || is_empty user then err 1 else ok (token, user)

abbrev pub decoded_pair : Option (Bytes × Bytes) → Result ℕ (Bytes × Bytes)
decoded_pair none = err 1
decoded_pair (some pair) = complete_pair pair

abbrev pub pair_result : Option PairReply → Result ℕ (Bytes × Bytes)
pair_result none = err 1
pair_result (some reply) = if not (reply.status == 200) then err 1 else decoded_pair reply.body

-- `redeem`, whose errors exit with 1.
unfoldable pub redeem_at : Surroundings → Bytes → Bytes → Result ℕ (Bytes × Bytes)
redeem_at world url code = pair_result (world.post (trim_slashes url ++ codes "/pair") code)

abbrev pub updates : Bytes → Bytes → Bytes → Bytes → List (Bytes × Bytes)
updates url token user name =
    (key_hub_url, url)
    ∷ (key_token, token)
    ∷ (key_user_id, user)
    ∷ (key_device_name, name)
    ∷ (key_ws, codes "false")
    ∷ []

abbrev pub name_or_hostname : Surroundings → ConnectFlags → Bytes
name_or_hostname world flags =
    if is_empty flags.device_name then hostname_or world.hostname else flags.device_name

abbrev pub lacks_fingerprint : ConnectFlags → Bool
lacks_fingerprint flags = is_empty flags.expected && not flags.yes

abbrev pub exit_status {ℓ} : {E A : Type ℓ} → Result E A → ℕ
exit_status (err _) = 1
exit_status (ok _) = 0

-- `--undo`
abbrev pub restore_named : Surroundings → SettingsDir → Result BackupError Bytes → ConnectOutcome
restore_named world d (err _) = record { dir = d; asked = []; status = 1 }
restore_named world d (ok name) =
    let out = restore world.settings_env.now world.restore_fails d (world.stamp_of name) in
    record { dir = out.0; asked = []; status = exit_status out.1 }

-- `sha256_base64` is that of `Keys.fingerprint`.
abbrev pub mismatches : (Bytes → Bytes) → ConnectFlags → Bytes → Bool
mismatches sha256_base64 flags token =
    not (is_empty flags.expected)
    && not (
        equal_fold (trim_space flags.expected) (fingerprint sha256_base64 (record { psk = token })))

-- The parameters encode and decode the settings.
module _ (decode : Bytes → Option Fields) (encode : Fields → Option Bytes)
    (marshal : Bytes → Option Bytes) where
  abbrev pub write_settings :
      Surroundings → SettingsDir → List (Bytes × Bytes) → List (Bytes × Bytes) → ConnectOutcome
  write_settings world d asked kv =
      let out = update decode encode marshal world.settings_env kv d in
      record { dir = out.0; asked = asked; status = exit_status out.1 }

module _ (sha256_base64 : Bytes → Bytes) (decode : Bytes → Option Fields)
    (encode : Fields → Option Bytes) (marshal : Bytes → Option Bytes) where
  -- From the key and the user id on.
  unfoldable pub configure :
      Surroundings
      → ConnectFlags
      → SettingsDir
      → List (Bytes × Bytes)
      → Bytes
      → Result ℕ (Bytes × Bytes)
      → ConnectOutcome
  configure world flags d asked url (err status) = record {
    dir = d;
    asked = asked;
    status = status;
  }
  configure world flags d asked url (ok (token, user)) =
      if is_empty token || is_empty user
      then record { dir = d; asked = asked; status = 2 }
      else if mismatches sha256_base64 flags token
      then record { dir = d; asked = asked; status = 1 }
      else write_settings decode encode marshal world d asked
          (updates url token user (name_or_hostname world flags))

  -- From the address on.
  unfoldable pub connect_to :
      Surroundings → ConnectFlags → SettingsDir → Result ℕ Bytes → ConnectOutcome
  connect_to world flags d (err status) = record { dir = d; asked = []; status = status }
  connect_to world flags d (ok url) =
      if lacks_fingerprint flags
      then record { dir = d; asked = []; status = 2 }
      else if not (is_empty flags.code)
      then configure world flags d ((url, flags.code) ∷ []) url (redeem_at world url flags.code)
      else configure world flags d [] url (ok (flags.token, flags.user_id))

  -- `runConnect` behind the reading of the flags, and without the restart of the worker.
  unfoldable pub run_connect :
      Surroundings → ConnectFlags → List Bytes → SettingsDir → ConnectOutcome
  run_connect world flags args d =
      if not world.has_settings_path
      then record { dir = d; asked = []; status = 1 }
      else if flags.undo
      then restore_named world d (latest_backup world.matches)
      else connect_to world flags d (hub_address world flags args)
