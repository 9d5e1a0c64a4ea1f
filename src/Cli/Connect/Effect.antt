-- ===== src/Cli/Connect/Effect.antt =====
-- What the settings say after a machine has been connected.
use claude_mem_lan_sync.Prelude.{
  ℕ, ◌≡◌, ap, List, Option, some, Bytes, bytes_eq, codes, Result, ok, All, arith,
}
use claude_mem_lan_sync.Proto.Fields.{Fields}
use claude_mem_lan_sync.Settings.{SettingsDir, SettingsError, SettingsEnv, value, read_file, update}
use claude_mem_lan_sync.Settings.Merge.{or_text, wanted, IsReadBack}
use claude_mem_lan_sync.Settings.Update.{IsFaithful, IsUpdated, kept, merged, update-IsUpdated}
use claude_mem_lan_sync.Cli.Connect.{
  key_hub_url, key_token, key_user_id, key_device_name, key_ws, Surroundings, updates, exit_status,
  write_settings,
}

abbrev pub key_device_id : Bytes
key_device_id = codes "CLAUDE_MEM_CLOUD_SYNC_DEVICE_ID"

-- The new file has the five settings, and of the settings `current` that were read the device id.
pub record IsConfigured (url token user name : Bytes) (current m : Fields) : Type 0 where
  pub hub_url : value m key_hub_url ≡ url
  pub has_token : value m key_token ≡ token
  pub has_user : value m key_user_id ≡ user
  pub has_name : value m key_device_name ≡ name
  pub polls : value m key_ws ≡ codes "false"
  pub keeps_device_id : value m key_device_id ≡ value current key_device_id

module _ (decode : Bytes → Option Fields) (encode : Fields → Option Bytes)
    (marshal : Bytes → Option Bytes) where
  -- The settings are those of `current` with the new ones.
  abbrev pub IsWritten :
      SettingsEnv → SettingsDir → Bytes → Bytes → Bytes → Bytes → SettingsDir → Type 0
  IsWritten env before url token user name after =
      (current : Fields) × (content : Bytes) × (m : Fields) × (read_file decode env before.file
        ≡ ok current)
      × (after.file ≡ some (record { content = content; modified = env.now }))
      × (decode content ≡ some m)
      × IsConfigured url token user name current m

  says-IsConfigured :
      (url token user name : Bytes) (current m : Fields)
      → ((key : Bytes)
          → value m key ≡ or_text (wanted (updates url token user name) key) (value current key))
      → IsConfigured url token user name current m
  unfolding wanted bytes_eq
  says-IsConfigured url token user name current m says = record {
    hub_url = says key_hub_url;
    has_token = says key_token;
    has_user = says key_user_id;
    has_name = says key_device_name;
    polls = says key_ws;
    keeps_device_id = says key_device_id;
  }

  -- If the writing of the settings exits with 0, and JSON is read back as it was written, then the new
  -- file has the address, the key, the id, the name and the switch that turns the WebSocket off, and it
  -- keeps the device id of the settings that were read, which is part of the ids of this machine's
  -- operations.
  pub write_settings-IsWritten :
      (world : Surroundings) (d : SettingsDir) (asked : List (Bytes × Bytes))
      (url token user name : Bytes)
      → IsFaithful decode encode marshal (updates url token user name)
      → All (IsReadBack marshal) (updates url token user name)
      → (write_settings decode encode marshal world d asked (updates url token user name)).status
        ≡ 0
      → IsWritten world.settings_env d url token user name
          ((write_settings decode encode marshal world d asked (updates url token user name)).dir)
  write_settings-IsWritten world d asked url token user name faithful good done =
      let env : SettingsEnv = world.settings_env in
      let kv : List (Bytes × Bytes) = updates url token user name in
      read_outcome (update decode encode marshal env kv d)
        (update-IsUpdated decode encode marshal kv faithful good env d) done
    where
      read_outcome :
          (out : SettingsDir × Result SettingsError ℕ)
          → IsUpdated decode encode world.settings_env (updates url token user name) d out
          → exit_status out.1 ≡ 0
          → IsWritten world.settings_env d url token user name (out.0)
      read_outcome out (kept e failed _) done' =
          let one : exit_status out.1 ≡ 1 = ap exit_status failed in
          absurd (omega (arith, one, done'))
      read_outcome out (merged current content reads same saved written (m, decodes, says)) done' =
          (
            current,
            content,
            m,
            reads,
            written,
            decodes,
            says-IsConfigured url token user name current m says,
          )
