-- ===== src/Cli/Doctor/Examples.antt =====
-- A machine in order, and what may be wrong with it.
use claude_mem_lan_sync.Prelude.{
  ◌≡◌, refl, true, [], ◌∷◌, none, some, if◌then◌else◌, bytes_eq, codes,
}
use claude_mem_lan_sync.Proto.Json.{unmarshal_string}
use claude_mem_lan_sync.Proto.Unquote.{unquote_json_string, unquote_loop, piece}
use claude_mem_lan_sync.Proto.Fields.{field}
use claude_mem_lan_sync.Settings.{value}
use claude_mem_lan_sync.Cli.Connect.{key_hub_url, key_token, key_user_id, key_ws, trim_slashes}
use claude_mem_lan_sync.Cli.Doctor.{
  Machine, tick, warning, database_found, sync_configured, device_id, no_conflict, worker_up,
  local_queue, hub_reachable, websocket_off, hub_status, keys_in, gathered, run_doctor, run_status,
}
use claude_mem_lan_sync.Cli.Doctor.Healthy.{IsVerdict, run_doctor-IsVerdict}

opens_doctor : Unit {0}
unfolding run_doctor run_status gathered keys_in hub_status trim_slashes value field bytes_eq
    unmarshal_string unquote_json_string unquote_loop piece
opens_doctor = tt

abbrev machine : Machine
machine = record {
  has_mem_dir = true;
  has_database = true;
  settings = some (
      (key_hub_url, codes "\"http://h/\"")
      ∷ (key_token, codes "\"psk\"")
      ∷ (key_user_id, codes "\"u1\"")
      ∷ []);
  has_code_path = true;
  code_env = some [];
  opens = true;
  worker = true;
  pending = some 0;
  get = λ url user token.
      if bytes_eq url (codes "http://h/v1/sync/status")
      then some
          (record { status = 200; body = some (codes "e", codes "0"); sync_mode = codes "poll" })
      else none;
}

doctor_passes : run_doctor machine ≡ (
  tick database_found
      ∷ tick sync_configured
      ∷ warning device_id
      ∷ tick no_conflict
      ∷ tick worker_up
      ∷ tick local_queue
      ∷ tick hub_reachable
      ∷ tick websocket_off
      ∷ [],
  0,
)
unfolding opens_doctor
doctor_passes = refl

-- A switch in the settings of Claude Code, and a key that the hub refuses.
doctor_fails :
    ((run_doctor (record machine { code_env = some ((key_ws, codes "\"true\"") ∷ []) })).1 ≡ 1)
    × ((run_doctor (record machine {
      get = λ _ _ _. some (record { status = 401; body = none; sync_mode = [] });
    })).1
        ≡ 1)
    × (run_status machine ≡ 0)
    × (run_status (record machine { settings = none }) ≡ 1)
unfolding opens_doctor
doctor_fails = (refl, refl, refl, refl)

run_doctor-IsVerdict_example : IsVerdict machine (run_doctor machine)
run_doctor-IsVerdict_example = run_doctor-IsVerdict machine
