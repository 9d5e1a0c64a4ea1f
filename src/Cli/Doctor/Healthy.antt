-- ===== src/Cli/Doctor/Healthy.antt =====
-- When `doctor` exits with 0.
use claude_mem_lan_sync.Prelude.{
  ℕ, ◌≡◌, ◌≢◌, refl, sym, ◌∙◌, ◌⊎◌, inl, inr, true, false, not, List, [], ◌∷◌, Option, none, some,
  Bytes, is_empty, All, arith, if-keeps, Bool-cases, Option-cases,
}
use claude_mem_lan_sync.Proto.Fields.{Fields, field}
use claude_mem_lan_sync.Settings.{value}
use claude_mem_lan_sync.Cli.Connect.{key_hub_url, key_token, key_user_id, key_ws}
use claude_mem_lan_sync.Cli.Doctor.{
  Check, claude_mem_installed, Machine, StatusResult, hub_status, cross, Report, current_of,
  settings_check, is_unconfigured, configured_check, synced_keys, keys_in, shadowing_keys,
  shadow_report, conflict_check, device_id_key, database_check, reached, hub_check, gathered,
  reports, concluded, run_doctor,
}
use claude_mem_lan_sync.Cli.Connect.Faults.{or_false, not-false}
use claude_mem_lan_sync.Cli.Doctor.Marks.{has_cross, reports-IsMarked}

-- None of the five keys that doctor looks for is in the settings of Claude Code. Settings without a path,
-- or that cannot be read, have none of them.
pub data IsUnshadowed (m : Machine) : Type 0 where
  no_path : m.has_code_path ≡ false → IsUnshadowed m
  unreadable : m.code_env ≡ none → IsUnshadowed m
  no_keys :
      (env : Fields)
      → m.code_env ≡ some env
      → All
          (λ k. field env k ≡ none)
          (key_hub_url ∷ key_token ∷ key_user_id ∷ key_ws ∷ device_id_key ∷ [])
      → IsUnshadowed m

-- The sync is configured, nothing overrides it, and the hub answers to the credentials.
pub record IsHealthy (m : Machine) : Type 0 where
  pub present : m.has_database ≡ true
  pub current : Fields
  pub readable : m.settings ≡ some current
  pub has_url : is_empty (value current key_hub_url) ≡ false
  pub has_token : is_empty (value current key_token) ≡ false
  pub has_user : is_empty (value current key_user_id) ≡ false
  pub not_shadowed : IsUnshadowed m
  pub opened : m.opens ≡ true
  pub answer : StatusResult
  pub answers :
      hub_status m (value current key_hub_url) (value current key_user_id) (value current key_token)
      ≡ some answer

settings_check_ok :
    (settings : Option Fields)
    → (settings_check settings).1 ≡ false
    → settings ≡ some (current_of settings)
settings_check_ok none h = absurd cc
settings_check_ok (some current) h = refl

configured_check_ok :
    (current : Fields) → (configured_check current).1 ≡ false → is_unconfigured current ≡ false
configured_check_ok current h = elim (Bool-cases (is_unconfigured current)) [
  | inl e ↦ let fails : (configured_check current).1 ≡ true = rw e refl in absurd cc
  | inr e ↦ e
]

keys_in-nil :
    (env : Fields) (ks : List Bytes) → keys_in env ks ≡ [] → All (λ k. field env k ≡ none) ks
unfolding keys_in
keys_in-nil env [] h = tt
keys_in-nil env (k ∷ ks) h = elim (Option-cases (field env k)) [
  | inl absent ↦
      let same : keys_in env (k ∷ ks) ≡ keys_in env ks = rw absent refl in
      (absent, keys_in-nil env ks (sym same ∙ h))
  | inr (raw, present) ↦
      let kept : keys_in env (k ∷ ks) ≡ k ∷ keys_in env ks = rw present refl in absurd cc
]

shadow_report_ok : (keys : List Bytes) → (shadow_report keys).1 ≡ false → keys ≡ []
shadow_report_ok [] h = refl
shadow_report_ok (_ ∷ _) h = absurd cc

shadowing_keys_ok :
    (m : Machine) (env : Option Fields)
    → m.code_env ≡ env
    → shadowing_keys env ≡ []
    → IsUnshadowed m
shadowing_keys_ok m none e h = unreadable e
shadowing_keys_ok m (some env) e h = no_keys env e (keys_in-nil env synced_keys h)

conflict_check_ok : (m : Machine) → (conflict_check m).1 ≡ false → IsUnshadowed m
conflict_check_ok m h = elim (Bool-cases m.has_code_path) [
  | inl e ↦
      let same : (conflict_check m).1 ≡ (shadow_report (shadowing_keys m.code_env)).1 = rw e refl in
      shadowing_keys_ok m m.code_env refl
        (shadow_report_ok (shadowing_keys m.code_env) (sym same ∙ h))
  | inr e ↦ no_path e
]

database_check_ok : (m : Machine) → (database_check m).1 ≡ false → m.opens ≡ true
database_check_ok m h = elim (Bool-cases m.opens) [
  | inl e ↦ e
  | inr e ↦ let fails : (database_check m).1 ≡ true = rw e refl in absurd cc
]

reached_ok : (r : Option StatusResult) → (reached r).1 ≡ false → (a : StatusResult) × (r ≡ some a)
reached_ok none h = absurd cc
reached_ok (some a) h = (a, refl)

gathered_ok : (rs : List Report) → (gathered rs).1 ≡ false → All (λ r. r.1 ≡ false) rs
unfolding gathered
gathered_ok [] h = tt
gathered_ok (r ∷ rs) h =
    let (first, more) = or_false (r.1) ((gathered rs).1) h in (first, gathered_ok rs more)

reports_ok : (m : Machine) → m.has_database ≡ true → (gathered (reports m)).1 ≡ false → IsHealthy m
reports_ok m present passed =
    let current : Fields = current_of m.settings in
    let (_, (settings, (configured, (_, (conflict, (database, (hub, _))))))) =
      gathered_ok (reports m) passed in
    let complete = configured_check_ok current configured in
    let (url, more) = or_false (is_empty (value current key_hub_url)) _ complete in
    let (token, user) = or_false (is_empty (value current key_token)) _ more in
    let asked : (hub_check m current).1
        ≡ (reached (
            hub_status m (value current key_hub_url) (value current key_user_id)
              (value current key_token))).1 =
      rw complete refl in
    let (answer, answers) =
      reached_ok
        (hub_status m (value current key_hub_url) (value current key_user_id)
          (value current key_token))
        (sym asked ∙ hub) in
    record {
      present = present;
      current = current;
      readable = settings_check_ok m.settings settings;
      has_url = url;
      has_token = token;
      has_user = user;
      not_shadowed = conflict_check_ok m conflict;
      opened = database_check_ok m database;
      answer = answer;
      answers = answers;
    }

-- What the exit status tells of the machine and of the checks that are written.
abbrev pub IsVerdict : Machine → List Check × ℕ → Type 0
IsVerdict m (cs, status) =
    (status ≡ 0 → (has_cross cs ≡ false) × IsHealthy m)
    × (status ≢ 0 → (cs ≡ []) ⊎ (has_cross cs ≡ true))

concluded-IsVerdict :
    (m : Machine) (r : Report)
    → has_cross r.0 ≡ r.1
    → (r.1 ≡ false → IsHealthy m)
    → IsVerdict m (concluded r)
concluded-IsVerdict m (cs, false) marked healthy =
    (λ _. (marked, healthy refl), λ fails. absurd (fails refl))
concluded-IsVerdict m (cs, true) marked healthy = (λ e. absurd (omega arith), λ _. inr marked)

refused-IsVerdict :
    (m : Machine) (cs : List Check) → (cs ≡ []) ⊎ (has_cross cs ≡ true) → IsVerdict m (cs, 1)
refused-IsVerdict m cs shown = (λ e. absurd (omega arith), λ _. shown)

-- If doctor exits with 0, then no check that it writes has a cross, there is a database that can be
-- opened, the settings can be read and have an address, a key and an id, the hub answers to these
-- credentials, and the settings of Claude Code have no path, cannot be read, or have none of the five keys
-- of the address, the key, the user, the WebSocket and the device id. If it exits with another status and
-- has written anything, then one of the checks has a cross.
pub run_doctor-IsVerdict : (m : Machine) → IsVerdict m (run_doctor m)
unfolding run_doctor has_cross
run_doctor-IsVerdict m =
    if-keeps (IsVerdict m) (not m.has_mem_dir) _ _ (λ _. refused-IsVerdict m [] (inl refl))
      λ _.
        if-keeps (IsVerdict m) (not m.has_database) _ _
          (λ _. refused-IsVerdict m (cross claude_mem_installed ∷ []) (inr refl))
          λ here.
            concluded-IsVerdict m (gathered (reports m)) (reports-IsMarked m)
              (reports_ok m (not-false m.has_database here))
