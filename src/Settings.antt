-- ===== src/Settings.antt =====
-- internal/settings/settings.go: the settings file of claude-mem, which claude-mem writes as well.
pub mod Merge
pub mod Update
pub mod Backups
mod Examples
use claude_mem_lan_sync.Prelude.{
  ℕ, Bool, true, false, not, ◌&&◌, ◌||◌, List, [], ◌∷◌, ◌++◌, Option, none, some, if◌then◌else◌,
  ◌==◌, Bytes, bytes_eq, Result, ok, err, ◌>>=◌, ◌>>◌, length,
}
use claude_mem_lan_sync.Proto.Fields.{Fields, field}
use claude_mem_lan_sync.Proto.Json.{unmarshal_string}

pub record SettingsFile : Type 0 where
  pub content : Bytes
  pub modified : ℕ

-- The file, and the backups by the time in their names.
pub record SettingsDir : Type 0 where
  pub file : Option SettingsFile
  pub backups : List (ℕ × Bytes)

pub data SettingsCall : Type 0 where
  read stat read_again write_backup make_dir create_temp write chmod sync close stat_again rename :
      SettingsCall

pub data SettingsError : Type 0 where
  call_failed not_json not_encoded changed_meanwhile : SettingsError

-- What other processes make of the file between the reading and the first `Stat`, and from there to the
-- second one.
pub record SettingsEnv : Type 0 where
  pub now : ℕ
  pub fails : SettingsCall → Bool
  pub before_stat : Option SettingsFile → Option SettingsFile
  pub before_rename : Option SettingsFile → Option SettingsFile

abbrev pub run : SettingsEnv → SettingsCall → Result SettingsError (Unit {0})
run env c = if env.fails c then err call_failed else ok tt

abbrev pub or_error : {A : Type 0} → SettingsError → Option A → Result SettingsError A
or_error e none = err e
or_error e (some a) = ok a

abbrev text_or_empty : Option Bytes → Bytes
text_or_empty none = []
text_or_empty (some s) = s

abbrev string_in : Option Bytes → Option Bytes
string_in none = none
string_in (some raw) = unmarshal_string raw

-- `Value`
unfoldable pub value : Fields → Bytes → Bytes
value m key = text_or_empty (string_in (field m key))

-- `current[k] = encoded`
unfoldable pub put : Bytes → Bytes → Fields → Fields
put key raw [] = (key, raw) ∷ []
put key raw ((k, r) ∷ m) =
    let rest = put key raw m in if bytes_eq k key then (k, raw) ∷ m else (k, r) ∷ rest

-- `marshal` is `json.Marshal` of a string.
module _ (marshal : Bytes → Option Bytes) where
  -- The loop over `kv`.
  unfoldable pub merge : Fields → List (Bytes × Bytes) → Result SettingsError Fields
  merge m [] = ok m
  merge m ((k, v) ∷ kv) = do raw ← or_error not_encoded (marshal v); merge (put k raw m) kv

-- `decode` is `json.Unmarshal` into the map, where null is the empty map.
abbrev pub read_file :
    (Bytes → Option Fields) → SettingsEnv → Option SettingsFile → Result SettingsError Fields
read_file decode env none = ok []
read_file decode env (some f) = do run env read; or_error not_json (decode f.content)

-- `Stat` tells two states of a file apart by their sizes and times.
abbrev pub same_stat : SettingsFile → Option SettingsFile → Bool
same_stat f none = false
same_stat f (some g) = length f.content == length g.content && f.modified == g.modified

-- No check where there was no file at first.
abbrev pub unchanged : Option SettingsFile → Option SettingsFile → Bool
unchanged none now = true
unchanged (some f) now = same_stat f now

abbrev pub backup_of : ℕ → Option SettingsFile → List (ℕ × Bytes)
backup_of now none = []
backup_of now (some f) = (now, f.content) ∷ []

abbrev has_file : Option SettingsFile → Bool
has_file none = false
has_file (some f) = true

-- The calls that write the temporary file.
unfoldable pub write_temp : SettingsEnv → Result SettingsError (Unit {0})
write_temp env = do
  run env make_dir
  run env create_temp
  run env write
  run env chmod
  run env sync
  run env close

-- From the second `Stat` on.
abbrev pub replace :
    SettingsEnv → Option SettingsFile → SettingsDir → Bytes → SettingsDir × Result SettingsError ℕ
replace env before d out =
    if has_file before && (env.fails stat_again || not (has_file d.file))
    then (d, err call_failed)
    else if not (unchanged before d.file)
    then (d, err changed_meanwhile)
    else if env.fails rename
    then (d, err call_failed)
    else (record d { file = some (record { content = out; modified = env.now }) }, ok env.now)

abbrev pub replace_if :
    SettingsEnv
    → Option SettingsFile
    → SettingsDir
    → Result SettingsError Bytes
    → SettingsDir × Result SettingsError ℕ
replace_if env before d (err e) = (d, err e)
replace_if env before d (ok out) =
    replace env before (record d { file = env.before_rename before }) out

-- `encode` is `json.MarshalIndent` of the map.
module _ (decode : Bytes → Option Fields) (encode : Fields → Option Bytes)
    (marshal : Bytes → Option Bytes) where
  -- The bytes to write, in the temporary file.
  unfoldable pub prepared : SettingsEnv → Fields → List (Bytes × Bytes) → Result SettingsError Bytes
  prepared env current kv = do
    m ← merge marshal current kv
    out ← or_error not_encoded (encode m)
    write_temp env
    ok (out ++ b'\n' ∷ [])

  abbrev pub update_from :
      SettingsEnv
      → List (Bytes × Bytes)
      → SettingsDir
      → Result SettingsError Fields
      → SettingsDir × Result SettingsError ℕ
  update_from env kv d (err e) = (d, err e)
  update_from env kv d (ok current) =
      let before = env.before_stat d.file in
      let d1 = record d { file = before } in
      let d2 = record d1 { backups = backup_of env.now before ++ d.backups } in
      if env.fails stat || (has_file before && (env.fails read_again || env.fails write_backup))
      then (d1, err call_failed)
      else replace_if env before d2 (prepared env current kv)

  -- `Update`, which returns the time in the name of the backup.
  unfoldable pub update :
      SettingsEnv → List (Bytes × Bytes) → SettingsDir → SettingsDir × Result SettingsError ℕ
  update env kv d = update_from env kv d (read_file decode env d.file)
