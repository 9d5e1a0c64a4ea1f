-- ===== src/Settings/Examples.antt =====
-- Updates of settings with one key: tests, and an instance of the theorem.
use claude_mem_lan_sync.Prelude.{
  ℕ, ◌≡◌, refl, ap, true, false, List, [], ◌∷◌, ◌++◌, Option, none, some, if◌then◌else◌, Bytes,
  bytes_eq, bytes_eq→eq, codes, ok, err, Bool-cases, inl, inr,
}
use claude_mem_lan_sync.Proto.Fields.{Fields, field}
use claude_mem_lan_sync.Proto.Json.{unmarshal_string}
use claude_mem_lan_sync.Proto.Unquote.{piece, unquote_loop, unquote_json_string}
use claude_mem_lan_sync.Settings.{
  SettingsFile, SettingsDir, SettingsEnv, changed_meanwhile, call_failed, stat_again, value, put,
  merge, write_temp, prepared, update,
}
use claude_mem_lan_sync.Settings.Backups.{no_backup, content_of, restore, newest, latest_backup}
use claude_mem_lan_sync.Settings.Merge.{IsReadBack}
use claude_mem_lan_sync.Settings.Update.{IsFaithful, IsUpdated, update-IsUpdated}

abbrev ws : Bytes
ws = codes "WS"

-- A text for maps that have this key and no other: the value, and a line end.
abbrev encode_one : Fields → Option Bytes
encode_one ((k, raw) ∷ []) = if bytes_eq k ws then some raw else none
encode_one _ = none

abbrev without_last : Bytes → Bytes
without_last [] = []
without_last (c ∷ []) = []
without_last (c ∷ d ∷ s) = c ∷ without_last (d ∷ s)

abbrev decode_one : Bytes → Option Fields
decode_one s = some ((ws, without_last s) ∷ [])

abbrev quoted : Bytes → Option Bytes
quoted v = some (b'"' ∷ v ++ b'"' ∷ [])

without_last-concat : (s : Bytes) (c : ℕ) → without_last (s ++ c ∷ []) ≡ s
without_last-concat [] c = refl
without_last-concat (a ∷ []) c = refl
without_last-concat (a ∷ b ∷ s) c = ap (λ t. a ∷ t) (without_last-concat (b ∷ s) c)

one_key-IsFaithful : (kv : List (Bytes × Bytes)) → IsFaithful decode_one encode_one quoted kv
one_key-IsFaithful kv current [] out _ _ e = cc
one_key-IsFaithful kv current ((k, raw) ∷ m ∷ ms) out _ _ e = cc
one_key-IsFaithful kv current ((k, raw) ∷ []) out _ _ e = elim (Bool-cases (bytes_eq k ws)) [
  | inr other ↦ let nothing : none ≡ some out = rw other at e in cc
  | inl same ↦
      let written : some raw ≡ some out = rw same at e in
      let content : out ≡ raw = cc in
      let keys : k ≡ ws = bytes_eq→eq k ws same in
      ((ws, raw) ∷ [], rw (content, without_last-concat raw b'\n') refl, λ key. rw keys refl)
]

abbrev env : SettingsEnv
env = record { now = 9; fails = λ _. false; before_stat = λ f. f; before_rename = λ f. f }

abbrev file : Bytes → ℕ → Option SettingsFile
file text modified = some (record { content = text; modified = modified })

abbrev settings : SettingsDir
settings = record { file = file (codes "\"true\"\n") 1; backups = [] }

abbrev off : List (Bytes × Bytes)
off = (ws, codes "false") ∷ []

opens_settings : Unit {0}
unfolding update prepared merge put write_temp value field bytes_eq unmarshal_string
    unquote_json_string unquote_loop piece
opens_settings = tt

update_replaces :
    update decode_one encode_one quoted env off settings
    ≡ (record { file = file (codes "\"false\"\n") 9; backups = (9, codes "\"true\"\n") ∷ [] }, ok 9)
unfolding opens_settings
update_replaces = refl

-- A write of another process between the two calls of `Stat` is noticed and kept.
update_notices :
    let busy = record env { before_rename = λ _. file (codes "\"theirs\"\n") 2 } in
    let out = update decode_one encode_one quoted busy off settings in
    (out.0.file ≡ file (codes "\"theirs\"\n") 2) × (out.1 ≡ err changed_meanwhile)
unfolding opens_settings
update_notices = (refl, refl)

-- A write between the reading and the first `Stat` is not: the new file has nothing of it.
update_loses :
    let busy = record env { before_stat = λ _. file (codes "\"theirs\"\n") 2 } in
    let out = update decode_one encode_one quoted busy off settings in
    (out.0.file ≡ file (codes "\"false\"\n") 9) × (out.1 ≡ ok 9)
unfolding opens_settings
update_loses = (refl, refl)

-- If the second `Stat` fails, the file stays as it was.
update_stat_again :
    let broken = record env { fails = λ c. elim c [ stat_again ↦ true | _ ↦ false ] } in
    let out = update decode_one encode_one quoted broken off settings in
    (out.0.file ≡ settings.file) × (out.1 ≡ err call_failed)
unfolding opens_settings
update_stat_again = (refl, refl)

quoted-IsReadBack : IsReadBack quoted (ws, codes "false")
unfolding opens_settings
quoted-IsReadBack raw e = let same : raw ≡ codes "\"false\"" = cc in rw same refl

update-IsUpdated_example :
    IsUpdated decode_one encode_one env off settings
      (update decode_one encode_one quoted env off settings)
update-IsUpdated_example =
    update-IsUpdated decode_one encode_one quoted off (one_key-IsFaithful off)
      (quoted-IsReadBack, tt) env settings

-- The backup of the newest time, where one of them has none.
latest_backup_times :
    (latest_backup ((b'a' ∷ [], some 3) ∷ (b'b' ∷ [], none) ∷ (b'c' ∷ [], some 5) ∷ [])
      ≡ ok (b'c' ∷ []))
    × (latest_backup [] ≡ err no_backup)
unfolding latest_backup newest
latest_backup_times = (refl, refl)

-- After an update, the backup that it names brings the content back.
restore_returns :
    let out = update decode_one encode_one quoted env off settings in
    (restore 10 false out.0 9).0.file ≡ file (codes "\"true\"\n") 10
unfolding opens_settings restore content_of
restore_returns = refl
