-- ===== src/Settings/Update.antt =====
-- The outcomes of an update of the settings.
use claude_mem_lan_sync.Prelude.{
  ℕ, ◌≡◌, ◌⊎◌, inl, inr, refl, Bool, true, false, not, ◌&&◌, ◌||◌, List, [], ◌∷◌, ◌++◌, Option,
  some, Bytes, Result, ok, err, All, Ensures, giving, failing, none, Ensures-bind, given, if-keeps,
  ◌∙◌,
}
use claude_mem_lan_sync.Proto.Fields.{Fields}
use claude_mem_lan_sync.Settings.{
  run, read, not_json, SettingsFile, SettingsDir, SettingsEnv, SettingsError, call_failed,
  changed_meanwhile, not_encoded, or_error, value, merge, read_file, unchanged, backup_of, has_file,
  write_temp, replace_if, stat_again, prepared, update_from, update, stat, read_again, write_backup,
  rename,
}
use claude_mem_lan_sync.Settings.Merge.{or_text, wanted, IsReadBack, value-merge, or_error-eq-ok}

not-not : (b : Bool) → not b ≡ false → b ≡ true
not-not true h = refl
not-not false h = cc

-- A map that `Update` can have read: that of no file, or of the content of one.
abbrev pub IsRead : (Bytes → Option Fields) → Fields → Type 0
IsRead decode current = (current ≡ []) ⊎ ((content : Bytes) × (decode content ≡ some current))

read_file-IsRead :
    (decode : Bytes → Option Fields) (env : SettingsEnv) (file : Option SettingsFile)
    → Ensures (IsRead decode) (read_file decode env file)
read_file-IsRead decode env none = giving (inl refl)
read_file-IsRead decode env (some f) =
    Ensures-bind (run env read) λ _ _. decoded (decode f.content) refl
  where
    decoded :
        (found : Option Fields)
        → decode f.content ≡ found
        → Ensures (IsRead decode) (or_error not_json found)
    decoded none e = failing
    decoded (some m) e = giving (inr (f.content, e))

-- A map that was read, has the new values and is written, is read back with the same strings.
abbrev pub IsFaithful :
    (Bytes → Option Fields)
    → (Fields → Option Bytes)
    → (Bytes → Option Bytes)
    → List (Bytes × Bytes)
    → Type 0
IsFaithful decode encode marshal kv =
    (current m : Fields) (out : Bytes)
    → IsRead decode current
    → merge marshal current kv ≡ ok m
    → encode m ≡ some out
    → (m' : Fields) × (decode (out ++ b'\n' ∷ []) ≡ some m')
      × ((key : Bytes) → value m' key ≡ value m key)

module _ (decode : Bytes → Option Fields) (encode : Fields → Option Bytes) where
  -- A content that says what is asked for, and for every other key what the settings said.
  abbrev pub Says : Fields → List (Bytes × Bytes) → Bytes → Type 0
  Says current kv content =
      (m : Fields) × (decode content ≡ some m)
      × ((key : Bytes) → value m key ≡ or_text (wanted kv key) (value current key))

  -- The two outcomes: an error, and the file as other processes had or left it; or the file is as it was
  -- at the first `Stat`, as far as the second one tells, its content then is in the backup, and the new
  -- file has the settings that were read with the new values.
  pub data IsUpdated (env : SettingsEnv) (kv : List (Bytes × Bytes)) (d : SettingsDir)
      (out : SettingsDir × Result SettingsError ℕ) : Type 0 where
    kept :
        (e : SettingsError)
        → out.1 ≡ err e
        → (out.0.file ≡ d.file)
          ⊎ (out.0.file ≡ env.before_stat d.file)
          ⊎ (out.0.file ≡ env.before_rename (env.before_stat d.file))
        → IsUpdated env kv d out
    merged :
        (current : Fields) (content : Bytes)
        → read_file decode env d.file ≡ ok current
        → unchanged (env.before_stat d.file) (env.before_rename (env.before_stat d.file)) ≡ true
        → out.0.backups ≡ backup_of env.now (env.before_stat d.file) ++ d.backups
        → out.0.file ≡ some (record { content = content; modified = env.now })
        → Says current kv content
        → IsUpdated env kv d out

  module _ (marshal : Bytes → Option Bytes) (kv : List (Bytes × Bytes))
      (faithful : IsFaithful decode encode marshal kv) (good : All (IsReadBack marshal) kv)
      (env : SettingsEnv) where
    prepared-Says :
        (current : Fields)
        → IsRead decode current
        → Ensures (Says current kv) (prepared decode encode marshal env current kv)
    unfolding prepared
    prepared-Says current was_read = Ensures-bind (merge marshal current kv) λ m merges.
        Ensures-bind (or_error not_encoded (encode m)) λ out encodes.
          Ensures-bind (write_temp env) λ _ _.
            let (m', decodes, same) =
              faithful current m out was_read merges
                (or_error-eq-ok not_encoded (encode m) out encodes) in
            giving (m', decodes, λ key. same key ∙ value-merge marshal current m kv good merges key)

    module _ (d : SettingsDir) where
      abbrev Outcome : SettingsDir × Result SettingsError ℕ → Type 0
      Outcome = IsUpdated env kv d

      replace_if-IsUpdated :
          (current : Fields) (out : Result SettingsError Bytes)
          → read_file decode env d.file ≡ ok current
          → Ensures (Says current kv) out
          → Outcome (
              replace_if env
                (env.before_stat d.file)
                (record d {
                  file = env.before_stat d.file;
                  backups = backup_of env.now (env.before_stat d.file) ++ d.backups;
                })
                out)
      replace_if-IsUpdated current (err e) reads says = kept e refl (inr (inl refl))
      replace_if-IsUpdated current (ok out) reads says =
          if-keeps Outcome
            (has_file (env.before_stat d.file)
              && (env.fails stat_again
                  || not (has_file (env.before_rename (env.before_stat d.file)))))
            _ _ (λ _. kept call_failed refl (inr (inr refl)))
            λ _.
              if-keeps Outcome
                (not
                  (unchanged (env.before_stat d.file) (env.before_rename (env.before_stat d.file))))
                _ _ (λ _. kept changed_meanwhile refl (inr (inr refl)))
                λ same.
                  if-keeps Outcome (env.fails rename) _ _
                    (λ _. kept call_failed refl (inr (inr refl)))
                    (λ _. merged current out reads (not-not _ same) refl refl (given out says refl))

      update_from-IsUpdated :
          (read : Result SettingsError Fields)
          → read_file decode env d.file ≡ read
          → Outcome (update_from decode encode marshal env kv d read)
      update_from-IsUpdated (err e) reads = kept e refl (inl refl)
      update_from-IsUpdated (ok current) reads =
          if-keeps Outcome
            (env.fails stat
              || (has_file (env.before_stat d.file)
                  && (env.fails read_again || env.fails write_backup)))
            _ _ (λ _. kept call_failed refl (inr (inl refl)))
            (λ _.
              replace_if-IsUpdated current (prepared decode encode marshal env current kv) reads
                (prepared-Says current (given current (read_file-IsRead decode env d.file) reads)))

      -- If the settings that were read, with the new values, are written so that they are read back as
      -- the same strings, and so are the new values, then an update of the settings has two outcomes,
      -- whatever fails and whatever other processes do to the file. Either it fails, and the file is as
      -- other processes had it or left it; or the file had the same size and time at both calls of
      -- `Stat`, or was not there at the first, the backup has what was there, and the new file has for
      -- each key the value that is asked for, and for any other key the value that was read.
      pub update-IsUpdated : IsUpdated env kv d (update decode encode marshal env kv d)
      unfolding update
      update-IsUpdated = update_from-IsUpdated (read_file decode env d.file) refl
