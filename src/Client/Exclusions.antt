-- ===== src/Client/Exclusions.antt =====
-- internal/clientdb/backfill.go: the launch baseline as rows with a key.
use claude_mem_lan_sync.Prelude.{
  Bool, not, ◌&&◌, List, [], ◌∷◌, ◌++◌, Option, none, some, if◌then◌else◌, Bytes, bytes_eq,
}
use claude_mem_lan_sync.Client.Database.{Exclusion, is_null}

-- The revision under a key.
unfoldable pub through_rev : List Exclusion → Bytes → Bytes → Option Bytes
through_rev [] kind id = none
through_rev (e ∷ es) kind id =
    if bytes_eq e.kind kind && bytes_eq e.origin_local_id id
    then some e.through_rev
    else through_rev es kind id

-- `INSERT OR IGNORE`
abbrev pub insert_if_new : List Exclusion → Exclusion → List Exclusion
insert_if_new es e = if is_null (through_rev es e.kind e.origin_local_id) then es ++ e ∷ [] else es

unfoldable pub insert_or_ignore : List Exclusion → List Exclusion → List Exclusion
insert_or_ignore es [] = es
insert_or_ignore es (e ∷ more) = insert_or_ignore (insert_if_new es e) more

unfoldable pub keep_if : (Bytes → Bytes → Bool) → List Exclusion → List Exclusion
keep_if p [] = []
keep_if p (e ∷ es) =
    let rest = keep_if p es in if p e.kind e.origin_local_id then e ∷ rest else rest

abbrev pub undo_rows : Option (List Exclusion) → List Exclusion
undo_rows none = []
undo_rows (some es) = es

unfoldable pub has_key : List Exclusion → Bytes → Bytes → Bool
has_key es kind id = not (is_null (through_rev es kind id))
