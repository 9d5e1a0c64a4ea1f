-- ===== src/Client/Select.antt =====
-- The rows that a backfill selects: `filterFor` of internal/clientdb/backfill.go.
use claude_mem_lan_sync.Prelude.{
  ℕ, Bool, true, false, ◌&&◌, ◌||◌, List, [], ◌∷◌, Option, none, some, if◌then◌else◌, ◌==◌, Bytes,
  bytes_eq, trim_space, is_empty,
}
use claude_mem_lan_sync.Client.Database.{Table, user_prompts, Row, Session, Database, is_null}

pub record BackfillOpts : Type 0 where
  pub dry_run : Bool
  pub force : Bool
  pub project : Bytes
  pub excluded_projects : List Bytes

unfoldable pub session_project : List Session → ℕ → Option Bytes
session_project [] id = none
session_project (s ∷ sessions) id = if s.id == id then s.project else session_project sessions id

abbrev pub through_session : List Session → Option ℕ → Option Bytes
through_session sessions none = none
through_session sessions (some id) = session_project sessions id

-- `projectExpr`
abbrev pub project_of : Database → Table → Row → Option Bytes
project_of db user_prompts r = through_session db.sdk_sessions r.session_db_id
project_of db _ r = r.project

-- `COALESCE(x, '')`
abbrev pub or_empty : Option Bytes → Bytes
or_empty none = []
or_empty (some s) = s

-- `x = ?`, where NULL is equal to nothing.
abbrev pub equals : Option Bytes → Bytes → Bool
equals none s = false
equals (some t) s = bytes_eq t s

-- The loop over `o.ExcludedProjects`.
unfoldable pub not_excluded : List Bytes → Option Bytes → Bool
not_excluded [] project = true
not_excluded (ex ∷ exs) project =
    let rest = not_excluded exs project in
    if is_empty (trim_space ex)
    then rest
    else if bytes_eq (or_empty project) (trim_space ex)
    then false
    else rest

-- `filterFor`
unfoldable pub filter_for : BackfillOpts → Option Bytes → Bool
filter_for o project =
    (is_empty o.project || equals project o.project) && not_excluded o.excluded_projects project

-- The condition on a row that the statements share.
abbrev pub is_selected : BackfillOpts → Database → Table → Row → Bool
is_selected o db t r = is_null r.origin_device_id && filter_for o (project_of db t r)
