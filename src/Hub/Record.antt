-- ===== src/Hub/Record.antt =====
-- internal/hub/record.go: traffic is captured for fixtures.
pub mod Transparent
mod Examples
use claude_mem_lan_sync.Prelude.{
  ℕ, suc, ◌+◌, Bool, true, false, not, ◌&&◌, List, [], ◌∷◌, ◌++◌, Option, none, some, if◌then◌else◌,
  ◌==◌, Bytes, codes, Result, ok, err, ℤ, pos, negsuc, take, is_empty,
}
use claude_mem_lan_sync.Hub.Server.{Request, Response, Options, Method}

-- Without the query, of which a `Request` has the parameters.
pub record Exchange : Type 0 where
  pub method : Method
  pub path : Bytes
  pub headers : List (Bytes × Bytes)
  pub request : Option Bytes
  pub status : ℕ
  pub response : Option Bytes

-- The files of the directory by their numbers, where none is a part of an exchange.
abbrev pub Captures : Type 0
Captures = List (ℕ × Option Exchange)

-- The counter, and the files.
pub record Recorder : Type 0 where
  pub count : ℕ
  pub files : Captures

-- The writing of a file: done; failed before the file is opened; or failed behind that, which leaves a
-- part of it.
pub data WriteOutcome : Type 0 where
  wrote untouched cut_short : WriteOutcome

-- `os.WriteFile`, which replaces the file of that name.
unfoldable pub put_capture : ℕ → Option Exchange → Captures → Captures
put_capture n e [] = (n, e) ∷ []
put_capture n e ((m, f) ∷ files) =
    let rest = put_capture n e files in if m == n then (m, e) ∷ files else (m, f) ∷ rest

abbrev pub write_file : WriteOutcome → ℕ → Exchange → Captures → Captures
write_file wrote n e files = put_capture n (some e) files
write_file untouched n e files = files
write_file cut_short n e files = put_capture n none files

-- A directory as the names on its path, the innermost first.
abbrev pub DirPath : Type 0
DirPath = List Bytes

-- `insideGitWorkTree` of an absolute path: the directory that has an entry `.git`.
unfoldable pub inside_git_work_tree : (DirPath → Bool) → DirPath → Option DirPath
inside_git_work_tree has_git [] = if has_git [] then some [] else none
inside_git_work_tree has_git (name ∷ parent) =
    let above = inside_git_work_tree has_git parent in
    if has_git (name ∷ parent) then some (name ∷ parent) else above

-- E.g. `Authorization`, where a header that is empty is left out.
abbrev pub present_header : Bytes → Bytes → List (Bytes × Bytes)
present_header name value = if is_empty value then [] else (name, value) ∷ []

abbrev pub captured_headers : Request → List (Bytes × Bytes)
captured_headers r =
    present_header (codes "Authorization") r.authorization
    ++ (present_header (codes "X-User-Id") r.user_id
        ++ (present_header (codes "X-Device-Id") r.device_id
            ++ (present_header (codes "X-Device-Name") r.device_name
                ++ present_header (codes "Content-Type") r.content_type)))

-- `io.LimitReader`
abbrev pub limited : ℤ → Bytes → Bytes
limited (pos n) body = take n body
limited (negsuc n) body = []

abbrev pub if_valid : (Bytes → Bool) → Bytes → Option Bytes
if_valid valid body = if valid body then some body else none

abbrev pub exchange_of : (Bytes → Bool) → Request → Response → Exchange
exchange_of valid r answer = record {
  method = r.method;
  path = r.path;
  headers = captured_headers r;
  request = if_valid valid r.body;
  status = answer.status;
  response = if_valid valid answer.body;
}

-- `Recorder.write`
abbrev pub write_exchange : WriteOutcome → Exchange → Recorder → Recorder
write_exchange outcome e rec = record {
  count = suc rec.count;
  files = write_file outcome (suc rec.count) e rec.files;
}

-- The handler behind it sees what was read of the body.
abbrev pub cut_request : Options → Request → Request
cut_request o r = record r { body = limited o.max_request_bytes r.body }

-- What is left of a request that was captured.
abbrev pub captured :
    {S : Type 0}
    → (Bytes → Bool)
    → WriteOutcome
    → Request
    → Recorder
    → S × Response
    → (Option Recorder × S) × Response
captured valid outcome r rec (s, answer) =
    ((some (write_exchange outcome (exchange_of valid r answer) rec), s), answer)

abbrev pub uncaptured : {S : Type 0} → S × Response → (Option Recorder × S) × Response
uncaptured (s, answer) = ((none, s), answer)

-- `Server.record` around a handler; `valid` is `json.Valid`.
unfoldable pub record_with :
    {S : Type 0}
    → (Bytes → Bool)
    → WriteOutcome
    → Options
    → (Request → S → S × Response)
    → Request
    → Option Recorder × S
    → (Option Recorder × S) × Response
record_with valid outcome o next r (none, s) = uncaptured (next r s)
record_with valid outcome o next r (some rec, s) =
    captured valid outcome (cut_request o r) rec (next (cut_request o r) s)

pub data RecorderError : Type 0 where
  not_created in_work_tree : RecorderError

-- `NewRecorder` of a directory that has `files`, with whether the directory is made: the test for a work
-- tree comes behind it. The counter begins at 0 whatever the files are.
unfoldable pub new_recorder :
    (DirPath → Bool)
    → Bool
    → Bool
    → Bool
    → DirPath
    → Captures
    → Bool × Result RecorderError Recorder
new_recorder has_git make_fails chmod_fails allowed dir files =
    if make_fails
    then (false, err not_created)
    else if chmod_fails
    then (true, err not_created)
    else elim (inside_git_work_tree has_git dir) [
      | none ↦ (true, ok (record { count = 0; files = files }))
      | some _ ↦
          if allowed
          then (true, ok (record { count = 0; files = files }))
          else (true, err in_work_tree)
    ]
