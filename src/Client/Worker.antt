-- ===== src/Client/Worker.antt =====
-- internal/clientdb/clientdb.go: whether the worker of claude-mem runs.
use claude_mem_lan_sync.Prelude.{
  ℕ, Bool, false, Option, none, some, if◌then◌else◌, ltb, Bytes, ℤ, pos, negsuc, trim_space,
}
use claude_mem_lan_sync.Hub.Handlers.{atoi}

abbrev is_positive : ℤ → Bool
is_positive (pos n) = ltb 0 n
is_positive (negsuc n) = false

abbrev bare_pid : Bytes → Option ℤ
bare_pid raw = atoi (trim_space raw)

-- `decode` finds the field `pid` of a JSON object, zero if it is absent, or none for an error.
module _ (decode : Bytes → Option ℤ) where
  abbrev pid_or_bare : Bytes → Option ℤ → Option ℤ
  pid_or_bare raw none = bare_pid raw
  pid_or_bare raw (some pid) = if is_positive pid then some pid else bare_pid raw

  -- `WorkerPID`, on the content of worker.pid if it can be read.
  unfoldable pub worker_pid : Option Bytes → Option ℤ
  worker_pid none = none
  worker_pid (some raw) = pid_or_bare raw (decode raw)

-- `alive` says whether a process takes the signal 0, or is of another user.
module _ (alive : ℕ → Bool) where
  unfoldable pub process_alive : ℤ → Bool
  process_alive (pos n) = if ltb 0 n then alive n else false
  process_alive (negsuc n) = false

  abbrev pub is_alive : Option ℤ → Bool
  is_alive none = false
  is_alive (some pid) = process_alive pid

-- `WorkerRunning`
abbrev pub worker_running : (Bytes → Option ℤ) → (ℕ → Bool) → Option Bytes → Bool
worker_running decode alive raw = is_alive alive (worker_pid decode raw)
