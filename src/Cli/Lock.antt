-- ===== src/Cli/Lock.antt =====
-- internal/cli/lockfile.go: the lock that keeps two hubs apart, call by call and in any interleaving.
pub mod Settled
pub mod Alone
mod Examples
use claude_mem_lan_sync.Prelude.{
  ℕ, suc, Bool, true, false, List, [], ◌∷◌, Option, none, some, if◌then◌else◌, ◌==◌, ℤ, pos,
}
use claude_mem_lan_sync.Client.Worker.{is_alive}

-- The file at the path: which file it is, and the number in it. A new file is empty, so it has none.
pub record LockFile : Type 0 where
  pub inode : ℕ
  pub owner : Option ℤ

-- Where a process is in `Lockfile`, behind one call and before the next. With `created` it has the new
-- file open; with `stale` it has read the file and found that the owner is gone.
pub data Phase : Type 0 where
  idle reading stale holding refused released : Phase
  created : ℕ → Phase

pub record LockWorld : Type 0 where
  pub file : Option LockFile
  pub next_inode : ℕ
  pub phases : ℕ → Phase

-- A call of the process `pid`, whether it fails, and which processes are running at the time.
pub record LockCall : Type 0 where
  pub pid : ℕ
  pub fails : Bool
  pub alive : ℕ → Bool

abbrev pub enter : ℕ → Phase → LockWorld → LockWorld
enter p phase w = record w { phases = λ q. if q == p then phase else w.phases q }

abbrev pub put_file : Option LockFile → LockWorld → LockWorld
put_file file w = record w { file = file }

-- `OpenFile` with O_CREATE and O_EXCL.
abbrev pub open_exclusive : ℕ → LockWorld → Option LockFile → LockWorld
open_exclusive p w none = enter p (created w.next_inode) (record w {
  file = some (record { inode = w.next_inode; owner = none });
  next_inode = suc w.next_inode;
})
open_exclusive p w (some f) = enter p reading w

-- The number is written to the file that is open, which need not be at the path any more.
abbrev pub written_owner : ℕ → ℕ → Option LockFile → Option LockFile
written_owner p n none = none
written_owner p n (some f) =
    if f.inode == n then some (record f { owner = some (pos p) }) else some f

-- `ReadFile`, and the test of the owner.
abbrev pub judge : LockCall → LockWorld → Option LockFile → LockWorld
judge c w none = enter c.pid refused w
judge c w (some f) = if is_alive c.alive f.owner then enter c.pid refused w else enter c.pid stale w

-- `Remove` of a stale lock, behind which `Lockfile` begins again.
abbrev pub clear_stale : ℕ → LockWorld → Option LockFile → LockWorld
clear_stale p w none = enter p refused w
clear_stale p w (some f) = enter p idle (put_file none w)

-- The next call of a process in its phase. A failed write removes the file at the path.
abbrev pub next_call : LockCall → LockWorld → Phase → LockWorld
next_call c w idle = if c.fails then enter c.pid refused w else open_exclusive c.pid w w.file
next_call c w (created n) =
    if c.fails
    then enter c.pid refused (put_file none w)
    else enter c.pid holding (put_file (written_owner c.pid n w.file) w)
next_call c w reading = if c.fails then enter c.pid refused w else judge c w w.file
next_call c w stale = if c.fails then enter c.pid refused w else clear_stale c.pid w w.file
next_call c w holding = enter c.pid released (if c.fails then w else put_file none w)
next_call c w refused = w
next_call c w released = w

unfoldable pub lock_step : LockWorld → LockCall → LockWorld
lock_step w c = next_call c w (w.phases c.pid)

unfoldable pub lock_steps : LockWorld → List LockCall → LockWorld
lock_steps w [] = w
lock_steps w (c ∷ cs) = lock_steps (lock_step w c) cs
