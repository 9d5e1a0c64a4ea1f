-- ===== src/Cli/Lock/Settled.antt =====
-- A lock that is written, and that nobody has found stale, keeps everybody else out.
use claude_mem_lan_sync.Prelude.{
  ℕ, ◌≡◌, ◌≢◌, ◌<◌, refl, sym, ap, ◌∙◌, Bool, true, List, [], ◌∷◌, Option, none, some, ◌==◌, pos,
  All, arith, if-keeps,
}
use claude_mem_lan_sync.Client.Worker.{is_alive, process_alive}
use claude_mem_lan_sync.Cli.Lock.{
  LockFile, Phase, idle, reading, stale, holding, refused, released, created, LockWorld, LockCall,
  enter, open_exclusive, judge, next_call, lock_step, lock_steps,
}

-- The phases from which the next call leaves the file at the path alone, whatever is in it.
pub data IsOutside : Phase → Type 0 where
  is_idle : IsOutside idle
  is_reading : IsOutside reading
  is_refused : IsOutside refused
  is_released : IsOutside released

-- The file has the number of the process, and every other process is outside.
pub record IsSettled (a : ℕ) (w : LockWorld) : Type 0 where
  pub file : LockFile
  pub there : w.file ≡ some file
  pub owned : file.owner ≡ some (pos a)
  pub outside : (p : ℕ) → p ≢ a → IsOutside (w.phases p)

-- A call of another process, while the owner runs.
abbrev pub IsForeign : ℕ → LockCall → Type 0
IsForeign a c = (c.pid ≢ a) × (c.alive a ≡ true)

enter-IsSettled :
    (a p : ℕ) (phase : Phase) (w : LockWorld)
    → IsOutside phase
    → IsSettled a w
    → IsSettled a (enter p phase w)
enter-IsSettled a p phase w out s = record {
  file = s.file;
  there = s.there;
  owned = s.owned;
  outside = λ q other. if-keeps IsOutside (q == p) _ _ (λ _. out) (λ _. s.outside q other);
}

is_alive_owner :
    (alive : ℕ → Bool) (a : ℕ) → 0 < a → alive a ≡ true → is_alive alive (some (pos a)) ≡ true
unfolding process_alive
is_alive_owner alive a real runs = ground arith

some_inj : (f g : LockFile) → some f ≡ some g → f ≡ g
some_inj f g e = cc

judge-IsSettled :
    (a : ℕ) (c : LockCall) (w : LockWorld) (file : Option LockFile)
    → w.file ≡ file
    → 0 < a
    → IsForeign a c
    → IsSettled a w
    → IsSettled a (judge c w file)
judge-IsSettled a c w none here real other s = enter-IsSettled a c.pid refused w is_refused s
judge-IsSettled a c w (some f) here real (_, runs) s =
    let same : s.file ≡ f = some_inj s.file f (sym s.there ∙ here) in
    let owner : f.owner ≡ some (pos a) = ap (λ (g : LockFile). g.owner) (sym same) ∙ s.owned in
    let running : is_alive c.alive f.owner ≡ true =
      ap (is_alive c.alive) owner ∙ is_alive_owner c.alive a real runs in
    if-keeps (IsSettled a) (is_alive c.alive f.owner) _ _
      (λ _. enter-IsSettled a c.pid refused w is_refused s) (λ gone. absurd cc)

open_exclusive-IsSettled :
    (a p : ℕ) (w : LockWorld) (file : Option LockFile)
    → w.file ≡ file
    → IsSettled a w
    → IsSettled a (open_exclusive p w file)
open_exclusive-IsSettled a p w none here s = let there = s.there in absurd cc
open_exclusive-IsSettled a p w (some f) here s = enter-IsSettled a p reading w is_reading s

next_call-IsSettled :
    (a : ℕ) (c : LockCall) (w : LockWorld) (phase : Phase)
    → 0 < a
    → IsForeign a c
    → IsOutside phase
    → IsSettled a w
    → IsSettled a (next_call c w phase)
next_call-IsSettled a c w idle real other out s =
    if-keeps (IsSettled a) c.fails _ _ (λ _. enter-IsSettled a c.pid refused w is_refused s)
      (λ _. open_exclusive-IsSettled a c.pid w w.file refl s)
next_call-IsSettled a c w reading real other out s =
    if-keeps (IsSettled a) c.fails _ _ (λ _. enter-IsSettled a c.pid refused w is_refused s)
      (λ _. judge-IsSettled a c w w.file refl real other s)
next_call-IsSettled a c w refused real other out s = s
next_call-IsSettled a c w released real other out s = s
next_call-IsSettled a c w stale real other out s = elim out [ ]
next_call-IsSettled a c w holding real other out s = elim out [ ]
next_call-IsSettled a c w (created _) real other out s = elim out [ ]

-- If the lock file has the number of a process and no other process holds the lock, has it open or has
-- found it stale, then this remains so under any calls of other processes, in any order and with any
-- failures, while the owner runs. So nobody else gets the lock.
pub lock_steps-IsSettled :
    (a : ℕ) (cs : List LockCall) (w : LockWorld)
    → 0 < a
    → All (IsForeign a) cs
    → IsSettled a w
    → IsSettled a (lock_steps w cs)
unfolding lock_steps lock_step
lock_steps-IsSettled a [] w real others s = s
lock_steps-IsSettled a (c ∷ cs) w real (other, others) s =
    lock_steps-IsSettled a cs (lock_step w c) real others
      (next_call-IsSettled a c w (w.phases c.pid) real other (s.outside c.pid other.0) s)
