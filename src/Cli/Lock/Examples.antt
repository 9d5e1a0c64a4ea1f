-- ===== src/Cli/Lock/Examples.antt =====
-- Processes that want the lock.
use claude_mem_lan_sync.Prelude.{
  ℕ, ◌≡◌, ◌≢◌, refl, Bool, [], ◌∷◌, none, some, if◌then◌else◌, ◌==◌, ◌||◌, pos, arith, if-keeps,
}
use claude_mem_lan_sync.Client.Worker.{process_alive}
use claude_mem_lan_sync.Cli.Lock.{idle, holding, LockWorld, LockCall, lock_step, lock_steps}
use claude_mem_lan_sync.Cli.Lock.Settled.{IsOutside, is_idle, IsSettled, lock_steps-IsSettled}
use claude_mem_lan_sync.Cli.Lock.Alone.{IsDecided, calm, repeat, lock_steps-IsDecided}

abbrev both_run : ℕ → Bool
both_run p = p == 7 || p == 8

abbrev call : ℕ → LockCall
call p = calm p both_run

-- Nobody has begun, and there is no file.
abbrev fresh : LockWorld
fresh = record { file = none; next_inode = 0; phases = λ _. idle }

-- The process 7 has the lock.
abbrev held : LockWorld
held = record {
  file = some (record { inode = 0; owner = some (pos 7) });
  next_inode = 1;
  phases = λ p. if p == 7 then holding else idle;
}

-- The lock of a process that is gone.
abbrev left : LockWorld
left = record fresh { file = some (record { inode = 0; owner = some (pos 3) }); next_inode = 1 }

opens_lock : Unit {0}
unfolding lock_step lock_steps repeat process_alive
opens_lock = tt

-- The process 8 reads the new file of the process 7 before there is a number in it, takes it for stale,
-- and both hold the lock.
both_hold :
    let w = lock_steps fresh (call 7 ∷ call 8 ∷ call 8 ∷ call 8 ∷ call 8 ∷ call 8 ∷ call 7 ∷ []) in
    (w.phases 7 ≡ holding) × (w.phases 8 ≡ holding)
unfolding opens_lock
both_hold = (refl, refl)

left_is_taken :
    let w = lock_steps left (repeat 5 (call 8)) in
    (w.phases 8 ≡ holding) × (w.file ≡ some (record { inode = 1; owner = some (pos 8) }))
unfolding opens_lock
left_is_taken = (refl, refl)

others_idle : (p : ℕ) → p ≢ 7 → IsOutside (held.phases p)
others_idle p other =
    if-keeps IsOutside (p == 7) _ _ (λ e. absurd (other (ground arith))) (λ _. is_idle)

held-IsSettled : IsSettled 7 held
held-IsSettled = record {
  file = record { inode = 0; owner = some (pos 7) };
  there = refl;
  owned = refl;
  outside = others_idle;
}

lock_steps-IsSettled_example : IsSettled 7 (lock_steps held (call 8 ∷ call 9 ∷ call 8 ∷ []))
lock_steps-IsSettled_example =
    lock_steps-IsSettled 7 (call 8 ∷ call 9 ∷ call 8 ∷ []) held (omega arith)
      ((λ e. omega arith, refl), ((λ e. omega arith, refl), ((λ e. omega arith, refl), tt)))
      held-IsSettled

lock_steps-IsDecided_example : IsDecided (call 8) left
lock_steps-IsDecided_example = lock_steps-IsDecided 8 both_run left refl (λ q other. is_idle)
