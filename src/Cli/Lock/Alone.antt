-- ===== src/Cli/Lock/Alone.antt =====
-- A process whose calls no other one interrupts gets the lock, or finds it held.
use claude_mem_lan_sync.Prelude.{
  ℕ, zero, suc, ◌≡◌, ◌≢◌, ◌≤◌, refl, sym, ap, ◌∙◌, Bool, true, false, List, [], ◌∷◌, Option, none,
  some, if◌then◌else◌, ◌==◌, ℤ, pos, arith, if-keeps, Option-cases, Bool-cases, subst, inl, inr,
}
use claude_mem_lan_sync.Client.Worker.{is_alive}
use claude_mem_lan_sync.Cli.Lock.{
  LockFile, Phase, idle, reading, stale, holding, refused, created, LockWorld, LockCall, enter,
  put_file, open_exclusive, judge, clear_stale, next_call, lock_step, lock_steps,
}
use claude_mem_lan_sync.Cli.Lock.Settled.{IsOutside, IsSettled}

-- The file names a process that runs.
abbrev pub is_locked : (ℕ → Bool) → Option LockFile → Bool
is_locked alive none = false
is_locked alive (some f) = is_alive alive f.owner

unfoldable pub repeat : ℕ → LockCall → List LockCall
repeat zero c = []
repeat (suc n) c = c ∷ repeat n c

-- Five calls, none of which fails, are enough: the lock is got and settled, or it names a process that
-- runs, the file is as it was, and the call is refused.
pub data IsDecided (c : LockCall) (w : LockWorld) : Type 0 where
  acquired :
      (n : ℕ)
      → n ≤ 5
      → is_locked c.alive w.file ≡ false
      → (lock_steps w (repeat n c)).phases c.pid ≡ holding
      → IsSettled c.pid (lock_steps w (repeat n c))
      → IsDecided c w
  turned_away :
      is_locked c.alive w.file ≡ true
      → (lock_steps w (repeat 2 c)).phases c.pid ≡ refused
      → (lock_steps w (repeat 2 c)).file ≡ w.file
      → IsDecided c w

same_number : (n : ℕ) → (n == n) ≡ true
same_number n = ground arith

entered : (p : ℕ) (phase : Phase) (w : LockWorld) → (enter p phase w).phases p ≡ phase
entered p phase w = rw (same_number p) refl

lock_step-next_call :
    (c : LockCall) (w : LockWorld) (phase : Phase)
    → w.phases c.pid ≡ phase
    → lock_step w c ≡ next_call c w phase
unfolding lock_step
lock_step-next_call c w phase e = ap (next_call c w) e

apart :
    (p q : ℕ) (phase : Phase) (w : LockWorld)
    → q ≢ p
    → IsOutside (w.phases q)
    → IsOutside ((enter p phase w).phases q)
apart p q phase w other out =
    if-keeps IsOutside (q == p) _ _ (λ e. absurd (other (ground arith))) (λ _. out)

module _ (p : ℕ) (alive : ℕ → Bool) where
  -- A call that does not fail.
  abbrev pub calm : LockCall
  calm = record { pid = p; fails = false; alive = alive }

  abbrev new_file : LockWorld → Option ℤ → LockFile
  new_file w owner = record { inode = w.next_inode; owner = owner }

  abbrev made : LockWorld → LockWorld
  made w = record w { file = some (new_file w none); next_inode = suc w.next_inode }

  -- What a process leaves that finds no file.
  abbrev taken : LockWorld → LockWorld
  taken w =
      enter p holding
        (put_file (some (new_file w (some (pos p)))) (enter p (created w.next_inode) (made w)))

  take_free :
      (w : LockWorld)
      → w.phases p ≡ idle
      → w.file ≡ none
      → lock_step (lock_step w calm) calm ≡ taken w
  take_free w begins free =
      let v : LockWorld = enter p (created w.next_inode) (made w) in
      let first : lock_step w calm ≡ v =
        lock_step-next_call calm w idle begins ∙ ap (open_exclusive p w) free in
      let second : lock_step v calm ≡ taken w =
        lock_step-next_call calm v (created w.next_inode)
          (entered p (created w.next_inode) (made w))
        ∙ ap
            (λ b.
              enter p holding (
                put_file (if b then some (new_file w (some (pos p))) else some (new_file w none))
                  v))
            (same_number w.next_inode) in
      ap (λ u. lock_step u calm) first ∙ second

  taken-IsSettled :
      (w : LockWorld) → ((q : ℕ) → q ≢ p → IsOutside (w.phases q)) → IsSettled p (taken w)
  taken-IsSettled w out = record {
    file = new_file w (some (pos p));
    there = refl;
    owned = refl;
    outside = λ q other.
        apart p q holding (enter p (created w.next_inode) (made w)) other
          (apart p q (created w.next_inode) (made w) other (out q other));
  }

  abbrev read : LockWorld → LockWorld
  read w = enter p reading w

  -- What a process leaves that finds a stale lock, when it begins again.
  abbrev cleared : LockWorld → LockWorld
  cleared w = enter p idle (put_file none (enter p stale (read w)))

  read_first :
      (w : LockWorld) (f : LockFile)
      → w.phases p ≡ idle
      → w.file ≡ some f
      → lock_step w calm ≡ read w
  read_first w f begins there =
      lock_step-next_call calm w idle begins ∙ ap (open_exclusive p w) there

  judge_next :
      (w : LockWorld) (f : LockFile)
      → w.file ≡ some f
      → lock_step (read w) calm
        ≡ (if is_alive alive f.owner then enter p refused (read w) else enter p stale (read w))
  judge_next w f there =
      lock_step-next_call calm (read w) reading (entered p reading w)
      ∙ ap (judge calm (read w)) there

  clear_next :
      (w : LockWorld) (f : LockFile)
      → w.file ≡ some f
      → lock_step (enter p stale (read w)) calm ≡ cleared w
  clear_next w f there =
      lock_step-next_call calm (enter p stale (read w)) stale (entered p stale (read w))
      ∙ ap (clear_stale p (enter p stale (read w))) there

  clear_stale_lock :
      (w : LockWorld) (f : LockFile)
      → w.phases p ≡ idle
      → w.file ≡ some f
      → is_alive alive f.owner ≡ false
      → lock_step (lock_step (lock_step w calm) calm) calm ≡ cleared w
  clear_stale_lock w f begins there gone =
      ap (λ u. lock_step (lock_step u calm) calm) (read_first w f begins there)
      ∙ ap (λ u. lock_step u calm)
          (judge_next w f there
            ∙ ap (λ b. if b then enter p refused (read w) else enter p stale (read w)) gone)
      ∙ clear_next w f there

  refuse_held :
      (w : LockWorld) (f : LockFile)
      → w.phases p ≡ idle
      → w.file ≡ some f
      → is_alive alive f.owner ≡ true
      → lock_step (lock_step w calm) calm ≡ enter p refused (read w)
  refuse_held w f begins there runs =
      ap (λ u. lock_step u calm) (read_first w f begins there)
      ∙ (judge_next w f there
          ∙ ap (λ b. if b then enter p refused (read w) else enter p stale (read w)) runs)

  acquired_by :
      (n : ℕ) (w v : LockWorld)
      → n ≤ 5
      → is_locked alive w.file ≡ false
      → lock_steps w (repeat n calm) ≡ taken v
      → ((q : ℕ) → q ≢ p → IsOutside (v.phases q))
      → IsDecided calm w
  acquired_by n w v few open_ ends out =
      acquired n few open_
        (ap (λ (u : LockWorld). u.phases p) ends
          ∙ entered p holding (
              put_file (some (new_file v (some (pos p))))
                (enter p (created v.next_inode) (made v))))
        (subst (IsSettled p) (sym ends) (taken-IsSettled v out))

  -- A process that begins while every other one is outside is decided after at most five calls, if none
  -- of them fails and no other process gets between them. It has the lock then, and the lock is settled,
  -- if there was no file or its number is that of no process that runs; else it is turned away, and the
  -- file is as it was.
  pub lock_steps-IsDecided :
      (w : LockWorld)
      → w.phases p ≡ idle
      → ((q : ℕ) → q ≢ p → IsOutside (w.phases q))
      → IsDecided calm w
  unfolding lock_steps repeat
  lock_steps-IsDecided w begins out = elim (Option-cases w.file) [
    | inl free ↦
        acquired_by 2 w w (omega arith) (ap (is_locked alive) free) (take_free w begins free) out
    | inr (f, there) ↦ elim (Bool-cases (is_alive alive f.owner)) [
      | inl runs ↦
          let ends = refuse_held w f begins there runs in
          turned_away (ap (is_locked alive) there ∙ runs)
            (ap (λ (u : LockWorld). u.phases p) ends ∙ entered p refused (read w))
            (ap (λ (u : LockWorld). u.file) ends)
      | inr gone ↦
          acquired_by 5 w (cleared w) (omega arith) (ap (is_locked alive) there ∙ gone)
            (ap (λ u. lock_step (lock_step u calm) calm) (clear_stale_lock w f begins there gone)
              ∙ take_free (cleared w) (entered p idle (put_file none (enter p stale (read w))))
                  refl)
            (λ q other.
              apart p q idle (put_file none (enter p stale (read w))) other
                (apart p q stale (read w) other (apart p q reading w other (out q other))))
    ]
  ]
