-- ===== src/Store/Steps.antt =====
-- The hub's store over time: any interleaving of pushes, sightings, revocations and epoch rotations.
-- `Store.mu` and the single write connection make each of them one step.
use claude_mem_lan_sync.Prelude.{
  ℕ, ◌≤◌, ◌≡◌, ◌≢◌, ap, sym, ◌∙◌, true, List, [], ◌++◌, append-nil, append_assoc, some, Bytes, ok,
  err,
}
use claude_mem_lan_sync.Proto.Dec.{max_dec}
use claude_mem_lan_sync.Proto.Errors.{Fault}
use claude_mem_lan_sync.Proto.Op.{Op}
use claude_mem_lan_sync.Store.Env.{Env}
use claude_mem_lan_sync.Store.Tables.{OpRow, Store, existing_seq}
use claude_mem_lan_sync.Store.Tables.Rows.{existing_seq_stays}
use claude_mem_lan_sync.Store.Invariant.{IsSound}
use claude_mem_lan_sync.Store.Devices.{seen_device, revoke_device, is_valid}
use claude_mem_lan_sync.Store.Devices.Access.{
  mark, mark-seen_device, mark-revoke_device, revoke_device-IsRevocation, IsKept,
  seen_device-IsKept, revoke_device-IsKept,
}
use claude_mem_lan_sync.Store.Open.{bump_epoch}
use claude_mem_lan_sync.Store.Open.Repair.{bump_epoch-IsSound, bump_epoch-kept}
use claude_mem_lan_sync.Store.Push.{push}
use claude_mem_lan_sync.Store.Push.Commit.{push-IsSound}
use claude_mem_lan_sync.Store.Push.Marks.{push-Extends, mark-push, push_revoked}

pub data Step (s t : Store) : Type 0 where
  pushes : (env : Env) (ops : List Op) (id name : Bytes) → t ≡ (push env s ops id name).0 → Step s t
  sees : (env : Env) (id name : Bytes) → t ≡ (seen_device env s id name).0 → Step s t
  revokes : (env : Env) (id : Bytes) → t ≡ (revoke_device env s id).0 → Step s t
  rotates : (env : Env) → env.random ≤ max_dec → t ≡ (bump_epoch env s).0 → Step s t

pub data Reach (s : Store) : Store → Type 0 where
  here : Reach s s
  next : {t u : Store} → Reach s t → Step t u → Reach s u

IsKept-IsSound : {s t : Store} → IsKept s t → IsSound s → IsSound t
IsKept-IsSound k h = record {
  numbered = rw k.ops h.numbered;
  distinct = rw k.ops h.distinct;
  counted = rw (k.ops, k.meta) h.counted;
  bounded = rw k.meta h.bounded;
  epoch_stored = rw (k.meta, k.epoch) h.epoch_stored;
  epoch_pos = rw k.epoch h.epoch_pos;
  epoch_fits = rw k.epoch h.epoch_fits;
}

Step-IsSound : {s t : Store} → Step s t → IsSound s → IsSound t
Step-IsSound {s} (pushes env ops id name e) h = rw e (push-IsSound env s ops id name h)
Step-IsSound {s} (sees env id name e) h = rw e (IsKept-IsSound (seen_device-IsKept env s id name) h)
Step-IsSound {s} (revokes env id e) h = rw e (IsKept-IsSound (revoke_device-IsKept env s id) h)
Step-IsSound {s} (rotates env fits e) h = rw e (bump_epoch-IsSound env s fits h)

-- Whatever happens to a sound store, in whatever order, it stays sound.
pub Reach-IsSound : {s t : Store} → IsSound s → Reach s t → IsSound t
Reach-IsSound h here = h
Reach-IsSound h (next r st) = Step-IsSound st (Reach-IsSound h r)

-- The rows of `before`, with more rows behind them.
abbrev pub Grows : List OpRow → List OpRow → Type 0
Grows before after = (rows : List OpRow) × (after ≡ before ++ rows)

Step-Grows : {s t : Store} → Step s t → IsSound s → Grows s.tables.ops t.tables.ops
Step-Grows {s} (pushes env ops id name e) h = rw e (push-Extends env s ops id name h)
Step-Grows {s} (sees env id name e) h =
    ([], rw e (seen_device-IsKept env s id name).ops ∙ sym (append-nil _))
Step-Grows {s} (revokes env id e) h =
    ([], rw e (revoke_device-IsKept env s id).ops ∙ sym (append-nil _))
Step-Grows {s} (rotates env fits e) h = ([], rw e ((bump_epoch-kept env s).0) ∙ sym (append-nil _))

-- The log is append-only: whatever happens, the rows that it has keep their places and their contents,
-- so a revision keeps its number.
pub Reach-Grows :
    {s t : Store}
    → IsSound s
    → Reach s t
    → Grows s.tables.ops t.tables.ops
      × ((id rev : Bytes) (seq : ℕ)
          → existing_seq s.tables.ops id rev ≡ some seq
          → existing_seq t.tables.ops id rev ≡ some seq)
Reach-Grows {s} h here = (([], sym (append-nil s.tables.ops)), λ id rev seq e. e)
Reach-Grows {s} h (next {t} r st) =
    let ((rows, e), keeps) = Reach-Grows h r in
    let (rows', e') = Step-Grows st (Reach-IsSound h r) in
    (
      (rows ++ rows', e' ∙ ap (λ xs. xs ++ rows') e ∙ append_assoc s.tables.ops rows rows'),
      λ id rev seq p. rw e' (existing_seq_stays t.tables.ops rows' id rev (keeps id rev seq p)),
    )

Step-mark :
    {s t : Store} → Step s t → (j : Bytes) → is_valid (mark s j) ≡ true → is_valid (mark t j) ≡ true
Step-mark {s} (pushes env ops id name e) j h = rw (e, mark-push env s ops id name j) h
Step-mark {s} (sees env id name e) j h = rw (e, mark-seen_device env s id name j) h
Step-mark {s} (revokes env id e) j h = rw e (mark-revoke_device env s id j h)
Step-mark {s} (rotates env fits e) j h = rw (e, (bump_epoch-kept env s).1) h

Reach-mark :
    {s t : Store}
    → Reach s t
    → (j : Bytes) → is_valid (mark s j) ≡ true
    → is_valid (mark t j) ≡ true
Reach-mark here j h = h
Reach-mark (next r st) j h = Step-mark st j (Reach-mark r j h)

-- Once a device is revoked, no later push of it is accepted, whatever happens in between: it returns
-- an error and changes nothing.
pub Reach-push_revoked :
    (env env' : Env) (s t : Store) (ops : List Op) (id name : Bytes)
    → id ≢ []
    → (revoke_device env s id).1 ≡ ok tt
    → Reach (revoke_device env s id).0 t
    → (e : Fault) × ((push env' t ops id name).1 ≡ err e) × ((push env' t ops id name).0 ≡ t)
Reach-push_revoked env env' s t ops id name ne ok_ r =
    push_revoked env' t ops id name ne
      (Reach-mark r id (revoke_device-IsRevocation env s id ok_).marked)
