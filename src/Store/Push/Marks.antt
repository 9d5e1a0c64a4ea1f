-- ===== src/Store/Push/Marks.antt =====
-- `Push` and the devices: it changes no revocation, and a revoked device pushes nothing.
use claude_mem_lan_sync.Prelude.{
  ◌≡◌, ◌≢◌, refl, ap, sym, ◌∙◌, Bool, true, List, [], ◌++◌, append-nil, Bytes, Result, ok, err,
}
use claude_mem_lan_sync.Proto.Errors.{Fault, reject, unauthorized}
use claude_mem_lan_sync.Proto.Op.{Op}
use claude_mem_lan_sync.Store.Env.{Env}
use claude_mem_lan_sync.Store.Tables.{OpRow, Tables, Store}
use claude_mem_lan_sync.Store.Invariant.{IsSound}
use claude_mem_lan_sync.Store.Devices.{device_revoked, is_valid, revoked_at}
use claude_mem_lan_sync.Store.Devices.Access.{mark, device_revoked-marked, revoked_at-upsert_device}
use claude_mem_lan_sync.Store.Push.{first_loop, push_tx, finish_push, push}
use claude_mem_lan_sync.Store.Push.Log.{push_all-IsPushed}
use claude_mem_lan_sync.Store.Push.Commit.{first_loop-IsSound, push_tx-eq-ok, finish_push-keeps}

module _ (env : Env) (s : Store) (ops : List Op) (id name : Bytes) where
  -- A push that fails or succeeds leaves the old rows where they are.
  pub push-Extends :
      IsSound s
      → (rows : List OpRow) × ((push env s ops id name).0.tables.ops ≡ s.tables.ops ++ rows)
  unfolding push
  push-Extends h =
      finish_push-keeps s (λ x. (rows : List OpRow) × (x.tables.ops ≡ s.tables.ops ++ rows))
        (push_tx env s ops id name) ([], sym (append-nil s.tables.ops))
        λ t acks e.
          let (l, devices, p, q, _) = push_tx-eq-ok env s ops id name e in
          let pushed =
            push_all-IsPushed env 0 (first_loop s) ops l acks (first_loop-IsSound s h) p in
          (pushed.added.0, ap (λ (x : Tables). x.ops) q ∙ pushed.added.1)

  pub mark-push : (j : Bytes) → mark (push env s ops id name).0 j ≡ mark s j
  unfolding push
  mark-push j =
      finish_push-keeps s (λ x. mark x j ≡ mark s j) (push_tx env s ops id name) refl
        λ t acks e.
          let (l, devices, p, q, u) = push_tx-eq-ok env s ops id name e in
          ap (λ (x : Tables). revoked_at j x.devices) q
          ∙ revoked_at-upsert_device env id name j s.tables.devices devices u

  push_tx-revoked :
      (o : Result Fault Bool)
      → device_revoked env s id ≡ o
      → id ≢ []
      → is_valid (mark s id) ≡ true
      → (e : Fault) × (push_tx env s ops id name ≡ err e)
  unfolding push_tx
  push_tx-revoked (err e) p ne h = (e, rw p)
  push_tx-revoked (ok b) p ne h = (
    reject unauthorized,
    let yes_revoked : b ≡ true = device_revoked-marked env s id b h ne p in rw (p, yes_revoked),
  )

  -- A push of a revoked device returns an error and changes nothing.
  pub push_revoked :
      id ≢ []
      → is_valid (mark s id) ≡ true
      → (e : Fault) × ((push env s ops id name).1 ≡ err e) × ((push env s ops id name).0 ≡ s)
  unfolding push finish_push
  push_revoked ne h = let (e, p) = push_tx-revoked _ refl ne h in (e, rw p, rw p)
