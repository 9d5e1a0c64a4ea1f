-- ===== src/Store/Examples/Steps.antt =====
-- Runs of the store: instances of the theorems about every interleaving.
use claude_mem_lan_sync.Prelude.{◌≡◌, refl, arith, codes, ok, err, bytes_eq}
use claude_mem_lan_sync.Proto.Errors.{Fault}
use claude_mem_lan_sync.Store.Tables.{Store}
use claude_mem_lan_sync.Store.Invariant.{IsSound}
use claude_mem_lan_sync.Store.Devices.{seen_device, revoke_device, revoke_rows, rows_affected}
use claude_mem_lan_sync.Store.Open.{bump_epoch}
use claude_mem_lan_sync.Store.Push.{push}
use claude_mem_lan_sync.Store.Steps.{
  Reach, pushes, sees, rotates, here, next, Reach-IsSound, Reach-push_revoked,
}
use claude_mem_lan_sync.Store.Examples.{quiet, later, two_rows, batch, laptop, empty, empty-IsSound}

-- A push, a rotation of the epoch, and a sighting of another device.
abbrev end_of : Store → Store
end_of s =
    (seen_device later (bump_epoch quiet (push quiet s batch laptop (codes "Laptop")).0).0
      (codes "mac") (codes "Mac")).0

run_of : (s : Store) → Reach s (end_of s)
run_of s =
    next
      (next (next here (pushes quiet batch laptop (codes "Laptop") refl))
        (rotates quiet (omega arith) refl))
      (sees later (codes "mac") (codes "Mac") refl)

Reach-IsSound_example : IsSound (end_of empty)
Reach-IsSound_example = Reach-IsSound empty-IsSound (run_of empty)

revoke_laptop : (revoke_device quiet two_rows laptop).1 ≡ ok tt
unfolding revoke_device revoke_rows rows_affected bytes_eq
revoke_laptop = refl

Reach-push_revoked_example :
    let t = end_of (revoke_device quiet two_rows laptop).0 in
    (e : Fault) × ((push later t batch laptop (codes "Laptop")).1 ≡ err e)
    × ((push later t batch laptop (codes "Laptop")).0 ≡ t)
Reach-push_revoked_example =
    Reach-push_revoked quiet later two_rows (end_of (revoke_device quiet two_rows laptop).0) batch
      laptop (codes "Laptop") (cc) revoke_laptop (run_of (revoke_device quiet two_rows laptop).0)
