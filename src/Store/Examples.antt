-- ===== src/Store/Examples.antt =====
-- The store at concrete inputs: tests, and instances of the theorems.
mod Opening
mod Steps
use claude_mem_lan_sync.Prelude.{
  ℕ, zero, suc, ◌≡◌, ◌≢◌, refl, Bool, true, false, List, [], ◌∷◌, ◌++◌, map, Option, none, some,
  arith, length, drop, take, get_elem?, ◌↔◌, ◌≤◌, Bytes, codes, Result, ok, err, pos, bytes_eq,
}
use claude_mem_lan_sync.Proto.Dec.{
  dec_string, digits, all_digits, is_canonical_decimal, parse_uint, parse_dec, parse_dec_positive,
}
use claude_mem_lan_sync.Proto.Errors.{Fault, reject, other, unauthorized}
use claude_mem_lan_sync.Proto.Op.{Op, Ack}
use claude_mem_lan_sync.Store.Env.{Call, Env, commit}
use claude_mem_lan_sync.Store.Tables.{
  OpRow, Meta, Tables, Store, existing_seq, stored_digest, insert_row,
}
use claude_mem_lan_sync.Store.Devices.{upsert_row, upsert_device, revoked_at, device_revoked}
use claude_mem_lan_sync.Store.Invariant.{IsSound}
use claude_mem_lan_sync.Store.Push.{
  PushResult, batch_seq, allocate, assign_seq, warn_on_digest_conflict, push_one, push_all, push_tx,
  finish_push, push, ack_of, row_of,
}
use claude_mem_lan_sync.Store.Push.Commit.{IsAcknowledged, push-IsSound, push_failed, push_acked}
use claude_mem_lan_sync.Store.Push.Retry.{push-push}
use claude_mem_lan_sync.Store.Push.Total.{push-total}
use claude_mem_lan_sync.Store.Push.Tuples.{push-share}
use claude_mem_lan_sync.Store.Changes.{ChangesResult, changes, page_limit, page_bytes, change_of}
use claude_mem_lan_sync.Store.Changes.Cursor.{
  IsPage, IsPage-Follows, Follows, changes-IsPage, changes_past_head,
}
use claude_mem_lan_sync.Store.Changes.Pull.{pull, pull-drop}

abbrev pub quiet : Env
quiet = record { now = 1000; random = 77; fresh_id = codes "ab12"; fails = λ _. false }

abbrev pub empty : Store
empty = record {
  tables = record {
    ops = [];
    meta = record { user_id = codes "ab12"; epoch = codes "42"; head_seq = 0 };
    devices = [];
  };
  user_id = codes "ab12";
  epoch = 42;
}

abbrev pub op_of : Bytes → ℕ → Bytes → Op
op_of id rev body = record {
  raw_literal = body;
  digest = body;
  id = id;
  kind = codes "observation";
  entity_rev = rev;
  origin_device_id = codes "laptop";
  origin_local_id = some 7;
}

-- The second revision of `a` comes twice, the second time with another body.
abbrev pub batch : List Op
batch =
    op_of (codes "a") 1 (codes "x")
    ∷ op_of (codes "a") 2 (codes "y")
    ∷ op_of (codes "a") 2 (codes "z")
    ∷ []

abbrev pub laptop : Bytes
laptop = codes "laptop"

abbrev pub pushed : PushResult
pushed = record {
  acks =
      ack_of (op_of (codes "a") 1 (codes "x")) 1
      ∷ ack_of (op_of (codes "a") 2 (codes "y")) 2
      ∷ ack_of (op_of (codes "a") 2 (codes "z")) 2
      ∷ [];
  head_seq = 2;
  projected_seq = 2;
}

-- Whatever a run of the store calls.
pub opens_all : Unit {0}
unfolding push push_tx finish_push push_all push_one assign_seq allocate warn_on_digest_conflict
    batch_seq existing_seq stored_digest insert_row upsert_row upsert_device revoked_at
    device_revoked dec_string digits bytes_eq
opens_all = tt

push_batch : (push quiet empty batch laptop (codes "Laptop")).1 ≡ ok pushed
unfolding opens_all
push_batch = refl

pub empty-IsSound : IsSound empty
unfolding dec_string digits
empty-IsSound = record {
  numbered = tt;
  distinct = tt;
  counted = refl;
  bounded = omega arith;
  epoch_stored = refl;
  epoch_pos = omega arith;
  epoch_fits = omega arith;
}

push_acked_example :
    IsAcknowledged batch empty (push quiet empty batch laptop (codes "Laptop")).0 pushed
push_acked_example = push_acked quiet empty batch laptop (codes "Laptop") empty-IsSound push_batch

push-IsSound_example : IsSound (push quiet empty batch laptop (codes "Laptop")).0
push-IsSound_example = push-IsSound quiet empty batch laptop (codes "Laptop") empty-IsSound

abbrev fails_commit : Call → Bool
fails_commit commit = true
fails_commit _ = false

abbrev full_disk : Env
full_disk = record quiet { fails = fails_commit }

push-full_disk : (push full_disk empty batch laptop (codes "Laptop")).1 ≡ err other
unfolding opens_all
push-full_disk = refl

-- The store after the batch.
abbrev pub two_rows : Store
two_rows = record empty {
  tables = record {
    ops =
        row_of quiet (op_of (codes "a") 1 (codes "x")) 1
        ∷ row_of quiet (op_of (codes "a") 2 (codes "y")) 2
        ∷ [];
    meta = record { user_id = codes "ab12"; epoch = codes "42"; head_seq = 2 };
    devices =
        record {
          device_id = laptop;
          device_name = codes "Laptop";
          first_seen = 1000;
          last_seen = 1000;
          revoked_at = none;
        }
        ∷ [];
  };
}

push-two_rows : (push quiet empty batch laptop (codes "Laptop")).0 ≡ two_rows
unfolding opens_all
push-two_rows = refl

pub two_rows-IsSound : IsSound two_rows
two_rows-IsSound = rw (← push-two_rows) push-IsSound_example

abbrev pub later : Env
later = record quiet { now = 2000 }

push-later :
    (push later (push quiet empty batch laptop (codes "Laptop")).0 batch laptop (codes "Laptop")).1
    ≡ ok pushed
unfolding opens_all
push-later = refl

push-push_example :
    ((push later
        (push quiet empty batch laptop (codes "Laptop")).0
        batch
        laptop
        (codes "Laptop")).0.tables.ops
      ≡ (push quiet empty batch laptop (codes "Laptop")).0.tables.ops)
    × (pushed.acks ≡ pushed.acks)
    × (pushed.head_seq ≡ pushed.head_seq)
push-push_example =
    push-push quiet later empty batch laptop (codes "Laptop") laptop (codes "Laptop") empty-IsSound
      push_batch push-later

laptop_active : device_revoked quiet two_rows laptop ≡ ok false
unfolding opens_all
laptop_active = refl

push-total_example :
    (r : PushResult) × ((push quiet two_rows batch laptop (codes "Laptop")).1 ≡ ok r)
push-total_example =
    push-total quiet (λ c. refl) two_rows batch laptop (codes "Laptop") two_rows-IsSound
      laptop_active (omega arith)

push-share_example :
    (a a' : Ack) × (get_elem? pushed.acks 1 ≡ some a)
    × (get_elem? pushed.acks 2 ≡ some a')
    × (1 ≤ a.seq)
    × (a.seq ≤ pushed.head_seq)
    × ((a.seq ≡ a'.seq) ↔ ((codes "a" ≡ codes "a") × (◌≡◌ {A = ℕ} 2 2)))
push-share_example =
    push-share quiet empty batch laptop (codes "Laptop") 1 2 (op_of (codes "a") 2 (codes "y"))
      (op_of (codes "a") 2 (codes "z")) empty-IsSound push_batch refl refl (omega arith)
      (omega arith)

-- Pages of one operation each.
pull-drop_example :
    pull quiet two_rows (pos 1) (pos 0) 3 0 ≡ some (map change_of (drop 0 two_rows.tables.ops))
pull-drop_example =
    pull-drop quiet two_rows (pos 1) (pos 0) (λ c. refl) two_rows-IsSound 3 0 (omega arith)
      (omega arith)
