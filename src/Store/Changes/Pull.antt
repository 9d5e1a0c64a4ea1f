-- ===== src/Store/Changes/Pull.antt =====
-- A device that pulls page after page reaches the head, with the whole log behind its cursor.
-- The loop is the client's, as docs/protocol.md describes it: the next cursor is the number of the last
-- operation of the page, and the loop goes on while the page says `more`.
use claude_mem_lan_sync.Prelude.{
  ℕ, zero, suc, ◌+◌, ◌-◌, ◌≤◌, ◌<◌, ◌≡◌, refl, sym, ◌∙◌, Bool, true, false, List, [], ◌∷◌, ◌++◌,
  map, Option, none, some, arith, length, take, drop, ltb, Result, ok, err, Bool-cases, inl, inr, ℤ,
  take-append-drop, length-drop, take-all, ltb→lt,
}
use mathlib.Core.List.{map-append}
use claude_mem_lan_sync.Proto.Dec.{max_int64}
use claude_mem_lan_sync.Proto.Errors.{Fault}
use claude_mem_lan_sync.Store.Env.{Call, Env}
use claude_mem_lan_sync.Store.Tables.{OpRow, Store}
use claude_mem_lan_sync.Store.Invariant.{IsSound}
use claude_mem_lan_sync.Store.Changes.{ChangeOp, ChangesResult, change_of, changes}
use claude_mem_lan_sync.Store.Changes.Cursor.{IsPage-Follows, Follows, changes-IsPage}

abbrev add_page : List ChangeOp → Option (List ChangeOp) → Option (List ChangeOp)
add_page ops none = none
add_page ops (some rest) = some (ops ++ rest)

abbrev last_seq : ℕ → List ChangeOp → ℕ
last_seq n [] = n
last_seq n (op ∷ ops) = last_seq op.seq ops

-- `next` goes on from a cursor.
abbrev after_page : (ℕ → Option (List ChangeOp)) → ℕ → List ChangeOp → Bool → Option (List ChangeOp)
after_page next since ops true = add_page ops (next (last_seq since ops))
after_page next since ops false = some ops

abbrev after_request :
    (ℕ → Option (List ChangeOp)) → ℕ → Result Fault ChangesResult → Option (List ChangeOp)
after_request next since (err e) = none
after_request next since (ok r) = after_page next since r.ops r.more

module _ (env : Env) (s : Store) (limit max_bytes : ℤ) where
  -- `none`: a request failed, or the fuel ran out.
  pub pull : ℕ → ℕ → Option (List ChangeOp)
  pull zero since = none
  pull (suc fuel) since = after_request (pull fuel) since (changes env s since limit max_bytes)

drop-nil {ℓ} : {A : Type ℓ} (n : ℕ) → drop {A = A} n [] ≡ []
drop-nil zero = refl
drop-nil (suc n) = refl

drop-drop {ℓ} : {A : Type ℓ} (m k : ℕ) (xs : List A) → drop k (drop m xs) ≡ drop (m + k) xs
drop-drop zero k xs = let e : 0 + k ≡ k = omega arith in rw e
drop-drop (suc m) k [] = drop-nil k ∙ sym (drop-nil (suc m + k))
drop-drop (suc m) k (x ∷ xs) =
    let e : suc m + k ≡ suc (m + k) = omega arith in rw e (drop-drop m k xs)

-- The last number of a page of `k` operations behind `n`.
last_seq-Follows :
    (n k : ℕ) (rows : List OpRow)
    → Follows n (map change_of (take k rows))
    → k ≤ length rows
    → last_seq n (map change_of (take k rows)) ≡ n + k
last_seq-Follows n zero rows h fits = omega arith
last_seq-Follows n (suc k) [] h fits = absurd (omega arith)
last_seq-Follows n (suc k) (r ∷ rows) h fits =
    rw h.0 (omega (arith, last_seq-Follows (suc n) k rows h.1 (omega arith)))

module _ (env : Env) (s : Store) (limit max_bytes : ℤ) (quiet : (c : Call) → env.fails c ≡ false)
    (h : IsSound s) where
  -- The rest of the log behind a cursor is a page and the rest behind the page.
  page_and_rest :
      (since size : ℕ)
      → map change_of (take size (drop since s.tables.ops))
          ++ map change_of (drop (since + size) s.tables.ops)
        ≡ map change_of (drop since s.tables.ops)
  page_and_rest since size = rw (
    ← drop-drop since size s.tables.ops,
    ← map-append,
    take-append-drop size (drop since s.tables.ops),
  )

  -- Whatever the limits of the pages, a device whose cursor is in the log pulls, in order and each
  -- once, exactly the operations behind its cursor, and one request for each of them and one more are
  -- enough.
  pub pull-drop :
      (fuel since : ℕ)
      → since ≤ length s.tables.ops
      → length s.tables.ops - since < fuel
      → pull env s limit max_bytes fuel since ≡ some (map change_of (drop since s.tables.ops))
  unfolding pull
  pull-drop zero since inside enough = absurd (omega arith)
  pull-drop (suc fuel) since inside enough =
      let fits : since ≤ max_int64 = omega (arith, h.bounded, h.counted) in
      let (r, got, p) = changes-IsPage env s since limit max_bytes quiet h fits in
      let rows = drop since s.tables.ops in
      elim (Bool-cases r.more) [
        | inl more ↦
            let left : p.size < length rows = ltb→lt _ _ (sym p.more ∙ more) in
            let moved = p.moves (omega arith) in
            let next : last_seq since r.ops ≡ since + p.size =
              rw p.ops
                (last_seq-Follows since p.size rows (rw p.ops at (IsPage-Follows h p)) p.within) in
            let ih =
              pull-drop fuel (since + p.size) (omega (arith, length-drop since s.tables.ops))
                (omega (arith, length-drop since s.tables.ops)) in
            rw (got, more, next, ih, p.ops, page_and_rest since p.size)
        | inr last ↦
            let no_more : ltb p.size (length rows) ≡ false = sym p.more ∙ last in
            let all : length rows ≤ p.size = ground arith in
            rw (got, last, p.ops, take-all p.size rows all)
      ]
