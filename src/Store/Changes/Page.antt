-- ===== src/Store/Changes/Page.antt =====
-- A page of a sound store.
use claude_mem_lan_sync.Prelude.{ℕ, zero, suc, ◌+◌, ◌<◌, ◌≡◌, refl, List, [], ◌∷◌, arith, drop}
use claude_mem_lan_sync.Store.Tables.{OpRow}
use claude_mem_lan_sync.Store.Tables.Rows.{Runs}
use claude_mem_lan_sync.Store.Changes.{rows_after, order_by_seq}

rows_after-all :
    (n since : ℕ) (rows : List OpRow) → Runs n rows → since < n → rows_after since rows ≡ rows
unfolding rows_after
rows_after-all n since [] h lt = refl
rows_after-all n since (r ∷ rows) h lt = ground (arith, rows_after-all (suc n) since rows h.1)

-- In a numbered table the rows behind a cursor are those that the cursor does not count.
pub rows_after-drop :
    (n k since : ℕ) (rows : List OpRow)
    → Runs (suc n) rows
    → since ≡ n + k
    → rows_after since rows ≡ drop k rows
unfolding rows_after
rows_after-drop n zero since [] h e = refl
rows_after-drop n (suc k) since [] h e = refl
rows_after-drop n zero since (r ∷ rows) h e =
    rows_after-all (suc n) since (r ∷ rows) h (omega arith)
rows_after-drop n (suc k) since (r ∷ rows) h e =
    ground (arith, rows_after-drop (suc n) k since rows h.1 (omega arith))

Runs-drop : (n k : ℕ) (rows : List OpRow) → Runs n rows → Runs (n + k) (drop k rows)
Runs-drop n zero rows h = let same : n + 0 ≡ n = omega arith in rw same h
Runs-drop n (suc k) [] h = tt
Runs-drop n (suc k) (r ∷ rows) h =
    let same : n + suc k ≡ suc n + k = omega arith in rw same (Runs-drop (suc n) k rows h.1)

pub order_by_seq-Runs : (n : ℕ) (rows : List OpRow) → Runs n rows → order_by_seq rows ≡ rows
unfolding order_by_seq
order_by_seq-Runs n [] h = refl
order_by_seq-Runs n (r ∷ []) h = refl
order_by_seq-Runs n (r ∷ x ∷ rows) h = rw (order_by_seq-Runs (suc n) (x ∷ rows) h.1) (ground arith)

-- Behind a cursor the numbers go on.
pub Runs-drop_log :
    (since : ℕ) (rows : List OpRow) → Runs 1 rows → Runs (suc since) (drop since rows)
Runs-drop_log since rows h =
    let next : suc since ≡ 1 + since = omega arith in rw next (Runs-drop 1 since rows h)

-- The rows that the query of `Changes` returns for a sound store.
pub query-rows :
    (since : ℕ) (rows : List OpRow)
    → Runs 1 rows
    → order_by_seq (rows_after since rows) ≡ drop since rows
query-rows since rows h =
    rw (rows_after-drop 0 since since rows h (omega arith))
      (order_by_seq-Runs (1 + since) (drop since rows) (Runs-drop 1 since rows h))
