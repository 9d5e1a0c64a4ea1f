-- ===== src/Store/Changes/Cursor.antt =====
-- What a client's cursor gets: pages with no gap, that end only at the head or at a limit.
use claude_mem_lan_sync.Prelude.{
  ℕ, zero, suc, ◌≤◌, ◌<◌, ◌≡◌, refl, ap, sym, ◌∙◌, Bool, true, false, List, [], ◌∷◌, map, arith,
  length, take, drop, ltb, ok, inl, ◌⊎◌, ℤ, ltb→lt,
}
use claude_mem_lan_sync.Proto.Dec.{max_int64}
use claude_mem_lan_sync.Proto.Dec.RoundTrip.{parse_dec_positive-dec_string}
use claude_mem_lan_sync.Proto.Op.{max_page_limit}
use claude_mem_lan_sync.Store.Env.{Call, Env, begin, read_state, read_page}
use claude_mem_lan_sync.Store.Tables.{OpRow, Store}
use claude_mem_lan_sync.Store.Tables.Rows.{Runs}
use claude_mem_lan_sync.Store.Invariant.{IsSound}
use claude_mem_lan_sync.Store.Changes.{
  ChangeOp, ChangesResult, page_limit, page_bytes, change_of, cursor_of, epoch_of, changes,
}
use claude_mem_lan_sync.Store.Changes.Page.{query-rows, Runs-drop_log}
use claude_mem_lan_sync.Store.Changes.Collect.{IsCollected, collect-IsCollected, body_bytes}

take-take {ℓ} : {A : Type ℓ} (k n : ℕ) (xs : List A) → k ≤ n → take k (take n xs) ≡ take k xs
take-take zero n xs h = refl
take-take (suc k) zero xs h = absurd (omega arith)
take-take (suc k) (suc n) [] h = refl
take-take (suc k) (suc n) (x ∷ xs) h = ap (λ ys. x ∷ ys) (take-take k n xs (omega arith))

ltb-length-take {ℓ} :
    {A : Type ℓ} (k n : ℕ) (xs : List A) → k < n → ltb k (length (take n xs)) ≡ ltb k (length xs)
ltb-length-take k zero xs h = absurd (omega arith)
ltb-length-take k (suc n) [] h = refl
ltb-length-take zero (suc n) (x ∷ xs) h = ground arith
ltb-length-take (suc k) (suc n) (x ∷ xs) h = ground (arith, ltb-length-take k n xs (omega arith))

length-take-le {ℓ} : {A : Type ℓ} (n : ℕ) (xs : List A) → length (take n xs) ≤ length xs
length-take-le zero xs = omega arith
length-take-le (suc n) [] = omega arith
length-take-le (suc n) (x ∷ xs) = omega (arith, length-take-le n xs)

length-take-pos {ℓ} :
    {A : Type ℓ} (n : ℕ) (xs : List A) → 0 < length xs → 0 < length (take (suc n) xs)
length-take-pos n [] h = h
length-take-pos n (x ∷ xs) h = omega arith

page_limit-bounds : (limit : ℤ) → (0 < page_limit limit) × (page_limit limit ≤ max_page_limit)
page_limit-bounds limit = ground arith

-- The page that a cursor gets from a log: `size` rows behind the cursor, and whether more follow.
pub record IsPage (s : Store) (since n max_bytes : ℕ) (r : ChangesResult) : Type 0 where
  pub size : ℕ
  pub ops : r.ops ≡ map change_of (take size (drop since s.tables.ops))
  pub more : r.more ≡ ltb size (length (drop since s.tables.ops))
  pub within : size ≤ length (drop since s.tables.ops)
  pub limited : size ≤ n
  pub small : (body_bytes (take size (drop since s.tables.ops)) ≤ max_bytes) ⊎ (size ≤ 1)
  pub full :
      r.more ≡ true
      → (size ≡ n) ⊎ (max_bytes < body_bytes (take (suc size) (drop since s.tables.ops)))
  pub moves : 0 < length (drop since s.tables.ops) → 0 < size
  pub head : r.head_seq ≡ length s.tables.ops
  pub epoch : r.epoch ≡ s.epoch

collected-IsPage :
    (s : Store) (since n max_bytes : ℕ) (more : Bool) (ops : List ChangeOp)
    → IsSound s
    → (c : IsCollected n max_bytes 0 0 (take (suc n) (drop since s.tables.ops)))
    → ops ≡ map change_of (take c.size (take (suc n) (drop since s.tables.ops)))
    → more ≡ ltb c.size (length (take (suc n) (drop since s.tables.ops)))
    → 0 < n
    → IsPage s since n max_bytes
        (record { ops = ops; more = more; head_seq = s.tables.meta.head_seq; epoch = s.epoch })
collected-IsPage s since n max_bytes more ops h c e e' pos =
    let rows = drop since s.tables.ops in
    let size_lt : c.size < suc n = omega (arith, c.limited) in
    let same : take c.size (take (suc n) rows) ≡ take c.size rows =
      take-take c.size (suc n) rows (omega (arith, c.limited)) in
    record {
      size = c.size;
      ops = e ∙ ap (map change_of) same;
      more = e' ∙ ltb-length-take c.size (suc n) rows size_lt;
      within = omega (arith, c.within, length-take-le (suc n) rows);
      limited = omega (arith, c.limited);
      small = rw (← same) (ground (arith, c.small));
      full = λ on.
          let cut : c.size < length (take (suc n) rows) = ltb→lt _ _ (sym e' ∙ on) in
          rw (← take-take (suc c.size) (suc n) rows size_lt) (ground (arith, c.full cut));
      moves = λ left. c.moves refl pos (length-take-pos n rows left);
      head = h.counted;
      epoch = refl;
    }

-- The rows behind the cursor as the client numbers them: no gap, from the cursor plus one.
abbrev pub Follows : ℕ → List ChangeOp → Type 0
Follows n [] = Unit
Follows n (op ∷ ops) = (op.seq ≡ suc n) × Follows (suc n) ops

Follows-take :
    (k n : ℕ) (rows : List OpRow) → Runs (suc n) rows → Follows n (map change_of (take k rows))
Follows-take zero n rows h = tt
Follows-take (suc k) n [] h = tt
Follows-take (suc k) n (r ∷ rows) h = (h.0, Follows-take k (suc n) rows h.1)

pub IsPage-Follows :
    {s : Store} {since n b : ℕ} {r : ChangesResult}
    → IsSound s
    → IsPage s since n b r
    → Follows since r.ops
IsPage-Follows {s} {since} h p = rw p.ops (
    Follows-take p.size since (drop since s.tables.ops)
      (Runs-drop_log since s.tables.ops h.numbered))

cursor_of-fits : (since : ℕ) → since ≤ max_int64 → cursor_of since ≡ ok tt
unfolding cursor_of
cursor_of-fits since h = ground arith

epoch_of-stored : (s : Store) → IsSound s → epoch_of s.tables.meta.epoch ≡ ok s.epoch
unfolding epoch_of
epoch_of-stored s h =
    rw (h.epoch_stored, epoch_of, parse_dec_positive-dec_string s.epoch h.epoch_pos h.epoch_fits)

-- A cursor that SQLite can hold gets a page, if no call fails.
pub changes-IsPage :
    (env : Env) (s : Store) (since : ℕ) (limit max_bytes : ℤ)
    → ((c : Call) → env.fails c ≡ false)
    → IsSound s
    → since ≤ max_int64
    → (r : ChangesResult) × (changes env s since limit max_bytes ≡ ok r)
      × IsPage s since (page_limit limit) (page_bytes max_bytes) r
unfolding changes
changes-IsPage env s since limit max_bytes quiet h fits =
    let n = page_limit limit in
    let rows = drop since s.tables.ops in
    let c =
      collect-IsCollected n (page_bytes max_bytes) 0 0 (take (suc n) rows) (omega arith)
        (inl (omega arith)) in
    let pos = (page_limit-bounds limit).0 in
    (
      record {
        ops = map change_of (take c.size (take (suc n) rows));
        more = ltb c.size (length (take (suc n) rows));
        head_seq = s.tables.meta.head_seq;
        epoch = s.epoch;
      },
      rw (
        cursor_of-fits since fits,
        quiet begin,
        quiet read_state,
        epoch_of-stored s h,
        quiet read_page,
        query-rows since s.tables.ops h.numbered,
        c.page,
      ),
      collected-IsPage s since n (page_bytes max_bytes) _ _ h c refl refl pos,
    )

ltb-zero : (n : ℕ) → ltb n 0 ≡ false
ltb-zero n = ground arith

drop-past {ℓ} : {A : Type ℓ} (n : ℕ) (xs : List A) → length xs ≤ n → drop n xs ≡ []
drop-past zero [] h = refl
drop-past zero (x ∷ xs) h = absurd (omega arith)
drop-past (suc n) [] h = refl
drop-past (suc n) (x ∷ xs) h = drop-past n xs (omega arith)

take-nil {ℓ} : {A : Type ℓ} (n : ℕ) → take {A = A} n [] ≡ []
take-nil zero = refl
take-nil (suc n) = refl

-- A cursor at the head or past it gets an empty page that announces no more, without an error.
pub changes_past_head :
    (env : Env) (s : Store) (since : ℕ) (limit max_bytes : ℤ)
    → ((c : Call) → env.fails c ≡ false)
    → IsSound s
    → since ≤ max_int64
    → length s.tables.ops ≤ since
    → changes env s since limit max_bytes
      ≡ ok (record { ops = []; more = false; head_seq = length s.tables.ops; epoch = s.epoch })
changes_past_head env s since limit max_bytes quiet h fits past =
    let (r, got, p) = changes-IsPage env s since limit max_bytes quiet h fits in
    let none_left : drop since s.tables.ops ≡ [] = drop-past since s.tables.ops past in
    let empty : r.ops ≡ [] =
      p.ops
      ∙ ap (λ rows. map change_of (take p.size rows)) none_left
      ∙ ap (map change_of) (take-nil p.size) in
    let last : r.more ≡ false =
      p.more ∙ ap (λ (rows : List OpRow). ltb p.size (length rows)) none_left ∙ ltb-zero p.size in
    got ∙ ground (arith, empty, last, p.head, p.epoch)
