-- ===== src/Store/Changes/Collect.antt =====
-- The loop of `Changes`: which rows go on the page.
use claude_mem_lan_sync.Prelude.{
  ℕ, suc, ◌+◌, ◌≤◌, ◌<◌, ◌≡◌, refl, ◌&&◌, List, [], ◌∷◌, map, arith, length, take, ltb, ◌==◌, ok,
  Bool-cases, inl, inr, ◌⊎◌,
}
use claude_mem_lan_sync.Store.Tables.{OpRow}
use claude_mem_lan_sync.Store.Changes.{change_of, collect}

abbrev pub body_bytes : List OpRow → ℕ
body_bytes [] = 0
body_bytes (r ∷ rows) = length r.body + body_bytes rows

-- What the loop puts on the page, with `count` operations of `bytes` bytes on it already: the first
-- rows, as many as the two limits let through.
pub record IsCollected (limit max_bytes count bytes : ℕ) (rows : List OpRow) : Type 0 where
  pub size : ℕ
  pub page :
      collect limit max_bytes count bytes rows
      ≡ ok (map change_of (take size rows), ltb size (length rows))
  pub within : size ≤ length rows
  pub limited : count + size ≤ limit
  pub small : (bytes + body_bytes (take size rows) ≤ max_bytes) ⊎ (count + size ≤ 1)
  pub full :
      size < length rows
      → (count + size ≡ limit) ⊎ (max_bytes < bytes + body_bytes (take (suc size) rows))
  pub moves : count ≡ 0 → 0 < limit → 0 < length rows → 0 < size

pub collect-IsCollected :
    (limit max_bytes count bytes : ℕ) (rows : List OpRow)
    → count ≤ limit
    → (bytes ≤ max_bytes) ⊎ (count ≤ 1)
    → IsCollected limit max_bytes count bytes rows
unfolding collect
collect-IsCollected limit max_bytes count bytes [] h small = record {
  size = 0;
  page = refl;
  within = omega arith;
  limited = omega arith;
  small = ground arith;
  full = λ lt. absurd (omega arith);
  moves = λ e lt lt'. absurd (omega arith);
}
collect-IsCollected limit max_bytes count bytes (r ∷ rows) h small =
    elim (Bool-cases (count == limit)) [
      | inl full ↦ record {
        size = 0;
        page = ground arith;
        within = omega arith;
        limited = omega arith;
        small = ground arith;
        full = λ _. inl (ground arith);
        moves = λ e lt lt'. absurd (ground arith);
      }
      | inr room ↦ elim (Bool-cases (ltb 0 count && ltb max_bytes (bytes + length r.body))) [
        | inl heavy ↦ record {
          size = 0;
          page = ground arith;
          within = omega arith;
          limited = omega arith;
          small = ground arith;
          full = λ _. inr (ground arith);
          moves = λ e lt lt'. absurd (ground arith);
        }
        | inr light ↦
            let fits : (bytes + length r.body ≤ max_bytes) ⊎ (suc count ≤ 1) = ground arith in
            let ih =
              collect-IsCollected limit max_bytes (suc count) (bytes + length r.body) rows
                (ground arith) fits in
            record {
              size = suc ih.size;
              page = ground (arith, ih.page);
              within = omega (arith, ih.within);
              limited = omega (arith, ih.limited);
              small = omega (arith, ih.small);
              full = λ lt. ground (arith, ih.full (omega arith));
              moves = λ e lt lt'. omega arith;
            }
      ]
    ]
