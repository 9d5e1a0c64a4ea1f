-- ===== src/Cli/Lorem.antt =====
-- `lorem` of internal/cli/fixtures.go: a filler text.
pub mod Length
use claude_mem_lan_sync.Prelude.{
  ℕ, zero, suc, ◌%◌, Bool, true, false, List, [], ◌∷◌, ◌++◌, if◌then◌else◌, leb, ltb, ◌==◌, Bytes,
  codes, length, take,
}

-- `words[i%len(words)]`
abbrev pub word : ℕ → Bytes
word i =
    if i % 6 == 0
    then codes "lorem"
    else if i % 6 == 1
    then codes "ipsum"
    else if i % 6 == 2
    then codes "dolor"
    else if i % 6 == 3
    then codes "sit"
    else if i % 6 == 4
    then codes "amet"
    else codes "consectetur"

-- The inner loop; the words are in lower case already.
unfoldable pub write_word : ℕ → Bytes → Bytes → Bytes
write_word n [] out = out
write_word n (c ∷ w) out =
    let rest = write_word n w (out ++ c ∷ []) in if leb n (length out) then out else rest

abbrev pub write_space : ℕ → Bytes → Bytes
write_space n out = if ltb (length out) n then out ++ b' ' ∷ [] else out

-- The outer loop, on fuel: a round writes a byte at least.
unfoldable pub fill : ℕ → ℕ → ℕ → Bytes → Bytes
fill zero i n out = out
fill (suc fuel) i n out =
    let rest = fill fuel (suc i) n (write_space n (write_word n (word i) out)) in
    if leb n (length out) then out else rest

unfoldable pub lorem : Bytes → Bytes
lorem [] = []
lorem (c ∷ s) = take (length (c ∷ s)) (fill (length (c ∷ s)) 0 (length (c ∷ s)) [])
