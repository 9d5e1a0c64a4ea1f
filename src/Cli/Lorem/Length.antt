-- ===== src/Cli/Lorem/Length.antt =====
-- The filler has the length of the text, and nothing else of it.
use claude_mem_lan_sync.Prelude.{
  ℕ, zero, suc, ◌+◌, ◌≤◌, ◌<◌, ◌≡◌, refl, [], ◌∷◌, ◌++◌, leb, Bytes, length, take-all,
  length-append, arith, Bool-cases, inl, inr, false,
}
use claude_mem_lan_sync.Cli.Lorem.{word, write_word, write_space, fill, lorem}

write_word_bounds :
    (n : ℕ) (w out : Bytes)
    → length out ≤ n
    → (length out ≤ length (write_word n w out)) × (length (write_word n w out) ≤ n)
unfolding write_word
write_word_bounds n [] out h = (omega arith, h)
write_word_bounds n (c ∷ w) out h = elim (Bool-cases (leb n (length out))) [
  | inl full ↦ rw full (omega arith, h)
  | inr room ↦
      let longer : length (out ++ c ∷ []) ≡ length out + 1 = length-append out (c ∷ []) in
      let fits : length (out ++ c ∷ []) ≤ n = ground (arith, longer) in
      rw room (omega (arith, longer, write_word_bounds n w (out ++ c ∷ []) fits))
]

word_pos : (i : ℕ) → 0 < length (word i)
word_pos i = ground arith

write_word_grows :
    (n : ℕ) (w out : Bytes)
    → 0 < length w
    → length out < n
    → length out < length (write_word n w out)
unfolding write_word
write_word_grows n [] out some_ room = absurd (omega arith)
write_word_grows n (c ∷ w) out some_ room =
    let longer : length (out ++ c ∷ []) ≡ length out + 1 = length-append out (c ∷ []) in
    let open_ : leb n (length out) ≡ false = ground arith in
    rw open_
      (omega (arith, longer, (write_word_bounds n w (out ++ c ∷ []) (omega (arith, longer))).0))

write_space_bounds :
    (n : ℕ) (out : Bytes)
    → length out ≤ n
    → (length out ≤ length (write_space n out)) × (length (write_space n out) ≤ n)
write_space_bounds n out h = ground (arith, length-append out (b' ' ∷ []))

fill-length :
    (fuel i n : ℕ) (out : Bytes)
    → length out ≤ n
    → n ≤ length out + fuel
    → length (fill fuel i n out) ≡ n
unfolding fill
fill-length zero i n out h enough = omega arith
fill-length (suc fuel) i n out h enough = elim (Bool-cases (leb n (length out))) [
  | inl full ↦ rw full (ground arith)
  | inr room ↦
      let word_out : Bytes = write_word n (word i) out in
      let less : length out < n = ground arith in
      let (_, within) = write_word_bounds n (word i) out h in
      let grows = write_word_grows n (word i) out (word_pos i) less in
      let (longer, short) = write_space_bounds n word_out within in
      rw room (fill-length fuel (suc i) n (write_space n word_out) short (omega arith))
]

pub length-lorem : (s : Bytes) → length (lorem s) ≡ length s
unfolding lorem
length-lorem [] = refl
length-lorem (c ∷ s) =
    let full = fill-length (length (c ∷ s)) 0 (length (c ∷ s)) [] (omega arith) (omega arith) in
    rw
      (take-all (length (c ∷ s)) (fill (length (c ∷ s)) 0 (length (c ∷ s)) [])
        (omega (arith, full)))
      full

-- Texts of one length have the same filler.
pub lorem_same : (s t : Bytes) → length s ≡ length t → lorem s ≡ lorem t
unfolding lorem
lorem_same [] [] h = refl
lorem_same [] (c ∷ t) h = absurd (omega arith)
lorem_same (c ∷ s) [] h = absurd (omega arith)
lorem_same (c ∷ s) (d ∷ t) h = let same : length s ≡ length t = omega arith in rw same refl
