-- ===== src/Proto/Unquote/RoundTrip.antt =====
-- A text that is spelled as a JSON string is read back as its UTF-8 bytes.
use claude_mem_lan_sync.Prelude.{
  ℕ, suc, ◌+◌, ◌-◌, ◌/◌, ◌%◌, ◌≤◌, ◌<◌, ◌≡◌, refl, subst, ◌∙◌, false, ◌||◌, List, [], ◌∷◌, ◌++◌,
  some, arith, ltb, ltb→lt, ◌==◌, Bytes, ok, length, Bool-cases, inl, inr, All, take-length-append,
  ◌>>=◌,
}
use claude_mem_lan_sync.Proto.Unquote.Spelling.{
  IsSpelled, itself, letter, unit, pair, letter_piece_lem, unit_piece_lem, pair_piece_lem,
}
use claude_mem_lan_sync.Proto.Unquote.{
  append_rune, sequence_size, is_surrogate, piece, unquote_loop, before_quote, unquote_json_string,
}

-- A Unicode character.
abbrev pub IsScalar : ℕ → Type 0
IsScalar r = (r ≤ 0x10ffff) × (is_surrogate r ≡ false)

-- UTF-8
unfoldable pub utf8 : List ℕ → Bytes
utf8 [] = []
utf8 (r ∷ rs) = append_rune r ++ utf8 rs

-- A text and what stands between the quotes of a JSON string that spells it.
pub data IsSpelling : List ℕ → Bytes → Type 0 where
  all_spelled : IsSpelling [] []
  then_spelled :
      {r : ℕ} {rs : List ℕ} (w : Bytes) {inner : Bytes}
      → IsSpelled r w
      → IsSpelling rs inner
      → IsSpelling (r ∷ rs) (w ++ inner)

-- A sequence that is skipped.
unquote_loop-skip : (p s : Bytes) → unquote_loop (length p) (p ++ s) ≡ unquote_loop 0 s
unfolding unquote_loop
unquote_loop-skip [] s = refl
unquote_loop-skip (c ∷ p) s = unquote_loop-skip p s

two_bytes :
    (r : ℕ) (s : Bytes)
    → 0x80 ≤ r
    → r < 0x800
    → sequence_size (0xc0 + r / 64) ((0x80 + r % 64) ∷ s) ≡ 2
unfolding sequence_size
two_bytes r s lo hi = ground arith

three_bytes :
    (r : ℕ) (s : Bytes)
    → 0x800 ≤ r
    → r < 0x10000
    → is_surrogate r ≡ false
    → sequence_size (0xe0 + r / 4096) ((0x80 + r / 64 % 64) ∷ (0x80 + r % 64) ∷ s) ≡ 3
unfolding sequence_size
three_bytes r s lo hi scalar = ground arith

four_bytes :
    (r : ℕ) (s : Bytes)
    → 0x10000 ≤ r
    → r ≤ 0x10ffff
    → sequence_size
        (0xf0 + r / 262144)
        ((0x80 + r / 4096 % 64) ∷ (0x80 + r / 64 % 64) ∷ (0x80 + r % 64) ∷ s)
      ≡ 4
unfolding sequence_size
four_bytes r s lo hi = ground arith

-- The bytes `c ∷ p` are one round of the loop, which appends `q`.
abbrev IsRound : Bytes → Bytes → Type 0
IsRound q [] = ⊥
IsRound q (c ∷ p) = (s : Bytes) → piece c (p ++ s) ≡ ok (q, suc (length p))

raw-turn :
    (c : ℕ) (p : Bytes)
    → 0x80 ≤ c
    → ((s : Bytes) → sequence_size c (p ++ s) ≡ suc (length p))
    → IsRound (c ∷ p) (c ∷ p)
unfolding piece
raw-turn c p wide size s = ground (arith, size s, take-length-append p s (length p))

append_rune-IsRound : (r : ℕ) → IsScalar r → 0x80 ≤ r → IsRound (append_rune r) (append_rune r)
unfolding append_rune
append_rune-IsRound r (top, scalar) wide =
    let ascii : ltb r 0x80 ≡ false = ground arith in
    let valid : ltb 0x10ffff r ≡ false = ground arith in
    elim (Bool-cases (ltb r 0x800)) [
      | inl two ↦
          rw (ascii, two)
            (raw-turn (0xc0 + r / 64) ((0x80 + r % 64) ∷ []) (omega arith)
              (λ s. two_bytes r s wide (ltb→lt r 0x800 two)))
      | inr more ↦
          let above : 0x800 ≤ r = ground arith in
          elim (Bool-cases (ltb r 0x10000)) [
            | inl three ↦
                rw (ascii, more, scalar, valid, three)
                  (raw-turn (0xe0 + r / 4096) ((0x80 + r / 64 % 64) ∷ (0x80 + r % 64) ∷ [])
                    (omega arith) (λ s. three_bytes r s above (ltb→lt r 0x10000 three) scalar))
            | inr four ↦
                let high : 0x10000 ≤ r = ground arith in
                rw (ascii, more, scalar, valid, four)
                  (raw-turn (0xf0 + r / 262144)
                    ((0x80 + r / 4096 % 64) ∷ (0x80 + r / 64 % 64) ∷ (0x80 + r % 64) ∷ [])
                    (omega arith) (λ s. four_bytes r s high top))
          ]
    ]

append_rune-ascii : (r : ℕ) → r < 0x80 → append_rune r ≡ r ∷ []
unfolding append_rune
append_rune-ascii r h = ground arith

ascii_piece :
    (r : ℕ) (s : Bytes)
    → (r == b'"' || r == b'\\') ≡ false
    → 0x20 ≤ r
    → r < 0x80
    → piece r s ≡ ok (append_rune r, 1)
unfolding piece
ascii_piece r s plain lo hi = ground (arith, append_rune-ascii r)

raw-IsRound :
    (r : ℕ)
    → IsScalar r
    → 0x20 ≤ r
    → (r == b'"' || r == b'\\') ≡ false
    → IsRound (append_rune r) (append_rune r)
raw-IsRound r scalar printed plain = elim (Bool-cases (ltb r 0x80)) [
  | inl ascii ↦
      let one = append_rune-ascii r (ltb→lt r 0x80 ascii) in
      rw one (λ s.
        subst (λ q. piece r s ≡ ok (q, 1)) one
          (ascii_piece r s plain printed (ltb→lt r 0x80 ascii)))
  | inr wide ↦ append_rune-IsRound r scalar (ground arith)
]

IsSpelled-IsRound : {r : ℕ} {w : Bytes} → IsScalar r → IsSpelled r w → IsRound (append_rune r) w
IsSpelled-IsRound {r} scalar (itself printed plain) = raw-IsRound r scalar printed plain
IsSpelled-IsRound scalar (letter e) = λ s. letter_piece_lem s e
IsSpelled-IsRound scalar (unit whole u) = λ s. unit_piece_lem s whole u
IsSpelled-IsRound {r} scalar (pair high low h l e first second) =
    λ s. pair_piece_lem r high low s h l e first second

unquote_loop-round :
    (q w s : Bytes)
    → IsRound q w
    → unquote_loop 0 (w ++ s) ≡ (unquote_loop 0 s >>= λ out. ok (q ++ out))
unfolding unquote_loop
unquote_loop-round q [] s round = elim round [ ]
unquote_loop-round q (c ∷ p) s round =
    let skipped : suc (length p) - 1 ≡ length p = omega arith in
    rw (round s, skipped, unquote_loop-skip p s) refl

unquote_loop-empty : unquote_loop 0 [] ≡ ok []
unfolding unquote_loop
unquote_loop-empty = refl

IsSpelling-unquote_loop :
    (rs : List ℕ) {inner : Bytes}
    → All IsScalar rs
    → IsSpelling rs inner
    → unquote_loop 0 inner ≡ ok (utf8 rs)
unfolding utf8
IsSpelling-unquote_loop [] _ all_spelled = unquote_loop-empty
IsSpelling-unquote_loop (r ∷ rs) (scalar, scalars) (then_spelled w {inner} one rest) =
    unquote_loop-round (append_rune r) w inner (IsSpelled-IsRound scalar one)
    ∙ rw (IsSpelling-unquote_loop rs scalars rest) refl

before_quote-concat : (s : Bytes) → before_quote (s ++ b'"' ∷ []) ≡ some s
unfolding before_quote
before_quote-concat [] = refl
before_quote-concat (c ∷ []) = refl
before_quote-concat (c ∷ d ∷ s) = rw (before_quote-concat (d ∷ s)) refl

-- A JSON string that spells a text of Unicode characters is read as the UTF-8 bytes of the text, whichever
-- spelling each character has of those that JSON allows: itself, if it is no quote, backslash or control
-- character; the escape of one letter; or one unit of UTF-16 or a pair of them in digits of either case.
pub utf8-unquote_json_string :
    (rs : List ℕ) (inner : Bytes)
    → All IsScalar rs
    → IsSpelling rs inner
    → unquote_json_string (b'"' ∷ inner ++ b'"' ∷ []) ≡ ok (utf8 rs)
unfolding unquote_json_string
utf8-unquote_json_string rs inner scalars spells =
    rw (before_quote-concat inner) (IsSpelling-unquote_loop rs scalars spells)
