-- ===== src/Proto/Unquote/Spelling.antt =====
-- How JSON lets a character be spelled in a string, and how the loop of `UnquoteJSONString` reads its
-- escapes. `JSON.stringify`, which a client uses, spells a quote, a backslash, a backspace, a tab, a line
-- feed, a form feed and a carriage return by a letter, another control character by four digits, and any
-- other character by itself.
use claude_mem_lan_sync.Prelude.{
  ℕ, ◌+◌, ◌*◌, ◌≤◌, ◌<◌, ◌≡◌, refl, ap, true, false, ◌||◌, [], ◌∷◌, some, arith, ◌==◌, Bytes, ok,
}
use claude_mem_lan_sync.Proto.Unquote.{
  append_rune, hex_digit, hex4, surrogate_pair, is_surrogate, piece,
}

-- The digits of a number below 16.
pub data IsHex : ℕ → ℕ → Type 0 where
  decimal : (d : ℕ) → d < 10 → IsHex d (b'0' + d)
  lower_case : (d : ℕ) → d < 6 → IsHex (10 + d) (b'a' + d)
  upper_case : (d : ℕ) → d < 6 → IsHex (10 + d) (b'A' + d)

-- The four digits of a unit of UTF-16.
pub record IsUnit (r : ℕ) (c1 c2 c3 c4 : ℕ) : Type 0 where
  pub first : ℕ
  pub second : ℕ
  pub third : ℕ
  pub fourth : ℕ
  pub first_digit : IsHex first c1
  pub second_digit : IsHex second c2
  pub third_digit : IsHex third c3
  pub fourth_digit : IsHex fourth c4
  pub in_all : r ≡ first * 4096 + second * 256 + third * 16 + fourth

-- The character of an escape of one letter.
pub data IsLetterFor : ℕ → ℕ → Type 0 where
  for_quote : IsLetterFor b'"' b'"'
  for_backslash : IsLetterFor b'\\' b'\\'
  for_slash : IsLetterFor b'/' b'/'
  for_backspace : IsLetterFor 8 b'b'
  for_tab : IsLetterFor 9 b't'
  for_line_feed : IsLetterFor 10 b'n'
  for_form_feed : IsLetterFor 12 b'f'
  for_carriage_return : IsLetterFor 13 b'r'

-- The spellings of a character: itself, the escape of a letter, and one or two units of UTF-16.
pub data IsSpelled (r : ℕ) : Bytes → Type 0 where
  itself : 0x20 ≤ r → (r == b'"' || r == b'\\') ≡ false → IsSpelled r (append_rune r)
  letter : {e : ℕ} → IsLetterFor r e → IsSpelled r (b'\\' ∷ e ∷ [])
  unit :
      {c1 c2 c3 c4 : ℕ}
      → is_surrogate r ≡ false
      → IsUnit r c1 c2 c3 c4
      → IsSpelled r (b'\\' ∷ b'u' ∷ c1 ∷ c2 ∷ c3 ∷ c4 ∷ [])
  pair :
      {c1 c2 c3 c4 d1 d2 d3 d4 : ℕ} (high low : ℕ)
      → high < 0x400
      → low < 0x400
      → r ≡ 0x10000 + high * 0x400 + low
      → IsUnit (0xd800 + high) c1 c2 c3 c4
      → IsUnit (0xdc00 + low) d1 d2 d3 d4
      → IsSpelled r (b'\\' ∷ b'u' ∷ c1 ∷ c2 ∷ c3 ∷ c4 ∷ b'\\' ∷ b'u' ∷ d1 ∷ d2 ∷ d3 ∷ d4 ∷ [])

hex_digit-IsHex : {d c : ℕ} → IsHex d c → hex_digit c ≡ some d
hex_digit-IsHex (decimal d h) = ground arith
hex_digit-IsHex (lower_case d h) = ground arith
hex_digit-IsHex (upper_case d h) = ground arith

hex4-IsUnit :
    {r c1 c2 c3 c4 : ℕ} (s : Bytes) → IsUnit r c1 c2 c3 c4 → hex4 (c1 ∷ c2 ∷ c3 ∷ c4 ∷ s) ≡ some r
unfolding hex4
hex4-IsUnit {r} s u =
    let sum : ((u.first * 16 + u.second) * 16 + u.third) * 16 + u.fourth ≡ r =
      omega (arith, u.in_all) in
    rw
      (
        hex_digit-IsHex u.first_digit,
        hex_digit-IsHex u.second_digit,
        hex_digit-IsHex u.third_digit,
        hex_digit-IsHex u.fourth_digit,
      )
      (ap some sum)

pub letter_piece_lem :
    {r e : ℕ} (s : Bytes) → IsLetterFor r e → piece b'\\' (e ∷ s) ≡ ok (append_rune r, 2)
unfolding piece append_rune
letter_piece_lem s for_quote = refl
letter_piece_lem s for_backslash = refl
letter_piece_lem s for_slash = refl
letter_piece_lem s for_backspace = refl
letter_piece_lem s for_tab = refl
letter_piece_lem s for_line_feed = refl
letter_piece_lem s for_form_feed = refl
letter_piece_lem s for_carriage_return = refl

pub unit_piece_lem :
    {r c1 c2 c3 c4 : ℕ} (s : Bytes)
    → is_surrogate r ≡ false
    → IsUnit r c1 c2 c3 c4
    → piece b'\\' (b'u' ∷ c1 ∷ c2 ∷ c3 ∷ c4 ∷ s) ≡ ok (append_rune r, 6)
unfolding piece
unit_piece_lem s scalar u = rw (hex4-IsUnit s u, scalar) refl

surrogate_pair_lem :
    (r high low : ℕ)
    → high < 0x400
    → low < 0x400
    → r ≡ 0x10000 + high * 0x400 + low
    → surrogate_pair (0xd800 + high) (0xdc00 + low) ≡ some r
surrogate_pair_lem r high low h l e = ground arith

pub pair_piece_lem :
    {c1 c2 c3 c4 d1 d2 d3 d4 : ℕ} (r high low : ℕ) (s : Bytes)
    → high < 0x400
    → low < 0x400
    → r ≡ 0x10000 + high * 0x400 + low
    → IsUnit (0xd800 + high) c1 c2 c3 c4
    → IsUnit (0xdc00 + low) d1 d2 d3 d4
    → piece b'\\' (b'u' ∷ c1 ∷ c2 ∷ c3 ∷ c4 ∷ b'\\' ∷ b'u' ∷ d1 ∷ d2 ∷ d3 ∷ d4 ∷ s)
      ≡ ok (append_rune r, 12)
unfolding piece
pair_piece_lem {c1} {c2} {c3} {c4} {d1} {d2} {d3} {d4} r high low s h l e first second =
    let surrogate : is_surrogate (0xd800 + high) ≡ true = ground arith in
    rw
      (
        hex4-IsUnit (b'\\' ∷ b'u' ∷ d1 ∷ d2 ∷ d3 ∷ d4 ∷ s) first,
        surrogate,
        hex4-IsUnit s second,
        surrogate_pair_lem r high low h l e,
      )
      refl
