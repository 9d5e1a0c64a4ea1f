-- ===== src/Proto/Unquote.antt =====
-- internal/proto/unquote.go: the bytes that a JSON string literal spells, as the client hashed them.

pub mod Length
pub mod Spelling
pub mod RoundTrip
use claude_mem_lan_sync.Prelude.{
  ℕ, zero, suc, ◌+◌, ◌-◌, ◌*◌, ◌/◌, ◌%◌, Bool, true, false, ◌&&◌, ◌||◌, List, [], ◌∷◌, ◌++◌, Option,
  none, some, if◌then◌else◌, ltb, leb, ◌==◌, Bytes, Result, ok, err, ◌>>=◌, take,
}
use claude_mem_lan_sync.Proto.Errors.{Fault, reject, body_shape}

-- `RuneError`, which stands for what is no character.
abbrev pub rune_error : ℕ
rune_error = 0xfffd

abbrev pub is_surrogate : ℕ → Bool
is_surrogate r = leb 0xd800 r && ltb r 0xe000

-- `utf8.AppendRune`, on what is appended.
unfoldable pub append_rune : ℕ → Bytes
append_rune r =
    if ltb r 0x80
    then r ∷ []
    else if ltb r 0x800
    then (0xc0 + r / 64) ∷ (0x80 + r % 64) ∷ []
    else if is_surrogate r || ltb 0x10ffff r
    then 0xef ∷ 0xbf ∷ 0xbd ∷ []
    else if ltb r 0x10000
    then (0xe0 + r / 4096) ∷ (0x80 + r / 64 % 64) ∷ (0x80 + r % 64) ∷ []
    else (0xf0 + r / 262144) ∷ (0x80 + r / 4096 % 64) ∷ (0x80 + r / 64 % 64) ∷ (0x80 + r % 64) ∷ []

abbrev pub between : ℕ → ℕ → ℕ → Bool
between lo hi c = leb lo c && leb c hi

abbrev pub is_continuation : ℕ → Bool
is_continuation = between 0x80 0xbf

-- What the second byte of a sequence may be, by its first.
abbrev pub second_of : ℕ → ℕ → Bool
second_of c d =
    if c == 0xe0
    then between 0xa0 0xbf d
    else if c == 0xed
    then between 0x80 0x9f d
    else if c == 0xf0
    then between 0x90 0xbf d
    else if c == 0xf4
    then between 0x80 0x8f d
    else is_continuation d

abbrev pub holds_two : ℕ → Bytes → Bool
holds_two c (d ∷ _) = second_of c d
holds_two c [] = false

abbrev pub holds_three : ℕ → Bytes → Bool
holds_three c (d ∷ e ∷ _) = second_of c d && is_continuation e
holds_three c _ = false

abbrev pub holds_four : ℕ → Bytes → Bool
holds_four c (d ∷ e ∷ f ∷ _) = second_of c d && is_continuation e && is_continuation f
holds_four c _ = false

-- `utf8.DecodeRune` on the bytes from `c` on, where `c` is not ASCII: the size of the sequence, or 0 if
-- there is none.
unfoldable pub sequence_size : ℕ → Bytes → ℕ
sequence_size c s =
    if between 0xc2 0xdf c && holds_two c s
    then 2
    else if between 0xe0 0xef c && holds_three c s
    then 3
    else if between 0xf0 0xf4 c && holds_four c s
    then 4
    else 0

-- What one round of the loop appends, and how many bytes it takes.
abbrev pub Piece : Type 0
Piece = Result Fault (Bytes × ℕ)

abbrev pub malformed : Piece
malformed = err (reject body_shape)

-- A raw sequence is copied; a byte that starts none is replaced.
abbrev pub raw_piece : ℕ → Bytes → Piece
raw_piece c s =
    let size = sequence_size c s in
    if size == 0 then ok (append_rune rune_error, 1) else ok (take size (c ∷ s), size)

abbrev pub hex_digit : ℕ → Option ℕ
hex_digit c =
    if between b'0' b'9' c
    then some (c - b'0')
    else if between b'a' b'f' c
    then some (c - b'a' + 10)
    else if between b'A' b'F' c
    then some (c - b'A' + 10)
    else none

abbrev pub four_digits : Option ℕ → Option ℕ → Option ℕ → Option ℕ → Option ℕ
four_digits (some a) (some b) (some c) (some d) = some (((a * 16 + b) * 16 + c) * 16 + d)
four_digits _ _ _ _ = none

-- `hex4`, on the bytes from the first digit on.
unfoldable pub hex4 : Bytes → Option ℕ
hex4 (a ∷ b ∷ c ∷ d ∷ _) = four_digits (hex_digit a) (hex_digit b) (hex_digit c) (hex_digit d)
hex4 _ = none

-- `utf16.DecodeRune`
abbrev pub surrogate_pair : ℕ → ℕ → Option ℕ
surrogate_pair r1 r2 =
    if between 0xd800 0xdbff r1 && between 0xdc00 0xdfff r2
    then some ((r1 - 0xd800) * 1024 + (r2 - 0xdc00) + 0x10000)
    else none

abbrev pub second_unit : Bytes → Option ℕ
second_unit (_ ∷ _ ∷ _ ∷ _ ∷ b ∷ u ∷ s) = if b == b'\\' && u == b'u' then hex4 s else none
second_unit _ = none

abbrev pub combined : ℕ → Option ℕ → Option ℕ
combined r1 none = none
combined r1 (some r2) = surrogate_pair r1 r2

abbrev pub paired : Option ℕ → Piece
paired none = ok (append_rune rune_error, 6)
paired (some r) = ok (append_rune r, 12)

-- `decodeUnicodeEscape`, on the bytes behind the `\u` and the unit that they start with.
abbrev pub unit_piece : Bytes → Option ℕ → Piece
unit_piece s none = malformed
unit_piece s (some r1) =
    if is_surrogate r1 then paired (combined r1 (second_unit s)) else ok (append_rune r1, 6)

-- The escapes of one letter.
abbrev pub letter_escape : ℕ → Option ℕ
letter_escape e =
    if e == b'"' || e == b'\\' || e == b'/'
    then some e
    else if e == b'b'
    then some 8
    else if e == b'f'
    then some 12
    else if e == b'n'
    then some 10
    else if e == b'r'
    then some 13
    else if e == b't'
    then some 9
    else none

abbrev pub letter_piece : Option ℕ → Piece
letter_piece none = malformed
letter_piece (some c) = ok (c ∷ [], 2)

abbrev pub escape_piece : Bytes → Piece
escape_piece [] = malformed
escape_piece (e ∷ s) = if e == b'u' then unit_piece s (hex4 s) else letter_piece (letter_escape e)

-- One round of the loop, on the byte `c` and the bytes behind it.
unfoldable pub piece : ℕ → Bytes → Piece
piece c s =
    if c == b'"' || ltb c 0x20
    then malformed
    else if c == b'\\'
    then escape_piece s
    else if ltb c 0x80
    then ok (c ∷ [], 1)
    else raw_piece c s

-- The loop: `skip` bytes at the front belong to the round before.
unfoldable pub unquote_loop : ℕ → Bytes → Result Fault Bytes
unquote_loop skip [] = ok []
unquote_loop (suc skip) (c ∷ s) = unquote_loop skip s
unquote_loop zero (c ∷ s) = do
  (appended, size) ← piece c s
  out ← unquote_loop (size - 1) s
  ok (appended ++ out)

abbrev pub put_before : ℕ → Option Bytes → Option Bytes
put_before c none = none
put_before c (some t) = some (c ∷ t)

-- What stands before a closing quote.
unfoldable pub before_quote : Bytes → Option Bytes
before_quote [] = none
before_quote (c ∷ []) = if c == b'"' then some [] else none
before_quote (c ∷ d ∷ s) = put_before c (before_quote (d ∷ s))

abbrev pub between_quotes : Bytes → Option Bytes
between_quotes [] = none
between_quotes (c ∷ s) = if c == b'"' then before_quote s else none

abbrev pub unquoted : Option Bytes → Result Fault Bytes
unquoted none = err (reject body_shape)
unquoted (some inner) = unquote_loop zero inner

-- `UnquoteJSONString`
unfoldable pub unquote_json_string : Bytes → Result Fault Bytes
unfolding before_quote unquote_loop
unquote_json_string literal = unquoted (between_quotes literal)
