-- ===== src/Proto/Json.antt =====
-- What wrapper.go uses of encoding/json: the scanner of a value, a byte at a time, and the reading of a
-- string.
use claude_mem_lan_sync.Prelude.{
  ℕ, zero, suc, Bool, ◌||◌, List, [], ◌∷◌, Option, none, some, if◌then◌else◌, ltb, ◌==◌, Bytes,
  bytes_eq, codes, Result, ok, err, length,
}
use claude_mem_lan_sync.Proto.Errors.{Fault}
use claude_mem_lan_sync.Proto.Unquote.{unquote_json_string, between}

-- What encloses the value that is scanned.
pub data Frame : Type 0 where
  key value element : Frame

-- The steps of the scanner; `in_hex n` has `n` digits to come, `in_word s` the letters `s`.
pub data Scan : Type 0 where
  begin_value begin_value_or_empty begin_string_or_empty begin_string : Scan
  in_string in_escape in_minus in_zero in_digits in_point in_fraction in_e in_sign in_exponent :
      Scan
  in_hex : ℕ → Scan
  in_word : Bytes → Scan
  end_value : Scan

-- A step goes on, finds that the value ended before the byte, or fails.
pub data Move : Type 0 where
  on : Scan → List Frame → Move
  ends bad : Move

abbrev pub is_json_space : ℕ → Bool
is_json_space c = c == b' ' || c == b'\t' || c == b'\r' || c == b'\n'

abbrev pub is_numeral_byte : ℕ → Bool
is_numeral_byte = between b'0' b'9'

abbrev pub max_nesting_depth : ℕ
max_nesting_depth = 10000

abbrev push_frame : Scan → Frame → List Frame → Move
push_frame st f fs = if ltb max_nesting_depth (length (f ∷ fs)) then bad else on st (f ∷ fs)

unfoldable pub step_end : List Frame → ℕ → Move
step_end [] c = ends
step_end (key ∷ fs) c =
    if is_json_space c
    then on end_value (key ∷ fs)
    else if c == b':'
    then on begin_value (value ∷ fs)
    else bad
step_end (value ∷ fs) c =
    if is_json_space c
    then on end_value (value ∷ fs)
    else if c == b','
    then on begin_string (key ∷ fs)
    else if c == b'}'
    then on end_value fs
    else bad
step_end (element ∷ fs) c =
    if is_json_space c
    then on end_value (element ∷ fs)
    else if c == b','
    then on begin_value (element ∷ fs)
    else if c == b']'
    then on end_value fs
    else bad

unfoldable pub step_value : List Frame → ℕ → Move
step_value fs c =
    if is_json_space c
    then on begin_value fs
    else if c == b'{'
    then push_frame begin_string_or_empty key fs
    else if c == b'['
    then push_frame begin_value_or_empty element fs
    else if c == b'"'
    then on in_string fs
    else if c == b'-'
    then on in_minus fs
    else if c == b'0'
    then on in_zero fs
    else if is_numeral_byte c
    then on in_digits fs
    else if c == b't'
    then on (in_word (codes "rue")) fs
    else if c == b'f'
    then on (in_word (codes "alse")) fs
    else if c == b'n'
    then on (in_word (codes "ull")) fs
    else bad

abbrev step_string : List Frame → ℕ → Move
step_string fs c =
    if is_json_space c then on begin_string fs else if c == b'"' then on in_string fs else bad

abbrev step_empty_object : List Frame → ℕ → Move
step_empty_object [] c = bad
step_empty_object (f ∷ fs) c =
    if is_json_space c
    then on begin_string_or_empty (f ∷ fs)
    else if c == b'}'
    then step_end (value ∷ fs) c
    else step_string (f ∷ fs) c

abbrev is_hex : ℕ → Bool
is_hex c = is_numeral_byte c || between b'a' b'f' c || between b'A' b'F' c

abbrev is_letter_escape : ℕ → Bool
is_letter_escape c =
    c == b'b'
    || c == b'f'
    || c == b'n'
    || c == b'r'
    || c == b't'
    || c == b'\\'
    || c == b'/'
    || c == b'"'

abbrev step_zero : List Frame → ℕ → Move
step_zero fs c =
    if c == b'.'
    then on in_point fs
    else if c == b'e' || c == b'E'
    then on in_e fs
    else step_end fs c

abbrev step_exponent : List Frame → ℕ → Move
step_exponent fs c = if is_numeral_byte c then on in_exponent fs else bad

unfoldable pub step : Scan → List Frame → ℕ → Move
unfolding step_end step_value
step begin_value fs c = step_value fs c
step begin_value_or_empty fs c =
    if is_json_space c
    then on begin_value_or_empty fs
    else if c == b']'
    then step_end fs c
    else step_value fs c
step begin_string_or_empty fs c = step_empty_object fs c
step begin_string fs c = step_string fs c
step in_string fs c =
    if c == b'"'
    then on end_value fs
    else if c == b'\\'
    then on in_escape fs
    else if ltb c 0x20
    then bad
    else on in_string fs
step in_escape fs c =
    if is_letter_escape c then on in_string fs else if c == b'u' then on (in_hex 4) fs else bad
step (in_hex zero) fs c = bad
step (in_hex (suc zero)) fs c = if is_hex c then on in_string fs else bad
step (in_hex (suc (suc n))) fs c = if is_hex c then on (in_hex (suc n)) fs else bad
step in_minus fs c =
    if c == b'0' then on in_zero fs else if is_numeral_byte c then on in_digits fs else bad
step in_zero fs c = step_zero fs c
step in_digits fs c = if is_numeral_byte c then on in_digits fs else step_zero fs c
step in_point fs c = if is_numeral_byte c then on in_fraction fs else bad
step in_fraction fs c =
    if is_numeral_byte c
    then on in_fraction fs
    else if c == b'e' || c == b'E'
    then on in_e fs
    else step_end fs c
step in_e fs c = if c == b'+' || c == b'-' then on in_sign fs else step_exponent fs c
step in_sign fs c = step_exponent fs c
step in_exponent fs c = if is_numeral_byte c then on in_exponent fs else step_end fs c
step (in_word []) fs c = bad
step (in_word (l ∷ [])) fs c = if c == l then on end_value fs else bad
step (in_word (l ∷ m ∷ ls)) fs c = if c == l then on (in_word (m ∷ ls)) fs else bad
step end_value fs c = step_end fs c

-- The value, and the bytes behind it.
abbrev pub at_end : Move → Option (Bytes × Bytes)
at_end ends = some ([], [])
at_end _ = none

abbrev pub with_byte : ℕ → Option (Bytes × Bytes) → Option (Bytes × Bytes)
with_byte c none = none
with_byte c (some (raw, rest)) = some (c ∷ raw, rest)

abbrev pub resume :
    ℕ → Bytes → (Scan → List Frame → Option (Bytes × Bytes)) → Move → Option (Bytes × Bytes)
resume c s next (on st fs) = with_byte c (next st fs)
resume c s next ends = some ([], c ∷ s)
resume c s next bad = none

-- `readValue`; the end of the input counts as a space.
unfoldable pub scan : Scan → List Frame → Bytes → Option (Bytes × Bytes)
scan st fs [] = at_end (step st fs b' ')
scan st fs (c ∷ s) = resume c s (λ st' fs'. scan st' fs' s) (step st fs c)

unfoldable pub skip_space : Bytes → Bytes
skip_space [] = []
skip_space (c ∷ s) = let rest = skip_space s in if is_json_space c then rest else c ∷ s

-- `Decode` into a RawMessage: the next value, and what is behind it.
abbrev pub next_value : Bytes → Option (Bytes × Bytes)
next_value s = scan begin_value [] (skip_space s)

-- encoding/json reads the literal of a string as `UnquoteJSONString` does, once it has scanned it.
abbrev pub read_literal : Result Fault Bytes → Option Bytes
read_literal (ok text) = some text
read_literal (err _) = none

-- `Unmarshal` of a value into a string: null leaves the empty string.
unfoldable pub unmarshal_string : Bytes → Option Bytes
unmarshal_string raw =
    if bytes_eq raw (codes "null") then some [] else read_literal (unquote_json_string raw)
