-- ===== src/Proto/Dec.antt =====
-- internal/proto/dec.go: unsigned numbers that cross the wire as canonical decimal strings.
pub mod RoundTrip
use claude_mem_lan_sync.Prelude.{
  ℕ, zero, suc, ◌+◌, ◌-◌, ◌*◌, ◌/◌, ◌%◌, ◌^◌, Bool, true, false, ◌&&◌, ◌||◌, List, [], ◌∷◌, ◌++◌,
  ltb, leb, ◌==◌, if◌then◌else◌, Bytes, bytes_eq, codes, Result, ok, err, ℤ, pos, negsuc, ◌>>=◌,
  ◌≡◌, refl,
}

-- `MaxDec`, the largest uint64.
abbrev pub max_dec : ℕ
max_dec = 2 ^ 64 - 1

abbrev pub max_int64 : ℕ
max_int64 = 2 ^ 63 - 1

-- The errors of the file, each with a fixed text.
pub data DecError : Type 0 where
  not_canonical out_of_range not_positive exceeds_int64 negative not_string : DecError

abbrev pub is_digit : ℕ → Bool
is_digit c = leb b'0' c && leb c b'9'

unfoldable pub all_digits : Bytes → Bool
all_digits [] = true
all_digits (c ∷ s) = is_digit c && all_digits s

unfoldable pub is_canonical_decimal : Bytes → Bool
unfolding bytes_eq all_digits
is_canonical_decimal [] = false
is_canonical_decimal (c ∷ s) =
    if bytes_eq (c ∷ s) (b'0' ∷ []) then true else if c == b'0' then false else all_digits (c ∷ s)

-- The number that digits spell behind `n`.
abbrev pub digits_value : ℕ → Bytes → ℕ
digits_value n [] = n
digits_value n (c ∷ s) = digits_value (n * 10 + (c - b'0')) s

-- `strconv.ParseUint(s, 10, 64)`.
unfoldable pub parse_uint : Bytes → Result DecError ℕ
unfolding all_digits
parse_uint [] = err not_canonical
parse_uint (c ∷ s) =
    if all_digits (c ∷ s)
    then if ltb max_dec (digits_value 0 (c ∷ s))
      then err out_of_range
      else ok (digits_value 0 (c ∷ s))
    else err not_canonical

unfoldable pub parse_dec : Bytes → Result DecError ℕ
unfolding is_canonical_decimal parse_uint
parse_dec s = if is_canonical_decimal s then parse_uint s else err not_canonical

unfoldable pub parse_dec_positive : Bytes → Result DecError ℕ
parse_dec_positive s = do d ← parse_dec s; if d == 0 then err not_positive else ok d

-- The decimal digits of `n`, at most `fuel` of them.
unfoldable pub digits : ℕ → ℕ → Bytes
digits zero n = []
digits (suc fuel) n =
    let rest = digits fuel (n / 10) ++ (b'0' + n % 10) ∷ [] in
    if ltb n 10 then (b'0' + n) ∷ [] else rest

-- `strconv.FormatUint(d, 10)`: a uint64 has at most twenty digits.
unfoldable pub dec_string : ℕ → Bytes
dec_string d = digits 20 d

-- `Dec.Int64`: SQLite has no unsigned integers, so a larger value is refused.
abbrev pub dec_int64 : ℕ → Result DecError ℤ
dec_int64 d = if ltb max_int64 d then err exceeds_int64 else ok (pos d)

abbrev pub dec_from_int64 : ℤ → Result DecError ℕ
dec_from_int64 (pos v) = ok v
dec_from_int64 (negsuc v) = err negative
