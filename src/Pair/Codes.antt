-- ===== src/Pair/Codes.antt =====
-- internal/pair/codes.go: the pairing window in memory, and the code that the user types.
use claude_mem_lan_sync.Prelude.{
  is_empty, ℕ, zero, suc, ◌+◌, Bool, true, false, ◌&&◌, ◌||◌, [], ◌∷◌, ◌++◌, if◌then◌else◌, leb,
  ltb, ◌==◌, Bytes, bytes_eq, Result, ok, err, ◌>>=◌, ℤ, pos, negsuc, take, drop, Option, none,
  some,
}

-- `io_error` stands for the errors of calls, which carry no code of their own.
pub data PairError : Type 0 where
  no_window bad_code too_many_attempts io_error : PairError

-- In milliseconds.
abbrev pub default_window : ℕ
default_window = 300000

abbrev pub max_attempts : ℕ
max_attempts = 5

abbrev pub code_digits : ℕ
code_digits = 9

pub record Window : Type 0 where
  pub code : Bytes
  pub psk : Bytes
  pub expires : ℕ
  pub attempts : ℕ
  pub redeemed : Bool

abbrev pub is_numeral : ℕ → Bool
is_numeral c = leb 48 c && leb c 57

unfoldable pub normalise : Bytes → Bytes
normalise [] = []
normalise (c ∷ code) = let rest = normalise code in if is_numeral c then c ∷ rest else rest

-- The answer to a code that is not the window's.
abbrev pub count_attempt : Window → Window × Result PairError Bytes
count_attempt w =
    let w' = record w { attempts = w.attempts + 1 } in
    if leb max_attempts w'.attempts
    then (record w' { code = [] }, err too_many_attempts)
    else (w', err bad_code)

-- `Window.Redeem`, at the time `now`.
unfoldable pub redeem : ℕ → Window → Bytes → Window × Result PairError Bytes
redeem now w code =
    if w.redeemed || is_empty w.code
    then (w, err no_window)
    else if ltb w.expires now
    then (record w { code = [] }, err no_window)
    else if leb max_attempts w.attempts
    then (record w { code = [] }, err too_many_attempts)
    else if bytes_eq (normalise code) (normalise w.code)
    then (record w { redeemed = true }, ok w.psk)
    else count_attempt w

-- The loop of `newCode`: `n` digits are left to draw, and the draw `i` may fail.
unfoldable pub draw_digits : (ℕ → Option ℕ) → ℕ → ℕ → Result PairError Bytes
draw_digits draw i zero = ok []
draw_digits draw i (suc n) = do
  digit ← elim (draw i) [ none ↦ err io_error | some d ↦ ok (48 + d) ]
  digits ← draw_digits draw (suc i) n
  ok (digit ∷ digits)

abbrev pub grouped : Bytes → Bytes
grouped digits = take 3 digits ++ 45 ∷ (take 3 (drop 3 digits) ++ 45 ∷ take 3 (drop 6 digits))

unfoldable pub new_code : (ℕ → Option ℕ) → Result PairError Bytes
unfolding draw_digits
new_code draw = do digits ← draw_digits draw 0 code_digits; ok (grouped digits)

-- `if ttl <= 0`
abbrev pub window_ttl : ℤ → ℕ
window_ttl (negsuc n) = default_window
window_ttl (pos n) = if n == 0 then default_window else n

unfoldable pub new_window : (ℕ → Option ℕ) → Bytes → ℤ → ℕ → Result PairError Window
unfolding new_code
new_window draw psk ttl now = do
  code ← new_code draw
  ok (record {
    code = code;
    psk = psk;
    expires = now + window_ttl ttl;
    attempts = 0;
    redeemed = false;
  })
