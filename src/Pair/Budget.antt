-- ===== src/Pair/Budget.antt =====
-- How many guesses a window answers, over any sequence of calls of `Redeem`.
use claude_mem_lan_sync.Prelude.{
  is_empty, ℕ, suc, ◌+◌, ◌-◌, ◌≤◌, ◌≡◌, ◌⊎◌, refl, sym, subst, Bool, true, false, ◌||◌, List, [],
  ◌∷◌, ◌++◌, arith, if◌then◌else◌, Bytes, bytes_eq, Result, ok, err, inl, inr, leb, All, length,
}
use claude_mem_lan_sync.Pair.Codes.{
  PairError, bad_code, no_window, too_many_attempts, io_error, Window, redeem, normalise,
  max_attempts,
}

-- The answers to calls at the given times with the given codes.
unfoldable pub redeem_all : Window → List (ℕ × Bytes) → List (Result PairError Bytes)
redeem_all w [] = []
redeem_all w ((now, code) ∷ calls) =
    let (w', answer) = redeem now w code in answer ∷ redeem_all w' calls

abbrev pub keys_given : List (Result PairError Bytes) → ℕ
keys_given [] = 0
keys_given (ok _ ∷ answers) = suc (keys_given answers)
keys_given (err _ ∷ answers) = keys_given answers

abbrev pub wrong_codes : List (Result PairError Bytes) → ℕ
wrong_codes [] = 0
wrong_codes (err bad_code ∷ answers) = suc (wrong_codes answers)
wrong_codes (_ ∷ answers) = wrong_codes answers

-- What the calls to come can still get.
abbrev keys_left : Window → ℕ
keys_left w = if w.redeemed then 0 else 1

keys_given_head :
    (a : Result PairError Bytes) (rest : List (Result PairError Bytes))
    → keys_given (a ∷ rest) ≡ keys_given (a ∷ []) + keys_given rest
keys_given_head (ok k) rest = omega arith
keys_given_head (err e) rest = omega arith

wrong_codes_head :
    (a : Result PairError Bytes) (rest : List (Result PairError Bytes))
    → wrong_codes (a ∷ rest) ≡ wrong_codes (a ∷ []) + wrong_codes rest
wrong_codes_head (ok k) rest = omega arith
wrong_codes_head (err bad_code) rest = omega arith
wrong_codes_head (err no_window) rest = omega arith
wrong_codes_head (err too_many_attempts) rest = omega arith
wrong_codes_head (err io_error) rest = omega arith

-- One call uses up what it answers.
redeem-keys_left :
    (now : ℕ) (w : Window) (code : Bytes)
    → let (w', answer) = redeem now w code in keys_given (answer ∷ []) + keys_left w' ≤ keys_left w
unfolding redeem
redeem-keys_left now w code = ground arith

redeem_attempts :
    (now : ℕ) (w : Window) (code : Bytes)
    → let (w', answer) = redeem now w code in
      wrong_codes (answer ∷ []) + (4 - w'.attempts) ≤ 4 - w.attempts
unfolding redeem
redeem_attempts now w code = ground arith

redeem_all-keys_left :
    (w : Window) (calls : List (ℕ × Bytes)) → keys_given (redeem_all w calls) ≤ keys_left w
unfolding redeem_all
redeem_all-keys_left w [] = omega arith
redeem_all-keys_left w ((now, code) ∷ calls) =
    let (w', answer) = redeem now w code in
    omega (
      arith,
      keys_given_head answer (redeem_all w' calls),
      redeem-keys_left now w code,
      redeem_all-keys_left w' calls,
    )

redeem_all_attempts :
    (w : Window) (calls : List (ℕ × Bytes)) → wrong_codes (redeem_all w calls) ≤ 4 - w.attempts
unfolding redeem_all
redeem_all_attempts w [] = omega arith
redeem_all_attempts w ((now, code) ∷ calls) =
    let (w', answer) = redeem now w code in
    omega (
      arith,
      wrong_codes_head answer (redeem_all w' calls),
      redeem_attempts now w code,
      redeem_all_attempts w' calls,
    )

-- Any sequence of calls on one window, at any times and with any codes, gives the key at most once
-- and says at most four times that a code is wrong.
pub redeem_all_budget :
    (w : Window) (calls : List (ℕ × Bytes))
    → (keys_given (redeem_all w calls) ≤ 1) × (wrong_codes (redeem_all w calls) ≤ 4)
redeem_all_budget w calls =
    (ground (arith, redeem_all-keys_left w calls), omega (arith, redeem_all_attempts w calls))

-- A window that gives no key any more.
abbrev dead : Window → Bool
dead w = w.redeemed || is_empty w.code || leb max_attempts w.attempts

redeem-dead :
    (now : ℕ) (w : Window) (code : Bytes)
    → dead w ≡ true
    → let (w', answer) = redeem now w code in (dead w' ≡ true) × (keys_given (answer ∷ []) ≡ 0)
unfolding redeem
redeem-dead now w code h = ground arith

redeem_all-dead :
    (w : Window) (calls : List (ℕ × Bytes)) → dead w ≡ true → keys_given (redeem_all w calls) ≡ 0
unfolding redeem_all
redeem_all-dead w [] h = refl
redeem_all-dead w ((now, code) ∷ calls) h =
    let (w', answer) = redeem now w code in
    let (h', none_given) = redeem-dead now w code h in
    omega (arith, keys_given_head answer (redeem_all w' calls), redeem_all-dead w' calls h')

-- A wrong code costs an attempt.
redeem_wrong :
    (now : ℕ) (w : Window) (code : Bytes)
    → bytes_eq (normalise code) (normalise w.code) ≡ false
    → let (w', answer) = redeem now w code in
      (keys_given (answer ∷ []) ≡ 0)
      × ((dead w' ≡ true) ⊎ ((w'.attempts ≡ w.attempts + 1) × (w'.code ≡ w.code)))
unfolding redeem
redeem_wrong now w code h = ground arith

-- Calls with codes that are not the window's.
abbrev pub AreWrong : Bytes → List (ℕ × Bytes) → Type 0
AreWrong code = All (λ call. bytes_eq (normalise call.1) (normalise code) ≡ false)

guesses-keys_given :
    (w : Window) (guesses calls : List (ℕ × Bytes))
    → AreWrong w.code guesses
    → max_attempts ≤ w.attempts + length guesses
    → keys_given (redeem_all w (guesses ++ calls)) ≡ 0
unfolding redeem_all
guesses-keys_given w [] calls _ h = redeem_all-dead w calls (ground arith)
guesses-keys_given w ((now, code) ∷ guesses) calls (wrong, wrongs) h =
    let (w', answer) = redeem now w code in
    let (no_key, spent) = redeem_wrong now w code wrong in
    let later : keys_given (redeem_all w' (guesses ++ calls)) ≡ 0 = (elim spent [
      | inl d ↦ redeem_all-dead w' (guesses ++ calls) d
      | inr (a, same) ↦
          guesses-keys_given w' guesses calls (subst (λ c. AreWrong c guesses) (sym same) wrongs)
            (omega arith)
    ]) in
    omega (arith, keys_given_head answer (redeem_all w' (guesses ++ calls)))

-- Five guesses that are not the code of the window destroy it: no call behind them gets the key, even
-- with the right code.
pub redeem_all-guesses :
    (w : Window) (guesses calls : List (ℕ × Bytes))
    → AreWrong w.code guesses
    → max_attempts ≤ length guesses
    → keys_given (redeem_all w (guesses ++ calls)) ≡ 0
redeem_all-guesses w guesses calls wrong h = guesses-keys_given w guesses calls wrong (omega arith)
