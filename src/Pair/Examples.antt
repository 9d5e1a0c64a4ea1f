-- ===== src/Pair/Examples.antt =====
-- A window that is opened, guessed at, and redeemed.
use claude_mem_lan_sync.Prelude.{
  trim_left, trim_right, ℕ, ◌≡◌, refl, Bool, true, false, List, [], ◌∷◌, Bytes, codes, Result, ok,
  err, ℤ, pos, Option, none, some, ◌≤◌, inl, arith, ◌++◌, ◌==◌, ◌+◌,
}
use claude_mem_lan_sync.Pair.Codes.{
  Window, redeem, normalise, bad_code, too_many_attempts, no_window, new_code, draw_digits,
}
use claude_mem_lan_sync.Pair.Keys.{
  Host, write_window, Dir, load_or_create, key_line, keys_of, window,
}
use claude_mem_lan_sync.Pair.FileWindow.{
  open_file, opened_file, redeem_file, redeem_window, persist_attempt, take_key,
}
use claude_mem_lan_sync.Pair.Budget.{
  redeem_all, redeem_all_budget, redeem_all-guesses, keys_given, wrong_codes,
}
use claude_mem_lan_sync.Pair.Refinement.{redeem_files, open_file-redeem_all, in_memory, fresh}

abbrev secret : Bytes
secret = codes "c2VjcmV0"

abbrev at_time : ℕ → Host
at_time now = record {
  now = now;
  secret = secret;
  draw = λ i. some i;
  written = none;
  fails = λ _. false;
}

abbrev empty_dir : Dir
empty_dir = record { key = none; pairing = none }

abbrev keyed_dir : Dir
keyed_dir = record { key = some (key_line secret); pairing = none }

abbrev code : Bytes
code = codes "012-345-678"

abbrev open_window : Window
open_window = record { code = code; psk = secret; expires = 300000; attempts = 0; redeemed = false }

abbrev wrong_guess : ℕ × Bytes
wrong_guess = (1, codes "111")

opens : Unit {0}
unfolding claude_mem_lan_sync.Prelude.bytes_eq normalise draw_digits new_code redeem redeem_all
    keys_of load_or_create trim_left trim_right open_file opened_file redeem_window persist_attempt
    take_key redeem_file redeem_files
opens = tt

abbrev unhashed : Bytes → Bytes
unhashed text = text

-- The code is typed without its dashes, after a wrong one.
redeem_wrong_then_right :
    redeem_all open_window (wrong_guess ∷ (2, codes "012345678") ∷ (3, code) ∷ [])
    ≡ (err bad_code ∷ ok secret ∷ err no_window ∷ [])
unfolding opens
redeem_wrong_then_right = refl

-- The fifth wrong code closes a window whose file cannot be written.
redeem_file_unwritten :
    let full = record (at_time 2) { fails = λ c. elim c [ write_window ↦ true | _ ↦ false ] } in
    let d = record keyed_dir {
      pairing = some (window (record { code_hash = codes "h"; expires_at = 9; attempts = 4 }));
    } in
    redeem_files unhashed d ((full, code) ∷ []) ≡ err too_many_attempts ∷ []
unfolding opens
redeem_file_unwritten = refl

abbrev calls : List (ℕ × Bytes)
calls = wrong_guess ∷ (2, code) ∷ (3, code) ∷ []

redeem_all_budget_example :
    (keys_given (redeem_all open_window calls) ≤ 1)
    × (wrong_codes (redeem_all open_window calls) ≤ 4)
redeem_all_budget_example = redeem_all_budget open_window calls

abbrev guesses : List (ℕ × Bytes)
guesses = wrong_guess ∷ wrong_guess ∷ wrong_guess ∷ wrong_guess ∷ wrong_guess ∷ []

redeem_all-guesses_example : keys_given (redeem_all open_window (guesses ++ (2, code) ∷ [])) ≡ 0
unfolding opens
redeem_all-guesses_example =
    redeem_all-guesses open_window guesses ((2, code) ∷ [])
      (refl, (refl, (refl, (refl, (refl, tt))))) (omega arith)

abbrev opened_dir : Dir
opened_dir = record keyed_dir {
  pairing = some (
      window (record {
        code_hash = codes "cmemlan-pairing-v1:012345678";
        expires_at = 300000;
        attempts = 0;
      }));
}

abbrev file_calls : List (Host × Bytes)
file_calls = (at_time 1, codes "111") ∷ (at_time 2, codes "012345678") ∷ []

open_file-redeem_all_example :
    redeem_files unhashed opened_dir file_calls
    ≡ redeem_all (fresh (at_time 0) (pos 0) secret code) (in_memory file_calls)
unfolding opens
open_file-redeem_all_example =
    open_file-redeem_all unhashed (at_time 0) keyed_dir opened_dir (pos 0) secret code file_calls
      refl refl refl ((λ _. refl, λ e. cc), ((λ _. refl, λ e. refl), tt))
