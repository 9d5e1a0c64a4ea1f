-- ===== src/Pair/Refinement.antt =====
-- The window in the file answers as the window in memory would.
use claude_mem_lan_sync.Prelude.{
  is_empty, ℕ, ◌+◌, ◌≡◌, refl, false, List, [], ◌∷◌, ◌++◌, arith, Bytes, Result, ok, err, All,
  Option, some, map, ℤ, >>=-eq-ok, take, drop,
}
use claude_mem_lan_sync.Pair.Codes.{
  PairError, Window, redeem, new_code, draw_digits, code_digits, grouped, window_ttl,
}
use claude_mem_lan_sync.Pair.Budget.{redeem_all}
use claude_mem_lan_sync.Pair.Keys.{Host, window, Dir}
use claude_mem_lan_sync.Pair.FileWindow.{open_file, opened_file, state_of, redeem_file}
use claude_mem_lan_sync.Pair.Simulation.{key_in, HoldsKey, Works, NoCollision, redeem_file-redeem}

-- The answers of calls in turn, with the world at each of them.
unfoldable pub redeem_files :
    (Bytes → Bytes) → Dir → List (Host × Bytes) → List (Result PairError Bytes)
redeem_files sha256_base64 d [] = []
redeem_files sha256_base64 d ((host, code) ∷ calls) =
    let (d', answer) = redeem_file sha256_base64 host d code in
    answer ∷ redeem_files sha256_base64 d' calls

abbrev pub in_memory : List (Host × Bytes) → List (ℕ × Bytes)
in_memory = map (λ (host, code). (host.now, code))

-- The window in memory, just opened.
abbrev pub fresh : Host → ℤ → Bytes → Bytes → Window
fresh host ttl psk code = record {
  code = code;
  psk = psk;
  expires = host.now + window_ttl ttl;
  attempts = 0;
  redeemed = false;
}

redeem_files-redeem_all :
    (sha256_base64 : Bytes → Bytes) (code : Bytes) (d : Dir) (w : Window)
    (calls : List (Host × Bytes))
    → All
        (λ (host, guess). Works sha256_base64 code host × NoCollision sha256_base64 code guess)
        calls
    → HoldsKey sha256_base64 code d w
    → redeem_files sha256_base64 d calls ≡ redeem_all w (in_memory calls)
unfolding redeem_files redeem_all
redeem_files-redeem_all sha256_base64 code d w [] _ held = refl
redeem_files-redeem_all sha256_base64 code d w ((host, guess) ∷ calls) ((works, distinct), rest)
      held =
    let (answers, held') =
      redeem_file-redeem sha256_base64 code host d w guess works distinct held in
    let (d', answer) = redeem_file sha256_base64 host d guess in
    let (w', answer') = redeem host.now w guess in
    cc (answers, redeem_files-redeem_all sha256_base64 code d' w' calls rest held')

is_empty-append : (xs : Bytes) (y : ℕ) (ys : Bytes) → is_empty (xs ++ y ∷ ys) ≡ false
is_empty-append [] y ys = refl
is_empty-append (x ∷ xs) y ys = refl

new_code-is_empty :
    (draw : ℕ → Option ℕ) {code : Bytes} → new_code draw ≡ ok code → is_empty code ≡ false
unfolding new_code
new_code-is_empty draw {code} h =
    let (digits, drawn, grouped_) = >>=-eq-ok (draw_digits draw 0 code_digits) _ h in
    let same : code ≡ grouped digits = cc in
    rw same
      (is_empty-append (take 3 digits) 45 (take 3 (drop 3 digits) ++ 45 ∷ take 3 (drop 6 digits)))

pub opened_file-eq-ok :
    (sha256_base64 : Bytes → Bytes) (host : Host) (d d' : Dir) (ttl : ℤ)
    (drawn : Result PairError Bytes) {code : Bytes}
    → opened_file sha256_base64 host d ttl drawn ≡ (d', ok code)
    → (drawn ≡ ok code)
      × (d' ≡ record d { pairing = some (window (state_of sha256_base64 host ttl code)) })
unfolding opened_file
opened_file-eq-ok sha256_base64 host d d' ttl (err e) h = cc
opened_file-eq-ok sha256_base64 host d d' ttl (ok c) h = ground arith

-- What `Open` leaves behind when it returns a code.
open_file-HoldsKey :
    (sha256_base64 : Bytes → Bytes) (host : Host) (d d' : Dir) (ttl : ℤ) {psk code : Bytes}
    → open_file sha256_base64 host d ttl ≡ (d', ok code)
    → key_in d.key ≡ some psk
    → is_empty psk ≡ false
    → HoldsKey sha256_base64 code d' (fresh host ttl psk code)
unfolding open_file opened_file
open_file-HoldsKey sha256_base64 host d d' ttl {psk} {code} h key q =
    let (drawn, at) = opened_file-eq-ok sha256_base64 host d d' ttl (new_code host.draw) h in
    rw at ((refl, new_code-is_empty host.draw drawn, refl, refl, refl, refl), key, q)

-- If no call of the system fails and no guess has the hash of the code by accident, the calls of
-- `Redeem` behind an `Open` that returned a code, from any process, answer as a window in memory with
-- this code does, provided that the directory has a key.
pub open_file-redeem_all :
    (sha256_base64 : Bytes → Bytes) (host : Host) (d d' : Dir) (ttl : ℤ) (psk code : Bytes)
    (calls : List (Host × Bytes))
    → open_file sha256_base64 host d ttl ≡ (d', ok code)
    → key_in d.key ≡ some psk
    → is_empty psk ≡ false
    → All
        (λ (host, guess). Works sha256_base64 code host × NoCollision sha256_base64 code guess)
        calls
    → redeem_files sha256_base64 d' calls ≡ redeem_all (fresh host ttl psk code) (in_memory calls)
open_file-redeem_all sha256_base64 host d d' ttl psk code calls h key q all =
    redeem_files-redeem_all sha256_base64 code d' (fresh host ttl psk code) calls all
      (open_file-HoldsKey sha256_base64 host d d' ttl h key q)
