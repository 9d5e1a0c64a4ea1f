-- ===== src/Cli/PairCommand/Meets.antt =====
-- The code and the fingerprint that `pair` prints get a machine past the checks of `connect`.
use claude_mem_lan_sync.Prelude.{
  ℕ, zero, suc, ◌≡◌, ◌≤◌, ◌+◌, refl, sym, ap, ◌∙◌, Bool, true, false, not, ◌&&◌, [], ◌∷◌, ◌++◌,
  Option, none, some, Bytes, bytes_eq_refl, codes, Result, ok, err, ℤ, All, All-append, is_empty,
  is_space, trim_left, trim_right, trim_space, take, drop, arith, ltb, map,
}
use claude_mem_lan_sync.Hub.Server.{equal_fold, lower}
use claude_mem_lan_sync.Pair.Codes.{PairError, window_ttl, new_code}
use claude_mem_lan_sync.Pair.Keys.{
  Host, FileCall, lock, read_window, make_dir, read_key, chmod_key, remove_window, Dir, Keys,
  window, load_or_create, keys_of, fingerprint,
}
use claude_mem_lan_sync.Pair.KeyFile.{IsToken, HasKey, load_or_create-HasKey}
use claude_mem_lan_sync.Pair.FileWindow.{
  state_of, hash_code, open_file, redeem_file, redeem_window, take_key,
}
use claude_mem_lan_sync.Pair.Refinement.{opened_file-eq-ok}
use claude_mem_lan_sync.Cli.Connect.{ConnectFlags, mismatches}
use claude_mem_lan_sync.Cli.PairCommand.{shown_run, open_with, run_pair}

-- No call fails.
abbrev pub IsCalm : Host → Type 0
IsCalm host = (c : FileCall) → host.fails c ≡ false

-- A text without spaces.
abbrev pub IsSolid : Bytes → Type 0
IsSolid s = All (λ c. is_space c ≡ false) s

trim_right-IsSolid : (s : Bytes) → IsSolid s → trim_right s ≡ s
unfolding trim_right
trim_right-IsSolid [] h = refl
trim_right-IsSolid (c ∷ s) (h, hs) = rw (trim_right-IsSolid s hs, h) refl

trim_left-IsSolid : (s : Bytes) → IsSolid s → trim_left s ≡ s
unfolding trim_left
trim_left-IsSolid [] h = refl
trim_left-IsSolid (c ∷ s) (h, _) = rw h refl

trim_space-IsSolid : (s : Bytes) → IsSolid s → trim_space s ≡ s
trim_space-IsSolid s h = rw (trim_left-IsSolid s h) (trim_right-IsSolid s h)

take-IsSolid : (n : ℕ) (s : Bytes) → IsSolid s → IsSolid (take n s)
take-IsSolid zero s h = tt
take-IsSolid (suc n) [] h = tt
take-IsSolid (suc n) (c ∷ s) (h, hs) = (h, take-IsSolid n s hs)

drop-IsSolid : (n : ℕ) (s : Bytes) → IsSolid s → IsSolid (drop n s)
drop-IsSolid zero s h = h
drop-IsSolid (suc n) [] h = tt
drop-IsSolid (suc n) (c ∷ s) (_, hs) = drop-IsSolid n s hs

keys_of-is_empty :
    (host : Host) (d d' : Dir) (file : Option Bytes) (k : Keys)
    → IsToken host.secret
    → keys_of host d file ≡ (d', ok k)
    → is_empty k.psk ≡ false
unfolding keys_of
keys_of-is_empty host d d' none k (named, _) h = ground arith
keys_of-is_empty host d d' (some content) k token h = ground arith

load_or_create-is_empty :
    (host : Host) (d d' : Dir) (k : Keys)
    → IsToken host.secret
    → load_or_create host d ≡ (d', ok k)
    → is_empty k.psk ≡ false
unfolding load_or_create
load_or_create-is_empty host d d' k token h =
    keys_of-is_empty host d d' d.key k token (ground arith)

and-false : (b : Bool) → b && false ≡ false
and-false true = refl
and-false false = refl

module _ (sha256_base64 : Bytes → Bytes) where
  shown_run_out :
      (k : Keys) (out : Dir × Result PairError Bytes) (code print : Bytes)
      → (shown_run sha256_base64 k out).shown ≡ some (code, print)
      → (out ≡ ((shown_run sha256_base64 k out).dir, ok code))
        × (fingerprint sha256_base64 k ≡ print)
  shown_run_out k (d, err e) code print h = absurd cc
  shown_run_out k (d, ok c) code print h = (cc, cc)

  -- The first redemption of a window that is still open.
  redeem_fresh :
      (second third : Host) (ttl : ℤ) (d : Dir) (k : Keys) (code : Bytes)
      → HasKey d k
      → is_empty k.psk ≡ false
      → IsCalm third
      → third.now ≤ second.now + window_ttl ttl
      → (redeem_file sha256_base64 third
          (record d { pairing = some (window (state_of sha256_base64 second ttl code)) })
          code).1
        ≡ ok k.psk
  unfolding redeem_file redeem_window take_key load_or_create keys_of
  redeem_fresh second third ttl d k code (content, at, same) named calm soon =
      let in_time : ltb (second.now + window_ttl ttl) third.now ≡ false = ground arith in
      let nonempty : is_empty (trim_space content) ≡ false = ap is_empty same ∙ named in
      rw
        (
          calm lock,
          calm read_window,
          in_time,
          bytes_eq_refl (hash_code sha256_base64 code),
          calm make_dir,
          calm read_key,
          at,
          nonempty,
          calm chmod_key,
          calm remove_window,
        )
        (ap ok same)

  fingerprint-IsSolid :
      (k : Keys) → ((s : Bytes) → IsSolid (sha256_base64 s)) → IsSolid (fingerprint sha256_base64 k)
  unfolding fingerprint
  fingerprint-IsSolid k solid =
      let enc : Bytes = sha256_base64 (codes "cmemlan-fingerprint-v1:" ++ k.psk) in
      let whole : IsSolid enc = solid (codes "cmemlan-fingerprint-v1:" ++ k.psk) in
      let third = take-IsSolid 4 (drop 8 enc) (drop-IsSolid 8 enc whole) in
      let second = take-IsSolid 4 (drop 4 enc) (drop-IsSolid 4 enc whole) in
      All-append (λ c. is_space c ≡ false) (take 4 enc)
        (45 ∷ (take 4 (drop 4 enc) ++ 45 ∷ take 4 (drop 8 enc))) (take-IsSolid 4 enc whole)
        (
          refl,
          All-append (λ c. is_space c ≡ false) (take 4 (drop 4 enc)) (45 ∷ take 4 (drop 8 enc))
              second (refl, third),
        )

  same_fingerprint :
      (k : Keys) (flags : ConnectFlags)
      → ((s : Bytes) → IsSolid (sha256_base64 s))
      → flags.expected ≡ fingerprint sha256_base64 k
      → mismatches sha256_base64 flags k.psk ≡ false
  same_fingerprint k flags solid shown =
      let bare : trim_space flags.expected ≡ fingerprint sha256_base64 k =
        ap trim_space shown
        ∙ trim_space-IsSolid (fingerprint sha256_base64 k) (fingerprint-IsSolid k solid) in
      let fits : equal_fold (trim_space flags.expected) (fingerprint sha256_base64 k) ≡ true =
        ap (λ s. equal_fold s (fingerprint sha256_base64 k)) bare
        ∙ bytes_eq_refl (map lower (fingerprint sha256_base64 k)) in
      ap (λ b. not (is_empty flags.expected) && not b) fits
      ∙ and-false (not (is_empty flags.expected))

  -- If `pair` prints a code and a fingerprint, where a key that it draws is a base64url text and so are
  -- digests, then the first redemption of the code before the window expires, if no call fails, returns a
  -- key that `connect` accepts with the fingerprint that was printed.
  pub run_pair-mismatches :
      (first second third : Host) (ttl : ℤ) (d : Dir) (code print : Bytes) (flags : ConnectFlags)
      → IsToken first.secret
      → ((s : Bytes) → IsSolid (sha256_base64 s))
      → (run_pair sha256_base64 first second ttl d).shown ≡ some (code, print)
      → IsCalm third
      → third.now ≤ second.now + window_ttl ttl
      → flags.expected ≡ print
      → (psk : Bytes) × ((redeem_file sha256_base64 third
            (run_pair sha256_base64 first second ttl d).dir
            code).1
          ≡ ok psk)
        × (mismatches sha256_base64 flags psk ≡ false)
  unfolding run_pair open_file
  run_pair-mismatches first second third ttl d code print flags token solid shown calm soon
        expected =
      with_keys (load_or_create first d) refl shown
    where
      with_keys :
          (out : Dir × Result PairError Keys)
          → load_or_create first d ≡ out
          → (open_with sha256_base64 second ttl out).shown ≡ some (code, print)
          → (psk : Bytes) × ((redeem_file sha256_base64 third
                (open_with sha256_base64 second ttl out).dir
                code).1
              ≡ ok psk)
            × (mismatches sha256_base64 flags psk ≡ false)
      with_keys (d1, err e) loads h = absurd cc
      with_keys (d1, ok k) loads h =
          let (opens, same) =
            shown_run_out k (open_file sha256_base64 second d1 ttl) code print h in
          let dir : Dir = (shown_run sha256_base64 k (open_file sha256_base64 second d1 ttl)).dir in
          let (_, at) =
            opened_file-eq-ok sha256_base64 second d1 dir ttl (new_code second.draw) opens in
          (
            k.psk,
            ap (λ u. (redeem_file sha256_base64 third u code).1) at
                ∙ redeem_fresh second third ttl d1 k code
                    (load_or_create-HasKey first d d1 token loads)
                    (load_or_create-is_empty first d d1 k token loads) calm soon,
            same_fingerprint k flags solid (expected ∙ sym same),
          )
