-- ===== src/Pair/FileWindow.antt =====
-- internal/pair/window_file.go: the pairing window as a file that two processes share.
use claude_mem_lan_sync.Prelude.{
  ◌+◌, ◌++◌, if◌then◌else◌, leb, ltb, Bytes, bytes_eq, codes, Result, ok, err, ℤ, Option, none,
  some,
}
use claude_mem_lan_sync.Pair.Codes.{
  PairError, no_window, bad_code, too_many_attempts, io_error, normalise, new_code, window_ttl,
  max_attempts,
}
use claude_mem_lan_sync.Pair.Keys.{
  Host, lock, read_window, create_window, write_window, remove_window, make_dir, WindowState,
  WindowFile, torn, window, Dir, Keys, load_or_create,
}

-- `writeAtomic`, its error ignored: the file is replaced as a whole or not at all.
abbrev pub write_atomic : Host → Dir → WindowState → Dir
write_atomic host d s =
    if host.fails write_window then d else record d { pairing = some (window s) }

-- `Close`, its error ignored.
abbrev pub close : Host → Dir → Dir
close host d = if host.fails remove_window then d else record d { pairing = none }

-- A code that is not the window's: the attempt is written back before the answer.
unfoldable pub persist_attempt : Host → Dir → WindowState → Dir × Result PairError Bytes
persist_attempt host d s =
    let s' = record s { attempts = s.attempts + 1 } in
    let d' = write_atomic host d s' in
    if leb max_attempts s'.attempts
    then (close host d', err too_many_attempts)
    else (d', err bad_code)

-- The code is the window's: the key, if the window can be removed.
unfoldable pub take_key : Host → Dir × Result PairError Keys → Dir × Result PairError Bytes
take_key host (d, err e) = (d, err e)
take_key host (d, ok k) =
    if host.fails remove_window then (d, err io_error) else (record d { pairing = none }, ok k.psk)

module _ (sha256_base64 : Bytes → Bytes) where
  abbrev pub hash_code : Bytes → Bytes
  hash_code code = sha256_base64 (codes "cmemlan-pairing-v1:" ++ normalise code)

  -- What follows the reading of the file.
  unfoldable pub redeem_window :
      Host → Dir → Bytes → Option WindowFile → Dir × Result PairError Bytes
  unfolding persist_attempt take_key
  redeem_window host d code none = (d, err no_window)
  redeem_window host d code (some torn) = (d, err no_window)
  redeem_window host d code (some (window s)) =
      if ltb s.expires_at host.now
      then (close host d, err no_window)
      else if leb max_attempts s.attempts
      then (close host d, err too_many_attempts)
      else if bytes_eq (hash_code code) s.code_hash
      then take_key host (load_or_create host d)
      else persist_attempt host d s

  -- `FileWindow.Redeem`, one step under the lock.
  unfoldable pub redeem_file : Host → Dir → Bytes → Dir × Result PairError Bytes
  unfolding redeem_window
  redeem_file host d code =
      if host.fails lock
      then (d, err io_error)
      else if host.fails read_window
      then (d, err io_error)
      else redeem_window host d code d.pairing

  abbrev pub state_of : Host → ℤ → Bytes → WindowState
  state_of host ttl code = record {
    code_hash = hash_code code;
    expires_at = host.now + window_ttl ttl;
    attempts = 0;
  }

  unfoldable pub opened_file :
      Host → Dir → ℤ → Result PairError Bytes → Dir × Result PairError Bytes
  opened_file host d ttl (err e) = (d, err e)
  opened_file host d ttl (ok code) =
      if host.fails make_dir
      then (d, err io_error)
      else if host.fails lock
      then (d, err io_error)
      else if host.fails create_window
      then (d, err io_error)
      else (record d { pairing = some (window (state_of host ttl code)) }, ok code)

  -- `FileWindow.Open`: the code to show; the expiry is the clock and the ttl.
  unfoldable pub open_file : Host → Dir → ℤ → Dir × Result PairError Bytes
  unfolding opened_file
  open_file host d ttl = opened_file host d ttl (new_code host.draw)
