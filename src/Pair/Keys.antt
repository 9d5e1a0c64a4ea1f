-- ===== src/Pair/Keys.antt =====
-- internal/pair/pair.go: the pre-shared key and its file.
use claude_mem_lan_sync.Prelude.{
  is_empty, trim_space, ℕ, Bool, ◌||◌, [], ◌∷◌, ◌++◌, if◌then◌else◌, Bytes, bytes_eq, codes, Result,
  ok, err, take, drop, Option, none, some,
}
use claude_mem_lan_sync.Pair.Codes.{PairError, io_error}

-- The calls of the operating system that may fail, in this file and in window_file.go.
pub data FileCall : Type 0 where
  make_dir read_key chmod_key draw_secret write_key write_tmp rename_key : FileCall
  lock read_window create_window write_window remove_window : FileCall

-- The world at one call of the package: `secret` is the base64url text of 32 random bytes, and
-- `written` what a WriteFile that failed did, nothing or a number of bytes.
pub record Host : Type 0 where
  pub now : ℕ
  pub secret : Bytes
  pub draw : ℕ → Option ℕ
  pub written : Option ℕ
  pub fails : FileCall → Bool

-- What the window file holds: something that is no window, or a window.
pub record WindowState : Type 0 where
  pub code_hash : Bytes
  pub expires_at : ℕ
  pub attempts : ℕ

pub data WindowFile : Type 0 where
  torn : WindowFile
  window : WindowState → WindowFile

-- The data directory.
pub record Dir : Type 0 where
  pub key : Option Bytes
  pub pairing : Option WindowFile

pub record Keys : Type 0 where
  pub psk : Bytes

-- `psk + "\n"`
abbrev pub key_line : Bytes → Bytes
key_line psk = psk ++ 10 ∷ []

-- A `WriteFile` of the key that failed may have created the file, and written a part of it.
abbrev pub failed_write : Option ℕ → Bytes → Option Bytes
failed_write none content = none
failed_write (some n) content = some (take n content)

-- The cases of `switch` behind `os.ReadFile`.
unfoldable pub keys_of : Host → Dir → Option Bytes → Dir × Result PairError Keys
keys_of host d (some content) =
    if is_empty (trim_space content)
    then (d, err io_error)
    else if host.fails chmod_key
    then (d, err io_error)
    else (d, ok (record { psk = trim_space content }))
keys_of host d none =
    if host.fails draw_secret
    then (d, err io_error)
    else if host.fails write_key
    then (record d { key = failed_write host.written (key_line host.secret) }, err io_error)
    else (record d { key = some (key_line host.secret) }, ok (record { psk = host.secret }))

unfoldable pub load_or_create : Host → Dir → Dir × Result PairError Keys
unfolding keys_of
load_or_create host d =
    if host.fails make_dir
    then (d, err io_error)
    else if host.fails read_key
    then (d, err io_error)
    else keys_of host d d.key

-- The new key goes to a file of its own, which then replaces the old one.
unfoldable pub rotate : Host → Dir → Dir × Result PairError Keys
rotate host d =
    if host.fails draw_secret || host.fails write_tmp || host.fails rename_key
    then (d, err io_error)
    else (record d { key = some (key_line host.secret) }, ok (record { psk = host.secret }))

abbrev pub verify : Keys → Bytes → Bool
verify k token = bytes_eq token k.psk

-- `sha256_base64` is `base64.RawURLEncoding.EncodeToString(sha256.Sum256(…))`.
module _ (sha256_base64 : Bytes → Bytes) where
  unfoldable pub fingerprint : Keys → Bytes
  fingerprint k =
      let enc = sha256_base64 (codes "cmemlan-fingerprint-v1:" ++ k.psk) in
      take 4 enc ++ 45 ∷ (take 4 (drop 4 enc) ++ 45 ∷ take 4 (drop 8 enc))
