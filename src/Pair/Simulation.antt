-- ===== src/Pair/Simulation.antt =====
-- One call of `Redeem` on the window in the file, and on the window in memory.
use claude_mem_lan_sync.Prelude.{
  is_empty, trim_space, ℕ, ◌+◌, ◌≡◌, refl, true, false, ◌||◌, arith, Bytes, bytes_eq, bytes_eq_iff,
  ok, err, Bool-cases, inl, inr, ltb, leb, Option, none, some,
}
use claude_mem_lan_sync.Pair.Codes.{no_window, Window, redeem, normalise, max_attempts}
use claude_mem_lan_sync.Pair.Keys.{
  Host, FileCall, lock, read_window, write_window, remove_window, make_dir, read_key, chmod_key,
  WindowState, WindowFile, torn, window, Dir, load_or_create, keys_of,
}
use claude_mem_lan_sync.Pair.FileWindow.{
  redeem_file, redeem_window, hash_code, take_key, persist_attempt,
}

-- The key that the file of a directory holds.
abbrev pub key_in : Option Bytes → Option Bytes
key_in none = none
key_in (some content) = some (trim_space content)

-- `load_or_create` finds a key that is there.
keys_of_found :
    (host : Host) (d : Dir) (file : Option Bytes) {psk : Bytes}
    → ((c : FileCall) → host.fails c ≡ false)
    → key_in file ≡ some psk
    → is_empty psk ≡ false
    → keys_of host d file ≡ (d, ok (record { psk = psk }))
unfolding keys_of
keys_of_found host d none works h e = cc
keys_of_found host d (some content) works h e = ground (arith, works chmod_key)

load_or_create_found :
    (host : Host) (d : Dir) {psk : Bytes}
    → ((c : FileCall) → host.fails c ≡ false)
    → key_in d.key ≡ some psk
    → is_empty psk ≡ false
    → load_or_create host d ≡ (d, ok (record { psk = psk }))
unfolding load_or_create
load_or_create_found host d works h e =
    rw (works make_dir, works read_key, keys_of_found host d d.key works h e)

module _ (sha256_base64 : Bytes → Bytes) (code : Bytes) where
  -- The file holds the window with the code, or none if the window in memory is closed.
  abbrev pub Holds : Option WindowFile → Window → Type 0
  Holds none w = (w.redeemed || is_empty w.code) ≡ true
  Holds (some torn) w = ⊥
  Holds (some (window s)) w =
      (w.redeemed ≡ false)
      × (is_empty w.code ≡ false)
      × (w.code ≡ code)
      × (s.code_hash ≡ hash_code sha256_base64 code)
      × (s.expires_at ≡ w.expires)
      × (s.attempts ≡ w.attempts)

  abbrev pub HoldsKey : Dir → Window → Type 0
  HoldsKey d w = Holds d.pairing w × (key_in d.key ≡ some w.psk) × (is_empty w.psk ≡ false)

  -- No call of the operating system fails.
  abbrev pub Works : Host → Type 0
  Works host = (c : FileCall) → host.fails c ≡ false

  -- The guess does not have the hash of the code by accident.
  abbrev pub NoCollision : Bytes → Type 0
  NoCollision guess =
      hash_code sha256_base64 guess ≡ hash_code sha256_base64 code
      → normalise guess ≡ normalise code

  -- The comparison of the hashes is that of the codes.
  hash_code-bytes_eq :
      (guess : Bytes)
      → NoCollision guess
      → bytes_eq (hash_code sha256_base64 guess) (hash_code sha256_base64 code)
        ≡ bytes_eq (normalise guess) (normalise code)
  hash_code-bytes_eq guess distinct =
      let hash = hash_code sha256_base64 in
      grind (
        arith,
        bytes_eq_iff (hash guess) (hash code),
        bytes_eq_iff (normalise guess) (normalise code),
        distinct,
      )

  redeem_closed :
      (now : ℕ) (w : Window) (guess : Bytes)
      → Holds none w
      → redeem now w guess ≡ (w, err no_window)
  unfolding redeem
  redeem_closed now w guess h = rw h

  -- The cases of a window that is open in the file and in memory.
  open_window :
      (host : Host) (d : Dir) (s : WindowState) (w : Window) (guess : Bytes)
      → Works host
      → NoCollision guess
      → Holds (some (window s)) w
      → HoldsKey d w
      → let (d', answer) = redeem_window sha256_base64 host d guess (some (window s)) in
        let (w', answer') = redeem host.now w guess in (answer ≡ answer') × HoldsKey d' w'
  unfolding redeem_window redeem persist_attempt take_key
  open_window host d s w guess works distinct (a, b, c, e, f, g) (h, key, q) =
      let same : bytes_eq (hash_code sha256_base64 guess) s.code_hash
          ≡ bytes_eq (normalise guess) (normalise w.code) =
        cc (hash_code-bytes_eq guess distinct) in
      let found = load_or_create_found host d works key q in
      rw (same, f, g, a, b, found, works remove_window, works write_window)
        elim (Bool-cases (ltb w.expires host.now)) [
          | inl late ↦ rw late (refl, (refl, key, q))
          | inr open_ ↦ elim (Bool-cases (leb max_attempts w.attempts)) [
            | inl spent ↦ rw (open_, spent) (refl, (refl, key, q))
            | inr left_ ↦ elim (Bool-cases (bytes_eq (normalise guess) (normalise w.code))) [
              | inl right ↦ rw (open_, left_, right) (refl, (refl, key, q))
              | inr wrong ↦
                  rw (open_, left_, wrong)
                    elim (Bool-cases (leb max_attempts (w.attempts + 1))) [
                      | inl last ↦ rw last (refl, (refl, key, q))
                      | inr more ↦ rw more (refl, ((refl, b, c, e, refl, refl), key, q))
                    ]
            ]
          ]
        ]

  redeem_window-redeem :
      (host : Host) (d : Dir) (file : Option WindowFile) (w : Window) (guess : Bytes)
      → Works host
      → NoCollision guess
      → Holds file w
      → HoldsKey d w
      → d.pairing ≡ file
      → let (d', answer) = redeem_window sha256_base64 host d guess file in
        let (w', answer') = redeem host.now w guess in (answer ≡ answer') × HoldsKey d' w'
  unfolding redeem_window
  redeem_window-redeem host d none w guess works distinct h held at =
      rw (redeem_closed host.now w guess h) (refl, held)
  redeem_window-redeem host d (some torn) w guess works distinct h held at = elim h [ ]
  redeem_window-redeem host d (some (window s)) w guess works distinct h held at =
      open_window host d s w guess works distinct h held

  pub redeem_file-redeem :
      (host : Host) (d : Dir) (w : Window) (guess : Bytes)
      → Works host
      → NoCollision guess
      → HoldsKey d w
      → let (d', answer) = redeem_file sha256_base64 host d guess in
        let (w', answer') = redeem host.now w guess in (answer ≡ answer') × HoldsKey d' w'
  unfolding redeem_file
  redeem_file-redeem host d w guess works distinct held =
      let answered =
        redeem_window-redeem host d d.pairing w guess works distinct held.0 held refl in
      rw (works lock, works read_window) answered
