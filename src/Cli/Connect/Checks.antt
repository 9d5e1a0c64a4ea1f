-- ===== src/Cli/Connect/Checks.antt =====
-- What `run_connect` has checked before it asks for a key, and before it writes.
use claude_mem_lan_sync.Prelude.{
  ℕ, ◌≡◌, ◌≢◌, refl, ◌⊎◌, inl, inr, true, false, not, ◌||◌, List, [], ◌∷◌, Option, Bytes, Result,
  ok, err, is_empty, trim_space, if-keeps, at_fault, ap,
}
use claude_mem_lan_sync.Proto.Fields.{Fields}
use claude_mem_lan_sync.Pair.Keys.{fingerprint}
use claude_mem_lan_sync.Hub.Server.{equal_fold}
use claude_mem_lan_sync.Settings.{SettingsDir}
use claude_mem_lan_sync.Cli.Connect.{
  ConnectFlags, Surroundings, ConnectOutcome, trim_slashes, hub_address, redeem_at, updates,
  name_or_hostname, lacks_fingerprint, mismatches, write_settings, configure, connect_to,
  run_connect,
}
use claude_mem_lan_sync.Cli.Connect.Faults.{
  or_false, verified_if, asked_if, not-true, not-false, suc-IsFailure, hub_address-Blames,
  redeem_at-Blames, hub_address_code,
}

-- No request for pairing; or one, to the only argument with the code, where a fingerprint is given or
-- the check of it is waived.
abbrev pub IsAsked : ConnectFlags → List Bytes → List (Bytes × Bytes) → Type 0
IsAsked flags args asked =
    (asked ≡ [])
    ⊎ ((arg : Bytes) × (args ≡ arg ∷ [])
        × (asked ≡ (trim_slashes arg, flags.code) ∷ [])
        × (is_empty flags.code ≡ false)
        × ((is_empty flags.expected ≡ false) ⊎ (flags.yes ≡ true)))

module _ (sha256_base64 : Bytes → Bytes) where
  -- The key has the fingerprint that is expected, or there is none and the check is waived.
  abbrev pub IsVerified : ConnectFlags → Bytes → Type 0
  IsVerified flags token =
      ((is_empty flags.expected ≡ true) × (flags.yes ≡ true))
      ⊎ (equal_fold (trim_space flags.expected) (fingerprint sha256_base64 (record { psk = token }))
          ≡ true)

  -- The key and the user id are those of the flags, or the answer of the hub that was asked.
  abbrev pub IsSource :
      Surroundings → ConnectFlags → Bytes → Bytes × Bytes → List (Bytes × Bytes) → Type 0
  IsSource world flags url pair asked =
      ((asked ≡ []) × (is_empty flags.code ≡ true) × (pair ≡ (flags.token, flags.user_id)))
      ⊎ ((asked ≡ (url, flags.code) ∷ []) × (redeem_at world url flags.code ≡ ok pair))

  module _ (decode : Bytes → Option Fields) (encode : Fields → Option Bytes)
      (marshal : Bytes → Option Bytes) where
    pub data IsConnected (world : Surroundings) (flags : ConnectFlags) (args : List Bytes)
        (d : SettingsDir) : ConnectOutcome → Type 0 where
      refused :
          (out : ConnectOutcome)
          → out.dir ≡ d
          → out.status ≢ 0
          → IsAsked flags args out.asked
          → IsConnected world flags args d out
      written :
          (asked : List (Bytes × Bytes)) (url token user : Bytes)
          → hub_address world flags args ≡ ok url
          → IsAsked flags args asked
          → IsSource world flags url (token, user) asked
          → is_empty token ≡ false
          → is_empty user ≡ false
          → IsVerified flags token
          → IsConnected world flags args d (
              write_settings decode encode marshal world d asked
                (updates url token user (name_or_hostname world flags)))

    module _ (world : Surroundings) (flags : ConnectFlags) (args : List Bytes)
        (d : SettingsDir) where
      abbrev Good : ConnectOutcome → Type 0
      Good = IsConnected world flags args d

      configure-IsConnected :
          (asked : List (Bytes × Bytes)) (url : Bytes) (r : Result ℕ (Bytes × Bytes))
          → hub_address world flags args ≡ ok url
          → lacks_fingerprint flags ≡ false
          → IsAsked flags args asked
          → ((pair : Bytes × Bytes) → r ≡ ok pair → IsSource world flags url pair asked)
          → ((status : ℕ) → r ≡ err status → status ≢ 0)
          → Good (configure sha256_base64 decode encode marshal world flags d asked url r)
      unfolding configure
      configure-IsConnected asked url (err status) found has may source fails =
          refused _ refl (fails status refl) may
      configure-IsConnected asked url (ok (token, user)) found has may source fails =
          if-keeps Good (is_empty token || is_empty user) _ _
            (λ _. refused _ refl (suc-IsFailure _) may)
            λ complete.
              if-keeps Good (mismatches sha256_base64 flags token) _ _
                (λ _. refused _ refl (suc-IsFailure _) may)
                λ fits.
                  written asked url token user found may (source (token, user) refl)
                    (or_false _ _ complete).0 (or_false _ _ complete).1
                    (verified_if (is_empty flags.expected) flags.yes _ has fits)

      connect_to-IsConnected :
          (r : Result ℕ Bytes)
          → hub_address world flags args ≡ r
          → Good (connect_to sha256_base64 decode encode marshal world flags d r)
      unfolding connect_to
      connect_to-IsConnected (err status) found =
          refused _ refl (at_fault status (hub_address-Blames world flags args) found) (inl refl)
      connect_to-IsConnected (ok url) found =
          if-keeps Good (lacks_fingerprint flags) _ _
            (λ _. refused _ refl (suc-IsFailure _) (inl refl))
            λ has.
              if-keeps Good (not (is_empty flags.code)) _ _
                (λ coded.
                  configure-IsConnected _ url _ found has
                    (let (arg, only, same) =
                        hub_address_code world flags args url (not-true _ coded) found in
                      inr (
                        arg,
                        only,
                        ap (λ a. (a, flags.code) ∷ []) same,
                        not-true _ coded,
                        asked_if (is_empty flags.expected) flags.yes has,
                      ))
                    (λ pair e. inr (refl, e))
                    (λ status e. at_fault status (redeem_at-Blames world url flags.code) e))
                λ plain.
                  configure-IsConnected [] url _ found has (inl refl)
                    (λ pair e. inl (refl, not-false _ plain, cc)) (λ status e. absurd cc)

-- A run of `connect`, not to undo, has one of two outcomes. It fails, has written nothing, and has asked
-- for a key only with the code and at the address that are its arguments, and only with a fingerprint
-- or with `--yes`. Or the settings are updated with the address that is its argument or the only one
-- that is discovered, and with a key and an id that are not empty, which are those of the flags, or the
-- answer of the hub at that address to the code; and the key has the fingerprint that is expected, or
-- none is and `--yes` is given.
pub run_connect-IsConnected :
    (sha256_base64 : Bytes → Bytes) (decode : Bytes → Option Fields)
    (encode : Fields → Option Bytes) (marshal : Bytes → Option Bytes) (world : Surroundings)
    (flags : ConnectFlags) (args : List Bytes) (d : SettingsDir)
    → flags.undo ≡ false
    → IsConnected sha256_base64 decode encode marshal world flags args d
        (run_connect sha256_base64 decode encode marshal world flags args d)
unfolding run_connect
run_connect-IsConnected sha256_base64 decode encode marshal world flags args d undo =
    if-keeps (IsConnected sha256_base64 decode encode marshal world flags args d)
      (not world.has_settings_path) _ _ (λ _. refused _ refl (suc-IsFailure 0) (inl refl))
      λ _.
        if-keeps (IsConnected sha256_base64 decode encode marshal world flags args d) flags.undo _ _
          (λ undoes. absurd cc)
          λ _.
            connect_to-IsConnected sha256_base64 decode encode marshal world flags args d
              (hub_address world flags args) refl
