-- ===== src/Cli/Doctor/Marks.antt =====
-- `doctor` fails if one of its checks has a cross, and only then.
use claude_mem_lan_sync.Prelude.{
  ℕ, ◌≡◌, refl, Bool, false, not, ◌&&◌, ◌||◌, List, [], ◌∷◌, ◌++◌, Option, none, some, Bytes,
  bytes_eq, codes, is_empty, All, arith, if-keeps,
}
use claude_mem_lan_sync.Proto.Fields.{Fields}
use claude_mem_lan_sync.Settings.{value}
use claude_mem_lan_sync.Cli.Connect.{key_hub_url, key_token, key_user_id}
use claude_mem_lan_sync.Cli.Doctor.{
  Check, Machine, hub_reachable, websocket_off, device_id, device_id_present, device_id_key,
  StatusResult, hub_status, tick, warning, Report, also, current_of, settings_check,
  is_unconfigured, configured_check, device_check, shadowing_keys, shadow_report, conflict_check,
  queue_check, database_check, reached, hub_check, gathered, reports,
}

-- A check that is written with a cross.
unfoldable pub has_cross : List Check → Bool
has_cross [] = false
has_cross (c ∷ cs) = not c.ok && not c.warn || has_cross cs

has_cross-append : (cs cs' : List Check) → has_cross (cs ++ cs') ≡ (has_cross cs || has_cross cs')
unfolding has_cross
has_cross-append [] cs' = refl
has_cross-append (c ∷ cs) cs' = ground (arith, has_cross-append cs cs')

-- `failed` says whether one of the checks has a cross.
abbrev pub IsMarked : Report → Type 0
IsMarked (cs, failed) = has_cross cs ≡ failed

also-IsMarked : (r r' : Report) → IsMarked r → IsMarked r' → IsMarked (also r r')
also-IsMarked (cs, f) (cs', f') h h' = rw (has_cross-append cs cs', h, h') refl

settings_check-IsMarked : (settings : Option Fields) → IsMarked (settings_check settings)
unfolding has_cross
settings_check-IsMarked none = refl
settings_check-IsMarked (some _) = refl

configured_check-IsMarked : (current : Fields) → IsMarked (configured_check current)
unfolding has_cross
configured_check-IsMarked current =
    if-keeps IsMarked (is_unconfigured current) _ _ (λ _. refl) (λ _. refl)

device_check-IsMarked : (current : Fields) → IsMarked (device_check current)
unfolding has_cross
device_check-IsMarked current =
    if-keeps IsMarked (is_empty (value current device_id_key)) (warning device_id ∷ [], false)
      (tick device_id_present ∷ [], false) (λ _. refl) (λ _. refl)

shadow_report-IsMarked : (keys : List Bytes) → IsMarked (shadow_report keys)
unfolding has_cross
shadow_report-IsMarked [] = refl
shadow_report-IsMarked (_ ∷ _) = refl

conflict_check-IsMarked : (m : Machine) → IsMarked (conflict_check m)
unfolding has_cross
conflict_check-IsMarked m =
    if-keeps IsMarked m.has_code_path _ _ (λ _. shadow_report-IsMarked (shadowing_keys m.code_env))
      (λ _. refl)

queue_check_unmarked : (pending : Option ℕ) → has_cross (queue_check pending) ≡ false
unfolding has_cross
queue_check_unmarked none = refl
queue_check_unmarked (some _) = refl

database_check-IsMarked : (m : Machine) → IsMarked (database_check m)
unfolding has_cross
database_check-IsMarked m =
    if-keeps IsMarked m.opens _ _
      (λ _.
        if-keeps (λ c. IsMarked (c ∷ queue_check m.pending, false)) m.worker _ _
          (λ _. queue_check_unmarked m.pending) (λ _. queue_check_unmarked m.pending))
      (λ _. refl)

reached-IsMarked : (r : Option StatusResult) → IsMarked (reached r)
unfolding has_cross
reached-IsMarked none = refl
reached-IsMarked (some r) =
    if-keeps (λ cs. IsMarked (tick hub_reachable ∷ cs, false)) (bytes_eq r.sync_mode (codes "poll"))
      (tick websocket_off ∷ []) [] (λ _. refl) (λ _. refl)

hub_check-IsMarked : (m : Machine) (current : Fields) → IsMarked (hub_check m current)
unfolding has_cross
hub_check-IsMarked m current =
    if-keeps IsMarked (is_unconfigured current) _ _ (λ _. refl)
      (λ _. reached-IsMarked (
        hub_status m (value current key_hub_url) (value current key_user_id)
          (value current key_token)))

gathered-IsMarked : (rs : List Report) → All IsMarked rs → IsMarked (gathered rs)
unfolding gathered has_cross
gathered-IsMarked [] marked = refl
gathered-IsMarked (r ∷ rs) (marked, more) =
    also-IsMarked r (gathered rs) marked (gathered-IsMarked rs more)

pub reports-IsMarked : (m : Machine) → IsMarked (gathered (reports m))
unfolding has_cross
reports-IsMarked m =
    let current : Fields = current_of m.settings in
    gathered-IsMarked (reports m) (
      refl,
      (
        settings_check-IsMarked m.settings,
        (
          configured_check-IsMarked current,
          (
            device_check-IsMarked current,
            (
              conflict_check-IsMarked m,
              (database_check-IsMarked m, (hub_check-IsMarked m current, tt)),
            ),
          ),
        ),
      ),
    )
