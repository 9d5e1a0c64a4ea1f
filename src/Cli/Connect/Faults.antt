-- ===== src/Cli/Connect/Faults.antt =====
-- The errors of the reading of the address and of the asking for a key, each with a status other than 0.
use claude_mem_lan_sync.Prelude.{
  ℕ, suc, ◌≡◌, ◌≢◌, refl, ◌⊎◌, inl, inr, Bool, true, false, not, ◌&&◌, ◌||◌, List, [], ◌∷◌, ◌++◌,
  Option, none, some, Bytes, codes, ok, err, is_empty, if-keeps, Blames, blamed, fine, ◌==◌, arith,
}
use claude_mem_lan_sync.Cli.Connect.{
  ConnectFlags, Surroundings, PairReply, trim_slashes, single_hub, hub_address, redeem_at,
  complete_pair, decoded_pair, pair_result,
}

pub or_false : (a b : Bool) → a || b ≡ false → (a ≡ false) × (b ≡ false)
or_false false false h = (refl, refl)
or_false true b h = absurd cc
or_false false true h = absurd cc

pub verified_if :
    (missing waived fits : Bool)
    → missing && not waived ≡ false
    → not missing && not fits ≡ false
    → ((missing ≡ true) × (waived ≡ true)) ⊎ (fits ≡ true)
verified_if true true fits has checked = inl (refl, refl)
verified_if true false fits has checked = absurd cc
verified_if false waived true has checked = inr refl
verified_if false waived false has checked = absurd cc

pub asked_if :
    (missing waived : Bool) → missing && not waived ≡ false → (missing ≡ false) ⊎ (waived ≡ true)
asked_if false waived has = inl refl
asked_if true true has = inr refl
asked_if true false has = absurd cc

pub not-true : (b : Bool) → not b ≡ true → b ≡ false
not-true false h = refl
not-true true h = absurd cc

pub not-false : (b : Bool) → not b ≡ false → b ≡ true
not-false true h = refl
not-false false h = absurd cc

abbrev pub IsFailure : ℕ → Type 0
IsFailure status = status ≢ 0

pub suc-IsFailure : (n : ℕ) → IsFailure (suc n)
suc-IsFailure n e = omega arith

single_hub-Blames : (found : Option (List Bytes)) → Blames IsFailure (single_hub found)
single_hub-Blames none = blamed (suc-IsFailure 0)
single_hub-Blames (some []) = blamed (suc-IsFailure 0)
single_hub-Blames (some (url ∷ [])) = fine
single_hub-Blames (some (_ ∷ _ ∷ _)) = blamed (suc-IsFailure 0)

pub hub_address-Blames :
    (world : Surroundings) (flags : ConnectFlags) (args : List Bytes)
    → Blames IsFailure (hub_address world flags args)
hub_address-Blames world flags [] =
    if-keeps (Blames IsFailure) (not (is_empty flags.code)) _ _ (λ _. blamed (suc-IsFailure 1))
      (λ _. single_hub-Blames world.browse)
hub_address-Blames world flags (url ∷ []) = fine
hub_address-Blames world flags (_ ∷ _ ∷ _) = blamed (suc-IsFailure 1)

complete_pair-Blames : (pair : Bytes × Bytes) → Blames IsFailure (complete_pair pair)
complete_pair-Blames (token, user) =
    if-keeps (Blames IsFailure) (is_empty token || is_empty user) _ _
      (λ _. blamed (suc-IsFailure 0)) (λ _. fine)

decoded_pair-Blames : (body : Option (Bytes × Bytes)) → Blames IsFailure (decoded_pair body)
decoded_pair-Blames none = blamed (suc-IsFailure 0)
decoded_pair-Blames (some pair) = complete_pair-Blames pair

pair_result-Blames : (reply : Option PairReply) → Blames IsFailure (pair_result reply)
pair_result-Blames none = blamed (suc-IsFailure 0)
pair_result-Blames (some reply) =
    if-keeps (Blames IsFailure) (not (reply.status == 200)) _ _ (λ _. blamed (suc-IsFailure 0))
      (λ _. decoded_pair-Blames reply.body)

pub redeem_at-Blames :
    (world : Surroundings) (url code : Bytes) → Blames IsFailure (redeem_at world url code)
unfolding redeem_at
redeem_at-Blames world url code =
    pair_result-Blames (world.post (trim_slashes url ++ codes "/pair") code)

-- A code is only sent to an address that is an argument.
pub hub_address_code :
    (world : Surroundings) (flags : ConnectFlags) (args : List Bytes) (url : Bytes)
    → is_empty flags.code ≡ false
    → hub_address world flags args ≡ ok url
    → (arg : Bytes) × (args ≡ arg ∷ []) × (url ≡ trim_slashes arg)
hub_address_code world flags [] url coded found =
    let refuses : hub_address world flags [] ≡ err 2 = rw coded refl in absurd cc
hub_address_code world flags (arg ∷ []) url coded found = (arg, refl, cc)
hub_address_code world flags (_ ∷ _ ∷ _) url coded found = absurd cc
