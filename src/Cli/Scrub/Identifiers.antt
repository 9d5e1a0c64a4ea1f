-- ===== src/Cli/Scrub/Identifiers.antt =====
-- The shapes of the identifiers in a fixture.
use claude_mem_lan_sync.Prelude.{
  ℕ, zero, suc, ◌+◌, ◌-◌, ◌≤◌, Bool, true, false, [], ◌∷◌, ◌++◌, some, Bytes, bytes_eq, codes, ◌≡◌,
  ◌≢◌, ◌||◌, ◌==◌, bytes_eq→eq, refl, length, take, drop, length-append, arith, inl, inr, if-keeps,
  Bool-cases, ◌&&◌, append_assoc, length-take, length-drop,
}
use claude_mem_lan_sync.Cli.Scrub.{
  is_hex_digit, hex_digits, zeros, hex_32, anonymise_device, anonymise_identifier, anonymise_entity,
  kind_prefix,
}

unfoldable pub all_hex : Bytes → Bool
all_hex [] = true
all_hex (c ∷ s) = is_hex_digit c && all_hex s

abbrev pub IsGroup : ℕ → Bytes → Type 0
IsGroup n s = (length s ≡ n) × (all_hex s ≡ true)

-- Groups of 8, 4, 4, 4 and 12 hexadecimal digits.
pub data IsUuid : Bytes → Type 0 where
  uuid :
      (a b c d e : Bytes)
      → IsGroup 8 a
      → IsGroup 4 b
      → IsGroup 4 c
      → IsGroup 4 d
      → IsGroup 12 e
      → IsUuid (a ++ b'-' ∷ (b ++ b'-' ∷ (c ++ b'-' ∷ (d ++ b'-' ∷ e))))

all_hex-hex_digits : (s : Bytes) → all_hex (hex_digits s) ≡ true
unfolding all_hex hex_digits
all_hex-hex_digits [] = refl
all_hex-hex_digits (c ∷ s) = ground (arith, all_hex-hex_digits s)

all_hex-zeros : (n : ℕ) → all_hex (zeros n) ≡ true
unfolding all_hex zeros
all_hex-zeros zero = refl
all_hex-zeros (suc n) = all_hex-zeros n

length-zeros : (n : ℕ) → length (zeros n) ≡ n
unfolding zeros
length-zeros zero = refl
length-zeros (suc n) = rw (length-zeros n) refl

all_hex-append : (s t : Bytes) → all_hex s ≡ true → all_hex t ≡ true → all_hex (s ++ t) ≡ true
unfolding all_hex
all_hex-append [] t hs ht = ht
all_hex-append (c ∷ s) t hs ht = ground (arith, all_hex-append s t)

all_hex-take : (n : ℕ) (s : Bytes) → all_hex s ≡ true → all_hex (take n s) ≡ true
unfolding all_hex
all_hex-take zero s h = refl
all_hex-take (suc n) [] h = refl
all_hex-take (suc n) (c ∷ s) h = ground (arith, all_hex-take n s)

all_hex-drop : (n : ℕ) (s : Bytes) → all_hex s ≡ true → all_hex (drop n s) ≡ true
unfolding all_hex
all_hex-drop zero s h = h
all_hex-drop (suc n) [] h = refl
all_hex-drop (suc n) (c ∷ s) h = ground (arith, all_hex-drop n s)

length-take_le : (n : ℕ) (s : Bytes) → length (take n s) ≤ n
length-take_le zero s = omega arith
length-take_le (suc n) [] = omega arith
length-take_le (suc n) (c ∷ s) = omega (arith, length-take_le n s)

hex_32-IsGroup : (digest : Bytes) → IsGroup 32 (hex_32 digest)
hex_32-IsGroup digest =
    let hex : Bytes = take 32 (hex_digits digest) in
    let added = length-append hex (zeros (32 - length hex)) in
    let padding = length-zeros (32 - length hex) in
    let short = length-take_le 32 (hex_digits digest) in
    (
      omega (arith, added, padding, short),
      all_hex-append hex (zeros (32 - length hex))
          (all_hex-take 32 (hex_digits digest) (all_hex-hex_digits digest))
          (all_hex-zeros (32 - length hex)),
    )

slice-IsGroup : (m n : ℕ) (s : Bytes) → IsGroup 32 s → m + n ≤ 32 → IsGroup n (take n (drop m s))
slice-IsGroup m n s (full, hex) fits =
    let left = length-drop m s in
    (
      length-take n (drop m s) (omega (arith, left)),
      all_hex-take n (drop m s) (all_hex-drop m s hex),
    )

anonymise_device-IsUuid :
    (digest_of : Bytes → Bytes) (device : Bytes) → IsUuid (anonymise_device digest_of device)
anonymise_device-IsUuid digest_of device =
    let s : Bytes = hex_32 (digest_of (codes "fixture-device:" ++ device)) in
    let whole = hex_32-IsGroup (digest_of (codes "fixture-device:" ++ device)) in
    uuid (take 8 s) (take 4 (drop 8 s)) (take 4 (drop 12 s)) (take 4 (drop 16 s))
      (take 12 (drop 20 s)) (slice-IsGroup 0 8 s whole (omega arith))
      (slice-IsGroup 8 4 s whole (omega arith)) (slice-IsGroup 12 4 s whole (omega arith))
      (slice-IsGroup 16 4 s whole (omega arith)) (slice-IsGroup 20 12 s whole (omega arith))

unfoldable pub any_colon : Bytes → Bool
any_colon [] = false
any_colon (c ∷ s) = c == b':' || any_colon s

kind_prefix-append :
    (kind rest : Bytes)
    → any_colon kind ≡ false
    → kind_prefix (kind ++ b':' ∷ rest) ≡ some (kind ++ b':' ∷ [])
unfolding any_colon kind_prefix
kind_prefix-append [] rest h = refl
kind_prefix-append (c ∷ kind) rest h = elim (Bool-cases (c == b':')) [
  | inl e ↦ absurd (ground arith)
  | inr e ↦
      let later : any_colon kind ≡ false = ground arith in
      rw (e, kind_prefix-append kind rest later) refl
]

anonymise_entity_kind :
    (digest_of : Bytes → Bytes) (kind rest : Bytes)
    → any_colon kind ≡ false
    → anonymise_entity digest_of (kind ++ b':' ∷ rest)
      ≡ kind ++ b':' ∷ digest_of (codes "fixture:" ++ (kind ++ b':' ∷ rest))
anonymise_entity_kind digest_of kind rest h =
    rw (anonymise_entity, kind_prefix-append kind rest h)
      (append_assoc kind (b':' ∷ []) (digest_of (codes "fixture:" ++ (kind ++ b':' ∷ rest))))

-- The text that stands for a device in a fixture has the shape of a UUID, whatever the device and the
-- digest are; that of an entity whose id has a colon begins with the id up to the colon.
pub anonymise_identifier-IsUuid :
    (digest_of : Bytes → Bytes) (key s : Bytes)
    → (key ≢ codes "id" → IsUuid (anonymise_identifier digest_of key s))
      × ((kind rest : Bytes)
          → any_colon kind ≡ false
          → anonymise_identifier digest_of (codes "id") (kind ++ b':' ∷ rest)
            ≡ kind ++ b':' ∷ digest_of (codes "fixture:" ++ (kind ++ b':' ∷ rest)))
unfolding anonymise_identifier bytes_eq
anonymise_identifier-IsUuid digest_of key s = (
  λ other.
      if-keeps IsUuid (bytes_eq key (codes "id")) _ _
        (λ same. absurd (other (bytes_eq→eq key (codes "id") same)))
        (λ _. anonymise_device-IsUuid digest_of s),
  λ kind rest h. anonymise_entity_kind digest_of kind rest h,
)
