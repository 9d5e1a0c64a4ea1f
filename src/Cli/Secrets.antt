-- ===== src/Cli/Secrets.antt =====
-- `findSecretShapes` of internal/cli/fixtures.go, with the two regular expressions as matchers.
pub mod Complete
use claude_mem_lan_sync.Prelude.{
  ℕ, ◌+◌, Bool, true, false, not, ◌&&◌, ◌||◌, List, [], ◌∷◌, ◌++◌, Option, none, some,
  if◌then◌else◌, leb, ◌==◌, Bytes, codes, length, take, drop, bytes_eq,
}
use claude_mem_lan_sync.Proto.Dec.{is_digit}

abbrev pub is_letter : ℕ → Bool
is_letter c = leb b'a' c && leb c b'z' || leb b'A' c && leb c b'Z'

-- `\b` is between a byte of these and another one.
abbrev pub is_word : ℕ → Bool
is_word c = is_digit c || is_letter c || c == b'_'

-- `\s`
abbrev pub is_blank : ℕ → Bool
is_blank c = leb 9 c && leb c 10 || leb 12 c && leb c 13 || c == 32

-- `[A-Za-z0-9_+/=-]`
abbrev pub is_opaque : ℕ → Bool
is_opaque c =
    is_digit c || is_letter c || c == b'_' || c == b'+' || c == b'/' || c == b'=' || c == b'-'

-- At one of the positions of a text; the flag says whether a word byte is before it.
unfoldable pub any_at : (Bool → Bytes → Bool) → Bool → Bytes → Bool
any_at matches after [] = matches after []
any_at matches after (c ∷ s) = matches after (c ∷ s) || any_at matches (is_word c) s

-- A digit, a dash, or another byte.
abbrev pub sort : ℕ → ℕ
sort c = if is_digit c then 0 else if c == b'-' then 1 else 2

unfoldable pub sorts : Bytes → Bytes
sorts [] = []
sorts (c ∷ s) = sort c ∷ sorts s

abbrev pub starts_word : Bytes → Bool
starts_word [] = false
starts_word (c ∷ _) = is_word c

-- `\b\d{3}-\d{3}-\d{3}\b`, of which both ends are word bytes.
abbrev pub code_like : Bool → Bytes → Bool
code_like after s =
    not after
    && (bytes_eq (sorts (take 11 s)) (0 ∷ 0 ∷ 0 ∷ 1 ∷ 0 ∷ 0 ∷ 0 ∷ 1 ∷ 0 ∷ 0 ∷ 0 ∷ [])
        && not (starts_word (drop 11 s)))

-- What is behind a prefix.
unfoldable pub strip_prefix : Bytes → Bytes → Option Bytes
strip_prefix [] s = some s
strip_prefix (c ∷ p) [] = none
strip_prefix (c ∷ p) (d ∷ s) = let rest = strip_prefix p s in if c == d then rest else none

abbrev pub or_try : Option Bytes → Option Bytes → Option Bytes
or_try none other = other
or_try (some s) other = some s

-- `"(token|psk|key|secret|password)"`
unfoldable pub behind_name : Bytes → Option Bytes
behind_name s = or_try (strip_prefix (codes "\"token\"") s) (
    or_try (strip_prefix (codes "\"psk\"") s) (
      or_try (strip_prefix (codes "\"key\"") s)
        (or_try (strip_prefix (codes "\"secret\"") s) (strip_prefix (codes "\"password\"") s))))

unfoldable pub skip_while : (ℕ → Bool) → Bytes → Bytes
skip_while p [] = []
skip_while p (c ∷ s) = let rest = skip_while p s in if p c then rest else c ∷ s

unfoldable pub count_while : (ℕ → Bool) → Bytes → ℕ
count_while p [] = 0
count_while p (c ∷ s) = let rest = count_while p s in if p c then rest + 1 else 0

-- `[A-Za-z0-9_+/=-]{16,}"`, where the class has no quote.
abbrev pub opaque_value : Bytes → Bool
opaque_value s =
    leb 16 (count_while is_opaque s)
    && elim (skip_while is_opaque s) [ [] ↦ false | c ∷ _ ↦ c == b'"' ]

-- `\s*:\s*"` and the value.
abbrev pub colon_quote : Bytes → Option Bytes
colon_quote s = elim (strip_prefix (codes ":") (skip_while is_blank s)) [
  | none ↦ none
  | some s' ↦ strip_prefix (codes "\"") (skip_while is_blank s')
]

abbrev pub matches_value : Option Bytes → Bool
matches_value none = false
matches_value (some s) = opaque_value s

abbrev pub matches_field : Option Bytes → Bool
matches_field none = false
matches_field (some s) = matches_value (colon_quote s)

abbrev pub secret_like : Bool → Bytes → Bool
secret_like after s = matches_field (behind_name s)

pub data Leak : Type 0 where
  credential_field pairing_code : Leak

unfoldable pub find_secret_shapes : Bytes → Option Leak
find_secret_shapes s =
    if any_at secret_like false s
    then some credential_field
    else if any_at code_like false s
    then some pairing_code
    else none
