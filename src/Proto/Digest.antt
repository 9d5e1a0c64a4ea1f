-- ===== src/Proto/Digest.antt =====
-- internal/proto/digest.go: the shape of a base64url SHA-256 digest.
use claude_mem_lan_sync.Prelude.{
  ℕ, Bool, true, false, ◌&&◌, ◌||◌, [], ◌∷◌, if◌then◌else◌, leb, ◌==◌, Bytes, codes, length, ◌≡◌,
  refl,
}

-- 32 bytes in base64, without padding.
abbrev pub digest_len : ℕ
digest_len = 43

-- The cases of `switch`.
abbrev pub is_base64url : ℕ → Bool
is_base64url c =
    (leb b'A' c && leb c b'Z')
    || (leb b'a' c && leb c b'z')
    || (leb b'0' c && leb c b'9')
    || c == b'-'
    || c == b'_'

unfoldable pub all_base64url : Bytes → Bool
all_base64url [] = true
all_base64url (c ∷ s) = is_base64url c && all_base64url s

-- `ValidDigest`
unfoldable pub valid_digest : Bytes → Bool
unfolding all_base64url
valid_digest s = if length s == digest_len then all_base64url s else false

-- `NullPayloadDigest`
abbrev pub null_payload_digest : Bytes
null_payload_digest = codes "dCNOmK_nSY-12vHzasLXiswzlGT5UHA7jAGYkvmCuQs"

valid_digest-null_payload_digest : valid_digest null_payload_digest ≡ true
unfolding valid_digest
valid_digest-null_payload_digest = refl
