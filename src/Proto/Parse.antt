-- ===== src/Proto/Parse.antt =====
-- `ParseOp` of internal/proto/wrapper.go: an operation as a client sends it.
pub mod Sound
use claude_mem_lan_sync.Prelude.{
  ℕ, ◌+◌, Bool, true, false, not, ◌&&◌, ◌||◌, List, [], ◌∷◌, Option, none, some, if◌then◌else◌, ltb,
  ◌==◌, Bytes, bytes_eq, codes, Result, ok, err, ◌>>=◌, ◌>>◌, length, trim_space, is_empty,
}
use claude_mem_lan_sync.Proto.Dec.{DecError, parse_dec, parse_dec_positive}
use claude_mem_lan_sync.Proto.Digest.{valid_digest}
use claude_mem_lan_sync.Proto.Errors.{
  Fault, RejectReason, reject, wrapper_shape, digest_mismatch, body_shape, unknown_kind, entity_rev,
  too_large,
}
use claude_mem_lan_sync.Proto.Fields.{Fields, field, is_some, object_fields}
use claude_mem_lan_sync.Proto.Json.{unmarshal_string}
use claude_mem_lan_sync.Proto.Op.{Op, max_body_bytes, max_body_literal, max_device_id_len}
use claude_mem_lan_sync.Proto.Unquote.{unquote_json_string}

-- A test that refuses with a reason, and a value whose absence does.
abbrev pub refuse_if : Bool → RejectReason → Result Fault (Unit {0})
refuse_if true r = err (reject r)
refuse_if false r = ok tt

abbrev pub or_reject : {A : Type 0} → RejectReason → Option A → Result Fault A
or_reject r none = err (reject r)
or_reject r (some a) = ok a

abbrev pub valid_kinds : List Bytes
valid_kinds = codes "observation" ∷ codes "summary" ∷ codes "prompt" ∷ codes "mutation" ∷ []

abbrev pub body_keys : List Bytes
body_keys =
    codes "body_schema_version"
    ∷ codes "deleted"
    ∷ codes "deleted_at"
    ∷ codes "entity_rev"
    ∷ codes "id"
    ∷ codes "kind"
    ∷ codes "mutation"
    ∷ codes "origin_device_id"
    ∷ codes "origin_local_id"
    ∷ codes "payload"
    ∷ codes "payload_schema_version"
    ∷ codes "payload_sha256"
    ∷ []

unfoldable pub is_one_of : List Bytes → Bytes → Bool
is_one_of [] s = false
is_one_of (t ∷ ts) s = if bytes_eq t s then true else is_one_of ts s

unfoldable pub has_keys : List Bytes → Fields → Bool
has_keys [] fields = true
has_keys (k ∷ ks) fields = if is_some (field fields k) then has_keys ks fields else false

-- `json.Unmarshal(fields[key], &s)`; all keys are there when it is called.
abbrev pub unmarshal_field : Fields → Bytes → Option Bytes
unmarshal_field fields key = elim (field fields key) [
  | none ↦ none
  | some raw ↦ unmarshal_string raw
]

abbrev pub positive_or : Result DecError ℕ → Result Fault ℕ
positive_or (ok d) = ok d
positive_or (err _) = err (reject entity_rev)

abbrev pub local_or : Result DecError ℕ → Result Fault (Option ℕ)
local_or (ok d) = ok (some d)
local_or (err _) = err (reject body_shape)

abbrev pub local_of : Option Bytes → Result Fault (Option ℕ)
local_of none = err (reject body_shape)
local_of (some text) = local_or (parse_dec text)

-- null for a mutation, and a decimal string for the rest.
abbrev pub origin_local_id_of : Option Bytes → Result Fault (Option ℕ)
origin_local_id_of none = err (reject body_shape)
origin_local_id_of (some raw) =
    if bytes_eq (trim_space raw) (codes "null") then ok none else local_of (unmarshal_string raw)

abbrev pub same_count : List Bytes → Fields → Bool
same_count ks fields = length fields == length ks

-- `parseBody`, with the digest and the literal of the wrapper.
unfoldable pub parse_body : Bytes → Bytes → Bytes → Result Fault Op
parse_body raw_literal digest decoded = do
  fields ← or_reject body_shape (object_fields decoded)
  refuse_if (not (same_count body_keys fields)) body_shape
  refuse_if (not (has_keys body_keys fields)) body_shape
  kind ← or_reject body_shape (unmarshal_field fields (codes "kind"))
  refuse_if (not (is_one_of valid_kinds kind)) unknown_kind
  id ← or_reject body_shape (unmarshal_field fields (codes "id"))
  refuse_if (is_empty id) body_shape
  rev ← or_reject entity_rev (unmarshal_field fields (codes "entity_rev"))
  revision ← positive_or (parse_dec_positive rev)
  device ← or_reject body_shape (unmarshal_field fields (codes "origin_device_id"))
  refuse_if (is_empty device || ltb max_device_id_len (length device)) body_shape
  local_id ← origin_local_id_of (field fields (codes "origin_local_id"))
  ok (record {
    raw_literal = raw_literal;
    digest = digest;
    id = id;
    kind = kind;
    entity_rev = revision;
    origin_device_id = device;
    origin_local_id = local_id;
  })

abbrev pub opens_string : Bytes → Bool
opens_string [] = false
opens_string (c ∷ _) = c == b'"'

-- `digest_of` is `Digest`: SHA-256 in base64url.
module _ (digest_of : Bytes → Bytes) where
  unfoldable pub parse_op : Bytes → Result Fault Op
  parse_op wrapper = do
    refuse_if (ltb (max_body_literal + 1024) (length wrapper)) too_large
    fields ← or_reject wrapper_shape (object_fields wrapper)
    refuse_if (not (length fields == 2)) wrapper_shape
    raw_body ← or_reject wrapper_shape (field fields (codes "body"))
    raw_digest ← or_reject wrapper_shape (field fields (codes "operation_sha256"))
    refuse_if (not (opens_string raw_body)) wrapper_shape
    refuse_if (ltb max_body_literal (length raw_body)) too_large
    digest ← or_reject wrapper_shape (unmarshal_string raw_digest)
    refuse_if (not (valid_digest digest)) wrapper_shape
    decoded ← unquote_json_string raw_body
    refuse_if (ltb max_body_bytes (length decoded)) too_large
    refuse_if (not (bytes_eq (digest_of decoded) digest)) digest_mismatch
    parse_body raw_body digest decoded
