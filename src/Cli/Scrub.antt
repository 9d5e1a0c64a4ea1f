-- ===== src/Cli/Scrub.antt =====
-- internal/cli/fixtures.go: captures of traffic become fixtures without credentials and content.
pub mod Exchange
pub mod Identifiers
pub mod Digests
use claude_mem_lan_sync.Prelude.{
  ℕ, zero, suc, ◌-◌, ◌+◌, Bool, true, false, ◌&&◌, ◌||◌, List, [], ◌∷◌, ◌++◌, Option, none, some,
  if◌then◌else◌, leb, ◌==◌, Bytes, bytes_eq, codes, Result, ok, err, ◌>>=◌, length, take, drop,
  is_empty,
}
use claude_mem_lan_sync.Proto.Dec.{is_digit}
use claude_mem_lan_sync.Proto.Json.{unmarshal_string}
use claude_mem_lan_sync.Proto.Fields.{Fields, field, is_some}
use claude_mem_lan_sync.Settings.{value, put}
use claude_mem_lan_sync.Cli.Value.{Value, replace_strings}
use claude_mem_lan_sync.Cli.Secrets.{Leak, find_secret_shapes}

pub data ScrubError : Type 0 where
  not_capture not_json_body not_marshalled : ScrubError
  leaking : Leak → ScrubError

-- What the file uses of encoding/json, and `Digest`: `Unmarshal` into a map of raw values, a map of
-- strings, a list of maps and any value; `Marshal` of these and of a string; `MarshalIndent`.
pub record Codec : Type 0 where
  pub decode : Bytes → Option Fields
  pub decode_headers : Bytes → Option Fields
  pub decode_ops : Bytes → Option (List Fields)
  pub decode_value : Bytes → Option Value
  pub encode : Fields → Option Bytes
  pub encode_headers : Fields → Option Bytes
  pub encode_ops : List Fields → Option Bytes
  pub encode_value : Value → Option Bytes
  pub encode_text : Bytes → Option Bytes
  pub indent : Fields → Option Bytes
  pub digest_of : Bytes → Bytes

abbrev pub or_fail : {A : Type 0} → ScrubError → Option A → Result ScrubError A
or_fail e none = err e
or_fail e (some a) = ok a

-- The loop over the names of headers.
unfoldable pub redact : List Bytes → Fields → Fields
redact [] headers = headers
redact (k ∷ ks) headers =
    redact ks (if is_some (field headers k) then put k (codes "REDACTED") headers else headers)

abbrev pub private_headers : List Bytes
private_headers =
    codes "Authorization" ∷ codes "X-User-Id" ∷ codes "X-Device-Id" ∷ codes "X-Device-Name" ∷ []

-- `doc[key] = b` for a `b` that could be encoded.
abbrev pub put_some : Bytes → Fields → Option Bytes → Fields
put_some key doc none = doc
put_some key doc (some b) = put key b doc

abbrev pub redact_headers : Codec → Fields → Fields
redact_headers codec doc = elim (field doc (codes "headers")) [
  | none ↦ doc
  | some raw ↦ elim (codec.decode_headers raw) [
    | none ↦ doc
    | some headers ↦
        put_some (codes "headers") doc (codec.encode_headers (redact private_headers headers))
  ]
]

abbrev pub string_field : Fields → Bytes → Bytes
string_field doc key = value doc key

abbrev pub is_hex_digit : ℕ → Bool
is_hex_digit c = is_digit c || leb b'a' c && leb c b'f'

-- `strings.ToLower` of a digest, whose bytes are ASCII.
abbrev pub to_lower : ℕ → ℕ
to_lower c = if leb b'A' c && leb c b'Z' then c + 32 else c

-- The hexadecimal digits among the letters.
unfoldable pub hex_digits : Bytes → Bytes
hex_digits [] = []
hex_digits (c ∷ s) =
    let rest = hex_digits s in if is_hex_digit (to_lower c) then to_lower c ∷ rest else rest

unfoldable pub zeros : ℕ → Bytes
zeros zero = []
zeros (suc n) = b'0' ∷ zeros n

-- 32 of them, with zeros where the digest has fewer.
abbrev pub hex_32 : Bytes → Bytes
hex_32 digest = let hex = take 32 (hex_digits digest) in hex ++ zeros (32 - length hex)

-- `value[:i+1]`, where there is a colon at `i`.
unfoldable pub kind_prefix : Bytes → Option Bytes
kind_prefix [] = none
kind_prefix (c ∷ s) =
    let rest = kind_prefix s in
    if c == b':' then some (c ∷ []) else elim rest [ none ↦ none | some kind ↦ some (c ∷ kind) ]

abbrev pub anonymise_device : (Bytes → Bytes) → Bytes → Bytes
anonymise_device digest_of device =
    let s = hex_32 (digest_of (codes "fixture-device:" ++ device)) in
    take 8 s
    ++ b'-'
      ∷ (take 4 (drop 8 s)
          ++ b'-'
            ∷ (take 4 (drop 12 s) ++ b'-' ∷ (take 4 (drop 16 s) ++ b'-' ∷ take 12 (drop 20 s))))

abbrev pub anonymise_entity : (Bytes → Bytes) → Bytes → Bytes
anonymise_entity digest_of entity = elim (kind_prefix entity) [
  | none ↦ digest_of (codes "fixture:" ++ entity)
  | some kind ↦ kind ++ digest_of (codes "fixture:" ++ entity)
]

unfoldable pub anonymise_identifier : (Bytes → Bytes) → Bytes → Bytes → Bytes
anonymise_identifier digest_of key s =
    if bytes_eq key (codes "id") then anonymise_entity digest_of s else anonymise_device digest_of s

-- A round of the loop over the two keys.
abbrev pub anonymise_field : Codec → Bytes → Fields → Fields
anonymise_field codec key doc = elim (field doc key) [
  | none ↦ doc
  | some raw ↦ elim (unmarshal_string raw) [
    | none ↦ doc
    | some s ↦
        if is_empty s
        then doc
        else put_some key doc (codec.encode_text (anonymise_identifier codec.digest_of key s))
  ]
]

-- The payload and its digest.
abbrev pub put_payload : Codec → Fields → Option Bytes → Fields
put_payload codec doc none = doc
put_payload codec doc (some b) =
    put_some (codes "payload_sha256") (put (codes "payload") b doc)
      (codec.encode_text (codec.digest_of b))

abbrev pub scrub_payload : Codec → Fields → Fields
scrub_payload codec doc = elim (field doc (codes "payload")) [
  | none ↦ doc
  | some raw ↦ if bytes_eq raw (codes "null") then doc else elim (codec.decode_value raw) [
    | none ↦ doc
    | some v ↦ put_payload codec doc (codec.encode_value (replace_strings v))
  ]
]

unfoldable pub synthesise_body : Codec → Bytes → Result ScrubError Bytes
synthesise_body codec body = do
  doc ← or_fail not_json_body (codec.decode body)
  or_fail not_marshalled (
      codec.encode (
        anonymise_field codec (codes "id")
          (anonymise_field codec (codes "origin_device_id") (scrub_payload codec doc))))

-- An op with the new body, whose digest is that of the new bytes.
abbrev pub put_body : Codec → Fields → Bytes → Result ScrubError Fields
put_body codec op synthetic = do
  encoded ← or_fail not_marshalled (codec.encode_text synthetic)
  digest ← or_fail not_marshalled (codec.encode_text (codec.digest_of synthetic))
  ok (put (codes "operation_sha256") digest (put (codes "body") encoded op))

-- A round of the loop over the ops.
unfoldable pub scrub_op : Codec → Fields → Result ScrubError Fields
scrub_op codec op = elim (field op (codes "body")) [
  | none ↦ ok op
  | some raw ↦ elim (unmarshal_string raw) [
    | none ↦ ok op
    | some body ↦ synthesise_body codec body >>= put_body codec op
  ]
]

unfoldable pub scrub_ops : Codec → List Fields → Result ScrubError (List Fields)
scrub_ops codec [] = ok []
scrub_ops codec (op ∷ ops) = do
  scrubbed ← scrub_op codec op
  rest ← scrub_ops codec ops
  ok (scrubbed ∷ rest)
