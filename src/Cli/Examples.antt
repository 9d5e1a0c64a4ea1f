-- ===== src/Cli/Examples.antt =====
-- Runs of the commands on small inputs.
use claude_mem_lan_sync.Prelude.{
  ◌≡◌, ◌≢◌, refl, true, false, List, [], ◌∷◌, ◌++◌, Option, none, some, if◌then◌else◌, Bytes,
  bytes_eq, codes, ok,
}
use claude_mem_lan_sync.Proto.Json.{unmarshal_string}
use claude_mem_lan_sync.Proto.Unquote.{unquote_json_string, unquote_loop, piece}
use claude_mem_lan_sync.Proto.Fields.{Fields, field}
use claude_mem_lan_sync.Settings.{put, value}
use claude_mem_lan_sync.Cli.Lorem.{lorem, fill, write_word}
use claude_mem_lan_sync.Cli.Value.{
  Value, number, text, array, nil, cons, object, member, end, replace_strings,
}
use claude_mem_lan_sync.Cli.Value.Shape.{SameShape, replace_strings-SameShape}
use claude_mem_lan_sync.Cli.Secrets.{
  credential_field, pairing_code, find_secret_shapes, any_at, sorts, strip_prefix, behind_name,
  skip_while, count_while,
}
use claude_mem_lan_sync.Cli.Secrets.Complete.{
  HasSecret, has_code, ends_word, every, find_secret_shapes-HasSecret,
}
use claude_mem_lan_sync.Cli.Scrub.{
  Codec, redact, synthesise_body, anonymise_identifier, hex_digits, zeros, kind_prefix, scrub_op,
  scrub_ops,
}
use claude_mem_lan_sync.Cli.Scrub.Identifiers.{IsUuid, any_colon, anonymise_identifier-IsUuid}
use claude_mem_lan_sync.Cli.Scrub.Digests.{IsConsistent, scrub_op-IsConsistent}
use claude_mem_lan_sync.Cli.Scrub.Exchange.{
  scrub_bodies, scrub_field, scrub_payloads, scrub_exchange, Capture, FixtureFlags, scrub_files,
  run_fixtures,
}
use claude_mem_lan_sync.Cli.Scrub.Exchange.Clean.{names, written_names}

opens_lorem : Unit {0}
unfolding lorem fill write_word replace_strings
opens_lorem = tt

lorem_fills : lorem (codes "my secrets") ≡ codes "lorem ipsu"
unfolding opens_lorem
lorem_fills = refl

abbrev fact : Value
fact = object (
    member (codes "facts") (array (cons (text (codes "likes tea")) nil))
      (member (codes "n") (number (codes "3")) end))

replace_strings-SameShape_example :
    SameShape fact (replace_strings fact)
    × ((w : Value) → SameShape fact w → replace_strings fact ≡ replace_strings w)
replace_strings-SameShape_example = replace_strings-SameShape fact

opens_secrets : Unit {0}
unfolding find_secret_shapes any_at sorts bytes_eq strip_prefix behind_name skip_while count_while
    ends_word every
opens_secrets = tt

finds_shapes :
    (find_secret_shapes (codes "{\"x\":\"123-456-789\"}") ≡ some pairing_code)
    × (find_secret_shapes (codes "{\"psk\" : \"abcdefghijklmnop\"}") ≡ some credential_field)
    × (find_secret_shapes (codes "{\"x\":\"1123-456-789\",\"psk\":\"abc\"}") ≡ none)
unfolding opens_secrets
finds_shapes = (refl, refl, refl)

printed_code-HasSecret : HasSecret (codes "code 123-456-789.")
unfolding opens_secrets
printed_code-HasSecret =
    has_code (codes "code ") (codes ".") (codes "123456789") refl refl refl refl

find_secret_shapes-HasSecret_example : find_secret_shapes (codes "code 123-456-789.") ≢ none
find_secret_shapes-HasSecret_example =
    find_secret_shapes-HasSecret (codes "code 123-456-789.") printed_code-HasSecret

-- A codec of the few texts that the examples use.
abbrev lookup : {A : Type 0} → List (Bytes × A) → Bytes → Option A
lookup [] s = none
lookup ((t, a) ∷ table) s = if bytes_eq t s then some a else lookup table s

-- A map is written as its first value.
abbrev first_value : Fields → Option Bytes
first_value [] = none
first_value ((_, raw) ∷ _) = some raw

abbrev quote : Bytes → Option Bytes
quote s = some (b'"' ∷ (s ++ b'"' ∷ []))

abbrev body_doc : Fields
body_doc = (codes "payload", codes "\"tea\"") ∷ []

abbrev codec : Codec
codec = record {
  decode = lookup (
      (codes "leaky", (codes "note", codes "\"123-456-789\"") ∷ [])
      ∷ (codes "status", (codes "response", codes "{}") ∷ [])
      ∷ (
        codes "pairing",
        (codes "request", codes "\"123-456-789\"") ∷ (codes "path", codes "\"/pair\"") ∷ [],
      )
      ∷ (codes "body", body_doc)
      ∷ []);
  decode_headers = λ _. none;
  decode_ops = λ _. none;
  decode_value = lookup ((codes "\"tea\"", text (codes "tea")) ∷ []);
  encode = first_value;
  encode_headers = λ _. none;
  encode_ops = λ _. none;
  encode_value = λ v. elim v [ text s ↦ quote s | _ ↦ none ];
  encode_text = quote;
  indent = first_value;
  digest_of = λ _. codes "Digest0";
}

opens_scrub : Unit {0}
unfolding opens_lorem opens_secrets redact synthesise_body anonymise_identifier hex_digits zeros
    kind_prefix scrub_op scrub_ops scrub_bodies scrub_field scrub_payloads scrub_exchange
    scrub_files run_fixtures field put value unmarshal_string unquote_json_string unquote_loop piece
    names written_names any_colon
opens_scrub = tt

abbrev captures : List Capture
captures =
    record { name = codes "a"; content = some (codes "status") }
    ∷ record { name = codes "b"; content = some (codes "pairing") }
    ∷ record { name = codes "c"; content = some (codes "leaky") }
    ∷ []

abbrev fixture_flags : FixtureFlags
fixture_flags = record { in_dir = codes "raw"; out_dir = codes "out" }

-- The third capture has a shape that the scrubber does not know.
run_fixtures_stops :
    run_fixtures codec (λ _. captures) (λ _. true) (λ _. true) fixture_flags
    ≡ (1, (codes "a", codes "{}") ∷ (codes "b", codes "{\"code\":\"REDACTED\"}") ∷ [])
unfolding opens_scrub
run_fixtures_stops = refl

abbrev op : Fields
op = (codes "body", codes "\"body\"") ∷ (codes "n", codes "7") ∷ []

abbrev scrubbed_op : Fields
scrubbed_op =
    (codes "body", codes "\"\"lor\"\"")
    ∷ (codes "n", codes "7")
    ∷ (codes "operation_sha256", codes "\"Digest0\"")
    ∷ []

op_has_body : field op (codes "body") ≡ some (codes "\"body\"")
unfolding opens_scrub
op_has_body = refl

body_reads : unmarshal_string (codes "\"body\"") ≡ some (codes "body")
unfolding opens_scrub
body_reads = refl

scrub_op_runs : scrub_op codec op ≡ ok scrubbed_op
unfolding opens_scrub
scrub_op_runs = refl

scrub_op-IsConsistent_example :
    (synthetic : Bytes) × (synthesise_body codec (codes "body") ≡ ok synthetic)
    × IsConsistent codec op scrubbed_op synthetic
scrub_op-IsConsistent_example =
    scrub_op-IsConsistent codec op scrubbed_op (codes "\"body\"") (codes "body") op_has_body
      body_reads scrub_op_runs

anonymise_identifier-IsUuid_example :
    (codes "origin_device_id" ≢ codes "id"
      → IsUuid (anonymise_identifier codec.digest_of (codes "origin_device_id") (codes "d1")))
    × ((kind rest : Bytes)
        → any_colon kind ≡ false
        → anonymise_identifier codec.digest_of (codes "id") (kind ++ b':' ∷ rest)
          ≡ kind ++ b':' ∷ codec.digest_of (codes "fixture:" ++ (kind ++ b':' ∷ rest)))
anonymise_identifier-IsUuid_example =
    anonymise_identifier-IsUuid codec.digest_of (codes "origin_device_id") (codes "d1")
