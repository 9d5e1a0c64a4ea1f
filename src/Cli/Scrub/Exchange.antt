-- ===== src/Cli/Scrub/Exchange.antt =====
-- `scrubBodies`, `ScrubExchange` and `runFixtures` of internal/cli/fixtures.go.
pub mod Clean
use claude_mem_lan_sync.Prelude.{
  ℕ, Bool, true, false, List, [], ◌∷◌, ◌++◌, Option, none, some, if◌then◌else◌, Bytes, bytes_eq,
  codes, Result, ok, err, ◌>>=◌, is_empty,
}
use claude_mem_lan_sync.Proto.Fields.{Fields, field}
use claude_mem_lan_sync.Settings.{put}
use claude_mem_lan_sync.Cli.Secrets.{Leak, find_secret_shapes}
use claude_mem_lan_sync.Cli.Scrub.{
  Codec, ScrubError, not_capture, not_marshalled, leaking, or_fail, scrub_ops, string_field,
  redact_headers,
}

unfoldable pub scrub_bodies : Codec → Bytes → Result ScrubError Bytes
scrub_bodies codec payload = elim (codec.decode payload) [
  | none ↦ ok payload
  | some envelope ↦ elim (field envelope (codes "ops")) [
    | none ↦ ok payload
    | some raw ↦ elim (codec.decode_ops raw) [
      | none ↦ ok payload
      | some ops ↦ do
        scrubbed ← scrub_ops codec ops
        new_ops ← or_fail not_marshalled (codec.encode_ops scrubbed)
        or_fail not_marshalled (codec.encode (put (codes "ops") new_ops envelope))
    ]
  ]
]

-- A round of the loop over the two payloads.
unfoldable pub scrub_field : Codec → Bytes → Fields → Result ScrubError Fields
scrub_field codec key doc = elim (field doc key) [
  | none ↦ ok doc
  | some body ↦ do scrubbed ← scrub_bodies codec body; ok (put key scrubbed doc)
]

abbrev pub redacted_request : Bytes
redacted_request = codes "{\"code\":\"REDACTED\"}"

abbrev pub redacted_response : Bytes
redacted_response = codes "{\"token\":\"REDACTED\",\"user_id\":\"REDACTED\"}"

-- Both payloads of a pairing.
abbrev pub redact_pair : Fields → Fields
redact_pair doc =
    put (codes "response") redacted_response (put (codes "request") redacted_request doc)

-- The last line of defence.
abbrev pub guard_leak : Bytes → Result ScrubError Bytes
guard_leak out = elim (find_secret_shapes out) [ none ↦ ok out | some leak ↦ err (leaking leak) ]

-- What is left to do behind the headers.
unfoldable pub scrub_payloads : Codec → Fields → Result ScrubError Bytes
scrub_payloads codec doc =
    if bytes_eq (string_field doc (codes "path")) (codes "/pair")
    then or_fail not_marshalled (codec.indent (redact_pair doc))
    else do
      doc' ← scrub_field codec (codes "request") doc
      doc'' ← scrub_field codec (codes "response") doc'
      out ← or_fail not_marshalled (codec.indent doc'')
      guard_leak out

-- `ScrubExchange`
unfoldable pub scrub_exchange : Codec → Bytes → Result ScrubError Bytes
scrub_exchange codec raw = do
  doc ← or_fail not_capture (codec.decode raw)
  scrub_payloads codec (redact_headers codec doc)

-- A file that matches, and what `ReadFile` makes of it.
pub record Capture : Type 0 where
  pub name : Bytes
  pub content : Option Bytes

abbrev pub or_none : Result ScrubError Bytes → Option Bytes
or_none (err _) = none
or_none (ok out) = some out

abbrev pub read_and_scrub : Codec → Option Bytes → Option Bytes
read_and_scrub codec none = none
read_and_scrub codec (some raw) = or_none (scrub_exchange codec raw)

-- The loop of `runFixtures`, with the exit status and the files that are written; `writes` says which
-- files can be.
unfoldable pub scrub_files : Codec → (Bytes → Bool) → List Capture → ℕ × List (Bytes × Bytes)
scrub_files codec writes [] = (0, [])
scrub_files codec writes (capture ∷ captures) =
    let rest = scrub_files codec writes captures in
    elim (read_and_scrub codec capture.content) [
      | none ↦ (1, [])
      | some scrubbed ↦
          if writes capture.name then (rest.0, (capture.name, scrubbed) ∷ rest.1) else (1, [])
    ]

pub record FixtureFlags : Type 0 where
  pub in_dir : Bytes
  pub out_dir : Bytes

abbrev pub scrub_all : Codec → (Bytes → Bool) → Bool → List Capture → ℕ × List (Bytes × Bytes)
scrub_all codec writes made [] = (1, [])
scrub_all codec writes made (capture ∷ captures) =
    if made then scrub_files codec writes (capture ∷ captures) else (1, [])

-- `runFixtures` behind the reading of the flags: `glob` lists the captures of a directory, and `makes`
-- says whether a directory can be made.
unfoldable pub run_fixtures :
    Codec
    → (Bytes → List Capture)
    → (Bytes → Bool)
    → (Bytes → Bool)
    → FixtureFlags
    → ℕ × List (Bytes × Bytes)
run_fixtures codec glob makes writes flags =
    if is_empty flags.in_dir
    then (2, [])
    else scrub_all codec writes (makes flags.out_dir) (glob flags.in_dir)
