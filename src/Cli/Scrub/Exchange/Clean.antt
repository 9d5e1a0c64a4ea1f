-- ===== src/Cli/Scrub/Exchange/Clean.antt =====
-- What of a capture can be in a fixture.
use claude_mem_lan_sync.Prelude.{
  ℕ, List, [], ◌∷◌, none, some, Bytes, bytes_eq, codes, Ensures, failing, giving, Ensures-bind, ◌≡◌,
  refl, if-keeps, Option-cases, inl, inr, ◌⊎◌, bytes_eq_refl, All,
}
use claude_mem_lan_sync.Proto.Fields.{Fields, field}
use claude_mem_lan_sync.Settings.{put}
use claude_mem_lan_sync.Settings.Merge.{field-put}
use claude_mem_lan_sync.Cli.Secrets.{find_secret_shapes}
use claude_mem_lan_sync.Cli.Secrets.Complete.{HasSecret, find_secret_shapes-HasSecret}
use claude_mem_lan_sync.Cli.Scrub.{
  Codec, not_capture, not_marshalled, or_fail, redact, redact_headers,
}
use claude_mem_lan_sync.Cli.Scrub.Exchange.{
  scrub_field, redacted_request, redacted_response, redact_pair, guard_leak, scrub_payloads,
  scrub_exchange, Capture,
}

abbrev pub IsRedacted : Fields → Bytes → Type 0
IsRedacted headers k = (field headers k ≡ none) ⊎ (field headers k ≡ some (codes "REDACTED"))

put-IsRedacted :
    (headers : Fields) (k key : Bytes)
    → IsRedacted headers k
    → IsRedacted (put key (codes "REDACTED") headers) k
put-IsRedacted headers k key h = rw (field-put key (codes "REDACTED") headers k) (
    if-keeps (λ o. (o ≡ none) ⊎ (o ≡ some (codes "REDACTED"))) (bytes_eq key k) _ _ (λ _. inr refl)
      (λ _. h))

put_self : (key raw : Bytes) (m : Fields) → field (put key raw m) key ≡ some raw
put_self key raw m = rw (field-put key raw m key, bytes_eq_refl key) refl

redact_keeps :
    (ks : List Bytes) (headers : Fields) (k : Bytes)
    → IsRedacted headers k
    → IsRedacted (redact ks headers) k
unfolding redact
redact_keeps [] headers k h = h
redact_keeps (key ∷ ks) headers k h =
    redact_keeps ks _ k
      (if-keeps (λ m. IsRedacted m k) _ _ _ (λ _. put-IsRedacted headers k key h) (λ _. h))

redact_first :
    (key : Bytes) (ks : List Bytes) (headers : Fields) → IsRedacted (redact (key ∷ ks) headers) key
unfolding redact
redact_first key ks headers = elim (Option-cases (field headers key)) [
  | inl absent ↦ rw absent (redact_keeps ks headers key (inl absent))
  | inr (raw, present) ↦
      rw present (redact_keeps ks _ key (inr (put_self key (codes "REDACTED") headers)))
]

-- Each of the headers that are to be redacted is absent or has the value REDACTED.
pub redact-IsRedacted :
    (ks : List Bytes) (headers : Fields) → All (IsRedacted (redact ks headers)) ks
unfolding redact
redact-IsRedacted [] headers = tt
redact-IsRedacted (key ∷ ks) headers = (redact_first key ks headers, redact-IsRedacted ks _)

-- What a fixture can be: a text without a secret, or the capture of a pairing with both payloads
-- replaced.
pub data IsFixture (codec : Codec) : Bytes → Type 0 where
  guarded : (out : Bytes) → (HasSecret out → ⊥) → IsFixture codec out
  paired :
      (out : Bytes) (doc : Fields)
      → field doc (codes "request") ≡ some redacted_request
      → field doc (codes "response") ≡ some redacted_response
      → codec.indent doc ≡ some out
      → IsFixture codec out

guard_leak-Ensures : (codec : Codec) (out : Bytes) → Ensures (IsFixture codec) (guard_leak out)
guard_leak-Ensures codec out = elim (Option-cases (find_secret_shapes out)) [
  | inl clean ↦
      rw (guard_leak, clean) (giving (guarded out (λ h. find_secret_shapes-HasSecret out h clean)))
  | inr (leak, e) ↦ rw (guard_leak, e) failing
]

redact_pair_request :
    (doc : Fields) → field (redact_pair doc) (codes "request") ≡ some redacted_request
unfolding bytes_eq field
redact_pair_request doc =
    rw
      (field-put (codes "response") redacted_response (put (codes "request") redacted_request doc)
        (codes "request"))
      (put_self (codes "request") redacted_request doc)

redact_pair-Ensures :
    (codec : Codec) (doc : Fields)
    → Ensures (IsFixture codec) (or_fail not_marshalled (codec.indent (redact_pair doc)))
redact_pair-Ensures codec doc = elim (Option-cases (codec.indent (redact_pair doc))) [
  | inl e ↦ rw e failing
  | inr (out, e) ↦
      rw e (giving (paired out (redact_pair doc) (redact_pair_request doc) (put_self _ _ _) e))
]

scrub_payloads-Ensures :
    (codec : Codec) (doc : Fields) → Ensures (IsFixture codec) (scrub_payloads codec doc)
unfolding scrub_payloads
scrub_payloads-Ensures codec doc =
    if-keeps (Ensures (IsFixture codec)) _ _ _ (λ _. redact_pair-Ensures codec doc)
      (λ _. Ensures-bind (scrub_field codec (codes "request") doc) λ doc' _.
        Ensures-bind (scrub_field codec (codes "response") doc') λ doc'' _.
          Ensures-bind (or_fail not_marshalled (codec.indent doc''))
            λ out _. guard_leak-Ensures codec out)

pub scrub_exchange-Ensures :
    (codec : Codec) (raw : Bytes) → Ensures (IsFixture codec) (scrub_exchange codec raw)
unfolding scrub_exchange
scrub_exchange-Ensures codec raw =
    Ensures-bind (or_fail not_capture (codec.decode raw))
      λ doc _. scrub_payloads-Ensures codec (redact_headers codec doc)

unfoldable pub names : List Capture → List Bytes
names [] = []
names (capture ∷ captures) = capture.name ∷ names captures

unfoldable pub written_names : List (Bytes × Bytes) → List Bytes
written_names [] = []
written_names ((name, out) ∷ files) = name ∷ written_names files

-- What a run may leave: fixtures only, and all of them if it succeeds.
abbrev pub IsSafeRun : Codec → List Capture → ℕ × List (Bytes × Bytes) → Type 0
IsSafeRun codec captures (status, files) =
    All (λ file. IsFixture codec (file.1)) files
    × (status ≡ 0 → written_names files ≡ names captures)
