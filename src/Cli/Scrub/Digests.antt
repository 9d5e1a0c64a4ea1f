-- ===== src/Cli/Scrub/Digests.antt =====
-- What `scrub_op` makes of an op.
use claude_mem_lan_sync.Prelude.{
  Option, none, some, Bytes, bytes_eq, codes, ok, ◌>>=◌, Ensures, giving, Ensures-bind, given,
  >>=-eq-ok, ◌≡◌, ◌≢◌, refl, sym, ◌∙◌, if-keeps, bytes_eq→eq,
}
use claude_mem_lan_sync.Proto.Json.{unmarshal_string}
use claude_mem_lan_sync.Proto.Fields.{Fields, field}
use claude_mem_lan_sync.Settings.{put}
use claude_mem_lan_sync.Settings.Merge.{field-put}
use claude_mem_lan_sync.Cli.Scrub.{
  Codec, ScrubError, not_marshalled, or_fail, put_body, scrub_op, synthesise_body,
}

-- `op'` has the body `synthetic` and the digest of it, and the other fields of `op`.
pub record IsConsistent (codec : Codec) (op op' : Fields) (synthetic : Bytes) : Type 0 where
  pub body : field op' (codes "body") ≡ codec.encode_text synthetic
  pub digest : field op' (codes "operation_sha256") ≡ codec.encode_text (codec.digest_of synthetic)
  pub others :
      (key : Bytes)
      → key ≢ codes "body"
      → key ≢ codes "operation_sha256"
      → field op' key ≡ field op key

put_other : (key raw k : Bytes) (m : Fields) → k ≢ key → field (put key raw m) k ≡ field m k
put_other key raw k m apart = rw (field-put key raw m k) (
    if-keeps (λ o. o ≡ field m k) (bytes_eq key k) _ _
      (λ same. absurd (apart (sym (bytes_eq→eq key k same)))) (λ _. refl))

or_fail-eq-ok :
    {A : Type 0} (e : ScrubError) (o : Option A) (a : A) → or_fail e o ≡ ok a → o ≡ some a
or_fail-eq-ok e none a h = absurd cc
or_fail-eq-ok e (some a') a h = cc

put_body-IsConsistent :
    (codec : Codec) (op : Fields) (synthetic : Bytes)
    → Ensures (λ op'. IsConsistent codec op op' synthetic) (put_body codec op synthetic)
unfolding field bytes_eq
put_body-IsConsistent codec op synthetic =
    Ensures-bind (or_fail not_marshalled (codec.encode_text synthetic)) λ encoded e.
      Ensures-bind (or_fail not_marshalled (codec.encode_text (codec.digest_of synthetic)))
        λ digest d.
          let inner : Fields = put (codes "body") encoded op in
          giving (record {
            body =
                field-put (codes "operation_sha256") digest inner (codes "body")
                ∙ field-put (codes "body") encoded op (codes "body")
                ∙ sym (or_fail-eq-ok not_marshalled (codec.encode_text synthetic) encoded e);
            digest =
                field-put (codes "operation_sha256") digest inner (codes "operation_sha256")
                ∙ sym (
                    or_fail-eq-ok not_marshalled (codec.encode_text (codec.digest_of synthetic))
                      digest d);
            others = λ key b o.
                put_other (codes "operation_sha256") digest key inner o
                ∙ put_other (codes "body") encoded key op b;
          })

-- An op with a body is scrubbed, unless that fails, to one whose body is the synthetic one and whose
-- digest is that of the synthetic body, so that it is valid again; every other field is kept.
pub scrub_op-IsConsistent :
    (codec : Codec) (op op' : Fields) (raw body : Bytes)
    → field op (codes "body") ≡ some raw
    → unmarshal_string raw ≡ some body
    → scrub_op codec op ≡ ok op'
    → (synthetic : Bytes) × (synthesise_body codec body ≡ ok synthetic)
      × IsConsistent codec op op' synthetic
unfolding scrub_op
scrub_op-IsConsistent codec op op' raw body present reads scrubbed =
    let opened : scrub_op codec op ≡ (synthesise_body codec body >>= put_body codec op) =
      rw (scrub_op, present, reads) refl in
    let (synthetic, first, next) =
      >>=-eq-ok (synthesise_body codec body) (put_body codec op) (sym opened ∙ scrubbed) in
    (synthetic, first, given op' (put_body-IsConsistent codec op synthetic) next)
