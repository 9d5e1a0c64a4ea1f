-- ===== src/Proto/Parse/Sound.antt =====
-- What `ParseOp` has established of an operation that it returns.
use claude_mem_lan_sync.Prelude.{
  ℕ, ◌+◌, ◌≤◌, ◌<◌, ◌≡◌, ◌≢◌, ◌⊎◌, inl, inr, refl, Bool, true, false, not, ◌||◌, [], ◌∷◌, Option,
  none, some, ltb, ◌==◌, Bytes, bytes_eq, bytes_eq→eq, Bool-cases, codes, Result, ok, err, Ensures,
  giving, Ensures-bind, Ensures-map, sym, ◌∙◌, given, length, is_empty, arith, trim_space,
}
use claude_mem_lan_sync.Proto.Dec.{DecError, max_dec, parse_dec, parse_dec_positive}
use claude_mem_lan_sync.Proto.Dec.RoundTrip.{parse_dec_iff, parse_dec_positive-eq-ok}
use claude_mem_lan_sync.Proto.Digest.{valid_digest, digest_len}
use claude_mem_lan_sync.Proto.Errors.{
  RejectReason, wrapper_shape, digest_mismatch, body_shape, unknown_kind, entity_rev, too_large,
}
use claude_mem_lan_sync.Proto.Fields.{field, object_fields}
use claude_mem_lan_sync.Proto.Json.{unmarshal_string}
use claude_mem_lan_sync.Proto.Op.{Op, max_body_bytes, max_body_literal, max_device_id_len}
use claude_mem_lan_sync.Proto.Unquote.{unquote_json_string}
use claude_mem_lan_sync.Proto.Parse.{
  refuse_if, or_reject, is_one_of, valid_kinds, body_keys, has_keys, same_count, unmarshal_field,
  positive_or, local_or, local_of, origin_local_id_of, parse_body, opens_string, parse_op,
}

refuse_if-eq-ok : (b : Bool) (r : RejectReason) {u : Unit {0}} → refuse_if b r ≡ ok u → b ≡ false
refuse_if-eq-ok true r h = cc
refuse_if-eq-ok false r h = refl

positive_or-parsed : (r : Result DecError ℕ) (n : ℕ) → positive_or r ≡ ok n → r ≡ ok n
positive_or-parsed (ok d) n h = cc
positive_or-parsed (err e) n h = cc

positive_or-eq-ok :
    (s : Bytes) (n : ℕ) → positive_or (parse_dec_positive s) ≡ ok n → (0 < n) × (n ≤ max_dec)
positive_or-eq-ok s n h =
    let parsed = positive_or-parsed (parse_dec_positive s) n h in
    let (_, above, below) = parse_dec_positive-eq-ok s n parsed in (above, below)

local_or-parsed :
    (r : Result DecError ℕ) (l : Option ℕ) (n : ℕ) → local_or r ≡ ok l → l ≡ some n → r ≡ ok n
local_or-parsed (ok d) l n h e = cc
local_or-parsed (err _) l n h e = cc

local_of-eq-ok :
    (o : Option Bytes) (l : Option ℕ) (n : ℕ) → local_of o ≡ ok l → l ≡ some n → n ≤ max_dec
local_of-eq-ok none l n h e = cc
local_of-eq-ok (some text) l n h e =
    ((parse_dec_iff text n).0 (local_or-parsed (parse_dec text) l n h e)).1

origin_local_id_of-eq-ok :
    (o : Option Bytes) (l : Option ℕ) (n : ℕ)
    → origin_local_id_of o ≡ ok l
    → l ≡ some n
    → n ≤ max_dec
origin_local_id_of-eq-ok none l n h e = cc
origin_local_id_of-eq-ok (some raw) l n h e =
    elim (Bool-cases (bytes_eq (trim_space raw) (codes "null"))) [
      | inl null ↦ let absent : l ≡ none = ground arith in cc
      | inr text ↦ local_of-eq-ok (unmarshal_string raw) l n (rw text at h) e
    ]

is_one_of-kind :
    (k : Bytes)
    → is_one_of valid_kinds k ≡ true
    → (codes "observation" ≡ k)
      ⊎ (codes "summary" ≡ k)
      ⊎ (codes "prompt" ≡ k)
      ⊎ (codes "mutation" ≡ k)
unfolding is_one_of
is_one_of-kind k h = ground (
  arith,
  bytes_eq→eq (codes "observation") k,
  bytes_eq→eq (codes "summary") k,
  bytes_eq→eq (codes "prompt") k,
  bytes_eq→eq (codes "mutation") k,
)

-- What the fields of a body promise.
pub record IsRoutable (op : Op) : Type 0 where
  pub kind :
      (codes "observation" ≡ op.kind)
      ⊎ (codes "summary" ≡ op.kind)
      ⊎ (codes "prompt" ≡ op.kind)
      ⊎ (codes "mutation" ≡ op.kind)
  pub id : op.id ≢ []
  pub revision_pos : 0 < op.entity_rev
  pub revision_fits : op.entity_rev ≤ max_dec
  pub device : op.origin_device_id ≢ []
  pub device_fits : length op.origin_device_id ≤ max_device_id_len
  pub local_fits : (n : ℕ) → op.origin_local_id ≡ some n → n ≤ max_dec

is_empty→ne : (s : Bytes) → is_empty s ≡ false → s ≢ []
is_empty→ne [] h e = cc
is_empty→ne (c ∷ s) h e = cc

not-false : (b : Bool) → not b ≡ false → b ≡ true
not-false true h = refl
not-false false h = cc

parse_body-Ensures :
    (raw digest decoded : Bytes)
    → Ensures
        (λ op. IsRoutable op × (op.raw_literal ≡ raw) × (op.digest ≡ digest))
        (parse_body raw digest decoded)
unfolding parse_body
parse_body-Ensures raw digest decoded =
    Ensures-bind (or_reject body_shape (object_fields decoded)) λ fields _.
      Ensures-bind (refuse_if (not (same_count body_keys fields)) body_shape) λ _ _.
        Ensures-bind (refuse_if (not (has_keys body_keys fields)) body_shape) λ _ _.
          Ensures-bind (or_reject body_shape (unmarshal_field fields (codes "kind"))) λ kind _.
            Ensures-bind (refuse_if (not (is_one_of valid_kinds kind)) unknown_kind) λ _ valid.
              Ensures-bind (or_reject body_shape (unmarshal_field fields (codes "id"))) λ id _.
                Ensures-bind (refuse_if (is_empty id) body_shape) λ _ named.
                  Ensures-bind (or_reject entity_rev (unmarshal_field fields (codes "entity_rev")))
                    λ rev _. Ensures-bind (positive_or (parse_dec_positive rev)) λ revision parsed.
                      Ensures-bind
                        (or_reject body_shape (unmarshal_field fields (codes "origin_device_id")))
                        λ device _.
                          Ensures-bind
                            (refuse_if (is_empty device || ltb max_device_id_len (length device))
                              body_shape)
                            λ _ bounded.
                              Ensures-bind
                                (origin_local_id_of (field fields (codes "origin_local_id")))
                                λ local_id local.
                                  let within =
                                    refuse_if-eq-ok
                                      (is_empty device || ltb max_device_id_len (length device))
                                      body_shape bounded in
                                  let one_of =
                                    refuse_if-eq-ok (not (is_one_of valid_kinds kind)) unknown_kind
                                      valid in
                                  let (above, below) = positive_or-eq-ok rev revision parsed in
                                  giving (
                                    record {
                                      kind =
                                          is_one_of-kind kind
                                            (not-false (is_one_of valid_kinds kind) one_of);
                                      id =
                                          is_empty→ne id
                                            (refuse_if-eq-ok (is_empty id) body_shape named);
                                      revision_pos = above;
                                      revision_fits = below;
                                      device = is_empty→ne device (ground arith);
                                      device_fits = ground arith;
                                      local_fits = λ n.
                                          origin_local_id_of-eq-ok
                                            (field fields (codes "origin_local_id")) local_id n
                                            local;
                                    },
                                    refl,
                                    refl,
                                  )

below :
    (limit n : ℕ) (r : RejectReason) {u : Unit {0}} → refuse_if (ltb limit n) r ≡ ok u → n ≤ limit
below limit n r h = let within = refuse_if-eq-ok (ltb limit n) r h in ground arith

valid_digest-length : (s : Bytes) → valid_digest s ≡ true → length s ≡ digest_len
unfolding valid_digest
valid_digest-length s h = ground arith

-- What `ParseOp` promises of an operation.
pub record IsAccepted (digest_of : Bytes → Bytes) (op : Op) : Type 0 where
  pub routable : IsRoutable op
  pub literal_fits : length op.raw_literal ≤ max_body_literal
  pub text : Bytes
  pub spells : unquote_json_string op.raw_literal ≡ ok text
  pub text_fits : length text ≤ max_body_bytes
  pub hashed : digest_of text ≡ op.digest
  pub digest_fits : length op.digest ≡ digest_len

module _ (digest_of : Bytes → Bytes) where
  parse_op-Ensures : (wrapper : Bytes) → Ensures (IsAccepted digest_of) (parse_op digest_of wrapper)
  unfolding parse_op
  parse_op-Ensures wrapper =
      Ensures-bind (refuse_if (ltb (max_body_literal + 1024) (length wrapper)) too_large) λ _ _.
        Ensures-bind (or_reject wrapper_shape (object_fields wrapper)) λ fields _.
          Ensures-bind (refuse_if (not (length fields == 2)) wrapper_shape) λ _ _.
            Ensures-bind (or_reject wrapper_shape (field fields (codes "body"))) λ raw _.
              Ensures-bind (or_reject wrapper_shape (field fields (codes "operation_sha256")))
                λ raw_digest _.
                  Ensures-bind (refuse_if (not (opens_string raw)) wrapper_shape) λ _ _.
                    Ensures-bind (refuse_if (ltb max_body_literal (length raw)) too_large)
                      λ _ short.
                        Ensures-bind (or_reject wrapper_shape (unmarshal_string raw_digest))
                          λ digest _.
                            Ensures-bind (refuse_if (not (valid_digest digest)) wrapper_shape)
                              λ _ shaped. Ensures-bind (unquote_json_string raw) λ decoded spells.
                                Ensures-bind
                                  (refuse_if (ltb max_body_bytes (length decoded)) too_large)
                                  λ _ fits.
                                    Ensures-bind
                                      (refuse_if (not (bytes_eq (digest_of decoded) digest))
                                        digest_mismatch)
                                      λ _ hashed.
                                        let hash =
                                          refuse_if-eq-ok
                                            (not (bytes_eq (digest_of decoded) digest))
                                            digest_mismatch hashed in
                                        let shape =
                                          refuse_if-eq-ok (not (valid_digest digest)) wrapper_shape
                                            shaped in
                                        Ensures-map
                                          (λ op (routable, literal, same). record {
                                            routable = routable;
                                            literal_fits = rw literal (
                                                below max_body_literal (length raw) too_large
                                                  short);
                                            text = decoded;
                                            spells = rw literal spells;
                                            text_fits =
                                                below max_body_bytes (length decoded) too_large
                                                  fits;
                                            hashed =
                                                bytes_eq→eq (digest_of decoded) digest (
                                                  not-false (bytes_eq (digest_of decoded) digest)
                                                    hash)
                                                ∙ sym same;
                                            digest_fits = rw same (
                                                valid_digest-length digest
                                                  (not-false (valid_digest digest) shape));
                                          })
                                          (parse_body-Ensures raw digest decoded)

  -- An operation that `ParseOp` returns has one of the four kinds, an id, a positive uint64 as its
  -- revision, a device id of 1 to 128 bytes and a uint64 or nothing as its local id; its literal
  -- spells a text within the limit that has the digest of the operation.
  pub parse_op-IsAccepted :
      (wrapper : Bytes) (op : Op) → parse_op digest_of wrapper ≡ ok op → IsAccepted digest_of op
  parse_op-IsAccepted wrapper op = given op (parse_op-Ensures wrapper)
