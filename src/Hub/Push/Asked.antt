-- ===== src/Hub/Push/Asked.antt =====
-- What `handlePush` makes of the body of a request before it asks the store.
use claude_mem_lan_sync.Prelude.{
  ◌≡◌, ◌⊎◌, inl, inr, refl, Bool, true, false, not, List, [], ◌∷◌, Bytes, Result, ok, err, Option,
  none, some, ℤ, pos, negsuc, arith, length, Ensures, failing, giving, All, Ensures-bind,
  Ensures-map, subst, ap, given, Blames, blamed, fine, Blames-bind,
}
use claude_mem_lan_sync.Proto.Errors.{Fault, RejectReason, protocol_version, too_large}
use claude_mem_lan_sync.Proto.Op.{Op}
use claude_mem_lan_sync.Proto.Parse.{parse_op}
use claude_mem_lan_sync.Proto.Parse.Sound.{IsAccepted, parse_op-IsAccepted}
use claude_mem_lan_sync.Hub.Server.{Request, Options}
use claude_mem_lan_sync.Hub.Handlers.{lt_int, check_free_space}
use claude_mem_lan_sync.Hub.Push.{
  Refusal, refuse_when, or_full, or_bad_request, or_rejected, is_version_2, parse_ops, push_request,
}

-- The operations are those that `ParseOp` returns for the wrappers, one for each, in order.
pub data IsParsed (digest_of : Bytes → Bytes) : List Bytes → List Op → Type 0 where
  all_parsed : IsParsed digest_of [] []
  then_parsed :
      {wrapper : Bytes} {wrappers : List Bytes} {op : Op} {ops : List Op}
      → parse_op digest_of wrapper ≡ ok op
      → IsParsed digest_of wrappers ops
      → IsParsed digest_of (wrapper ∷ wrappers) (op ∷ ops)

pub IsParsed-IsAccepted :
    {digest_of : Bytes → Bytes} {wrappers : List Bytes} {ops : List Op}
    → IsParsed digest_of wrappers ops
    → All (IsAccepted digest_of) ops
IsParsed-IsAccepted all_parsed = tt
IsParsed-IsAccepted (then_parsed parsed rest) =
    (parse_op-IsAccepted _ _ _ parsed, IsParsed-IsAccepted rest)

parse_ops-Ensures :
    (digest_of : Bytes → Bytes) (wrappers : List Bytes)
    → Ensures (IsParsed digest_of wrappers) (parse_ops digest_of wrappers)
unfolding parse_ops
parse_ops-Ensures digest_of [] = giving all_parsed
parse_ops-Ensures digest_of (wrapper ∷ wrappers) =
    Ensures-bind (parse_op digest_of wrapper) λ op parsed.
      Ensures-bind (parse_ops digest_of wrappers) λ ops rest.
        giving (then_parsed parsed (given ops (parse_ops-Ensures digest_of wrappers) rest))

-- The operations are those of the body of a request, which is for version 2 and within the limits.
pub record IsAsked (digest_of : Bytes → Bytes) (decode : Bytes → Option (ℤ × List Bytes))
    (o : Options) (r : Request) (ops : List Op) : Type 0 where
  pub wrappers : List Bytes
  pub short : lt_int o.max_request_bytes (pos (length r.body)) ≡ false
  pub body : decode r.body ≡ some (pos 2, wrappers)
  pub few : lt_int o.max_ops_per_push (pos (length wrappers)) ≡ false
  pub parsed : IsParsed digest_of wrappers ops

pub IsAsked-IsAccepted :
    {digest_of : Bytes → Bytes} {decode : Bytes → Option (ℤ × List Bytes)} {o : Options}
    {r : Request} {ops : List Op}
    → IsAsked digest_of decode o r ops
    → All (IsAccepted digest_of) ops
IsAsked-IsAccepted asked = IsParsed-IsAccepted asked.parsed

abbrev pub IsRefused : Refusal → Type 0
IsRefused (status, reason) = (status ≡ 400) ⊎ (status ≡ 507)

refuse_when-Blames : (b : Bool) (reason : RejectReason) → Blames IsRefused (refuse_when b reason)
refuse_when-Blames true reason = blamed (inl refl)
refuse_when-Blames false reason = fine

or_full-Blames : (r : Result Fault (Unit {0})) → Blames IsRefused (or_full r)
or_full-Blames (ok u) = fine
or_full-Blames (err e) = blamed (inr refl)

or_bad_request-Blames : {A : Type 0} (a : Option A) → Blames IsRefused (or_bad_request a)
or_bad_request-Blames none = blamed (inl refl)
or_bad_request-Blames (some a) = fine

or_rejected-Blames : {A : Type 0} (r : Result Fault A) → Blames IsRefused (or_rejected r)
or_rejected-Blames (ok a) = fine
or_rejected-Blames (err e) = blamed (inl refl)

or_rejected-Ensures :
    {A : Type 0} {P : A → Type 0} (r : Result Fault A) → Ensures P r → Ensures P (or_rejected r)
or_rejected-Ensures (ok a) (giving p) = giving p
or_rejected-Ensures (err e) _ = failing

refuse_when→false :
    {u : Unit {0}} (b : Bool) (reason : RejectReason) → refuse_when b reason ≡ ok u → b ≡ false
refuse_when→false true reason h = cc
refuse_when→false false reason h = refl

or_bad_request→some :
    {A : Type 0} {a : A} (found : Option A) → or_bad_request found ≡ ok a → found ≡ some a
or_bad_request→some none h = cc
or_bad_request→some (some a) h = cc

is_version_2→eq : (version : ℤ) → not (is_version_2 version) ≡ false → version ≡ pos 2
is_version_2→eq (pos n) h = ap pos (ground arith)
is_version_2→eq (negsuc n) h = cc

module _ (digest_of : Bytes → Bytes) (decode : Bytes → Option (ℤ × List Bytes)) (o : Options)
    (free : Option (Result Fault ℤ)) (r : Request) where
  pub push_request-Blames : Blames IsRefused (push_request digest_of decode o free r)
  unfolding push_request
  push_request-Blames = Blames-bind (or_full-Blames (check_free_space o free)) λ _.
      Blames-bind (refuse_when-Blames (lt_int o.max_request_bytes (pos (length r.body))) too_large)
        λ _. Blames-bind (or_bad_request-Blames (decode r.body)) λ (version, wrappers).
          Blames-bind (refuse_when-Blames (not (is_version_2 version)) protocol_version) λ _.
            Blames-bind
              (refuse_when-Blames (lt_int o.max_ops_per_push (pos (length wrappers))) too_large)
              λ _. or_rejected-Blames (parse_ops digest_of wrappers)

  or_rejected-IsAsked :
      (version : ℤ) (wrappers : List Bytes)
      → lt_int o.max_request_bytes (pos (length r.body)) ≡ false
      → decode r.body ≡ some (version, wrappers)
      → not (is_version_2 version) ≡ false
      → lt_int o.max_ops_per_push (pos (length wrappers)) ≡ false
      → Ensures (IsAsked digest_of decode o r) (or_rejected (parse_ops digest_of wrappers))
  or_rejected-IsAsked version wrappers short body right few =
      or_rejected-Ensures (parse_ops digest_of wrappers) (
        Ensures-map
          (λ ops parsed. record {
            wrappers = wrappers;
            short = short;
            body =
                subst (λ v. decode r.body ≡ some (v, wrappers)) (is_version_2→eq version right)
                  body;
            few = few;
            parsed = parsed;
          })
          (parse_ops-Ensures digest_of wrappers))

  pub push_request-Ensures :
      Ensures (IsAsked digest_of decode o r) (push_request digest_of decode o free r)
  unfolding push_request
  push_request-Ensures = Ensures-bind (or_full (check_free_space o free)) λ _ _.
      Ensures-bind (refuse_when (lt_int o.max_request_bytes (pos (length r.body))) too_large)
        λ _ short. Ensures-bind (or_bad_request (decode r.body)) λ (version, wrappers) body.
          Ensures-bind (refuse_when (not (is_version_2 version)) protocol_version) λ _ right.
            Ensures-bind (refuse_when (lt_int o.max_ops_per_push (pos (length wrappers))) too_large)
              λ _ few.
                or_rejected-IsAsked version wrappers (refuse_when→false _ too_large short)
                  (or_bad_request→some (decode r.body) body)
                  (refuse_when→false _ protocol_version right) (refuse_when→false _ too_large few)
