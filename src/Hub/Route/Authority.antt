-- ===== src/Hub/Route/Authority.antt =====
-- What a request may change.
use claude_mem_lan_sync.Prelude.{
  ◌≡◌, ◌≢◌, ◌⊎◌, inl, inr, refl, List, [], Bytes, codes, Result, ok, err, Option, some, ℤ,
  Bool-cases, All, subst, sym, given,
}
use claude_mem_lan_sync.Proto.Errors.{Fault}
use claude_mem_lan_sync.Proto.Op.{Op}
use claude_mem_lan_sync.Proto.Parse.Sound.{IsAccepted}
use claude_mem_lan_sync.Store.Env.{Env}
use claude_mem_lan_sync.Store.Tables.{Store}
use claude_mem_lan_sync.Store.Devices.{seen_device}
use claude_mem_lan_sync.Store.Push.{PushResult, push}
use claude_mem_lan_sync.Store.Changes.{ChangesResult}
use claude_mem_lan_sync.Hub.Server.{Method, Request, Response, Options, get, post, authed, no_text}
use claude_mem_lan_sync.Hub.Access.{IsAllowed, authed-IsGuarded}
use claude_mem_lan_sync.Hub.Handlers.{
  record_device, head_of, status_of, handle_status, page_of, changes_with, handle_changes,
}
use claude_mem_lan_sync.Hub.Push.{Refusal, push_request, pushed, push_with, handle_push}
use claude_mem_lan_sync.Hub.Push.Asked.{push_request-Ensures, IsAsked-IsAccepted}

-- The store as it was, or with the sighting of the device.
abbrev pub MaySee : Env → Request → Store → Store → Type 0
MaySee env r s s' = (s' ≡ s) ⊎ (s' ≡ (seen_device env s r.device_id r.device_name).0)

module _ (env : Env) (o : Options) (r : Request) (s : Store) where
  record_device-MaySee : MaySee env r s (record_device env r s)
  unfolding record_device
  record_device-MaySee = elim (Bool-cases (no_text r.device_id)) [
    | inl e ↦ inl (rw e refl)
    | inr e ↦ inr (rw e refl)
  ]

  status_of-MaySee : (head : Result Fault _) → MaySee env r s (status_of env o r s head).0
  status_of-MaySee (err e) = inl refl
  status_of-MaySee (ok head) = record_device-MaySee

  pub handle_status-MaySee : MaySee env r s (handle_status env o r s).0
  unfolding handle_status
  handle_status-MaySee = status_of-MaySee (head_of env s)

  module _ (quote : Bytes → Bytes) where
    page_of-MaySee :
        (page : Result Fault ChangesResult) → MaySee env r s (page_of quote env o r s page).0
    page_of-MaySee (err e) = inl refl
    page_of-MaySee (ok page) = record_device-MaySee

    changes_with-MaySee :
        (asked : Result _ _) → MaySee env r s (changes_with quote env o r s asked).0
    changes_with-MaySee (err reason) = inl refl
    changes_with-MaySee (ok (since, limit)) = page_of-MaySee _

    pub handle_changes-MaySee : MaySee env r s (handle_changes quote env o r s).0
    unfolding handle_changes
    handle_changes-MaySee = changes_with-MaySee _

  -- The store as it was, or with the operations of the request, which `ParseOp` accepts.
  abbrev pub MayPush : (Bytes → Bytes) → Store → Type 0
  MayPush digest_of s' =
      (s' ≡ s)
      ⊎ ((ops : List Op) × All (IsAccepted digest_of) ops
          × (s' ≡ (push env s ops r.device_id r.device_name).0))

  pushed-store :
      (quote : Bytes → Bytes) (out : Store × Result Fault PushResult)
      → (pushed quote o out).0 ≡ out.0
  pushed-store quote (s', err e) = refl
  pushed-store quote (s', ok res) = refl

  module _ (quote digest_of : Bytes → Bytes) (decode : Bytes → Option (ℤ × List Bytes))
      (free : Option (Result Fault ℤ)) where
    push_with-MayPush :
        (asked : Result Refusal (List Op))
        → ((ops : List Op) → asked ≡ ok ops → All (IsAccepted digest_of) ops)
        → MayPush digest_of (push_with quote env o r s asked).0
    push_with-MayPush (err (status, reason)) accepted = inl refl
    push_with-MayPush (ok ops) accepted =
        inr (ops, accepted ops refl, pushed-store quote (push env s ops r.device_id r.device_name))

    pub handle_push-MayPush :
        MayPush digest_of (handle_push quote digest_of decode env o free r s).0
    unfolding handle_push
    handle_push-MayPush =
        push_with-MayPush (push_request digest_of decode o free r) (λ ops e.
          IsAsked-IsAccepted (given ops (push_request-Ensures digest_of decode o free r) e))

-- A claim about the store that holds as it is, and behind the handler of an allowed request.
pub authed-keeps :
    (P : Store → Type 0) (env : Env) (o : Options) (token : Bytes) (r : Request) (method : Method)
    (handler : Store → Store × Response) (s : Store)
    → o.auth ≡ some (record { user_id = o.user_id; token = token })
    → token ≢ []
    → P s
    → (IsAllowed env o token r method s → P (handler s).0)
    → P (authed env o r method handler s).0
authed-keeps P env o token r method handler s auth ne idle follow =
    elim (authed-IsGuarded env o token r method handler s auth ne) [
      | inl (allowed, same) ↦ subst (λ out. P out.0) (sym same) (follow allowed)
      | inr (_, status, reason, same, _) ↦ subst (λ out. P out.0) (sym same) idle
    ]

-- What a request may do to the store: nothing; as a read of an allowed device, its sighting; or, as a
-- post of an allowed device to the path of the operations, a push of accepted operations.
pub data IsAuthorized (digest_of : Bytes → Bytes) (env : Env) (o : Options) (token : Bytes)
    (r : Request) (s s' : Store) : Type 0 where
  idle : s' ≡ s → IsAuthorized digest_of env o token r s s'
  looked :
      IsAllowed env o token r get s
      → s' ≡ (seen_device env s r.device_id r.device_name).0
      → IsAuthorized digest_of env o token r s s'
  appended :
      (ops : List Op)
      → IsAllowed env o token r post s
      → codes "/v1/sync/ops" ≡ r.path
      → All (IsAccepted digest_of) ops
      → s' ≡ (push env s ops r.device_id r.device_name).0
      → IsAuthorized digest_of env o token r s s'

module _ (digest_of : Bytes → Bytes) (env : Env) (o : Options) (token : Bytes) (r : Request)
    (s s' : Store) where
  pub looked_or_idle :
      IsAllowed env o token r get s → MaySee env r s s' → IsAuthorized digest_of env o token r s s'
  looked_or_idle allowed (inl same) = idle same
  looked_or_idle allowed (inr seen) = looked allowed seen

  pub appended_or_idle :
      codes "/v1/sync/ops" ≡ r.path
      → IsAllowed env o token r post s
      → MayPush env o r s digest_of s'
      → IsAuthorized digest_of env o token r s s'
  appended_or_idle here allowed (inl same) = idle same
  appended_or_idle here allowed (inr (ops, accepted, same)) =
      appended ops allowed here accepted same
