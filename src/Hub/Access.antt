-- ===== src/Hub/Access.antt =====
-- Who passes `authed`.
use claude_mem_lan_sync.Prelude.{
  take-length-append, drop-length-append, ℕ, ◌≡◌, ◌≢◌, ◌⊎◌, inl, inr, refl, ap, Bool, true, false,
  [], ◌∷◌, ◌++◌, arith, Bytes, bytes_eq, bytes_eq_refl, bytes_eq→eq, Bool-cases, ◌&&◌, ltb,
  length-append, Result, ok, err, some, map, take, drop, length, take-append-drop,
}
use claude_mem_lan_sync.Proto.Errors.{RejectReason, Fault, bad_request, unauthorized, internal}
use claude_mem_lan_sync.Store.Env.{Env}
use claude_mem_lan_sync.Store.Tables.{Store}
use claude_mem_lan_sync.Store.Devices.{device_revoked}
use claude_mem_lan_sync.Hub.Server.{
  Method, get, post, other_method, Request, Response, Options, write_error, bearer_token,
  unless_revoked, lower, bearer, authed, same_method, no_text, equal_fold, verify_token,
}

-- The key of the hub behind the word Bearer, in letters of either case.
abbrev pub Presents : Request → Bytes → Type 0
Presents r token =
    (prefix : Bytes) × (r.authorization ≡ prefix ++ token) × (map lower prefix ≡ map lower bearer)

bearer_token-Presents :
    (r : Request) (token : Bytes) → token ≢ [] → bearer_token r ≡ token → Presents r token
unfolding bearer_token
bearer_token-Presents r token h e =
    elim (Bool-cases
      (ltb 7 (length r.authorization) && equal_fold (take 7 r.authorization) bearer)) [
        | inl found ↦
            let same : equal_fold (take 7 r.authorization) bearer ≡ true = ground arith in
            let rest : drop 7 r.authorization ≡ token = ground arith in
            (
              take 7 r.authorization,
              cc (take-append-drop 7 r.authorization),
              bytes_eq→eq (map lower (take 7 r.authorization)) (map lower bearer) same,
            )
        | inr missing ↦ elim (h (ground arith)) [ ]
      ]

length-map-lower : (s : Bytes) → length (map lower s) ≡ length s
length-map-lower [] = refl
length-map-lower (c ∷ s) = omega (arith, length-map-lower s)

Presents-bearer_token :
    (r : Request) (token : Bytes) → token ≢ [] → Presents r token → bearer_token r ≡ token
unfolding bearer_token
Presents-bearer_token r [] ne _ = elim (ne refl) [ ]
Presents-bearer_token r (t ∷ token) ne (prefix, at, same) =
    let seven : length prefix ≡ 7 = omega (arith, length-map-lower prefix, ap length same) in
    let enough : ltb 7 (length (prefix ++ t ∷ token)) ≡ true =
      ground (arith, length-append prefix (t ∷ token)) in
    rw
      (
        at,
        take-length-append prefix (t ∷ token) 7 seven,
        drop-length-append prefix (t ∷ token) 7 seven,
        enough,
        same,
        bytes_eq_refl (map lower bearer),
      )
      refl

-- The conditions on a request, in the words of the protocol.
pub record IsAllowed (env : Env) (o : Options) (token : Bytes) (r : Request) (method : Method)
    (s : Store) : Type 0 where
  pub asks : r.method ≡ method
  pub presents : Presents r token
  pub of_user : r.user_id ≡ o.user_id
  pub named : r.device_id ≢ []
  pub known : device_revoked env s r.device_id ≡ ok false

same_method→eq : (a b : Method) → same_method a b ≡ true → a ≡ b
same_method→eq get get h = refl
same_method→eq post post h = refl
same_method→eq other_method other_method h = refl
same_method→eq get post h = cc
same_method→eq get other_method h = cc
same_method→eq post get h = cc
same_method→eq post other_method h = cc
same_method→eq other_method get h = cc
same_method→eq other_method post h = cc

same_method_refl : (a : Method) → same_method a a ≡ true
same_method_refl get = refl
same_method_refl post = refl
same_method_refl other_method = refl

-- The handler runs for an allowed request, and for another one an error is sent and the store is not
-- touched. The token check of the hub compares the user as well, so the status is never 403.
abbrev pub IsGuarded :
    Env → Options → Bytes → Request → Method → (Store → Store × Response) → Store → Type 0
IsGuarded env o token r method handler s =
    (IsAllowed env o token r method s × (authed env o r method handler s ≡ handler s))
    ⊎ ((IsAllowed env o token r method s → ⊥)
        × (status : ℕ) × (reason : RejectReason) × (authed env o r method handler s
            ≡ (s, write_error o status reason))
        × (status ≢ 403))

pub no_text→eq : (s : Bytes) → no_text s ≡ true → s ≡ []
no_text→eq [] h = refl
no_text→eq (c ∷ s) h = cc

-- Only the answer `false` of `DeviceRevoked` lets the handler run.
revocation :
    (o : Options) (s : Store) (handler : Store → Store × Response) (answer : Result Fault Bool)
    → (answer ≡ ok false)
      ⊎ ((answer ≢ ok false)
          × (status : ℕ) × (reason : RejectReason) × (unless_revoked o s handler answer
              ≡ (s, write_error o status reason))
          × (status ≢ 403))
revocation o s handler (ok false) = inl refl
revocation o s handler (ok true) = inr ((λ e. cc), 401, unauthorized, refl, omega arith)
revocation o s handler (err e) = inr ((λ e. cc), 500, internal, refl, omega arith)

-- If the token check is that of the hub's user, with a token that is not empty, a request gets the
-- answer of the handler exactly if it is allowed, and otherwise an error that is not a 403, with the
-- store as it was.
pub authed-IsGuarded :
    (env : Env) (o : Options) (token : Bytes) (r : Request) (method : Method)
    (handler : Store → Store × Response) (s : Store)
    → o.auth ≡ some (record { user_id = o.user_id; token = token })
    → token ≢ []
    → IsGuarded env o token r method handler s
unfolding authed verify_token
authed-IsGuarded env o token r method handler s auth ne =
    elim (Bool-cases (same_method r.method method)) [
      | inr e ↦
          inr
            ((λ a. cc (same_method_refl method, a.asks)), 405, bad_request, rw e refl, omega arith)
      | inl asks ↦ elim (Bool-cases (bytes_eq r.user_id o.user_id)) [
        | inr e ↦ inr (
          (λ a. cc (bytes_eq_refl o.user_id, a.of_user)),
          401,
          unauthorized,
          rw (asks, auth, e) refl,
          omega arith,
        )
        | inl user ↦ elim (Bool-cases (bytes_eq (bearer_token r) token)) [
          | inr e ↦ inr (
            (λ a. cc (Presents-bearer_token r token ne a.presents, bytes_eq_refl token)),
            401,
            unauthorized,
            rw (asks, auth, user, e) refl,
            omega arith,
          )
          | inl key ↦ elim (Bool-cases (no_text r.device_id)) [
            | inl e ↦ inr (
              (λ a. a.named (no_text→eq r.device_id e)),
              400,
              bad_request,
              rw (asks, auth, user, key, e) refl,
              omega arith,
            )
            | inr named ↦ elim (revocation o s handler (device_revoked env s r.device_id)) [
              | inl known ↦ inl (
                record {
                  asks = same_method→eq r.method method asks;
                  presents =
                      bearer_token-Presents r token ne (bytes_eq→eq (bearer_token r) token key);
                  of_user = bytes_eq→eq r.user_id o.user_id user;
                  named = λ e. cc;
                  known = known;
                },
                rw (asks, auth, user, key, named, known) refl,
              )
              | inr (unknown, status, reason, e, not_403) ↦ inr (
                (λ a. unknown a.known),
                status,
                reason,
                rw (asks, auth, user, key, named) e,
                not_403,
              )
            ]
          ]
        ]
      ]
    ]
