-- ===== src/Hub/Server.antt =====
-- internal/hub/server.go and middleware.go: requests, responses, and the checks before a handler.
use claude_mem_lan_sync.Prelude.{
  ℕ, zero, suc, ◌+◌, ◌/◌, ◌%◌, Bool, true, false, not, ◌&&◌, List, [], ◌∷◌, ◌++◌, if◌then◌else◌,
  leb, ltb, ◌==◌, Bytes, bytes_eq, codes, Result, ok, err, take, drop, length, Option, none, some,
  map, ℤ, pos, negsuc,
}
use claude_mem_lan_sync.Proto.Errors.{
  Fault, RejectReason, reason_text, bad_request, unauthorized, user_mismatch, internal,
}
use claude_mem_lan_sync.Proto.Op.{max_request_bytes, max_body_bytes, max_ops_per_push}
use claude_mem_lan_sync.Store.Changes.{default_max_page_bytes}
use claude_mem_lan_sync.Store.Env.{Env}
use claude_mem_lan_sync.Store.Tables.{Store}
use claude_mem_lan_sync.Store.Devices.{device_revoked}

pub data Method : Type 0 where
  get post other_method : Method

-- An absent header or query parameter is the empty text, as `Get` has it.
pub record Request : Type 0 where
  pub method : Method
  pub path : Bytes
  pub host : Bytes
  pub user_id : Bytes
  pub authorization : Bytes
  pub device_id : Bytes
  pub device_name : Bytes
  pub origin : Bytes
  pub content_encoding : Bytes
  pub content_type : Bytes
  pub since : Bytes
  pub limit : Bytes
  pub body : Bytes

-- `poll` is the header `X-Sync-Mode: poll`.
pub record Response : Type 0 where
  pub status : ℕ
  pub content_length : Bytes
  pub poll : Bool
  pub body : Bytes

pub record StaticToken : Type 0 where
  pub user_id : Bytes
  pub token : Bytes

-- `StaticToken.Verify`
unfoldable pub verify_token : StaticToken → Bytes → Bytes → Bool
verify_token s user_id token = bytes_eq user_id s.user_id && bytes_eq token s.token

-- `auth` is none for a nil Authenticator; the only one of the code is a `StaticToken`. Limits that are
-- not positive stand for the defaults.
pub record Options : Type 0 where
  pub user_id : Bytes
  pub auth : Option StaticToken
  pub max_request_bytes : ℤ
  pub max_body_bytes : ℤ
  pub max_response_bytes : ℤ
  pub max_ops_per_push : ℤ
  pub max_in_flight : ℤ
  pub min_free_bytes : ℤ
  pub allowed_hosts : List Bytes
  pub websocket_ready : Bool

abbrev pub or_default : ℤ → ℕ → ℤ
or_default (negsuc n) d = pos d
or_default (pos n) d = if n == 0 then pos d else pos n

unfoldable pub with_defaults : Options → Options
with_defaults o = record o {
  max_request_bytes = or_default o.max_request_bytes max_request_bytes;
  max_body_bytes = or_default o.max_body_bytes max_body_bytes;
  max_response_bytes = or_default o.max_response_bytes default_max_page_bytes;
  max_ops_per_push = or_default o.max_ops_per_push max_ops_per_push;
  max_in_flight = or_default o.max_in_flight 64;
}

-- The loop of `itoa`, its digits from the last to the first, on fuel.
unfoldable pub itoa_loop : ℕ → ℕ → Bytes → Bytes
itoa_loop zero n buf = buf
itoa_loop (suc fuel) n buf =
    let rest = itoa_loop fuel (n / 10) ((48 + n % 10) ∷ buf) in if n == 0 then buf else rest

-- `itoa`, with a buffer of twenty digits.
unfoldable pub itoa : ℕ → Bytes
itoa n = if n == 0 then codes "0" else itoa_loop 20 n []

abbrev pub answer : Options → ℕ → Bytes → Response
answer o status body = record {
  status = status;
  content_length = itoa (length body);
  poll = not o.websocket_ready;
  body = body;
}

-- `writeError`
abbrev pub write_error : Options → ℕ → RejectReason → Response
write_error o status reason =
    answer o status (codes "{\"error\":\"" ++ reason_text reason ++ codes "\"}")

abbrev pub lower : ℕ → ℕ
lower c = if leb 65 c && leb c 90 then c + 32 else c

-- `strings.EqualFold` against an ASCII text.
abbrev pub equal_fold : Bytes → Bytes → Bool
equal_fold a b = bytes_eq (map lower a) (map lower b)

abbrev pub bearer : Bytes
bearer = codes "Bearer "

unfoldable pub bearer_token : Request → Bytes
bearer_token r =
    if ltb 7 (length r.authorization) && equal_fold (take 7 r.authorization) bearer
    then drop 7 r.authorization
    else []

abbrev pub same_method : Method → Method → Bool
same_method get get = true
same_method post post = true
same_method other_method other_method = true
same_method _ _ = false

abbrev pub verified_by : Option StaticToken → Bytes → Bytes → Bool
verified_by none user_id token = false
verified_by (some a) user_id token = verify_token a user_id token

-- What `authed` does with the answer of `DeviceRevoked`.
abbrev pub unless_revoked :
    Options → Store → (Store → Store × Response) → Result Fault Bool → Store × Response
unless_revoked o s handler (err e) = (s, write_error o 500 internal)
unless_revoked o s handler (ok true) = (s, write_error o 401 unauthorized)
unless_revoked o s handler (ok false) = handler s

abbrev pub no_text : Bytes → Bool
no_text [] = true
no_text (_ ∷ _) = false

-- `authed`: the handler runs behind the checks of method, token, user, identity and revocation.
unfoldable pub authed :
    Env → Options → Request → Method → (Store → Store × Response) → Store → Store × Response
authed env o r method handler s =
    if not (same_method r.method method)
    then (s, write_error o 405 bad_request)
    else if not (verified_by o.auth r.user_id (bearer_token r))
    then (s, write_error o 401 unauthorized)
    else if not (bytes_eq r.user_id o.user_id)
    then (s, write_error o 403 user_mismatch)
    else if no_text r.device_id
    then (s, write_error o 400 bad_request)
    else unless_revoked o s handler (device_revoked env s r.device_id)

abbrev pub has_hosts : List Bytes → Bool
has_hosts [] = false
has_hosts (_ ∷ _) = true

-- `net.SplitHostPort`: the host, or none for an error.
module _ (split_host_port : Bytes → Option Bytes) where
  abbrev pub host_part : Bytes → Bytes
  host_part host = elim (split_host_port host) [ none ↦ host | some h ↦ h ]

  unfoldable pub host_allowed : List Bytes → Bytes → Bool
  host_allowed [] host = false
  host_allowed (allowed ∷ hosts) host =
      if equal_fold (host_part host) (host_part allowed) then true else host_allowed hosts host

  -- `checkHostAndOrigin`
  unfoldable pub check_host_and_origin :
      {S : Type 0} → Options → Request → (S → S × Response) → S → S × Response
  unfolding host_allowed
  check_host_and_origin o r next s =
      if not (no_text r.origin)
      then (s, write_error o 400 bad_request)
      else if not (no_text r.content_encoding)
      then (s, write_error o 400 bad_request)
      else if has_hosts o.allowed_hosts && not (host_allowed o.allowed_hosts r.host)
      then (s, write_error o 400 bad_request)
      else next s
