-- ===== src/Hub/Route.antt =====
-- `route` and `Handler` of internal/hub/server.go: from a request to the handler of its path.
pub mod Authority
pub mod Served
use claude_mem_lan_sync.Prelude.{
  ℕ, Bool, true, false, not, List, [], ◌∷◌, if◌then◌else◌, Bytes, bytes_eq, codes, Result, Option,
  ℤ,
}
use claude_mem_lan_sync.Proto.Errors.{Fault, bad_request}
use claude_mem_lan_sync.Store.Env.{Env}
use claude_mem_lan_sync.Store.Tables.{Store}
use claude_mem_lan_sync.Pair.Keys.{Host, Dir}
use claude_mem_lan_sync.Hub.Server.{
  Request, Response, Options, get, post, write_error, same_method, authed, check_host_and_origin,
}
use claude_mem_lan_sync.Hub.Handlers.{handle_status, handle_changes, handle_pair}
use claude_mem_lan_sync.Hub.Push.{handle_push}

-- What the handlers of a server share: the store, and the directory of the pairing.
pub record State : Type 0 where
  pub store : Store
  pub dir : Dir

-- What the process has when a request runs: the database and the clock, the files, whether there is a
-- pairing exchanger, and what FreeBytes returns.
pub record World : Type 0 where
  pub env : Env
  pub host : Host
  pub pairing : Bool
  pub free : Option (Result Fault ℤ)

abbrev pub with_store : State → Store × Response → State × Response
with_store st (s, a) = (record st { store = s }, a)

abbrev pub with_dir : State → Dir × Response → State × Response
with_dir st (d, a) = (record st { dir = d }, a)

-- The headers are left to net/http.
abbrev pub healthy : Response
healthy = record { status = 200; content_length = []; poll = false; body = codes "ok" }

abbrev pub handle_health : Options → Request → Response
handle_health o r =
    if not (same_method r.method get) then write_error o 405 bad_request else healthy

-- The parameters stand for `strconv.Quote`, `Digest`, SHA-256 in base64, the JSON decoders of the two
-- bodies, and `net.SplitHostPort`.
module _ (quote digest_of sha256_base64 : Bytes → Bytes) (decode : Bytes → Option (ℤ × List Bytes))
    (decode_code : Bytes → Option Bytes) where
  abbrev pub route_pair : World → Options → Request → State → State × Response
  route_pair w o r st =
      if w.pairing
      then with_dir st (handle_pair quote sha256_base64 decode_code w.host o r st.dir)
      else (st, write_error o 404 bad_request)

  -- `route`
  unfoldable pub route : World → Options → Request → State → State × Response
  route w o r st =
      if bytes_eq r.path (codes "/healthz")
      then (st, handle_health o r)
      else if bytes_eq r.path (codes "/v1/sync/status")
      then with_store st (authed w.env o r get (handle_status w.env o r) st.store)
      else if bytes_eq r.path (codes "/v1/sync/ops")
      then with_store st
          (authed w.env o r post (handle_push quote digest_of decode w.env o w.free r) st.store)
      else if bytes_eq r.path (codes "/v1/sync/changes")
      then with_store st (authed w.env o r get (handle_changes quote w.env o r) st.store)
      else if bytes_eq r.path (codes "/pair")
      then route_pair w o r st
      else (st, write_error o 404 bad_request)

  module _ (split_host_port : Bytes → Option Bytes) where
    -- `Handler`, for a request that has a place at the gate.
    unfoldable pub serve : World → Options → Request → State → State × Response
    serve w o r st = check_host_and_origin split_host_port o r (route w o r) st

    -- Requests, one after another, each with what the process has then.
    unfoldable pub serve_all : Options → List (World × Request) → State → State
    serve_all o [] st = st
    serve_all o ((w, r) ∷ requests) st = serve_all o requests (serve w o r st).0
