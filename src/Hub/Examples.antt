-- ===== src/Hub/Examples.antt =====
-- A request that passes `authed`, and two requests at a gate with one place.
mod Serving
use claude_mem_lan_sync.Prelude.{
  ◌++◌, negsuc, map, err, ℕ, ◌+◌, ◌≤◌, ◌<◌, ◌≡◌, refl, List, [], ◌∷◌, Bytes, codes, pos, none, some,
  false, length, arith, ok, ◌^◌,
}
use claude_mem_lan_sync.Store.Env.{Env}
use claude_mem_lan_sync.Store.Tables.{Store}
use claude_mem_lan_sync.Store.Devices.{device_revoked, revoked_at}
use claude_mem_lan_sync.Proto.Dec.{dec_string}
use claude_mem_lan_sync.Hub.Server.{
  Method, get, Request, Response, Options, answer, itoa, itoa_loop, authed, bearer_token,
}
use claude_mem_lan_sync.Hub.Access.{IsGuarded, authed-IsGuarded}
use claude_mem_lan_sync.Hub.Digits.{dec_string-itoa}
use claude_mem_lan_sync.Store.Invariant.{IsSound}
use claude_mem_lan_sync.Store.Devices.Access.{IsKept}
use claude_mem_lan_sync.Store.Changes.{ChangesResult, page_bytes}
use claude_mem_lan_sync.Store.Changes.Cursor.{IsPage}
use claude_mem_lan_sync.Proto.Op.{max_page_limit}
use claude_mem_lan_sync.Proto.Errors.{reject, other, storage_full}
use claude_mem_lan_sync.Hub.Handlers.{
  handle_status, head_of, handle_changes, changes_body, atoi, media_type, check_free_space,
}
use claude_mem_lan_sync.Hub.Reads.{reads-IsKept, handle_changes-IsPage}
use claude_mem_lan_sync.Hub.Limit.{Gate, Runs, start, comes, goes, arrive, leave, head, Runs-length}

abbrev calm : Env
calm = record { now = 7; random = 1; fresh_id = []; fails = λ _. false }

abbrev store : Store
store = record {
  tables = record {
    ops = [];
    meta = record { user_id = codes "u"; epoch = codes "5"; head_seq = 0 };
    devices = [];
  };
  user_id = codes "u";
  epoch = 5;
}

abbrev options : Options
options = record {
  user_id = codes "u";
  auth = some (record { user_id = codes "u"; token = codes "key" });
  max_request_bytes = pos 0;
  max_body_bytes = pos 0;
  max_response_bytes = pos 0;
  max_ops_per_push = pos 0;
  max_in_flight = pos 1;
  min_free_bytes = pos 0;
  allowed_hosts = [];
  websocket_ready = false;
}

abbrev request : Request
request = record {
  method = get;
  path = codes "/v1/sync/status";
  host = [];
  user_id = codes "u";
  authorization = codes "bearer key";
  device_id = codes "d";
  device_name = [];
  origin = [];
  content_encoding = [];
  content_type = [];
  since = codes "0";
  limit = [];
  body = [];
}

abbrev says_ok : Store → Store × Response
says_ok s = (s, answer options 200 (codes "ok"))

authed-IsGuarded_example : IsGuarded calm options (codes "key") request get says_ok store
authed-IsGuarded_example =
    authed-IsGuarded calm options (codes "key") request get says_ok store refl (λ e. cc)

-- The word Bearer may be in lower case.
authed_passes : (authed calm options request get says_ok store).1.status ≡ 200
unfolding authed bearer_token device_revoked revoked_at claude_mem_lan_sync.Prelude.bytes_eq
    claude_mem_lan_sync.Hub.Server.verify_token
authed_passes = refl

abbrev gate : Gate
gate = leave 1 (arrive 1 2 (arrive 1 1 (record { in_flight = []; refused = [] })))

runs : Runs 1 2 1 gate
unfolding arrive
runs = goes 1 (comes 2 (comes 1 start)) head

store-IsSound : IsSound store
unfolding dec_string claude_mem_lan_sync.Proto.Dec.digits
store-IsSound = record {
  numbered = tt;
  distinct = tt;
  counted = refl;
  bounded = omega arith;
  epoch_stored = refl;
  epoch_pos = omega arith;
  epoch_fits = omega arith;
}

abbrev quoted : Bytes → Bytes
quoted text = b'"' ∷ text ++ b'"' ∷ []

handle_changes-IsPage_example :
    (page : ChangesResult) × ((handle_changes quoted calm options request store).1
      ≡ answer options 200 (changes_body quoted page))
    × IsPage store 0 max_page_limit (page_bytes options.max_response_bytes) page
unfolding dec_string claude_mem_lan_sync.Proto.Dec.digits
handle_changes-IsPage_example =
    handle_changes-IsPage quoted calm options request store 0 (λ _. refl) store-IsSound
      (omega arith) refl refl

-- The text of a status.
status_text :
    (handle_status calm options request store).1.body
    ≡ codes "{\"protocol_version\":2,\"epoch\":\"5\",\"head_seq\":\"0\",\"projected_seq\":\"0\"}"
unfolding handle_status head_of dec_string claude_mem_lan_sync.Proto.Dec.digits
status_text = refl

atoi_signs :
    map atoi (codes "-12" ∷ codes "+7" ∷ codes "1x" ∷ [])
    ≡ some (negsuc 11) ∷ some (pos 7) ∷ none ∷ []
unfolding atoi claude_mem_lan_sync.Proto.Dec.all_digits
atoi_signs = refl

media_type_parameter :
    media_type (codes "application/json; charset=utf-8") ≡ codes "application/json"
unfolding media_type
media_type_parameter = refl

-- A disk with less free space than the floor refuses a push; one whose space is unknown does not.
check_free_space_floor :
    let o = record options { min_free_bytes = pos 100 } in
    (check_free_space o (some (ok (pos 99))) ≡ err (reject storage_full))
    × (check_free_space o (some (err other)) ≡ ok tt)
unfolding check_free_space
check_free_space_floor = (refl, refl)
