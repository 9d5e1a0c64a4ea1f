-- ===== src/Hub/Record/Examples.antt =====
-- A request that is captured.
use claude_mem_lan_sync.Prelude.{
  ℕ, ◌+◌, ◌≡◌, refl, true, false, [], ◌∷◌, none, some, codes, err, ok, pos, arith, length,
}
use claude_mem_lan_sync.Hub.Server.{post, Request, Response, Options}
use claude_mem_lan_sync.Hub.Record.{
  Exchange, wrote, write_exchange, put_capture, Recorder, record_with, inside_git_work_tree,
  new_recorder, in_work_tree,
}
use claude_mem_lan_sync.Hub.Record.Transparent.{IsCaptured, record_with-IsCaptured}

abbrev options : Options
options = record {
  user_id = codes "u";
  auth = none;
  max_request_bytes = pos 3;
  max_body_bytes = pos 0;
  max_response_bytes = pos 0;
  max_ops_per_push = pos 0;
  max_in_flight = pos 1;
  min_free_bytes = pos 0;
  allowed_hosts = [];
  websocket_ready = false;
}

abbrev request : Request
request = record {
  method = post;
  path = codes "/p";
  host = [];
  user_id = [];
  authorization = codes "Bearer key";
  device_id = [];
  device_name = [];
  origin = [];
  content_encoding = [];
  content_type = [];
  since = [];
  limit = [];
  body = codes "{}";
}

-- A handler that counts bytes.
abbrev counter : Request → ℕ → ℕ × Response
counter r n =
    (n + length r.body, record { status = 200; content_length = []; poll = false; body = r.body })

abbrev recorder : Recorder
recorder = record { count = 4; files = [] }

record_with-IsCaptured_example :
    ((record_with (λ _. true) wrote options counter request (some recorder, 1)).0.1 ≡ 3)
    × ((record_with (λ _. true) wrote options counter request (some recorder, 1)).1
        ≡ (counter request 1).1)
    × IsCaptured
        (λ _. true)
        wrote
        request
        (counter request 1).1
        (some recorder)
        ((record_with (λ _. true) wrote options counter request (some recorder, 1)).0.0)
record_with-IsCaptured_example =
    record_with-IsCaptured (λ _. true) wrote options counter request (some recorder) 1 3 refl
      (omega arith)

-- With a recorder the handler sees a part only of a body that is over the limit, and so not its length.
record_with_cuts :
    let long = record request { body = codes "{    }" } in
    ((record_with (λ _. true) wrote options counter long (some recorder, 0)).0.1 ≡ 3)
    × ((record_with (λ _. true) wrote options counter long (none, 0)).0.1 ≡ 6)
unfolding record_with
record_with_cuts = (refl, refl)

-- The directory is made inside the work tree all the same.
new_recorder_refuses :
    new_recorder
      (λ dir. elim dir [ [] ↦ false | _ ∷ above ↦ elim above [ [] ↦ true | _ ∷ _ ↦ false ] ])
      false
      false
      false
      (codes "raw" ∷ codes "repo" ∷ [])
      []
    ≡ (true, err in_work_tree)
unfolding new_recorder inside_git_work_tree
new_recorder_refuses = refl

abbrev captured_before : Exchange
captured_before = record {
  method = post;
  path = codes "/old";
  headers = [];
  request = none;
  status = 200;
  response = none;
}

-- A hub that is started again on the same directory replaces the files of the run before.
restart_overwrites :
    (now : Exchange)
    → (new_recorder (λ _. false) false false false [] ((1, some captured_before) ∷ [])
        ≡ (true, ok (record { count = 0; files = (1, some captured_before) ∷ [] })))
      × (write_exchange wrote now (record { count = 0; files = (1, some captured_before) ∷ [] })
          ≡ record { count = 1; files = (1, some now) ∷ [] })
unfolding new_recorder inside_git_work_tree put_capture
restart_overwrites now = (refl, refl)
