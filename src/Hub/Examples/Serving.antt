-- ===== src/Hub/Examples/Serving.antt =====
-- A push and other requests, from the routing to the log.
use claude_mem_lan_sync.Prelude.{
  ℕ, ◌≡◌, ◌⊎◌, refl, false, List, [], ◌∷◌, Bytes, codes, pos, ℤ, none, some, Option, ok, arith,
  ◌++◌, ◌≢◌,
}
use claude_mem_lan_sync.Proto.Dec.{dec_string, digits}
use claude_mem_lan_sync.Proto.Errors.{too_large, protocol_version, storage_full}
use claude_mem_lan_sync.Proto.Examples.Wrapper.{
  prompt_literal, wrapper_of, one_digest, prompt, parse_prompt,
}
use claude_mem_lan_sync.Store.Devices.{device_revoked, revoked_at}
use claude_mem_lan_sync.Store.Invariant.{IsSound}
use claude_mem_lan_sync.Store.Steps.{Grows}
use claude_mem_lan_sync.Store.Tables.{Store, existing_seq}
use claude_mem_lan_sync.Hub.Server.{Request, Response, Options, post, write_error}
use claude_mem_lan_sync.Hub.Handlers.{check_free_space}
use claude_mem_lan_sync.Hub.Push.{parse_ops, push_request, emit_acks, push_body, handle_push}
use claude_mem_lan_sync.Hub.Route.{World, State, serve}
use claude_mem_lan_sync.Hub.Route.Served.{
  IsRouted, IsAdmitted, serve-IsRouted, store_after, serve_all-Grows,
}
use claude_mem_lan_sync.Pair.Keys.{Host}
use claude_mem_lan_sync.Store.Push.{PushResult, ack_of}
use claude_mem_lan_sync.Hub.Push.Answer.{IsAnswered, handle_push-IsAnswered, handle_push-accepts}
use claude_mem_lan_sync.Hub.Examples.{calm, store, options, request, store-IsSound, quoted}

-- A decoder for bodies that are one operation.
abbrev decode_one : Bytes → Option (ℤ × List Bytes)
decode_one body = some (pos 2, body ∷ [])

abbrev roomy : Options
roomy = record options { max_request_bytes = pos 9000; max_ops_per_push = pos 10 }

abbrev post_request : Request
post_request = record request {
  method = post;
  path = codes "/v1/sync/ops";
  body = wrapper_of prompt_literal;
}

handle_push-IsAnswered_example :
    IsAnswered quoted one_digest decode_one roomy post_request store
      (handle_push quoted one_digest decode_one calm roomy none post_request store)
handle_push-IsAnswered_example =
    handle_push-IsAnswered quoted one_digest decode_one calm roomy none post_request store
      store-IsSound

parses_one : parse_ops one_digest (wrapper_of prompt_literal ∷ []) ≡ ok (prompt ∷ [])
unfolding parse_ops
parses_one = rw parse_prompt refl

handle_push-accepts_example :
    (handle_push quoted one_digest decode_one calm roomy none post_request store).1.status ≡ 200
unfolding check_free_space device_revoked revoked_at
handle_push-accepts_example =
    handle_push-accepts quoted one_digest decode_one calm roomy none post_request store
      (wrapper_of prompt_literal ∷ []) (prompt ∷ []) (λ _. refl) store-IsSound refl refl refl refl
      parses_one refl (omega arith)

abbrev acked_one : PushResult
acked_one = record { acks = ack_of prompt 1 ∷ []; head_seq = 1; projected_seq = 1 }

push_text :
    push_body quoted acked_one
    ≡ codes "{\"acked\":[{\"id\":\"a\",\"kind\":\"prompt\",\"entity_rev\":\"1\","
      ++ codes "\"operation_sha256\":\"dCNOmK_nSY-12vHzasLXiswzlGT5UHA7jAGYkvmCuQs\","
      ++ codes "\"seq\":\"1\",\"origin_local_id\":\"7\"}],"
      ++ codes "\"head_seq\":\"1\",\"projected_seq\":\"1\"}"
unfolding emit_acks dec_string digits
push_text = refl

abbrev decode_old : Bytes → Option (ℤ × List Bytes)
decode_old body = some (pos 1, body ∷ [])

abbrev error_of : Options → (Bytes → Option (ℤ × List Bytes)) → Response
error_of o decode =
    (handle_push quoted one_digest decode calm o (some (ok (pos 3))) post_request store).1

-- A full disk, a body above the limit, and another version.
refusals :
    let full = record roomy { min_free_bytes = pos 5 } in
    let small = record roomy { max_request_bytes = pos 9 } in
    (error_of full decode_one ≡ write_error full 507 storage_full)
    × (error_of small decode_one ≡ write_error small 400 too_large)
    × (error_of roomy decode_old ≡ write_error roomy 400 protocol_version)
unfolding handle_push push_request check_free_space
refusals = (refl, refl, refl)

abbrev files : Host
files = record {
  now = 0;
  secret = codes "key";
  draw = λ n. some 0;
  written = none;
  fails = λ _. false;
}

abbrev world : World
world = record { env = calm; host = files; pairing = false; free = none }

abbrev state : State
state = record { store = store; dir = record { key = none; pairing = none } }

key-nonempty : codes "key" ≢ []
key-nonempty e = cc

serve-IsRouted_example :
    IsRouted one_digest world roomy
      (codes "key")
      post_request
      state
      (serve quoted one_digest quoted decode_one some some world roomy post_request state)
    × (IsAdmitted some roomy post_request
        ⊎ ((serve quoted one_digest quoted decode_one some some world roomy post_request state).0
            ≡ state))
serve-IsRouted_example =
    serve-IsRouted quoted one_digest quoted decode_one some some roomy (codes "key") refl
      key-nonempty world post_request state

-- A health check, a push, and a request to an unknown path.
abbrev traffic : List (World × Request)
traffic =
    (world, record request { path = codes "/healthz" })
    ∷ (world, post_request)
    ∷ (world, record request { path = codes "/v1/sync/nothing" })
    ∷ []

abbrev store_then : Store
store_then =
    store_after quoted one_digest quoted decode_one some some roomy (codes "key") refl key-nonempty
      traffic state

serve_all-Grows_example :
    IsSound store_then
    × Grows [] store_then.tables.ops
    × ((id rev : Bytes) (seq : ℕ)
        → existing_seq [] id rev ≡ some seq
        → existing_seq store_then.tables.ops id rev ≡ some seq)
serve_all-Grows_example =
    serve_all-Grows quoted one_digest quoted decode_one some some roomy (codes "key") refl
      key-nonempty traffic state store-IsSound
