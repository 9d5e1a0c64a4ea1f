-- ===== src/Hub/Handlers.antt =====
-- internal/hub/handlers.go: the handlers that read, and the pairing.
use claude_mem_lan_sync.Prelude.{
  ℕ, ◌+◌, ◌-◌, Bool, true, false, not, ◌&&◌, List, [], ◌∷◌, ◌++◌, if◌then◌else◌, ltb, ◌==◌, Bytes,
  bytes_eq, codes, Result, ok, err, ◌>>=◌, ◌>>◌, Option, none, some, ℤ, pos, negsuc, take,
}
use claude_mem_lan_sync.Proto.Dec.{
  DecError, parse_dec, dec_string, all_digits, digits_value, max_int64,
}
use claude_mem_lan_sync.Proto.Emit.{written, emit_change_op}
use claude_mem_lan_sync.Proto.Errors.{
  Fault, RejectReason, reject, reason_of, bad_request, bad_cursor, internal, unauthorized,
  storage_full,
}
use claude_mem_lan_sync.Proto.Op.{max_page_limit}
use claude_mem_lan_sync.Store.Env.{Env, run, read_head}
use claude_mem_lan_sync.Store.Tables.{Store}
use claude_mem_lan_sync.Store.Devices.{seen_device}
use claude_mem_lan_sync.Store.Push.{stored_dec}
use claude_mem_lan_sync.Store.Changes.{ChangeOp, ChangesResult, changes}
use claude_mem_lan_sync.Pair.Codes.{PairError}
use claude_mem_lan_sync.Pair.Keys.{Host, Dir}
use claude_mem_lan_sync.Pair.FileWindow.{redeem_file}
use claude_mem_lan_sync.Hub.Server.{
  Request, Response, Options, write_error, answer, no_text, post, same_method,
}

-- `recordDevice`: an error is logged, and the request goes on.
unfoldable pub record_device : Env → Request → Store → Store
record_device env r s =
    if no_text r.device_id then s else (seen_device env s r.device_id r.device_name).0

-- `HeadSeq`
unfoldable pub head_of : Env → Store → Result Fault ℕ
head_of env s = do run env read_head; stored_dec s.tables.meta.head_seq

abbrev pub status_body : ℕ → ℕ → Bytes
status_body epoch head = written (
    codes "{\"protocol_version\":2,\"epoch\":\""
    ∷ dec_string epoch
    ∷ codes "\",\"head_seq\":\""
    ∷ dec_string head
    ∷ codes "\",\"projected_seq\":\""
    ∷ dec_string head
    ∷ codes "\"}"
    ∷ [])

abbrev pub status_of : Env → Options → Request → Store → Result Fault ℕ → Store × Response
status_of env o r s (err e) = (s, write_error o 500 internal)
status_of env o r s (ok head) = (record_device env r s, answer o 200 (status_body s.epoch head))

-- `handleStatus`
unfoldable pub handle_status : Env → Options → Request → Store → Store × Response
handle_status env o r s = status_of env o r s (head_of env s)

abbrev digits_of : Bytes → Option ℕ
digits_of [] = none
digits_of (c ∷ s) = if all_digits (c ∷ s) then some (digits_value 0 (c ∷ s)) else none

abbrev negated : Option ℕ → Option ℤ
negated none = none
negated (some n) =
    if ltb (max_int64 + 1) n then none else if n == 0 then some (pos 0) else some (negsuc (n - 1))

abbrev in_range : Option ℕ → Option ℤ
in_range none = none
in_range (some n) = if ltb max_int64 n then none else some (pos n)

-- `strconv.Atoi`: a sign, and digits within an int of 64 bits.
unfoldable pub atoi : Bytes → Option ℤ
atoi [] = none
atoi (c ∷ s) =
    if c == b'-'
    then negated (digits_of s)
    else if c == b'+'
    then in_range (digits_of s)
    else in_range (digits_of (c ∷ s))

-- `if n > 0 && n < limit`
abbrev clamped : ℤ → ℕ
clamped (negsuc n) = max_page_limit
clamped (pos n) = if ltb 0 n && ltb n max_page_limit then n else max_page_limit

abbrev limit_or : Option ℤ → Result RejectReason ℕ
limit_or none = err bad_request
limit_or (some n) = ok (clamped n)

unfoldable pub limit_param : Bytes → Result RejectReason ℕ
limit_param [] = ok max_page_limit
limit_param (c ∷ s) = limit_or (atoi (c ∷ s))

abbrev since_or : Result DecError ℕ → Result RejectReason ℕ
since_or (ok d) = ok d
since_or (err e) = err bad_cursor

unfoldable pub since_param : Bytes → Result RejectReason ℕ
since_param [] = ok 0
since_param (c ∷ s) = since_or (parse_dec (c ∷ s))

-- The errors of `Changes`: a bad cursor is the client's, any other is the hub's.
abbrev changes_error : Options → RejectReason → Response
changes_error o bad_cursor = write_error o 400 bad_cursor
changes_error o _ = write_error o 500 internal

module _ (quote : Bytes → Bytes) where
  -- The entries of a page, with commas between them.
  unfoldable pub emit_ops : List ChangeOp → Bytes
  emit_ops [] = []
  emit_ops (op ∷ []) = emit_change_op quote op.seq op.server_ts op.raw_literal op.digest
  emit_ops (op ∷ op' ∷ ops) =
      emit_change_op quote op.seq op.server_ts op.raw_literal op.digest
      ++ b',' ∷ emit_ops (op' ∷ ops)

  abbrev pub changes_body : ChangesResult → Bytes
  changes_body res = written (
      codes "{\"protocol_version\":2,\"epoch\":\""
      ∷ dec_string res.epoch
      ∷ codes "\",\"head_seq\":\""
      ∷ dec_string res.head_seq
      ∷ codes "\",\"more\":"
      ∷ (if res.more then codes "true" else codes "false")
      ∷ codes ",\"ops\":["
      ∷ emit_ops res.ops
      ∷ codes "]}"
      ∷ [])

  abbrev pub page_of :
      Env → Options → Request → Store → Result Fault ChangesResult → Store × Response
  page_of env o r s (err e) = (s, changes_error o (reason_of e))
  page_of env o r s (ok res) = (record_device env r s, answer o 200 (changes_body res))

  abbrev pub changes_with :
      Env → Options → Request → Store → Result RejectReason (ℕ × ℕ) → Store × Response
  changes_with env o r s (err reason) = (s, write_error o 400 reason)
  changes_with env o r s (ok (since, limit)) =
      page_of env o r s (changes env s since (pos limit) o.max_response_bytes)

  -- `handleChanges`
  unfoldable pub handle_changes : Env → Options → Request → Store → Store × Response
  handle_changes env o r s =
      changes_with env o r s
        (do since ← since_param r.since; limit ← limit_param r.limit; ok (since, limit))

-- `<` of two Go integers.
abbrev pub lt_int : ℤ → ℤ → Bool
lt_int (pos a) (pos b) = ltb a b
lt_int (pos a) (negsuc b) = false
lt_int (negsuc a) (pos b) = true
lt_int (negsuc a) (negsuc b) = ltb b a

-- `isJSONContentType`: the text up to the first semicolon.
unfoldable pub media_type : Bytes → Bytes
media_type [] = []
media_type (c ∷ s) = let rest = media_type s in if c == b';' then [] else c ∷ rest

abbrev pub is_json_content_type : Bytes → Bool
is_json_content_type [] = false
is_json_content_type (c ∷ s) = bytes_eq (media_type (c ∷ s)) (codes "application/json")

-- `checkFreeSpace`: `free` is what FreeBytes returns, none if there is no such function.
unfoldable pub check_free_space : Options → Option (Result Fault ℤ) → Result Fault (Unit {0})
check_free_space o none = ok tt
check_free_space o (some (err e)) = ok tt
check_free_space o (some (ok free)) =
    if lt_int (pos 0) o.min_free_bytes && lt_int free o.min_free_bytes
    then err (reject storage_full)
    else ok tt

-- The largest body of a pairing request that is read.
abbrev max_pair_bytes : ℕ
max_pair_bytes = 4096

-- `decode` finds the code in a JSON body, or none for an error.
module _ (quote sha256_base64 : Bytes → Bytes) (decode : Bytes → Option Bytes) where
  abbrev token_body : Options → Bytes → Bytes
  token_body o token =
      written (
        codes "{\"token\":"
        ∷ quote token
        ∷ codes ",\"user_id\":"
        ∷ quote o.user_id
        ∷ codes "}"
        ∷ [])

  abbrev redeemed : Options → Dir × Result PairError Bytes → Dir × Response
  redeemed o (d, err e) = (d, write_error o 401 unauthorized)
  redeemed o (d, ok token) = (d, answer o 200 (token_body o token))

  abbrev redeem_code : Host → Options → Dir → Option Bytes → Dir × Response
  redeem_code host o d none = (d, write_error o 400 bad_request)
  redeem_code host o d (some code) = redeemed o (redeem_file sha256_base64 host d code)

  -- `handlePair`, where the server has a pairing window.
  unfoldable pub handle_pair : Host → Options → Request → Dir → Dir × Response
  handle_pair host o r d =
      if not (same_method r.method post)
      then (d, write_error o 405 bad_request)
      else if not (is_json_content_type r.content_type)
      then (d, write_error o 400 bad_request)
      else redeem_code host o d (decode (take max_pair_bytes r.body))
