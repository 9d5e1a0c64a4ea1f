-- ===== src/Hub/Reads.antt =====
-- What the reading handlers answer, and what they leave alone.
use claude_mem_lan_sync.Prelude.{
  ℕ, ◌≤◌, ◌≡◌, ◌≢◌, refl, false, [], ◌∷◌, Bytes, Result, ok, err, pos, arith, Bool-cases, inl, inr,
}
use claude_mem_lan_sync.Proto.Dec.{dec_string, parse_dec, max_int64, max_dec}
use claude_mem_lan_sync.Proto.Dec.RoundTrip.{parse_dec-dec_string}
use claude_mem_lan_sync.Proto.Errors.{Fault, RejectReason}
use claude_mem_lan_sync.Proto.Op.{max_page_limit}
use claude_mem_lan_sync.Store.Env.{Env, Call}
use claude_mem_lan_sync.Store.Tables.{Store}
use claude_mem_lan_sync.Store.Invariant.{IsSound}
use claude_mem_lan_sync.Store.Devices.Access.{IsKept, seen_device-IsKept}
use claude_mem_lan_sync.Store.Changes.{ChangesResult, changes, page_bytes}
use claude_mem_lan_sync.Store.Changes.Cursor.{IsPage, changes-IsPage}
use claude_mem_lan_sync.Hub.Server.{Request, Options, answer, no_text}
use claude_mem_lan_sync.Hub.Handlers.{
  record_device, head_of, status_of, handle_status, since_param, limit_param, changes_body, page_of,
  changes_with, handle_changes,
}

unchanged : (s : Store) → IsKept s s
unchanged s = record { ops = refl; meta = refl; epoch = refl }

record_device-IsKept : (env : Env) (r : Request) (s : Store) → IsKept s (record_device env r s)
unfolding record_device
record_device-IsKept env r s = elim (Bool-cases (no_text r.device_id)) [
  | inl e ↦ rw e (unchanged s)
  | inr e ↦ rw e (seen_device-IsKept env s r.device_id r.device_name)
]

status_of-IsKept :
    (env : Env) (o : Options) (r : Request) (s : Store) (head : Result Fault ℕ)
    → IsKept s (status_of env o r s head).0
status_of-IsKept env o r s (err e) = unchanged s
status_of-IsKept env o r s (ok head) = record_device-IsKept env r s

module _ (quote : Bytes → Bytes) where
  page_of-IsKept :
      (env : Env) (o : Options) (r : Request) (s : Store) (page : Result Fault ChangesResult)
      → IsKept s (page_of quote env o r s page).0
  page_of-IsKept env o r s (err e) = unchanged s
  page_of-IsKept env o r s (ok page) = record_device-IsKept env r s

  changes_with-IsKept :
      (env : Env) (o : Options) (r : Request) (s : Store) (asked : Result RejectReason (ℕ × ℕ))
      → IsKept s (changes_with quote env o r s asked).0
  changes_with-IsKept env o r s (err reason) = unchanged s
  changes_with-IsKept env o r s (ok (since, limit)) =
      page_of-IsKept env o r s (changes env s since (pos limit) o.max_response_bytes)

-- Whatever is asked and whatever fails, the handlers of status and changes leave the log, the head
-- counter and the epoch as they are.
pub reads-IsKept :
    (quote : Bytes → Bytes) (env : Env) (o : Options) (r : Request) (s : Store)
    → IsKept s (handle_status env o r s).0 × IsKept s (handle_changes quote env o r s).0
unfolding handle_status handle_changes
reads-IsKept quote env o r s =
    (status_of-IsKept env o r s (head_of env s), changes_with-IsKept quote env o r s _)

parse_dec-empty : (n : ℕ) → parse_dec [] ≢ ok n
unfolding parse_dec
parse_dec-empty n e = cc

since_param-parse_dec : (t : Bytes) (n : ℕ) → parse_dec t ≡ ok n → since_param t ≡ ok n
unfolding since_param
since_param-parse_dec [] n h = absurd (parse_dec-empty n h)
since_param-parse_dec (c ∷ t) n h = rw h refl

since_param-dec_string : (n : ℕ) → n ≤ max_dec → since_param (dec_string n) ≡ ok n
since_param-dec_string n fits = since_param-parse_dec (dec_string n) n (parse_dec-dec_string n fits)

-- If no call fails, a request with a cursor of at most 2^63 - 1, as `Dec.String` prints it, and without
-- a limit gets the text of a page of the sound store, of at most 500 operations, behind that cursor.
pub handle_changes-IsPage :
    (quote : Bytes → Bytes) (env : Env) (o : Options) (r : Request) (s : Store) (since : ℕ)
    → ((c : Call) → env.fails c ≡ false)
    → IsSound s
    → since ≤ max_int64
    → r.since ≡ dec_string since
    → r.limit ≡ []
    → (page : ChangesResult) × ((handle_changes quote env o r s).1
        ≡ answer o 200 (changes_body quote page))
      × IsPage s since max_page_limit (page_bytes o.max_response_bytes) page
unfolding handle_changes limit_param
handle_changes-IsPage quote env o r s since quiet h fits asked open_ =
    let (page, got, is_page) =
      changes-IsPage env s since (pos max_page_limit) o.max_response_bytes quiet h fits in
    (page, rw (asked, open_, since_param-dec_string since (omega arith), got) refl, is_page)
