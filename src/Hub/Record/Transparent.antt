-- ===== src/Hub/Record/Transparent.antt =====
-- What the capture of traffic does to a request, and where it is allowed.
use claude_mem_lan_sync.Prelude.{
  ℕ, suc, ◌≡◌, ◌≤◌, ◌≢◌, ◌==◌, arith, refl, ap, sym, subst, ◌∙◌, Bool, true, false, [], ◌∷◌, Option,
  none, some, if◌then◌else◌, Bytes, pos, length, take-all, if-keeps,
}
use claude_mem_lan_sync.Hub.Server.{Request, Response, Options}
use claude_mem_lan_sync.Hub.Record.{
  Captures, Exchange, WriteOutcome, wrote, untouched, cut_short, put_capture, write_exchange,
  Recorder, DirPath, inside_git_work_tree, limited, cut_request, captured, record_with, exchange_of,
}

-- The file of a number.
unfoldable pub capture_at : ℕ → Captures → Option (Option Exchange)
capture_at n [] = none
capture_at n ((m, f) ∷ files) = let rest = capture_at n files in if m == n then some f else rest

-- What is under the number of an exchange behind its writing, where `old` was before.
abbrev pub left_by : WriteOutcome → Exchange → Option (Option Exchange) → Option (Option Exchange)
left_by wrote e old = some (some e)
left_by untouched e old = old
left_by cut_short e old = some none

put_capture-same :
    (n : ℕ) (e : Option Exchange) (files : Captures) → capture_at n (put_capture n e files) ≡ some e
unfolding put_capture capture_at
put_capture-same n e [] = ground arith
put_capture-same n e ((m, f) ∷ files) = ground (arith, put_capture-same n e files)

put_capture-other :
    (k n : ℕ) (e : Option Exchange) (files : Captures)
    → k ≢ n
    → capture_at k (put_capture n e files) ≡ capture_at k files
unfolding put_capture capture_at
put_capture-other k n e [] ne = ground arith
put_capture-other k n e ((m, f) ∷ files) ne = ground (arith, put_capture-other k n e files ne)

-- The next number is counted, its file is what the writing leaves, and every other file is as it was.
pub record IsRecorded (outcome : WriteOutcome) (e : Exchange) (before after : Recorder)
    : Type 0 where
  pub next_number : after.count ≡ suc before.count
  pub own_file :
      capture_at (suc before.count) after.files
      ≡ left_by outcome e (capture_at (suc before.count) before.files)
  pub other_files :
      (k : ℕ) → k ≢ suc before.count → capture_at k after.files ≡ capture_at k before.files

write_exchange-IsRecorded :
    (outcome : WriteOutcome) (e : Exchange) (rec : Recorder)
    → IsRecorded outcome e rec (write_exchange outcome e rec)
write_exchange-IsRecorded wrote e rec = record {
  next_number = refl;
  own_file = put_capture-same (suc rec.count) (some e) rec.files;
  other_files = λ k. put_capture-other k (suc rec.count) (some e) rec.files;
}
write_exchange-IsRecorded untouched e rec = record {
  next_number = refl;
  own_file = refl;
  other_files = λ k ne. refl;
}
write_exchange-IsRecorded cut_short e rec = record {
  next_number = refl;
  own_file = put_capture-same (suc rec.count) none rec.files;
  other_files = λ k. put_capture-other k (suc rec.count) none rec.files;
}

-- Behind a capture.
abbrev pub IsCaptured :
    (Bytes → Bool) → WriteOutcome → Request → Response → Option Recorder → Option Recorder → Type 0
IsCaptured valid outcome r answer none after = after ≡ none
IsCaptured valid outcome r answer (some before) after =
    (now : Recorder) × (after ≡ some now)
    × IsRecorded outcome (exchange_of valid r answer) before now

cut_request_whole :
    (o : Options) (n : ℕ) (r : Request)
    → o.max_request_bytes ≡ pos n
    → length r.body ≤ n
    → cut_request o r ≡ r
cut_request_whole o n r limit fits =
    ap (λ b. record r { body = b }) (ap (λ l. limited l r.body) limit ∙ take-all n r.body fits)

-- If the body of a request is within the limit of the hub, then a handler answers it and leaves the
-- state as it does without the recorder. A recorder counts the exchange, the file of the new number has it
-- if the write succeeds, and the files of all other numbers are as they were. A file of that number from
-- an earlier run is lost.
pub record_with-IsCaptured :
    {S : Type 0} (valid : Bytes → Bool) (outcome : WriteOutcome) (o : Options)
    (next : Request → S → S × Response) (r : Request) (recorder : Option Recorder) (s : S) (n : ℕ)
    → o.max_request_bytes ≡ pos n
    → length r.body ≤ n
    → ((record_with valid outcome o next r (recorder, s)).0.1 ≡ (next r s).0)
      × ((record_with valid outcome o next r (recorder, s)).1 ≡ (next r s).1)
      × IsCaptured valid outcome r
          (next r s).1
          recorder
          (record_with valid outcome o next r (recorder, s)).0.0
unfolding record_with
record_with-IsCaptured valid outcome o next r none s n limit fits = (refl, refl, refl)
record_with-IsCaptured valid outcome o next r (some rec) s n limit fits =
    let as_if : Request → Type 0 = λ q.
      ((captured valid outcome q rec (next q s)).0.1 ≡ (next r s).0)
      × ((captured valid outcome q rec (next q s)).1 ≡ (next r s).1)
      × IsCaptured valid outcome r (next r s).1 (some rec)
          (captured valid outcome q rec (next q s)).0.0 in
    let e : Exchange = exchange_of valid r (next r s).1 in
    subst as_if (sym (cut_request_whole o n r limit fits))
      (refl, refl, (write_exchange outcome e rec, refl, write_exchange-IsRecorded outcome e rec))

-- The directory or one above it has an entry `.git`, and none between them has.
pub data IsInside (has_git : DirPath → Bool) : DirPath → Option DirPath → Type 0 where
  inside : (dir : DirPath) → has_git dir ≡ true → IsInside has_git dir (some dir)
  above :
      (name : Bytes) (parent : DirPath) (found : Option DirPath)
      → has_git (name ∷ parent) ≡ false
      → IsInside has_git parent found
      → IsInside has_git (name ∷ parent) found
  nowhere : has_git [] ≡ false → IsInside has_git [] none

pub inside_git_work_tree-IsInside :
    (has_git : DirPath → Bool) (dir : DirPath)
    → IsInside has_git dir (inside_git_work_tree has_git dir)
unfolding inside_git_work_tree
inside_git_work_tree-IsInside has_git [] =
    if-keeps (IsInside has_git []) (has_git []) _ _ (λ here. inside [] here)
      (λ none_. nowhere none_)
inside_git_work_tree-IsInside has_git (name ∷ parent) =
    if-keeps (IsInside has_git (name ∷ parent)) (has_git (name ∷ parent)) _ _
      (λ here. inside (name ∷ parent) here)
      (λ free. above name parent _ free (inside_git_work_tree-IsInside has_git parent))
