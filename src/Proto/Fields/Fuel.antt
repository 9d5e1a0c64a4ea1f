-- ===== src/Proto/Fields/Fuel.antt =====
-- The loop of `objectFields` ends, and the fuel of its model is enough.
use claude_mem_lan_sync.Prelude.{
  ℕ, zero, suc, ◌<◌, ◌≡◌, ◌≢◌, refl, Bool, true, false, [], ◌∷◌, Option, none, Bytes, length, arith,
  if-keeps, ◌==◌,
}
use claude_mem_lan_sync.Proto.Json.{skip_space}
use claude_mem_lan_sync.Proto.Fields.{
  Fields, turn, Round, refused, closed, another, round, at_eof, fields_loop, opened_fields,
  object_fields,
}
use claude_mem_lan_sync.Proto.Fields.Rounds.{round-IsTaken, skip_space-le}

-- A run of the loop, without fuel: it has a result when a round is refused, or finds the closing brace; a
-- round that finds another field is followed by the run on what is left, which is shorter.
pub data Runs : Bool → Fields → Bytes → Option Fields → Type 0 where
  refuses :
      {first : Bool} {fields : Fields} {s : Bytes}
      → round first fields (skip_space s) ≡ refused
      → Runs first fields s none
  closes :
      {first : Bool} {fields : Fields} {s : Bytes} (rest : Bytes)
      → round first fields (skip_space s) ≡ closed rest
      → Runs first fields s (at_eof (skip_space rest) fields)
  goes_on :
      {first : Bool} {fields : Fields} {s : Bytes} {out : Option Fields} (fields' : Fields)
      (rest : Bytes)
      → round first fields (skip_space s) ≡ another fields' rest
      → length rest < length s
      → Runs false fields' rest out
      → Runs first fields s out

-- The result for an input: none without an opening brace, and else that of the run behind it.
pub data RunsOn (s : Bytes) : Option Fields → Type 0 where
  unopened : ((rest : Bytes) → skip_space s ≢ b'{' ∷ rest) → RunsOn s none
  opened :
      {out : Option Fields} (rest : Bytes)
      → skip_space s ≡ b'{' ∷ rest
      → Runs true [] rest out
      → RunsOn s out

turn-Runs :
    (first : Bool) (fields : Fields) (s : Bytes) (next : Fields → Bytes → Option Fields) (r : Round)
    → round first fields (skip_space s) ≡ r
    → ((fields' : Fields) (rest : Bytes)
        → length rest < length s
        → Runs false fields' rest (next fields' rest))
    → Runs first fields s (turn fields next r)
turn-Runs first fields s next refused e follow = refuses e
turn-Runs first fields s next (closed rest) e follow = closes rest e
turn-Runs first fields s next (another fields' rest) e follow =
    let taken = round-IsTaken first fields fields' (skip_space s) rest e in
    let less : length rest < length s = omega (arith, taken.shorter, skip_space-le s) in
    goes_on fields' rest e less (follow fields' rest less)

fields_loop-Runs :
    (n : ℕ) (first : Bool) (fields : Fields) (s : Bytes)
    → length s < n
    → Runs first fields s (fields_loop n first fields s)
unfolding fields_loop
fields_loop-Runs zero first fields s short = absurd (omega arith)
fields_loop-Runs (suc n) first fields s short =
    turn-Runs first fields s (λ fields' rest. fields_loop n false fields' rest)
      (round first fields (skip_space s)) refl
      (λ fields' rest less. fields_loop-Runs n false fields' rest (omega arith))

opened_fields-RunsOn : (s t : Bytes) → skip_space s ≡ t → RunsOn s (opened_fields t)
opened_fields-RunsOn s [] e = unopened (λ rest e'. cc)
opened_fields-RunsOn s (c ∷ t) e =
    if-keeps (RunsOn s) (c == b'{') _ _
      (λ brace.
        let same : c ≡ b'{' = ground arith in
        opened t (rw (← same) e) (fields_loop-Runs (suc (length t)) true [] t (omega arith)))
      (λ other. unopened (λ rest e'. let same : c ≡ b'{' = cc in ground arith))

-- `objectFields` ends on every input: its loop has a run that ends by a refusal or at the closing brace,
-- each round that goes on leaves a shorter input, and the result is that of the run.
pub object_fields-RunsOn : (s : Bytes) → RunsOn s (object_fields s)
unfolding object_fields
object_fields-RunsOn s = opened_fields-RunsOn s (skip_space s) refl
