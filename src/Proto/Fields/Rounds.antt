-- ===== src/Proto/Fields/Rounds.antt =====
-- The rounds of the loop of `objectFields`: each that goes on takes a new key and leaves a shorter input.
use claude_mem_lan_sync.Prelude.{
  ℕ, ◌≤◌, ◌<◌, ◌≡◌, refl, ap, Bool, true, false, List, [], ◌∷◌, ◌++◌, Option, none, some, Bytes,
  length, length-append, arith,
}
use claude_mem_lan_sync.Proto.Json.{
  Scan, Frame, Move, on, ends, bad, step, at_end, resume, with_byte, scan, begin_value, skip_space,
  next_value, unmarshal_string,
}
use claude_mem_lan_sync.Proto.Fields.{
  Fields, field, is_some, before, added, decoded, next_key, colon_value, keyed, another, round_of,
  key_round, round,
}

with_byte-eq-some :
    (c : ℕ) (o : Option (Bytes × Bytes)) (raw rest : Bytes)
    → with_byte c o ≡ some (raw, rest)
    → (raw' : Bytes) × (o ≡ some (raw', rest)) × (raw ≡ c ∷ raw')
with_byte-eq-some c none raw rest h = cc
with_byte-eq-some c (some (raw', rest')) raw rest h = (raw', cc, cc)

at_end-eq-some : (m : Move) (raw rest : Bytes) → at_end m ≡ some (raw, rest) → [] ≡ raw ++ rest
at_end-eq-some (on st fs) raw rest h = cc
at_end-eq-some ends raw rest h =
    let no_raw : raw ≡ [] = cc in let no_rest : rest ≡ [] = cc in rw (no_raw, no_rest) refl
at_end-eq-some bad raw rest h = cc

resume-append :
    (c : ℕ) (s : Bytes) (next : Scan → List Frame → Option (Bytes × Bytes)) (m : Move)
    (raw rest : Bytes)
    → ((st : Scan) (fs : List Frame) (raw' rest' : Bytes)
        → next st fs ≡ some (raw', rest')
        → s ≡ raw' ++ rest')
    → resume c s next m ≡ some (raw, rest)
    → c ∷ s ≡ raw ++ rest
resume-append c s next (on st fs) raw rest split h =
    let (raw', found, same) = with_byte-eq-some c (next st fs) raw rest h in
    rw same (ap (λ t. c ∷ t) (split st fs raw' rest found))
resume-append c s next ends raw rest split h =
    let no_raw : raw ≡ [] = cc in let all : rest ≡ c ∷ s = cc in rw (no_raw, all) refl
resume-append c s next bad raw rest split h = cc

-- A scan splits its input.
scan-append :
    (st : Scan) (fs : List Frame) (s raw rest : Bytes)
    → scan st fs s ≡ some (raw, rest)
    → s ≡ raw ++ rest
unfolding scan
scan-append st fs [] raw rest h = at_end-eq-some (step st fs b' ') raw rest h
scan-append st fs (c ∷ s) raw rest h =
    resume-append c s (λ st' fs'. scan st' fs' s) (step st fs c) raw rest
      (λ st' fs' raw' rest' e. scan-append st' fs' s raw' rest' e) h

pub skip_space-le : (s : Bytes) → length (skip_space s) ≤ length s
unfolding skip_space
skip_space-le [] = omega arith
skip_space-le (c ∷ s) = ground (arith, skip_space-le s)

next_value-le : (s raw rest : Bytes) → next_value s ≡ some (raw, rest) → length rest ≤ length s
next_value-le s raw rest h = omega (
  arith,
  ap length (scan-append begin_value [] (skip_space s) raw rest h),
  length-append raw rest,
  skip_space-le s,
)

before-eq-some :
    (rest : Bytes) (o : Option Bytes) (key rest' : Bytes)
    → before rest o ≡ some (key, rest')
    → rest' ≡ rest
before-eq-some rest none key rest' h = cc
before-eq-some rest (some k) key rest' h = cc

decoded-eq-some :
    (o : Option (Bytes × Bytes)) (key rest : Bytes)
    → decoded o ≡ some (key, rest)
    → (raw : Bytes) × (o ≡ some (raw, rest))
decoded-eq-some none key rest h = cc
decoded-eq-some (some (raw, rest')) key rest h =
    let same = before-eq-some rest' (unmarshal_string raw) key rest h in (raw, cc)

next_key-le : (s key rest : Bytes) → next_key s ≡ some (key, rest) → length rest ≤ length s
next_key-le [] key rest h = cc
next_key-le (c ∷ s) key rest h =
    let read : decoded (next_value (c ∷ s)) ≡ some (key, rest) = ground arith in
    let (raw, found) = decoded-eq-some (next_value (c ∷ s)) key rest read in
    next_value-le (c ∷ s) raw rest found

colon_value-lt : (s raw rest : Bytes) → colon_value s ≡ some (raw, rest) → length rest < length s
colon_value-lt [] raw rest h = cc
colon_value-lt (c ∷ s) raw rest h =
    let read : next_value s ≡ some (raw, rest) = ground arith in
    omega (arith, next_value-le s raw rest read)

-- What a field that is taken adds.
pub record IsTaken (fields fields' : Fields) (s rest : Bytes) : Type 0 where
  pub key : Bytes
  pub raw : Bytes
  pub grown : fields' ≡ fields ++ (key, raw) ∷ []
  pub new : field fields key ≡ none
  pub shorter : length rest < length s

is_some-none {ℓ} : {A : Type ℓ} (o : Option A) → is_some o ≡ false → o ≡ none
is_some-none none h = refl
is_some-none (some a) h = cc

added-IsTaken :
    (fields fields' : Fields) (key s rest : Bytes) (o : Option (Bytes × Bytes))
    → field fields key ≡ none
    → ((raw rest' : Bytes) → o ≡ some (raw, rest') → length rest' < length s)
    → added fields key o ≡ some (fields', rest)
    → IsTaken fields fields' s rest
added-IsTaken fields fields' key s rest none new shorter h = cc
added-IsTaken fields fields' key s rest (some (raw, rest')) new shorter h =
    let same : rest ≡ rest' = cc in
    record {
      key = key;
      raw = raw;
      grown = cc;
      new = new;
      shorter = rw same (shorter raw rest' refl);
    }

keyed-IsTaken :
    (fields fields' : Fields) (key s rest : Bytes)
    → keyed fields (some (key, s)) ≡ some (fields', rest)
    → IsTaken fields fields' s rest
keyed-IsTaken fields fields' key s rest h =
    let new : is_some (field fields key) ≡ false = ground arith in
    added-IsTaken fields fields' key s rest (colon_value (skip_space s))
      (is_some-none (field fields key) new)
      (λ raw rest' e. omega (arith, colon_value-lt (skip_space s) raw rest' e, skip_space-le s))
      (ground arith)

round_of-another :
    (o : Option (Fields × Bytes)) (fields' : Fields) (rest : Bytes)
    → round_of o ≡ another fields' rest
    → o ≡ some (fields', rest)
round_of-another none fields' rest h = cc
round_of-another (some (fields, s)) fields' rest h = cc

next_keyed-IsTaken :
    (fields fields' : Fields) (s rest : Bytes) (o : Option (Bytes × Bytes))
    → ((key rest' : Bytes) → o ≡ some (key, rest') → length rest' ≤ length s)
    → round_of (keyed fields o) ≡ another fields' rest
    → IsTaken fields fields' s rest
next_keyed-IsTaken fields fields' s rest none shrinks h = cc
next_keyed-IsTaken fields fields' s rest (some (key, s')) shrinks h =
    let read = round_of-another (keyed fields (some (key, s'))) fields' rest h in
    let taken = keyed-IsTaken fields fields' key s' rest read in
    record {
      key = taken.key;
      raw = taken.raw;
      grown = taken.grown;
      new = taken.new;
      shorter = omega (arith, taken.shorter, shrinks key s' refl);
    }

key_round-IsTaken :
    (fields fields' : Fields) (s rest : Bytes)
    → key_round fields s ≡ another fields' rest
    → IsTaken fields fields' s rest
key_round-IsTaken fields fields' s rest h =
    next_keyed-IsTaken fields fields' s rest (next_key s) (λ key rest' e. next_key-le s key rest' e)
      h

longer-IsTaken :
    (fields fields' : Fields) (s s' rest : Bytes)
    → length s ≤ length s'
    → IsTaken fields fields' s rest
    → IsTaken fields fields' s' rest
longer-IsTaken fields fields' s s' rest le taken = record {
  key = taken.key;
  raw = taken.raw;
  grown = taken.grown;
  new = taken.new;
  shorter = omega (arith, taken.shorter, le);
}

pub round-IsTaken :
    (first : Bool) (fields fields' : Fields) (s rest : Bytes)
    → round first fields s ≡ another fields' rest
    → IsTaken fields fields' s rest
round-IsTaken first fields fields' [] rest h = cc
round-IsTaken true fields fields' (c ∷ s) rest h =
    key_round-IsTaken fields fields' (c ∷ s) rest (ground arith)
round-IsTaken false fields fields' (c ∷ s) rest h =
    longer-IsTaken fields fields' (skip_space s) (c ∷ s) rest (omega (arith, skip_space-le s))
      (key_round-IsTaken fields fields' (skip_space s) rest (ground arith))
