-- ===== src/Proto/Fields/Distinct.antt =====
-- The keys that `objectFields` returns.
use claude_mem_lan_sync.Prelude.{
  ℕ, zero, suc, ◌≡◌, refl, sym, subst, Bool, true, false, [], ◌∷◌, ◌++◌, Option, none, some, Bytes,
  bytes_eq, length, arith,
}
use claude_mem_lan_sync.Proto.Json.{skip_space}
use claude_mem_lan_sync.Proto.Fields.{
  Fields, field, at_eof, turn, Round, refused, closed, another, round, fields_loop, object_fields,
  opened_fields,
}
use claude_mem_lan_sync.Proto.Fields.Rounds.{IsTaken, round-IsTaken}

-- No key stands twice.
unfoldable pub IsDistinct : Fields → Type 0
IsDistinct [] = Unit {0}
IsDistinct ((k, raw) ∷ fields) = (field fields k ≡ none) × IsDistinct fields

field-none-head :
    (k key raw : Bytes) (fields : Fields)
    → field ((k, raw) ∷ fields) key ≡ none
    → (bytes_eq k key ≡ false) × (field fields key ≡ none)
unfolding field
field-none-head k key raw fields h = (ground arith, ground arith)

bytes_eq-swap : (xs ys : Bytes) → bytes_eq xs ys ≡ false → bytes_eq ys xs ≡ false
unfolding bytes_eq
bytes_eq-swap [] [] h = cc
bytes_eq-swap [] (y ∷ ys) h = refl
bytes_eq-swap (x ∷ xs) [] h = refl
bytes_eq-swap (x ∷ xs) (y ∷ ys) h = ground (arith, bytes_eq-swap xs ys)

field-append-none :
    (fields : Fields) (key raw k : Bytes)
    → field fields k ≡ none
    → bytes_eq key k ≡ false
    → field (fields ++ (key, raw) ∷ []) k ≡ none
unfolding field
field-append-none [] key raw k h other = rw other refl
field-append-none ((k', raw') ∷ fields) key raw k h other =
    let (apart, rest) = field-none-head k' k raw' fields h in
    rw apart (field-append-none fields key raw k rest other)

append-IsDistinct :
    (fields : Fields) (key raw : Bytes)
    → IsDistinct fields
    → field fields key ≡ none
    → IsDistinct (fields ++ (key, raw) ∷ [])
unfolding IsDistinct field
append-IsDistinct [] key raw distinct new = (refl, tt)
append-IsDistinct ((k, raw') ∷ fields) key raw (apart, distinct) new =
    let (other, rest) = field-none-head k key raw' fields new in
    (
      field-append-none fields key raw k apart (bytes_eq-swap k key other),
      append-IsDistinct fields key raw distinct rest,
    )

taken-IsDistinct :
    (fields fields' : Fields) (s rest : Bytes)
    → IsDistinct fields
    → IsTaken fields fields' s rest
    → IsDistinct fields'
taken-IsDistinct fields fields' s rest distinct taken =
    subst (λ fs. IsDistinct fs) (sym (taken.grown))
      (append-IsDistinct fields (taken.key) (taken.raw) distinct (taken.new))

at_eof-same : (s : Bytes) (fields result : Fields) → at_eof s fields ≡ some result → fields ≡ result
at_eof-same [] fields result h = cc
at_eof-same (c ∷ s) fields result h = cc

turn-IsDistinct :
    (fields result : Fields) (next : Fields → Bytes → Option Fields) (r : Round)
    → IsDistinct fields
    → ((fields' : Fields) (rest : Bytes)
        → r ≡ another fields' rest
        → next fields' rest ≡ some result
        → IsDistinct result)
    → turn fields next r ≡ some result
    → IsDistinct result
turn-IsDistinct fields result next refused distinct follow h = cc
turn-IsDistinct fields result next (closed rest) distinct follow h =
    subst (λ fs. IsDistinct fs) (at_eof-same (skip_space rest) fields result h) distinct
turn-IsDistinct fields result next (another fields' rest) distinct follow h =
    follow fields' rest refl h

fields_loop-IsDistinct :
    (n : ℕ) (first : Bool) (fields : Fields) (s : Bytes) (result : Fields)
    → IsDistinct fields
    → fields_loop n first fields s ≡ some result
    → IsDistinct result
unfolding fields_loop
fields_loop-IsDistinct zero first fields s result distinct h = cc
fields_loop-IsDistinct (suc n) first fields s result distinct h =
    turn-IsDistinct fields result (λ fields' rest. fields_loop n false fields' rest)
      (round first fields (skip_space s)) distinct
      (λ fields' rest e found.
        fields_loop-IsDistinct n false fields' rest result
          (taken-IsDistinct fields fields' (skip_space s) rest distinct
            (round-IsTaken first fields fields' (skip_space s) rest e))
          found)
      h

opened_fields-IsDistinct :
    (s : Bytes) (fields : Fields) → opened_fields s ≡ some fields → IsDistinct fields
unfolding IsDistinct
opened_fields-IsDistinct [] fields h = cc
opened_fields-IsDistinct (c ∷ s) fields h =
    fields_loop-IsDistinct (suc (length s)) true [] s fields tt (ground arith)

-- The fields that `objectFields` returns have no key twice, whatever the bytes.
pub object_fields-IsDistinct :
    (s : Bytes) (fields : Fields) → object_fields s ≡ some fields → IsDistinct fields
unfolding object_fields
object_fields-IsDistinct s fields h = opened_fields-IsDistinct (skip_space s) fields h
