-- ===== src/Proto/Fields.antt =====
-- `objectFields` of internal/proto/wrapper.go: the fields of a JSON object, no key twice.
pub mod Rounds
pub mod Fuel
pub mod Distinct
use claude_mem_lan_sync.Prelude.{
  ℕ, zero, suc, ◌+◌, ◌≤◌, ◌<◌, ◌≡◌, ◌≢◌, refl, ap, Bool, true, false, List, [], ◌∷◌, ◌++◌, Option,
  none, some, if◌then◌else◌, ◌==◌, Bytes, bytes_eq, length, arith,
}
use claude_mem_lan_sync.Proto.Json.{next_value, skip_space, unmarshal_string}

abbrev pub Fields : Type 0
Fields = List (Bytes × Bytes)

-- `fields[key]`
unfoldable pub field : Fields → Bytes → Option Bytes
field [] key = none
field ((k, raw) ∷ fields) key = if bytes_eq k key then some raw else field fields key

abbrev pub is_some {ℓ} : {A : Type ℓ} → Option A → Bool
is_some none = false
is_some (some _) = true

-- Trailing bytes other than spaces are refused.
abbrev pub at_eof : Bytes → Fields → Option Fields
at_eof [] fields = some fields
at_eof (_ ∷ _) fields = none

-- The token of a key, which is a string, and what is behind it.
abbrev pub before : Bytes → Option Bytes → Option (Bytes × Bytes)
before rest none = none
before rest (some key) = some (key, rest)

abbrev pub decoded : Option (Bytes × Bytes) → Option (Bytes × Bytes)
decoded none = none
decoded (some (raw, rest)) = before rest (unmarshal_string raw)

abbrev pub next_key : Bytes → Option (Bytes × Bytes)
next_key [] = none
next_key (c ∷ s) = if c == b'"' then decoded (next_value (c ∷ s)) else none

-- A colon and a value.
abbrev pub colon_value : Bytes → Option (Bytes × Bytes)
colon_value [] = none
colon_value (c ∷ s) = if c == b':' then next_value s else none

abbrev pub added : Fields → Bytes → Option (Bytes × Bytes) → Option (Fields × Bytes)
added fields key none = none
added fields key (some (raw, rest)) = some (fields ++ (key, raw) ∷ [], rest)

-- A key that is new and its value, and what is behind them.
abbrev pub keyed : Fields → Option (Bytes × Bytes) → Option (Fields × Bytes)
keyed fields none = none
keyed fields (some (key, s)) =
    if is_some (field fields key) then none else added fields key (colon_value (skip_space s))

-- What a round of the loop finds.
pub data Round : Type 0 where
  refused : Round
  closed : Bytes → Round
  another : Fields → Bytes → Round

abbrev pub round_of : Option (Fields × Bytes) → Round
round_of none = refused
round_of (some (fields, rest)) = another fields rest

abbrev pub key_round : Fields → Bytes → Round
key_round fields s = round_of (keyed fields (next_key s))

-- `dec.More()` and the tokens of a field; from the second field on a comma comes first.
abbrev pub round : Bool → Fields → Bytes → Round
round first fields [] = refused
round first fields (c ∷ s) =
    if c == b'}'
    then closed s
    else if first
    then key_round fields (c ∷ s)
    else if c == b','
    then key_round fields (skip_space s)
    else refused

abbrev pub turn : Fields → (Fields → Bytes → Option Fields) → Round → Option Fields
turn fields next refused = none
turn fields next (closed rest) = at_eof (skip_space rest) fields
turn fields next (another fields' rest) = next fields' rest

-- The loop, on fuel.
unfoldable pub fields_loop : ℕ → Bool → Fields → Bytes → Option Fields
fields_loop zero first fields s = none
fields_loop (suc fuel) first fields s =
    turn fields (λ fields' rest. fields_loop fuel false fields' rest)
      (round first fields (skip_space s))

abbrev pub opened_fields : Bytes → Option Fields
opened_fields [] = none
opened_fields (c ∷ s) = if c == b'{' then fields_loop (suc (length s)) true [] s else none

-- Each field takes a byte at least, so a round for each byte is enough.
unfoldable pub object_fields : Bytes → Option Fields
object_fields data_ = opened_fields (skip_space data_)
