-- ===== src/Settings/Merge.antt =====
-- What the merged settings say.
use claude_mem_lan_sync.Prelude.{
  ◌≡◌, refl, ◌∙◌, ap, Bool, List, [], ◌∷◌, Option, none, some, if◌then◌else◌, Bytes, bytes_eq,
  bytes_eq→eq, ok, Bool-cases, inl, inr, All, >>=-eq-ok,
}
use claude_mem_lan_sync.Proto.Fields.{Fields, field}
use claude_mem_lan_sync.Proto.Json.{unmarshal_string}
use claude_mem_lan_sync.Settings.{SettingsError, not_encoded, or_error, value, put, merge}

abbrev pub or_text : Option Bytes → Bytes → Bytes
or_text none s = s
or_text (some t) s = t

abbrev or_if : Bool → Bytes → Option Bytes → Option Bytes
or_if here v (some t) = some t
or_if here v none = if here then some v else none

-- The value that is asked for a key, the last one if there are several.
unfoldable pub wanted : List (Bytes × Bytes) → Bytes → Option Bytes
wanted [] key = none
wanted ((k, v) ∷ kv) key = or_if (bytes_eq k key) v (wanted kv key)

pub field-put :
    (key raw : Bytes) (m : Fields) (k : Bytes)
    → field (put key raw m) k ≡ (if bytes_eq key k then some raw else field m k)
unfolding field put
field-put key raw [] k = refl
field-put key raw ((k', r) ∷ m) k = elim (Bool-cases (bytes_eq k' key)) [
  | inl same ↦
      let keys : k' ≡ key = bytes_eq→eq k' key same in
      elim (Bool-cases (bytes_eq key k)) [
        | inl e ↦ rw (same, e, ap (λ x. bytes_eq x k) keys ∙ e) refl
        | inr e ↦ rw (same, e, ap (λ x. bytes_eq x k) keys ∙ e) refl
      ]
  | inr apart ↦ elim (Bool-cases (bytes_eq k' k)) [
    | inr e ↦ rw (apart, e) (field-put key raw m k)
    | inl e ↦
        let keys : k' ≡ k = bytes_eq→eq k' k e in
        elim (Bool-cases (bytes_eq key k)) [
          | inl e' ↦ let k_key : key ≡ k = bytes_eq→eq key k e' in cc
          | inr e' ↦ rw (apart, e, e') refl
        ]
  ]
]

value-put :
    (key raw v : Bytes) (m : Fields) (k : Bytes)
    → unmarshal_string raw ≡ some v
    → value (put key raw m) k ≡ or_text (or_if (bytes_eq key k) v none) (value m k)
unfolding value
value-put key raw v m k reads = elim (Bool-cases (bytes_eq key k)) [
  | inl e ↦ rw (field-put key raw m k, e, reads) refl
  | inr e ↦ rw (field-put key raw m k, e) refl
]

or_text-or_if :
    (here : Bool) (v s : Bytes) (o : Option Bytes)
    → or_text o (or_text (or_if here v none) s) ≡ or_text (or_if here v o) s
or_text-or_if here v s none = refl
or_text-or_if here v s (some t) = refl

pub or_error-eq-ok :
    {A : Type 0} (e : SettingsError) (o : Option A) (a : A) → or_error e o ≡ ok a → o ≡ some a
or_error-eq-ok e none a h = cc
or_error-eq-ok e (some b) a h = cc

-- What `json.Marshal` writes for a value is read back.
abbrev pub IsReadBack : (Bytes → Option Bytes) → Bytes × Bytes → Type 0
IsReadBack marshal (key, v) = (raw : Bytes) → marshal v ≡ some raw → unmarshal_string raw ≡ some v

pub value-merge :
    (marshal : Bytes → Option Bytes) (m m' : Fields) (kv : List (Bytes × Bytes))
    → All (IsReadBack marshal) kv
    → merge marshal m kv ≡ ok m'
    → (key : Bytes) → value m' key ≡ or_text (wanted kv key) (value m key)
unfolding merge wanted
value-merge marshal m m' [] good h key = let same : m ≡ m' = cc in rw same refl
value-merge marshal m m' ((k, v) ∷ kv) (reads, good) h key =
    let (raw, encoded, rest) = >>=-eq-ok (or_error not_encoded (marshal v)) _ h in
    let stored = or_error-eq-ok not_encoded (marshal v) raw encoded in
    value-merge marshal (put k raw m) m' kv good rest key
    ∙ ap (or_text (wanted kv key)) (value-put k raw v m key (reads raw stored))
    ∙ or_text-or_if (bytes_eq k key) v (value m key) (wanted kv key)
