-- ===== src/Client/Backfill/Baseline.antt =====
-- The launch baseline through backfills and their undo.
use claude_mem_lan_sync.Prelude.{
  ◌≡◌, ◌⊎◌, inl, inr, refl, sym, ◌∙◌, Bool, true, false, not, ◌&&◌, List, [], ◌∷◌, ◌++◌, Option,
  none, some, if◌then◌else◌, Bytes, bytes_eq, bytes_eq→eq, Bool-cases, arith,
}
use claude_mem_lan_sync.Client.Database.{Table, Exclusion, Database, is_null}
use claude_mem_lan_sync.Client.Select.{BackfillOpts}
use claude_mem_lan_sync.Client.Exclusions.{
  through_rev, insert_if_new, insert_or_ignore, keep_if, undo_rows,
}
use claude_mem_lan_sync.Client.Backfill.{covers, requeued}

abbrev pub first_of : Option Bytes → Option Bytes → Option Bytes
first_of none b = b
first_of (some a) b = some a

through_rev-append :
    (es : List Exclusion) (e : Exclusion) (kind id : Bytes)
    → through_rev (es ++ e ∷ []) kind id
      ≡ first_of (through_rev es kind id) (through_rev (e ∷ []) kind id)
unfolding through_rev
through_rev-append [] e kind id = refl
through_rev-append (x ∷ es) e kind id =
    elim (Bool-cases (bytes_eq x.kind kind && bytes_eq x.origin_local_id id)) [
      | inl here ↦ rw here refl
      | inr past ↦ rw past (through_rev-append es e kind id)
    ]

pub first_of_absorbs : (a b : Option Bytes) → (is_null a ≡ true → b ≡ none) → a ≡ first_of a b
first_of_absorbs none b h = sym (h refl)
first_of_absorbs (some a) b h = refl

first_of_assoc : (a b c : Option Bytes) → first_of (first_of a b) c ≡ first_of a (first_of b c)
first_of_assoc none b c = refl
first_of_assoc (some a) b c = refl

-- A row that is there already hides a new one of its key.
hidden :
    (es : List Exclusion) (e : Exclusion) (kind id : Bytes)
    → is_null (through_rev es e.kind e.origin_local_id) ≡ false
    → is_null (through_rev es kind id) ≡ true
    → through_rev (e ∷ []) kind id ≡ none
unfolding through_rev
hidden es e kind id there absent =
    elim (Bool-cases (bytes_eq e.kind kind && bytes_eq e.origin_local_id id)) [
      | inr apart ↦ rw apart refl
      | inl same ↦
          let kinds : e.kind ≡ kind = bytes_eq→eq e.kind kind (ground arith) in
          let ids : e.origin_local_id ≡ id = bytes_eq→eq e.origin_local_id id (ground arith) in cc
    ]

through_rev-insert_if_new :
    (es : List Exclusion) (e : Exclusion) (kind id : Bytes)
    → through_rev (insert_if_new es e) kind id
      ≡ first_of (through_rev es kind id) (through_rev (e ∷ []) kind id)
through_rev-insert_if_new es e kind id =
    elim (Bool-cases (is_null (through_rev es e.kind e.origin_local_id))) [
      | inl new ↦ rw new (through_rev-append es e kind id)
      | inr there ↦ rw there (
          first_of_absorbs (through_rev es kind id) (through_rev (e ∷ []) kind id)
            (hidden es e kind id there))
    ]

through_rev-cons :
    (e : Exclusion) (es : List Exclusion) (kind id : Bytes)
    → through_rev (e ∷ es) kind id
      ≡ first_of (through_rev (e ∷ []) kind id) (through_rev es kind id)
unfolding through_rev
through_rev-cons e es kind id =
    elim (Bool-cases (bytes_eq e.kind kind && bytes_eq e.origin_local_id id)) [
      | inl here ↦ rw here refl
      | inr past ↦ rw past refl
    ]

-- What is inserted is found where nothing was.
pub through_rev-insert_or_ignore :
    (es more : List Exclusion) (kind id : Bytes)
    → through_rev (insert_or_ignore es more) kind id
      ≡ first_of (through_rev es kind id) (through_rev more kind id)
unfolding insert_or_ignore through_rev
through_rev-insert_or_ignore es [] kind id =
    first_of_absorbs (through_rev es kind id) none (λ _. refl)
through_rev-insert_or_ignore es (e ∷ more) kind id =
    through_rev-insert_or_ignore (insert_if_new es e) more kind id
    ∙ rw (through_rev-insert_if_new es e kind id, through_rev-cons e more kind id)
        (first_of_assoc (through_rev es kind id) (through_rev (e ∷ []) kind id)
          (through_rev more kind id))

through_rev-keep_if :
    (p : Bytes → Bytes → Bool) (es : List Exclusion) (kind id : Bytes)
    → through_rev (keep_if p es) kind id ≡ (if p kind id then through_rev es kind id else none)
unfolding through_rev keep_if
through_rev-keep_if p [] kind id = elim (Bool-cases (p kind id)) [
  | inl e ↦ rw e refl
  | inr e ↦ rw e refl
]
through_rev-keep_if p (x ∷ es) kind id =
    elim (Bool-cases (bytes_eq x.kind kind && bytes_eq x.origin_local_id id)) [
      | inl here ↦
          let kinds : x.kind ≡ kind = bytes_eq→eq x.kind kind (ground arith) in
          let ids : x.origin_local_id ≡ id = bytes_eq→eq x.origin_local_id id (ground arith) in
          elim (Bool-cases (p kind id)) [
            | inl kept ↦ rw (kinds, ids, kept) (ground arith)
            | inr cut ↦ rw (kinds, ids, cut) (through_rev-keep_if p es kind id ∙ rw cut refl)
          ]
      | inr past ↦ elim (Bool-cases (p x.kind x.origin_local_id)) [
        | inl kept ↦ rw (kept, past) (through_rev-keep_if p es kind id)
        | inr cut ↦ rw (cut, past) (through_rev-keep_if p es kind id)
      ]
    ]

-- Each key of the baseline stands in one of the two tables, with the revision that it had.
abbrev pub IsSplit : (Bytes → Bytes → Option Bytes) → Database → Type 0
IsSplit before db =
    (kind id : Bytes)
    → ((through_rev db.launch_exclusions kind id ≡ before kind id)
        × (through_rev (undo_rows db.undo_table) kind id ≡ none))
      ⊎ ((through_rev db.launch_exclusions kind id ≡ none)
          × (through_rev (undo_rows db.undo_table) kind id ≡ before kind id))

module _ (before : Bytes → Bytes → Option Bytes) where
  pub requeued-IsSplit :
      (o : BackfillOpts) (t : Table) (db : Database)
      → IsSplit before db
      → IsSplit before (requeued o t db)
  requeued-IsSplit o t db split kind id =
      let left =
        through_rev-keep_if (λ k i. not (covers o db t k i)) db.launch_exclusions kind id in
      let undo =
        through_rev-insert_or_ignore (undo_rows db.undo_table)
          (keep_if (covers o db t) db.launch_exclusions) kind id in
      let moved = through_rev-keep_if (covers o db t) db.launch_exclusions kind id in
      elim (split kind id) [
        | inl (there, absent) ↦ elim (Bool-cases (covers o db t kind id)) [
          | inl c ↦ inr (left ∙ rw c refl, undo ∙ rw (absent, moved, c) there)
          | inr c ↦ inl (left ∙ rw c there, undo ∙ rw (absent, moved, c) refl)
        ]
        | inr (gone, kept) ↦ elim (Bool-cases (covers o db t kind id)) [
          | inl c ↦ inr (
            left ∙ rw c refl,
            undo
                ∙ rw (kept, moved, c, gone)
                    (sym (first_of_absorbs (before kind id) none (λ _. refl))),
          )
          | inr c ↦ inr (
            left ∙ rw c gone,
            undo ∙ rw (kept, moved, c) (sym (first_of_absorbs (before kind id) none (λ _. refl))),
          )
        ]
      ]
