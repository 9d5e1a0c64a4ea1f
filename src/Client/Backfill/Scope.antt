-- ===== src/Client/Backfill/Scope.antt =====
-- The rows that a backfill leaves alone.
use claude_mem_lan_sync.Prelude.{
  ℕ, zero, suc, ◌≡◌, ◌≢◌, ◌⊎◌, inl, inr, refl, true, false, List, [], ◌∷◌, ◌++◌, map, sym, ap, ◌∙◌,
  Option, none, some, Bytes, bytes_eq, bytes_eq_iff, bytes_eq_refl, Bool-cases, get_elem?, Ensures,
  giving, Ensures-bind, given, trim_space, is_empty, arith,
}
use claude_mem_lan_sync.Client.Database.{
  Table, observations, session_summaries, user_prompts, Row, Database, is_null, same_table,
  sync_tables,
}
use claude_mem_lan_sync.Client.Select.{
  BackfillOpts, project_of, or_empty, equals, not_excluded, filter_for, is_selected,
}
use claude_mem_lan_sync.Client.Backfill.{
  ClientEnv, Disk, begin, create_undo, commit, save, clear, requeue, run, stamped, requeued,
  requeue_all, with_undo_table, backfill_tx, backfill,
}
use claude_mem_lan_sync.Client.Backfill.Keeps.{backfill-keeps}

-- Which rows are selected depends on the sessions only.
pub is_selected_by_sessions :
    (o : BackfillOpts) (db db' : Database) (u : Table) (r : Row)
    → db'.sdk_sessions ≡ db.sdk_sessions
    → is_selected o db' u r ≡ is_selected o db u r
is_selected_by_sessions o db db' observations r e = refl
is_selected_by_sessions o db db' session_summaries r e = refl
is_selected_by_sessions o db db' user_prompts r e = rw e refl

get_elem?-map :
    (f : Row → Row) (rows : List Row) (i : ℕ) (r : Row)
    → get_elem? rows i ≡ some r
    → get_elem? (map f rows) i ≡ some (f r)
get_elem?-map f [] i r h = cc
get_elem?-map f (x ∷ rows) zero r h = cc
get_elem?-map f (x ∷ rows) (suc i) r h = get_elem?-map f rows i r h

same_table→eq : (t u : Table) → same_table t u ≡ true → t ≡ u
same_table→eq observations observations h = refl
same_table→eq observations session_summaries h = cc
same_table→eq observations user_prompts h = cc
same_table→eq session_summaries observations h = cc
same_table→eq session_summaries session_summaries h = refl
same_table→eq session_summaries user_prompts h = cc
same_table→eq user_prompts observations h = cc
same_table→eq user_prompts session_summaries h = cc
same_table→eq user_prompts user_prompts h = refl

module _ (o : BackfillOpts) (u : Table) (i : ℕ) (r : Row) where
  -- The row at a place, which no statement selects.
  abbrev IsSpared : Database → Type 0
  IsSpared db = (get_elem? (db.rows u) i ≡ some r) × (is_selected o db u r ≡ false)

  requeued-IsSpared : (t : Table) (db : Database) → IsSpared db → IsSpared (requeued o t db)
  requeued-IsSpared t db (here, spared) =
      let stays : is_selected o (requeued o t db) u r ≡ false =
        is_selected_by_sessions o db (requeued o t db) u r refl ∙ spared in
      elim (Bool-cases (same_table u t)) [
        | inr other ↦ (rw other here, stays)
        | inl same ↦
            let unstamped : stamped (is_selected o db u) none r ≡ r = rw spared refl in
            (
              rw (same, sym (same_table→eq u t same))
                  (get_elem?-map (stamped (is_selected o db u) none) (db.rows u) i r here
                    ∙ ap some unstamped),
              stays,
            )
      ]

  requeue_all-IsSpared :
      (env : ClientEnv) (db : Database) (ts : List Table)
      → IsSpared db
      → Ensures (λ out. IsSpared out.0) (requeue_all env o db ts)
  unfolding requeue_all
  requeue_all-IsSpared env db [] spared = giving spared
  requeue_all-IsSpared env db (t ∷ ts) spared = Ensures-bind (run env (save t)) λ _ _.
      Ensures-bind (run env (clear t)) λ _ _. Ensures-bind (run env (requeue t)) λ _ _.
        Ensures-bind (requeue_all env o (requeued o t db) ts) λ (db', n) e. giving (
          given (db', n)
            (requeue_all-IsSpared env (requeued o t db) ts (requeued-IsSpared t db spared)) e)

  backfill_tx-IsSpared :
      (env : ClientEnv) (db : Database)
      → IsSpared db
      → Ensures (λ out. IsSpared out.0) (backfill_tx env o db)
  unfolding backfill_tx
  backfill_tx-IsSpared env db spared = Ensures-bind (run env begin) λ _ _.
      Ensures-bind (run env create_undo) λ _ _.
        Ensures-bind (requeue_all env o (with_undo_table db) sync_tables) λ (db', n) e.
          Ensures-bind (run env commit) λ _ _. giving (
            given (db', n)
              (requeue_all-IsSpared env (with_undo_table db) sync_tables
                (spared.0, is_selected_by_sessions o db (with_undo_table db) u r refl ∙ spared.1))
              e)

  backfill-IsSpared :
      (env : ClientEnv) (d : Disk) → IsSpared d.db → IsSpared ((backfill env o d).0.db)
  backfill-IsSpared env d spared =
      backfill-keeps IsSpared env o d spared (backfill_tx-IsSpared env d.db spared)

is_empty→eq : (s : Bytes) → is_empty s ≡ true → s ≡ []
is_empty→eq [] h = refl
is_empty→eq (c ∷ s) h = cc

ne→is_empty : (s : Bytes) → s ≢ [] → is_empty s ≡ false
ne→is_empty [] h = absurd (h refl)
ne→is_empty (c ∷ s) h = refl

not_excluded-member :
    (before behind : List Bytes) (ex : Bytes) (project : Option Bytes)
    → trim_space ex ≢ []
    → or_empty project ≡ trim_space ex
    → not_excluded (before ++ ex ∷ behind) project ≡ false
unfolding not_excluded
not_excluded-member [] behind ex project named same =
    rw (ne→is_empty (trim_space ex) named, same, bytes_eq_refl (trim_space ex)) refl
not_excluded-member (x ∷ before) behind ex project named same =
    ground (arith, not_excluded-member before behind ex project named same)

equals-other : (project : Option Bytes) (s : Bytes) → project ≢ some s → equals project s ≡ false
equals-other none s other = refl
equals-other (some t) s other = elim (Bool-cases (bytes_eq t s)) [
  | inl same ↦ absurd (other (ap some ((bytes_eq_iff t s).0 same)))
  | inr apart ↦ apart
]

is_null-none : (a : Option Bytes) → a ≢ none → is_null a ≡ false
is_null-none none h = absurd (h refl)
is_null-none (some a) h = refl

-- A row of another device, of an excluded project, or of another project than the one asked for.
abbrev pub IsProtected : BackfillOpts → Database → Table → Row → Type 0
IsProtected o db t r =
    (r.origin_device_id ≢ none)
    ⊎ ((o.project ≢ []) × (project_of db t r ≢ some o.project))
    ⊎ ((before behind : List Bytes) × (ex : Bytes) × (o.excluded_projects ≡ before ++ ex ∷ behind)
        × (trim_space ex ≢ [])
        × (or_empty (project_of db t r) ≡ trim_space ex))

protected :
    (o : BackfillOpts) (db : Database) (t : Table) (r : Row)
    → IsProtected o db t r
    → is_selected o db t r ≡ false
unfolding filter_for
protected o db t r (inl remote) = rw (is_null-none r.origin_device_id remote) refl
protected o db t r (inr (inl (asked, other))) =
    ground (arith, ne→is_empty o.project asked, equals-other (project_of db t r) o.project other)
protected o db t r (inr (inr (before, behind, ex, listed, named, same))) =
    let off : not_excluded o.excluded_projects (project_of db t r) ≡ false =
      rw listed (not_excluded-member before behind ex (project_of db t r) named same) in
    ground (arith, off)

-- Whatever fails, a backfill leaves a row as it is, in its place, if the row comes from another device,
-- or is not of the project that is asked for, or is of an excluded project.
pub backfill-IsProtected :
    (env : ClientEnv) (o : BackfillOpts) (d : Disk) (t : Table) (i : ℕ) (r : Row)
    → get_elem? (d.db.rows t) i ≡ some r
    → IsProtected o d.db t r
    → get_elem? ((backfill env o d).0.db.rows t) i ≡ some r
backfill-IsProtected env o d t i r here safe =
    (backfill-IsSpared o t i r env d (here, protected o d.db t r safe)).0
