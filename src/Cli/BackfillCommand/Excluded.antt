-- ===== src/Cli/BackfillCommand/Excluded.antt =====
-- A project that the settings exclude is not queued.
use claude_mem_lan_sync.Prelude.{
  ℕ, ◌≡◌, ◌≢◌, refl, ap, sym, ◌∙◌, not, Bool, true, false, List, [], ◌∷◌, ◌++◌, Option, some, Bytes,
  is_empty, trim_space, All, get_elem?, inr, if-keeps, Result, ok, err,
}
use claude_mem_lan_sync.Proto.Fields.{Fields}
use claude_mem_lan_sync.Settings.{value}
use claude_mem_lan_sync.Client.Database.{Table, Row}
use claude_mem_lan_sync.Client.Select.{BackfillOpts, project_of, or_empty}
use claude_mem_lan_sync.Client.Backfill.{BackfillError, BackfillResult, ClientEnv, Disk, backfill}
use claude_mem_lan_sync.Client.Backfill.Scope.{backfill-IsProtected}
use claude_mem_lan_sync.Cli.BackfillCommand.{
  key_excluded_projects, trim_parts, opens_array, listed_projects, BackfillFlags, BackfillRun,
  counted_run, backfill_opts, run_backfill,
}
use claude_mem_lan_sync.Cli.BackfillCommand.Blank.{join_commas_present}
use claude_mem_lan_sync.Cli.BackfillCommand.Split.{
  is_part, join_commas, split_commas-join_commas, trim_space_again,
}

-- The text is in the list.
abbrev pub IsListed : Bytes → List Bytes → Type 0
IsListed s ss = (before behind : List Bytes) × (ss ≡ before ++ s ∷ behind)

is_empty→eq : (s : Bytes) → is_empty s ≡ true → s ≡ []
is_empty→eq [] h = refl
is_empty→eq (c ∷ s) h = absurd cc

trim_parts-IsListed :
    (before behind : List Bytes) (part : Bytes)
    → trim_space part ≢ []
    → IsListed (trim_space part) (trim_parts (before ++ part ∷ behind))
unfolding trim_parts
trim_parts-IsListed [] behind part named =
    if-keeps (IsListed (trim_space part)) (is_empty (trim_space part)) _ _
      (λ empty. absurd (named (is_empty→eq _ empty))) (λ _. ([], trim_parts behind, refl))
trim_parts-IsListed (p ∷ before) behind part named =
    let (b, a, e) = trim_parts-IsListed before behind part named in
    if-keeps (IsListed (trim_space part)) (is_empty (trim_space p)) _ _ (λ _. (b, a, e))
      (λ _. (trim_space p ∷ b, a, ap (λ ps. trim_space p ∷ ps) e))

listed_projects-IsListed :
    (decode_array : Bytes → Option (List Bytes)) (first : Bytes) (parts before behind : List Bytes)
    (part : Bytes)
    → All (λ p. is_part p ≡ true) (first ∷ parts)
    → first ∷ parts ≡ before ++ part ∷ behind
    → trim_space part ≢ []
    → opens_array (trim_space (join_commas first parts)) ≡ false
    → is_empty (trim_space (join_commas first parts)) ≡ false
    → IsListed (trim_space part) (listed_projects decode_array (join_commas first parts))
unfolding listed_projects
listed_projects-IsListed decode_array first parts before behind part plain here named comma
      present =
    rw (present, comma, split_commas-join_commas first parts plain, here)
      (trim_parts-IsListed before behind part named)

counted_run_disk :
    (o : BackfillOpts) (out : Disk × Result BackfillError BackfillResult)
    → (counted_run o out).disk ≡ out.0
counted_run_disk o (d, err e) = refl
counted_run_disk o (d, ok res) = refl

-- If the settings exclude projects in a list with commas, then a backfill leaves the rows of each
-- project in the list as they are and in their places, whatever fails and whatever the flags are, unless
-- it is an undo. The names are compared without the spaces around them.
pub run_backfill-IsExcluded :
    (decode_array : Bytes → Option (List Bytes)) (settings : Fields) (opens : Bool)
    (env : ClientEnv) (flags : BackfillFlags) (d : Disk) (first : Bytes)
    (parts before behind : List Bytes) (part : Bytes) (t : Table) (i : ℕ) (r : Row)
    → flags.undo ≡ false
    → value settings key_excluded_projects ≡ join_commas first parts
    → All (λ p. is_part p ≡ true) (first ∷ parts)
    → first ∷ parts ≡ before ++ part ∷ behind
    → trim_space part ≢ []
    → opens_array (trim_space (join_commas first parts)) ≡ false
    → get_elem? (d.db.rows t) i ≡ some r
    → or_empty (project_of d.db t r) ≡ trim_space part
    → get_elem? ((run_backfill decode_array (some settings) opens env flags d).disk.db.rows t) i
      ≡ some r
unfolding run_backfill
run_backfill-IsExcluded decode_array settings opens env flags d first parts before behind part t i r
      queues says plain listed named comma here excluded =
    let present = join_commas_present first parts before behind part listed named in
    let (b, a, in_list) =
      listed_projects-IsListed decode_array first parts before behind part plain listed named comma
        present in
    let o : BackfillOpts = backfill_opts decode_array (some settings) flags in
    let known : o.excluded_projects ≡ b ++ trim_space part ∷ a =
      ap (listed_projects decode_array) says ∙ in_list in
    if-keeps (λ (run : BackfillRun). get_elem? (run.disk.db.rows t) i ≡ some r) (not opens) _ _
      (λ _. here)
      λ _.
        if-keeps (λ (run : BackfillRun). get_elem? (run.disk.db.rows t) i ≡ some r) flags.undo _ _
          (λ undoes. absurd cc)
          λ _.
            ap (λ (disk : Disk). get_elem? (disk.db.rows t) i)
              (counted_run_disk o (backfill env o d))
            ∙ backfill-IsProtected env o d t i r here (
                inr (
                  inr (
                    b,
                    a,
                    trim_space part,
                    known,
                    λ e. named (sym (trim_space_again part) ∙ e),
                    excluded ∙ sym (trim_space_again part),
                  )))
