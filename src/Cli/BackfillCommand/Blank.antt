-- ===== src/Cli/BackfillCommand/Blank.antt =====
-- A list that has a name in it is not blank.
use claude_mem_lan_sync.Prelude.{
  ◌≡◌, ◌≢◌, refl, ap, subst, Bool, true, false, ◌&&◌, List, [], ◌∷◌, ◌++◌, Bytes, is_empty,
  is_space, trim_left, trim_right, trim_space, arith, All, Bool-cases, inl, inr,
}
use claude_mem_lan_sync.Cli.BackfillCommand.Split.{join_commas}

unfoldable all_space : Bytes → Bool
all_space [] = true
all_space (c ∷ s) = is_space c && all_space s

trim_right-all_space : (s : Bytes) → is_empty (trim_right s) ≡ true → all_space s ≡ true
unfolding all_space trim_right
trim_right-all_space [] h = refl
trim_right-all_space (c ∷ s) h = ground (arith, trim_right-all_space s)

trim_left-all_space : (s : Bytes) → all_space (trim_left s) ≡ true → all_space s ≡ true
unfolding all_space trim_left
trim_left-all_space [] h = refl
trim_left-all_space (c ∷ s) h = ground (arith, trim_left-all_space s)

all_space-trim_left : (s : Bytes) → all_space s ≡ true → trim_left s ≡ []
unfolding all_space trim_left
all_space-trim_left [] h = refl
all_space-trim_left (c ∷ s) h = ground (arith, all_space-trim_left s)

all_space-append :
    (s t : Bytes) → all_space (s ++ t) ≡ true → (all_space s ≡ true) × (all_space t ≡ true)
unfolding all_space
all_space-append [] t h = (refl, h)
all_space-append (c ∷ s) t h = ground (arith, all_space-append s t)

all_space-join_commas :
    (first : Bytes) (parts : List Bytes)
    → all_space (join_commas first parts) ≡ true
    → All (λ p. all_space p ≡ true) (first ∷ parts)
unfolding all_space join_commas
all_space-join_commas first [] h = (h, tt)
all_space-join_commas first (next ∷ parts) h =
    let (_, rest) = all_space-append first (b',' ∷ join_commas next parts) h in absurd cc

All_middle :
    (P : Bytes → Type 0) (before behind : List Bytes) (part : Bytes)
    → All P (before ++ part ∷ behind)
    → P part
All_middle P [] behind part (p, _) = p
All_middle P (x ∷ before) behind part (_, ps) = All_middle P before behind part ps

pub join_commas_present :
    (first : Bytes) (parts before behind : List Bytes) (part : Bytes)
    → first ∷ parts ≡ before ++ part ∷ behind
    → trim_space part ≢ []
    → is_empty (trim_space (join_commas first parts)) ≡ false
unfolding trim_right
join_commas_present first parts before behind part listed named =
    elim (Bool-cases (is_empty (trim_space (join_commas first parts)))) [
      | inr e ↦ e
      | inl e ↦
          let raw : Bytes = join_commas first parts in
          let blank = trim_left-all_space raw (trim_right-all_space (trim_left raw) e) in
          let all : All (λ p. all_space p ≡ true) (before ++ part ∷ behind) =
            subst (All (λ p. all_space p ≡ true)) listed
              (all_space-join_commas first parts blank) in
          absurd (
            named (
              ap trim_right (
                all_space-trim_left part
                  (All_middle (λ p. all_space p ≡ true) before behind part all))))
    ]
