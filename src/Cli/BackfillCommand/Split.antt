-- ===== src/Cli/BackfillCommand/Split.antt =====
-- A list with commas between its parts is split into these parts, and a trimmed text is trimmed already.
use claude_mem_lan_sync.Prelude.{
  ◌≡◌, refl, Bool, true, not, ◌&&◌, List, [], ◌∷◌, ◌++◌, ◌==◌, Bytes, is_empty, is_space, trim_left,
  trim_right, trim_space, arith, All, Bool-cases, inl, inr, if-keeps,
}
use claude_mem_lan_sync.Cli.BackfillCommand.{split_commas}

-- No comma is in the text.
unfoldable pub is_part : Bytes → Bool
is_part [] = true
is_part (c ∷ s) = not (c == b',') && is_part s

unfoldable pub join_commas : Bytes → List Bytes → Bytes
join_commas part [] = part
join_commas part (next ∷ parts) = part ++ b',' ∷ join_commas next parts

split_commas-part : (part : Bytes) → is_part part ≡ true → split_commas part ≡ part ∷ []
unfolding is_part split_commas
split_commas-part [] h = refl
split_commas-part (c ∷ part) h = elim (Bool-cases (c == b',')) [
  | inl e ↦ absurd (ground arith)
  | inr e ↦
      let later : is_part part ≡ true = ground arith in rw (e, split_commas-part part later) refl
]

split_commas-append :
    (part s : Bytes) → is_part part ≡ true → split_commas (part ++ b',' ∷ s) ≡ part ∷ split_commas s
unfolding is_part split_commas
split_commas-append [] s h = refl
split_commas-append (c ∷ part) s h = elim (Bool-cases (c == b',')) [
  | inl e ↦ absurd (ground arith)
  | inr e ↦
      let later : is_part part ≡ true = ground arith in
      rw (e, split_commas-append part s later) refl
]

pub split_commas-join_commas :
    (part : Bytes) (parts : List Bytes)
    → All (λ p. is_part p ≡ true) (part ∷ parts)
    → split_commas (join_commas part parts) ≡ part ∷ parts
unfolding join_commas
split_commas-join_commas part [] (h, _) = split_commas-part part h
split_commas-join_commas part (next ∷ parts) (h, hs) =
    rw (split_commas-append part (join_commas next parts) h, split_commas-join_commas next parts hs)
      refl

trim_right_again : (s : Bytes) → trim_right (trim_right s) ≡ trim_right s
unfolding trim_right
trim_right_again [] = refl
trim_right_again (c ∷ s) = elim (Bool-cases (is_space c && is_empty (trim_right s))) [
  | inl e ↦ rw e refl
  | inr e ↦ rw e (rw (trim_right_again s, e) refl)
]

-- The text does not begin with a space.
abbrev starts_bare : Bytes → Bool
starts_bare [] = true
starts_bare (c ∷ _) = not (is_space c)

trim_left_bare : (s : Bytes) → starts_bare s ≡ true → trim_left s ≡ s
unfolding trim_left
trim_left_bare [] h = refl
trim_left_bare (c ∷ s) h = ground arith

starts_bare-trim_left : (s : Bytes) → starts_bare (trim_left s) ≡ true
unfolding trim_left
starts_bare-trim_left [] = refl
starts_bare-trim_left (c ∷ s) =
    if-keeps (λ t. starts_bare t ≡ true) (is_space c) _ _ (λ _. starts_bare-trim_left s)
      (λ bare. rw bare refl)

starts_bare-trim_right : (s : Bytes) → starts_bare s ≡ true → starts_bare (trim_right s) ≡ true
unfolding trim_right
starts_bare-trim_right [] h = refl
starts_bare-trim_right (c ∷ s) h =
    if-keeps (λ t. starts_bare t ≡ true) (is_space c && is_empty (trim_right s)) _ _ (λ _. refl)
      (λ _. h)

pub trim_space_again : (s : Bytes) → trim_space (trim_space s) ≡ trim_space s
trim_space_again s =
    rw
      (trim_left_bare (trim_space s)
        (starts_bare-trim_right (trim_left s) (starts_bare-trim_left s)))
      (trim_right_again (trim_left s))
