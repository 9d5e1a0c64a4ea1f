-- ===== src/Proto/Unquote/Length.antt =====
-- How long a literal is, against the text that it spells.
use claude_mem_lan_sync.Prelude.{
  ℕ, zero, suc, ◌+◌, ◌-◌, ◌*◌, ◌≤◌, ◌<◌, ◌≡◌, refl, ap, [], ◌∷◌, ◌++◌, Option, none, some, arith,
  ◌==◌, Bytes, ok, >>=-eq-ok, length, length-append, take, Bool-cases, inl, inr,
}
use claude_mem_lan_sync.Proto.Unquote.{
  append_rune, rune_error, sequence_size, raw_piece, unit_piece, paired, combined, second_unit,
  surrogate_pair, hex4, is_surrogate, letter_piece, letter_escape, escape_piece, piece,
  unquote_loop, put_before, before_quote, between_quotes, unquoted, unquote_json_string,
}

-- A piece takes some of the literal, at most six bytes for each byte of text.
record IsFair (p : Bytes) (size : ℕ) : Type 0 where
  taken : 0 < size
  fair : size ≤ 6 * length p

append_rune-length : (r : ℕ) → 0 < length (append_rune r)
unfolding append_rune
append_rune-length r = ground arith

surrogate_pair-length : (r1 r2 r : ℕ) → surrogate_pair r1 r2 ≡ some r → 2 ≤ length (append_rune r)
unfolding append_rune
surrogate_pair-length r1 r2 r h = ground arith

combined-length : (r1 r : ℕ) (o : Option ℕ) → combined r1 o ≡ some r → 2 ≤ length (append_rune r)
combined-length r1 r none h = cc
combined-length r1 r (some r2) h = surrogate_pair-length r1 r2 r h

paired-IsFair :
    (o : Option ℕ) (p : Bytes) (size : ℕ)
    → ((r : ℕ) → o ≡ some r → 2 ≤ length (append_rune r))
    → paired o ≡ ok (p, size)
    → IsFair p size
paired-IsFair none p size long h = ground (arith, append_rune-length rune_error)
paired-IsFair (some r) p size long h = ground (arith, long r refl)

unit_piece-IsFair :
    (s : Bytes) (o : Option ℕ) (p : Bytes) (size : ℕ)
    → unit_piece s o ≡ ok (p, size)
    → IsFair p size
unit_piece-IsFair s none p size h = cc
unit_piece-IsFair s (some r1) p size h = elim (Bool-cases (is_surrogate r1)) [
  | inl e ↦
      paired-IsFair (combined r1 (second_unit s)) p size (λ r. combined-length r1 r (second_unit s))
        (rw e at h)
  | inr e ↦ ground (arith, append_rune-length r1)
]

letter_piece-IsFair :
    (o : Option ℕ) (p : Bytes) (size : ℕ) → letter_piece o ≡ ok (p, size) → IsFair p size
letter_piece-IsFair none p size h = cc
letter_piece-IsFair (some c) p size h = ground arith

escape_piece-IsFair :
    (s : Bytes) (p : Bytes) (size : ℕ) → escape_piece s ≡ ok (p, size) → IsFair p size
escape_piece-IsFair [] p size h = cc
escape_piece-IsFair (e ∷ s) p size h = elim (Bool-cases (e == b'u')) [
  | inl u ↦ unit_piece-IsFair s (hex4 s) p size (rw u at h)
  | inr l ↦ letter_piece-IsFair (letter_escape e) p size (rw l at h)
]

sequence_size-le :
    (c : ℕ) (s : Bytes) → sequence_size c s ≤ length (take (sequence_size c s) (c ∷ s))
unfolding sequence_size
sequence_size-le c [] = ground arith
sequence_size-le c (d ∷ []) = ground arith
sequence_size-le c (d ∷ e ∷ []) = ground arith
sequence_size-le c (d ∷ e ∷ f ∷ s) = ground arith

raw_piece-IsFair : (c : ℕ) (s p : Bytes) (size : ℕ) → raw_piece c s ≡ ok (p, size) → IsFair p size
raw_piece-IsFair c s p size h = ground (arith, sequence_size-le c s, append_rune-length rune_error)

piece-IsFair : (c : ℕ) (s p : Bytes) (size : ℕ) → piece c s ≡ ok (p, size) → IsFair p size
unfolding piece
piece-IsFair c s p size h =
    ground (arith, escape_piece-IsFair s p size, raw_piece-IsFair c s p size)

unquote_loop-length :
    (skip : ℕ) (s out : Bytes) → unquote_loop skip s ≡ ok out → length s ≤ 6 * length out + skip
unfolding unquote_loop
unquote_loop-length skip [] out h = omega arith
unquote_loop-length (suc skip) (c ∷ s) out h = omega (arith, unquote_loop-length skip s out h)
unquote_loop-length zero (c ∷ s) out h =
    let ((p, size), taken, h1) = >>=-eq-ok (piece c s) _ h in
    let (out', rest, h2) = >>=-eq-ok (unquote_loop (size - 1) s) _ h1 in
    let same : out ≡ p ++ out' = cc in
    let fair = piece-IsFair c s p size taken in
    omega (arith, unquote_loop-length (size - 1) s out' rest, ap length same, length-append p out')

put_before-eq-some :
    (c : ℕ) (o : Option Bytes) (inner : Bytes)
    → put_before c o ≡ some inner
    → (t : Bytes) × (o ≡ some t) × (inner ≡ c ∷ t)
put_before-eq-some c none inner h = cc
put_before-eq-some c (some t) inner h = (t, refl, cc)

before_quote-length :
    (s inner : Bytes) → before_quote s ≡ some inner → length s ≡ suc (length inner)
unfolding before_quote
before_quote-length [] inner h = cc
before_quote-length (c ∷ []) inner h = ground arith
before_quote-length (c ∷ d ∷ s) inner h =
    let (t, found, same) = put_before-eq-some c (before_quote (d ∷ s)) inner h in
    omega (arith, before_quote-length (d ∷ s) t found, ap length same)

between_quotes-length :
    (literal inner : Bytes)
    → between_quotes literal ≡ some inner
    → length literal ≡ length inner + 2
between_quotes-length [] inner h = cc
between_quotes-length (c ∷ s) inner h = ground (arith, before_quote-length s inner)

unquoted-eq-ok :
    (o : Option Bytes) (out : Bytes)
    → unquoted o ≡ ok out
    → (inner : Bytes) × (o ≡ some inner) × (unquote_loop zero inner ≡ ok out)
unquoted-eq-ok none out h = cc
unquoted-eq-ok (some inner) out h = (inner, refl, h)

-- A literal that spells a text of `n` bytes has at most `6 * n + 2` bytes: the limit on the literal
-- refuses no text that the limit on the body accepts.
pub unquote_json_string-length :
    (literal out : Bytes)
    → unquote_json_string literal ≡ ok out
    → length literal ≤ 6 * length out + 2
unfolding unquote_json_string
unquote_json_string-length literal out h =
    let (inner, at, spells) = unquoted-eq-ok (between_quotes literal) out h in
    omega (arith, between_quotes-length literal inner at, unquote_loop-length zero inner out spells)
