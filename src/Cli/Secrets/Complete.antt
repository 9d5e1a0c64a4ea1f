-- ===== src/Cli/Secrets/Complete.antt =====
-- Whatever has one of the shapes is found, wherever it stands.
use claude_mem_lan_sync.Prelude.{
  ℕ, ◌≤◌, ◌≡◌, refl, Bool, true, false, ◌&&◌, [], ◌∷◌, ◌++◌, none, some, Bytes, codes, length,
  arith, bytes_eq, ◌≢◌, if-keeps, ap, ◌∙◌,
}
use claude_mem_lan_sync.Proto.Dec.{is_digit}
use claude_mem_lan_sync.Pair.Codes.{grouped}
use claude_mem_lan_sync.Cli.Secrets.{
  is_word, is_blank, is_opaque, any_at, sorts, starts_word, code_like, strip_prefix, behind_name,
  skip_while, count_while, opaque_value, colon_quote, secret_like, find_secret_shapes, Leak,
  matches_field, matches_value,
}

unfoldable pub ends_word : Bool → Bytes → Bool
ends_word after [] = after
ends_word after (c ∷ pre) = ends_word (is_word c) pre

unfoldable pub every : (ℕ → Bool) → Bytes → Bool
every p [] = true
every p (c ∷ s) = p c && every p s

pub data SecretName : Type 0 where
  token psk key secret password : SecretName

abbrev pub spelling : SecretName → Bytes
spelling token = codes "token"
spelling psk = codes "psk"
spelling key = codes "key"
spelling secret = codes "secret"
spelling password = codes "password"

-- A pairing code that is a word of its own, or a field with a long opaque value.
pub data HasSecret : Bytes → Type 0 where
  has_code :
      (pre post digits : Bytes)
      → length digits ≡ 9
      → every is_digit digits ≡ true
      → ends_word false pre ≡ false
      → starts_word post ≡ false
      → HasSecret (pre ++ (grouped digits ++ post))
  has_field :
      (pre gap gap' value post : Bytes) (name : SecretName)
      → every is_blank gap ≡ true
      → every is_blank gap' ≡ true
      → every is_opaque value ≡ true
      → 16 ≤ length value
      → HasSecret (
          pre
          ++ b'"'
            ∷ (spelling name ++ b'"' ∷ (gap ++ b':' ∷ (gap' ++ b'"' ∷ (value ++ b'"' ∷ post)))))

any_at_here :
    (f : Bool → Bytes → Bool) (after : Bool) (s : Bytes)
    → f after s ≡ true
    → any_at f after s ≡ true
unfolding any_at
any_at_here f after [] h = h
any_at_here f after (c ∷ s) h = rw h refl

any_at-append :
    (f : Bool → Bytes → Bool) (after : Bool) (pre s : Bytes)
    → f (ends_word after pre) s ≡ true
    → any_at f after (pre ++ s) ≡ true
unfolding any_at ends_word
any_at-append f after [] s h = any_at_here f after s h
any_at-append f after (c ∷ pre) s h = ground (arith, any_at-append f (is_word c) pre s h)

code_like-grouped :
    (digits post : Bytes)
    → length digits ≡ 9
    → every is_digit digits ≡ true
    → starts_word post ≡ false
    → code_like false (grouped digits ++ post) ≡ true
unfolding every sorts bytes_eq
code_like-grouped (a ∷ b ∷ c ∷ d ∷ e ∷ f ∷ g ∷ h ∷ i ∷ []) post n all end = ground arith
code_like-grouped digits post n all end = absurd (omega arith)

strip_prefix-append : (p s : Bytes) → strip_prefix p (p ++ s) ≡ some s
unfolding strip_prefix
strip_prefix-append [] s = refl
strip_prefix-append (c ∷ p) s = ground (arith, strip_prefix-append p s)

skip_while-append :
    (p : ℕ → Bool) (gap : Bytes) (c : ℕ) (s : Bytes)
    → every p gap ≡ true
    → p c ≡ false
    → skip_while p (gap ++ c ∷ s) ≡ c ∷ s
unfolding every skip_while
skip_while-append p [] c s all stop = rw stop refl
skip_while-append p (d ∷ gap) c s all stop = ground (arith, skip_while-append p gap c s)

count_while-append :
    (p : ℕ → Bool) (run : Bytes) (c : ℕ) (s : Bytes)
    → every p run ≡ true
    → p c ≡ false
    → count_while p (run ++ c ∷ s) ≡ length run
unfolding every count_while
count_while-append p [] c s all stop = rw stop refl
count_while-append p (d ∷ run) c s all stop = ground (arith, count_while-append p run c s)

behind_name-append :
    (name : SecretName) (s : Bytes) → behind_name (b'"' ∷ (spelling name ++ b'"' ∷ s)) ≡ some s
unfolding behind_name strip_prefix
behind_name-append token s = refl
behind_name-append psk s = refl
behind_name-append key s = refl
behind_name-append secret s = refl
behind_name-append password s = refl

colon_quote_gap :
    (gap gap' s : Bytes)
    → every is_blank gap ≡ true
    → every is_blank gap' ≡ true
    → colon_quote (gap ++ b':' ∷ (gap' ++ b'"' ∷ s)) ≡ some s
unfolding strip_prefix
colon_quote_gap gap gap' s blank blank' =
    let colon = skip_while-append is_blank gap b':' (gap' ++ b'"' ∷ s) blank refl in
    let quote = skip_while-append is_blank gap' b'"' s blank' refl in
    rw (colon_quote, colon) (rw quote refl)

opaque_value_quote :
    (value post : Bytes)
    → every is_opaque value ≡ true
    → 16 ≤ length value
    → opaque_value (value ++ b'"' ∷ post) ≡ true
opaque_value_quote value post all long =
    let counted = count_while-append is_opaque value b'"' post all refl in
    let closed = skip_while-append is_opaque value b'"' post all refl in
    rw (opaque_value, counted, closed) (ground arith)

secret_like_field :
    (after : Bool) (gap gap' value post : Bytes) (name : SecretName)
    → every is_blank gap ≡ true
    → every is_blank gap' ≡ true
    → every is_opaque value ≡ true
    → 16 ≤ length value
    → secret_like after
        (b'"' ∷ (spelling name ++ b'"' ∷ (gap ++ b':' ∷ (gap' ++ b'"' ∷ (value ++ b'"' ∷ post)))))
      ≡ true
secret_like_field after gap gap' value post name blank blank' all long =
    let rest : Bytes = value ++ b'"' ∷ post in
    let named = behind_name-append name (gap ++ b':' ∷ (gap' ++ b'"' ∷ rest)) in
    let colon = colon_quote_gap gap gap' rest blank blank' in
    ap matches_field named ∙ (ap matches_value colon ∙ opaque_value_quote value post all long)

some_neq_none : {P : Type 0} {leak : Leak} → P → some leak ≢ none
some_neq_none p h = cc

-- Whatever has the shape of a secret is found: nine digits in groups of three that dashes join and that
-- are a word of their own, or a field named token, psk, key, secret or password, with any blanks around
-- its colon, whose value has sixteen bytes or more of letters, digits and `_+/=-`. The first is what the
-- hub prints as a pairing code.
pub find_secret_shapes-HasSecret : (s : Bytes) → HasSecret s → find_secret_shapes s ≢ none
unfolding find_secret_shapes
find_secret_shapes-HasSecret s (has_code pre post digits n all before end) =
    let found =
      any_at-append code_like false pre (grouped digits ++ post)
        (rw before (code_like-grouped digits post n all end)) in
    rw found (if-keeps (λ r. r ≢ none) _ _ _ some_neq_none some_neq_none)
find_secret_shapes-HasSecret s (has_field pre gap gap' value post name blank blank' all long) =
    let found =
      any_at-append secret_like false pre _
        (secret_like_field (ends_word false pre) gap gap' value post name blank blank' all long) in
    rw found (some_neq_none tt)
