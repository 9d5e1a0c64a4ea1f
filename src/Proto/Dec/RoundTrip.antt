-- ===== src/Proto/Dec/RoundTrip.antt =====
-- `ParseDec` and `String` are inverse to one another on the canonical decimals of a uint64.
use Prim.Native.Nat.add
use native.Mathlib.Nat.{pow-suc}
use claude_mem_lan_sync.Prelude.{
  ℕ, zero, suc, ◌+◌, ◌-◌, ◌*◌, ◌/◌, ◌%◌, ◌^◌, ◌≤◌, ◌<◌, true, false, [], ◌∷◌, ◌++◌, ltb,
  if◌then◌else◌, Bytes, bytes_eq_iff, ok, err, ◌≡◌, refl, ◌≢◌, sym, ap, ◌∙◌, ◌⊎◌, ◌↔◌, >>=-eq-ok,
  Bool-cases, inl, inr, append_assoc, append-nil, arith, length,
}
use claude_mem_lan_sync.Proto.Dec.{
  max_dec, not_canonical, is_digit, all_digits, is_canonical_decimal, digits_value, parse_uint,
  parse_dec, parse_dec_positive, digits, dec_string,
}

digits_value-append :
    (n : ℕ) (s t : Bytes) → digits_value n (s ++ t) ≡ digits_value (digits_value n s) t
digits_value-append n [] t = refl
digits_value-append n (c ∷ s) t = digits_value-append (n * 10 + (c - b'0')) s t

pub tenth_bound : (f n : ℕ) → n < 10 ^ suc f → n / 10 < 10 ^ f
tenth_bound f n h = let p = pow-suc 10 f in omega arith

-- Enough fuel: the printed digits spell the number.
digits_value-digits : (f n : ℕ) → n < 10 ^ suc f → digits_value 0 (digits (suc f) n) ≡ n
unfolding digits
digits_value-digits zero n h = ground arith
digits_value-digits (suc f) n h = ground (
  arith,
  digits_value-append 0 (digits (suc f) (n / 10)) ((b'0' + n % 10) ∷ []),
  digits_value-digits f (n / 10),
  tenth_bound (suc f) n h,
)

-- Any two amounts of fuel that suffice print alike.
digits_fuel : (f g n : ℕ) → n < 10 ^ suc f → n < 10 ^ suc g → digits (suc f) n ≡ digits (suc g) n
unfolding digits
digits_fuel zero zero n h k = refl
digits_fuel zero (suc g) n h k = ground arith
digits_fuel (suc f) zero n h k = ground arith
digits_fuel (suc f) (suc g) n h k =
    ground (arith, digits_fuel f g (n / 10), tenth_bound (suc f) n h, tenth_bound (suc g) n k)

all_digits-append :
    (s t : Bytes) → all_digits s ≡ true → all_digits t ≡ true → all_digits (s ++ t) ≡ true
unfolding all_digits
all_digits-append [] t h k = k
all_digits-append (c ∷ s) t h k = ground (arith, all_digits-append s t)

digit_last : (n : ℕ) → all_digits ((b'0' + n % 10) ∷ []) ≡ true
unfolding all_digits
digit_last n = ground arith

all_digits-digits : (f n : ℕ) → all_digits (digits f n) ≡ true
unfolding digits
all_digits-digits zero n = unfold all_digits in refl
all_digits-digits (suc f) n = elim (Bool-cases (ltb n 10)) [
  | inl small ↦ rw small (unfold all_digits in ground arith)
  | inr large ↦
      rw large
        (all_digits-append (digits f (n / 10)) _ (all_digits-digits f (n / 10)) (digit_last n))
]

pub all_digits-dec_string : (n : ℕ) → all_digits (dec_string n) ≡ true
unfolding dec_string
all_digits-dec_string n = all_digits-digits 20 n

-- A text with a zero byte is no text of digits.
pub all_digits-zero : (s t : Bytes) → all_digits (s ++ 0 ∷ t) ≡ false
unfolding all_digits
all_digits-zero [] t = refl
all_digits-zero (c ∷ s) t = ground (arith, all_digits-zero s t)

-- A positive number is printed with no leading zero.
digits_head :
    (f n : ℕ)
    → 0 < n
    → n < 10 ^ suc f
    → (c : ℕ) × (s : Bytes) × (digits (suc f) n ≡ c ∷ s) × (c ≢ b'0')
unfolding digits
digits_head zero n h k = (b'0' + n, [], ground arith, omega arith)
digits_head (suc f) n h k = elim (Bool-cases (ltb n 10)) [
  | inl small ↦ (b'0' + n, [], rw small, omega arith)
  | inr large ↦
      let (c, s, e, ne) = digits_head f (n / 10) (ground arith) (tenth_bound (suc f) n k) in
      (c, s ++ (b'0' + n % 10) ∷ [], rw (large, e), ne)
]

canonical_of_head :
    (c : ℕ) (s : Bytes) → c ≢ b'0' → all_digits (c ∷ s) ≡ true → is_canonical_decimal (c ∷ s) ≡ true
unfolding is_canonical_decimal
canonical_of_head c s ne h = ground arith

parse_uint-digits :
    (s : Bytes) (n : ℕ)
    → s ≢ []
    → all_digits s ≡ true
    → digits_value 0 s ≡ n
    → n ≤ max_dec
    → parse_uint s ≡ ok n
unfolding parse_uint
parse_uint-digits [] n ne h e fits = absurd (ne refl)
parse_uint-digits (c ∷ s) n ne h e fits = rw (h, e) (ground arith)

dec_string-IsCanonical : (n : ℕ) → n ≤ max_dec → is_canonical_decimal (dec_string n) ≡ true
unfolding dec_string
dec_string-IsCanonical zero fits = unfold is_canonical_decimal digits in refl
dec_string-IsCanonical (suc n) fits =
    let (c, s, e, ne) = digits_head 19 (suc n) (omega arith) (omega arith) in
    rw e (canonical_of_head c s ne (rw e at (all_digits-digits 20 (suc n))))

nil_not_canonical : is_canonical_decimal [] ≡ false
unfolding is_canonical_decimal
nil_not_canonical = refl

dec_string-ne-nil : (n : ℕ) → n ≤ max_dec → dec_string n ≢ []
dec_string-ne-nil n fits e =
    cc (dec_string-IsCanonical n fits, ap is_canonical_decimal e, nil_not_canonical)

-- Every uint64 is read back from the string that it is sent as.
pub parse_dec-dec_string : (n : ℕ) → n ≤ max_dec → parse_dec (dec_string n) ≡ ok n
unfolding parse_dec
parse_dec-dec_string n fits = rw (dec_string-IsCanonical n fits) (
    parse_uint-digits (dec_string n) n (dec_string-ne-nil n fits)
      (unfold dec_string in all_digits-digits 20 n)
      (unfold dec_string in digits_value-digits 19 n (omega arith)) fits)

digits_value-pos : (v : ℕ) (s : Bytes) → 0 < v → 0 < digits_value v s
digits_value-pos v [] h = h
digits_value-pos v (c ∷ s) h = digits_value-pos (v * 10 + (c - b'0')) s (omega arith)

digits_snoc :
    (f v c : ℕ)
    → 0 < v
    → is_digit c ≡ true
    → digits (suc f) (v * 10 + (c - b'0')) ≡ digits f v ++ c ∷ []
unfolding digits
digits_snoc f v c pos h =
    let tens : (v * 10 + (c - b'0')) / 10 ≡ v = ground arith in
    let last : b'0' + (v * 10 + (c - b'0')) % 10 ≡ c = ground arith in
    let large : ltb (v * 10 + (c - b'0')) 10 ≡ false = ground arith in rw (large, tens, last)

-- Reading digits behind a positive number appends them to its print.
digits-digits_value :
    (s : Bytes) (f v : ℕ)
    → 0 < v
    → all_digits s ≡ true
    → digits (length s + f) (digits_value v s) ≡ digits f v ++ s
unfolding all_digits
digits-digits_value [] f v pos h = rw (add.zero f, append-nil)
digits-digits_value (c ∷ s) f v pos h =
    let shift : suc (length s) + f ≡ length s + suc f = omega arith in
    rw (
      shift,
      digits-digits_value s (suc f) (v * 10 + (c - b'0')) (omega arith) (ground arith),
      digits_snoc f v c pos (ground arith),
      append_assoc,
    )

next_digit : (v d e : ℕ) → d ≤ 9 → (v * 10 + d + 1) * e ≤ (v + 1) * (e * 10)
next_digit v d e h = grind arith

-- Behind `v` there is room for as many numbers as the digits can spell.
digits_value-lt :
    (s : Bytes) (v : ℕ) → all_digits s ≡ true → digits_value v s < (v + 1) * 10 ^ length s
unfolding all_digits
digits_value-lt [] v h = omega arith
digits_value-lt (c ∷ s) v h =
    let ih = digits_value-lt s (v * 10 + (c - b'0')) (ground arith) in
    let small : c - b'0' ≤ 9 = ground arith in
    rw (pow-suc 10 (length s)) (omega (arith, next_digit v (c - b'0') (10 ^ length s) small, ih))

one_digit : (v e : ℕ) → v ≤ 9 → (v + 1) * e ≤ e * 10
one_digit v e h = grind arith

digits-digit : (c : ℕ) → is_digit c ≡ true → digits 1 (c - b'0') ≡ c ∷ []
unfolding digits
digits-digit c h = ground arith

-- Digits with no leading zero are the print of what they spell, whatever fuel suffices.
digits-value :
    (c : ℕ) (s : Bytes) (f : ℕ)
    → c ≢ b'0'
    → all_digits (c ∷ s) ≡ true
    → digits_value 0 (c ∷ s) < 10 ^ suc f
    → digits (suc f) (digits_value 0 (c ∷ s)) ≡ c ∷ s
unfolding all_digits
digits-value c s f ne h fits =
    let digit : is_digit c ≡ true = ground arith in
    let rest : all_digits s ≡ true = ground arith in
    let v : ℕ = c - b'0' in
    let pos : 0 < v = ground arith in
    let small : v ≤ 9 = ground arith in
    let room : digits_value v s < 10 ^ suc (length s) =
      rw (pow-suc 10 (length s))
        (omega (arith, digits_value-lt s v rest, one_digit v (10 ^ length s) small)) in
    let fits' : digits_value v s < 10 ^ suc f = rw (add.zero v) at fits in
    let shift : suc (length s) ≡ length s + 1 = omega arith in
    rw (add.zero v) (
      digits_fuel f (length s) (digits_value v s) fits' room
      ∙ ap (λ k. digits k (digits_value v s)) shift
      ∙ digits-digits_value s 1 v pos rest
      ∙ ap (λ t. t ++ s) (digits-digit c digit))

canonical-cases :
    (c : ℕ) (s : Bytes)
    → is_canonical_decimal (c ∷ s) ≡ true
    → (c ∷ s ≡ b'0' ∷ []) ⊎ ((c ≢ b'0') × (all_digits (c ∷ s) ≡ true))
unfolding is_canonical_decimal
canonical-cases c s h = ground (arith, bytes_eq_iff (c ∷ s) (b'0' ∷ []))

parse_uint-eq-ok :
    (c : ℕ) (s : Bytes) (n : ℕ)
    → parse_uint (c ∷ s) ≡ ok n
    → (n ≡ digits_value 0 (c ∷ s)) × (n ≤ max_dec)
unfolding parse_uint
parse_uint-eq-ok c s n h = ground arith

zero_string : dec_string 0 ≡ b'0' ∷ []
unfolding dec_string digits
zero_string = refl

-- What `ParseDec` accepts is a uint64 and exactly its print: no other spelling is accepted.
pub dec_string-parse_dec :
    (s : Bytes) (n : ℕ) → parse_dec s ≡ ok n → (dec_string n ≡ s) × (n ≤ max_dec)
unfolding parse_dec
dec_string-parse_dec [] n h = ground (arith, nil_not_canonical)
dec_string-parse_dec (c ∷ s) n h = elim (Bool-cases (is_canonical_decimal (c ∷ s))) [
  | inr refused ↦
      absurd (cc (h, ap (λ b. if b then parse_uint (c ∷ s) else err not_canonical) refused))
  | inl accepted ↦
      let (e, fits) = parse_uint-eq-ok c s n (rw accepted at h) in
      (
        elim (canonical-cases c s accepted) [
          | inl is_zero ↦
              ap dec_string (e ∙ ap (digits_value 0) is_zero) ∙ zero_string ∙ sym is_zero
          | inr (ne, ds) ↦
              ap dec_string e ∙ unfold dec_string in digits-value c s 19 ne ds (omega arith)
        ],
        fits,
      )
]

-- `ParseDec` accepts a text and returns a number exactly if the number is a uint64 and the text is
-- its print.
pub parse_dec_iff :
    (s : Bytes) (n : ℕ) → (parse_dec s ≡ ok n) ↔ ((dec_string n ≡ s) × (n ≤ max_dec))
parse_dec_iff s n = (dec_string-parse_dec s n, λ (e, fits). rw (← e) (parse_dec-dec_string n fits))

pub parse_dec_positive-eq-ok :
    (s : Bytes) (n : ℕ) → parse_dec_positive s ≡ ok n → (dec_string n ≡ s) × (0 < n) × (n ≤ max_dec)
unfolding parse_dec_positive
parse_dec_positive-eq-ok s n h =
    let (d, p, q) = >>=-eq-ok (parse_dec s) _ h in
    let same : n ≡ d = ground arith in
    let (e, fits) = dec_string-parse_dec s d p in
    (ap dec_string same ∙ e, ground arith, rw same fits)

pub parse_dec_positive-dec_string :
    (n : ℕ) → 0 < n → n ≤ max_dec → parse_dec_positive (dec_string n) ≡ ok n
unfolding parse_dec_positive
parse_dec_positive-dec_string n pos fits = rw (parse_dec-dec_string n fits) (ground arith)

pub dec_string-injective :
    (m n : ℕ) → m ≤ max_dec → n ≤ max_dec → dec_string m ≡ dec_string n → m ≡ n
dec_string-injective m n h k e =
    cc (parse_dec-dec_string m h, parse_dec-dec_string n k, ap parse_dec e)
