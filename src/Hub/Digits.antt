-- ===== src/Hub/Digits.antt =====
-- `itoa` of internal/hub/middleware.go is the decimal print that `Dec.String` gives.
use claude_mem_lan_sync.Prelude.{
  ℕ, zero, suc, ◌+◌, ◌/◌, ◌%◌, ◌^◌, ◌≡◌, ◌<◌, ◌≤◌, refl, [], ◌∷◌, ◌++◌, arith, Bytes, append_assoc,
  append-nil, Bool-cases, inl, inr, ◌==◌, ltb, false, sym, ◌∙◌,
}
use claude_mem_lan_sync.Proto.Dec.{digits, dec_string}
use claude_mem_lan_sync.Proto.Dec.RoundTrip.{tenth_bound}
use claude_mem_lan_sync.Hub.Server.{itoa, itoa_loop}

itoa_loop_zero : (fuel : ℕ) (buf : Bytes) → itoa_loop fuel 0 buf ≡ buf
unfolding itoa_loop
itoa_loop_zero zero buf = refl
itoa_loop_zero (suc fuel) buf = refl

-- The loop puts the digits of a number before what the buffer holds.
itoa_loop-digits :
    (f n : ℕ) (buf : Bytes) → 0 < n → n < 10 ^ f → itoa_loop f n buf ≡ digits f n ++ buf
unfolding itoa_loop digits
itoa_loop-digits zero n buf p h = ground arith
itoa_loop-digits (suc f) n buf p h =
    let positive : (n == 0) ≡ false = ground arith in
    elim (Bool-cases (ltb n 10)) [
      | inl one ↦
          let small : n < 10 = ground arith in
          let none_left : n / 10 ≡ 0 = omega arith in
          let last : n % 10 ≡ n = omega arith in
          rw (positive, one, none_left, last) (itoa_loop_zero f ((48 + n) ∷ buf))
      | inr more ↦
          let large : 10 ≤ n = ground arith in
          let positive' : 0 < n / 10 = omega arith in
          rw (positive, more)
            (itoa_loop-digits f (n / 10) ((48 + n % 10) ∷ buf) positive' (tenth_bound f n h)
              ∙ sym (append_assoc (digits f (n / 10)) ((48 + n % 10) ∷ []) buf))
    ]

itoa_positive : (n : ℕ) → (n == 0) ≡ false → itoa n ≡ itoa_loop 20 n []
unfolding itoa
itoa_positive n h = rw h refl

dec_string-digits : (n : ℕ) → dec_string n ≡ digits 20 n
unfolding dec_string
dec_string-digits n = refl

itoa_zero : itoa 0 ≡ dec_string 0
unfolding itoa dec_string digits
itoa_zero = refl

-- A length that has at most twenty digits is printed as `Dec.String` prints it.
pub dec_string-itoa : (n : ℕ) → n < 10 ^ 20 → itoa n ≡ dec_string n
dec_string-itoa n h = elim (Bool-cases (n == 0)) [
  | inl none_ ↦ let nought : n ≡ 0 = ground arith in rw nought itoa_zero
  | inr some_ ↦
      itoa_positive n some_
      ∙ itoa_loop-digits 20 n [] (ground arith) h
      ∙ append-nil (digits 20 n)
      ∙ sym (dec_string-digits n)
]
