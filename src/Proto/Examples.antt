-- ===== src/Proto/Examples.antt =====
-- Decimals at concrete inputs: tests, and instances of the theorems.
pub mod Wrapper
use claude_mem_lan_sync.Prelude.{◌≡◌, ◌↔◌, refl, [], codes, ok, err, ◌≤◌, bytes_eq}
use claude_mem_lan_sync.Proto.Dec.{
  max_dec, not_canonical, out_of_range, not_positive, all_digits, is_canonical_decimal, parse_uint,
  parse_dec, parse_dec_positive, digits, dec_string,
}
use claude_mem_lan_sync.Proto.Dec.RoundTrip.{parse_dec_iff}

opens_dec : Unit {0}
unfolding parse_dec_positive parse_dec parse_uint is_canonical_decimal all_digits dec_string digits
    bytes_eq
opens_dec = tt

parse_largest : parse_dec (codes "18446744073709551615") ≡ ok max_dec
unfolding opens_dec
parse_largest = refl

parse_refused :
    (parse_dec (codes "18446744073709551616") ≡ err out_of_range)
    × (parse_dec (codes "01") ≡ err not_canonical)
    × (parse_dec (codes "-1") ≡ err not_canonical)
    × (parse_dec [] ≡ err not_canonical)
    × (parse_dec_positive (codes "0") ≡ err not_positive)
unfolding opens_dec
parse_refused = (refl, refl, refl, refl, refl)

parse_dec_iff_example :
    (parse_dec (codes "42") ≡ ok 42) ↔ ((dec_string 42 ≡ codes "42") × (42 ≤ max_dec))
parse_dec_iff_example = parse_dec_iff (codes "42") 42
