-- ===== src/Proto/Examples/Wrapper.antt =====
-- An operation as a client sends it: tests, and instances of the theorems.
use claude_mem_lan_sync.Prelude.{
  ◌≡◌, ◌++◌, refl, [], ◌∷◌, Bytes, codes, some, ok, err, trim_left, trim_right, bytes_eq, arith,
}
use claude_mem_lan_sync.Proto.Dec.{
  all_digits, is_canonical_decimal, parse_uint, parse_dec, parse_dec_positive,
}
use claude_mem_lan_sync.Proto.Digest.{null_payload_digest, valid_digest, all_base64url}
use claude_mem_lan_sync.Proto.Errors.{reject, digest_mismatch, wrapper_shape}
use claude_mem_lan_sync.Proto.Fields.{Fields, field, fields_loop, object_fields}
use claude_mem_lan_sync.Proto.Fields.Fuel.{RunsOn, object_fields-RunsOn}
use claude_mem_lan_sync.Proto.Json.{step_end, step_value, step, scan, skip_space, unmarshal_string}
use claude_mem_lan_sync.Proto.Op.{Op}
use claude_mem_lan_sync.Proto.Parse.{is_one_of, has_keys, parse_body, parse_op}
use claude_mem_lan_sync.Proto.Parse.Sound.{IsAccepted, parse_op-IsAccepted}
use claude_mem_lan_sync.Proto.Unquote.{
  append_rune, sequence_size, hex4, piece, unquote_loop, unquote_json_string,
}
use claude_mem_lan_sync.Proto.Unquote.Spelling.{
  IsUnit, decimal, lower_case, upper_case, for_line_feed, itself, letter, pair,
}
use claude_mem_lan_sync.Proto.Unquote.RoundTrip.{
  IsSpelling, all_spelled, then_spelled, utf8, utf8-unquote_json_string,
}

abbrev pub prompt_literal : Bytes
prompt_literal =
    codes "\"{\\\"body_schema_version\\\":1,\\\"deleted\\\":false,\\\"deleted_"
    ++ codes "at\\\":null,\\\"entity_rev\\\":\\\"1\\\",\\\"id\\\":\\\"a\\\",\\\"kind\\\":\\\"p"
    ++ codes "rompt\\\",\\\"mutation\\\":null,\\\"origin_device_id\\\":\\\"d\\\",\\\"o"
    ++ codes "rigin_local_id\\\":\\\"7\\\",\\\"payload\\\":{},\\\"payload_schema_v"
    ++ codes "ersion\\\":1,\\\"payload_sha256\\\":\\\"x\\\"}\""

abbrev pub wrapper_of : Bytes → Bytes
wrapper_of raw =
    codes "{\"body\":"
    ++ raw
    ++ codes ",\"operation_sha256\":\""
    ++ null_payload_digest
    ++ codes "\"}"

abbrev pub one_digest : Bytes → Bytes
one_digest text = null_payload_digest

abbrev pub prompt : Op
prompt = record {
  raw_literal = prompt_literal;
  digest = null_payload_digest;
  id = codes "a";
  kind = codes "prompt";
  entity_rev = 1;
  origin_device_id = codes "d";
  origin_local_id = some 7;
}

opens_json : Unit {0}
unfolding unquote_json_string append_rune sequence_size hex4 piece unquote_loop step_end step_value
    step scan skip_space unmarshal_string field fields_loop object_fields bytes_eq
opens_json = tt

opens_parse : Unit {0}
unfolding opens_json parse_op parse_body has_keys is_one_of valid_digest all_base64url trim_left
    trim_right parse_dec_positive parse_dec parse_uint is_canonical_decimal all_digits
opens_parse = tt

pub parse_prompt : parse_op one_digest (wrapper_of prompt_literal) ≡ ok prompt
unfolding opens_parse
parse_prompt = refl

-- The digest of another body, a key that stands twice, a missing key, and bytes behind the object.
parse_refused :
    (parse_op (λ _. []) (wrapper_of prompt_literal) ≡ err (reject digest_mismatch))
    × (parse_op one_digest (codes "{\"body\":\"\",\"body\":\"\"}") ≡ err (reject wrapper_shape))
    × (parse_op one_digest (codes "{\"body\":\"\"}") ≡ err (reject wrapper_shape))
    × (parse_op one_digest (wrapper_of prompt_literal ++ codes "x") ≡ err (reject wrapper_shape))
unfolding opens_parse
parse_refused = (refl, refl, refl, refl)

parse_op-IsAccepted_example : IsAccepted one_digest prompt
parse_op-IsAccepted_example =
    parse_op-IsAccepted one_digest (wrapper_of prompt_literal) prompt parse_prompt

-- A character that four bytes hold, written as a pair of surrogates, and a surrogate alone.
unquote_surrogates :
    (unquote_json_string (codes "\"\\ud83d\\ude00\"") ≡ ok (0xf0 ∷ 0x9f ∷ 0x98 ∷ 0x80 ∷ []))
    × (unquote_json_string (codes "\"\\ud83d!\"") ≡ ok (0xef ∷ 0xbf ∷ 0xbd ∷ codes "!"))
unfolding opens_json
unquote_surrogates = (refl, refl)

abbrev high_unit : IsUnit 0xd83d b'd' b'8' b'3' b'd'
high_unit = record {
  first = 13;
  second = 8;
  third = 3;
  fourth = 13;
  first_digit = lower_case 3 (omega arith);
  second_digit = decimal 8 (omega arith);
  third_digit = decimal 3 (omega arith);
  fourth_digit = lower_case 3 (omega arith);
  in_all = refl;
}

abbrev low_unit : IsUnit 0xde00 b'D' b'e' b'0' b'0'
low_unit = record {
  first = 13;
  second = 14;
  third = 0;
  fourth = 0;
  first_digit = upper_case 3 (omega arith);
  second_digit = lower_case 4 (omega arith);
  third_digit = decimal 0 (omega arith);
  fourth_digit = decimal 0 (omega arith);
  in_all = refl;
}

-- A line feed as a letter, a character as a pair of units, and another one as it is.
smile-IsSpelling : IsSpelling (10 ∷ 0x1f600 ∷ b'!' ∷ []) (codes "\\n\\ud83d\\uDe00!")
unfolding append_rune
smile-IsSpelling = then_spelled (codes "\\n") (letter for_line_feed) (
    then_spelled (codes "\\ud83d\\uDe00")
      (pair 0x3d 0x200 (omega arith) (omega arith) refl high_unit low_unit)
      (then_spelled (b'!' ∷ []) (itself (omega arith) refl) all_spelled))

utf8-unquote_json_string_example :
    unquote_json_string (codes "\"\\n\\ud83d\\uDe00!\"") ≡ ok (utf8 (10 ∷ 0x1f600 ∷ b'!' ∷ []))
utf8-unquote_json_string_example =
    utf8-unquote_json_string (10 ∷ 0x1f600 ∷ b'!' ∷ []) (codes "\\n\\ud83d\\uDe00!")
      ((omega arith, refl), ((omega arith, refl), ((omega arith, refl), tt))) smile-IsSpelling

abbrev two_fields : Fields
two_fields = (codes "a", codes "1") ∷ (codes "b", codes "[2]") ∷ []

object_fields-RunsOn_example : RunsOn (codes "{\"a\":1}") (object_fields (codes "{\"a\":1}"))
object_fields-RunsOn_example = object_fields-RunsOn (codes "{\"a\":1}")
