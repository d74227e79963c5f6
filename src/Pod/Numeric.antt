-- ===== src/Pod/Numeric.antt =====
-- numeric.ts. The engine's bigints are naturals: every one is parsed from a decimal string
-- without a sign, and each subtraction stands behind a test.
pub mod Decimal
use bps_protocol.Prelude.{
  ℕ, zero, suc, ◌+◌, ◌-◌, ◌*◌, ◌/◌, ◌%◌, ◌≤◌, ◌<◌, ◌≡◌, Bool, true, false, ◌&&◌, List, [], ◌∷◌,
  ◌++◌, arith, leb, ltb, ◌==◌, if◌then◌else◌, every, Outcome, ok, err,
}
use bps_protocol.Integer.{ℤ, pos, negsuc}
use bps_protocol.Text.{Text}
use bps_protocol.Pod.Fault.{Result, Code, invalid_integer, bad_denominator}

abbrev pub is_digit : ℕ → Bool
is_digit c = leb b'0' c && leb c b'9'

-- `/^(0|[1-9][0-9]*)$/`
unfoldable pub is_non_negative_integer_string : Text → Bool
is_non_negative_integer_string [] = false
is_non_negative_integer_string (c ∷ cs) =
    if c == b'0'
    then (elim cs [ [] ↦ true | d ∷ ds ↦ false ])
    else leb b'1' c && leb c b'9' && every is_digit cs

-- `BigInt(value)` at a string of digits.
unfoldable pub digits_value : ℕ → Text → ℕ
digits_value acc [] = acc
digits_value acc (c ∷ cs) = digits_value (acc * 10 + (c - b'0')) cs

unfoldable pub parse_non_negative_integer : Text → Result ℕ
unfolding is_non_negative_integer_string digits_value
parse_non_negative_integer value =
    if is_non_negative_integer_string value then ok (digits_value 0 value) else err invalid_integer

-- `value.toString(10)`: the digits, the last one found first. The fuel is the value itself.
unfoldable pub digits_of : ℕ → ℕ → Text → Text
digits_of zero n acc = acc
digits_of (suc f) n acc =
    let more = digits_of f (n / 10) ((b'0' + n % 10) ∷ acc) in
    if ltb n 10 then (b'0' + n) ∷ acc else more

unfoldable pub to_decimal_string : ℕ → Text
unfolding digits_of
to_decimal_string n = digits_of (suc n) n []

-- `floor(a * b / denom)`
unfoldable pub mul_div_floor : ℕ → ℕ → ℕ → Result ℕ
mul_div_floor a b denom = if denom == 0 then err bad_denominator else ok (a * b / denom)

-- `x.toString()` for a bigint.
unfoldable pub integer_text : ℤ → Text
integer_text (pos n) = to_decimal_string n
integer_text (negsuc n) = b'-' ∷ to_decimal_string (suc n)
