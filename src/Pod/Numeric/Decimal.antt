-- ===== src/Pod/Numeric/Decimal.antt =====
-- Decimal strings: parsing what was printed, and printing what was parsed.
use bps_protocol.Prelude.{
  ℕ, zero, suc, ◌+◌, ◌/◌, ◌%◌, ◌<◌, ◌≡◌, ◌≢◌, refl, sym, ap, ◌∙◌, true, [], ◌∷◌, arith, every, ok,
  ok-injective,
}
use bps_protocol.Text.{Text}
use bps_protocol.Text.Separator.{IsFree}
use bps_protocol.Pod.Numeric.{
  is_digit, is_non_negative_integer_string, digits_value, parse_non_negative_integer, digits_of,
  to_decimal_string, integer_text,
}
use bps_protocol.Integer.{ℤ, pos, negsuc}

-- Reading the digits that are printed in front of `rest` goes on at `rest` with the value.
digits_value-digits_of :
    (f n : ℕ) (rest : Text) → n < f → digits_value 0 (digits_of f n rest) ≡ digits_value n rest
unfolding digits_value digits_of
digits_value-digits_of zero n rest h = elim h [ ]
digits_value-digits_of (suc f) n rest h =
    ground (arith, digits_value-digits_of f (n / 10) ((b'0' + n % 10) ∷ rest))

every-digits_of :
    (f n : ℕ) (rest : Text)
    → every is_digit rest ≡ true
    → every is_digit (digits_of f n rest) ≡ true
unfolding digits_of
every-digits_of zero n rest h = h
every-digits_of (suc f) n rest h =
    ground (arith, every-digits_of f (n / 10) ((b'0' + n % 10) ∷ rest))

-- A positive number prints with a leading digit from 1 to 9.
canonical-digits_of :
    (f n : ℕ) (rest : Text)
    → 0 < n
    → n < f
    → every is_digit rest ≡ true
    → is_non_negative_integer_string (digits_of f n rest) ≡ true
unfolding digits_of is_non_negative_integer_string
canonical-digits_of zero n rest positive h e = elim h [ ]
canonical-digits_of (suc f) n rest positive h e =
    ground (arith, canonical-digits_of f (n / 10) ((b'0' + n % 10) ∷ rest))

pub to_decimal_string-canonical :
    (n : ℕ) → is_non_negative_integer_string (to_decimal_string n) ≡ true
unfolding to_decimal_string
to_decimal_string-canonical zero = unfold is_non_negative_integer_string in refl
to_decimal_string-canonical (suc n) =
    canonical-digits_of (suc (suc n)) (suc n) [] (omega arith) (omega arith) refl

-- Parsing the decimal string of a number gives the number back.
pub parse-to_decimal_string : (n : ℕ) → parse_non_negative_integer (to_decimal_string n) ≡ ok n
unfolding parse_non_negative_integer
parse-to_decimal_string n = ground (arith, to_decimal_string-canonical n, read n)
  where
    read : (n : ℕ) → digits_value 0 (to_decimal_string n) ≡ n
    read n = unfold to_decimal_string in digits_value-digits_of (suc n) n [] (omega arith)

pub to_decimal_string_digits : (n : ℕ) → every is_digit (to_decimal_string n) ≡ true
unfolding to_decimal_string
to_decimal_string_digits n = every-digits_of (suc n) n [] refl

pub to_decimal_string-injective : (m n : ℕ) → to_decimal_string m ≡ to_decimal_string n → m ≡ n
to_decimal_string-injective m n e =
    ok-injective (
      sym (parse-to_decimal_string m) ∙ ap parse_non_negative_integer e ∙ parse-to_decimal_string n)

integer_text_head : (c : ℕ) (cs : Text) → every is_digit (c ∷ cs) ≡ true → c ≢ b'-'
integer_text_head c cs h e = absurd (ground arith)

signs_differ : (m n : ℕ) → to_decimal_string m ≢ b'-' ∷ to_decimal_string (suc n)
signs_differ m n e =
    let digits : every is_digit (b'-' ∷ to_decimal_string (suc n)) ≡ true =
      ap (every is_digit) (sym e) ∙ to_decimal_string_digits m in
    integer_text_head b'-' (to_decimal_string (suc n)) digits refl

-- The decimal text of an integer tells the integer.
pub integer_text-injective : (a b : ℤ) → integer_text a ≡ integer_text b → a ≡ b
unfolding integer_text
integer_text-injective (pos m) (pos n) e = ap pos (to_decimal_string-injective m n e)
integer_text-injective (pos m) (negsuc n) e = absurd (signs_differ m n e)
integer_text-injective (negsuc m) (pos n) e = absurd (signs_differ n m (sym e))
integer_text-injective (negsuc m) (negsuc n) e =
    let digits : to_decimal_string (suc m) ≡ to_decimal_string (suc n) = cc in
    let same = to_decimal_string-injective (suc m) (suc n) digits in ap negsuc (omega arith)

digits-IsFree : (t : Text) → every is_digit t ≡ true → IsFree b'|' t
digits-IsFree [] h = tt
digits-IsFree (c ∷ t) h = ((λ e. absurd (ground arith)), digits-IsFree t (ground arith))

-- A decimal has no separator in it.
pub decimal-IsFree : (n : ℕ) → IsFree b'|' (to_decimal_string n)
decimal-IsFree n = digits-IsFree (to_decimal_string n) (to_decimal_string_digits n)
