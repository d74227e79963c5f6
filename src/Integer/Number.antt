-- ===== src/Integer/Number.antt =====
-- JavaScript's number where the code does not ask for more than its comparisons: a whole number, or
-- NaN, with which every comparison is false and every difference is NaN. Fractions and infinities
-- are left out.
use bps_protocol.Prelude.{◌≡◌, ◌↔◌, refl, Bool, false, arith}
use bps_protocol.Integer.{ℤ, ◌-ℤ◌, ◌≤ℤ◌, ltb_ℤ, leb_ℤ}

pub data JsNumber : Type 0 where
  finite : ℤ → JsNumber
  nan : JsNumber

-- `a < b`
abbrev pub ltb_number : JsNumber → JsNumber → Bool
ltb_number (finite a) (finite b) = ltb_ℤ a b
ltb_number (finite a) nan = false
ltb_number nan b = false

-- `a <= b`
abbrev pub leb_number : JsNumber → JsNumber → Bool
leb_number (finite a) (finite b) = leb_ℤ a b
leb_number (finite a) nan = false
leb_number nan b = false

-- `a - b`
abbrev pub sub_number : JsNumber → JsNumber → JsNumber
sub_number (finite a) (finite b) = finite (a -ℤ b)
sub_number (finite a) nan = nan
sub_number nan b = nan

-- At most the other, or one of the two is NaN.
abbrev pub IsNotAbove : JsNumber → JsNumber → Type 0
IsNotAbove (finite a) (finite b) = a ≤ℤ b
IsNotAbove (finite a) nan = Unit
IsNotAbove nan b = Unit

-- More than the other, or one of the two is NaN.
abbrev pub IsNotAtMost : JsNumber → JsNumber → Type 0
IsNotAtMost (finite a) (finite b) = ¬ (a ≤ℤ b)
IsNotAtMost (finite a) nan = Unit
IsNotAtMost nan b = Unit

pub ltb_number_iff : (a b : JsNumber) → ltb_number b a ≡ false ↔ IsNotAbove a b
ltb_number_iff (finite a) (finite b) = (λ h. ground arith, λ h. ground arith)
ltb_number_iff (finite a) nan = (λ h. tt, λ h. refl)
ltb_number_iff nan (finite b) = (λ h. tt, λ h. refl)
ltb_number_iff nan nan = (λ h. tt, λ h. refl)

pub leb_number_iff : (a b : JsNumber) → leb_number a b ≡ false ↔ IsNotAtMost a b
leb_number_iff (finite a) (finite b) = (λ h l. ground arith, λ h. ground arith)
leb_number_iff (finite a) nan = (λ h. tt, λ h. refl)
leb_number_iff nan b = (λ h. tt, λ h. refl)
