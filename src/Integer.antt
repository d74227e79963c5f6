-- ===== src/Integer.antt =====
-- JavaScript's bigint where a value may be negative: integers over the native numbers, their
-- sum, difference, product, order, and the division that truncates towards zero.
pub mod Number
use bps_protocol.Prelude.{
  ℕ, suc, ◌+◌, ◌-◌, ◌*◌, ◌/◌, ◌≤◌, ◌≡◌, refl, Bool, arith, ltb, leb, ◌==◌, ◌&&◌, if◌then◌else◌,
}

-- `negsuc n` is -(n + 1).
pub data ℤ : Type 0 where
  pos : ℕ → ℤ
  negsuc : ℕ → ℤ

abbrev pub pos_part : ℤ → ℕ
pos_part (pos n) = n
pos_part (negsuc n) = 0

abbrev pub neg_part : ℤ → ℕ
neg_part (pos n) = 0
neg_part (negsuc n) = suc n

-- a - b, as an integer.
abbrev pub sub_ℕ : ℕ → ℕ → ℤ
sub_ℕ a b = if leb b a then pos (a - b) else negsuc (b - a - 1)

infixl 65 ◌+ℤ◌ ◌-ℤ◌
infixl 70 ◌*ℤ◌ ◌/ℤ◌
infix 50 ◌≤ℤ◌ ◌==ℤ◌
abbrev pub ◌+ℤ◌ : ℤ → ℤ → ℤ
a +ℤ b = sub_ℕ (pos_part a + pos_part b) (neg_part a + neg_part b)

abbrev pub ◌-ℤ◌ : ℤ → ℤ → ℤ
a -ℤ b = sub_ℕ (pos_part a + neg_part b) (neg_part a + pos_part b)

-- The sign and the size.
abbrev pub of_size : Bool → ℕ → ℤ
of_size negative n = if negative then sub_ℕ 0 n else pos n

abbrev pub size : ℤ → ℕ
size (pos n) = n
size (negsuc n) = suc n

abbrev pub is_negative : ℤ → Bool
is_negative (pos n) = Bool.false
is_negative (negsuc n) = Bool.true

abbrev pub ◌*ℤ◌ : ℤ → ℤ → ℤ
a *ℤ b =
    if is_negative a
    then of_size (if is_negative b then Bool.false else Bool.true) (size a * size b)
    else of_size (is_negative b) (size a * size b)

-- Division of bigints truncates towards zero. Only divisors that are not zero occur.
abbrev pub ◌/ℤ◌ : ℤ → ℤ → ℤ
a /ℤ b =
    if is_negative a
    then of_size (if is_negative b then Bool.false else Bool.true) (size a / size b)
    else of_size (is_negative b) (size a / size b)

abbrev pub ◌≤ℤ◌ : ℤ → ℤ → Type 0
a ≤ℤ b = pos_part a + neg_part b ≤ pos_part b + neg_part a

abbrev pub ltb_ℤ : ℤ → ℤ → Bool
ltb_ℤ a b = ltb (pos_part a + neg_part b) (pos_part b + neg_part a)

abbrev pub leb_ℤ : ℤ → ℤ → Bool
leb_ℤ a b = leb (pos_part a + neg_part b) (pos_part b + neg_part a)

abbrev pub ◌==ℤ◌ : ℤ → ℤ → Bool
a ==ℤ b = pos_part a == pos_part b && neg_part a == neg_part b

pub ==ℤ_refl : (a : ℤ) → (a ==ℤ a) ≡ Bool.true
==ℤ_refl a = ground arith

truncated : (negsuc 6 /ℤ pos 2 ≡ negsuc 2) × (negsuc 6 *ℤ negsuc 1 ≡ pos 14)
truncated = (refl, refl)
