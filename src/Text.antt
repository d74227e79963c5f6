-- ===== src/Text.antt =====
-- JavaScript strings as lists of UTF-16 code units: `===`, `<`, `.toLowerCase()` on ASCII, and
-- the joining of the parts of a template.
pub mod Equality
pub mod Ordering
pub mod Separator
unfoldable pub use Equality.*
unfoldable pub use Ordering.{text_lt}
pub use Ordering.{text_order}
use bps_protocol.Prelude.{
  ℕ, ◌+◌, ◌≡◌, Bool, ◌&&◌, String, List, [], ◌∷◌, map, arith, leb, if◌then◌else◌,
}
use Prim.Native.Char.{code}
use Prim.Native.String

-- The code units of an ASCII literal.
abbrev pub codes : String → Text
codes String.[] = []
codes (String.◌∷◌ c s) = code c ∷ codes s

-- `.toLowerCase()` on ASCII text.
abbrev pub lower_unit : ℕ → ℕ
lower_unit c = if leb b'A' c && leb c b'Z' then c + 32 else c

unfoldable pub to_lower_case : Text → Text
to_lower_case s = map lower_unit s

lower_unit_idem : (c : ℕ) → lower_unit (lower_unit c) ≡ lower_unit c
lower_unit_idem c = ground arith

pub to_lower_case_idem : (s : Text) → to_lower_case (to_lower_case s) ≡ to_lower_case s
unfolding to_lower_case
to_lower_case_idem [] = ground arith
to_lower_case_idem (c ∷ s) = cc (lower_unit_idem c, to_lower_case_idem s)
