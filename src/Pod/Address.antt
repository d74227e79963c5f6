-- ===== src/Pod/Address.antt =====
-- address.ts
use bps_protocol.Prelude.{
  ℕ, ◌≡◌, Bool, true, false, ◌&&◌, ◌||◌, [], ◌∷◌, arith, leb, ◌==◌, if◌then◌else◌, every, length,
  ok, err, map, refl,
}
use bps_protocol.Text.{Text, codes, text_eq, to_lower_case, to_lower_case_idem, lower_unit}
use bps_protocol.Pod.Fault.{Result, invalid_address}

abbrev pub is_hex : ℕ → Bool
is_hex c = leb b'0' c && leb c b'9' || leb b'a' c && leb c b'f' || leb b'A' c && leb c b'F'

-- `/^0x[0-9a-fA-F]{40}$/`
unfoldable pub is_hex_address : Text → Bool
is_hex_address [] = false
is_hex_address (c ∷ []) = false
is_hex_address (c ∷ d ∷ ds) = c == b'0' && d == b'x' && length ds == 40 && every is_hex ds

unfoldable pub zero_address : Text
zero_address = codes "0x0000000000000000000000000000000000000000"

unfoldable pub normalize_address : Text → Result Text
unfolding is_hex_address
normalize_address value =
    if is_hex_address value then ok (to_lower_case value) else err invalid_address

unfoldable pub is_zero_address : Text → Result Bool
unfolding normalize_address zero_address
is_zero_address value = elim (normalize_address value) [
  | ok a ↦ ok (text_eq a zero_address)
  | err e ↦ err e
]

length-map_lower : (s : Text) → length (map lower_unit s) ≡ length s
length-map_lower [] = refl
length-map_lower (c ∷ s) = ground (arith, length-map_lower s)

every-map_lower : (s : Text) → every is_hex s ≡ true → every is_hex (map lower_unit s) ≡ true
every-map_lower [] h = refl
every-map_lower (c ∷ s) h = ground (arith, every-map_lower s)

pub is_hex_address-to_lower_case :
    (s : Text) → is_hex_address s ≡ true → is_hex_address (to_lower_case s) ≡ true
unfolding is_hex_address to_lower_case
is_hex_address-to_lower_case [] h = cc
is_hex_address-to_lower_case (c ∷ []) h = cc
is_hex_address-to_lower_case (c ∷ d ∷ ds) h =
    ground (arith, length-map_lower ds, every-map_lower ds)

-- What `normalizeAddress` returns is a hex address that it returns again, unchanged.
pub normalize_address_idem :
    (value : Text) {a : Text}
    → normalize_address value ≡ ok a
    → (is_hex_address a ≡ true) × (normalize_address a ≡ ok a)
unfolding normalize_address
normalize_address_idem value h =
    ground (arith, is_hex_address-to_lower_case value, to_lower_case_idem value)

-- Two spellings of an address that differ only in case are normalized to the same text.
pub normalize_address_case :
    (v w : Text)
    → is_hex_address v ≡ true
    → is_hex_address w ≡ true
    → to_lower_case v ≡ to_lower_case w
    → normalize_address v ≡ normalize_address w
unfolding normalize_address
normalize_address_case v w hv hw h = ground arith
