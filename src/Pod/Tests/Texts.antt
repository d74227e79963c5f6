-- ===== src/Pod/Tests/Texts.antt =====
-- Numbers, addresses and epochs at small data.
use bps_protocol.Prelude.{◌≡◌, ◌≤◌, ◌<◌, ◌↔◌, refl, true, ok}
use bps_protocol.Text.{to_lower_case}
use bps_protocol.Pod.Numeric.{parse_non_negative_integer, to_decimal_string}
use bps_protocol.Pod.Numeric.Decimal.{parse-to_decimal_string}
use bps_protocol.Pod.Address.{
  is_hex_address, normalize_address, normalize_address_idem, normalize_address_case,
}
use bps_protocol.Pod.Epoch.{
  epoch_start_of, epoch_end_of, epoch_id_of, epoch_bounds_of, epoch_bounds_of_partition,
}
use bps_protocol.Pod.Samples.{bob, bob_upper}

parse-to_decimal_string_example :
    parse_non_negative_integer (to_decimal_string 1234567890123456789012)
    ≡ ok 1234567890123456789012
parse-to_decimal_string_example = parse-to_decimal_string 1234567890123456789012

normalizes : normalize_address bob_upper ≡ ok bob
unfolding normalize_address is_hex_address to_lower_case
normalizes = refl

normalize_address_idem_example : (is_hex_address bob ≡ true) × (normalize_address bob ≡ ok bob)
normalize_address_idem_example = normalize_address_idem bob_upper normalizes

hex_upper : is_hex_address bob_upper ≡ true
unfolding is_hex_address
hex_upper = refl

hex_lower : is_hex_address bob ≡ true
unfolding is_hex_address
hex_lower = refl

same_letters : to_lower_case bob_upper ≡ to_lower_case bob
unfolding to_lower_case
same_letters = refl

normalize_address_case_example : normalize_address bob_upper ≡ normalize_address bob
normalize_address_case_example =
    normalize_address_case bob_upper bob hex_upper hex_lower same_letters

epoch_bounds_of_partition_example :
    ((epoch_start_of 1 ≤ 1000) × (1000 < epoch_end_of 1) ↔ (epoch_id_of 1000 ≡ 1))
    × ((epoch_bounds_of 1000).epoch_start ≤ 1000)
    × (1000 < (epoch_bounds_of 1000).epoch_end)
epoch_bounds_of_partition_example = epoch_bounds_of_partition 1000 1
