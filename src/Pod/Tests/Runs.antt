-- ===== src/Pod/Tests/Runs.antt =====
-- The sample fixture is accepted, and the whole computation runs on it.
use bps_protocol.Prelude.{some, List, ◌≡◌, refl, true, is_ok, result_of, result_of_eq, keep}
use bps_protocol.Text.{text_eq, text_lt, to_lower_case}
use bps_protocol.Dict.{has, add}
use bps_protocol.Pod.Numeric.{is_non_negative_integer_string, digits_value}
use bps_protocol.Pod.Address.{is_hex_address, normalize_address, zero_address, is_zero_address}
use bps_protocol.Pod.Model.{econ_version, ConfirmedTransfer}
use bps_protocol.Pod.Schema.{fixture_conforms, is_hash32, tier_of_text, category_of_text}
use bps_protocol.Pod.Validate.{
  load_cycle_fixture, normalize_cycle, check_cycle, normalize_exclusions, normalize_eligibility,
  normalize_balances, normalize_transfers, normalize_locks, normalize_assets,
}
use bps_protocol.Pod.Validate.Accepted.{IsAccepted, load_cycle_fixture-IsAccepted}
use bps_protocol.Pod.Pipeline.{run_proof_of_distribution, count_verified}
use bps_protocol.Order.{insert_sorted, sort_by}
use bps_protocol.Pod.Transfers.{
  canonicalize_transfers, dedupe, dedupe_step, identity, same_transfer, check_order,
  compare_canonical,
}
use bps_protocol.Pod.Numeric.{digits_of, to_decimal_string, mul_div_floor}
use bps_protocol.Dict.{get, put}
use bps_protocol.Pod.Weights.{
  WalletWeight, debit, credit, apply_transfer, apply_due, bump, bump_tiers, accrue_wallet,
  accrue_all, sweep, seed_balances, add_holders, add_parties, add_lockers, group_locks, has_time,
  add_time, add_transfer_times, add_lock_times, breakpoints, add_locked_weights, twab_by_tier,
  weigh, weigh_all, compute_weights,
}
use bps_protocol.Pod.Weights.Tiers.{bonus_end, active_from, active_locked_by_tier}
use bps_protocol.Pod.Eligibility.{
  set_of, is_expired, is_admitted, admitted, add_up, resolve_eligibility,
}
use bps_protocol.Pod.Allocation.{
  add_share, add_shares, allocate_asset, reason_for, all_entitlements, allocate,
}
use bps_protocol.Pod.Reconciliation.{reconcile_asset, reconcile}
use bps_protocol.Pod.Merkle.{
  to_value, entitlement_before, entitlement_key, check_entitlements, index_entries, make_result,
  build_merkle, oz_verify, viem_leaf_hash_raw, viem_leaf_hash, sorted_pair, viem_process_proof,
  viem_verify, leaf_abi_types,
}
use bps_protocol.Pod.Pipeline.Entitled.{IsSoundRun, run-IsSoundRun}
use bps_protocol.Pod.Pipeline.Averaged.{HasAverages, run-HasAverages}
use bps_protocol.Pod.Samples.{alice, sample_oz, sample_viem, raw_fixture}

loads : is_ok (load_cycle_fixture raw_fixture) ≡ true
unfolding load_cycle_fixture fixture_conforms is_non_negative_integer_string is_hex_address
    is_hash32 tier_of_text category_of_text text_eq econ_version normalize_cycle check_cycle
    normalize_address to_lower_case digits_value normalize_exclusions has add normalize_eligibility
    normalize_balances normalize_transfers normalize_locks normalize_assets
loads = refl

load_cycle_fixture-IsAccepted_example :
    IsAccepted (result_of (load_cycle_fixture raw_fixture) loads)
load_cycle_fixture-IsAccepted_example =
    load_cycle_fixture-IsAccepted raw_fixture (result_of_eq (load_cycle_fixture raw_fixture) loads)

runs : is_ok (run_proof_of_distribution sample_oz sample_viem raw_fixture) ≡ true
unfolding load_cycle_fixture fixture_conforms is_non_negative_integer_string is_hex_address
    is_hash32 tier_of_text category_of_text text_eq econ_version normalize_cycle check_cycle
    normalize_address to_lower_case digits_value normalize_exclusions has add normalize_eligibility
    normalize_balances normalize_transfers normalize_locks normalize_assets
    run_proof_of_distribution canonicalize_transfers dedupe dedupe_step identity same_transfer
    check_order compare_canonical insert_sorted sort_by zero_address is_zero_address digits_of
    to_decimal_string mul_div_floor get put debit credit apply_transfer apply_due bump bump_tiers
    accrue_wallet accrue_all sweep seed_balances add_holders add_parties add_lockers group_locks
    has_time add_time add_transfer_times add_lock_times breakpoints add_locked_weights twab_by_tier
    weigh weigh_all compute_weights bonus_end active_from active_locked_by_tier set_of is_expired
    is_admitted admitted add_up resolve_eligibility add_share add_shares allocate_asset reason_for
    all_entitlements allocate reconcile_asset reconcile to_value entitlement_before entitlement_key
    check_entitlements index_entries make_result build_merkle oz_verify viem_leaf_hash_raw
    viem_leaf_hash sorted_pair viem_process_proof viem_verify leaf_abi_types count_verified keep
    text_lt
runs = refl

run-IsSoundRun_example :
    IsSoundRun sample_oz sample_viem
      (result_of (run_proof_of_distribution sample_oz sample_viem raw_fixture) runs)
run-IsSoundRun_example =
    run-IsSoundRun sample_oz sample_viem raw_fixture
      (result_of_eq (run_proof_of_distribution sample_oz sample_viem raw_fixture) runs)

abbrev alice_weight : WalletWeight
alice_weight = record {
  wallet = alice;
  snapshot_balance = 600;
  base_twab = 700;
  unlocked_twab = 600;
  locked_twab_by_tier = record { at_7d = 100; at_14d = 0; at_21d = 0; at_30d = 0 };
  effective_weight = 710;
}

alice_weighed :
    get (result_of (run_proof_of_distribution sample_oz sample_viem raw_fixture) runs).weights alice
    ≡ some alice_weight
unfolding load_cycle_fixture fixture_conforms is_non_negative_integer_string is_hex_address
    is_hash32 tier_of_text category_of_text text_eq econ_version normalize_cycle check_cycle
    normalize_address to_lower_case digits_value normalize_exclusions has add normalize_eligibility
    normalize_balances normalize_transfers normalize_locks normalize_assets
    run_proof_of_distribution canonicalize_transfers dedupe dedupe_step identity same_transfer
    check_order compare_canonical insert_sorted sort_by zero_address is_zero_address digits_of
    to_decimal_string mul_div_floor get put debit credit apply_transfer apply_due bump bump_tiers
    accrue_wallet accrue_all sweep seed_balances add_holders add_parties add_lockers group_locks
    has_time add_time add_transfer_times add_lock_times breakpoints add_locked_weights twab_by_tier
    weigh weigh_all compute_weights bonus_end active_from active_locked_by_tier set_of is_expired
    is_admitted admitted add_up resolve_eligibility add_share add_shares allocate_asset reason_for
    all_entitlements allocate reconcile_asset reconcile to_value entitlement_before entitlement_key
    check_entitlements index_entries make_result build_merkle oz_verify viem_leaf_hash_raw
    viem_leaf_hash sorted_pair viem_process_proof viem_verify leaf_abi_types count_verified keep
    text_lt
alice_weighed = refl

run-HasAverages_example :
    (applied : List ConfirmedTransfer) × HasAverages
      (result_of (run_proof_of_distribution sample_oz sample_viem raw_fixture) runs).fixture
      (record {
        weights =
            (result_of (run_proof_of_distribution sample_oz sample_viem raw_fixture) runs).weights;
        applied_transfers = applied;
      })
      alice
      alice_weight
run-HasAverages_example =
    run-HasAverages sample_oz sample_viem raw_fixture alice
      (result_of_eq (run_proof_of_distribution sample_oz sample_viem raw_fixture) runs)
      alice_weighed
