-- ===== src/Pod/Tests/Parts.antt =====
-- The parts of the computation at small data.
use bps_protocol.Prelude.{
  arith, ◌+◌, if◌then◌else◌, ◌≡◌, refl, inl, inr, true, some, [], ◌∷◌, ◌++◌, err, is_ok, result_of,
  result_of_eq, keep, All, Any,
}
use bps_protocol.Text.{text_eq, text_lt}
use bps_protocol.Order.{insert_sorted, sort_by}
use bps_protocol.Dict.{get, put, get_or, has, add}
use bps_protocol.Pod.Fault.{conflicting_log}
use bps_protocol.Pod.Address.{zero_address, is_zero_address}
use bps_protocol.Pod.Numeric.{digits_of, to_decimal_string}
use bps_protocol.Pod.Transfers.{
  canonicalize_transfers, dedupe, dedupe_step, identity, same_transfer, check_order,
  compare_canonical,
}
use bps_protocol.Pod.Transfers.Places.{Agrees}
use bps_protocol.Pod.Transfers.Canonical.{IsChronological, Holds, canonicalize_transfers_sound}
use bps_protocol.Pod.Transfers.Replay.{
  canonicalize_transfers-replay, canonicalize_transfers_conflict,
}
use bps_protocol.Pod.Weights.{
  WalletWeight, debit, credit, apply_transfer, apply_due, bump, bump_tiers, accrue_wallet,
  accrue_all, sweep, seed_balances, add_holders, add_parties, add_lockers, group_locks, has_time,
  add_time, add_transfer_times, add_lock_times, breakpoints, add_locked_weights, twab_by_tier,
  weigh, weigh_all, compute_weights,
}
use bps_protocol.Pod.Weights.Tiers.{bonus_end, active_from, active_locked_by_tier}
use bps_protocol.Pod.Weights.Balances.{
  incoming, outgoing, supply, apply_transfer-balance, apply_transfer-supply,
}
use bps_protocol.Pod.Weights.Effective.{IsBounded, compute_weights-IsBounded}
use bps_protocol.Pod.Weights.Average.{IsAveraged, compute_weights-IsAveraged}
use bps_protocol.Pod.Samples.{
  alice, bob, transfer, later_transfer, altered_transfer, cycle, start_balances, alice_lock,
}

canonical : is_ok (canonicalize_transfers (later_transfer ∷ transfer ∷ transfer ∷ [])) ≡ true
unfolding canonicalize_transfers dedupe dedupe_step identity same_transfer check_order
    compare_canonical insert_sorted sort_by digits_of to_decimal_string get put text_eq
canonical = refl

canonicalize_transfers_sound_example :
    let ts = later_transfer ∷ transfer ∷ transfer ∷ [] in
    let out = result_of (canonicalize_transfers ts) canonical in
    IsChronological out × All (λ u. Any (λ t. t ≡ u) ts) out × All (Holds out) ts
canonicalize_transfers_sound_example =
    canonicalize_transfers_sound (later_transfer ∷ transfer ∷ transfer ∷ [])
      (result_of_eq (canonicalize_transfers (later_transfer ∷ transfer ∷ transfer ∷ [])) canonical)

canonicalize_transfers-replay_example :
    canonicalize_transfers
      ((transfer ∷ later_transfer ∷ []) ++ later_transfer ∷ transfer ∷ transfer ∷ [])
    ≡ canonicalize_transfers (transfer ∷ later_transfer ∷ [])
canonicalize_transfers-replay_example =
    canonicalize_transfers-replay (transfer ∷ later_transfer ∷ [])
      (later_transfer ∷ transfer ∷ transfer ∷ []) (inr (inl refl), (inl refl, (inl refl, tt)))

altered : ¬ Agrees transfer altered_transfer
altered h = let amount = h.6 in omega (arith, amount)

canonicalize_transfers_conflict_example :
    canonicalize_transfers (transfer ∷ later_transfer ∷ altered_transfer ∷ []) ≡ err conflicting_log
canonicalize_transfers_conflict_example =
    canonicalize_transfers_conflict (transfer ∷ later_transfer ∷ altered_transfer ∷ []) transfer
      altered_transfer (inl refl) (inr (inr (inl refl))) (refl, refl, refl) altered

applies : is_ok (apply_transfer ((alice, 900) ∷ []) transfer) ≡ true
unfolding apply_transfer debit credit zero_address is_zero_address get put text_eq
applies = refl

apply_transfer-balance_example :
    get_or 0 (result_of (apply_transfer ((alice, 900) ∷ []) transfer) applies) bob
      + outgoing transfer bob
    ≡ get_or 0 ((alice, 900) ∷ []) bob + incoming transfer bob
apply_transfer-balance_example =
    apply_transfer-balance ((alice, 900) ∷ [])
      (result_of (apply_transfer ((alice, 900) ∷ []) transfer) applies) transfer bob
      (result_of_eq (apply_transfer ((alice, 900) ∷ []) transfer) applies)

apply_transfer-supply_example :
    supply (result_of (apply_transfer ((alice, 900) ∷ []) transfer) applies)
      + (if text_eq transfer.sender zero_address then 0 else transfer.raw_amount)
    ≡ supply ((alice, 900) ∷ [])
      + (if text_eq transfer.recipient zero_address then 0 else transfer.raw_amount)
apply_transfer-supply_example =
    apply_transfer-supply ((alice, 900) ∷ [])
      (result_of (apply_transfer ((alice, 900) ∷ []) transfer) applies) transfer
      (result_of_eq (apply_transfer ((alice, 900) ∷ []) transfer) applies)

-- Alice holds 900, then 600; her lock has a tier of 100.
abbrev alice_weight : WalletWeight
alice_weight = record {
  wallet = alice;
  snapshot_balance = 600;
  base_twab = 700;
  unlocked_twab = 600;
  locked_twab_by_tier = record { at_7d = 100; at_14d = 0; at_21d = 0; at_30d = 0 };
  effective_weight = 710;
}

weighs : is_ok (compute_weights cycle start_balances (transfer ∷ []) (alice_lock ∷ [])) ≡ true
unfolding canonicalize_transfers dedupe dedupe_step identity same_transfer check_order
    compare_canonical insert_sorted sort_by digits_of to_decimal_string get put text_eq zero_address
    is_zero_address debit credit apply_transfer apply_due bump bump_tiers accrue_wallet accrue_all
    sweep seed_balances add_holders add_parties add_lockers group_locks has_time add_time
    add_transfer_times add_lock_times breakpoints add_locked_weights twab_by_tier weigh weigh_all
    compute_weights bonus_end active_from active_locked_by_tier has add text_lt keep
weighs = refl

alice_weighed :
    get
      (result_of
        (compute_weights cycle start_balances (transfer ∷ []) (alice_lock ∷ []))
        weighs).weights
      alice
    ≡ some alice_weight
unfolding canonicalize_transfers dedupe dedupe_step identity same_transfer check_order
    compare_canonical insert_sorted sort_by digits_of to_decimal_string get put text_eq zero_address
    is_zero_address debit credit apply_transfer apply_due bump bump_tiers accrue_wallet accrue_all
    sweep seed_balances add_holders add_parties add_lockers group_locks has_time add_time
    add_transfer_times add_lock_times breakpoints add_locked_weights twab_by_tier weigh weigh_all
    compute_weights bonus_end active_from active_locked_by_tier has add text_lt keep
alice_weighed = refl

compute_weights-IsBounded_example : IsBounded alice_weight
compute_weights-IsBounded_example =
    compute_weights-IsBounded cycle start_balances (transfer ∷ []) (alice_lock ∷ []) alice
      (result_of_eq (compute_weights cycle start_balances (transfer ∷ []) (alice_lock ∷ [])) weighs)
      alice_weighed

compute_weights-IsAveraged_example :
    IsAveraged cycle.epoch_start cycle.epoch_end
      (get_or 0 (seed_balances [] start_balances) alice)
      (result_of
        (compute_weights cycle start_balances (transfer ∷ []) (alice_lock ∷ []))
        weighs).applied_transfers
      (alice_lock ∷ [])
      alice
      alice_weight
compute_weights-IsAveraged_example =
    compute_weights-IsAveraged cycle start_balances (transfer ∷ []) (alice_lock ∷ []) alice
      (omega arith) (omega arith, tt)
      (result_of_eq (compute_weights cycle start_balances (transfer ∷ []) (alice_lock ∷ [])) weighs)
      alice_weighed
