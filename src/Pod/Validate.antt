-- ===== src/Pod/Validate.antt =====
-- validate.ts: normalization of a fixture that the schema passed, and its cross-field checks.
pub mod Accepted
use bps_protocol.Prelude.{
  ℕ, ◌+◌, ◌*◌, ◌≡◌, Bool, true, false, not, ◌&&◌, ◌||◌, Option, none, some, List, [], ◌∷◌, map, ltb,
  ◌==◌, if◌then◌else◌, Outcome, ok, err, ◌>>=◌, ◌>>◌, fail_if, traverse,
}
use mathlib.Core.Option
use bps_protocol.Integer.{ℤ, pos, sub_ℕ, ◌==ℤ◌}
use bps_protocol.Text.{Text, to_lower_case}
use bps_protocol.Dict.{has, add}
use bps_protocol.Pod.Fault.{
  Code, Result, epoch_boundary, block_order, snapshot_after_finalized, claim_period,
  duplicate_exclusion, duplicate_holder, chain_mismatch, transfer_out_of_epoch, unsupported_tier,
  unsupported_duration, bad_withdrawal, duplicate_asset, schema_violation,
}
use bps_protocol.Pod.Numeric.{digits_value}
use bps_protocol.Pod.Address.{normalize_address}
use bps_protocol.Pod.Epoch.{epoch_seconds}
use bps_protocol.Pod.Model.{
  LockTier, tier_specs, CycleConfig, ConfirmedTransfer, EpochStartBalance, LockRecord,
  EligibilityRecord, ExclusionCategory, ExcludedAddress, AcquiredAsset, CycleFixture,
}
use bps_protocol.Pod.Schema.{
  RawCycleConfig, RawConfirmedTransfer, RawEpochStartBalance, RawLockRecord, RawEligibilityRecord,
  RawExcludedAddress, RawAcquiredAsset, RawCycleFixture, tier_of_text, category_of_text,
  parse_cycle_fixture,
}

-- `BigInt(value)`, at a decimal string that the schema passed.
abbrev pub b : Text → ℕ
b value = digits_value 0 value

-- The consistency checks of `normalizeCycle`, in their order.
unfoldable pub check_cycle : CycleConfig → Result (Unit {0})
check_cycle c = do
  fail_if (not (c.epoch_start == c.epoch_id * epoch_seconds)) epoch_boundary
  fail_if (not (c.epoch_end == c.epoch_start + epoch_seconds)) epoch_boundary
  fail_if (ltb c.end_block c.start_block) block_order
  fail_if (ltb c.snapshot_block c.start_block || ltb c.end_block c.snapshot_block) block_order
  fail_if (ltb c.finalized_block c.snapshot_block) snapshot_after_finalized
  fail_if (ltb c.finalized_block c.end_block) block_order
  fail_if (ltb c.claim_deadline c.claim_start) claim_period

-- The record that `normalizeCycle` builds.
abbrev pub make_cycle : RawCycleConfig → Text → Text → CycleConfig
make_cycle raw token manager = record {
  schema_version = raw.schema_version;
  cycle_id = b raw.cycle_id;
  chain_id = b raw.chain_id;
  bps_token_address = token;
  claim_manager_address = manager;
  economics_version = raw.economics_version;
  reward_policy_version = raw.reward_policy_version;
  epoch_id = b raw.epoch_id;
  epoch_start = b raw.epoch_start;
  epoch_end = b raw.epoch_end;
  start_block = b raw.start_block;
  end_block = b raw.end_block;
  snapshot_block = b raw.snapshot_block;
  finalized_block = b raw.finalized_block;
  confirmation_depth = b raw.confirmation_depth;
  claim_start = b raw.claim_start;
  claim_deadline = b raw.claim_deadline;
  terms_version = raw.terms_version;
  eligibility_policy_version = raw.eligibility_policy_version;
  restricted_jurisdiction_policy_version = raw.restricted_jurisdiction_policy_version;
}

unfoldable pub normalize_cycle : RawCycleConfig → Result CycleConfig
normalize_cycle raw = do
  token ← normalize_address raw.bps_token_address
  manager ← normalize_address raw.claim_manager_address
  let cycle = make_cycle raw token manager
  check_cycle cycle
  ok cycle

-- `raw.map(...)` with a set `seen` of the addresses so far: a second one throws `code`.
unfoldable pub map_distinct {ℓ κ} :
    {A : Type ℓ} {B : Type κ}
    → Code
    → (A → Text)
    → (A → Text → Result B)
    → List Text
    → List A
    → Result (List B)
map_distinct code raw_of make seen [] = ok []
map_distinct code raw_of make seen (x ∷ xs) = normalize_address (raw_of x) >>= λ address.
    if has seen address
    then err code
    else (make x address >>= λ y.
        map_distinct code raw_of make (add seen address) xs >>= λ ys. ok (y ∷ ys))

-- `e.category as ...`: the schema passed the category, so it is one of the list.
abbrev pub category_or_fail : Option ExclusionCategory → Result ExclusionCategory
category_or_fail none = err schema_violation
category_or_fail (some c) = ok c

abbrev pub make_exclusion : RawExcludedAddress → Text → Result ExcludedAddress
make_exclusion e address = category_or_fail (category_of_text e.category) >>= λ category.
    ok (record {
      address = address;
      category = category;
      reason = e.reason;
      policy_version = e.policy_version;
    })

abbrev pub make_eligibility : RawEligibilityRecord → Text → Result EligibilityRecord
make_eligibility r wallet = ok (record {
  wallet = wallet;
  eligible = r.eligible;
  policy_version = r.policy_version;
  valid_from = b r.valid_from;
  expiry = Option.map b r.expiry;
  revoked = r.revoked;
})

abbrev pub make_balance : RawEpochStartBalance → Text → Result EpochStartBalance
make_balance r wallet = ok (record { wallet = wallet; raw_balance = b r.raw_balance })

abbrev pub make_asset : RawAcquiredAsset → Text → Result AcquiredAsset
make_asset a address = ok (record {
  ticker = a.ticker;
  name = a.name;
  token_address = address;
  decimals = a.decimals;
  acquired_raw_amount = b a.acquired_raw_amount;
})

unfoldable pub normalize_exclusions : List RawExcludedAddress → Result (List ExcludedAddress)
unfolding map_distinct
normalize_exclusions = map_distinct duplicate_exclusion (λ e. e.address) make_exclusion []

unfoldable pub normalize_eligibility : List RawEligibilityRecord → Result (List EligibilityRecord)
unfolding map_distinct
normalize_eligibility = map_distinct duplicate_holder (λ r. r.wallet) make_eligibility []

unfoldable pub normalize_balances : List RawEpochStartBalance → Result (List EpochStartBalance)
unfolding map_distinct
normalize_balances = map_distinct duplicate_holder (λ r. r.wallet) make_balance []

unfoldable pub normalize_assets : List RawAcquiredAsset → Result (List AcquiredAsset)
unfolding map_distinct
normalize_assets = map_distinct duplicate_asset (λ a. a.token_address) make_asset []

unfoldable pub normalize_transfer : CycleConfig → RawConfirmedTransfer → Result ConfirmedTransfer
normalize_transfer cycle t = do
  fail_if (not (b t.chain_id == cycle.chain_id)) chain_mismatch
  fail_if (ltb (b t.timestamp) cycle.epoch_start || ltb cycle.epoch_end (b t.timestamp))
      transfer_out_of_epoch
  sender ← normalize_address t.sender
  recipient ← normalize_address t.recipient
  ok (record {
    chain_id = b t.chain_id;
    block_number = b t.block_number;
    block_hash = to_lower_case t.block_hash;
    transaction_hash = to_lower_case t.transaction_hash;
    transaction_index = b t.transaction_index;
    log_index = b t.log_index;
    timestamp = b t.timestamp;
    sender = sender;
    recipient = recipient;
    raw_amount = b t.raw_amount;
  })

unfoldable pub normalize_transfers :
    List RawConfirmedTransfer → CycleConfig → Result (List ConfirmedTransfer)
unfolding normalize_transfer traverse
normalize_transfers raw cycle = traverse (normalize_transfer cycle) raw

abbrev pub precedes_start : Option ℕ → ℕ → Bool
precedes_start none start = false
precedes_start (some withdrawal) start = ltb withdrawal start

unfoldable pub normalize_lock : RawLockRecord → Result LockRecord
normalize_lock l = elim (tier_of_text l.tier) [
  | none ↦ err unsupported_tier
  | some tier ↦
      let start = b l.start_timestamp in
      let unlock = b l.unlock_timestamp in
      let withdrawal = Option.map b l.withdrawal_timestamp in
      fail_if (not (sub_ℕ unlock start ==ℤ pos (tier_specs tier).duration_seconds))
        unsupported_duration
      >> (fail_if (precedes_start withdrawal start) bad_withdrawal
          >> (normalize_address l.wallet >>= λ wallet. ok (record {
            wallet = wallet;
            raw_principal = b l.raw_principal;
            tier = tier;
            start_timestamp = start;
            unlock_timestamp = unlock;
            withdrawal_timestamp = withdrawal;
          })))
]

unfoldable pub normalize_locks : List RawLockRecord → Result (List LockRecord)
unfolding normalize_lock traverse
normalize_locks raw = traverse normalize_lock raw

unfoldable pub load_cycle_fixture : RawCycleFixture → Result CycleFixture
unfolding parse_cycle_fixture
load_cycle_fixture input = do
  raw ← parse_cycle_fixture input
  cycle ← normalize_cycle raw.cycle
  excluded ← normalize_exclusions raw.excluded_addresses
  eligibility ← normalize_eligibility raw.eligibility
  balances ← normalize_balances raw.epoch_start_balances
  transfers ← normalize_transfers raw.transfers cycle
  locks ← normalize_locks raw.locks
  assets ← normalize_assets raw.assets
  ok (record {
    cycle = cycle;
    excluded_addresses = excluded;
    eligibility = eligibility;
    epoch_start_balances = balances;
    transfers = transfers;
    locks = locks;
    assets = assets;
  })
