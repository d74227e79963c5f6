-- ===== src/Pod/Weights.antt =====
-- `computeWeights` of twab.ts: the time-weighted balances and the effective weights of an epoch.
-- A second of the epoch counts the balance of a wallet once; `Sums` holds the products of balance
-- and seconds so far. `queue` is the part of `inEpoch` behind the cursor.
pub mod Seconds
pub mod Flow
pub mod Integral
pub mod Accrual
pub mod Breaks
pub mod Schedule
pub mod Tiers
pub mod Balances
pub mod Split
pub mod Steady
pub mod Relevant
pub mod Summed
pub mod Applied
pub mod Average
pub mod Effective
use bps_protocol.Prelude.{
  ℕ, ◌+◌, ◌-◌, ◌*◌, ◌/◌, ◌≡◌, Bool, true, false, not, ◌&&◌, ◌||◌, Option, none, some, List, [], ◌∷◌,
  ◌++◌, arith, ltb, leb, ◌==◌, if◌then◌else◌, Outcome, ok, err, ◌>>=◌, keep,
}
use bps_protocol.Text.{Text, text_eq}
use bps_protocol.Order.{sort_by}
use bps_protocol.Dict.{Dict, get, put, get_or, add}
use bps_protocol.Pod.Fault.{Result, negative_balance, lock_exceeds_balance}
use bps_protocol.Pod.Numeric.{mul_div_floor}
use bps_protocol.Pod.Address.{zero_address}
use bps_protocol.Pod.Epoch.{epoch_seconds}
use bps_protocol.Pod.Model.{
  LockTier, lock_7d, lock_14d, lock_21d, lock_30d, tier_specs, supported_lock_tiers, CycleConfig,
  ConfirmedTransfer, EpochStartBalance, LockRecord,
}
use bps_protocol.Pod.Transfers.{canonicalize_transfers}
use Tiers.{
  TierAmounts, zero_tier_record, tier_amount, add_tier, active_locked_by_tier, bonus_end,
  active_total,
}

pub record WalletWeight : Type 0 where
  pub wallet : Text
  pub snapshot_balance : ℕ
  pub base_twab : ℕ
  pub unlocked_twab : ℕ
  pub locked_twab_by_tier : TierAmounts
  pub effective_weight : ℕ

pub record WeightComputation : Type 0 where
  pub weights : Dict WalletWeight
  pub applied_transfers : List ConfirmedTransfer

-- `applyTransfer`: the debit, which may fail, and the credit.
unfoldable pub debit : Dict ℕ → Text → ℕ → Result (Dict ℕ)
debit balances sender amount =
    if text_eq sender zero_address
    then ok balances
    else (let cur = get_or 0 balances sender in
        if ltb cur amount then err negative_balance else ok (put balances sender (cur - amount)))

unfoldable pub credit : Dict ℕ → Text → ℕ → Dict ℕ
credit balances recipient amount =
    if text_eq recipient zero_address
    then balances
    else put balances recipient (get_or 0 balances recipient + amount)

unfoldable pub apply_transfer : Dict ℕ → ConfirmedTransfer → Result (Dict ℕ)
unfolding debit credit
apply_transfer balances tr = do
  after ← debit balances tr.sender tr.raw_amount
  ok (credit after tr.recipient tr.raw_amount)

-- The `while` loop: applies the transfers at time `t`, and returns the rest of the queue.
unfoldable pub apply_due :
    ℕ → List ConfirmedTransfer → Dict ℕ → Result (List ConfirmedTransfer × Dict ℕ)
apply_due t [] balances = ok ([], balances)
apply_due t (tr ∷ queue) balances =
    let next = apply_transfer balances tr >>= (λ after. apply_due t queue after) in
    if tr.timestamp == t then next else ok (tr ∷ queue, balances)

pub record Sums : Type 0 where
  pub base_seconds : Dict ℕ
  pub unlocked_seconds : Dict ℕ
  pub locked_seconds : Dict TierAmounts

unfoldable pub bump : Dict ℕ → Text → ℕ → Dict ℕ
bump m w v = if v == 0 then m else put m w (get_or 0 m w + v)

-- The innermost loop over the tiers.
unfoldable pub bump_tiers :
    TierAmounts → ℕ → Text → List LockTier → Dict TierAmounts → Dict TierAmounts
bump_tiers active dur w [] locked = locked
bump_tiers active dur w (tier ∷ tiers) locked = bump_tiers active dur w tiers (
    if tier_amount active tier == 0
    then locked
    else put locked w
        (add_tier (get_or zero_tier_record locked w) tier (tier_amount active tier * dur)))

-- One wallet over one interval.
unfoldable pub accrue_wallet : Dict ℕ → Dict (List LockRecord) → ℕ → ℕ → Sums → Text → Result Sums
unfolding bump bump_tiers
accrue_wallet balances locks_by_wallet t dur sums w =
    let bal = get_or 0 balances w in
    let active = active_locked_by_tier (get_or [] locks_by_wallet w) t in
    if ltb bal (active_total active)
    then err lock_exceeds_balance
    else ok (record {
      base_seconds = bump sums.base_seconds w (bal * dur);
      unlocked_seconds = bump sums.unlocked_seconds w ((bal - active_total active) * dur);
      locked_seconds = bump_tiers active dur w supported_lock_tiers sums.locked_seconds;
    })

unfoldable pub accrue_all : Dict ℕ → Dict (List LockRecord) → ℕ → ℕ → Sums → List Text → Result Sums
accrue_all balances locks t dur sums [] = ok sums
accrue_all balances locks t dur sums (w ∷ ws) =
    accrue_wallet balances locks t dur sums w >>= λ sums'. accrue_all balances locks t dur sums' ws

-- The main loop, over the breakpoints that are left: the final balances and sums.
unfoldable pub sweep :
    Dict (List LockRecord)
    → List Text
    → List ℕ
    → List ConfirmedTransfer
    → Dict ℕ
    → Sums
    → Result (Dict ℕ × Sums)
sweep locks relevant [] queue balances sums = ok (balances, sums)
sweep locks relevant (t ∷ []) queue balances sums = ok (balances, sums)
sweep locks relevant (t ∷ next ∷ times) queue balances sums = do
  (queue', balances') ← apply_due t queue balances
  sums' ← (if leb next t then ok sums else accrue_all balances' locks t (next - t) sums relevant)
  sweep locks relevant (next ∷ times) queue' balances' sums'

-- The loops before the main one: balances, relevant wallets, locks by wallet, breakpoints.
unfoldable pub seed_balances : Dict ℕ → List EpochStartBalance → Dict ℕ
seed_balances m [] = m
seed_balances m (b ∷ bs) = seed_balances (put m b.wallet b.raw_balance) bs

unfoldable pub add_holders : List Text → List EpochStartBalance → List Text
add_holders s [] = s
add_holders s (b ∷ bs) = add_holders (add s b.wallet) bs

abbrev pub add_party : List Text → Text → List Text
add_party s a = if text_eq a zero_address then s else add s a

unfoldable pub add_parties : List Text → List ConfirmedTransfer → List Text
add_parties s [] = s
add_parties s (t ∷ ts) = add_parties (add_party (add_party s t.sender) t.recipient) ts

unfoldable pub add_lockers : List Text → List LockRecord → List Text
add_lockers s [] = s
add_lockers s (l ∷ ls) = add_lockers (add s l.wallet) ls

unfoldable pub group_locks : Dict (List LockRecord) → List LockRecord → Dict (List LockRecord)
group_locks m [] = m
group_locks m (l ∷ ls) = group_locks (put m l.wallet (get_or [] m l.wallet ++ l ∷ [])) ls

unfoldable pub has_time : List ℕ → ℕ → Bool
has_time [] t = false
has_time (u ∷ s) t = u == t || has_time s t

unfoldable pub add_time : List ℕ → ℕ → List ℕ
unfolding has_time
add_time s t = if has_time s t then s else s ++ t ∷ []

abbrev pub add_inside : ℕ → ℕ → List ℕ → ℕ → List ℕ
add_inside e0 e1 s t = if ltb e0 t && ltb t e1 then add_time s t else s

unfoldable pub add_transfer_times : List ℕ → List ConfirmedTransfer → List ℕ
add_transfer_times s [] = s
add_transfer_times s (t ∷ ts) = add_transfer_times (add_time s t.timestamp) ts

unfoldable pub add_lock_times : ℕ → ℕ → List ℕ → List LockRecord → List ℕ
add_lock_times e0 e1 s [] = s
add_lock_times e0 e1 s (l ∷ ls) =
    let inside = add_inside e0 e1 in
    let bounded = inside (inside (inside s l.start_timestamp) l.unlock_timestamp) (bonus_end l) in
    let all : List ℕ = elim l.withdrawal_timestamp [ none ↦ bounded | some w ↦ inside bounded w ] in
    add_lock_times e0 e1 all ls

unfoldable pub breakpoints : ℕ → ℕ → List ConfirmedTransfer → List LockRecord → List ℕ
unfolding add_time add_transfer_times add_lock_times
breakpoints e0 e1 in_epoch locks =
    sort_by ltb (add_lock_times e0 e1 (add_transfer_times (e0 ∷ []) in_epoch) locks) ++ e1 ∷ []

-- The last loop.
unfoldable pub add_locked_weights : TierAmounts → List LockTier → ℕ → Result ℕ
unfolding mul_div_floor
add_locked_weights twab [] weight = ok weight
add_locked_weights twab (tier ∷ tiers) weight = do
  locked ← mul_div_floor (tier_amount twab tier) (tier_specs tier).multiplier_bps 10000
  add_locked_weights twab tiers (weight + locked)

unfoldable pub twab_by_tier : TierAmounts → TierAmounts
twab_by_tier seconds = record {
  at_7d = seconds.at_7d / epoch_seconds;
  at_14d = seconds.at_14d / epoch_seconds;
  at_21d = seconds.at_21d / epoch_seconds;
  at_30d = seconds.at_30d / epoch_seconds;
}

unfoldable pub weigh : Dict ℕ → Sums → Text → Result WalletWeight
unfolding twab_by_tier add_locked_weights
weigh balances sums w =
    let unlocked = get_or 0 sums.unlocked_seconds w / epoch_seconds in
    let locked = twab_by_tier (get_or zero_tier_record sums.locked_seconds w) in
    add_locked_weights locked supported_lock_tiers unlocked >>= λ effective. ok (record {
      wallet = w;
      snapshot_balance = get_or 0 balances w;
      base_twab = get_or 0 sums.base_seconds w / epoch_seconds;
      unlocked_twab = unlocked;
      locked_twab_by_tier = locked;
      effective_weight = effective;
    })

unfoldable pub weigh_all :
    Dict ℕ → Sums → List Text → Dict WalletWeight → Result (Dict WalletWeight)
weigh_all balances sums [] out = ok out
weigh_all balances sums (w ∷ ws) out =
    weigh balances sums w >>= λ weight. weigh_all balances sums ws (put out w weight)

abbrev pub no_sums : Sums
no_sums = record { base_seconds = []; unlocked_seconds = []; locked_seconds = [] }

unfoldable pub compute_weights :
    CycleConfig
    → List EpochStartBalance
    → List ConfirmedTransfer
    → List LockRecord
    → Result WeightComputation
compute_weights cycle epoch_start_balances transfers locks = do
  deduped ← canonicalize_transfers transfers
  let in_epoch = keep (λ t. ltb t.timestamp cycle.epoch_end) deduped
  let relevant = add_lockers (add_parties (add_holders [] epoch_start_balances) in_epoch) locks
  let times = breakpoints cycle.epoch_start cycle.epoch_end in_epoch locks
  (balances, sums) ←
      sweep (group_locks [] locks) relevant times in_epoch (seed_balances [] epoch_start_balances)
        no_sums
  weights ← weigh_all balances sums relevant []
  ok (record { weights = weights; applied_transfers = in_epoch })
