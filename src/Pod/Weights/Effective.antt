-- ===== src/Pod/Weights/Effective.antt =====
-- The weights that `computeWeights` returns: the bounds between the averages and the effective
-- weight, which the tier multipliers give.
use bps_protocol.Prelude.{
  ℕ, ◌+◌, ◌*◌, ◌≤◌, ◌≡◌, refl, some, List, [], ◌∷◌, arith, ltb, ok, >>=-eq-ok, All, subst, keep,
}
use bps_protocol.Text.{Text}
use bps_protocol.Dict.{Dict, get, put, All-put, All_get}
use bps_protocol.Pod.Model.{CycleConfig, ConfirmedTransfer, EpochStartBalance, LockRecord}
use bps_protocol.Pod.Transfers.{canonicalize_transfers}
use bps_protocol.Pod.Weights.Tiers.{active_total}
use bps_protocol.Pod.Weights.{
  Sums, no_sums, WalletWeight, WeightComputation, weigh, weigh_all, sweep, breakpoints, group_locks,
  seed_balances, add_holders, add_parties, add_lockers, compute_weights,
}
use bps_protocol.Pod.Weights.Split.{IsSplit, sweep-IsSplit}

-- The average of a wallet is the sum of its unlocked and locked averages, but for the seconds
-- that the five floors cut off; the effective weight counts every average at least once, and
-- none more than 1.75 times.
pub record IsBounded (x : WalletWeight) : Type 0 where
  pub parts_le : x.unlocked_twab + active_total x.locked_twab_by_tier ≤ x.base_twab
  pub le_parts : x.base_twab ≤ x.unlocked_twab + active_total x.locked_twab_by_tier + 4
  pub parts_le_weight : x.unlocked_twab + active_total x.locked_twab_by_tier ≤ x.effective_weight
  pub weight_le : x.effective_weight * 10000 ≤ 17500 * x.base_twab

abbrev IsWeighed : Dict ℕ → Sums → Text × WalletWeight → Type 0
IsWeighed b s e = weigh b s e.0 ≡ ok e.1

weigh-IsBounded :
    (b : Dict ℕ) (s : Sums) (w : Text) {x : WalletWeight}
    → IsSplit s
    → weigh b s w ≡ ok x
    → IsBounded x
unfolding weigh
weigh-IsBounded b s w split h = ground (arith, split w)

pub weigh_all-IsWeighed :
    (b : Dict ℕ) (s : Sums) (ws : List Text) (m m' : Dict WalletWeight)
    → weigh_all b s ws m ≡ ok m'
    → All (IsWeighed b s) m
    → All (IsWeighed b s) m'
unfolding weigh_all
weigh_all-IsWeighed b s [] m m' e h =
    let same : m ≡ m' = ground arith in subst (All (IsWeighed b s)) same h
weigh_all-IsWeighed b s (w ∷ ws) m m' e h =
    let (x, weighed, rest) = >>=-eq-ok (weigh b s w) _ e in
    weigh_all-IsWeighed b s ws (put m w x) m' rest (All-put (IsWeighed b s) m w x weighed h)

-- For each wallet that `computeWeights` weighs: the unlocked average and those of the tiers add
-- up to the base average or to at most 4 less, the effective weight is no less than their sum,
-- and no more than 1.75 times the base average.
pub compute_weights-IsBounded :
    (cycle : CycleConfig) (balances : List EpochStartBalance) (transfers : List ConfirmedTransfer)
    (locks : List LockRecord) (w : Text) {r : WeightComputation} {x : WalletWeight}
    → compute_weights cycle balances transfers locks ≡ ok r
    → get r.weights w ≡ some x
    → IsBounded x
unfolding compute_weights get
compute_weights-IsBounded cycle balances transfers locks w {r} h found =
    let (deduped, e, h') = >>=-eq-ok (canonicalize_transfers transfers) _ h in
    let in_epoch = keep (λ t. ltb t.timestamp cycle.epoch_end) deduped in
    let relevant = add_lockers (add_parties (add_holders [] balances) in_epoch) locks in
    let ((b, s), swept, h'') =
      >>=-eq-ok
        (sweep (group_locks [] locks) relevant
          (breakpoints cycle.epoch_start cycle.epoch_end in_epoch locks) in_epoch
          (seed_balances [] balances) no_sums)
        _ h' in
    let (m, weighed, done) = >>=-eq-ok (weigh_all b s relevant []) _ h'' in
    let same : m ≡ r.weights = ground arith in
    let split =
      sweep-IsSplit (group_locks [] locks) relevant _ in_epoch _ b no_sums s swept (λ _. refl) in
    weigh-IsBounded b s w split (
      All_get (IsWeighed b s) m w (weigh_all-IsWeighed b s relevant [] m weighed tt)
        (rw same found))
