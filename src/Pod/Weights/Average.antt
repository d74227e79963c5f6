-- ===== src/Pod/Weights/Average.antt =====
-- The averages that `computeWeights` returns are the sums over the seconds of the epoch of what a
-- wallet held, held unlocked and held locked at each second, divided by the length of an epoch.
use bps_protocol.Prelude.{
  All-both, ℕ, ◌-◌, ◌/◌, ◌≤◌, ◌<◌, ◌≡◌, refl, sym, ◌∙◌, ap, subst, Bool, Bool-cases, inl, inr, some,
  List, [], ◌∷◌, ltb, ok, >>=-eq-ok, ok-injective, All, All-map_pred, All-keep, All_at, keep,
  if◌then◌else◌,
}
use bps_protocol.Text.{Text}
use bps_protocol.Dict.{Dict, get, get_or, All_get}
use bps_protocol.Pod.Epoch.{epoch_seconds}
use bps_protocol.Pod.Model.{
  supported_lock_tiers, LockTier, lock_7d, lock_14d, lock_21d, lock_30d, CycleConfig,
  ConfirmedTransfer, EpochStartBalance, LockRecord,
}
use bps_protocol.Pod.Transfers.{canonicalize_transfers}
use bps_protocol.Pod.Transfers.Canonical.{IsChronological, canonicalize_transfers_sound}
use bps_protocol.Pod.Weights.Applied.{keep-early}
use bps_protocol.Pod.Weights.Tiers.{TierAmounts, zero_tier_record, tier_amount}
use bps_protocol.Pod.Weights.{
  Sums, no_sums, WalletWeight, WeightComputation, weigh, weigh_all, sweep, breakpoints, group_locks,
  seed_balances, add_holders, add_parties, add_lockers, compute_weights, twab_by_tier,
  add_locked_weights,
}
use bps_protocol.Pod.Weights.Seconds.{over}
use bps_protocol.Pod.Weights.Flow.{balance_at, IsAscending}
use bps_protocol.Pod.Weights.Accrual.{count}
use bps_protocol.Pod.Weights.Split.{base_of, unlocked_of}
use bps_protocol.Pod.Weights.Schedule.{breakpoints-IsSchedule}
use bps_protocol.Pod.Weights.Steady.{locked_at}
use bps_protocol.Pod.Weights.Summed.{locked_total_at, IsSummed, sweep-IsSummed}
use bps_protocol.Pod.Weights.Relevant.{relevant-IsDistinct, IsWeighedIn, weigh_all-IsWeighedIn}

-- The averages per second, from a start balance and the transfers applied.
pub record IsAveraged (e0 e1 start : ℕ) (applied : List ConfirmedTransfer) (locks : List LockRecord)
    (w : Text) (x : WalletWeight) : Type 0 where
  pub base : x.base_twab ≡ over (balance_at start applied w) e0 (e1 - e0) / epoch_seconds
  pub unlocked :
      x.unlocked_twab
      ≡ over (λ s. balance_at start applied w s - locked_total_at locks w s) e0 (e1 - e0)
        / epoch_seconds
  pub locked :
      (tier : LockTier)
      → tier_amount x.locked_twab_by_tier tier
        ≡ over (locked_at locks w tier) e0 (e1 - e0) / epoch_seconds
  pub snapshot : x.snapshot_balance ≡ balance_at start applied w e1

-- What `weigh` takes from the sums and the balances.
weigh-parts :
    (b : Dict ℕ) (s : Sums) (w : Text) {x : WalletWeight}
    → weigh b s w ≡ ok x
    → (x.base_twab ≡ base_of s w / epoch_seconds)
      × (x.unlocked_twab ≡ unlocked_of s w / epoch_seconds)
      × (x.locked_twab_by_tier ≡ twab_by_tier (get_or zero_tier_record s.locked_seconds w))
      × (x.snapshot_balance ≡ get_or 0 b w)
unfolding weigh
weigh-parts b s w {x} e =
    let twab = twab_by_tier (get_or zero_tier_record s.locked_seconds w) in
    let free = unlocked_of s w / epoch_seconds in
    let (effective, added, done) =
      >>=-eq-ok (add_locked_weights twab supported_lock_tiers free)
        (λ effective. ok (record {
          wallet = w;
          snapshot_balance = get_or 0 b w;
          base_twab = base_of s w / epoch_seconds;
          unlocked_twab = free;
          locked_twab_by_tier = twab;
          effective_weight = effective;
        }))
        e in
    let same = sym (ok-injective done) in
    (
      ap (λ (y : WalletWeight). y.base_twab) same,
      ap (λ (y : WalletWeight). y.unlocked_twab) same,
      ap (λ (y : WalletWeight). y.locked_twab_by_tier) same,
      ap (λ (y : WalletWeight). y.snapshot_balance) same,
    )

tier_amount-twab_by_tier :
    (r : TierAmounts) (tier : LockTier)
    → tier_amount (twab_by_tier r) tier ≡ tier_amount r tier / epoch_seconds
unfolding twab_by_tier
tier_amount-twab_by_tier r lock_7d = refl
tier_amount-twab_by_tier r lock_14d = refl
tier_amount-twab_by_tier r lock_21d = refl
tier_amount-twab_by_tier r lock_30d = refl

weigh-IsAveraged :
    (e0 e1 start : ℕ) (applied : List ConfirmedTransfer) (locks : List LockRecord) (w : Text)
    (b : Dict ℕ) (s : Sums) {x : WalletWeight}
    → IsSummed e0 e1 start applied locks w b s
    → weigh b s w ≡ ok x
    → IsAveraged e0 e1 start applied locks w x
weigh-IsAveraged e0 e1 start applied locks w b s h e =
    let (base, unlocked, locked, snapshot) = weigh-parts b s w e in
    record {
      base = base ∙ ap (λ n. n / epoch_seconds) h.base;
      unlocked = unlocked ∙ ap (λ n. n / epoch_seconds) h.unlocked;
      locked = λ tier.
          ap (λ r. tier_amount r tier) locked
          ∙ (tier_amount-twab_by_tier (get_or zero_tier_record s.locked_seconds w) tier
              ∙ ap (λ n. n / epoch_seconds) (h.locked tier));
      snapshot = snapshot ∙ h.balance;
    }

chronological-IsAscending : (ts : List ConfirmedTransfer) → IsChronological ts → IsAscending ts
chronological-IsAscending [] h = tt
chronological-IsAscending (t ∷ ts) h =
    (All-map_pred (λ u p. p.1) ts h.0, chronological-IsAscending ts h.1)

keep-IsAscending :
    (p : ConfirmedTransfer → Bool) (ts : List ConfirmedTransfer)
    → IsAscending ts
    → IsAscending (keep p ts)
unfolding keep
keep-IsAscending p [] h = tt
keep-IsAscending p (t ∷ ts) h = elim (Bool-cases (p t)) [
  | inl e ↦ rw e (All-keep (λ u. t.timestamp ≤ u.timestamp) p ts h.0, keep-IsAscending p ts h.1)
  | inr e ↦ rw e (keep-IsAscending p ts h.1)
]

-- For each wallet that `computeWeights` weighs, in an epoch that ends after it starts and with no
-- transfer from before it: the base average is the sum, over the seconds of the epoch, of the
-- balance that the start balance and the applied transfers up to that second give, divided by 900;
-- the unlocked average is that of the balance without the wallet's active locks; the average of
-- each tier that of the active locks of the tier; and the snapshot is the balance at the end.
pub compute_weights-IsAveraged :
    (cycle : CycleConfig) (balances : List EpochStartBalance) (transfers : List ConfirmedTransfer)
    (locks : List LockRecord) (w : Text) {r : WeightComputation} {x : WalletWeight}
    → cycle.epoch_start < cycle.epoch_end
    → All (λ t. cycle.epoch_start ≤ t.timestamp) transfers
    → compute_weights cycle balances transfers locks ≡ ok r
    → get r.weights w ≡ some x
    → IsAveraged cycle.epoch_start cycle.epoch_end
        (get_or 0 (seed_balances [] balances) w)
        r.applied_transfers
        locks
        w
        x
unfolding compute_weights
compute_weights-IsAveraged cycle balances transfers locks w {r} {x} lt started h found =
    let e0 = cycle.epoch_start in
    let e1 = cycle.epoch_end in
    let (deduped, e, h') = >>=-eq-ok (canonicalize_transfers transfers) _ h in
    let queue = keep (λ t. ltb t.timestamp e1) deduped in
    let relevant = add_lockers (add_parties (add_holders [] balances) queue) locks in
    let ((b, s), swept, h'') =
      >>=-eq-ok
        (sweep (group_locks [] locks) relevant (breakpoints e0 e1 queue locks) queue
          (seed_balances [] balances) no_sums)
        _ h' in
    let (m, weighed, done) = >>=-eq-ok (weigh_all b s relevant []) _ h'' in
    let result : record { weights = m; applied_transfers = queue } ≡ r = ok-injective done in
    let (chronological, genuine, held) = canonicalize_transfers_sound transfers e in
    let ascending =
      keep-IsAscending (λ t. ltb t.timestamp e1) deduped
        (chronological-IsAscending deduped chronological) in
    let from : All (λ q. e0 ≤ q.timestamp) queue =
      All-keep (λ q. e0 ≤ q.timestamp) (λ t. ltb t.timestamp e1) deduped
        (All-map_pred (λ u k. All_at (λ q. e0 ≤ q.timestamp) u transfers started k) deduped
          genuine) in
    let before = keep-early e1 deduped in
    let (rest, times, schedule) =
      breakpoints-IsSchedule e0 e1 queue locks lt
        (All-both (λ q. e0 ≤ q.timestamp) (λ q. q.timestamp < e1) queue from before) in
    let there : get m w ≡ some x = ap (λ (c : WeightComputation). get c.weights w) result ∙ found in
    let (made, is_relevant) =
      All_get (IsWeighedIn b s relevant) m w (weigh_all-IsWeighedIn b s relevant m weighed) there in
    let once : count relevant w ≡ 1 =
      relevant-IsDistinct balances queue locks w ∙ ap (λ c. if c then 1 else 0) is_relevant in
    let start = seed_balances [] balances in
    let swept' =
      subst (λ ts. sweep (group_locks [] locks) relevant ts queue start no_sums ≡ ok (b, s)) times
        swept in
    let summed =
      sweep-IsSummed e0 e1 queue locks relevant rest start b s w swept' schedule from ascending
        before once in
    subst
      (λ (c : WeightComputation). IsAveraged e0 e1 (get_or 0 start w) c.applied_transfers locks w x)
      result (weigh-IsAveraged e0 e1 (get_or 0 start w) queue locks w b s summed made)
