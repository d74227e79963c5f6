-- ===== src/Pod/Weights/Summed.antt =====
-- The main loop from the start of the epoch to its end: its sums are the sums over the seconds.
use bps_protocol.Prelude.{
  ℕ, ◌+◌, ◌-◌, ◌*◌, ◌≤◌, ◌<◌, ◌≡◌, refl, sym, ◌∙◌, ap, subst, List, [], ◌∷◌, arith, ok, All,
  All-keep,
}
use bps_protocol.Text.{Text, text_eq}
use bps_protocol.Dict.{Dict, get, get_or}
use bps_protocol.Pod.Model.{
  LockTier, lock_7d, lock_14d, lock_21d, lock_30d, ConfirmedTransfer, LockRecord,
}
use bps_protocol.Pod.Weights.Tiers.{TierAmounts, tier_amount, active_total, active_locked_by_tier}
use bps_protocol.Pod.Weights.{Sums, no_sums, sweep, group_locks, accrue_all}
use bps_protocol.Pod.Weights.Seconds.{over, over-eq}
use bps_protocol.Pod.Weights.Flow.{balance_at, IsAscending}
use bps_protocol.Pod.Weights.Integral.{sweep-over, sweep-balance}
use bps_protocol.Pod.Weights.Accrual.{
  count, accrue_all-base, accrue_all-unlocked, accrue_all-locked,
}
use bps_protocol.Pod.Weights.Split.{base_of, unlocked_of, locked_of}
use bps_protocol.Pod.Weights.Schedule.{IsSchedule}
use bps_protocol.Pod.Weights.Steady.{
  locked_at, group_locks-locks_of, HasNoBounds, active-IsSteady, active_locked_by_tier-locked_at,
}

-- What a wallet has locked in all tiers at a second.
abbrev pub locked_total_at : List LockRecord → Text → ℕ → ℕ
locked_total_at locks w s =
    locked_at locks w lock_7d s
    + locked_at locks w lock_14d s
    + locked_at locks w lock_21d s
    + locked_at locks w lock_30d s

-- After the main loop: the sums over the seconds of the epoch of what a wallet held, held unlocked
-- and held locked in each tier, and the balance at its end.
pub record IsSummed (e0 e1 start : ℕ) (applied : List ConfirmedTransfer) (locks : List LockRecord)
    (w : Text) (b : Dict ℕ) (s : Sums) : Type 0 where
  pub base : base_of s w ≡ over (balance_at start applied w) e0 (e1 - e0)
  pub unlocked :
      unlocked_of s w
      ≡ over (λ u. balance_at start applied w u - locked_total_at locks w u) e0 (e1 - e0)
  pub locked : (tier : LockTier) → locked_of s w tier ≡ over (locked_at locks w tier) e0 (e1 - e0)
  pub balance : get_or 0 b w ≡ balance_at start applied w e1

active_total-locked :
    (locks : List LockRecord) (w : Text) (s : ℕ)
    → active_total (active_locked_by_tier (get_or [] (group_locks [] locks) w) s)
      ≡ locked_total_at locks w s
active_total-locked locks w s = omega (
  arith,
  active_locked_by_tier-locked_at locks w lock_7d s,
  active_locked_by_tier-locked_at locks w lock_14d s,
  active_locked_by_tier-locked_at locks w lock_21d s,
  active_locked_by_tier-locked_at locks w lock_30d s,
)

scale : (g c x y : ℕ) → g ≡ 0 → c ≡ 1 → x ≡ y → g + c * x ≡ y
scale g c x y p q r = rw (p, q, r) (omega arith)

module _ (e0 e1 : ℕ) (queue : List ConfirmedTransfer) (locks : List LockRecord)
    (relevant : List Text) (rest : List ℕ) (b b' : Dict ℕ) (s : Sums) (w : Text)
    (swept : sweep (group_locks [] locks) relevant (e0 ∷ rest) queue b no_sums ≡ ok (b', s))
    (schedule : IsSchedule e0 e1 queue locks rest) (from : All (λ q. e0 ≤ q.timestamp) queue)
    (ascending : IsAscending queue) (before : All (λ q. q.timestamp < e1) queue)
    (once : count relevant w ≡ 1) where
  abbrev own : List LockRecord
  own = get_or [] (group_locks [] locks) w

  own_bounds : All (HasNoBounds (e0 ∷ rest)) own
  own_bounds =
      subst (All (HasNoBounds (e0 ∷ rest))) (sym (group_locks-locks_of locks w))
        (All-keep (HasNoBounds (e0 ∷ rest)) (λ l. text_eq l.wallet w) locks schedule.apart)

  summed :
      (f : ℕ → TierAmounts → ℕ) (gain : Sums → ℕ)
      → gain no_sums ≡ 0
      → ((c : Dict ℕ) (t dur : ℕ) (m m' : Sums)
          → accrue_all c (group_locks [] locks) t dur m relevant ≡ ok m'
          → gain m'
            ≡ gain m + count relevant w * (f (get_or 0 c w) (active_locked_by_tier own t) * dur))
      → gain s
        ≡ over
            (λ u. f (balance_at (get_or 0 b w) queue w u) (active_locked_by_tier own u))
            e0
            (e1 - e0)
  summed f gain zero gains =
      let sum =
        sweep-over (group_locks [] locks) relevant w (λ c u. f c (active_locked_by_tier own u)) gain
          (count relevant w) gains e0 rest queue b b' no_sums s swept schedule.rising
          (active-IsSteady f own (e0 ∷ rest) own_bounds) schedule.timed from ascending in
      sum
      ∙ scale (gain no_sums) (count relevant w) _ _ zero once (
          ap
            (λ n.
              over (λ u. f (balance_at (get_or 0 b w) queue w u) (active_locked_by_tier own u)) e0
                (n - e0))
            schedule.last)

  pub sweep-IsSummed : IsSummed e0 e1 (get_or 0 b w) queue locks w b' s
  unfolding get
  sweep-IsSummed = record {
    base =
        summed (λ c a. c) (λ m. base_of m w) refl
          (λ c t dur. accrue_all-base (group_locks [] locks) w c t dur relevant);
    unlocked =
        summed (λ c a. c - active_total a) (λ m. unlocked_of m w) refl
          (λ c t dur. accrue_all-unlocked (group_locks [] locks) w c t dur relevant)
        ∙ over-eq _ _ e0 (e1 - e0) (λ u p q.
          ap (λ n. balance_at (get_or 0 b w) queue w u - n) (active_total-locked locks w u));
    locked = λ tier.
        summed (λ c a. tier_amount a tier) (λ m. locked_of m w tier) (no_tier tier)
          (λ c t dur. accrue_all-locked (group_locks [] locks) w c t dur tier relevant)
        ∙ over-eq _ _ e0 (e1 - e0) (λ u p q. active_locked_by_tier-locked_at locks w tier u);
    balance =
        sweep-balance (group_locks [] locks) relevant w e0 rest queue b b' no_sums s swept
          schedule.rising schedule.timed from ascending
          (subst (λ e. All (λ q. q.timestamp < e) queue) (sym schedule.last) before)
        ∙ ap (λ e. balance_at (get_or 0 b w) queue w e) schedule.last;
  }
    where
      no_tier : (tier : LockTier) → locked_of no_sums w tier ≡ 0
      no_tier lock_7d = refl
      no_tier lock_14d = refl
      no_tier lock_21d = refl
      no_tier lock_30d = refl
