-- ===== src/Pod/Weights/Tiers.antt =====
-- `activeLockedByTier` of twab.ts: the amounts that are locked at a time, by tier.
use bps_protocol.Prelude.{ℕ, ◌+◌, Bool, ◌&&◌, none, some, List, [], ◌∷◌, ltb, leb, if◌then◌else◌}
use bps_protocol.Pod.Model.{LockTier, lock_7d, lock_14d, lock_21d, lock_30d, LockRecord}

pub record TierAmounts : Type 0 where
  pub at_7d : ℕ
  pub at_14d : ℕ
  pub at_21d : ℕ
  pub at_30d : ℕ

abbrev pub zero_tier_record : TierAmounts
zero_tier_record = record { at_7d = 0; at_14d = 0; at_21d = 0; at_30d = 0 }

abbrev pub tier_amount : TierAmounts → LockTier → ℕ
tier_amount r lock_7d = r.at_7d
tier_amount r lock_14d = r.at_14d
tier_amount r lock_21d = r.at_21d
tier_amount r lock_30d = r.at_30d

-- `record[tier] += amount`
abbrev pub add_tier : TierAmounts → LockTier → ℕ → TierAmounts
add_tier r lock_7d amount = record r { at_7d = r.at_7d + amount }
add_tier r lock_14d amount = record r { at_14d = r.at_14d + amount }
add_tier r lock_21d amount = record r { at_21d = r.at_21d + amount }
add_tier r lock_30d amount = record r { at_30d = r.at_30d + amount }

-- `activeTotal`
abbrev pub active_total : TierAmounts → ℕ
active_total r = r.at_7d + r.at_14d + r.at_21d + r.at_30d

unfoldable pub bonus_end : LockRecord → ℕ
bonus_end l = elim l.withdrawal_timestamp [
  | none ↦ l.unlock_timestamp
  | some withdrawal ↦ if ltb withdrawal l.unlock_timestamp then withdrawal else l.unlock_timestamp
]

abbrev pub is_active : LockRecord → ℕ → Bool
is_active l t = leb l.start_timestamp t && ltb t (bonus_end l)

unfoldable pub active_from : TierAmounts → List LockRecord → ℕ → TierAmounts
active_from out [] t = out
active_from out (l ∷ ls) t =
    active_from (if is_active l t then add_tier out l.tier l.raw_principal else out) ls t

unfoldable pub active_locked_by_tier : List LockRecord → ℕ → TierAmounts
unfolding active_from bonus_end
active_locked_by_tier locks t = active_from zero_tier_record locks t
