-- ===== src/Pod/Weights/Split.antt =====
-- The sums of the main loop: what is counted for a wallet is counted once as unlocked or as
-- locked in one of the tiers.
use bps_protocol.Prelude.{
  ℕ, ◌+◌, ◌-◌, ◌*◌, ◌≤◌, ◌≡◌, Bool, true, false, List, [], ◌∷◌, arith, leb, ◌==◌, if◌then◌else◌, ok,
  Bool-cases, inl, inr, >>=-eq-ok, ◌∙◌, ap, subst,
}
use bps_protocol.Text.{Text, text_eq, text_eq_iff}
use bps_protocol.Dict.{Dict, put, get_or, get-put}
use bps_protocol.Pod.Model.{
  LockTier, lock_7d, lock_14d, lock_21d, lock_30d, LockRecord, ConfirmedTransfer,
  supported_lock_tiers,
}
use bps_protocol.Pod.Weights.Tiers.{
  TierAmounts, zero_tier_record, tier_amount, add_tier, active_locked_by_tier, active_total,
}
use bps_protocol.Pod.Weights.{Sums, bump, bump_tiers, accrue_wallet, accrue_all, apply_due, sweep}

get-bump :
    (m : Dict ℕ) (k w : Text) (v : ℕ)
    → get_or 0 (bump m k v) w ≡ get_or 0 m w + (if text_eq k w then v else 0)
unfolding bump
get-bump m k w v = ground (arith, get-put m k w (get_or 0 m k + v), text_eq_iff k w)

-- The locked seconds of a wallet in a tier.
abbrev pub locked_in : Dict TierAmounts → Text → LockTier → ℕ
locked_in m w tier = tier_amount (get_or zero_tier_record m w) tier

abbrev pub same_tier : LockTier → LockTier → Bool
same_tier lock_7d lock_7d = true
same_tier lock_14d lock_14d = true
same_tier lock_21d lock_21d = true
same_tier lock_30d lock_30d = true
same_tier _ _ = false

locked_in-bump_tier :
    (m : Dict TierAmounts) (active : TierAmounts) (dur : ℕ) (k w : Text) (tier u : LockTier)
    → locked_in
        (if tier_amount active tier == 0
          then m
          else put m k
              (add_tier (get_or zero_tier_record m k) tier (tier_amount active tier * dur)))
        w
        u
      ≡ locked_in m w u
        + (if text_eq k w then if same_tier tier u then tier_amount active tier * dur else 0 else 0)
locked_in-bump_tier m active dur k w lock_7d u = ground (
  arith,
  get-put m k w (add_tier (get_or zero_tier_record m k) lock_7d (tier_amount active lock_7d * dur)),
  text_eq_iff k w,
)
locked_in-bump_tier m active dur k w lock_14d u = ground (
  arith,
  get-put m k w
      (add_tier (get_or zero_tier_record m k) lock_14d (tier_amount active lock_14d * dur)),
  text_eq_iff k w,
)
locked_in-bump_tier m active dur k w lock_21d u = ground (
  arith,
  get-put m k w
      (add_tier (get_or zero_tier_record m k) lock_21d (tier_amount active lock_21d * dur)),
  text_eq_iff k w,
)
locked_in-bump_tier m active dur k w lock_30d u = ground (
  arith,
  get-put m k w
      (add_tier (get_or zero_tier_record m k) lock_30d (tier_amount active lock_30d * dur)),
  text_eq_iff k w,
)

tier_gain : TierAmounts → ℕ → List LockTier → LockTier → ℕ
tier_gain active dur [] u = 0
tier_gain active dur (tier ∷ tiers) u =
    (if same_tier tier u then tier_amount active tier * dur else 0) + tier_gain active dur tiers u

locked_in-bump_each :
    (tiers : List LockTier) (m : Dict TierAmounts) (active : TierAmounts) (dur : ℕ) (k w : Text)
    (u : LockTier)
    → locked_in (bump_tiers active dur k tiers m) w u
      ≡ locked_in m w u + (if text_eq k w then tier_gain active dur tiers u else 0)
unfolding bump_tiers tier_gain
locked_in-bump_each [] m active dur k w u = ground arith
locked_in-bump_each (tier ∷ tiers) m active dur k w u =
    let n =
      if tier_amount active tier == 0
      then m
      else put m k (add_tier (get_or zero_tier_record m k) tier (tier_amount active tier * dur)) in
    locked_in-bump_each tiers n active dur k w u
    ∙ (rw (locked_in-bump_tier m active dur k w tier u) (ground arith))

tier_gain-supported :
    (active : TierAmounts) (dur : ℕ) (u : LockTier)
    → tier_gain active dur supported_lock_tiers u ≡ tier_amount active u * dur
unfolding tier_gain
tier_gain-supported active dur lock_7d = omega arith
tier_gain-supported active dur lock_14d = omega arith
tier_gain-supported active dur lock_21d = omega arith
tier_gain-supported active dur lock_30d = omega arith

-- Over an interval each tier of the wallet gains its active amount for each second.
pub locked_in-bump_tiers :
    (m : Dict TierAmounts) (active : TierAmounts) (dur : ℕ) (k w : Text) (u : LockTier)
    → locked_in (bump_tiers active dur k supported_lock_tiers m) w u
      ≡ locked_in m w u + (if text_eq k w then tier_amount active u * dur else 0)
locked_in-bump_tiers m active dur k w u =
    rw (← tier_gain-supported active dur u)
      (locked_in-bump_each supported_lock_tiers m active dur k w u)

abbrev pub base_of : Sums → Text → ℕ
base_of sums w = get_or 0 sums.base_seconds w

abbrev pub unlocked_of : Sums → Text → ℕ
unlocked_of sums w = get_or 0 sums.unlocked_seconds w

abbrev pub locked_of : Sums → Text → LockTier → ℕ
locked_of sums w tier = locked_in sums.locked_seconds w tier

-- What one interval adds for wallet `k` to the sums of wallet `w`.
pub record Gains (bal : ℕ) (active : TierAmounts) (dur : ℕ) (k w : Text) (s s' : Sums)
    : Type 0 where
  pub covered : active_total active ≤ bal
  pub base : base_of s' w ≡ base_of s w + (if text_eq k w then bal * dur else 0)
  pub unlocked :
      unlocked_of s' w
      ≡ unlocked_of s w + (if text_eq k w then (bal - active_total active) * dur else 0)
  pub locked :
      (u : LockTier)
      → locked_of s' w u ≡ locked_of s w u + (if text_eq k w then tier_amount active u * dur else 0)

pub accrue_wallet-Gains :
    (b : Dict ℕ) (locks : Dict (List LockRecord)) (t dur : ℕ) (s s' : Sums) (k w : Text)
    → accrue_wallet b locks t dur s k ≡ ok s'
    → Gains (get_or 0 b k) (active_locked_by_tier (get_or [] locks k) t) dur k w s s'
unfolding accrue_wallet
accrue_wallet-Gains b locks t dur s s' k w h =
    let bal = get_or 0 b k in
    let active = active_locked_by_tier (get_or [] locks k) t in
    record {
      covered = ground arith;
      base = ground (arith, get-bump s.base_seconds k w (bal * dur));
      unlocked =
          ground (arith, get-bump s.unlocked_seconds k w ((bal - active_total active) * dur));
      locked = λ u. ground (arith, locked_in-bump_tiers s.locked_seconds active dur k w u);
    }

-- For every wallet the seconds are those unlocked and those locked in a tier.
abbrev pub IsSplit : Sums → Type 0
IsSplit s =
    (w : Text)
    → base_of s w
      ≡ unlocked_of s w
        + (locked_of s w lock_7d
            + locked_of s w lock_14d
            + locked_of s w lock_21d
            + locked_of s w lock_30d)

split_arith :
    (bal a7 a14 a21 a30 dur : ℕ)
    → a7 + a14 + a21 + a30 ≤ bal
    → bal * dur
      ≡ (bal - (a7 + a14 + a21 + a30)) * dur + (a7 * dur + a14 * dur + a21 * dur + a30 * dur)
split_arith bal a7 a14 a21 a30 dur h =
    let free : ℕ = bal - (a7 + a14 + a21 + a30) in
    let e : bal ≡ free + (a7 + a14 + a21 + a30) = omega arith in
    omega (arith, ap (λ (x : ℕ). x * dur) e)

Gains-IsSplit :
    (bal : ℕ) (active : TierAmounts) (dur : ℕ) (k : Text) (s s' : Sums)
    → ((w : Text) → Gains bal active dur k w s s')
    → IsSplit s
    → IsSplit s'
Gains-IsSplit bal active dur k s s' g h w =
    let x = g w in
    ground (
      arith,
      x.covered,
      x.base,
      x.unlocked,
      x.locked lock_7d,
      x.locked lock_14d,
      x.locked lock_21d,
      x.locked lock_30d,
      h w,
      split_arith bal active.at_7d active.at_14d active.at_21d active.at_30d dur,
    )

accrue_all-IsSplit :
    (b : Dict ℕ) (locks : Dict (List LockRecord)) (t dur : ℕ) (ws : List Text) (s s' : Sums)
    → accrue_all b locks t dur s ws ≡ ok s'
    → IsSplit s
    → IsSplit s'
unfolding accrue_all
accrue_all-IsSplit b locks t dur [] s s' e h = let same : s ≡ s' = cc in subst IsSplit same h
accrue_all-IsSplit b locks t dur (k ∷ ws) s s' e h =
    let (n, first, rest) = >>=-eq-ok (accrue_wallet b locks t dur s k) _ e in
    accrue_all-IsSplit b locks t dur ws n s' rest
      (Gains-IsSplit _ _ dur k s n (λ w. accrue_wallet-Gains b locks t dur s n k w first) h)

pub sweep-IsSplit :
    (locks : Dict (List LockRecord)) (relevant : List Text) (times : List ℕ)
    (queue : List ConfirmedTransfer) (b b' : Dict ℕ) (s s' : Sums)
    → sweep locks relevant times queue b s ≡ ok (b', s')
    → IsSplit s
    → IsSplit s'
unfolding sweep
sweep-IsSplit locks relevant [] queue b b' s s' e h =
    let same : s ≡ s' = ground arith in subst IsSplit same h
sweep-IsSplit locks relevant (t ∷ []) queue b b' s s' e h =
    let same : s ≡ s' = ground arith in subst IsSplit same h
sweep-IsSplit locks relevant (t ∷ next ∷ times) queue b b' s s' e h =
    let ((queue', mid), due, e') = >>=-eq-ok (apply_due t queue b) _ e in
    let (n, accrued, rest) =
      >>=-eq-ok (if leb next t then ok s else accrue_all mid locks t (next - t) s relevant) _ e' in
    sweep-IsSplit locks relevant (next ∷ times) queue' mid b' n s' rest
      (elim (Bool-cases (leb next t)) [
        | inl late ↦ let same : s ≡ n = ground arith in subst IsSplit same h
        | inr early ↦ accrue_all-IsSplit mid locks t (next - t) relevant s n (rw early at accrued) h
      ])
