-- ===== src/Pod/Weights/Accrual.antt =====
-- What one interval adds to the sums of a wallet, over all relevant wallets.
use bps_protocol.Prelude.{
  ℕ, ◌+◌, ◌-◌, ◌*◌, ◌≡◌, inl, inr, subst, List, [], ◌∷◌, ◌++◌, arith, if◌then◌else◌, ok, sum_of,
  Bool-cases, >>=-eq-ok,
}
use bps_protocol.Text.{Text, text_eq, text_eq_iff}
use bps_protocol.Dict.{Dict, get_or, has, add, has-snoc}
use bps_protocol.Pod.Model.{LockTier, LockRecord}
use bps_protocol.Pod.Weights.{Sums, accrue_wallet, accrue_all}
use bps_protocol.Pod.Weights.Tiers.{TierAmounts, tier_amount, active_total, active_locked_by_tier}
use bps_protocol.Pod.Weights.Split.{base_of, unlocked_of, locked_of, Gains, accrue_wallet-Gains}

-- How often a wallet is in a list.
abbrev pub count : List Text → Text → ℕ
count ws w = sum_of (λ k. if text_eq k w then 1 else 0) ws

module _ (locks : Dict (List LockRecord)) (w : Text) (b : Dict ℕ) (t dur : ℕ) where
  active : TierAmounts
  active = active_locked_by_tier (get_or [] locks w) t

  Gains-of :
      (s n : Sums) (k : Text)
      → accrue_wallet b locks t dur s k ≡ ok n
      → Gains (get_or 0 b k) (active_locked_by_tier (get_or [] locks k) t) dur k w s n
  Gains-of s n k h = accrue_wallet-Gains b locks t dur s n k w h

  accrue_all-count :
      (gain : Sums → ℕ) (v : ℕ)
      → ((s n : Sums) (k : Text)
          → accrue_wallet b locks t dur s k ≡ ok n
          → gain n ≡ gain s + (if text_eq k w then v else 0))
      → (ws : List Text) (s s' : Sums) → accrue_all b locks t dur s ws ≡ ok s'
      → gain s' ≡ gain s + count ws w * v
  unfolding accrue_all
  accrue_all-count gain v step [] s s' e = let same : s ≡ s' = cc in rw (← same) (omega arith)
  accrue_all-count gain v step (k ∷ ws) s s' e =
      let (n, first, rest) = >>=-eq-ok (accrue_wallet b locks t dur s k) _ e in
      let one = step s n k first in
      let more = accrue_all-count gain v step ws n s' rest in
      elim (Bool-cases (text_eq k w)) [
        | inl here ↦ let one = rw here at one in rw here (omega (arith, one, more))
        | inr other ↦ let one = rw other at one in rw other (omega (arith, one, more))
      ]

  -- A gain of the wallet, where a wallet of that name gains it.
  only_same :
      (k : Text) (x : Text → ℕ) (g h : ℕ)
      → g ≡ h + (if text_eq k w then x k else 0)
      → g ≡ h + (if text_eq k w then x w else 0)
  only_same k x g h e = elim (Bool-cases (text_eq k w)) [
    | inl here ↦
        let same = (text_eq_iff k w).0 here in
        rw here (subst (λ j. g ≡ h + x j) same (rw here at e))
    | inr other ↦ rw other (rw other at e)
  ]

  pub accrue_all-base :
      (ws : List Text) (s s' : Sums)
      → accrue_all b locks t dur s ws ≡ ok s'
      → base_of s' w ≡ base_of s w + count ws w * (get_or 0 b w * dur)
  accrue_all-base =
      accrue_all-count (λ s. base_of s w) (get_or 0 b w * dur)
        (λ s n k h. only_same k (λ j. get_or 0 b j * dur) _ _ (Gains-of s n k h).base)

  pub accrue_all-unlocked :
      (ws : List Text) (s s' : Sums)
      → accrue_all b locks t dur s ws ≡ ok s'
      → unlocked_of s' w
        ≡ unlocked_of s w
          + count ws w
            * ((get_or 0 b w - active_total (active_locked_by_tier (get_or [] locks w) t)) * dur)
  accrue_all-unlocked =
      accrue_all-count (λ s. unlocked_of s w) _
        (λ s n k h.
          only_same k
            (λ j. (get_or 0 b j - active_total (active_locked_by_tier (get_or [] locks j) t)) * dur)
            _ _ (Gains-of s n k h).unlocked)

  pub accrue_all-locked :
      (u : LockTier) (ws : List Text) (s s' : Sums)
      → accrue_all b locks t dur s ws ≡ ok s'
      → locked_of s' w u
        ≡ locked_of s w u
          + count ws w * (tier_amount (active_locked_by_tier (get_or [] locks w) t) u * dur)
  accrue_all-locked u =
      accrue_all-count (λ s. locked_of s w u) _
        (λ s n k h.
          only_same k (λ j. tier_amount (active_locked_by_tier (get_or [] locks j) t) u * dur) _ _
            ((Gains-of s n k h).locked u))

-- A list of texts in which none occurs twice.
abbrev pub IsDistinct : List Text → Type 0
IsDistinct ws = (w : Text) → count ws w ≡ (if has ws w then 1 else 0)

count-snoc :
    (ws : List Text) (k w : Text)
    → count (ws ++ k ∷ []) w ≡ count ws w + (if text_eq k w then 1 else 0)
count-snoc [] k w = omega arith
count-snoc (j ∷ ws) k w = omega (arith, count-snoc ws k w)

pub add-IsDistinct : (ws : List Text) (k : Text) → IsDistinct ws → IsDistinct (add ws k)
unfolding add
add-IsDistinct ws k h w = ground (arith, count-snoc ws k w, has-snoc ws k w, h w, text_eq_iff k w)
