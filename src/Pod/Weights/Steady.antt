-- ===== src/Pod/Weights/Steady.antt =====
-- What is locked: the locks of a wallet by tier as a sum, and that it stays the same between two
-- breakpoints.
use bps_protocol.Prelude.{
  ℕ, ◌+◌, ◌≤◌, ◌<◌, ◌≡◌, ◌⊎◌, inl, inr, refl, ap, ◌∙◌, Bool, ◌&&◌, Option, none, some, List, [],
  ◌∷◌, ◌++◌, arith, if◌then◌else◌, All, All-map_pred, keep, sum_of, Bool-cases,
}
use bps_protocol.Text.{Text, text_eq, text_eq_iff}
use bps_protocol.Dict.{Dict, get, put, get_or, get-put}
use bps_protocol.Pod.Model.{LockTier, lock_7d, lock_14d, lock_21d, lock_30d, LockRecord}
use bps_protocol.Pod.Weights.{group_locks}
use bps_protocol.Pod.Weights.Tiers.{
  TierAmounts, zero_tier_record, tier_amount, add_tier, bonus_end, is_active, active_from,
  active_locked_by_tier,
}
use bps_protocol.Pod.Weights.Split.{same_tier}
use bps_protocol.Pod.Weights.Integral.{IsSteady}
use bps_protocol.Pod.Weights.Schedule.{IsNotBetween}

-- The locks of a wallet, in their order.
abbrev pub locks_of : List LockRecord → Text → List LockRecord
locks_of locks w = keep (λ l. text_eq l.wallet w) locks

-- What a wallet has locked in a tier at a second.
unfoldable pub locked_at : List LockRecord → Text → LockTier → ℕ → ℕ
locked_at locks w tier s =
    sum_of
      (λ l.
        if text_eq l.wallet w && same_tier l.tier tier && is_active l s then l.raw_principal else 0)
      locks

append_append : (xs ys zs : List LockRecord) → (xs ++ ys) ++ zs ≡ xs ++ (ys ++ zs)
append_append [] ys zs = refl
append_append (x ∷ xs) ys zs = ap (λ t. x ∷ t) (append_append xs ys zs)

abbrev or_empty : Option (List LockRecord) → List LockRecord
or_empty o = elim o [ none ↦ [] | some v ↦ v ]

-- A lock that is put behind those of its wallet.
regroup :
    (m : Dict (List LockRecord)) (l : LockRecord) (ls : List LockRecord) (w : Text)
    → get_or [] (put m l.wallet (get_or [] m l.wallet ++ l ∷ [])) w ++ ls
      ≡ get_or [] m w ++ (if text_eq l.wallet w then l ∷ ls else ls)
regroup m l ls w =
    let found = get-put m l.wallet w (get_or [] m l.wallet ++ l ∷ []) in
    elim (Bool-cases (text_eq l.wallet w)) [
      | inl e ↦
          let same = (text_eq_iff l.wallet w).0 e in
          let put_there = ap or_empty (rw e at found) in
          let own : get_or [] m l.wallet ≡ get_or [] m w = ap (λ k. get_or [] m k) same in
          rw e (
            ap (λ xs. xs ++ ls) put_there
            ∙ (append_append (get_or [] m l.wallet) (l ∷ []) ls ∙ ap (λ xs. xs ++ l ∷ ls) own))
      | inr e ↦ rw e (ap (λ xs. xs ++ ls) (ap or_empty (rw e at found)))
    ]

get-group_locks :
    (m : Dict (List LockRecord)) (ls : List LockRecord) (w : Text)
    → get_or [] (group_locks m ls) w ≡ get_or [] m w ++ locks_of ls w
unfolding group_locks keep
get-group_locks m [] w = append_nil (get_or [] m w)
  where
    append_nil : (xs : List LockRecord) → xs ≡ xs ++ []
    append_nil [] = refl
    append_nil (x ∷ xs) = ap (λ t. x ∷ t) (append_nil xs)
get-group_locks m (l ∷ ls) w =
    let m' = put m l.wallet (get_or [] m l.wallet ++ l ∷ []) in
    get-group_locks m' ls w ∙ regroup m l (locks_of ls w) w

add_tier-amount :
    (out : TierAmounts) (a : Bool) (k tier : LockTier) (p : ℕ)
    → tier_amount (if a then add_tier out k p else out) tier
      ≡ tier_amount out tier + (if same_tier k tier && a then p else 0)
add_tier-amount out a lock_7d tier p = ground arith
add_tier-amount out a lock_14d tier p = ground arith
add_tier-amount out a lock_21d tier p = ground arith
add_tier-amount out a lock_30d tier p = ground arith

-- The locks that are grouped under a wallet are its own.
pub group_locks-locks_of :
    (locks : List LockRecord) (w : Text) → get_or [] (group_locks [] locks) w ≡ locks_of locks w
unfolding get
group_locks-locks_of locks w = get-group_locks [] locks w

active_from-sum :
    (out : TierAmounts) (ls : List LockRecord) (s : ℕ) (tier : LockTier)
    → tier_amount (active_from out ls s) tier
      ≡ tier_amount out tier
        + sum_of (λ l. if same_tier l.tier tier && is_active l s then l.raw_principal else 0) ls
unfolding active_from
active_from-sum out [] s tier = omega arith
active_from-sum out (l ∷ ls) s tier =
    active_from-sum (if is_active l s then add_tier out l.tier l.raw_principal else out) ls s tier
    ∙ omega (arith, add_tier-amount out (is_active l s) l.tier tier l.raw_principal)

-- Within an interval that no bound of the lock divides, it is active throughout or not at all.
is_active-steady :
    (l : LockRecord) (t next u : ℕ)
    → (l.start_timestamp ≤ t) ⊎ (next ≤ l.start_timestamp)
    → (bonus_end l ≤ t) ⊎ (next ≤ bonus_end l)
    → t ≤ u
    → u < next
    → is_active l u ≡ is_active l t
is_active-steady l t next u (inl a) (inl b) p q = ground arith
is_active-steady l t next u (inl a) (inr b) p q = ground arith
is_active-steady l t next u (inr a) (inl b) p q = ground arith
is_active-steady l t next u (inr a) (inr b) p q = ground arith

-- Neither bound of a lock divides any interval between times.
abbrev pub HasNoBounds : List ℕ → LockRecord → Type 0
HasNoBounds times l = IsNotBetween l.start_timestamp times × IsNotBetween (bonus_end l) times

active_from-steady :
    (out : TierAmounts) (ls : List LockRecord) (t next : ℕ) (times : List ℕ) (u : ℕ)
    → All (HasNoBounds (t ∷ next ∷ times)) ls
    → t ≤ u
    → u < next
    → active_from out ls u ≡ active_from out ls t
unfolding active_from
active_from-steady out [] t next times u h p q = refl
active_from-steady out (l ∷ ls) t next times u h p q =
    let same = is_active-steady l t next u h.0.0.0 h.0.1.0 p q in
    rw same (
      active_from-steady (if is_active l t then add_tier out l.tier l.raw_principal else out) ls t
        next times u h.1 p q)

tail_HasNoBounds :
    (t next : ℕ) (times : List ℕ) (l : LockRecord)
    → HasNoBounds (t ∷ next ∷ times) l
    → HasNoBounds (next ∷ times) l
tail_HasNoBounds t next times l h = (h.0.1, h.1.1)

-- What depends on the second by the active locks alone is steady.
pub active-IsSteady :
    (f : ℕ → TierAmounts → ℕ) (ls : List LockRecord) (times : List ℕ)
    → All (HasNoBounds times) ls
    → IsSteady (λ c u. f c (active_locked_by_tier ls u)) times
unfolding active_locked_by_tier
active-IsSteady f ls [] h = tt
active-IsSteady f ls (t ∷ []) h = tt
active-IsSteady f ls (t ∷ next ∷ times) h = (
  (λ c u p q. ap (f c) (active_from-steady zero_tier_record ls t next times u h p q)),
  active-IsSteady f ls (next ∷ times) (All-map_pred (tail_HasNoBounds t next times) ls h),
)

zero_tier : (tier : LockTier) → tier_amount zero_tier_record tier ≡ 0
zero_tier lock_7d = refl
zero_tier lock_14d = refl
zero_tier lock_21d = refl
zero_tier lock_30d = refl

sum_of-locks_of :
    (locks : List LockRecord) (w : Text) (tier : LockTier) (s : ℕ)
    → sum_of
        (λ l. if same_tier l.tier tier && is_active l s then l.raw_principal else 0)
        (locks_of locks w)
      ≡ sum_of
          (λ l.
            if text_eq l.wallet w && same_tier l.tier tier && is_active l s
            then l.raw_principal
            else 0)
          locks
unfolding keep
sum_of-locks_of [] w tier s = refl
sum_of-locks_of (l ∷ locks) w tier s = ground (arith, sum_of-locks_of locks w tier s)

-- The locks of a wallet, by tier, are the sums over all locks.
pub active_locked_by_tier-locked_at :
    (locks : List LockRecord) (w : Text) (tier : LockTier) (s : ℕ)
    → tier_amount (active_locked_by_tier (get_or [] (group_locks [] locks) w) s) tier
      ≡ locked_at locks w tier s
unfolding active_locked_by_tier locked_at get
active_locked_by_tier-locked_at locks w tier s =
    ap (λ ls. tier_amount (active_from zero_tier_record ls s) tier) (get-group_locks [] locks w)
    ∙ (active_from-sum zero_tier_record (locks_of locks w) s tier
        ∙ omega (arith, zero_tier tier, sum_of-locks_of locks w tier s))
