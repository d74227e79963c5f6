-- ===== src/Pod/Eligibility/Admission.antt =====
-- Who is on the list of eligible wallets, in what order, and what the totals count.
use bps_protocol.Prelude.{
  ℕ, ◌+◌, ◌≤◌, ◌<◌, ◌≡◌, ◌↔◌, ◌⊎◌, All-of, All_at, refl, true, false, Option, none, some, List, [],
  ◌∷◌, map, arith, Any, sum_of, Bool-cases, inl, inr,
}
use bps_protocol.Text.{Text, text_eq, text_eq_iff, text_lt, text_order}
use bps_protocol.Order.{
  sort_by, IsSorted, sort_by-IsSorted, strict-IsWeakOrder, All-sort_by, Any-sort_by,
}
use bps_protocol.Dict.{Dict, has, add, has-add}
use bps_protocol.Pod.Model.{CycleConfig, EligibilityRecord, ExcludedAddress}
use bps_protocol.Pod.Weights.{WalletWeight}
use bps_protocol.Pod.Eligibility.{
  set_of, is_admitted, admitted, weight_field, add_up, resolve_eligibility,
}

pub add_up-sum_of :
    (field : WalletWeight → ℕ) (weights : Dict WalletWeight) (total : ℕ) (ws : List Text)
    → add_up field weights total ws ≡ total + sum_of (weight_field field weights) ws
unfolding add_up
add_up-sum_of field weights total [] = omega arith
add_up-sum_of field weights total (w ∷ ws) =
    omega (arith, add_up-sum_of field weights (total + weight_field field weights w) ws)

add_up_zero :
    (field : WalletWeight → ℕ) (weights : Dict WalletWeight) (ws : List Text)
    → add_up field weights 0 ws ≡ sum_of (weight_field field weights) ws
add_up_zero field weights ws = omega (arith, add_up-sum_of field weights 0 ws)

-- An address of the list.
abbrev pub IsExcluded : List ExcludedAddress → Text → Type 0
IsExcluded excluded w = Any (λ e. e.address ≡ w) excluded

has-set_of :
    (excluded : List ExcludedAddress) (s : List Text) (w : Text)
    → (has s w ≡ true) ⊎ IsExcluded excluded w
    → has (set_of s (map (λ e. e.address) excluded)) w ≡ true
unfolding set_of
has-set_of [] s w (inl h) = h
has-set_of [] s w (inr h) = absurd h
has-set_of (e ∷ es) s w (inl h) =
    has-set_of es (add s e.address) w (inl (ground (arith, has-add s e.address w)))
has-set_of (e ∷ es) s w (inr (inl h)) =
    has-set_of es (add s e.address) w
      (inl (ground (arith, has-add s e.address w, text_eq_iff e.address w)))
has-set_of (e ∷ es) s w (inr (inr h)) = has-set_of es (add s e.address) w (inr h)

set_of-has :
    (excluded : List ExcludedAddress) (s : List Text) (w : Text)
    → has (set_of s (map (λ e. e.address) excluded)) w ≡ true
    → (has s w ≡ true) ⊎ IsExcluded excluded w
unfolding set_of
set_of-has [] s w h = inl h
set_of-has (e ∷ es) s w h = elim (set_of-has es (add s e.address) w h) [
  | inr k ↦ inr (inr k)
  | inl k ↦ elim (Bool-cases (text_eq e.address w)) [
    | inl same ↦ inr (inl ((text_eq_iff e.address w).0 same))
    | inr other ↦ inl (ground (arith, has-add s e.address w))
  ]
]

-- What a record must say for its wallet to be eligible, with the epoch's end as the moment.
pub record IsEntitled (cycle : CycleConfig) (r : EligibilityRecord) : Type 0 where
  pub eligible : r.eligible ≡ true
  pub standing : r.revoked ≡ false
  pub policy : r.policy_version ≡ cycle.eligibility_policy_version
  pub started : r.valid_from ≤ cycle.epoch_end
  pub unexpired : (x : ℕ) → r.expiry ≡ some x → cycle.epoch_end < x

is_admitted→IsEntitled :
    (cycle : CycleConfig) (excluded : List Text) (r : EligibilityRecord)
    → is_admitted cycle excluded cycle.epoch_end r ≡ true
    → IsEntitled cycle r × (has excluded r.wallet ≡ false)
unfolding is_admitted
is_admitted→IsEntitled cycle excluded r h =
    let policy_iff = text_eq_iff r.policy_version cycle.eligibility_policy_version in
    (
      record {
        eligible = ground arith;
        standing = ground arith;
        policy = ground (arith, policy_iff);
        started = ground arith;
        unexpired = λ x e. ground arith;
      },
      ground arith,
    )

IsEntitled→is_admitted :
    (cycle : CycleConfig) (excluded : List Text) (r : EligibilityRecord)
    → IsEntitled cycle r
    → has excluded r.wallet ≡ false
    → is_admitted cycle excluded cycle.epoch_end r ≡ true
unfolding is_admitted
IsEntitled→is_admitted cycle excluded r h fresh = split r.expiry refl
  where
    split : (o : Option ℕ) → r.expiry ≡ o → is_admitted cycle excluded cycle.epoch_end r ≡ true
    split none e = ground (
      arith,
      h.eligible,
      h.standing,
      h.started,
      (text_eq_iff r.policy_version cycle.eligibility_policy_version).1 h.policy,
    )
    split (some x) e = ground (
      arith,
      h.eligible,
      h.standing,
      h.started,
      h.unexpired x e,
      (text_eq_iff r.policy_version cycle.eligibility_policy_version).1 h.policy,
    )

-- A record of the list that entitles wallet `w`.
abbrev pub Entitles : CycleConfig → Text → EligibilityRecord → Type 0
Entitles cycle w r = IsEntitled cycle r × (r.wallet ≡ w)

admitted_mem :
    (cycle : CycleConfig) (excluded : List Text) (w : Text) (rs : List EligibilityRecord)
    → Any (λ v. v ≡ w) (admitted cycle excluded cycle.epoch_end rs)
    → Any (Entitles cycle w) rs × (has excluded w ≡ false)
unfolding admitted
admitted_mem cycle excluded w [] h = absurd h
admitted_mem cycle excluded w (r ∷ rs) h =
    elim (Bool-cases (is_admitted cycle excluded cycle.epoch_end r)) [
      | inl e ↦ elim (rw e at h) [
        | inl same ↦
            let (entitled, fresh) = is_admitted→IsEntitled cycle excluded r e in
            (inl (entitled, same), rw (← same) fresh)
        | inr k ↦ let (some_r, fresh) = admitted_mem cycle excluded w rs k in (inr some_r, fresh)
      ]
      | inr e ↦
          let (some_r, fresh) = admitted_mem cycle excluded w rs (rw e at h) in (inr some_r, fresh)
    ]

mem_admitted :
    (cycle : CycleConfig) (excluded : List Text) (w : Text) (rs : List EligibilityRecord)
    → has excluded w ≡ false
    → Any (Entitles cycle w) rs
    → Any (λ v. v ≡ w) (admitted cycle excluded cycle.epoch_end rs)
unfolding admitted
mem_admitted cycle excluded w [] fresh h = absurd h
mem_admitted cycle excluded w (r ∷ rs) fresh (inl (entitled, same)) =
    rw (IsEntitled→is_admitted cycle excluded r entitled (rw same fresh)) (inl same)
mem_admitted cycle excluded w (r ∷ rs) fresh (inr h) =
    elim (Bool-cases (is_admitted cycle excluded cycle.epoch_end r)) [
      | inl e ↦ rw e (inr (mem_admitted cycle excluded w rs fresh h))
      | inr e ↦ rw e (mem_admitted cycle excluded w rs fresh h)
    ]

sort_by_mem :
    (w : Text) (xs : List Text) → Any (λ v. v ≡ w) (sort_by text_lt xs) → Any (λ v. v ≡ w) xs
sort_by_mem w xs h =
    All_at (λ a. Any (λ v. v ≡ a) xs) w _
      (All-sort_by text_lt (λ a. Any (λ v. v ≡ a) xs) xs (All-of _ xs (λ a k. k))) h

-- A wallet is on the list of eligible wallets exactly when some record entitles it (it is
-- eligible, not revoked, of the cycle's policy, begun and not expired at the end of the epoch)
-- and its address is not excluded.
pub eligible_iff :
    (cycle : CycleConfig) (excluded : List ExcludedAddress) (rs : List EligibilityRecord)
    (weights : Dict WalletWeight) (w : Text)
    → Any (λ v. v ≡ w) (resolve_eligibility cycle excluded rs weights).eligible_wallets
      ↔ Any (Entitles cycle w) rs × ¬ IsExcluded excluded w
unfolding resolve_eligibility has
eligible_iff cycle excluded rs weights w =
    let s = set_of [] (map (λ e. e.address) excluded) in
    (
      (λ h.
          let (some_r, fresh) = admitted_mem cycle s w rs (sort_by_mem w _ h) in
          (some_r, λ x. cc (has-set_of excluded [] w (inr x), fresh))),
      (λ h. elim (Bool-cases (has s w)) [
        | inl old ↦ elim (set_of-has excluded [] w old) [
          | inl none_yet ↦ cc
          | inr x ↦ absurd (h.1 x)
        ]
        | inr fresh ↦ Any-sort_by text_lt _ _ (mem_admitted cycle s w rs fresh h.0)
      ]),
    )

-- The eligible wallets stand in ascending order, and each total is the sum of its field over
-- them.
pub eligible_totals :
    (cycle : CycleConfig) (excluded : List ExcludedAddress) (rs : List EligibilityRecord)
    (weights : Dict WalletWeight)
    → let e = resolve_eligibility cycle excluded rs weights in
      IsSorted text_lt e.eligible_wallets
      × (e.total_effective_weight
          ≡ sum_of (weight_field (λ x. x.effective_weight) weights) e.eligible_wallets)
      × (e.total_base_twab ≡ sum_of (weight_field (λ x. x.base_twab) weights) e.eligible_wallets)
      × (e.total_eligible_snapshot_balance
          ≡ sum_of (weight_field (λ x. x.snapshot_balance) weights) e.eligible_wallets)
unfolding resolve_eligibility
eligible_totals cycle excluded rs weights = (
  sort_by-IsSorted text_lt (strict-IsWeakOrder text_lt text_order) _,
  add_up_zero (λ x. x.effective_weight) weights _,
  add_up_zero (λ x. x.base_twab) weights _,
  add_up_zero (λ x. x.snapshot_balance) weights _,
)
