-- ===== src/Pod/Eligibility/Arrival.antt =====
-- The order in which the eligibility records arrive does not matter.
use bps_protocol.Prelude.{
  ◌≡◌, refl, ap, ◌∙◌, sym, List, [], ◌∷◌, map, if◌then◌else◌, Bool-cases, inl, inr,
}
use mathlib.Core.List.{Perm, Permᴰ}
use mathlib.Core.Logic.{∥∥₁_elim}
use bps_protocol.Text.{Text, text_lt, text_order}
use bps_protocol.Order.{sort_by, insert_sorted, insert_comm}
use bps_protocol.Dict.{Dict}
use bps_protocol.Pod.Model.{CycleConfig, EligibilityRecord, ExcludedAddress}
use bps_protocol.Pod.Weights.{WalletWeight}
use bps_protocol.Pod.Eligibility.{set_of, is_admitted, admitted, resolve_eligibility}

module _ (cycle : CycleConfig) (excluded : List Text) where
  abbrev insert_admitted : EligibilityRecord → List Text → List Text
  insert_admitted r ws =
      if is_admitted cycle excluded cycle.epoch_end r then insert_sorted text_lt r.wallet ws else ws

  wallets_of : List EligibilityRecord → List Text
  wallets_of rs = sort_by text_lt (admitted cycle excluded cycle.epoch_end rs)

  wallets_of_cons :
      (r : EligibilityRecord) (rs : List EligibilityRecord)
      → wallets_of (r ∷ rs) ≡ insert_admitted r (wallets_of rs)
  unfolding wallets_of admitted sort_by
  wallets_of_cons r rs = elim (Bool-cases (is_admitted cycle excluded cycle.epoch_end r)) [
    | inl e ↦ rw e refl
    | inr e ↦ rw e refl
  ]

  insert_admitted_comm :
      (r s : EligibilityRecord) (ws : List Text)
      → insert_admitted r (insert_admitted s ws) ≡ insert_admitted s (insert_admitted r ws)
  insert_admitted_comm r s ws = elim (Bool-cases (is_admitted cycle excluded cycle.epoch_end r)) [
    | inl e ↦ elim (Bool-cases (is_admitted cycle excluded cycle.epoch_end s)) [
      | inl f ↦ rw e (rw f (insert_comm text_lt text_order r.wallet s.wallet ws))
      | inr f ↦ rw e (rw f refl)
    ]
    | inr e ↦ rw e refl
  ]

  wallets_of_two :
      (r s : EligibilityRecord) (rs : List EligibilityRecord)
      → wallets_of (r ∷ s ∷ rs) ≡ insert_admitted r (insert_admitted s (wallets_of rs))
  wallets_of_two r s rs = wallets_of_cons r (s ∷ rs) ∙ ap (insert_admitted r) (wallets_of_cons s rs)

  wallets_of-Permᴰ : {rs ss : List EligibilityRecord} → Permᴰ rs ss → wallets_of rs ≡ wallets_of ss
  wallets_of-Permᴰ Permᴰ.nil = refl
  wallets_of-Permᴰ (Permᴰ.cons {a} {b} {l₁} {l₂} e p) =
      let rest = wallets_of-Permᴰ p in
      rw e (wallets_of_cons b l₁ ∙ (ap (insert_admitted b) rest ∙ sym (wallets_of_cons b l₂)))
  wallets_of-Permᴰ (Permᴰ.swap {a} {b} {l = l} e f) =
      wallets_of_two a b l
      ∙ (insert_admitted_comm a b (wallets_of l) ∙ (sym (wallets_of_two b a l) ∙ cc (e, f)))
  wallets_of-Permᴰ (Permᴰ.trans p q) = wallets_of-Permᴰ p ∙ wallets_of-Permᴰ q

  wallets_of_perm : {rs ss : List EligibilityRecord} → Perm rs ss → wallets_of rs ≡ wallets_of ss
  wallets_of_perm p = ∥∥₁_elim p (hlevel) wallets_of-Permᴰ

-- The resolution does not depend on the order of the eligibility records: two lists of the same
-- records have the same eligible wallets, in the same order, and the same totals.
pub resolve_eligibility_perm :
    (cycle : CycleConfig) (excluded : List ExcludedAddress) {rs ss : List EligibilityRecord}
    (weights : Dict WalletWeight)
    → Perm rs ss
    → resolve_eligibility cycle excluded rs weights ≡ resolve_eligibility cycle excluded ss weights
unfolding resolve_eligibility wallets_of
resolve_eligibility_perm cycle excluded {rs} {ss} weights p =
    let addresses = set_of [] (map (λ e. e.address) excluded) in
    rw (wallets_of_perm cycle addresses p) refl
