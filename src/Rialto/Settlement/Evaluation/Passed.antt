-- ===== src/Rialto/Settlement/Evaluation/Passed.antt =====
-- When the guards on the policy and on the intent alone add nothing.
use bps_protocol.Prelude.{
  ◌≡◌, ◌↔◌, ◌⊎◌, refl, ap, inl, inr, Bool, true, false, not, ◌&&◌, ◌||◌, Option, none, some, List,
  [], ◌∷◌, ◌++◌, arith, All, Any, Bool-cases, if◌then◌else◌,
}
use bps_protocol.Integer.{ℤ, pos, negsuc, ◌==ℤ◌, ◌≤ℤ◌}
use bps_protocol.Integer.Number.{finite, IsNotAbove, IsNotAtMost, ltb_number_iff, leb_number_iff}
use bps_protocol.Text.{Text, text_eq_iff, to_lower_case}
use bps_protocol.Pod.Address.{is_hex_address}
use bps_protocol.Rialto.Registry.{is_selector}
use bps_protocol.Rialto.Registry.Reconciled.{IsListed, has-map_iff}
use bps_protocol.Rialto.QuoteExecution.{same_lower}
use bps_protocol.Rialto.Settlement.{
  guard_version, GuardStatus, TokenPair, SettlementPolicy, SettlementIntent,
}
use bps_protocol.Rialto.Settlement.Guards.{
  add_if, failing, policy_tests, identity_tests, amount_tests, call_tests, policy_failures,
  identity_failures, pair_allowed, cap_of, cap_failures, amount_failures, is_hash,
  selector_approved, call_failures,
}

-- Texts that differ in case at most.
abbrev pub IsSameLower : Text → Text → Type 0
IsSameLower a b = to_lower_case a ≡ to_lower_case b

pub add_if_nil : (test : Bool) (s : GuardStatus) → add_if test s ≡ [] ↔ test ≡ false
add_if_nil true s = (λ h. absurd cc, λ h. absurd cc)
add_if_nil false s = (λ h. refl, λ h. refl)

-- Two guards add nothing when neither does.
pub none_added {ℓ} :
    {A : Type ℓ} {P Q : Type 0} (xs ys : List A)
    → (xs ≡ [] ↔ P)
    → (ys ≡ [] ↔ Q)
    → (xs ++ ys) ≡ [] ↔ P × Q
none_added [] ys p q = (λ h. (p.0 refl, q.0 h), λ h. q.1 h.1)
none_added (x ∷ xs) ys p q = (λ h. absurd cc, λ h. absurd (let e : x ∷ xs ≡ [] = p.1 h.0 in cc))

-- A guard that ends its row when it fails.
pub either_nil :
    (test : Bool) (s : GuardStatus) (xs : List GuardStatus)
    → (if test then s ∷ [] else xs) ≡ [] ↔ (test ≡ false) × (xs ≡ [])
either_nil true s xs = (λ h. absurd cc, λ h. absurd cc)
either_nil false s xs = (λ h. (refl, h), λ h. h.1)

pub failing_nil : (fs : List (Bool × GuardStatus)) → failing fs ≡ [] ↔ All (λ f. f.0 ≡ false) fs
failing_nil [] = (λ h. tt, λ h. refl)
failing_nil (f ∷ fs) = none_added _ _ (add_if_nil f.0 f.1) (failing_nil fs)

pub same_lower_iff : (a b : Text) → not (same_lower a b) ≡ false ↔ IsSameLower a b
same_lower_iff a b =
    let e = text_eq_iff (to_lower_case a) (to_lower_case b) in
    (λ h. e.0 (ground arith), λ h. ground (arith, e.1 h))

pub not-false_iff : (b : Bool) → not b ≡ false ↔ b ≡ true
not-false_iff b = (λ h. ground arith, λ h. ground arith)

pub either_false_iff :
    {P Q : Type 0} (a b : Bool) → (a ≡ false ↔ P) → (b ≡ false ↔ Q) → (a || b) ≡ false ↔ P × Q
either_false_iff true b p q = (λ h. absurd cc, λ h. absurd (let e : true ≡ false = p.1 h.0 in cc))
either_false_iff false b p q = (λ h. (p.0 refl, q.0 h), λ h. q.1 h.1)

-- The version and the registry are well formed, the slippage and lifetime limits are not out of
-- range, and the policy is not paused.
abbrev pub IsSanePolicy : SettlementPolicy → Type 0
IsSanePolicy p =
    (p.version ≡ guard_version)
    × (is_hex_address p.registry ≡ true)
    × (IsNotAtMost p.max_slippage_bps (finite (pos 0))
        × IsNotAbove (finite (pos 0)) p.default_slippage_bps)
    × IsNotAbove p.default_slippage_bps p.max_slippage_bps
    × (IsNotAtMost p.max_intent_lifetime_sec (finite (pos 0))
        × IsNotAbove p.max_intent_lifetime_sec (finite (pos 300)))
    × (p.paused ≡ false)

pub policy_failures_iff : (p : SettlementPolicy) → policy_failures p ≡ [] ↔ IsSanePolicy p
unfolding policy_failures
policy_failures_iff p =
    let version = text_eq_iff p.version guard_version in
    let registry = not-false_iff (is_hex_address p.registry) in
    let bounds =
      either_false_iff _ _ (leb_number_iff p.max_slippage_bps (finite (pos 0)))
        (ltb_number_iff (finite (pos 0)) p.default_slippage_bps) in
    let default = ltb_number_iff p.default_slippage_bps p.max_slippage_bps in
    let lifetime =
      either_false_iff _ _ (leb_number_iff p.max_intent_lifetime_sec (finite (pos 0)))
        (ltb_number_iff p.max_intent_lifetime_sec (finite (pos 300))) in
    let passed = failing_nil (policy_tests p) in
    (
      (λ h.
          let (a, t) = passed.0 h in
          let (b, t) = t in
          let (c, t) = t in
          let (d, t) = t in
          let (e, t) = t in
          (version.0 (ground arith), registry.0 b, bounds.0 c, default.0 d, lifetime.0 e, t.0)),
      (λ h.
          let (a, b, c, d, e, f) = h in
          passed.1 (
            (ground (arith, version.1 a)),
            (registry.1 b, (bounds.1 c, (default.1 d, (lifetime.1 e, (f, tt))))),
          )),
    )

-- The intent names the policy's chain, registry and feature.
abbrev pub IsIdentified : SettlementPolicy → SettlementIntent → Type 0
IsIdentified p i =
    (i.chain_id ≡ p.chain_id) × IsSameLower i.registry p.registry × (i.feature ≡ p.feature)

pub identity_failures_iff :
    (p : SettlementPolicy) (i : SettlementIntent) → identity_failures p i ≡ [] ↔ IsIdentified p i
unfolding identity_failures
identity_failures_iff p i =
    let same = same_lower_iff i.registry p.registry in
    let passed = failing_nil (identity_tests p i) in
    (
      (λ h.
          let (a, t) = passed.0 h in
          let (b, t) = t in let (c, t) = t in (ground arith, same.0 b, ground arith)),
      (λ h. let (a, b, c) = h in passed.1 ((ground arith), ((same.1 b), ((ground arith), tt)))),
    )

-- A pair is on the list, in that direction.
abbrev pub IsAllowedPair : List TokenPair → Text → Text → Type 0
IsAllowedPair ps sell buy =
    Any (λ q. IsSameLower q.sell_token sell × IsSameLower q.buy_token buy) ps

pair_allowed_iff :
    (ps : List TokenPair) (sell buy : Text)
    → pair_allowed ps sell buy ≡ true ↔ IsAllowedPair ps sell buy
unfolding pair_allowed
pair_allowed_iff [] sell buy = (λ h. absurd cc, λ h. absurd h)
pair_allowed_iff (q ∷ ps) sell buy =
    let rest = pair_allowed_iff ps sell buy in
    let s = text_eq_iff (to_lower_case q.sell_token) (to_lower_case sell) in
    let b = text_eq_iff (to_lower_case q.buy_token) (to_lower_case buy) in
    (
      (λ h. elim (Bool-cases (pair_allowed ps sell buy)) [
        | inl e ↦ inr (rest.0 e)
        | inr e ↦ inl (s.0 (ground arith), b.0 (ground arith))
      ]),
      (λ h. elim h [ inl e ↦ ground (arith, s.1 e.0, b.1 e.1) | inr k ↦ ground (arith, rest.1 k) ]),
    )

-- The cap of the token is resolved, and the amount does not exceed it.
abbrev pub IsWithinCap : Option ℤ → ℤ → Type 0
IsWithinCap cap amount = (c : ℤ) × (cap ≡ some c) × (amount ≤ℤ c)

cap_failures_iff :
    (cap : Option ℤ) (amount : ℤ) → cap_failures cap amount ≡ [] ↔ IsWithinCap cap amount
cap_failures_iff none amount = (λ h. absurd cc, λ h. absurd (let (c, e, l) = h in cc))
cap_failures_iff (some c) amount = (
  (λ h. let t = (add_if_nil _ _).0 h in (c, refl, ground arith)),
  (λ h. let (d, e, l) = h in let same : c ≡ d = cc in (add_if_nil _ _).1 (rw same (ground arith))),
)

-- The pair is allowed, both amounts are positive, and the sold one is within its cap.
abbrev pub IsAllowedAmount : SettlementPolicy → SettlementIntent → Type 0
IsAllowedAmount p i =
    IsAllowedPair p.allowed_pairs i.sell_token i.buy_token
    × ((pos 1 ≤ℤ i.sell_amount_raw) × (pos 1 ≤ℤ i.min_buy_amount_raw))
    × IsWithinCap (cap_of p i.sell_token) i.sell_amount_raw

pub amount_failures_iff :
    (p : SettlementPolicy) (i : SettlementIntent) → amount_failures p i ≡ [] ↔ IsAllowedAmount p i
unfolding amount_failures
amount_failures_iff p i =
    let pair = pair_allowed_iff p.allowed_pairs i.sell_token i.buy_token in
    let cap = cap_failures_iff (cap_of p i.sell_token) i.sell_amount_raw in
    let passed = none_added _ _ (failing_nil (amount_tests p i)) cap in
    (
      (λ h.
          let (t, c) = passed.0 h in
          let (a, t) = t in let (b, t) = t in (pair.0 (ground arith), ground arith, c)),
      (λ h. let (a, b, c) = h in passed.1 (((ground (arith, pair.1 a)), ((ground arith), tt)), c)),
    )

-- No value, fees and slippage not out of the policy's range, a hash of the calldata, and a listed selector.
abbrev pub IsAllowedCall : SettlementPolicy → SettlementIntent → Type 0
IsAllowedCall p i =
    (i.tx_value ≡ pos 0)
    × (IsNotAbove i.platform_fee_bps p.max_platform_fee_bps
        × IsNotAbove (finite (pos 0)) i.platform_fee_bps)
    × ((i.integrator_fee_present ≡ false) ⊎ (p.integrator_fee_allowed ≡ true))
    × (IsNotAbove (finite (pos 0)) i.slippage_bps × IsNotAbove i.slippage_bps p.max_slippage_bps)
    × (is_hash i.calldata_hash ≡ true)
    × ((is_selector i.selector ≡ true) × IsListed p.allowed_selectors i.selector)

selector_approved_iff :
    (p : SettlementPolicy) (i : SettlementIntent)
    → selector_approved p i ≡ true
      ↔ (is_selector i.selector ≡ true) × IsListed p.allowed_selectors i.selector
unfolding selector_approved
selector_approved_iff p i =
    let listed = has-map_iff p.allowed_selectors i.selector in
    (λ h. (ground arith, listed.0 (ground arith)), λ h. ground (arith, h.0, listed.1 h.1))

==ℤ_zero : (a : ℤ) → not (a ==ℤ pos 0) ≡ false ↔ a ≡ pos 0
==ℤ_zero (pos n) = (λ h. ap pos (ground arith), λ h. let e : n ≡ 0 = cc in ground arith)
==ℤ_zero (negsuc n) = (λ h. absurd (ground arith), λ h. absurd cc)

fee_iff : (a b : Bool) → (a && not b) ≡ false ↔ (a ≡ false) ⊎ (b ≡ true)
fee_iff false b = (λ h. inl refl, λ h. refl)
fee_iff true false = (λ h. absurd cc, λ h. absurd (elim h [ inl e ↦ cc | inr e ↦ cc ]))
fee_iff true true = (λ h. inr refl, λ h. refl)

pub call_failures_iff :
    (p : SettlementPolicy) (i : SettlementIntent) → call_failures p i ≡ [] ↔ IsAllowedCall p i
unfolding call_failures
call_failures_iff p i =
    let value = ==ℤ_zero i.tx_value in
    let platform =
      either_false_iff _ _ (ltb_number_iff i.platform_fee_bps p.max_platform_fee_bps)
        (ltb_number_iff (finite (pos 0)) i.platform_fee_bps) in
    let slippage =
      either_false_iff _ _ (ltb_number_iff (finite (pos 0)) i.slippage_bps)
        (ltb_number_iff i.slippage_bps p.max_slippage_bps) in
    let fee = fee_iff i.integrator_fee_present p.integrator_fee_allowed in
    let hash = not-false_iff (is_hash i.calldata_hash) in
    let selector = selector_approved_iff p i in
    let passed = failing_nil (call_tests p i) in
    (
      (λ h.
          let (a, t) = passed.0 h in
          let (b, t) = t in
          let (c, t) = t in
          let (d, t) = t in
          let (e, t) = t in
          let (f, t) = t in
          (
            value.0 a,
            platform.0 b,
            fee.0 c,
            slippage.0 d,
            hash.0 e,
            selector.0 ((not-false_iff (selector_approved p i)).0 f),
          )),
      (λ h.
          let (a, b, c, d, e, f) = h in
          passed.1 (
            (value.1 a),
            (
              platform.1 b,
              (
                (fee.1 c),
                (
                  slippage.1 d,
                  ((hash.1 e), (((not-false_iff (selector_approved p i)).1 (selector.1 f)), tt)),
                ),
              ),
            ),
          )),
    )
