-- ===== src/Rialto/Settlement/Evaluation/Candidate.antt =====
-- The gates that remain, against readiness; the candidate policy.
use bps_protocol.Prelude.{
  ◌≡◌, refl, inl, inr, ap, Bool, true, false, Option, none, some, List, [], ◌∷◌, All, Bool-cases,
}
use bps_protocol.Integer.{ℤ}
use bps_protocol.Integer.Number.{JsNumber}
use bps_protocol.Text.{Text, text_eq, to_lower_case}
use bps_protocol.Dict.{get}
use bps_protocol.Rialto.Settlement.{TokenPair, SettlementPolicy}
use bps_protocol.Rialto.Settlement.Guards.{cap_of, is_some, is_empty, price_sources_resolved}
use bps_protocol.Rialto.Settlement.Evaluation.{
  Gate, approved_selector, final_taker_gate, per_token_amount_cap, dated_registry_strategy,
  trusted_price_source, gate_if, is_taker_address, cap_unresolved, compute_remaining_gates,
  GuardedSettlementInput, production_candidate_policy, evaluate_guarded_settlement,
}
use bps_protocol.Rialto.Settlement.Evaluation.Quoted.{listed_is_empty, price_sources_resolved_of}
use bps_protocol.Rialto.Settlement.Evaluation.Ready.{evaluate_guarded_settlement_iff}

-- Every pair of the policy has a resolved cap on what it sells.
abbrev pub HasCaps : SettlementPolicy → Type 0
HasCaps p = All (λ q. (c : ℤ) × (cap_of p q.sell_token ≡ some c)) p.allowed_pairs

gate_if_nil : (test : Bool) (g : Gate) → test ≡ false → gate_if test g ≡ []
gate_if_nil test g h = rw h refl

caps_resolved :
    (p : SettlementPolicy) (ps : List TokenPair)
    → All (λ q. (c : ℤ) × (cap_of p q.sell_token ≡ some c)) ps
    → cap_unresolved p ps ≡ false
unfolding cap_unresolved
caps_resolved p [] h = refl
caps_resolved p (q ∷ ps) h = let (c, e) = h.0 in let rest = caps_resolved p ps h.1 in rw e rest

no_gates :
    (p : SettlementPolicy)
    → is_empty p.allowed_selectors ≡ false
    → is_taker_address p.final_taker ≡ true
    → cap_unresolved p p.allowed_pairs ≡ false
    → is_some p.max_registry_observation_age_sec ≡ true
    → price_sources_resolved p ≡ true
    → compute_remaining_gates p ≡ []
unfolding compute_remaining_gates
no_gates p a b c d e = rw (a, b, c, d, e) refl

-- An input with the candidate policy.
abbrev pub on_candidate : GuardedSettlementInput → GuardedSettlementInput
on_candidate input = record input { policy = production_candidate_policy }

module _ (sha256_hex : Text → Text) (date_seconds : Text → Option JsNumber) where
  -- Where an intent is ready and every pair of the policy has a cap on the token that it sells, no
  -- production gate remains.
  pub evaluate_guarded_settlement_gates :
      (input : GuardedSettlementInput)
      → (evaluate_guarded_settlement sha256_hex date_seconds input).ready ≡ true
      → HasCaps input.policy
      → (evaluate_guarded_settlement sha256_hex date_seconds input).remaining_production_gates ≡ []
  unfolding evaluate_guarded_settlement compute_remaining_gates
  evaluate_guarded_settlement_gates input h caps =
      let p = input.policy in
      let r = (evaluate_guarded_settlement_iff sha256_hex date_seconds input).0 h in
      let (selector, listed) = r.call.5 in
      let (t, resolved, hex, canary, hex', same) = r.taker in
      let (obs, seen, o) = r.observed in
      let (at, age, dated, limit, young, past) = o.fresh in
      let (price, quoted, q) = r.priced in
      no_gates p (listed_is_empty p.allowed_selectors input.intent.selector listed)
        (rw resolved hex) (caps_resolved p p.allowed_pairs caps) (ap is_some limit)
        (price_sources_resolved_of p input.intent price input.now_sec q)

  -- Under the candidate policy no intent is ready, whatever is observed and whenever, and all five
  -- gates remain.
  pub production_candidate_policy-closed :
      (input : GuardedSettlementInput)
      → ((evaluate_guarded_settlement sha256_hex date_seconds (on_candidate input)).ready ≡ false)
        × ((evaluate_guarded_settlement sha256_hex date_seconds (on_candidate input)).sanitized_plan
            ≡ none)
        × ((evaluate_guarded_settlement sha256_hex date_seconds
              (on_candidate input)).remaining_production_gates
            ≡ approved_selector ∷ final_taker_gate ∷ per_token_amount_cap ∷ dated_registry_strategy
              ∷ trusted_price_source ∷ [])
  unfolding evaluate_guarded_settlement production_candidate_policy compute_remaining_gates
      cap_unresolved get text_eq to_lower_case
  production_candidate_policy-closed input =
      let result = evaluate_guarded_settlement sha256_hex date_seconds (on_candidate input) in
      elim (Bool-cases result.ready) [
        | inl e ↦
            let r =
              (evaluate_guarded_settlement_iff sha256_hex date_seconds (on_candidate input)).0 e in
            let resolved = r.taker.1 in absurd cc
        | inr e ↦ (e, rw e refl, refl)
      ]
