-- ===== src/Rialto/Settlement/Evaluation/Observed.antt =====
-- When the guards on the taker, the time, the observations and the replay store add nothing.
use bps_protocol.Prelude.{
  ℕ, ◌≡◌, ◌↔◌, refl, ap, Bool, true, false, not, ◌&&◌, ◌||◌, Option, none, some, [], ◌∷◌, ◌++◌,
  arith, if◌then◌else◌, subst,
}
use bps_protocol.Integer.{pos}
use bps_protocol.Integer.Number.{
  JsNumber, finite, ltb_number, leb_number, sub_number, IsNotAbove, IsNotAtMost, ltb_number_iff,
  leb_number_iff,
}
use bps_protocol.Text.{Text, text_eq, text_eq_iff, to_lower_case}
use bps_protocol.Pod.Address.{is_hex_address, zero_address}
use bps_protocol.Rialto.Registry.{
  RegistryFeatureObservation, RegistryReconcileCode, reconciled, missing_registry_field,
  malformed_address, zero_current_router, feature_paused, target_router_mismatch, is_dated,
  is_present, reconcile_observed, reconcile_registry_target,
}
use bps_protocol.Rialto.Registry.Reconciled.{IsCurrent, address_iff, reconcile_registry_target_iff}
use bps_protocol.Rialto.Settlement.{
  dead_address, taker_unresolved, taker_mismatch, missing_deadline, intent_expired,
  intent_lifetime_excessive, registry_observation_stale, SettlementPolicy, SettlementIntent,
}
use bps_protocol.Rialto.Settlement.Guards.{
  add_if, is_canary, taker_resolved, matches_taker, taker_failures, reconcile_failures, is_fresh,
  same_registry, is_feature, observation_tests, observed_second, registry_failures, expiry_failures,
}
use bps_protocol.Rialto.Settlement.Evaluation.Passed.{
  IsSameLower, add_if_nil, either_nil, none_added, failing_nil,
}

-- The policy's taker is resolved, an address and no canary, and it is the intent's.
abbrev pub IsTaker : Option Text → Text → Type 0
IsTaker policy_taker taker =
    (t : Text) × (policy_taker ≡ some t)
    × (is_hex_address t ≡ true)
    × (is_canary t ≡ false)
    × (is_hex_address taker ≡ true)
    × IsSameLower taker t

is_canary_lower : (a b : Text) → IsSameLower a b → is_canary a ≡ is_canary b
is_canary_lower a b e = ap (λ l. text_eq l zero_address || text_eq l dead_address) e

resolved_iff :
    (t taker : Text)
    → taker_failures (some t) taker ≡ []
      ↔ (is_hex_address t ≡ true)
        × (is_canary t ≡ false)
        × (is_hex_address taker ≡ true)
        × IsSameLower taker t
unfolding taker_failures
resolved_iff t taker =
    let same = text_eq_iff (to_lower_case taker) (to_lower_case t) in
    let canary = is_canary_lower taker t in
    let passed =
      none_added _ _
        (either_nil (not (taker_resolved (some t))) taker_unresolved
          (add_if (not (matches_taker (some t) taker)) taker_mismatch))
        (add_if_nil (is_hex_address taker && is_canary taker) taker_unresolved) in
    (
      (λ h.
          let ((a, b), c) = passed.0 h in
          let m = (add_if_nil (not (matches_taker (some t) taker)) taker_mismatch).0 b in
          (ground arith, ground arith, ground arith, same.0 (ground arith))),
      (λ h.
          let (a, b, c, d) = h in
          passed.1 (
            (
              ground arith,
              (add_if_nil (not (matches_taker (some t) taker)) taker_mismatch).1
                  (ground (arith, same.1 d)),
            ),
            rw (canary d) (ground arith),
          )),
    )

pub taker_failures_iff :
    (policy_taker : Option Text) (taker : Text)
    → taker_failures policy_taker taker ≡ [] ↔ IsTaker policy_taker taker
unfolding taker_failures
taker_failures_iff none taker = (λ h. absurd cc, λ h. absurd (let e = h.1 in cc))
taker_failures_iff (some t) taker =
    let known = resolved_iff t taker in
    (
      (λ h. let (a, b, c, d) = known.0 h in (t, refl, a, b, c, d)),
      (λ h. let (s, e, a, b, c, d) = h in let same : t ≡ s = cc in known.1 (rw same (a, b, c, d))),
    )

-- The deadline is not at most 0, nor at most the creation, nor later than that by more than the
-- policy's lifetime, and now is not above it.
abbrev pub IsTimely : SettlementPolicy → SettlementIntent → JsNumber → Type 0
IsTimely p i now =
    IsNotAtMost i.deadline_sec (finite (pos 0))
    × IsNotAtMost (sub_number i.deadline_sec i.created_at_sec) (finite (pos 0))
    × IsNotAbove (sub_number i.deadline_sec i.created_at_sec) p.max_intent_lifetime_sec
    × IsNotAbove now i.deadline_sec

timely_iff :
    (deadline lifetime longest now : JsNumber)
    → (if leb_number deadline (finite (pos 0))
          then missing_deadline ∷ []
          else (if leb_number lifetime (finite (pos 0))
              then intent_expired ∷ []
              else add_if (ltb_number longest lifetime) intent_lifetime_excessive)
            ++ add_if (ltb_number deadline now) intent_expired)
        ≡ []
      ↔ IsNotAtMost deadline (finite (pos 0))
        × IsNotAtMost lifetime (finite (pos 0))
        × IsNotAbove lifetime longest
        × IsNotAbove now deadline
timely_iff deadline lifetime longest now =
    let given = leb_number_iff deadline (finite (pos 0)) in
    let after = leb_number_iff lifetime (finite (pos 0)) in
    let short = ltb_number_iff lifetime longest in
    let due = ltb_number_iff now deadline in
    let last = add_if_nil (ltb_number longest lifetime) intent_lifetime_excessive in
    let open_yet = add_if_nil (ltb_number deadline now) intent_expired in
    let inner =
      none_added _ _
        (either_nil (leb_number lifetime (finite (pos 0))) intent_expired
          (add_if (ltb_number longest lifetime) intent_lifetime_excessive))
        open_yet in
    let outer = either_nil (leb_number deadline (finite (pos 0))) missing_deadline _ in
    (
      (λ h.
          let (a, t) = outer.0 h in
          let ((b, c), d) = inner.0 t in (given.0 a, after.0 b, short.0 (last.0 c), due.0 d)),
      (λ h.
          let (a, b, c, d) = h in
          outer.1 (given.1 a, inner.1 ((after.1 b, last.1 (short.1 c)), due.1 d))),
    )

pub expiry_failures_iff :
    (p : SettlementPolicy) (i : SettlementIntent) (now : JsNumber)
    → expiry_failures p i now ≡ [] ↔ IsTimely p i now
unfolding expiry_failures
expiry_failures_iff p i now =
    timely_iff i.deadline_sec (sub_number i.deadline_sec i.created_at_sec) p.max_intent_lifetime_sec
      now

reconcile_failures_iff : (c : RegistryReconcileCode) → reconcile_failures c ≡ [] ↔ c ≡ reconciled
reconcile_failures_iff reconciled = (λ h. refl, λ h. refl)
reconcile_failures_iff missing_registry_field = (λ h. absurd cc, λ h. absurd cc)
reconcile_failures_iff malformed_address = (λ h. absurd cc, λ h. absurd cc)
reconcile_failures_iff zero_current_router = (λ h. absurd cc, λ h. absurd cc)
reconcile_failures_iff feature_paused = (λ h. absurd cc, λ h. absurd cc)
reconcile_failures_iff target_router_mismatch = (λ h. absurd cc, λ h. absurd cc)

-- The code is the good one exactly where the flag is set.
code_iff :
    (target : Text) (obs : RegistryFeatureObservation)
    → (reconcile_registry_target (some target) (some obs)).code ≡ reconciled
      ↔ (reconcile_registry_target (some target) (some obs)).router_reconciled ≡ true
unfolding reconcile_registry_target reconcile_observed
code_iff target obs = (λ h. ground arith, λ h. ground arith)

-- A time that is there and a limit that is resolved; the time is not above now, and its age is not
-- above the limit.
abbrev pub IsFresh : Option JsNumber → Option JsNumber → JsNumber → Type 0
IsFresh seen limit now =
    (t : JsNumber) × (age : JsNumber) × (seen ≡ some t)
    × (limit ≡ some age)
    × IsNotAbove (sub_number now t) age
    × IsNotAbove t now

pub IsFresh-iff :
    (seen limit : Option JsNumber) (now : JsNumber)
    → is_fresh seen limit now ≡ true ↔ IsFresh seen limit now
unfolding is_fresh
IsFresh-iff none limit now = (λ h. absurd cc, λ h. absurd (let e = h.2 in cc))
IsFresh-iff (some t) none now = (λ h. absurd cc, λ h. absurd (let e = h.3 in cc))
IsFresh-iff (some t) (some age) now =
    let young = ltb_number_iff (sub_number now t) age in
    let past = ltb_number_iff t now in
    let both = neither_iff (ltb_number age (sub_number now t)) (ltb_number now t) in
    (
      (λ h. let (a, b) = both.0 h in (t, age, refl, refl, young.0 a, past.0 b)),
      (λ h.
          let (u, a, e, f, g, k) = h in
          let x : t ≡ u = cc in
          let y : age ≡ a = cc in both.1 (young.1 (rw (x, y) g), past.1 (rw x k))),
    )
  where
    neither_iff : (a b : Bool) → (not a && not b) ≡ true ↔ (a ≡ false) × (b ≡ false)
    neither_iff a b = (λ h. ground arith, λ h. ground arith)

same_registry_iff :
    (r : Option Text) (registry : Text)
    → same_registry r registry ≡ true ↔ (t : Text) × (r ≡ some t) × IsSameLower t registry
same_registry_iff none registry = (λ h. absurd cc, λ h. absurd (let e = h.1 in cc))
same_registry_iff (some t) registry =
    let same = text_eq_iff (to_lower_case t) (to_lower_case registry) in
    ((λ h. (t, refl, same.0 h)), (λ h. let (u, e, l) = h in let x : t ≡ u = cc in same.1 (rw x l)))

is_feature_iff : (f : Option ℕ) (feature : ℕ) → is_feature f feature ≡ true ↔ f ≡ some feature
is_feature_iff none feature = (λ h. absurd cc, λ h. absurd cc)
is_feature_iff (some f) feature =
    (λ h. ap some (ground arith), λ h. let e : f ≡ feature = cc in ground arith)

module _ (date_seconds : Text → Option JsNumber) where
  -- The observation is of the policy's registry and feature, its current router is the target, and
  -- it is fresh.
  pub record IsObserved (p : SettlementPolicy) (i : SettlementIntent)
      (obs : RegistryFeatureObservation) (now : JsNumber) : Type 0 where
    pub current : IsCurrent i.expected_target obs
    pub registry : (t : Text) × (obs.registry ≡ some t) × IsSameLower t p.registry
    pub feature : obs.feature ≡ some p.feature
    pub fresh :
        IsFresh
          (observed_second date_seconds obs.observation_time_utc)
          p.max_registry_observation_age_sec
          now

  fresh_dated :
      (time : Option Text) (limit : Option JsNumber) (now : JsNumber)
      → is_fresh (observed_second date_seconds time) limit now ≡ true
      → is_present time ≡ true
  unfolding is_fresh
  fresh_dated none limit now h = absurd cc
  fresh_dated (some t) limit now h = refl

  stale_iff :
      (p : SettlementPolicy) (obs : RegistryFeatureObservation) (now : JsNumber)
      → not (
            is_dated obs
            && is_fresh
                (observed_second date_seconds obs.observation_time_utc)
                p.max_registry_observation_age_sec
                now)
          ≡ false
        ↔ IsFresh
            (observed_second date_seconds obs.observation_time_utc)
            p.max_registry_observation_age_sec
            now
  stale_iff p obs now =
      let fresh =
        IsFresh-iff (observed_second date_seconds obs.observation_time_utc)
          p.max_registry_observation_age_sec now in
      (
        λ h. fresh.0 (ground arith),
        λ h. ground (
          arith,
          fresh.1 h,
          fresh_dated obs.observation_time_utc p.max_registry_observation_age_sec now,
        ),
      )

  pub registry_failures_iff :
      (p : SettlementPolicy) (i : SettlementIntent) (observed : Option RegistryFeatureObservation)
      (now : JsNumber)
      → registry_failures date_seconds p i observed now ≡ []
        ↔ (obs : RegistryFeatureObservation) × (observed ≡ some obs) × IsObserved p i obs now
  unfolding registry_failures
  registry_failures_iff p i none now = (λ h. absurd cc, λ h. absurd (let e = h.1 in cc))
  registry_failures_iff p i (some obs) now =
      let r = same_registry_iff obs.registry p.registry in
      let f = is_feature_iff obs.feature p.feature in
      let code = code_iff i.expected_target obs in
      let known = reconcile_registry_target_iff i.expected_target obs in
      let stale = stale_iff p obs now in
      let passed =
        none_added _ _
          (none_added _ _ (failing_nil (observation_tests p obs)) (
            reconcile_failures_iff
              (reconcile_registry_target (some i.expected_target) (some obs)).code))
          (add_if_nil
            (not (
              is_dated obs
              && is_fresh (observed_second date_seconds obs.observation_time_utc)
                  p.max_registry_observation_age_sec now))
            registry_observation_stale) in
      (
        (λ h.
            let ((t, c), d) = passed.0 h in
            let (a, t) = t in
            let (b, t) = t in
            (
              obs,
              refl,
              record {
                current = known.0 (code.0 c);
                registry = r.0 (ground arith);
                feature = f.0 (ground arith);
                fresh = stale.0 d;
              },
            )),
        (λ h.
            let (o, e, k) = h in
            let same : o ≡ obs = cc in
            let k = subst (λ q. IsObserved p i q now) same k in
            passed.1 (
              (
                (
                  ground (arith, r.1 k.registry, (address_iff obs.registry).1 k.current.registry),
                  (ground (arith, f.1 k.feature), tt),
                ),
                code.1 (known.1 k.current),
              ),
              stale.1 k.fresh,
            )),
      )
