-- ===== src/Rialto/Registry/Reconciled.antt =====
-- When a target is reconciled with the registry, and when a selector is approved for production.
use bps_protocol.Prelude.{
  ℕ, ◌≡◌, ◌↔◌, inl, inr, refl, sym, ap, ◌∙◌, Bool, true, false, not, ◌&&◌, Option, none, some, List,
  [], ◌∷◌, map, arith, ◌==◌, if◌then◌else◌, Any, Bool-cases,
}
use bps_protocol.Text.{Text, text_eq, text_eq_iff, to_lower_case}
use bps_protocol.Dict.{has}
use bps_protocol.Pod.Address.{zero_address, is_hex_address}
use bps_protocol.Rialto.Registry.{
  is_present, is_address, RegistryFeatureObservation, RegistryReconciliation, refused,
  missing_registry_field, malformed_address, zero_current_router, feature_paused,
  DerivedReplayInput, DerivedReplayResult, derived, wrong_chain, malformed_selector,
  router_unreconciled, structurally_approved, selector_unapproved, is_complete, has_addresses,
  is_paused, is_selector, lower_or_empty, match_router, reconcile_observed,
  reconcile_registry_target, derive_structural_replay,
}

-- The text is there and is an address.
abbrev pub IsGivenAddress : Option Text → Type 0
IsGivenAddress o = (a : Text) × (o ≡ some a) × (is_hex_address a ≡ true)

-- Every field is there, every address is one, the feature is not paused, its router is not zero,
-- and the target is that router.
pub record IsCurrent (target : Text) (obs : RegistryFeatureObservation) : Type 0 where
  pub target_given : is_hex_address target ≡ true
  pub registry : IsGivenAddress obs.registry
  pub feature : (n : ℕ) × (obs.feature ≡ some n)
  pub current :
      (a : Text) × (obs.current_router ≡ some a)
      × (is_hex_address a ≡ true)
      × (¬ (to_lower_case a ≡ zero_address))
      × (to_lower_case target ≡ to_lower_case a)
  pub previous : IsGivenAddress obs.previous_router
  pub next : IsGivenAddress obs.next_router
  pub not_paused : obs.paused ≡ some false

pub address_iff : (o : Option Text) → is_address o ≡ true ↔ IsGivenAddress o
address_iff none = (λ h. absurd cc, λ h. absurd (let e = h.1 in cc))
address_iff (some t) =
    ((λ h. (t, refl, h)), (λ h. let (a, e, p) = h in let same : t ≡ a = cc in rw same p))

feature_iff : (o : Option ℕ) → is_present o ≡ true ↔ (n : ℕ) × (o ≡ some n)
feature_iff none = (λ h. absurd cc, λ h. absurd (let e = h.1 in cc))
feature_iff (some n) = (λ h. (n, refl), λ h. refl)

paused_iff : (o : Option Bool) → (is_present o ≡ true) × (is_paused o ≡ false) ↔ (o ≡ some false)
paused_iff none = (λ h. absurd (let e = h.0 in cc), λ h. absurd cc)
paused_iff (some true) = (λ h. absurd (let e = h.1 in cc), λ h. absurd cc)
paused_iff (some false) = (λ h. refl, λ h. (refl, refl))

address_present : (o : Option Text) → is_address o ≡ true → is_present o ≡ true
address_present none h = absurd cc
address_present (some t) h = refl

complete_iff :
    (a b c d e f : Bool)
    → (a && b && c && d && e && f) ≡ true
      ↔ (a ≡ true) × (b ≡ true) × (c ≡ true) × (d ≡ true) × (e ≡ true) × (f ≡ true)
complete_iff a b c d e f = (λ h. ground arith, λ h. ground arith)

addresses_iff :
    (a b c d e : Bool)
    → (a && b && c && d && e) ≡ true
      ↔ (a ≡ true) × (b ≡ true) × (c ≡ true) × (d ≡ true) × (e ≡ true)
addresses_iff a b c d e = (λ h. ground arith, λ h. ground arith)

differ : (b : Bool) → b ≡ true → b ≡ false → ⊥
differ b h k = cc

-- What the tests of a reconciliation decide, together.
abbrev IsPassing : Text → RegistryFeatureObservation → Type 0
IsPassing target obs =
    (is_complete obs ≡ true)
    × (has_addresses (some target) obs ≡ true)
    × (text_eq (lower_or_empty obs.current_router) zero_address ≡ false)
    × (is_paused obs.paused ≡ false)
    × (text_eq (to_lower_case target) (lower_or_empty obs.current_router) ≡ true)

passing→IsCurrent :
    (target : Text) (obs : RegistryFeatureObservation) → IsPassing target obs → IsCurrent target obs
passing→IsCurrent target obs h =
    let (whole, addressed, nonzero, running, same) = h in
    let (r, f, c, p, n, z) = (complete_iff _ _ _ _ _ _).0 whole in
    let (at, ar, ac, apr, an) = (addresses_iff _ _ _ _ _).0 addressed in
    let (a, found, valid) = (address_iff obs.current_router).0 ac in
    record {
      target_given = at;
      registry = (address_iff obs.registry).0 ar;
      feature = (feature_iff obs.feature).0 f;
      current = (
        a,
        found,
        valid,
        (λ zero.
            let e = (text_eq_iff (to_lower_case a) zero_address).1 zero in
            let hit : text_eq (lower_or_empty obs.current_router) zero_address ≡ true =
              rw found e in
            differ (text_eq (lower_or_empty obs.current_router) zero_address) hit nonzero),
        (text_eq_iff (to_lower_case target) (to_lower_case a)).0 (rw found at same),
      );
      previous = (address_iff obs.previous_router).0 apr;
      next = (address_iff obs.next_router).0 an;
      not_paused = (paused_iff obs.paused).0 (z, running);
    }

IsCurrent→passing :
    (target : Text) (obs : RegistryFeatureObservation) → IsCurrent target obs → IsPassing target obs
IsCurrent→passing target obs h =
    let (a, found, valid, nonzero, same) = h.current in
    let ar = (address_iff obs.registry).1 h.registry in
    let ac = (address_iff obs.current_router).1 (a, found, valid) in
    let apr = (address_iff obs.previous_router).1 h.previous in
    let an = (address_iff obs.next_router).1 h.next in
    let (z, running) = (paused_iff obs.paused).1 h.not_paused in
    (
      (complete_iff _ _ _ _ _ _).1 (
        address_present obs.registry ar,
        (feature_iff obs.feature).1 h.feature,
        address_present obs.current_router ac,
        address_present obs.previous_router apr,
        address_present obs.next_router an,
        z,
      ),
      (addresses_iff _ _ _ _ _).1 (h.target_given, ar, ac, apr, an),
      rw found (not_zero a nonzero),
      running,
      rw found ((text_eq_iff (to_lower_case target) (to_lower_case a)).1 same),
    )
  where
    not_zero :
        (a : Text)
        → ¬ (to_lower_case a ≡ zero_address)
        → text_eq (to_lower_case a) zero_address ≡ false
    not_zero a nonzero = elim (Bool-cases (text_eq (to_lower_case a) zero_address)) [
      | inl e ↦ absurd (nonzero ((text_eq_iff (to_lower_case a) zero_address).0 e))
      | inr e ↦ e
    ]

match_router-reconciled :
    (t cur prev next : Text) (obs : RegistryFeatureObservation)
    → (match_router t cur prev next obs).router_reconciled ≡ text_eq t cur
match_router-reconciled t cur prev next obs = elim (Bool-cases (text_eq t cur)) [
  | inl e ↦ rw e refl
  | inr e ↦ rw e refl
]

-- A chain of refusals reconciles when none of them applies and its last case reconciles.
chain_reconciled :
    (a b c d : Bool) (w x y z last : RegistryReconciliation)
    → w.router_reconciled ≡ false
    → x.router_reconciled ≡ false
    → y.router_reconciled ≡ false
    → z.router_reconciled ≡ false
    → (if not a
        then w
        else if not b
        then x
        else if c
        then y
        else if d
        then z
        else last).router_reconciled
      ≡ (a && b && not c && not d && last.router_reconciled)
chain_reconciled false b c d w x y z last hw hx hy hz = hw
chain_reconciled true false c d w x y z last hw hx hy hz = hx
chain_reconciled true true true d w x y z last hw hx hy hz = hy
chain_reconciled true true false true w x y z last hw hx hy hz = hz
chain_reconciled true true false false w x y z last hw hx hy hz = refl

all_true :
    (a b c d e : Bool)
    → (a && b && not c && not d && e) ≡ true
      ↔ (a ≡ true) × (b ≡ true) × (c ≡ false) × (d ≡ false) × (e ≡ true)
all_true a b c d e = (λ h. ground arith, λ h. ground arith)

reconcile_observed_eq :
    (target : Text) (obs : RegistryFeatureObservation)
    → (reconcile_observed (some target) obs).router_reconciled ≡ (
        is_complete obs
        && has_addresses (some target) obs
        && not (text_eq (lower_or_empty obs.current_router) zero_address)
        && not (is_paused obs.paused)
        && text_eq (to_lower_case target) (lower_or_empty obs.current_router))
unfolding reconcile_observed
reconcile_observed_eq target obs =
    chain_reconciled (is_complete obs) (has_addresses (some target) obs)
      (text_eq (lower_or_empty obs.current_router) zero_address) (is_paused obs.paused)
      (refused missing_registry_field false false obs) (refused malformed_address false false obs)
      (refused zero_current_router false false obs) (refused feature_paused false false obs)
      (match_router (to_lower_case target) (lower_or_empty obs.current_router)
        (lower_or_empty obs.previous_router) (lower_or_empty obs.next_router) obs)
      refl refl refl refl
    ∙ ap
        (λ e.
          is_complete obs
          && has_addresses (some target) obs
          && not (text_eq (lower_or_empty obs.current_router) zero_address)
          && not (is_paused obs.paused)
          && e)
        (match_router-reconciled (to_lower_case target) (lower_or_empty obs.current_router)
          (lower_or_empty obs.previous_router) (lower_or_empty obs.next_router) obs)

-- A target is reconciled with an observation of the registry exactly when every field is there
-- and well formed, the feature is not paused, its current router is not zero, and the target is
-- that router: the previous or the next router never suffices.
pub reconcile_registry_target_iff :
    (target : Text) (obs : RegistryFeatureObservation)
    → (reconcile_registry_target (some target) (some obs)).router_reconciled ≡ true
      ↔ IsCurrent target obs
unfolding reconcile_registry_target
reconcile_registry_target_iff target obs =
    let cur = lower_or_empty obs.current_router in
    let decided =
      all_true (is_complete obs) (has_addresses (some target) obs) (text_eq cur zero_address)
        (is_paused obs.paused) (text_eq (to_lower_case target) cur) in
    let eq = reconcile_observed_eq target obs in
    (
      (λ h. passing→IsCurrent target obs (decided.0 (sym eq ∙ h))),
      (λ h. eq ∙ decided.1 (IsCurrent→passing target obs h)),
    )

-- One of the texts is the given one, in whatever case.
abbrev pub IsListed : List Text → Text → Type 0
IsListed ts t = Any (λ s. to_lower_case s ≡ to_lower_case t) ts

-- The test for a listed text.
pub has-map_iff :
    (ts : List Text) (t : Text)
    → has (map to_lower_case ts) (to_lower_case t) ≡ true ↔ IsListed ts t
unfolding has
has-map_iff [] t = (λ h. ground arith, λ h. absurd h)
has-map_iff (s ∷ ts) t =
    let rest = has-map_iff ts t in
    let here = text_eq_iff (to_lower_case s) (to_lower_case t) in
    (
      (λ h. elim (Bool-cases (text_eq (to_lower_case s) (to_lower_case t))) [
        | inl e ↦ inl (here.0 e)
        | inr e ↦ inr (rest.0 (ground arith))
      ]),
      (λ h. elim h [ inl e ↦ ground (arith, here.1 e) | inr k ↦ ground (arith, rest.1 k) ]),
    )

chain_approved :
    (a b c : Bool) (x y z last : DerivedReplayResult)
    → x.production_structural_approved ≡ false
    → y.production_structural_approved ≡ false
    → z.production_structural_approved ≡ false
    → (if not a
        then x
        else if not b
        then y
        else if not c
        then z
        else last).production_structural_approved
      ≡ (a && b && c && last.production_structural_approved)
chain_approved false b c x y z last hx hy hz = hx
chain_approved true false c x y z last hx hy hz = hy
chain_approved true true false x y z last hx hy hz = hz
chain_approved true true true x y z last hx hy hz = refl

all_listed :
    (n : ℕ) (b c d : Bool)
    → (n == 4663 && b && c && (c && d)) ≡ true ↔ (n ≡ 4663) × (b ≡ true) × (c ≡ true) × (d ≡ true)
all_listed n b c d = (λ h. ground arith, λ h. ground arith)

-- A selector is approved for production exactly when the chain is 4663, the selector is well
-- formed, the target is reconciled with an observation of the registry that is there, and the
-- selector is on the list of approved selectors, in whatever case; so an empty list approves
-- nothing.
pub derive_structural_replay_iff :
    (input : DerivedReplayInput)
    → (derive_structural_replay input).production_structural_approved ≡ true
      ↔ (input.chain_id ≡ 4663)
        × (is_selector input.selector ≡ true)
        × ((reconcile_registry_target (some input.target) input.registry).router_reconciled ≡ true)
        × IsListed input.approved_selectors input.selector
unfolding derive_structural_replay
derive_structural_replay_iff input =
    let listed = has-map_iff input.approved_selectors input.selector in
    let r = reconcile_registry_target (some input.target) input.registry in
    let approved =
      has (map to_lower_case input.approved_selectors) (to_lower_case input.selector) in
    let decided =
      all_listed input.chain_id (is_selector input.selector) r.router_reconciled approved in
    let eq =
      chain_approved (input.chain_id == 4663) (is_selector input.selector) r.router_reconciled
        (derived input r wrong_chain false false) (derived input r malformed_selector false false)
        (derived input r router_unreconciled false false)
        (derived input r (if approved then structurally_approved else selector_unapproved) approved
          (r.router_reconciled && approved))
        refl refl refl in
    (
      (λ h. let (a, b, c, d) = decided.0 (sym eq ∙ h) in (a, b, c, listed.0 d)),
      (λ h. let (a, b, c, d) = h in eq ∙ decided.1 (a, b, c, listed.1 d)),
    )
