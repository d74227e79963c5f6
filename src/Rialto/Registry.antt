-- ===== src/Rialto/Registry.antt =====
-- registry-structural.ts: a quote's target against an observation of the router registry, and the
-- separate approval of its selector. A field of the observation that is missing is `none`, and so is
-- a target that is no string; the notes and the constant `d6` are left out.
pub mod Reconciled
use bps_protocol.Prelude.{
  ℕ, Bool, true, false, not, ◌&&◌, ◌||◌, Option, none, some, List, [], ◌∷◌, map, ◌==◌,
  if◌then◌else◌, every, length,
}
use bps_protocol.Text.{Text, text_eq, to_lower_case}
use bps_protocol.Dict.{Dict, get, has}
use bps_protocol.Pod.Address.{is_hex, is_hex_address, zero_address}

pub record RegistryFeatureObservation : Type 0 where
  pub registry : Option Text
  pub feature : Option ℕ
  pub current_router : Option Text
  pub previous_router : Option Text
  pub next_router : Option Text
  pub paused : Option Bool
  pub block_number : Option ℕ
  pub observation_time_utc : Option Text

pub data RegistryReconcileCode : Type 0 where
  reconciled missing_registry_field malformed_address zero_current_router : RegistryReconcileCode
  feature_paused target_router_mismatch : RegistryReconcileCode

pub record RegistryReconciliation : Type 0 where
  pub code : RegistryReconcileCode
  pub router_reconciled : Bool
  pub matched_current : Bool
  pub matched_previous_only : Bool
  pub matched_next_only : Bool
  pub snapshot_dated : Bool

abbrev pub is_present {ℓ} : {A : Type ℓ} → Option A → Bool
is_present none = false
is_present (some a) = true

abbrev pub is_address : Option Text → Bool
is_address none = false
is_address (some t) = is_hex_address t

abbrev pub is_dated : RegistryFeatureObservation → Bool
is_dated obs = is_present obs.block_number || is_present obs.observation_time_utc

-- `fail(code, note)` and, at a mismatch, with the two flags.
abbrev pub refused :
    RegistryReconcileCode → Bool → Bool → RegistryFeatureObservation → RegistryReconciliation
refused code previous next obs = record {
  code = code;
  router_reconciled = false;
  matched_current = false;
  matched_previous_only = previous;
  matched_next_only = next;
  snapshot_dated = is_dated obs;
}

-- The lower case of a text that is there.
abbrev pub lower_or_empty : Option Text → Text
lower_or_empty none = []
lower_or_empty (some t) = to_lower_case t

abbrev pub is_complete : RegistryFeatureObservation → Bool
is_complete obs =
    is_present obs.registry
    && is_present obs.feature
    && is_present obs.current_router
    && is_present obs.previous_router
    && is_present obs.next_router
    && is_present obs.paused

abbrev pub is_paused : Option Bool → Bool
is_paused none = false
is_paused (some p) = p

abbrev pub has_addresses : Option Text → RegistryFeatureObservation → Bool
has_addresses target obs =
    is_address target
    && is_address obs.registry
    && is_address obs.current_router
    && is_address obs.previous_router
    && is_address obs.next_router

-- After the checks: the target against the three routers.
abbrev pub match_router :
    Text → Text → Text → Text → RegistryFeatureObservation → RegistryReconciliation
match_router t cur prev next obs =
    if not (text_eq t cur)
    then refused target_router_mismatch (text_eq t prev && not (text_eq prev zero_address))
        (text_eq t next && not (text_eq next zero_address)) obs
    else record {
      code = reconciled;
      router_reconciled = true;
      matched_current = true;
      matched_previous_only = false;
      matched_next_only = false;
      snapshot_dated = is_dated obs;
    }

unfoldable pub reconcile_observed :
    Option Text → RegistryFeatureObservation → RegistryReconciliation
reconcile_observed target obs =
    if not (is_complete obs)
    then refused missing_registry_field false false obs
    else if not (has_addresses target obs)
    then refused malformed_address false false obs
    else if text_eq (lower_or_empty obs.current_router) zero_address
    then refused zero_current_router false false obs
    else if is_paused obs.paused
    then refused feature_paused false false obs
    else match_router (lower_or_empty target) (lower_or_empty obs.current_router)
        (lower_or_empty obs.previous_router) (lower_or_empty obs.next_router) obs

unfoldable pub reconcile_registry_target :
    Option Text → Option RegistryFeatureObservation → RegistryReconciliation
unfolding reconcile_observed
reconcile_registry_target target none = record {
  code = missing_registry_field;
  router_reconciled = false;
  matched_current = false;
  matched_previous_only = false;
  matched_next_only = false;
  snapshot_dated = false;
}
reconcile_registry_target target (some obs) = reconcile_observed target obs

pub data DerivedStructuralStatus : Type 0 where
  selector_unapproved structurally_approved router_unreconciled : DerivedStructuralStatus
  malformed_selector wrong_chain : DerivedStructuralStatus

pub record DerivedReplayInput : Type 0 where
  pub chain_id : ℕ
  pub target : Text
  pub selector : Text
  pub registry : Option RegistryFeatureObservation
  pub approved_selectors : List Text
  pub selector_abi : Option (Dict Text)

pub record DerivedReplayResult : Type 0 where
  pub derived_status : DerivedStructuralStatus
  pub router_reconciled : Bool
  pub registry_paused : Bool
  pub snapshot_dated : Bool
  pub selector : Text
  pub selector_approved : Bool
  pub selector_function_name : Option Text
  pub production_structural_approved : Bool
  pub registry_reconciliation : RegistryReconciliation

-- `/^0x[0-9a-fA-F]{8}$/`
unfoldable pub is_selector : Text → Bool
is_selector [] = false
is_selector (c ∷ []) = false
is_selector (c ∷ d ∷ ds) = c == b'0' && d == b'x' && length ds == 8 && every is_hex ds

-- `hit` when it is a text that is not empty.
abbrev pub name_of : Option Text → Option Text
name_of none = none
name_of (some []) = none
name_of (some (c ∷ cs)) = some (c ∷ cs)

abbrev pub first_hit : Option Text → Option Text → Option Text
first_hit none other = other
first_hit (some t) other = some t

unfoldable pub resolve_selector_name : Text → Option (Dict Text) → Option Text
resolve_selector_name selector none = none
resolve_selector_name selector (some abi) =
    name_of (first_hit (get abi (to_lower_case selector)) (get abi selector))

abbrev pub observed_paused : Option RegistryFeatureObservation → Bool
observed_paused none = false
observed_paused (some obs) = is_paused obs.paused

-- The result with its status and the two approvals; the other fields are the base's.
abbrev pub derived :
    DerivedReplayInput
    → RegistryReconciliation
    → DerivedStructuralStatus
    → Bool
    → Bool
    → DerivedReplayResult
derived input r status approved production = record {
  derived_status = status;
  router_reconciled = r.router_reconciled;
  registry_paused = observed_paused input.registry;
  snapshot_dated = r.snapshot_dated;
  selector = input.selector;
  selector_approved = approved;
  selector_function_name = resolve_selector_name input.selector input.selector_abi;
  production_structural_approved = production;
  registry_reconciliation = r;
}

unfoldable pub derive_structural_replay : DerivedReplayInput → DerivedReplayResult
unfolding reconcile_registry_target resolve_selector_name
derive_structural_replay input =
    let r = reconcile_registry_target (some input.target) input.registry in
    let approved =
      has (map to_lower_case input.approved_selectors) (to_lower_case input.selector) in
    if not (input.chain_id == 4663)
    then derived input r wrong_chain false false
    else if not (is_selector input.selector)
    then derived input r malformed_selector false false
    else if not r.router_reconciled
    then derived input r router_unreconciled false false
    else derived input r (if approved then structurally_approved else selector_unapproved) approved
        (r.router_reconciled && approved)
