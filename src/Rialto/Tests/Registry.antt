-- ===== src/Rialto/Tests/Registry.antt =====
-- A target and a selector against an observation of the registry.
use bps_protocol.Prelude.{◌≡◌, ◌↔◌, true, false, none, some, [], ◌∷◌}
use bps_protocol.Text.{codes}
use bps_protocol.Rialto.Registry.{
  RegistryFeatureObservation, DerivedReplayInput, is_selector, reconcile_registry_target,
  derive_structural_replay,
}
use bps_protocol.Rialto.Registry.Reconciled.{
  IsCurrent, IsListed, reconcile_registry_target_iff, derive_structural_replay_iff,
}
use bps_protocol.Pod.Samples.{alice, bob, bob_upper, pool_wallet, token}

abbrev observation : RegistryFeatureObservation
observation = record {
  registry = some pool_wallet;
  feature = some 3;
  current_router = some bob;
  previous_router = some alice;
  next_router = some token;
  paused = some false;
  block_number = some 77;
  observation_time_utc = none;
}

abbrev input : DerivedReplayInput
input = record {
  chain_id = 4663;
  target = bob_upper;
  selector = codes "0x12AB5678";
  registry = some observation;
  approved_selectors = codes "0x12ab5678" ∷ [];
  selector_abi = none;
}

reconcile_registry_target_iff_example :
    (reconcile_registry_target (some bob_upper) (some observation)).router_reconciled ≡ true
    ↔ IsCurrent bob_upper observation
reconcile_registry_target_iff_example = reconcile_registry_target_iff bob_upper observation

derive_structural_replay_iff_example :
    (derive_structural_replay input).production_structural_approved ≡ true
    ↔ (input.chain_id ≡ 4663)
      × (is_selector input.selector ≡ true)
      × ((reconcile_registry_target (some input.target) input.registry).router_reconciled ≡ true)
      × IsListed input.approved_selectors input.selector
derive_structural_replay_iff_example = derive_structural_replay_iff input
