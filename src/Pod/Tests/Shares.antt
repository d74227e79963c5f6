-- ===== src/Pod/Tests/Shares.antt =====
-- Eligibility, allocation and the tree at small data.
use bps_protocol.Prelude.{
  ◌≡◌, ◌↔◌, refl, ap, arith, true, none, some, [], ◌∷◌, ok, err, ◌>>=◌, is_ok, result_of,
  result_of_eq, Any, All, sum_of, length,
}
use bps_protocol.Text.{Text, text_eq, text_lt}
use bps_protocol.Order.{IsSorted, insert_sorted, sort_by}
use bps_protocol.Dict.{get, has, add}
use bps_protocol.Pod.Fault.{proof_verification}
use bps_protocol.Pod.Numeric.{digits_of, to_decimal_string}
use bps_protocol.Pod.Eligibility.{weight_field, resolve_eligibility}
use bps_protocol.Pod.Eligibility.Admission.{Entitles, IsExcluded, eligible_iff, eligible_totals}
use mathlib.Core.List.Perm
use bps_protocol.Pod.Eligibility.Arrival.{resolve_eligibility_perm}
use bps_protocol.Pod.Allocation.{weight_of, allocate_asset, allocate}
use bps_protocol.Pod.Allocation.Conservation.{
  IsConserved, allocation_described, allocate_asset_conserves,
}
use bps_protocol.Pod.Reconciliation.{Reconciliation, reconcile}
use bps_protocol.Pod.Reconciliation.Books.{AllBalanced, result_described, reconcile-allocate}
use bps_protocol.Pod.Merkle.{
  make_result, build_merkle, entitlement_before, entitlement_key, check_entitlements, LeafFields,
  viem_verify_raw,
}
use bps_protocol.Pod.Merkle.Entries.{IsBuilt, build_merkle-IsBuilt}
use bps_protocol.Pod.Merkle.Fold.{
  HashTree, leaf, node, tree_root, here, left, viem_verify_raw_complete,
}
use bps_protocol.Pod.Pipeline.{verify_proofs}
use bps_protocol.Pod.Pipeline.Verified.{IsVerified, verify_proofs_iff}
use bps_protocol.Pod.Samples.{
  sample_oz, sample_viem, summed_viem, code_sum, alice, bob, pool_wallet, cycle, two_weights, asset,
  entitled, record_of, exclusion, sample_fixture,
}

eligible_iff_example :
    let rs = record_of alice none ∷ record_of bob (some 1700) ∷ record_of pool_wallet none ∷ [] in
    Any
      (λ v. v ≡ alice)
      (resolve_eligibility cycle (exclusion ∷ []) rs two_weights).eligible_wallets
    ↔ Any (Entitles cycle alice) rs × ¬ IsExcluded (exclusion ∷ []) alice
eligible_iff_example =
    eligible_iff cycle (exclusion ∷ [])
      (record_of alice none ∷ record_of bob (some 1700) ∷ record_of pool_wallet none ∷ [])
      two_weights alice

eligible_totals_example :
    let e =
      resolve_eligibility cycle
        (exclusion ∷ [])
        (record_of bob none ∷ record_of alice none ∷ [])
        two_weights in
    IsSorted text_lt e.eligible_wallets
    × (e.total_effective_weight
        ≡ sum_of (weight_field (λ x. x.effective_weight) two_weights) e.eligible_wallets)
    × (e.total_base_twab ≡ sum_of (weight_field (λ x. x.base_twab) two_weights) e.eligible_wallets)
    × (e.total_eligible_snapshot_balance
        ≡ sum_of (weight_field (λ x. x.snapshot_balance) two_weights) e.eligible_wallets)
eligible_totals_example =
    eligible_totals cycle (exclusion ∷ []) (record_of bob none ∷ record_of alice none ∷ [])
      two_weights

counted : 900 ≡ sum_of (weight_of two_weights) (alice ∷ bob ∷ [])
unfolding get text_eq
counted = refl

allocate_asset_conserves_example :
    (allocate_asset cycle asset (alice ∷ bob ∷ []) two_weights 900
      ≡ ok (allocation_described cycle asset two_weights 900 (alice ∷ bob ∷ [])))
    × IsConserved
        (alice ∷ bob ∷ [])
        900
        (allocation_described cycle asset two_weights 900 (alice ∷ bob ∷ []))
allocate_asset_conserves_example =
    allocate_asset_conserves cycle asset (alice ∷ bob ∷ []) two_weights 900 counted

reconcile-allocate_example :
    (r : Reconciliation) × ((allocate cycle (asset ∷ []) (alice ∷ bob ∷ []) two_weights 900
        >>= reconcile cycle)
      ≡ ok r)
    × AllBalanced (asset ∷ []) r.assets
    × (r.publishable
        ≡ (result_described cycle
            (alice ∷ bob ∷ [])
            two_weights
            900
            counted
            (asset ∷ [])).publishable)
reconcile-allocate_example =
    reconcile-allocate cycle (alice ∷ bob ∷ []) two_weights 900 counted (asset ∷ [])

builds : is_ok (build_merkle sample_oz cycle (entitled bob 177 ∷ entitled alice 622 ∷ [])) ≡ true
unfolding build_merkle entitlement_before entitlement_key check_entitlements sort_by insert_sorted
    text_eq text_lt digits_of to_decimal_string has add
builds = refl

build_merkle-IsBuilt_example :
    IsBuilt
      (entitled bob 177 ∷ entitled alice 622 ∷ [])
      (result_of (build_merkle sample_oz cycle (entitled bob 177 ∷ entitled alice 622 ∷ [])) builds)
build_merkle-IsBuilt_example =
    build_merkle-IsBuilt sample_oz cycle (entitled bob 177 ∷ entitled alice 622 ∷ []) (
      result_of_eq (build_merkle sample_oz cycle (entitled bob 177 ∷ entitled alice 622 ∷ []))
        builds)

summed_numbers :
    (a b : Text)
    → summed_viem.hex_value (summed_viem.keccak256 a)
      ≡ summed_viem.hex_value (summed_viem.keccak256 b)
    → summed_viem.keccak256 a ≡ summed_viem.keccak256 b
summed_numbers a b h = let same : code_sum a ≡ code_sum b = omega arith in ap (λ n. n ∷ []) same

abbrev fields : LeafFields
fields = record {
  chain_id = 46;
  claim_manager = pool_wallet;
  cycle_id = 7;
  wallet = alice;
  asset = asset.token_address;
  amount = 10;
}

abbrev two_leaves : HashTree
two_leaves = node (leaf (10 ∷ [])) (leaf (99 ∷ []))

viem_verify_raw_complete_example :
    viem_verify_raw summed_viem fields ((99 ∷ []) ∷ []) (tree_root summed_viem two_leaves) ≡ true
viem_verify_raw_complete_example =
    viem_verify_raw_complete summed_viem summed_numbers two_leaves fields ((99 ∷ []) ∷ [])
      (left (leaf (99 ∷ [])) (here (10 ∷ [])))

verify_proofs_iff_example :
    let m = make_result sample_oz cycle (entitled alice 622 ∷ entitled bob 177 ∷ []) in
    (verify_proofs sample_oz sample_viem sample_fixture (some m)
        ≡ ok (record {
          proof_count = length m.entries;
          oz_verified = length m.entries;
          viem_verified = length m.entries;
          all_verified = true;
        })
      ↔ All (IsVerified sample_oz sample_viem cycle m) m.entries)
    × (verify_proofs sample_oz sample_viem sample_fixture (some m) ≡ err proof_verification
        ↔ ¬ All (IsVerified sample_oz sample_viem cycle m) m.entries)
verify_proofs_iff_example =
    verify_proofs_iff sample_oz sample_viem sample_fixture
      (make_result sample_oz cycle (entitled alice 622 ∷ entitled bob 177 ∷ []))

resolve_eligibility_perm_example :
    resolve_eligibility cycle
      (exclusion ∷ [])
      (record_of alice none ∷ record_of bob none ∷ [])
      two_weights
    ≡ resolve_eligibility cycle
        (exclusion ∷ [])
        (record_of bob none ∷ record_of alice none ∷ [])
        two_weights
resolve_eligibility_perm_example =
    resolve_eligibility_perm cycle (exclusion ∷ []) two_weights
      (Perm.swap (record_of bob none) (record_of alice none) [])
