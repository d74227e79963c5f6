-- ===== src/Pod/Merkle.antt =====
-- merkle.ts, over the tree of the package that builds it, and viem-verify.ts, over the hash
-- functions of the package that hashes: both packages are parameters.
pub mod Claims
pub mod Entries
pub mod Returns
pub mod Fold
use bps_protocol.Prelude.{
  ℕ, ◌+◌, ◌≡◌, Bool, true, false, not, ◌&&◌, Option, none, some, List, [], ◌∷◌, ◌++◌, map, arith,
  ltb, leb, ◌==◌, if◌then◌else◌, Outcome, ok, err, ◌>>=◌, ◌>>◌, fail_if,
}
use bps_protocol.Text.{Text, codes, text_eq, text_lt}
use bps_protocol.Order.{sort_by}
use bps_protocol.Dict.{Dict, get_or, put, has, add}
use bps_protocol.Pod.Fault.{Result, empty_tree, zero_leaf, duplicate_entitlement}
use bps_protocol.Pod.Numeric.{to_decimal_string}
use bps_protocol.Pod.Address.{normalize_address}
use bps_protocol.Pod.Model.{CycleConfig, Entitlement}

-- `StandardMerkleTree` of @openzeppelin/merkle-tree: a tree of values under a leaf encoding.
pub record TreePackage : Type 1 where
  pub Tree : Type 0
  pub of_values : List (List Text) → List Text → Tree
  pub root : Tree → Text
  pub leaf_hash : Tree → List Text → Text
  pub get_proof : Tree → List Text → List Text
  pub verify : Text → List Text → List Text → List Text → Bool

-- `keccak256` of viem on hex text, `encodeAbiParameters` at the leaf tuple, and `BigInt` of hex.
pub record HashPackage : Type 0 where
  pub keccak256 : Text → Text
  pub encode_leaf : ℕ → Text → ℕ → Text → Text → ℕ → Text
  pub concat_hex : Text → Text → Text
  pub hex_value : Text → ℕ

unfoldable pub leaf_abi_types : List Text
leaf_abi_types =
    codes "uint256"
    ∷ codes "address"
    ∷ codes "uint256"
    ∷ codes "address"
    ∷ codes "address"
    ∷ codes "uint256"
    ∷ []

unfoldable pub to_value : CycleConfig → Entitlement → List Text
to_value cycle e =
    to_decimal_string cycle.chain_id
    ∷ cycle.claim_manager_address
    ∷ to_decimal_string cycle.cycle_id
    ∷ e.wallet
    ∷ e.asset
    ∷ to_decimal_string e.amount
    ∷ []

-- `compareEntitlements(a, b) < 0`
unfoldable pub entitlement_before : Entitlement → Entitlement → Bool
entitlement_before a b =
    if not (text_eq a.wallet b.wallet)
    then text_lt a.wallet b.wallet
    else if not (text_eq a.asset b.asset)
    then text_lt a.asset b.asset
    else false

unfoldable pub entitlement_key : Entitlement → Text
entitlement_key e = to_decimal_string e.cycle_id ++ (b'|' ∷ (e.wallet ++ (b'|' ∷ e.asset)))

-- The loop that looks for zero leaves and duplicates.
unfoldable pub check_entitlements : List Text → List Entitlement → Result (Unit {0})
check_entitlements seen [] = ok tt
check_entitlements seen (e ∷ es) = do
  fail_if (leb e.amount 0) zero_leaf
  fail_if (has seen (entitlement_key e)) duplicate_entitlement
  check_entitlements (add seen (entitlement_key e)) es

pub record MerkleLeafEntry : Type 0 where
  pub entitlement : Entitlement
  pub leaf : Text
  pub proof : List Text

pub record MerkleResult : Type 0 where
  pub root : Text
  pub leaf_encoding : List Text
  pub entries : List MerkleLeafEntry
  pub wallet_index : Dict (List MerkleLeafEntry)

unfoldable pub index_entries :
    Dict (List MerkleLeafEntry) → List MerkleLeafEntry → Dict (List MerkleLeafEntry)
index_entries m [] = m
index_entries m (x ∷ xs) =
    index_entries (put m x.entitlement.wallet (get_or [] m x.entitlement.wallet ++ x ∷ [])) xs

abbrev pub is_empty {ℓ} : {A : Type ℓ} → List A → Bool
is_empty [] = true
is_empty (x ∷ xs) = false

module _ (oz : TreePackage) where
  -- The tree over the sorted entitlements, with a leaf and a proof for each.
  unfoldable pub make_result : CycleConfig → List Entitlement → MerkleResult
  unfolding index_entries
  make_result cycle sorted =
      let tree = oz.of_values (map (to_value cycle) sorted) leaf_abi_types in
      let entries =
        map
          (λ e. record {
            entitlement = e;
            leaf = oz.leaf_hash tree (to_value cycle e);
            proof = oz.get_proof tree (to_value cycle e);
          })
          sorted in
      record {
        root = oz.root tree;
        leaf_encoding = leaf_abi_types;
        entries = entries;
        wallet_index = index_entries [] entries;
      }

  unfoldable pub build_merkle : CycleConfig → List Entitlement → Result MerkleResult
  unfolding make_result
  build_merkle cycle entitlements = do
    fail_if (is_empty entitlements) empty_tree
    check_entitlements [] (sort_by entitlement_before entitlements)
    ok (make_result cycle (sort_by entitlement_before entitlements))

  unfoldable pub oz_verify : Text → CycleConfig → Entitlement → List Text → Bool
  oz_verify root cycle e proof = oz.verify root leaf_abi_types (to_value cycle e) proof

unfoldable pub wallet_claims : MerkleResult → Text → Result (List MerkleLeafEntry)
wallet_claims result address =
    normalize_address address >>= λ wallet. ok (get_or [] result.wallet_index wallet)

pub record LeafFields : Type 0 where
  pub chain_id : ℕ
  pub claim_manager : Text
  pub cycle_id : ℕ
  pub wallet : Text
  pub asset : Text
  pub amount : ℕ

module _ (viem : HashPackage) where
  unfoldable pub viem_leaf_hash_raw : LeafFields → Text
  viem_leaf_hash_raw f = viem.keccak256 (
      viem.keccak256
        (viem.encode_leaf f.chain_id f.claim_manager f.cycle_id f.wallet f.asset f.amount))

  unfoldable pub viem_leaf_hash : CycleConfig → Entitlement → Text
  unfolding viem_leaf_hash_raw
  viem_leaf_hash cycle e = viem_leaf_hash_raw (record {
    chain_id = cycle.chain_id;
    claim_manager = cycle.claim_manager_address;
    cycle_id = cycle.cycle_id;
    wallet = e.wallet;
    asset = e.asset;
    amount = e.amount;
  })

  unfoldable pub sorted_pair : Text → Text → Text
  sorted_pair a b =
      if ltb (viem.hex_value a) (viem.hex_value b) then viem.concat_hex a b else viem.concat_hex b a

  unfoldable pub viem_process_proof : Text → List Text → Text
  unfolding sorted_pair
  viem_process_proof computed [] = computed
  viem_process_proof computed (sibling ∷ proof) =
      viem_process_proof (viem.keccak256 (sorted_pair computed sibling)) proof

  unfoldable pub viem_verify_raw : LeafFields → List Text → Text → Bool
  unfolding viem_leaf_hash_raw viem_process_proof
  viem_verify_raw f proof root = text_eq (viem_process_proof (viem_leaf_hash_raw f) proof) root

  unfoldable pub viem_verify : CycleConfig → Entitlement → List Text → Text → Bool
  unfolding viem_leaf_hash viem_process_proof
  viem_verify cycle e proof root = text_eq (viem_process_proof (viem_leaf_hash cycle e) proof) root
