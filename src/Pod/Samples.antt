-- ===== src/Pod/Samples.antt =====
-- Concrete data for the tests: packages that hash by joining texts, and a small fixture.
use bps_protocol.Prelude.{
  ℕ, ◌+◌, true, false, Option, none, List, [], ◌∷◌, ◌++◌, if◌then◌else◌, ltb,
}
use bps_protocol.Text.{Text, codes, text_eq}
use bps_protocol.Pod.Model.{
  CycleConfig, ConfirmedTransfer, EpochStartBalance, LockRecord, lock_7d, AcquiredAsset,
  Entitlement, EligibilityRecord, ExcludedAddress, uniswap_pool, CycleFixture,
}
use bps_protocol.Dict.{Dict}
use bps_protocol.Pod.Weights.{WalletWeight}
use bps_protocol.Pod.Weights.Tiers.{zero_tier_record}
use bps_protocol.Pod.Merkle.{TreePackage, HashPackage}
use bps_protocol.Pod.Schema.{
  RawCycleConfig, RawConfirmedTransfer, RawEligibilityRecord, RawCycleFixture,
}

-- The number of a text: the sum of its codes.
abbrev pub code_sum : Text → ℕ
code_sum [] = 0
code_sum (c ∷ cs) = c + code_sum cs

abbrev pub joined : Text → Text → Text
joined a b = if ltb (code_sum a) (code_sum b) then a ++ b else b ++ a

-- The wallet and the asset of a leaf's values.
abbrev pub leaf_text : List Text → Text
leaf_text (chain ∷ manager ∷ cycle ∷ wallet ∷ asset ∷ rest) = wallet ++ asset
leaf_text _ = []

abbrev pub fold_proof : Text → List Text → Text
fold_proof computed [] = computed
fold_proof computed (s ∷ p) = fold_proof (joined computed s) p

abbrev pub pair_root : List (List Text) → Text
pair_root [] = []
pair_root (v ∷ []) = leaf_text v
pair_root (v ∷ w ∷ vs) = joined (leaf_text v) (leaf_text w)

abbrev pub pair_proof : List (List Text) → List Text → List Text
pair_proof (v ∷ w ∷ vs) x =
    if text_eq (leaf_text v) (leaf_text x) then leaf_text w ∷ [] else leaf_text v ∷ []
pair_proof _ x = []

-- Trees of at most two leaves.
abbrev pub sample_oz : TreePackage
sample_oz = record {
  Tree = List (List Text);
  of_values = λ vs types. vs;
  root = pair_root;
  leaf_hash = λ t v. leaf_text v;
  get_proof = pair_proof;
  verify = λ root types v proof. text_eq (fold_proof (leaf_text v) proof) root;
}

abbrev pub sample_viem : HashPackage
sample_viem = record {
  keccak256 = λ x. x;
  encode_leaf = λ chain manager cycle wallet asset amount. wallet ++ asset;
  concat_hex = λ a b. a ++ b;
  hex_value = code_sum;
}

-- Hashes that their numbers tell apart.
abbrev pub summed_viem : HashPackage
summed_viem = record {
  keccak256 = λ x. code_sum x ∷ [];
  encode_leaf = λ chain manager cycle wallet asset amount. amount ∷ [];
  concat_hex = λ a b. a ++ b;
  hex_value = code_sum;
}

abbrev pub alice : Text
alice = codes "0xa11ce00000000000000000000000000000000001"

abbrev pub bob : Text
bob = codes "0xb0b0000000000000000000000000000000000002"

abbrev pub bob_upper : Text
bob_upper = codes "0xB0B0000000000000000000000000000000000002"

abbrev pub pool_wallet : Text
pool_wallet = codes "0xcafe000000000000000000000000000000000003"

abbrev pub token : Text
token = codes "0xdead000000000000000000000000000000000004"

abbrev pub hash_a : Text
hash_a = codes "0xaaaaaaaaaaaaaaaaaaaaaaaaaaaaaaaaaaaaaaaaaaaaaaaaaaaaaaaaaaaaaaaa"

abbrev pub raw_cycle : RawCycleConfig
raw_cycle = record {
  schema_version = codes "1";
  cycle_id = codes "7";
  chain_id = codes "46";
  bps_token_address = token;
  claim_manager_address = pool_wallet;
  economics_version = codes "BPS-ECON-2.0";
  reward_policy_version = codes "1";
  epoch_id = codes "1";
  epoch_start = codes "900";
  epoch_end = codes "1800";
  start_block = codes "10";
  end_block = codes "20";
  snapshot_block = codes "20";
  finalized_block = codes "25";
  confirmation_depth = codes "5";
  claim_start = codes "2000";
  claim_deadline = codes "3000";
  terms_version = codes "1";
  eligibility_policy_version = codes "P1";
  restricted_jurisdiction_policy_version = codes "1";
}

abbrev pub raw_transfer : RawConfirmedTransfer
raw_transfer = record {
  chain_id = codes "46";
  block_number = codes "12";
  block_hash = hash_a;
  transaction_hash = hash_a;
  transaction_index = codes "0";
  log_index = codes "3";
  timestamp = codes "1200";
  sender = alice;
  recipient = bob_upper;
  raw_amount = codes "300";
}

abbrev pub raw_eligible : Text → RawEligibilityRecord
raw_eligible w = record {
  wallet = w;
  eligible = true;
  policy_version = codes "P1";
  valid_from = codes "0";
  expiry = none;
  revoked = false;
}

abbrev pub raw_fixture : RawCycleFixture
raw_fixture = record {
  cycle = raw_cycle;
  excluded_addresses =
      record {
        address = pool_wallet;
        category = codes "UNISWAP_POOL";
        reason = codes "pool";
        policy_version = codes "P1";
      }
      ∷ [];
  eligibility = raw_eligible alice ∷ raw_eligible bob ∷ raw_eligible pool_wallet ∷ [];
  epoch_start_balances =
      record { wallet = alice; raw_balance = codes "900" }
      ∷ record { wallet = pool_wallet; raw_balance = codes "5000" }
      ∷ [];
  transfers = raw_transfer ∷ raw_transfer ∷ [];
  locks =
      record {
        wallet = alice;
        raw_principal = codes "100";
        tier = codes "LOCK_7D";
        start_timestamp = codes "900";
        unlock_timestamp = codes "605700";
        withdrawal_timestamp = none;
      }
      ∷ [];
  assets =
      record {
        ticker = codes "AAA";
        name = codes "Asset";
        token_address = token;
        decimals = 18;
        acquired_raw_amount = codes "1000";
      }
      ∷ [];
}

-- Data after validation.
abbrev pub transfer : ConfirmedTransfer
transfer = record {
  chain_id = 46;
  block_number = 12;
  block_hash = hash_a;
  transaction_hash = hash_a;
  transaction_index = 0;
  log_index = 3;
  timestamp = 1200;
  sender = alice;
  recipient = bob;
  raw_amount = 300;
}

abbrev pub later_transfer : ConfirmedTransfer
later_transfer = record {
  chain_id = 46;
  block_number = 12;
  block_hash = hash_a;
  transaction_hash = hash_a;
  transaction_index = 0;
  log_index = 4;
  timestamp = 1200;
  sender = bob;
  recipient = alice;
  raw_amount = 100;
}

abbrev pub altered_transfer : ConfirmedTransfer
altered_transfer = record {
  chain_id = 46;
  block_number = 12;
  block_hash = hash_a;
  transaction_hash = hash_a;
  transaction_index = 0;
  log_index = 3;
  timestamp = 1200;
  sender = alice;
  recipient = bob;
  raw_amount = 301;
}

abbrev pub cycle : CycleConfig
cycle = record {
  schema_version = codes "1";
  cycle_id = 7;
  chain_id = 46;
  bps_token_address = token;
  claim_manager_address = pool_wallet;
  economics_version = codes "BPS-ECON-2.0";
  reward_policy_version = codes "1";
  epoch_id = 1;
  epoch_start = 900;
  epoch_end = 1800;
  start_block = 10;
  end_block = 20;
  snapshot_block = 20;
  finalized_block = 25;
  confirmation_depth = 5;
  claim_start = 2000;
  claim_deadline = 3000;
  terms_version = codes "1";
  eligibility_policy_version = codes "P1";
  restricted_jurisdiction_policy_version = codes "1";
}

abbrev pub start_balances : List EpochStartBalance
start_balances = record { wallet = alice; raw_balance = 900 } ∷ []

abbrev pub alice_lock : LockRecord
alice_lock = record {
  wallet = alice;
  raw_principal = 100;
  tier = lock_7d;
  start_timestamp = 900;
  unlock_timestamp = 605700;
  withdrawal_timestamp = none;
}

abbrev pub weighed : Text → ℕ → WalletWeight
weighed w weight = record {
  wallet = w;
  snapshot_balance = weight;
  base_twab = weight;
  unlocked_twab = weight;
  locked_twab_by_tier = zero_tier_record;
  effective_weight = weight;
}

abbrev pub two_weights : Dict WalletWeight
two_weights = (alice, weighed alice 700) ∷ (bob, weighed bob 200) ∷ []

abbrev pub asset : AcquiredAsset
asset = record {
  ticker = codes "AAA";
  name = codes "Asset";
  token_address = token;
  decimals = 18;
  acquired_raw_amount = 1000;
}

abbrev pub entitled : Text → ℕ → Entitlement
entitled w amount = record { cycle_id = 7; wallet = w; asset = token; amount = amount }

abbrev pub record_of : Text → Option ℕ → EligibilityRecord
record_of w expiry = record {
  wallet = w;
  eligible = true;
  policy_version = codes "P1";
  valid_from = 0;
  expiry = expiry;
  revoked = false;
}

abbrev pub exclusion : ExcludedAddress
exclusion = record {
  address = pool_wallet;
  category = uniswap_pool;
  reason = codes "pool";
  policy_version = codes "P1";
}

abbrev pub sample_fixture : CycleFixture
sample_fixture = record {
  cycle = cycle;
  excluded_addresses = exclusion ∷ [];
  eligibility = record_of alice none ∷ record_of bob none ∷ [];
  epoch_start_balances = start_balances;
  transfers = transfer ∷ [];
  locks = alice_lock ∷ [];
  assets = asset ∷ [];
}
