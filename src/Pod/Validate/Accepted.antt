-- ===== src/Pod/Validate/Accepted.antt =====
-- What a loaded fixture satisfies: the cross-field invariants that the rest of the engine uses.
use bps_protocol.Prelude.{
  ℕ, ◌+◌, ◌*◌, ◌≤◌, ◌≡◌, ◌≢◌, sym, ap, false, Option, none, some, List, [], ◌∷◌, arith, ok, ◌>>=◌,
  traverse-All, >>=-eq-ok, All, All-map_pred, subst, Bool-cases, inl, inr, ok-injective,
}
use bps_protocol.Text.{Text, text_eq_iff}
use bps_protocol.Dict.{has, add, has-add}
use bps_protocol.Pod.Fault.{Code, Result, duplicate_exclusion, duplicate_holder, duplicate_asset}
use bps_protocol.Pod.Address.{normalize_address}
use bps_protocol.Pod.Model.{
  tier_specs, CycleConfig, ConfirmedTransfer, EpochStartBalance, LockRecord, EligibilityRecord,
  ExcludedAddress, ExclusionCategory, AcquiredAsset, CycleFixture,
}
use bps_protocol.Pod.Schema.{
  RawConfirmedTransfer, RawLockRecord, RawCycleConfig, RawCycleFixture, RawExcludedAddress,
  RawEligibilityRecord, RawEpochStartBalance, RawAcquiredAsset, category_of_text,
  parse_cycle_fixture,
}
use bps_protocol.Pod.Validate.{
  check_cycle, make_cycle, normalize_cycle, map_distinct, normalize_exclusions,
  normalize_eligibility, normalize_balances, normalize_assets, normalize_transfer,
  normalize_transfers, normalize_lock, precedes_start, normalize_locks, load_cycle_fixture,
  category_or_fail, make_exclusion, make_eligibility, make_balance, make_asset,
}

-- An epoch of 900 seconds, blocks in order up to the finalized one, and a claim period.
pub record IsValidCycle (c : CycleConfig) : Type 0 where
  pub start_eq : c.epoch_start ≡ c.epoch_id * 900
  pub end_eq : c.epoch_end ≡ c.epoch_start + 900
  pub start_le_snapshot : c.start_block ≤ c.snapshot_block
  pub snapshot_le_end : c.snapshot_block ≤ c.end_block
  pub end_le_finalized : c.end_block ≤ c.finalized_block
  pub claim_le : c.claim_start ≤ c.claim_deadline

pub record IsInEpoch (c : CycleConfig) (t : ConfirmedTransfer) : Type 0 where
  pub chain_eq : t.chain_id ≡ c.chain_id
  pub start_le : c.epoch_start ≤ t.timestamp
  pub le_end : t.timestamp ≤ c.epoch_end

-- There is no such time, or it is not before the given one.
abbrev pub IsNotBefore : ℕ → Option ℕ → Type 0
IsNotBefore start none = Unit
IsNotBefore start (some w) = start ≤ w

pub record IsValidLock (l : LockRecord) : Type 0 where
  pub unlock_eq : l.unlock_timestamp ≡ l.start_timestamp + (tier_specs l.tier).duration_seconds
  pub withdrawn_after : IsNotBefore l.start_timestamp l.withdrawal_timestamp

-- No address stands twice.
abbrev pub HasDistinct : {A : Type 0} → (A → Text) → List A → Type 0
HasDistinct address [] = Unit
HasDistinct address (x ∷ xs) = All (λ y. address y ≢ address x) xs × HasDistinct address xs

check_cycle-IsValidCycle : (c : CycleConfig) → check_cycle c ≡ ok tt → IsValidCycle c
unfolding check_cycle
check_cycle-IsValidCycle c h = record {
  start_eq = ground arith;
  end_eq = ground arith;
  start_le_snapshot = ground arith;
  snapshot_le_end = ground arith;
  end_le_finalized = ground arith;
  claim_le = ground arith;
}

normalize_cycle-IsValidCycle :
    (raw : RawCycleConfig) {c : CycleConfig} → normalize_cycle raw ≡ ok c → IsValidCycle c
unfolding normalize_cycle
normalize_cycle-IsValidCycle raw {c} h =
    let (token, e, h') = >>=-eq-ok (normalize_address raw.bps_token_address) _ h in
    let (manager, f, h'') = >>=-eq-ok (normalize_address raw.claim_manager_address) _ h' in
    let (u, checked, done) = >>=-eq-ok (check_cycle (make_cycle raw token manager)) _ h'' in
    let made : make_cycle raw token manager ≡ c = cc in
    subst IsValidCycle made (check_cycle-IsValidCycle (make_cycle raw token manager) checked)

normalize_transfer-IsInEpoch :
    (c : CycleConfig) (raw : RawConfirmedTransfer) (t : ConfirmedTransfer)
    → normalize_transfer c raw ≡ ok t
    → IsInEpoch c t
unfolding normalize_transfer
normalize_transfer-IsInEpoch c raw t h = record {
  chain_eq = ground arith;
  start_le = ground arith;
  le_end = ground arith;
}

precedes_start-IsNotBefore :
    (w : Option ℕ) (start : ℕ) → precedes_start w start ≡ false → IsNotBefore start w
precedes_start-IsNotBefore none start h = tt
precedes_start-IsNotBefore (some w) start h = ground arith

normalize_lock-IsValidLock :
    (raw : RawLockRecord) (l : LockRecord) → normalize_lock raw ≡ ok l → IsValidLock l
unfolding normalize_lock
normalize_lock-IsValidLock raw l h = record {
  unlock_eq = ground arith;
  withdrawn_after =
      precedes_start-IsNotBefore l.withdrawal_timestamp l.start_timestamp (ground arith);
}

module _ {A B : Type 0} (code : Code) (raw_of : A → Text) (make : A → Text → Result B)
    (address_of : B → Text)
    (made : (x : A) (a : Text) (y : B) → make x a ≡ ok y → address_of y ≡ a) where
  map_distinct_unseen :
      (seen : List Text) (xs : List A) {ys : List B}
      → map_distinct code raw_of make seen xs ≡ ok ys
      → All (λ y. has seen (address_of y) ≡ false) ys × HasDistinct address_of ys
  unfolding map_distinct
  map_distinct_unseen seen [] {ys} h =
      let nil : [] ≡ ys = cc in
      subst (λ l. All (λ y. has seen (address_of y) ≡ false) l × HasDistinct address_of l) nil
        (tt, tt)
  map_distinct_unseen seen (x ∷ xs) {ys} h =
      let (a, ea, h') = >>=-eq-ok (normalize_address (raw_of x)) _ h in
      elim (Bool-cases (has seen a)) [
        | inl old ↦ cc (rw old at h')
        | inr fresh ↦
            let (y, ey, h'') = >>=-eq-ok (make x a) _ (rw fresh at h') in
            let (zs, ez, done) = >>=-eq-ok (map_distinct code raw_of make (add seen a) xs) _ h'' in
            let both : y ∷ zs ≡ ys = cc in
            let same = made x a y ey in
            let (later, distinct) = map_distinct_unseen (add seen a) xs ez in
            subst (λ l. All (λ y. has seen (address_of y) ≡ false) l × HasDistinct address_of l)
              both
              (
                (
                  rw same fresh,
                  All-map_pred
                      (λ z (p : has (add seen a) (address_of z) ≡ false).
                        unseen_before seen a (address_of z) p)
                      zs later,
                ),
                (
                  All-map_pred
                      (λ z (p : has (add seen a) (address_of z) ≡ false). apart seen a y z same p)
                      zs later,
                  distinct,
                ),
              )
      ]
    where
      unseen_before : (s : List Text) (a j : Text) → has (add s a) j ≡ false → has s j ≡ false
      unseen_before s a j p = ground (arith, has-add s a j)

      apart :
          (s : List Text) (a : Text) (y z : B)
          → address_of y ≡ a
          → has (add s a) (address_of z) ≡ false
          → address_of z ≢ address_of y
      apart s a y z e p =
          λ same. ground (arith, has-add s a (address_of z), text_eq_iff a (address_of z))

pub record IsAccepted (f : CycleFixture) : Type 0 where
  pub cycle : IsValidCycle f.cycle
  pub excluded : HasDistinct (λ e. e.address) f.excluded_addresses
  pub eligibility : HasDistinct (λ r. r.wallet) f.eligibility
  pub balances : HasDistinct (λ b. b.wallet) f.epoch_start_balances
  pub transfers : All (IsInEpoch f.cycle) f.transfers
  pub locks : All IsValidLock f.locks
  pub assets : HasDistinct (λ a. a.token_address) f.assets

made_exclusion :
    (x : RawExcludedAddress) (a : Text) (y : ExcludedAddress)
    → make_exclusion x a ≡ ok y
    → y.address ≡ a
made_exclusion x a y e = split (category_of_text x.category) e
  where
    split :
        (o : Option ExclusionCategory)
        → (category_or_fail o >>= λ category. ok (record {
          address = a;
          category = category;
          reason = x.reason;
          policy_version = x.policy_version;
        }))
          ≡ ok y
        → y.address ≡ a
    split none f = cc
    split (some c) f = ground arith

distinct_exclusions :
    (raw : List RawExcludedAddress) {out : List ExcludedAddress}
    → normalize_exclusions raw ≡ ok out
    → HasDistinct (λ y. y.address) out
unfolding normalize_exclusions
distinct_exclusions raw h =
    (map_distinct_unseen duplicate_exclusion (λ x. x.address) make_exclusion (λ y. y.address)
      made_exclusion [] raw h).1

distinct_eligibility :
    (raw : List RawEligibilityRecord) {out : List EligibilityRecord}
    → normalize_eligibility raw ≡ ok out
    → HasDistinct (λ y. y.wallet) out
unfolding normalize_eligibility
distinct_eligibility raw h =
    (map_distinct_unseen duplicate_holder (λ x. x.wallet) make_eligibility (λ y. y.wallet)
      (λ x a y e. ap (λ (z : EligibilityRecord). z.wallet) (sym (ok-injective e))) [] raw h).1

distinct_balances :
    (raw : List RawEpochStartBalance) {out : List EpochStartBalance}
    → normalize_balances raw ≡ ok out
    → HasDistinct (λ y. y.wallet) out
unfolding normalize_balances
distinct_balances raw h =
    (map_distinct_unseen duplicate_holder (λ x. x.wallet) make_balance (λ y. y.wallet)
      (λ x a y e. ap (λ (z : EpochStartBalance). z.wallet) (sym (ok-injective e))) [] raw h).1

distinct_assets :
    (raw : List RawAcquiredAsset) {out : List AcquiredAsset}
    → normalize_assets raw ≡ ok out
    → HasDistinct (λ y. y.token_address) out
unfolding normalize_assets
distinct_assets raw h =
    (map_distinct_unseen duplicate_asset (λ x. x.token_address) make_asset (λ y. y.token_address)
      (λ x a y e. ap (λ (z : AcquiredAsset). z.token_address) (sym (ok-injective e))) [] raw h).1

-- A fixture that `loadCycleFixture` returns has an epoch of exactly 900 seconds at its number,
-- blocks in order with the snapshot and the end not after the finalized block, a claim period
-- that does not end before it starts, transfers of its own chain with times from the start to
-- the end of the epoch, locks of exactly their tier's duration that are not withdrawn before
-- they start, and no address twice among exclusions, eligibility records, balances and assets.
pub load_cycle_fixture-IsAccepted :
    (input : RawCycleFixture) {f : CycleFixture} → load_cycle_fixture input ≡ ok f → IsAccepted f
unfolding load_cycle_fixture normalize_transfers normalize_locks
load_cycle_fixture-IsAccepted input {f} h =
    let (raw, parsed, h1) = >>=-eq-ok (parse_cycle_fixture input) _ h in
    let (cycle, e_cycle, h2) = >>=-eq-ok (normalize_cycle raw.cycle) _ h1 in
    let (excluded, e_excluded, h3) = >>=-eq-ok (normalize_exclusions raw.excluded_addresses) _ h2 in
    let (eligibility, e_eligibility, h4) = >>=-eq-ok (normalize_eligibility raw.eligibility) _ h3 in
    let (balances, e_balances, h5) = >>=-eq-ok (normalize_balances raw.epoch_start_balances) _ h4 in
    let (transfers, e_transfers, h6) = >>=-eq-ok (normalize_transfers raw.transfers cycle) _ h5 in
    let (locks, e_locks, h7) = >>=-eq-ok (normalize_locks raw.locks) _ h6 in
    let (assets, e_assets, done) = >>=-eq-ok (normalize_assets raw.assets) _ h7 in
    let loaded : CycleFixture = record {
      cycle = cycle;
      excluded_addresses = excluded;
      eligibility = eligibility;
      epoch_start_balances = balances;
      transfers = transfers;
      locks = locks;
      assets = assets;
    } in
    let made : loaded ≡ f = ok-injective done in
    subst IsAccepted made (record {
      cycle = normalize_cycle-IsValidCycle raw.cycle e_cycle;
      excluded = distinct_exclusions raw.excluded_addresses e_excluded;
      eligibility = distinct_eligibility raw.eligibility e_eligibility;
      balances = distinct_balances raw.epoch_start_balances e_balances;
      transfers =
          traverse-All (IsInEpoch cycle) (normalize_transfer cycle) raw.transfers
            (normalize_transfer-IsInEpoch cycle) e_transfers;
      locks = traverse-All IsValidLock normalize_lock raw.locks normalize_lock-IsValidLock e_locks;
      assets = distinct_assets raw.assets e_assets;
    })
