-- ===== src/Pod/Merkle/Entries.antt =====
-- What `buildMerkle` returns: its entries, and the index by wallet.
use bps_protocol.Prelude.{
  ◌<◌, ◌≡◌, refl, Bool, false, List, [], ◌∷◌, ◌++◌, map, arith, ok, fail_if, All, keep, >>=-eq-ok,
  subst, sym, All-map_pred, ◌∙◌,
}
use mathlib.Core.List.{Perm, append_assoc, append-nil}
use bps_protocol.Text.{Text, text_eq, text_eq_iff}
use bps_protocol.Order.{sort_by, sort_by-perm, sort_by-IsSorted}
use bps_protocol.Pod.Merkle.Claims.{
  IsSameClaim, IsSameClaim→key, HasDistinctClaims, IsInOrder, IsSorted→IsInOrder, entitlement_weak,
}
use bps_protocol.Dict.{Dict, get, put, get_or, get-put, has, add, has-add}
use bps_protocol.Pod.Fault.{empty_tree}
use bps_protocol.Pod.Model.{CycleConfig, Entitlement}
use bps_protocol.Pod.Merkle.{
  TreePackage, entitlement_before, entitlement_key, check_entitlements, MerkleLeafEntry,
  MerkleResult, index_entries, make_result, build_merkle, is_empty, to_value, leaf_abi_types,
}

check_step :
    (seen : List Text) (e : Entitlement) (es : List Entitlement)
    → check_entitlements seen (e ∷ es) ≡ ok tt
    → (0 < e.amount)
      × (has seen (entitlement_key e) ≡ false)
      × (check_entitlements (add seen (entitlement_key e)) es ≡ ok tt)
unfolding check_entitlements
check_step seen e es h = ground arith

check_unseen :
    (seen : List Text) (es : List Entitlement)
    → check_entitlements seen es ≡ ok tt
    → All (λ e. (0 < e.amount) × (has seen (entitlement_key e) ≡ false)) es
check_unseen seen [] h = tt
check_unseen seen (e ∷ es) h =
    let (positive, fresh, rest) = check_step seen e es h in
    ((positive, fresh), weaken es (check_unseen (add seen (entitlement_key e)) es rest))
  where
    weaken :
        (xs : List Entitlement)
        → All
            (λ x. (0 < x.amount) × (has (add seen (entitlement_key e)) (entitlement_key x) ≡ false))
            xs
        → All (λ x. (0 < x.amount) × (has seen (entitlement_key x) ≡ false)) xs
    weaken [] k = tt
    weaken (x ∷ xs) k = (
      (k.0.0, ground (arith, has-add seen (entitlement_key e) (entitlement_key x))),
      weaken xs k.1,
    )

check-HasDistinctClaims :
    (seen : List Text) (es : List Entitlement)
    → check_entitlements seen es ≡ ok tt
    → HasDistinctClaims es
check-HasDistinctClaims seen [] h = tt
check-HasDistinctClaims seen (e ∷ es) h =
    let (positive, fresh, rest) = check_step seen e es h in
    (
      apart es (check_unseen (add seen (entitlement_key e)) es rest),
      check-HasDistinctClaims (add seen (entitlement_key e)) es rest,
    )
  where
    apart :
        (xs : List Entitlement)
        → All
            (λ x. (0 < x.amount) × (has (add seen (entitlement_key e)) (entitlement_key x) ≡ false))
            xs
        → All (λ x. ¬ IsSameClaim x e) xs
    apart [] k = tt
    apart (x ∷ xs) k = (
      (λ same.
          let one = IsSameClaim→key x e same in
          ground (
            arith,
            has-add seen (entitlement_key e) (entitlement_key x),
            text_eq_iff (entitlement_key e) (entitlement_key x),
          )),
      apart xs k.1,
    )

abbrev pub of_wallet : Text → MerkleLeafEntry → Bool
of_wallet w x = text_eq x.entitlement.wallet w

get-index_entries :
    (m : Dict (List MerkleLeafEntry)) (xs : List MerkleLeafEntry) (w : Text)
    → get_or [] (index_entries m xs) w ≡ get_or [] m w ++ keep (of_wallet w) xs
unfolding index_entries keep
get-index_entries m [] w = ground (arith, append-nil (get_or [] m w))
get-index_entries m (x ∷ xs) w =
    let k = x.entitlement.wallet in
    let v = get_or [] m k ++ x ∷ [] in
    get-index_entries (put m k v) xs w
    ∙ ground (
      arith,
      get-put m k w v,
      text_eq_iff k w,
      append_assoc (get_or [] m w) (x ∷ []) (keep (of_wallet w) xs),
    )

map-entitlement :
    (oz : TreePackage) (cycle : CycleConfig) (es : List Entitlement)
    → map (λ x. x.entitlement) (make_result oz cycle es).entries ≡ es
unfolding make_result
map-entitlement oz cycle es = over (oz.of_values (map (to_value cycle) es) leaf_abi_types) es
  where
    over :
        (tree : oz.Tree) (xs : List Entitlement)
        → map
            (λ (x : MerkleLeafEntry). x.entitlement)
            (map
              (λ e. record {
                entitlement = e;
                leaf = oz.leaf_hash tree (to_value cycle e);
                proof = oz.get_proof tree (to_value cycle e);
              })
              xs)
          ≡ xs
    over tree [] = refl
    over tree (x ∷ xs) = cc (over tree xs)

-- The entries of `r` are the entitlements `es`, in order, valid and indexed.
pub record IsBuilt (es : List Entitlement) (r : MerkleResult) : Type 0 where
  pub ordered : IsInOrder (map (λ x. x.entitlement) r.entries)
  pub same : Perm (map (λ x. x.entitlement) r.entries) es
  pub positive : All (λ e. 0 < e.amount) (map (λ x. x.entitlement) r.entries)
  pub distinct : HasDistinctClaims (map (λ x. x.entitlement) r.entries)
  pub indexed : (w : Text) → get_or [] r.wallet_index w ≡ keep (of_wallet w) r.entries

make_result-indexed :
    (oz : TreePackage) (cycle : CycleConfig) (es : List Entitlement) (w : Text)
    → get_or [] (make_result oz cycle es).wallet_index w
      ≡ keep (of_wallet w) (make_result oz cycle es).entries
unfolding make_result get
make_result-indexed oz cycle es w = get-index_entries [] _ w

-- When `buildMerkle` returns, its entries are the given entitlements, each as often as it was
-- given, ascending by wallet and, for one wallet, by asset, in the order of strings; all amounts are
-- positive and no two entries have the same cycle, wallet and asset; and the index has for each
-- wallet its entries, all of them, in that order.
pub build_merkle-IsBuilt :
    (oz : TreePackage) (cycle : CycleConfig) (es : List Entitlement) {r : MerkleResult}
    → build_merkle oz cycle es ≡ ok r
    → IsBuilt es r
unfolding build_merkle
build_merkle-IsBuilt oz cycle es {r} h =
    let sorted = sort_by entitlement_before es in
    let (u, nonempty, h') = >>=-eq-ok (fail_if (is_empty es) empty_tree) _ h in
    let (v, checked, done) = >>=-eq-ok (check_entitlements [] sorted) _ h' in
    let built : make_result oz cycle sorted ≡ r = cc in
    subst (IsBuilt es) built (record {
      ordered =
          subst IsInOrder (sym (map-entitlement oz cycle sorted))
            (IsSorted→IsInOrder sorted (sort_by-IsSorted entitlement_before entitlement_weak es));
      same =
          subst (λ l. Perm l es) (sym (map-entitlement oz cycle sorted))
            (sort_by-perm entitlement_before es);
      positive =
          subst (All (λ e. 0 < e.amount)) (sym (map-entitlement oz cycle sorted))
            (All-map_pred (λ e p. p.0) sorted (check_unseen [] sorted checked));
      distinct =
          subst HasDistinctClaims (sym (map-entitlement oz cycle sorted))
            (check-HasDistinctClaims [] sorted checked);
      indexed = make_result-indexed oz cycle sorted;
    })
