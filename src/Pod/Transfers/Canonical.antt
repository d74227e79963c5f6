-- ===== src/Pod/Transfers/Canonical.antt =====
-- What `canonicalizeTransfers` returns: chain order, and the transfers that it was given.
use bps_protocol.Prelude.{
  ◌≤◌, ◌≡◌, refl, ap, true, false, Option, none, some, List, [], ◌∷◌, map, arith, ok, All, Any,
  All-of, All-map_pred, inl, inr, Bool-cases, Any-map_pred, subst, ◌∙◌, sym, >>=-eq-ok,
}
use bps_protocol.Text.{Text, text_eq, text_eq_iff, text_eq_refl}
use bps_protocol.Order.{sort_by, IsSorted, IsWeakOrder, sort_by-IsSorted, All-sort_by, Any-sort_by}
use bps_protocol.Dict.{Dict, get, put, get-put, All-put, All_get}
use bps_protocol.Pod.Model.{ConfirmedTransfer}
use bps_protocol.Pod.Transfers.Places.{
  IsSameLog, identity_iff, Agrees, same_transfer_iff, IsEarlier, before_iff,
}
use bps_protocol.Pod.Transfers.{
  identity, same_transfer, compare_canonical, before, same_place, dedupe_step, dedupe, check_order,
  canonicalize_transfers,
}

-- `a` comes strictly before `b` on the chain, and not later in time.
abbrev pub Precedes : ConfirmedTransfer → ConfirmedTransfer → Type 0
Precedes a b = IsEarlier a b × (a.timestamp ≤ b.timestamp)

-- Every transfer precedes all that follow it.
abbrev pub IsChronological : List ConfirmedTransfer → Type 0
IsChronological [] = Unit
IsChronological (t ∷ ts) = All (Precedes t) ts × IsChronological ts

same_transfer_refl : (t : ConfirmedTransfer) → same_transfer t t ≡ true
unfolding same_transfer
same_transfer_refl t =
    ground (arith, text_eq_refl t.block_hash, text_eq_refl t.sender, text_eq_refl t.recipient)

before_trans :
    (a b c : ConfirmedTransfer) → before a b ≡ true → before b c ≡ true → before a c ≡ true
unfolding compare_canonical
before_trans a b c h k = ground arith

before_weak : IsWeakOrder before
unfolding compare_canonical
before_weak = record { asym = λ x y e. ground arith; chain = λ x y z e f. ground arith }

before_of_sorted :
    (a b : ConfirmedTransfer) → before b a ≡ false → same_place a b ≡ false → before a b ≡ true
unfolding compare_canonical
before_of_sorted a b h k = ground arith

Precedes-trans : (a b c : ConfirmedTransfer) → Precedes a b → Precedes b c → Precedes a c
Precedes-trans a b c h k = (
  (before_iff a c).0 (before_trans a b c ((before_iff a b).1 h.0) ((before_iff b c).1 k.0)),
  omega arith,
)

check_order_step :
    (a b : ConfirmedTransfer) (ts : List ConfirmedTransfer)
    → check_order (a ∷ b ∷ ts) ≡ ok tt
    → (same_place a b ≡ false) × (a.timestamp ≤ b.timestamp) × (check_order (b ∷ ts) ≡ ok tt)
unfolding check_order
check_order_step a b ts h = ground arith

check_order-IsChronological :
    (ts : List ConfirmedTransfer) → IsSorted before ts → check_order ts ≡ ok tt → IsChronological ts
check_order-IsChronological [] s h = tt
check_order-IsChronological (a ∷ []) s h = (tt, tt)
check_order-IsChronological (a ∷ b ∷ ts) s h =
    let (apart, later, h') = check_order_step a b ts h in
    let rest = check_order-IsChronological (b ∷ ts) s.1 h' in
    let ab : Precedes a b = ((before_iff a b).0 (before_of_sorted a b s.0.0 apart), later) in
    ((ab, All-map_pred (λ c. Precedes-trans a b c ab) ts rest.0), rest)

-- The entry of a map for a transfer is the same transfer.
abbrev pub Represents : Dict ConfirmedTransfer → ConfirmedTransfer → Type 0
Represents m t =
    (u : ConfirmedTransfer) × (get m (identity t) ≡ some u) × (same_transfer u t ≡ true)

get-dedupe_step :
    (m m' : Dict ConfirmedTransfer) (t : ConfirmedTransfer) (k : Text) {u : ConfirmedTransfer}
    → dedupe_step m t ≡ ok m'
    → get m k ≡ some u
    → get m' k ≡ some u
unfolding dedupe_step
get-dedupe_step m m' t k h e =
    ground (arith, get-put m (identity t) k t, text_eq_iff (identity t) k)

dedupe_step-Represents :
    (m m' : Dict ConfirmedTransfer) (t : ConfirmedTransfer)
    → dedupe_step m t ≡ ok m'
    → Represents m' t
unfolding dedupe_step
dedupe_step-Represents m m' t h = split (get m (identity t)) refl
  where
    split : (o : Option ConfirmedTransfer) → get m (identity t) ≡ o → Represents m' t
    split (some u) e = (u, ground arith, ground arith)
    split none e = (
      t,
      ground (arith, get-put m (identity t) (identity t) t, text_eq_refl (identity t)),
      same_transfer_refl t,
    )

get-dedupe :
    (m m' : Dict ConfirmedTransfer) (ts : List ConfirmedTransfer) (k : Text) {u : ConfirmedTransfer}
    → dedupe m ts ≡ ok m'
    → get m k ≡ some u
    → get m' k ≡ some u
unfolding dedupe
get-dedupe m m' [] k h e = cc
get-dedupe m m' (t ∷ ts) k h e =
    let (n, step, rest) = >>=-eq-ok (dedupe_step m t) (λ n. dedupe n ts) h in
    get-dedupe n m' ts k rest (get-dedupe_step m n t k step e)

pub dedupe-Represents :
    (m m' : Dict ConfirmedTransfer) (ts : List ConfirmedTransfer)
    → dedupe m ts ≡ ok m'
    → All (Represents m') ts
unfolding dedupe
dedupe-Represents m m' [] h = tt
dedupe-Represents m m' (t ∷ ts) h =
    let (n, step, rest) = >>=-eq-ok (dedupe_step m t) (λ n. dedupe n ts) h in
    let (u, e, same) = dedupe_step-Represents m n t step in
    ((u, get-dedupe n m' ts (identity t) rest e, same), dedupe-Represents n m' ts rest)

-- Every entry of the map stands under the identity of its transfer, and comes from `ts`.
abbrev IsFrom : List ConfirmedTransfer → Text × ConfirmedTransfer → Type 0
IsFrom ts e = (e.0 ≡ identity e.1) × Any (λ t. t ≡ e.1) ts

dedupe_step-IsFrom :
    (ts : List ConfirmedTransfer) (m m' : Dict ConfirmedTransfer) (t : ConfirmedTransfer)
    → Any (λ u. u ≡ t) ts
    → dedupe_step m t ≡ ok m'
    → All (IsFrom ts) m
    → All (IsFrom ts) m'
unfolding dedupe_step
dedupe_step-IsFrom ts m m' t here e h = split (get m (identity t)) refl
  where
    split : (o : Option ConfirmedTransfer) → get m (identity t) ≡ o → All (IsFrom ts) m'
    split (some u) f = let kept : m ≡ m' = ground arith in subst (All (IsFrom ts)) kept h
    split none f =
        let written : put m (identity t) t ≡ m' = ground arith in
        subst (All (IsFrom ts)) written (All-put (IsFrom ts) m (identity t) t (refl, here) h)

dedupe-IsFrom :
    (ts : List ConfirmedTransfer) (m m' : Dict ConfirmedTransfer) (us : List ConfirmedTransfer)
    → All (λ u. Any (λ t. t ≡ u) ts) us
    → dedupe m us ≡ ok m'
    → All (IsFrom ts) m
    → All (IsFrom ts) m'
unfolding dedupe
dedupe-IsFrom ts m m' [] here e h = let same : m ≡ m' = cc in subst (All (IsFrom ts)) same h
dedupe-IsFrom ts m m' (u ∷ us) here e h =
    let (n, step, rest) = >>=-eq-ok (dedupe_step m u) (λ n. dedupe n us) e in
    dedupe-IsFrom ts n m' us here.1 rest (dedupe_step-IsFrom ts m n u here.0 step h)

values_get :
    (m : Dict ConfirmedTransfer) (k : Text) {u : ConfirmedTransfer}
    → get m k ≡ some u
    → Any (λ t. t ≡ u) (map (λ e. e.1) m)
unfolding get
values_get [] k h = cc
values_get (e ∷ m) k h = elim (Bool-cases (text_eq e.0 k)) [
  | inl f ↦ inl (ground arith)
  | inr f ↦ inr (values_get m k (ground arith))
]

All-values :
    (P : ConfirmedTransfer → Type 0) (m : Dict ConfirmedTransfer)
    → All (λ e. P e.1) m
    → All P (map (λ e. e.1) m)
All-values P [] h = tt
All-values P (e ∷ m) h = (h.0, All-values P m h.1)

-- A transfer of the list `out` is the same log as `t` and agrees with `t`.
abbrev pub Holds : List ConfirmedTransfer → ConfirmedTransfer → Type 0
Holds out t = Any (λ u. IsSameLog u t × Agrees u t) out

Represents→Holds :
    (ts : List ConfirmedTransfer) (m : Dict ConfirmedTransfer)
    → All (IsFrom ts) m
    → (t : ConfirmedTransfer) → Represents m t
    → Holds (sort_by before (map (λ e. e.1) m)) t
Represents→Holds ts m from t (u, e, same) = Any-sort_by before _ _ (
    Any-map_pred
      (λ v (p : v ≡ u). (
        (identity_iff v t).0 (ap identity p ∙ sym (All_get (IsFrom ts) m (identity t) from e).0),
        (same_transfer_iff v t).0 (subst (λ w. same_transfer w t ≡ true) (sym p) same),
      ))
      _ (values_get m (identity t) e))

-- When `canonicalizeTransfers` returns, the returned transfers stand in strict chain order (by
-- block, then by the transaction's index, then by the log's index) with timestamps that do not
-- fall; each of them was given; and for every given transfer there is a returned one of the same
-- chain, transaction and log with the same block, transaction index, time, parties and amount.
pub canonicalize_transfers_sound :
    (ts : List ConfirmedTransfer) {out : List ConfirmedTransfer}
    → canonicalize_transfers ts ≡ ok out
    → IsChronological out × All (λ u. Any (λ t. t ≡ u) ts) out × All (Holds out) ts
unfolding canonicalize_transfers
canonicalize_transfers_sound ts {out} h =
    let (m, scanned, h') = >>=-eq-ok (dedupe [] ts) _ h in
    let sorted = sort_by before (map (λ e. e.1) m) in
    let (u, checked, done) = >>=-eq-ok (check_order sorted) _ h' in
    let same : sorted ≡ out = cc in
    let from = dedupe-IsFrom ts [] m ts (All-of _ ts (λ a k. k)) scanned tt in
    let goal = λ (l : List ConfirmedTransfer).
      IsChronological l × All (λ u. Any (λ t. t ≡ u) ts) l × All (Holds l) ts in
    subst goal same (
      check_order-IsChronological sorted (sort_by-IsSorted before before_weak _) checked,
      All-sort_by before _ _ (All-values _ m (All-map_pred (λ e p. p.1) m from)),
      All-map_pred (Represents→Holds ts m from) ts (dedupe-Represents [] m ts scanned),
    )
