-- ===== src/Pod/Merkle/Claims.antt =====
-- The order and the keys of entitlements: what the comparator and the key of `buildMerkle` decide.
use bps_protocol.Prelude.{
  ◌≡◌, ◌⊎◌, sym, inl, inr, true, false, List, [], ◌∷◌, ◌++◌, arith, All, All-map_pred, Bool-cases,
}
use bps_protocol.Text.{Text, text_eq, text_eq_iff, text_lt, text_order}
use bps_protocol.Text.Separator.{IsFree, split_unit}
use bps_protocol.Order.{IsSorted, IsWeakOrder}
use bps_protocol.Pod.Numeric.{to_decimal_string}
use bps_protocol.Pod.Numeric.Decimal.{to_decimal_string-injective, decimal-IsFree}
use bps_protocol.Pod.Model.{Entitlement}
use bps_protocol.Pod.Merkle.{entitlement_before, entitlement_key}

-- One cycle, wallet and asset.
abbrev pub IsSameClaim : Entitlement → Entitlement → Type 0
IsSameClaim a b = (a.cycle_id ≡ b.cycle_id) × (a.wallet ≡ b.wallet) × (a.asset ≡ b.asset)

pub IsSameClaim→key : (a b : Entitlement) → IsSameClaim a b → entitlement_key a ≡ entitlement_key b
unfolding entitlement_key
IsSameClaim→key a b h = cc (h.0, h.1, h.2)

-- For wallets without the separator the key tells claims apart.
pub key→IsSameClaim :
    (a b : Entitlement)
    → IsFree b'|' a.wallet
    → IsFree b'|' b.wallet
    → entitlement_key a ≡ entitlement_key b
    → IsSameClaim a b
unfolding entitlement_key
key→IsSameClaim a b ha hb e =
    let (cycle, rest) =
      split_unit b'|' (to_decimal_string a.cycle_id) (to_decimal_string b.cycle_id)
        (a.wallet ++ (b'|' ∷ a.asset)) (b.wallet ++ (b'|' ∷ b.asset)) (decimal-IsFree a.cycle_id)
        (decimal-IsFree b.cycle_id) e in
    let (wallet, asset) = split_unit b'|' a.wallet b.wallet a.asset b.asset ha hb rest in
    (to_decimal_string-injective a.cycle_id b.cycle_id cycle, wallet, asset)

-- No two entitlements have one cycle, wallet and asset.
abbrev pub HasDistinctClaims : List Entitlement → Type 0
HasDistinctClaims [] = Unit
HasDistinctClaims (e ∷ es) = All (λ x. ¬ IsSameClaim x e) es × HasDistinctClaims es

-- A lower wallet, or the same and a lower asset, or the same of both.
abbrev pub IsNotAfter : Entitlement → Entitlement → Type 0
IsNotAfter a b =
    (text_lt a.wallet b.wallet ≡ true)
    ⊎ ((a.wallet ≡ b.wallet) × ((text_lt a.asset b.asset ≡ true) ⊎ (a.asset ≡ b.asset)))

abbrev pub IsInOrder : List Entitlement → Type 0
IsInOrder [] = Unit
IsInOrder (e ∷ es) = All (IsNotAfter e) es × IsInOrder es

-- Of two texts one is lower, or they are the same.
text_cases : (s t : Text) → text_lt t s ≡ false → (text_lt s t ≡ true) ⊎ (s ≡ t)
text_cases s t h = elim (Bool-cases (text_lt s t)) [
  | inl e ↦ inl e
  | inr e ↦ inr (text_order.connex s t e h)
]

text_lt_asym : (s t : Text) → text_lt s t ≡ true → text_lt t s ≡ false
text_lt_asym s t h = elim (Bool-cases (text_lt t s)) [
  | inl e ↦ cc (text_order.trans s t s h e, text_order.irrefl s)
  | inr e ↦ e
]

not_before→IsNotAfter : (a b : Entitlement) → entitlement_before b a ≡ false → IsNotAfter a b
unfolding entitlement_before
not_before→IsNotAfter a b h = elim (Bool-cases (text_eq b.wallet a.wallet)) [
  | inl e ↦
      let wallet = sym ((text_eq_iff b.wallet a.wallet).0 e) in
      elim (Bool-cases (text_eq b.asset a.asset)) [
        | inl f ↦ inr (wallet, inr (sym ((text_eq_iff b.asset a.asset).0 f)))
        | inr f ↦ inr (wallet, text_cases a.asset b.asset (ground arith))
      ]
  | inr e ↦ elim (text_cases a.wallet b.wallet (ground arith)) [
    | inl l ↦ inl l
    | inr same ↦ absurd (let f = (text_eq_iff b.wallet a.wallet).1 (sym same) in cc)
  ]
]

IsNotAfter→not_before : (a b : Entitlement) → IsNotAfter a b → entitlement_before b a ≡ false
unfolding entitlement_before
IsNotAfter→not_before a b (inl l) = ground (
  arith,
  text_lt_asym a.wallet b.wallet l,
  text_eq_iff b.wallet a.wallet,
  text_order.irrefl a.wallet,
)
IsNotAfter→not_before a b (inr (w, inl l)) =
    ground (arith, text_lt_asym a.asset b.asset l, text_eq_iff b.wallet a.wallet)
IsNotAfter→not_before a b (inr (w, inr s)) =
    ground (arith, text_eq_iff b.wallet a.wallet, text_eq_iff b.asset a.asset)

before→IsNotAfter : (a b : Entitlement) → entitlement_before a b ≡ true → IsNotAfter a b
unfolding entitlement_before
before→IsNotAfter a b h = elim (Bool-cases (text_eq a.wallet b.wallet)) [
  | inl e ↦ inr ((text_eq_iff a.wallet b.wallet).0 e, inl (ground arith))
  | inr e ↦ inl (ground arith)
]

IsNotAfter-trans : (a b c : Entitlement) → IsNotAfter a b → IsNotAfter b c → IsNotAfter a c
IsNotAfter-trans a b c (inl l) (inl m) = inl (text_order.trans a.wallet b.wallet c.wallet l m)
IsNotAfter-trans a b c (inl l) (inr (w, x)) = inl (cc)
IsNotAfter-trans a b c (inr (v, x)) (inl m) = inl (cc)
IsNotAfter-trans a b c (inr (v, inl l)) (inr (w, inl m)) =
    inr (cc, inl (text_order.trans a.asset b.asset c.asset l m))
IsNotAfter-trans a b c (inr (v, inl l)) (inr (w, inr s)) = inr (cc, inl (cc))
IsNotAfter-trans a b c (inr (v, inr r)) (inr (w, inl m)) = inr (cc, inl (cc))
IsNotAfter-trans a b c (inr (v, inr r)) (inr (w, inr s)) = inr (cc, inr (cc))

pub entitlement_weak : IsWeakOrder entitlement_before
entitlement_weak = record {
  asym = λ x y e. IsNotAfter→not_before x y (before→IsNotAfter x y e);
  chain = λ x y z e f.
      IsNotAfter→not_before x z
        (IsNotAfter-trans x y z (not_before→IsNotAfter x y e) (not_before→IsNotAfter y z f));
}

pub IsSorted→IsInOrder : (es : List Entitlement) → IsSorted entitlement_before es → IsInOrder es
IsSorted→IsInOrder [] h = tt
IsSorted→IsInOrder (e ∷ es) h =
    (All-map_pred (λ x p. not_before→IsNotAfter e x p) es h.0, IsSorted→IsInOrder es h.1)
