-- ===== src/Rialto/QuoteExecution/Approved.antt =====
-- What the single checks of a quote's call establish when they pass.
use bps_protocol.Prelude.{
  ℕ, ◌<◌, ◌≡◌, ◌≢◌, inl, inr, refl, ap, subst, true, Option, none, some, List, [], ◌∷◌, arith, ok,
  ok-injective, Any, Bool-cases,
}
use bps_protocol.Integer.{ℤ, ◌==ℤ◌}
use bps_protocol.Text.{Text, text_eq, text_eq_iff, to_lower_case}
use bps_protocol.Rialto.QuoteExecution.{
  Code, AbiValue, text_value, number_value, other_value, ApprovedSelector, router_of, find_selector,
  decoded_or, arg_at, text_arg, bind_text, amount_arg, bind_amount, check_expiry,
}

-- Two texts that differ at most in case.
abbrev pub SameLower : Text → Text → Type 0
SameLower s t = to_lower_case s ≡ to_lower_case t

-- No such argument is declared, or the argument is the expected text.
abbrev pub IsBoundText : {Other : Type 0} → Option ℕ → List (AbiValue Other) → Text → Type 0
IsBoundText none decoded expected = Unit
IsBoundText (some i) decoded expected =
    (s : Text) × (arg_at decoded i ≡ some (text_value s)) × SameLower s expected

abbrev pub IsBoundAmount : {Other : Type 0} → Option ℕ → List (AbiValue Other) → ℤ → Type 0
IsBoundAmount none decoded expected = Unit
IsBoundAmount (some i) decoded expected =
    (n : ℤ) × (arg_at decoded i ≡ some (number_value n)) × ((n ==ℤ expected) ≡ true)

text_arg-eq-ok :
    {Other : Type 0} (a : Option (AbiValue Other)) (expected : Text) (code : Code)
    {bound : Option Text}
    → text_arg a expected code ≡ ok bound
    → (s : Text) × (a ≡ some (text_value s)) × SameLower s expected
text_arg-eq-ok none expected code h = ground arith
text_arg-eq-ok (some (text_value s)) expected code h =
    (s, refl, ground (arith, text_eq_iff (to_lower_case s) (to_lower_case expected)))
text_arg-eq-ok (some (number_value n)) expected code h = ground arith
text_arg-eq-ok (some (other_value o)) expected code h = ground arith

pub bind_text-IsBoundText :
    {Other : Type 0} (i : Option ℕ) (decoded : List (AbiValue Other)) (expected : Text)
    (code : Code) {bound : Option Text}
    → bind_text i decoded expected code ≡ ok bound
    → IsBoundText i decoded expected
unfolding bind_text
bind_text-IsBoundText none decoded expected code h = tt
bind_text-IsBoundText (some i) decoded expected code h =
    text_arg-eq-ok (arg_at decoded i) expected code h

amount_arg-eq-ok :
    {Other : Type 0} (a : Option (AbiValue Other)) (expected : ℤ) {bound : Option Text}
    → amount_arg a expected ≡ ok bound
    → (n : ℤ) × (a ≡ some (number_value n)) × ((n ==ℤ expected) ≡ true)
amount_arg-eq-ok none expected h = ground arith
amount_arg-eq-ok (some (text_value s)) expected h = ground arith
amount_arg-eq-ok (some (number_value n)) expected h = elim (Bool-cases (n ==ℤ expected)) [
  | inl same ↦ (n, refl, same)
  | inr other ↦ absurd (cc (rw other at h))
]
amount_arg-eq-ok (some (other_value o)) expected h = ground arith

pub bind_amount-IsBoundAmount :
    {Other : Type 0} (i : Option ℕ) (decoded : List (AbiValue Other)) (expected : ℤ)
    {bound : Option Text}
    → bind_amount i decoded expected ≡ ok bound
    → IsBoundAmount i decoded expected
unfolding bind_amount
bind_amount-IsBoundAmount none decoded expected h = tt
bind_amount-IsBoundAmount (some i) decoded expected h =
    amount_arg-eq-ok (arg_at decoded i) expected h

pub find_selector-eq-ok :
    {Params : Type 0} (selector : Text) (as_ : List (ApprovedSelector Params))
    {a : ApprovedSelector Params}
    → find_selector selector as_ ≡ ok a
    → Any (λ x. x ≡ a) as_ × (to_lower_case a.selector ≡ selector)
unfolding find_selector
find_selector-eq-ok selector [] h = ground arith
find_selector-eq-ok selector (x ∷ as_) {a} h =
    elim (Bool-cases (text_eq (to_lower_case x.selector) selector)) [
      | inl same ↦
          let found : x ≡ a = ok-injective (rw same at h) in
          (
            inl found,
            subst (λ y. to_lower_case y.selector ≡ selector) found
                ((text_eq_iff (to_lower_case x.selector) selector).0 same),
          )
      | inr other ↦
          let (listed, same) = find_selector-eq-ok selector as_ (rw other at h) in
          (inr listed, same)
    ]

pub router_of-eq-ok :
    (router : Option Text) {r : Text} → router_of router ≡ ok r → (router ≡ some r) × (r ≢ [])
unfolding router_of
router_of-eq-ok none h = ground arith
router_of-eq-ok (some []) h = ground arith
router_of-eq-ok (some (c ∷ cs)) h = let same = ok-injective h in (ap some same, λ e. cc)

pub check_expiry-eq-ok :
    (expiry : Option ℕ) (now : ℕ) {u : Unit {0}}
    → check_expiry expiry now ≡ ok u
    → (e : ℕ) × (expiry ≡ some e) × (now < e)
unfolding check_expiry
check_expiry-eq-ok none now h = ground arith
check_expiry-eq-ok (some e) now h = (e, refl, ground arith)

pub decoded_or-eq-ok : {A : Type 0} (m : Option A) {a : A} → decoded_or m ≡ ok a → m ≡ some a
unfolding decoded_or
decoded_or-eq-ok none h = ground arith
decoded_or-eq-ok (some a) h = ap some (ok-injective h)
