-- ===== src/Prelude/Fallible.antt =====
-- Code that may throw: the value, or the error code that `fail` or the checked reader throws.
-- The text of a message is not kept.
use mathlib.Core.Path.{◌≡◌, refl, subst}
use bps_protocol.Prelude.Lists.{All}
use mathlib.Core.Logic.{◌⊎◌, inl, inr}
use mathlib.Core.Bool.{Bool, true, false}
use mathlib.Core.List.{List, [], ◌∷◌, map}

pub data Outcome {ℓ κ} (E : Type κ) (A : Type ℓ) : Type (ℓ ⊔ κ) where
  ok : A → Outcome E A
  err : E → Outcome E A

module _ {κ} {E : Type κ} where
  -- What follows is run on a value; a thrown code ends it.
  infixl 5 ◌>>=◌ ◌>>◌
  abbrev pub ◌>>=◌ {ℓ μ} :
      {Value : Type ℓ} {Next : Type μ} (m : Outcome E Value) (next : Value → Outcome E Next)
      → Outcome E Next
  err code >>= next = err code
  ok value >>= next = next value

  abbrev pub ◌>>◌ {ℓ} :
      {Next : Type ℓ} (m : Outcome E (Unit {0})) (next : Outcome E Next) → Outcome E Next
  checked >> next = checked >>= λ passed. next

  -- `if (test) fail(code, ...)`
  abbrev pub fail_if : Bool → E → Outcome E (Unit {0})
  fail_if true e = err e
  fail_if false e = ok tt

  -- `xs.map(f)` where `f` may throw: the first error ends it.
  unfoldable pub traverse {ℓ μ} :
      {A : Type ℓ} {B : Type μ} → (A → Outcome E B) → List A → Outcome E (List B)
  traverse f [] = ok []
  traverse f (x ∷ xs) = f x >>= λ y. traverse f xs >>= λ ys. ok (y ∷ ys)

  -- Code that came to `y` got a value from its first part.
  pub >>=-eq-ok {ℓ μ} :
      {Value : Type ℓ} {Next : Type μ} {y : Next} (m : Outcome E Value)
      (next : Value → Outcome E Next) (returned : (m >>= next) ≡ ok y)
      → (x : Value) × (m ≡ ok x) × (next x ≡ ok y)
  >>=-eq-ok (err code) next returned = cc
  >>=-eq-ok (ok x) next returned = (x, refl, returned)

  pub fail_if-eq-ok : (c : Bool) (e : E) {u : Unit {0}} → fail_if c e ≡ ok u → c ≡ false
  fail_if-eq-ok true e h = cc
  fail_if-eq-ok false e h = refl

  -- To split on an outcome and keep the equation.
  pub Outcome-cases {ℓ} :
      {A : Type ℓ} (m : Outcome E A) → ((a : A) × (m ≡ ok a)) ⊎ ((e : E) × (m ≡ err e))
  Outcome-cases (ok a) = inl (a, refl)
  Outcome-cases (err e) = inr (e, refl)

  -- Where `f` never throws, `traverse` is `map`.
  pub traverse-ok {ℓ μ} :
      {A : Type ℓ} {B : Type μ} (f : A → Outcome E B) (g : A → B) (xs : List A)
      → ((x : A) → f x ≡ ok (g x))
      → traverse f xs ≡ ok (map g xs)
  unfolding traverse
  traverse-ok f g [] h = refl
  traverse-ok f g (x ∷ xs) h = rw (h x) (rw (traverse-ok f g xs h) refl)

  -- What every result of `f` has, all results of `traverse f` have.
  pub traverse-All {ℓ μ ν} :
      {A : Type ℓ} {B : Type μ} (P : B → Type ν) (f : A → Outcome E B) (xs : List A) {ys : List B}
      → ((x : A) (y : B) → f x ≡ ok y → P y)
      → traverse f xs ≡ ok ys
      → All P ys
  unfolding traverse
  traverse-All P f [] {ys} h e = let nil : [] ≡ ys = cc in subst (All P) nil tt
  traverse-All P f (x ∷ xs) {ys} h e =
      let (y, ey, e') = >>=-eq-ok (f x) _ e in
      let (zs, ez, done) = >>=-eq-ok (traverse f xs) _ e' in
      let both : y ∷ zs ≡ ys = cc in subst (All P) both (h x y ey, traverse-All P f xs h ez)

  pub ok-injective {ℓ} : {A : Type ℓ} {a b : A} → ◌≡◌ {A = Outcome E A} (ok a) (ok b) → a ≡ b
  ok-injective h = cc

  abbrev pub is_ok {ℓ} : {A : Type ℓ} → Outcome E A → Bool
  is_ok (ok a) = true
  is_ok (err e) = false

  -- The value of code that does not throw.
  abbrev pub result_of {ℓ} : {A : Type ℓ} → (m : Outcome E A) → is_ok m ≡ true → A
  result_of (ok a) h = a
  result_of (err e) h = absurd cc

  pub result_of_eq {ℓ} :
      {A : Type ℓ} (m : Outcome E A) (h : is_ok m ≡ true) → m ≡ ok (result_of m h)
  result_of_eq (ok a) h = refl
  result_of_eq (err e) h = absurd cc
