-- ===== src/Text/Separator.antt =====
-- Two texts with a separator between their parts.
use bps_protocol.Prelude.{
  ℕ, true, not, ◌==◌, every, arith, ◌≡◌, ◌≢◌, refl, subst, [], ◌∷◌, ◌++◌, All,
}
use bps_protocol.Text.Equality.{Text}

-- The separator does not occur.
abbrev pub IsFree : ℕ → Text → Type 0
IsFree separator t = All (λ c. c ≢ separator) t

pub every-IsFree : (s : ℕ) (t : Text) → every (λ c. not (c == s)) t ≡ true → IsFree s t
every-IsFree s [] h = tt
every-IsFree s (c ∷ t) h = ((λ e. absurd (ground arith)), every-IsFree s t (ground arith))

-- What stands before the first separator, and after it.
pub split_unit :
    (s : ℕ) (p q x y : Text) → IsFree s p → IsFree s q → p ++ s ∷ x ≡ q ++ s ∷ y → (p ≡ q) × (x ≡ y)
split_unit s [] [] x y hp hq e = (refl, cc)
split_unit s [] (d ∷ q) x y hp hq e = let same : d ≡ s = cc in absurd (hq.0 same)
split_unit s (c ∷ p) [] x y hp hq e = let same : c ≡ s = cc in absurd (hp.0 same)
split_unit s (c ∷ p) (d ∷ q) x y hp hq e =
    let head : c ≡ d = cc in
    let tail : p ++ s ∷ x ≡ q ++ s ∷ y = cc in
    let (same, rest) = split_unit s p q x y hp.1 hq.1 tail in (cc (head, same), rest)

not-IsFree : (s : ℕ) (t y : Text) → ¬ IsFree s (t ++ s ∷ y)
not-IsFree s [] y h = h.0 refl
not-IsFree s (c ∷ t) y h = not-IsFree s t y h.1

-- What stands before the last separator, and after it.
pub split_last_unit :
    (s : ℕ) (p q x y : Text) → IsFree s x → IsFree s y → p ++ s ∷ x ≡ q ++ s ∷ y → (p ≡ q) × (x ≡ y)
split_last_unit s [] [] x y hx hy e = (refl, cc)
split_last_unit s [] (d ∷ q) x y hx hy e =
    let tail : x ≡ q ++ s ∷ y = cc in absurd (not-IsFree s q y (subst (IsFree s) tail hx))
split_last_unit s (c ∷ p) [] x y hx hy e =
    let tail : y ≡ p ++ s ∷ x = cc in absurd (not-IsFree s p x (subst (IsFree s) tail hy))
split_last_unit s (c ∷ p) (d ∷ q) x y hx hy e =
    let head : c ≡ d = cc in
    let tail : p ++ s ∷ x ≡ q ++ s ∷ y = cc in
    let (same, rest) = split_last_unit s p q x y hx hy tail in (cc (head, same), rest)
