-- ===== src/Pod/Weights/Seconds.antt =====
-- Sums over the seconds of an interval: `over f a n` is f a + f (a + 1) + ... of n terms.
use bps_protocol.Prelude.{ℕ, zero, suc, ◌+◌, ◌-◌, ◌*◌, ◌≤◌, ◌<◌, ◌≡◌, arith, ◌∙◌}

unfoldable pub over : (ℕ → ℕ) → ℕ → ℕ → ℕ
over f a zero = 0
over f a (suc n) = f a + over f (suc a) n

-- Functions that agree on the interval have one sum.
pub over-eq :
    (f g : ℕ → ℕ) (a n : ℕ) → ((s : ℕ) → a ≤ s → s < a + n → f s ≡ g s) → over f a n ≡ over g a n
unfolding over
over-eq f g a zero h = omega arith
over-eq f g a (suc n) h =
    let rest = over-eq f g (suc a) n (λ s p q. h s (omega arith) (omega arith)) in
    omega (arith, h a (omega arith) (omega arith), rest)

pub over-const : (c a n : ℕ) → over (λ s. c) a n ≡ n * c
unfolding over
over-const c a zero = omega arith
over-const c a (suc n) = ground (arith, over-const c (suc a) n)

over-append : (f : ℕ → ℕ) (a m n : ℕ) → over f a (m + n) ≡ over f a m + over f (a + m) n
unfolding over
over-append f a zero n =
    let e : zero + n ≡ n = omega arith in
    let e' : a + zero ≡ a = omega arith in rw (e, e') (omega arith)
over-append f a (suc m) n =
    let e : suc m + n ≡ suc (m + n) = omega arith in
    let e' : a + suc m ≡ suc a + m = omega arith in
    rw (e, e') (omega (arith, over-append f (suc a) m n))

-- An interval is cut at a second within it.
pub over_split :
    (f : ℕ → ℕ) (a m b : ℕ) → a ≤ m → m ≤ b → over f a (b - a) ≡ over f a (m - a) + over f m (b - m)
over_split f a m b p q =
    let e : b - a ≡ (m - a) + (b - m) = omega arith in
    let e' : a + (m - a) ≡ m = omega arith in rw e (over-append f a (m - a) (b - m) ∙ rw e')
