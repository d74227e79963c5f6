-- ===== src/Pod/Weights/Schedule.antt =====
-- The breakpoints as a schedule: from the start of the epoch to its end, with every transfer's
-- time, and with no bound of a lock between two that follow each other.
use bps_protocol.Prelude.{
  ℕ, ◌≤◌, ◌<◌, ◌≡◌, ◌⊎◌, inl, inr, refl, ap, subst, List, [], ◌∷◌, ◌++◌, arith, ltb, All,
  All-map_pred, All_at,
}
use bps_protocol.Order.{sort_by, sort_by-IsSorted, All-sort_by, Any-sort_by, strict-IsWeakOrder}
use bps_protocol.Pod.Model.{ConfirmedTransfer, LockRecord}
use bps_protocol.Pod.Weights.{add_transfer_times, add_lock_times, breakpoints}
use bps_protocol.Pod.Weights.Tiers.{bonus_end}
use bps_protocol.Pod.Weights.Integral.{last_of, IsRising, IsTimed, le-last_of}
use bps_protocol.Pod.Weights.Breaks.{
  ltb-IsStrictOrder, sorted-IsRising, IsTime, Any-append_left, IsCovered, IsWithin, IsCovered-map,
  HasBounds, add_lock_times_keeps, add_lock_times-HasBounds, All-add_lock_times,
  add_transfer_times_keeps, add_transfer_times-IsTimed, All-add_transfer_times,
}

-- No time that follows another has `x` strictly between them.
abbrev pub IsNotBetween : ℕ → List ℕ → Type 0
IsNotBetween x [] = Unit
IsNotBetween x (t ∷ []) = Unit
IsNotBetween x (t ∷ next ∷ times) = ((x ≤ t) ⊎ (next ≤ x)) × IsNotBetween x (next ∷ times)

below_first : (x t : ℕ) (times : List ℕ) → IsRising (t ∷ times) → x ≤ t → IsNotBetween x (t ∷ times)
below_first x t [] h p = tt
below_first x t (next ∷ times) h p =
    (inl p, below_first x next times h.1 (let q = h.0.0 in omega arith))

above_last :
    (x t : ℕ) (times : List ℕ)
    → IsRising (t ∷ times)
    → last_of t times ≤ x
    → IsNotBetween x (t ∷ times)
above_last x t [] h p = tt
above_last x t (next ∷ times) h p =
    let q = le-last_of next times h.1 in (inr (omega (arith, p, q)), above_last x next times h.1 p)

among :
    (x t : ℕ) (times : List ℕ)
    → IsRising (t ∷ times)
    → IsTime (t ∷ times) x
    → IsNotBetween x (t ∷ times)
among x t times h (inl e) = below_first x t times h (omega arith)
among x t [] h (inr m) = tt
among x t (next ∷ times) h (inr m) =
    let le : next ≤ x = at_least next times h.1.0 m in (inr le, among x next times h.1 m)
  where
    at_least : (n : ℕ) (ts : List ℕ) → All (λ u. n ≤ u) ts → IsTime (n ∷ ts) x → n ≤ x
    at_least n ts a (inl e) = omega arith
    at_least n [] a (inr k) = absurd k
    at_least n (u ∷ ts) a (inr (inl e)) = let p = a.0 in omega arith
    at_least n (u ∷ ts) a (inr (inr k)) = at_least n ts a.1 (inr k)

-- What the main loop needs of the times.
pub record IsSchedule (e0 e1 : ℕ) (queue : List ConfirmedTransfer) (locks : List LockRecord)
    (rest : List ℕ) : Type 0 where
  pub rising : IsRising (e0 ∷ rest)
  pub last : last_of e0 rest ≡ e1
  pub timed : IsTimed (e0 ∷ rest) queue
  pub apart :
      All
        (λ l. IsNotBetween l.start_timestamp (e0 ∷ rest) × IsNotBetween (bonus_end l) (e0 ∷ rest))
        locks

snoc-IsRising : (ts : List ℕ) (e : ℕ) → IsRising ts → All (λ u. u ≤ e) ts → IsRising (ts ++ e ∷ [])
snoc-IsRising [] e h b = (tt, tt)
snoc-IsRising (t ∷ ts) e h b = (append_last ts h.0, snoc-IsRising ts e h.1 b.1)
  where
    append_last : (us : List ℕ) → All (λ u. t ≤ u) us → All (λ u. t ≤ u) (us ++ e ∷ [])
    append_last [] a = (b.0, tt)
    append_last (u ∷ us) a = (a.0, append_last us a.1)

last_of-snoc : (t : ℕ) (ts : List ℕ) (e : ℕ) → last_of t (ts ++ e ∷ []) ≡ e
last_of-snoc t [] e = refl
last_of-snoc t (u ∷ ts) e = last_of-snoc u ts e

-- The first of times that rise from `e0` on and have it is `e0`.
first_time : (e0 t : ℕ) (ts : List ℕ) → IsRising (t ∷ ts) → e0 ≤ t → IsTime (t ∷ ts) e0 → t ≡ e0
first_time e0 t ts h p (inl e) = e
first_time e0 t ts h p (inr m) =
    let q : t ≤ e0 = All_at (λ u. t ≤ u) e0 ts h.0 m in omega (arith, p, q)

uncovered :
    (e0 e1 x : ℕ) (rest : List ℕ)
    → IsRising (e0 ∷ rest)
    → last_of e0 rest ≡ e1
    → IsCovered e0 e1 (e0 ∷ rest) x
    → IsNotBetween x (e0 ∷ rest)
uncovered e0 e1 x rest h e (inl p) = below_first x e0 rest h p
uncovered e0 e1 x rest h e (inr (inl m)) = among x e0 rest h m
uncovered e0 e1 x rest h e (inr (inr p)) = above_last x e0 rest h (omega (arith, e, p))

-- A sorted list of times within the epoch, with its end put last.
sorted-IsSchedule :
    (e0 e1 : ℕ) (queue : List ConfirmedTransfer) (locks : List LockRecord) (ts : List ℕ)
    → IsRising ts
    → All (IsWithin e0 e1) ts
    → IsTime ts e0
    → IsTimed ts queue
    → All (HasBounds e0 e1 ts) locks
    → (rest : List ℕ) × (ts ++ e1 ∷ [] ≡ e0 ∷ rest) × IsSchedule e0 e1 queue locks rest
sorted-IsSchedule e0 e1 queue locks [] h within start timed bounds = absurd start
sorted-IsSchedule e0 e1 queue locks (t ∷ ts) h within start timed bounds =
    let head : t ≡ e0 = first_time e0 t ts h within.0.0 start in
    let rest = ts ++ e1 ∷ [] in
    let same : t ∷ rest ≡ e0 ∷ rest = ap (λ x. x ∷ rest) head in
    let last = last_of-snoc e0 ts e1 in
    let rising : IsRising (e0 ∷ rest) = subst IsRising same (
      snoc-IsRising (t ∷ ts) e1 h
        (All-map_pred {P = IsWithin e0 e1} (λ u p. let q = p.1 in omega arith) (t ∷ ts) within)) in
    let moved : (y : ℕ) → IsTime (t ∷ ts) y → IsTime (e0 ∷ rest) y =
      λ y m. subst (λ l. IsTime l y) same (Any-append_left (λ u. u ≡ y) (t ∷ ts) (e1 ∷ []) m) in
    (
      rest,
      same,
      record {
        rising = rising;
        last = last;
        timed =
            All-map_pred {P = λ q. IsTime (t ∷ ts) q.timestamp} (λ q m. moved q.timestamp m) queue
              timed;
        apart =
            All-map_pred {P = HasBounds e0 e1 (t ∷ ts)}
              (λ l b. (
                uncovered e0 e1 l.start_timestamp rest rising last
                    (IsCovered-map e0 e1 (t ∷ ts) (e0 ∷ rest) l.start_timestamp moved b.0),
                uncovered e0 e1 (bonus_end l) rest rising last
                    (IsCovered-map e0 e1 (t ∷ ts) (e0 ∷ rest) (bonus_end l) moved b.1),
              ))
              locks bounds;
      },
    )

pub breakpoints-IsSchedule :
    (e0 e1 : ℕ) (queue : List ConfirmedTransfer) (locks : List LockRecord)
    → e0 < e1
    → All (λ q. IsWithin e0 e1 q.timestamp) queue
    → (rest : List ℕ) × (breakpoints e0 e1 queue locks ≡ e0 ∷ rest)
      × IsSchedule e0 e1 queue locks rest
unfolding breakpoints
breakpoints-IsSchedule e0 e1 queue locks lt within =
    let moves = add_transfer_times (e0 ∷ []) queue in
    let all = add_lock_times e0 e1 moves locks in
    let sorted = sort_by ltb all in
    let kept : (y : ℕ) → IsTime all y → IsTime sorted y =
      λ y m. Any-sort_by ltb (λ u. u ≡ y) all m in
    let inside =
      All-add_lock_times e0 e1 moves locks
        (All-add_transfer_times e0 e1 (e0 ∷ []) queue within ((omega arith, lt), tt)) in
    sorted-IsSchedule e0 e1 queue locks sorted
      (sorted-IsRising sorted (sort_by-IsSorted ltb (strict-IsWeakOrder ltb ltb-IsStrictOrder) all))
      (All-sort_by ltb (IsWithin e0 e1) all inside)
      (kept e0 (
        add_lock_times_keeps e0 e1 moves locks e0
          (add_transfer_times_keeps e0 e1 (e0 ∷ []) queue e0 (inl refl))))
      (All-map_pred {P = λ q. IsTime moves q.timestamp}
        (λ q m. kept q.timestamp (add_lock_times_keeps e0 e1 moves locks q.timestamp m)) queue
        (add_transfer_times-IsTimed e0 e1 (e0 ∷ []) queue))
      (All-map_pred {P = HasBounds e0 e1 all}
        (λ l b. (
          IsCovered-map e0 e1 all sorted l.start_timestamp kept b.0,
          IsCovered-map e0 e1 all sorted (bonus_end l) kept b.1,
        ))
        locks (add_lock_times-HasBounds e0 e1 moves locks))
