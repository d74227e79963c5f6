-- ===== src/Pod/Weights/Integral.antt =====
-- The main loop against the sum over seconds: over each interval between breakpoints the balance
-- stays, and so does what is locked.
use bps_protocol.Prelude.{
  ℕ, ◌+◌, ◌-◌, ◌*◌, ◌≤◌, ◌<◌, ◌≡◌, inl, inr, refl, sym, ◌∙◌, ap, List, [], ◌∷◌, arith, leb,
  if◌then◌else◌, ok, All, Any, Bool-cases, >>=-eq-ok,
}
use bps_protocol.Text.{Text}
use bps_protocol.Dict.{Dict, get_or}
use bps_protocol.Pod.Model.{ConfirmedTransfer, LockRecord}
use bps_protocol.Pod.Weights.{Sums, apply_due, accrue_all, sweep}
use bps_protocol.Pod.Weights.Seconds.{over, over-eq, over-const, over_split}
use bps_protocol.Pod.Weights.Flow.{
  received, sent, balance_at, IsAscending, IsDue, apply_due-IsDue, apply_due-All,
}

-- The last of the times that begin with `t`.
abbrev pub last_of : ℕ → List ℕ → ℕ
last_of t [] = t
last_of t (next ∷ times) = last_of next times

-- Times do not fall.
abbrev pub IsRising : List ℕ → Type 0
IsRising [] = Unit
IsRising (t ∷ ts) = All (λ u. t ≤ u) ts × IsRising ts

-- The integrand stays the same from each time to before the next.
abbrev pub IsSteady : (ℕ → ℕ → ℕ) → List ℕ → Type 0
IsSteady f [] = Unit
IsSteady f (t ∷ []) = Unit
IsSteady f (t ∷ next ∷ times) =
    ((c u : ℕ) → t ≤ u → u < next → f c u ≡ f c t) × IsSteady f (next ∷ times)

-- Each transfer's time is one of the times.
abbrev pub IsTimed : List ℕ → List ConfirmedTransfer → Type 0
IsTimed times queue = All (λ q. Any (λ u. u ≡ q.timestamp) times) queue

-- Transfers after `t` and among the times from `t` on are no earlier than the next time.
later-IsTimed :
    (t next : ℕ) (times : List ℕ) (queue : List ConfirmedTransfer)
    → All (λ q. t < q.timestamp) queue
    → IsTimed (t ∷ next ∷ times) queue
    → All (λ u. next ≤ u) times
    → All (λ q. next ≤ q.timestamp) queue × IsTimed (next ∷ times) queue
later-IsTimed t next times [] late timed rising = (tt, tt)
later-IsTimed t next times (q ∷ queue) late timed rising =
    let (a, b) = later-IsTimed t next times queue late.1 timed.1 rising in
    elim timed.0 [
      | inl e ↦ absurd (let h = late.0 in omega arith)
      | inr (inl e) ↦ ((omega arith, a), (inl e, b))
      | inr (inr m) ↦ ((All_at_time q.timestamp times rising m, a), (inr m, b))
    ]
  where
    All_at_time : (x : ℕ) (ts : List ℕ) → All (λ u. next ≤ u) ts → Any (λ u. u ≡ x) ts → next ≤ x
    All_at_time x [] h m = absurd m
    All_at_time x (u ∷ ts) h (inl e) = let p = h.0 in omega arith
    All_at_time x (u ∷ ts) h (inr m) = All_at_time x ts h.1 m

-- Before the first of them, transfers bring and take nothing.
none_before :
    (n s : ℕ) (queue : List ConfirmedTransfer) (w : Text)
    → All (λ q. n ≤ q.timestamp) queue
    → s < n
    → (received queue w s ≡ 0) × (sent queue w s ≡ 0)
unfolding received sent
none_before n s [] w h lt = (refl, refl)
none_before n s (q ∷ queue) w h lt =
    let rest = none_before n s queue w h.1 lt in
    let p = h.0 in (ground (arith, rest.0), ground (arith, rest.1))

-- From the new balances on, the balance at every later second is the same.
balance_at-due :
    (t : ℕ) (queue queue' : List ConfirmedTransfer) (b b' : Dict ℕ) (w : Text)
    → IsDue t queue queue' b b' w
    → (u : ℕ) → t ≤ u
    → balance_at (get_or 0 b w) queue w u ≡ balance_at (get_or 0 b' w) queue' w u
unfolding balance_at
balance_at-due t queue queue' b b' w due u p =
    let (x, y, r, s, e) = due.brought u p in omega (arith, r, s, e)

balance_at-before :
    (n u start : ℕ) (queue : List ConfirmedTransfer) (w : Text)
    → All (λ q. n ≤ q.timestamp) queue
    → u < n
    → balance_at start queue w u ≡ start
unfolding balance_at
balance_at-before n u start queue w h lt =
    let (r, s) = none_before n u queue w h lt in omega (arith, r, s)

-- All times are at most the last one.
pub le-last_of : (t : ℕ) (times : List ℕ) → IsRising (t ∷ times) → t ≤ last_of t times
le-last_of t [] h = omega arith
le-last_of t (next ∷ times) h = let rest = le-last_of next times h.1 in omega (arith, h.0.0, rest)

-- The balances after the loop are those at its end, when every transfer is earlier.
pub sweep-balance :
    (locks : Dict (List LockRecord)) (relevant : List Text) (w : Text) (t : ℕ) (times : List ℕ)
    (queue : List ConfirmedTransfer) (b b' : Dict ℕ) (s s' : Sums)
    → sweep locks relevant (t ∷ times) queue b s ≡ ok (b', s')
    → IsRising (t ∷ times)
    → IsTimed (t ∷ times) queue
    → All (λ q. t ≤ q.timestamp) queue
    → IsAscending queue
    → All (λ q. q.timestamp < last_of t times) queue
    → get_or 0 b' w ≡ balance_at (get_or 0 b w) queue w (last_of t times)
unfolding sweep balance_at received sent
sweep-balance locks relevant w t [] [] b b' s s' e rising timed from asc before =
    let same : b ≡ b' = ground arith in ap (λ d. get_or 0 d w) (sym same) ∙ omega arith
sweep-balance locks relevant w t [] (q ∷ queue) b b' s s' e rising timed from asc before =
    absurd (let p = from.0 in let l = before.0 in omega arith)
sweep-balance locks relevant w t (next ∷ times) queue b b' s s' e rising timed from asc before =
    let ((queue', mid), applied, e') = >>=-eq-ok (apply_due t queue b) _ e in
    let (n, accrued, rest) =
      >>=-eq-ok (if leb next t then ok s else accrue_all mid locks t (next - t) s relevant) _ e' in
    let due = apply_due-IsDue t queue queue' b mid w applied from asc in
    let kept = apply_due-All _ t queue queue' b mid applied timed in
    let (late, timed') = later-IsTimed t next times queue' due.later kept rising.1.0 in
    let left = apply_due-All _ t queue queue' b mid applied before in
    sweep-balance locks relevant w next times queue' mid b' n s' rest rising.1 timed' late
      due.ascending left
    ∙ sym (
        balance_at-due t queue queue' b mid w due (last_of next times)
          (le-last_of t (next ∷ times) rising))

module _ (locks : Dict (List LockRecord)) (relevant : List Text) (w : Text) (f : ℕ → ℕ → ℕ)
    (gain : Sums → ℕ) (count : ℕ)
    (gains : (b : Dict ℕ) (t dur : ℕ) (s s' : Sums)
      → accrue_all b locks t dur s relevant ≡ ok s'
      → gain s' ≡ gain s + count * (f (get_or 0 b w) t * dur)) where
  -- The integrand at a second.
  abbrev at : Dict ℕ → List ConfirmedTransfer → ℕ → ℕ
  at b queue u = f (balance_at (get_or 0 b w) queue w u) u

  over_interval :
      (t next : ℕ) (queue queue' : List ConfirmedTransfer) (b b' : Dict ℕ)
      → t ≤ next
      → IsDue t queue queue' b b' w
      → All (λ q. next ≤ q.timestamp) queue'
      → ((c u : ℕ) → t ≤ u → u < next → f c u ≡ f c t)
      → over (at b queue) t (next - t) ≡ f (get_or 0 b' w) t * (next - t)
  over_interval t next queue queue' b b' le due late steady =
      let same : over (at b queue) t (next - t) ≡ over (λ u. f (get_or 0 b' w) t) t (next - t) =
        over-eq _ _ t (next - t) (λ u p q.
          let lt : u < next = omega arith in
          ap (λ c. f c u)
            (balance_at-due t queue queue' b b' w due u p
              ∙ balance_at-before next u (get_or 0 b' w) queue' w late lt)
          ∙ steady (get_or 0 b' w) u p lt) in
      let const = over-const (f (get_or 0 b' w) t) t (next - t) in omega (arith, same, const)

  over_later :
      (t next n : ℕ) (queue queue' : List ConfirmedTransfer) (b b' : Dict ℕ)
      → t ≤ next
      → IsDue t queue queue' b b' w
      → over (at b queue) next n ≡ over (at b' queue') next n
  over_later t next n queue queue' b b' le due =
      over-eq _ _ next n
        (λ u p q. ap (λ c. f c u) (balance_at-due t queue queue' b b' w due u (omega arith)))

  interval_gain :
      (t next : ℕ) (b : Dict ℕ) (s n : Sums)
      → t ≤ next
      → (if leb next t then ok s else accrue_all b locks t (next - t) s relevant) ≡ ok n
      → gain n ≡ gain s + count * (f (get_or 0 b w) t * (next - t))
  interval_gain t next b s n le h = elim (Bool-cases (leb next t)) [
    | inl late ↦
        let same : s ≡ n = ground arith in
        let none : next - t ≡ 0 = ground arith in rw none (rw (← same) (omega arith))
    | inr early ↦ gains b t (next - t) s n (rw early at h)
  ]

  add_up : (s n s' c x y : ℕ) → n ≡ s + c * x → s' ≡ n + c * y → s' ≡ s + c * (x + y)
  add_up s n s' c x y e e' = omega (arith, e, e')

  -- The loop adds the sum of the integrand over the seconds from the first time to the last.
  pub sweep-over :
      (t : ℕ) (times : List ℕ) (queue : List ConfirmedTransfer) (b b' : Dict ℕ) (s s' : Sums)
      → sweep locks relevant (t ∷ times) queue b s ≡ ok (b', s')
      → IsRising (t ∷ times)
      → IsSteady f (t ∷ times)
      → IsTimed (t ∷ times) queue
      → All (λ q. t ≤ q.timestamp) queue
      → IsAscending queue
      → gain s' ≡ gain s + count * over (at b queue) t (last_of t times - t)
  unfolding sweep over
  sweep-over t [] queue b b' s s' e rising steady timed from asc =
      let same : s ≡ s' = ground arith in
      let none : t - t ≡ 0 = omega arith in rw (← same) (rw none (omega arith))
  sweep-over t (next ∷ times) queue b b' s s' e rising steady timed from asc =
      let ((queue', mid), applied, e') = >>=-eq-ok (apply_due t queue b) _ e in
      let (n, accrued, rest) =
        >>=-eq-ok (if leb next t then ok s else accrue_all mid locks t (next - t) s relevant) _
          e' in
      let due = apply_due-IsDue t queue queue' b mid w applied from asc in
      let (late, timed') =
        later-IsTimed t next times queue' due.later
          (apply_due-All _ t queue queue' b mid applied timed) rising.1.0 in
      let le = rising.0.0 in
      let here = over_interval t next queue queue' b mid le due late steady.0 in
      let there = over_later t next (last_of next times - next) queue queue' b mid le due in
      let cut =
        over_split (at b queue) t next (last_of next times) le (le-last_of next times rising.1) in
      let ih =
        sweep-over next times queue' mid b' n s' rest rising.1 steady.1 timed' late due.ascending in
      let gained = interval_gain t next mid s n le accrued in
      let total : over (at b queue) t (last_of next times - t)
          ≡ f (get_or 0 mid w) t * (next - t)
            + over (at mid queue') next (last_of next times - next) =
        omega (arith, cut, here, there) in
      rw total (add_up (gain s) (gain n) (gain s') count _ _ gained ih)
