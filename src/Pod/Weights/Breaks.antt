-- ===== src/Pod/Weights/Breaks.antt =====
-- The breakpoints: they rise from the start of the epoch to its end, the time of every transfer is
-- one of them, and no lock begins or ends between two that follow each other.
use bps_protocol.Prelude.{
  ℕ, ◌≤◌, ◌<◌, ◌≡◌, ◌⊎◌, inl, inr, refl, true, ◌&&◌, none, some, List, [], ◌∷◌, ◌++◌, arith, ltb,
  ◌==◌, All, Any, All-map_pred, All-append, Bool-cases, ltb_false→le,
}
use bps_protocol.Order.{IsSorted, IsStrictOrder}
use bps_protocol.Pod.Model.{ConfirmedTransfer, LockRecord}
use bps_protocol.Pod.Weights.{has_time, add_time, add_inside, add_transfer_times, add_lock_times}
use bps_protocol.Pod.Weights.Tiers.{bonus_end}
use bps_protocol.Pod.Weights.Integral.{IsRising, IsTimed}

pub ltb-IsStrictOrder : IsStrictOrder ltb
ltb-IsStrictOrder = record {
  irrefl = λ x. ground arith;
  trans = λ x y z e f. ground arith;
  connex = λ x y e f. ground arith;
}

pub sorted-IsRising : (ts : List ℕ) → IsSorted ltb ts → IsRising ts
sorted-IsRising [] h = tt
sorted-IsRising (t ∷ ts) h =
    (All-map_pred (λ u p. ltb_false→le u t p) ts h.0, sorted-IsRising ts h.1)

-- A time is in the list.
abbrev pub IsTime : List ℕ → ℕ → Type 0
IsTime ts x = Any (λ u. u ≡ x) ts

has_time_any : (ts : List ℕ) (x : ℕ) → has_time ts x ≡ true → IsTime ts x
unfolding has_time
has_time_any [] x h = absurd cc
has_time_any (t ∷ ts) x h = elim (Bool-cases (t == x)) [
  | inl e ↦ inl (ground arith)
  | inr e ↦ inr (has_time_any ts x (ground arith))
]

pub Any-append_left : (P : ℕ → Type 0) (ts us : List ℕ) → Any P ts → Any P (ts ++ us)
Any-append_left P [] us h = absurd h
Any-append_left P (t ∷ ts) us (inl e) = inl e
Any-append_left P (t ∷ ts) us (inr m) = inr (Any-append_left P ts us m)

snoc-IsTime : (ts : List ℕ) (x : ℕ) → IsTime (ts ++ x ∷ []) x
snoc-IsTime [] x = inl refl
snoc-IsTime (t ∷ ts) x = inr (snoc-IsTime ts x)

-- The new time is there, and so are those before.
add_time-IsTime : (ts : List ℕ) (x : ℕ) → IsTime (add_time ts x) x
unfolding add_time
add_time-IsTime ts x = elim (Bool-cases (has_time ts x)) [
  | inl e ↦ rw e (has_time_any ts x e)
  | inr e ↦ rw e (snoc-IsTime ts x)
]

add_time_keeps : (ts : List ℕ) (x y : ℕ) → IsTime ts y → IsTime (add_time ts x) y
unfolding add_time
add_time_keeps ts x y h = elim (Bool-cases (has_time ts x)) [
  | inl e ↦ rw e h
  | inr e ↦ rw e (Any-append_left (λ u. u ≡ y) ts (x ∷ []) h)
]

All-add_time : (P : ℕ → Type 0) (ts : List ℕ) (x : ℕ) → P x → All P ts → All P (add_time ts x)
unfolding add_time
All-add_time P ts x p h = elim (Bool-cases (has_time ts x)) [
  | inl e ↦ rw e h
  | inr e ↦ rw e (All-append P ts (x ∷ []) h (p, tt))
]

-- A time is covered: outside of the epoch, or among the breakpoints.
abbrev pub IsCovered : ℕ → ℕ → List ℕ → ℕ → Type 0
IsCovered e0 e1 ts x = (x ≤ e0) ⊎ IsTime ts x ⊎ (e1 ≤ x)

module _ (e0 e1 : ℕ) where
  -- Every time so far is within the epoch.
  abbrev pub IsWithin : ℕ → Type 0
  IsWithin x = (e0 ≤ x) × (x < e1)

  add_inside_keeps : (ts : List ℕ) (x y : ℕ) → IsTime ts y → IsTime (add_inside e0 e1 ts x) y
  add_inside_keeps ts x y h = elim (Bool-cases (ltb e0 x && ltb x e1)) [
    | inl e ↦ rw e (add_time_keeps ts x y h)
    | inr e ↦ rw e h
  ]

  add_inside-IsCovered : (ts : List ℕ) (x : ℕ) → IsCovered e0 e1 (add_inside e0 e1 ts x) x
  add_inside-IsCovered ts x = elim (Bool-cases (ltb e0 x)) [
    | inr e ↦ inl (ground arith)
    | inl e ↦ elim (Bool-cases (ltb x e1)) [
      | inr f ↦ inr (inr (ground arith))
      | inl f ↦ inr (inl (rw (e, f) (add_time-IsTime ts x)))
    ]
  ]

  All-add_inside : (ts : List ℕ) (x : ℕ) → All IsWithin ts → All IsWithin (add_inside e0 e1 ts x)
  All-add_inside ts x h = elim (Bool-cases (ltb e0 x && ltb x e1)) [
    | inl e ↦ rw e (All-add_time IsWithin ts x (ground arith) h)
    | inr e ↦ rw e h
  ]

  pub IsCovered-map :
      (ts us : List ℕ) (x : ℕ)
      → ((y : ℕ) → IsTime ts y → IsTime us y)
      → IsCovered e0 e1 ts x
      → IsCovered e0 e1 us x
  IsCovered-map ts us x f (inl h) = inl h
  IsCovered-map ts us x f (inr (inl m)) = inr (inl (f x m))
  IsCovered-map ts us x f (inr (inr h)) = inr (inr h)

  -- The times that one lock adds: its bounds, and the withdrawal where there is one.
  abbrev bounds : List ℕ → LockRecord → List ℕ
  bounds s l =
      let inside = add_inside e0 e1 in
      inside (inside (inside s l.start_timestamp) l.unlock_timestamp) (bonus_end l)

  abbrev lock_times : List ℕ → LockRecord → List ℕ
  lock_times s l = elim l.withdrawal_timestamp [
    | none ↦ bounds s l
    | some w ↦ add_inside e0 e1 (bounds s l) w
  ]

  bounds-lock_times :
      (s : List ℕ) (l : LockRecord) (y : ℕ) → IsTime (bounds s l) y → IsTime (lock_times s l) y
  bounds-lock_times s l y h =
      elim l.withdrawal_timestamp
        as (λ o.
          IsTime (elim o [ none ↦ bounds s l | some w ↦ add_inside e0 e1 (bounds s l) w ]) y) [
            | none ↦ h
            | some w ↦ add_inside_keeps (bounds s l) w y h
          ]

  lock_times_keeps : (s : List ℕ) (l : LockRecord) (y : ℕ) → IsTime s y → IsTime (lock_times s l) y
  lock_times_keeps s l y h = bounds-lock_times s l y (
      add_inside_keeps _ (bonus_end l) y
        (add_inside_keeps _ l.unlock_timestamp y (add_inside_keeps s l.start_timestamp y h)))

  lock_times-IsCovered :
      (s : List ℕ) (l : LockRecord)
      → IsCovered e0 e1 (lock_times s l) l.start_timestamp
        × IsCovered e0 e1 (lock_times s l) (bonus_end l)
  lock_times-IsCovered s l =
      let first = add_inside e0 e1 s l.start_timestamp in
      let second = add_inside e0 e1 first l.unlock_timestamp in
      (
        IsCovered-map first (lock_times s l) l.start_timestamp
            (λ y h. bounds-lock_times s l y (
              add_inside_keeps second (bonus_end l) y
                (add_inside_keeps first l.unlock_timestamp y h)))
            (add_inside-IsCovered s l.start_timestamp),
        IsCovered-map (bounds s l) (lock_times s l) (bonus_end l) (bounds-lock_times s l)
            (add_inside-IsCovered second (bonus_end l)),
      )

  All-lock_times : (s : List ℕ) (l : LockRecord) → All IsWithin s → All IsWithin (lock_times s l)
  All-lock_times s l h =
      let within =
        All-add_inside _ (bonus_end l)
          (All-add_inside _ l.unlock_timestamp (All-add_inside s l.start_timestamp h)) in
      elim l.withdrawal_timestamp
        as (λ o.
          All IsWithin (elim o [ none ↦ bounds s l | some w ↦ add_inside e0 e1 (bounds s l) w ])) [
            | none ↦ within
            | some w ↦ All-add_inside (bounds s l) w within
          ]

  pub add_lock_times_keeps :
      (s : List ℕ) (ls : List LockRecord) (y : ℕ)
      → IsTime s y
      → IsTime (add_lock_times e0 e1 s ls) y
  unfolding add_lock_times
  add_lock_times_keeps s [] y h = h
  add_lock_times_keeps s (l ∷ ls) y h =
      add_lock_times_keeps (lock_times s l) ls y (lock_times_keeps s l y h)

  -- A lock of which both bounds are covered.
  abbrev pub HasBounds : List ℕ → LockRecord → Type 0
  HasBounds ts l = IsCovered e0 e1 ts l.start_timestamp × IsCovered e0 e1 ts (bonus_end l)

  pub add_lock_times-HasBounds :
      (s : List ℕ) (ls : List LockRecord) → All (HasBounds (add_lock_times e0 e1 s ls)) ls
  unfolding add_lock_times
  add_lock_times-HasBounds s [] = tt
  add_lock_times-HasBounds s (l ∷ ls) =
      let keeps = add_lock_times_keeps (lock_times s l) ls in
      let (start, end) = lock_times-IsCovered s l in
      (
        (IsCovered-map _ _ _ keeps start, IsCovered-map _ _ _ keeps end),
        add_lock_times-HasBounds (lock_times s l) ls,
      )

  pub All-add_lock_times :
      (s : List ℕ) (ls : List LockRecord)
      → All IsWithin s
      → All IsWithin (add_lock_times e0 e1 s ls)
  unfolding add_lock_times
  All-add_lock_times s [] h = h
  All-add_lock_times s (l ∷ ls) h = All-add_lock_times (lock_times s l) ls (All-lock_times s l h)

  pub add_transfer_times_keeps :
      (s : List ℕ) (qs : List ConfirmedTransfer) (y : ℕ)
      → IsTime s y
      → IsTime (add_transfer_times s qs) y
  unfolding add_transfer_times
  add_transfer_times_keeps s [] y h = h
  add_transfer_times_keeps s (q ∷ qs) y h =
      add_transfer_times_keeps (add_time s q.timestamp) qs y (add_time_keeps s q.timestamp y h)

  pub add_transfer_times-IsTimed :
      (s : List ℕ) (qs : List ConfirmedTransfer) → IsTimed (add_transfer_times s qs) qs
  unfolding add_transfer_times
  add_transfer_times-IsTimed s [] = tt
  add_transfer_times-IsTimed s (q ∷ qs) = (
    add_transfer_times_keeps _ qs q.timestamp (add_time-IsTime s q.timestamp),
    add_transfer_times-IsTimed (add_time s q.timestamp) qs,
  )

  pub All-add_transfer_times :
      (s : List ℕ) (qs : List ConfirmedTransfer)
      → All (λ q. IsWithin q.timestamp) qs
      → All IsWithin s
      → All IsWithin (add_transfer_times s qs)
  unfolding add_transfer_times
  All-add_transfer_times s [] w h = h
  All-add_transfer_times s (q ∷ qs) w h =
      All-add_transfer_times (add_time s q.timestamp) qs w.1
        (All-add_time IsWithin s q.timestamp w.0 h)
