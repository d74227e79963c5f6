-- ===== src/Pod/Weights/Flow.antt =====
-- The balance of a wallet at a second: what it had, and what the transfers up to that second
-- brought and took.
use bps_protocol.Prelude.{
  ℕ, ◌+◌, ◌-◌, ◌≤◌, ◌<◌, ◌≡◌, List, [], ◌∷◌, arith, leb, ◌==◌, if◌then◌else◌, ok, sum_of, All,
  Bool-cases, inl, inr, >>=-eq-ok, subst,
}
use bps_protocol.Text.{Text}
use bps_protocol.Dict.{Dict, get_or}
use bps_protocol.Pod.Model.{ConfirmedTransfer}
use bps_protocol.Pod.Weights.{apply_transfer, apply_due}
use bps_protocol.Pod.Weights.Balances.{incoming, outgoing, apply_transfer-balance}

-- What the transfers up to a second bring to a wallet, and what they take from it.
unfoldable pub received : List ConfirmedTransfer → Text → ℕ → ℕ
received ts w s = sum_of (λ t. if leb t.timestamp s then incoming t w else 0) ts

unfoldable pub sent : List ConfirmedTransfer → Text → ℕ → ℕ
sent ts w s = sum_of (λ t. if leb t.timestamp s then outgoing t w else 0) ts

-- The balance at a second, for a start balance.
unfoldable pub balance_at : ℕ → List ConfirmedTransfer → Text → ℕ → ℕ
balance_at start ts w s = start + received ts w s - sent ts w s

-- Timestamps do not fall along the queue.
abbrev pub IsAscending : List ConfirmedTransfer → Type 0
IsAscending [] = Unit
IsAscending (t ∷ ts) = All (λ u. t.timestamp ≤ u.timestamp) ts × IsAscending ts

-- After the transfers at time `t`, those left are later, and each balance has moved by those
-- applied: whatever the second, the balance at it is the same from the new balances.
pub record IsDue (t : ℕ) (queue queue' : List ConfirmedTransfer) (b b' : Dict ℕ) (w : Text)
    : Type 0 where
  pub later : All (λ u. t < u.timestamp) queue'
  pub ascending : IsAscending queue'
  pub brought :
      (s : ℕ)
      → t ≤ s
      → (x : ℕ) × (y : ℕ) × (received queue w s ≡ x + received queue' w s)
        × (sent queue w s ≡ y + sent queue' w s)
        × (get_or 0 b' w + y ≡ get_or 0 b w + x)

late-All :
    (t : ℕ) (q : ConfirmedTransfer) (qs : List ConfirmedTransfer)
    → t < q.timestamp
    → All (λ u. q.timestamp ≤ u.timestamp) qs
    → All (λ u. t < u.timestamp) qs
late-All t q [] h a = tt
late-All t q (x ∷ xs) h a = (omega arith, late-All t q xs h a.1)

pub apply_due-IsDue :
    (t : ℕ) (queue queue' : List ConfirmedTransfer) (b b' : Dict ℕ) (w : Text)
    → apply_due t queue b ≡ ok (queue', b')
    → All (λ u. t ≤ u.timestamp) queue
    → IsAscending queue
    → IsDue t queue queue' b b' w
unfolding apply_due received sent
apply_due-IsDue t [] queue' b b' w h from asc =
    let e : [] ≡ queue' = ground arith in
    let f : b ≡ b' = ground arith in
    subst (λ q. IsDue t [] q b b' w) e
      (subst (λ d. IsDue t [] [] b d w) f
        (record {
          later = tt;
          ascending = tt;
          brought = λ s p. (0, 0, omega arith, omega arith, omega arith);
        }))
apply_due-IsDue t (q ∷ queue) queue' b b' w h from asc = elim (Bool-cases (q.timestamp == t)) [
  | inl now ↦
      let (next, applied, rest) = >>=-eq-ok (apply_transfer b q) _ (rw now at h) in
      let moved = apply_transfer-balance b next q w applied in
      let due = apply_due-IsDue t queue queue' next b' w rest from.1 asc.1 in
      record {
        later = due.later;
        ascending = due.ascending;
        brought = λ s p.
            let (x, y, r, u, e) = due.brought s p in
            (
              incoming q w + x,
              outgoing q w + y,
              ground arith,
              ground arith,
              omega (arith, moved, e),
            );
      }
  | inr future ↦
      let e : q ∷ queue ≡ queue' = ground arith in
      let f : b ≡ b' = ground arith in
      let lt : t < q.timestamp = ground (arith, from.0) in
      subst (λ l. IsDue t (q ∷ queue) l b b' w) e
        (subst (λ d. IsDue t (q ∷ queue) (q ∷ queue) b d w) f
          (record {
            later = (lt, late-All t q queue lt asc.0);
            ascending = asc;
            brought = λ s p. (0, 0, omega arith, omega arith, omega arith);
          }))
]

-- What the queue has, the rest of it has.
pub apply_due-All {κ} :
    (P : ConfirmedTransfer → Type κ) (t : ℕ) (queue queue' : List ConfirmedTransfer) (b b' : Dict ℕ)
    → apply_due t queue b ≡ ok (queue', b')
    → All P queue
    → All P queue'
unfolding apply_due
apply_due-All P t [] queue' b b' h a = let e : [] ≡ queue' = ground arith in subst (All P) e tt
apply_due-All P t (q ∷ queue) queue' b b' h a = elim (Bool-cases (q.timestamp == t)) [
  | inl now ↦
      let (next, applied, rest) = >>=-eq-ok (apply_transfer b q) _ (rw now at h) in
      apply_due-All P t queue queue' next b' rest a.1
  | inr future ↦ let e : q ∷ queue ≡ queue' = ground arith in subst (All P) e a
]
