-- ===== src/Pod/Weights/Applied.antt =====
-- Which transfers `computeWeights` applies: those of the given ones from before the epoch's end.
use bps_protocol.Prelude.{
  ℕ, ◌<◌, ◌≤◌, ◌≡◌, ◌⊎◌, subst, inl, inr, Bool, true, List, [], ◌∷◌, arith, ltb, ok, ok-injective,
  >>=-eq-ok, All, Any, keep, All-keep, All-map_pred, Bool-cases, ltb_false→le, lt→ltb,
}
use bps_protocol.Pod.Model.{CycleConfig, ConfirmedTransfer, EpochStartBalance, LockRecord}
use bps_protocol.Pod.Transfers.{canonicalize_transfers}
use bps_protocol.Pod.Transfers.Canonical.{
  Precedes, IsChronological, Holds, canonicalize_transfers_sound,
}
use bps_protocol.Pod.Weights.{
  WeightComputation, compute_weights, sweep, group_locks, breakpoints, seed_balances, no_sums,
  weigh_all, add_lockers, add_parties, add_holders,
}

-- The transfers `out` are those of `ts` from before `end`: in strict chain order, each given and
-- from before the end; and each given one is not from before the end, or stands there.
pub record IsApplied (end : ℕ) (ts out : List ConfirmedTransfer) : Type 0 where
  pub chronological : IsChronological out
  pub given : All (λ u. Any (λ t. t ≡ u) ts) out
  pub early : All (λ u. u.timestamp < end) out
  pub complete : All (λ t. (end ≤ t.timestamp) ⊎ Holds out t) ts

keep-IsChronological :
    (p : ConfirmedTransfer → Bool) (ts : List ConfirmedTransfer)
    → IsChronological ts
    → IsChronological (keep p ts)
unfolding keep
keep-IsChronological p [] h = tt
keep-IsChronological p (t ∷ ts) h = elim (Bool-cases (p t)) [
  | inl e ↦ rw e (All-keep (Precedes t) p ts h.0, keep-IsChronological p ts h.1)
  | inr e ↦ rw e (keep-IsChronological p ts h.1)
]

pub keep-early :
    (end : ℕ) (ts : List ConfirmedTransfer)
    → All (λ u. u.timestamp < end) (keep (λ t. ltb t.timestamp end) ts)
unfolding keep
keep-early end [] = tt
keep-early end (t ∷ ts) = elim (Bool-cases (ltb t.timestamp end)) [
  | inl e ↦ rw e (ground arith, keep-early end ts)
  | inr e ↦ rw e (keep-early end ts)
]

keep-Holds :
    (end : ℕ) (t : ConfirmedTransfer) (us : List ConfirmedTransfer)
    → t.timestamp < end
    → Holds us t
    → Holds (keep (λ u. ltb u.timestamp end) us) t
unfolding keep
keep-Holds end t [] lt h = absurd h
keep-Holds end t (u ∷ us) lt (inl (log, agrees)) =
    let at_one_time : u.timestamp ≡ t.timestamp = agrees.3 in
    let kept : ltb u.timestamp end ≡ true =
      lt→ltb u.timestamp end (omega (arith, at_one_time, lt)) in
    rw kept (inl (log, agrees))
keep-Holds end t (u ∷ us) lt (inr h) = elim (Bool-cases (ltb u.timestamp end)) [
  | inl e ↦ rw e (inr (keep-Holds end t us lt h))
  | inr e ↦ rw e (keep-Holds end t us lt h)
]

kept_or_late :
    (end : ℕ) (us : List ConfirmedTransfer) (t : ConfirmedTransfer)
    → Holds us t
    → (end ≤ t.timestamp) ⊎ Holds (keep (λ u. ltb u.timestamp end) us) t
kept_or_late end us t h = elim (Bool-cases (ltb t.timestamp end)) [
  | inl e ↦ inr (keep-Holds end t us (ground arith) h)
  | inr e ↦ inl (ltb_false→le t.timestamp end e)
]

pub compute_weights-IsApplied :
    (cycle : CycleConfig) (balances : List EpochStartBalance) (transfers : List ConfirmedTransfer)
    (locks : List LockRecord) {r : WeightComputation}
    → compute_weights cycle balances transfers locks ≡ ok r
    → IsApplied cycle.epoch_end transfers r.applied_transfers
unfolding compute_weights
compute_weights-IsApplied cycle balances transfers locks {r} h =
    let end = cycle.epoch_end in
    let (deduped, e, h') = >>=-eq-ok (canonicalize_transfers transfers) _ h in
    let applied = keep (λ t. ltb t.timestamp end) deduped in
    let relevant = add_lockers (add_parties (add_holders [] balances) applied) locks in
    let ((b, s), swept, h'') =
      >>=-eq-ok
        (sweep (group_locks [] locks) relevant (breakpoints cycle.epoch_start end applied locks)
          applied (seed_balances [] balances) no_sums)
        _ h' in
    let (m, weighed, done) = >>=-eq-ok (weigh_all b s relevant []) _ h'' in
    let (chronological, genuine, held) = canonicalize_transfers_sound transfers e in
    subst (λ (c : WeightComputation). IsApplied end transfers c.applied_transfers)
      (ok-injective done)
      (record {
        chronological = keep-IsChronological _ deduped chronological;
        given = All-keep (λ u. Any (λ t. t ≡ u) transfers) _ deduped genuine;
        early = keep-early end deduped;
        complete = All-map_pred (kept_or_late end deduped) transfers held;
      })
