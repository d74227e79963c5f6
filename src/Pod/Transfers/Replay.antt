-- ===== src/Pod/Transfers/Replay.antt =====
-- `canonicalizeTransfers` on logs that are delivered again, and on logs that contradict.
use bps_protocol.Prelude.{
  ◌≡◌, refl, sym, true, List, [], ◌∷◌, ◌++◌, arith, ok, err, ◌>>=◌, All, Any, All_at, inl, inr,
  Outcome-cases, subst, ap, ◌∙◌,
}
use bps_protocol.Text.{text_eq_iff}
use bps_protocol.Dict.{Dict, get}
use bps_protocol.Pod.Fault.{Code, Result, conflicting_log}
use bps_protocol.Pod.Model.{ConfirmedTransfer}
use bps_protocol.Pod.Transfers.{same_transfer, dedupe_step, dedupe, canonicalize_transfers}
use bps_protocol.Pod.Transfers.Places.{IsSameLog, identity_iff, Agrees, same_transfer_iff}
use bps_protocol.Pod.Transfers.Canonical.{Represents, dedupe-Represents}

dedupe_step-Represented :
    (m : Dict ConfirmedTransfer) (t : ConfirmedTransfer) → Represents m t → dedupe_step m t ≡ ok m
unfolding dedupe_step
dedupe_step-Represented m t (u, e, same) = ground arith

dedupe-Represented :
    (m : Dict ConfirmedTransfer) (ts : List ConfirmedTransfer)
    → All (Represents m) ts
    → dedupe m ts ≡ ok m
unfolding dedupe
dedupe-Represented m [] h = refl
dedupe-Represented m (t ∷ ts) h = rw (dedupe_step-Represented m t h.0) (dedupe-Represented m ts h.1)

dedupe-append :
    (m : Dict ConfirmedTransfer) (ts us : List ConfirmedTransfer)
    → dedupe m (ts ++ us) ≡ (dedupe m ts >>= λ n. dedupe n us)
unfolding dedupe
dedupe-append m [] us = refl
dedupe-append m (t ∷ ts) us = elim (Outcome-cases (dedupe_step m t)) [
  | inl (n, e) ↦ rw e (dedupe-append n ts us)
  | inr (c, e) ↦ rw e refl
]

All-represented :
    (m : Dict ConfirmedTransfer) (ts us : List ConfirmedTransfer)
    → All (Represents m) ts
    → All (λ u. Any (λ t. t ≡ u) ts) us
    → All (Represents m) us
All-represented m ts [] h k = tt
All-represented m ts (u ∷ us) h k =
    (All_at (Represents m) u ts h k.0, All-represented m ts us h k.1)

replayed :
    (ts us : List ConfirmedTransfer)
    → All (λ u. Any (λ t. t ≡ u) ts) us
    → dedupe [] (ts ++ us) ≡ dedupe [] ts
replayed ts us h = dedupe-append [] ts us ∙ split (dedupe [] ts) refl
  where
    split :
        (r : Result (Dict ConfirmedTransfer))
        → dedupe [] ts ≡ r
        → (dedupe [] ts >>= λ n. dedupe n us) ≡ dedupe [] ts
    split (ok m) e =
        rw e (dedupe-Represented m us (All-represented m ts us (dedupe-Represents [] m ts e) h))
    split (err c) e = rw e refl

-- Delivering again logs that were already delivered, in any order and any number of times,
-- changes nothing: the result is the same list or the same error.
pub canonicalize_transfers-replay :
    (ts us : List ConfirmedTransfer)
    → All (λ u. Any (λ t. t ≡ u) ts) us
    → canonicalize_transfers (ts ++ us) ≡ canonicalize_transfers ts
unfolding canonicalize_transfers
canonicalize_transfers-replay ts us h = rw (replayed ts us h)

dedupe-err :
    (m : Dict ConfirmedTransfer) (ts : List ConfirmedTransfer) {c : Code}
    → dedupe m ts ≡ err c
    → c ≡ conflicting_log
unfolding dedupe dedupe_step
dedupe-err m [] h = cc
dedupe-err m (t ∷ ts) h = elim (Outcome-cases (dedupe_step m t)) [
  | inl (n, e) ↦ dedupe-err n ts (rw e at h)
  | inr (c, e) ↦ ground arith
]

same_transfer_join :
    (a b c : ConfirmedTransfer)
    → same_transfer a b ≡ true
    → same_transfer a c ≡ true
    → same_transfer b c ≡ true
unfolding same_transfer
same_transfer_join a b c h k = ground (
  arith,
  text_eq_iff a.block_hash b.block_hash,
  text_eq_iff a.sender b.sender,
  text_eq_iff a.recipient b.recipient,
)

-- Two given transfers of one chain, transaction and log that differ in their block, transaction
-- index, time, parties or amount make it throw CONFLICTING_LOG.
pub canonicalize_transfers_conflict :
    (ts : List ConfirmedTransfer) (a b : ConfirmedTransfer)
    → Any (λ t. t ≡ a) ts
    → Any (λ t. t ≡ b) ts
    → IsSameLog a b
    → ¬ Agrees a b
    → canonicalize_transfers ts ≡ err conflicting_log
unfolding canonicalize_transfers
canonicalize_transfers_conflict ts a b in_a in_b log differ = split (dedupe [] ts) refl
  where
    split :
        (r : Result (Dict ConfirmedTransfer))
        → dedupe [] ts ≡ r
        → canonicalize_transfers ts ≡ err conflicting_log
    split (ok m) e =
        let all = dedupe-Represents [] m ts e in
        let (u, at_a, ua) = All_at (Represents m) a ts all in_a in
        let (v, at_b, vb) = All_at (Represents m) b ts all in_b in
        let same = (identity_iff a b).1 log in
        let one : u ≡ v = ground (arith, ap (get m) same) in
        absurd (
          differ (
            (same_transfer_iff a b).0
              (same_transfer_join u a b ua (subst (λ w. same_transfer w b ≡ true) (sym one) vb))))
    split (err c) e = rw (e, dedupe-err [] ts e)
