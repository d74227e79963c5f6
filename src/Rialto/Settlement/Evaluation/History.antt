-- ===== src/Rialto/Settlement/Evaluation/History.antt =====
-- Replay over time: histories of settlements, each ready when it is made and then marked as used
-- up, between which others may mark digests and nonces in the store too.
use bps_protocol.Prelude.{
  ◌≡◌, ◌≢◌, refl, sym, subst, ◌∙◌, ap, true, Option, List, [], ◌∷◌, ◌++◌, arith, All, All-map_pred,
}
use bps_protocol.Integer.{ℤ}
use bps_protocol.Integer.Number.{JsNumber}
use bps_protocol.Text.{Text, codes, text_eq_iff, to_lower_case}
use bps_protocol.Dict.{has, has-add}
use bps_protocol.Pod.Address.{is_hex_address}
use bps_protocol.Rialto.Settlement.{SettlementIntent}
use bps_protocol.Rialto.Settlement.Digest.{join_bar, digest_parts, compute_intent_digest}
use bps_protocol.Rialto.Settlement.Digest.Injective.{HasSameFields, same_fields}
use bps_protocol.Rialto.Settlement.Store.{
  InMemoryReplayStore, as_replay_store, is_digest_consumed, is_nonce_used, mark_consumed, nonce_key,
}
use bps_protocol.Rialto.Settlement.Evaluation.{GuardedSettlementInput, evaluate_guarded_settlement}
use bps_protocol.Rialto.Settlement.Evaluation.Passed.{IsSameLower}
use bps_protocol.Rialto.Settlement.Evaluation.Quoted.{IsUnused}
use bps_protocol.Rialto.Settlement.Evaluation.Ready.{evaluate_guarded_settlement_iff}

-- The store, and the intents that were settled, the last one first.
pub record Ledger : Type 0 where
  pub store : InMemoryReplayStore
  pub settled : List SettlementIntent

module _ (sha256_hex : Text → Text) (date_seconds : Text → Option JsNumber) where
  pub data Step : Ledger → Ledger → Type 0 where
    settle :
        (l : Ledger) (input : GuardedSettlementInput)
        → input.replay_store ≡ as_replay_store l.store
        → (evaluate_guarded_settlement sha256_hex date_seconds input).ready ≡ true
        → Step l (record {
          store =
              mark_consumed l.store input.intent.intent_digest input.intent.taker
                input.intent.nonce;
          settled = input.intent ∷ l.settled;
        })
    consume :
        (l : Ledger) (digest taker : Text) (nonce : ℤ)
        → Step l (record l { store = mark_consumed l.store digest taker nonce })

  pub data Reach (start : Ledger) : Ledger → Type 0 where
    here : Reach start start
    next : {l m : Ledger} → Reach start l → Step l m → Reach start m

  -- Two intents that share no digest, no nonce of one taker, and not all the fields that the digest
  -- binds.
  pub record IsApart (i j : SettlementIntent) : Type 0 where
    pub digest : to_lower_case i.intent_digest ≢ to_lower_case j.intent_digest
    pub nonce : ¬ (IsSameLower i.taker j.taker × (i.nonce ≡ j.nonce))
    pub fields : ¬ HasSameFields i j

  abbrev pub ArePairwiseApart : List SettlementIntent → Type 0
  ArePairwiseApart [] = Unit
  ArePairwiseApart (i ∷ is) = All (λ j. IsApart i j) is × ArePairwiseApart is

  -- The digest is the intent's own, and the store has it and the nonce.
  pub record IsMarked (store : InMemoryReplayStore) (i : SettlementIntent) : Type 0 where
    pub own : IsSameLower (compute_intent_digest sha256_hex i) i.intent_digest
    pub digest : is_digest_consumed store i.intent_digest ≡ true
    pub nonce : is_nonce_used store i.taker i.nonce ≡ true

  mark_consumed_keeps :
      (store : InMemoryReplayStore) (digest taker : Text) (nonce : ℤ) (i : SettlementIntent)
      → IsMarked store i
      → IsMarked (mark_consumed store digest taker nonce) i
  unfolding mark_consumed is_digest_consumed is_nonce_used
  mark_consumed_keeps store digest taker nonce i h = record {
    own = h.own;
    digest = ground (
      arith,
      h.digest,
      has-add store.digests (to_lower_case digest) (to_lower_case i.intent_digest),
    );
    nonce =
        ground (
          arith,
          h.nonce,
          has-add store.nonces (nonce_key taker nonce) (nonce_key i.taker i.nonce),
        );
  }

  mark_consumed_marks :
      (store : InMemoryReplayStore) (i : SettlementIntent)
      → IsSameLower (compute_intent_digest sha256_hex i) i.intent_digest
      → IsMarked (mark_consumed store i.intent_digest i.taker i.nonce) i
  unfolding mark_consumed is_digest_consumed is_nonce_used
  mark_consumed_marks store i own =
      let d = to_lower_case i.intent_digest in
      let k = nonce_key i.taker i.nonce in
      record {
        own = own;
        digest = ground (arith, has-add store.digests d d, (text_eq_iff d d).1 refl);
        nonce = ground (arith, has-add store.nonces k k, (text_eq_iff k k).1 refl);
      }

  same_key :
      (i j : SettlementIntent)
      → IsSameLower i.taker j.taker × (i.nonce ≡ j.nonce)
      → nonce_key i.taker i.nonce ≡ nonce_key j.taker j.nonce
  unfolding nonce_key
  same_key i j h = rw (h.0, h.1) refl

  same_digest :
      (i j : SettlementIntent)
      → digest_parts i ≡ digest_parts j
      → compute_intent_digest sha256_hex i ≡ compute_intent_digest sha256_hex j
  unfolding compute_intent_digest
  same_digest i j h = ap (λ ps. codes "0x" ++ sha256_hex (join_bar ps)) h

  -- An intent that is unused is apart from one that is marked.
  unused-IsApart :
      (store : InMemoryReplayStore) (i j : SettlementIntent)
      → IsUnused sha256_hex i (as_replay_store store)
      → is_hex_address i.taker ≡ true
      → IsMarked store j
      → IsApart i j
  unfolding is_digest_consumed is_nonce_used
  unused-IsApart store i j u hex m =
      let differ : to_lower_case i.intent_digest ≢ to_lower_case j.intent_digest = λ e.
        let clash = ap (has store.digests) e in absurd (ground (arith, u.not_consumed, m.digest)) in
      record {
        digest = differ;
        nonce = λ e.
            let clash = ap (has store.nonces) (same_key i j e) in
            absurd (ground (arith, u.nonce, hex, m.nonce));
        fields = λ e.
            differ (sym u.digest ∙ ap to_lower_case (same_digest i j (same_fields i j e)) ∙ m.own);
      }

  -- All that was settled is marked, and pairwise apart.
  abbrev pub IsConsistent : Ledger → Type 0
  IsConsistent l = All (λ j. IsMarked l.store j) l.settled × ArePairwiseApart l.settled

  Step-IsConsistent : {l m : Ledger} → Step l m → IsConsistent l → IsConsistent m
  Step-IsConsistent (consume l digest taker nonce) (marked, apart) =
      (All-map_pred (mark_consumed_keeps l.store digest taker nonce) l.settled marked, apart)
  Step-IsConsistent (settle l input store ready) (marked, apart) =
      let i = input.intent in
      let r = (evaluate_guarded_settlement_iff sha256_hex date_seconds input).0 ready in
      let unused = subst (λ s. IsUnused sha256_hex i s) store r.unused in
      let (t, resolved, hex, canary, is_address, same) = r.taker in
      (
        (
          mark_consumed_marks l.store i unused.digest,
          All-map_pred (mark_consumed_keeps l.store i.intent_digest i.taker i.nonce) l.settled
              marked,
        ),
        (All-map_pred (λ j. unused-IsApart l.store i j unused is_address) l.settled marked, apart),
      )

  -- In any history that starts with nothing settled, from any store, in which each settled intent
  -- was ready at its time and others may mark what they like, no two settled intents share their
  -- digest in whatever case, a nonce of one taker, or all the fields that the digest binds; and the
  -- digest and the nonce of each settled intent stay used up.
  pub Reach-IsConsistent : {l m : Ledger} → l.settled ≡ [] → Reach l m → IsConsistent m
  Reach-IsConsistent {l} empty here =
      subst (λ is. All (λ j. IsMarked l.store j) is × ArePairwiseApart is) (sym empty) (tt, tt)
  Reach-IsConsistent empty (next r s) = Step-IsConsistent s (Reach-IsConsistent empty r)
