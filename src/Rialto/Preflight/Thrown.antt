-- ===== src/Rialto/Preflight/Thrown.antt =====
-- When the evaluation of the preflight throws, and what a report that it returns keeps to.
use bps_protocol.Prelude.{
  ◌≡◌, ◌↔◌, ◌⊎◌, refl, inl, inr, Option, none, some, [], ◌∷◌, ok, err, ◌>>=◌, Bool-cases,
}
use bps_protocol.Text.{Text, codes}
use bps_protocol.Pod.Address.{zero_address}
use bps_protocol.Rialto.QuoteExecution.{same_lower}
use bps_protocol.Rialto.Preflight.{Read, ReadError, ChainReader, Viem, CanaryPreflightConfig}
use bps_protocol.Rialto.Preflight.Checks.{
  check, has_code, is_zero_or_dead, sequencer_check, controller_check,
}
use bps_protocol.Rialto.Preflight.Passed.{IsLive, IsLive-iff, apart_iff}
use bps_protocol.Rialto.Settlement.Evaluation.Passed.{IsSameLower}
use bps_protocol.Rialto.Preflight.Evaluation.{evaluate_canary_readiness}

abbrev pub Throws : {A : Type 0} → Read A → Type 0
Throws m = (e : ReadError) × (m ≡ err e)

-- A chain of reads throws where its first read throws, or the rest after a value.
Throws-iff :
    {A B P Q : Type 0} (m : Read A) (next : A → Read B)
    → (Throws m ↔ P)
    → ((a : A) → m ≡ ok a → Throws (next a) ↔ Q)
    → Throws (m >>= next) ↔ P ⊎ Q
Throws-iff (ok a) next first rest = (
  (λ h. inr ((rest a refl).0 h)),
  (λ h. elim h [ inl p ↦ absurd (let (e, f) = first.1 p in cc) | inr q ↦ (rest a refl).1 q ]),
)
Throws-iff (err e) next first rest = (λ h. inl (first.0 (e, refl)), λ h. (e, refl))

-- The check of code at an address, outside any `try`, throws where its read throws.
unguarded-Throws_iff :
    (m : Read Text) (id : Text)
    → Throws (m >>= λ code. ok (check id (has_code code) ∷ [])) ↔ Throws m
unguarded-Throws_iff (ok code) id =
    (λ h. let (e, f) = h in absurd cc, λ h. let (e, f) = h in absurd cc)
unguarded-Throws_iff (err e) id = (λ h. (e, refl), λ h. (e, refl))

-- A sequencer feed is configured, and the read of its code throws.
abbrev pub SequencerThrows : ChainReader → Text → Type 0
SequencerThrows reader feed = (¬ IsSameLower feed zero_address) × Throws (reader.get_code feed)

SequencerThrows-iff :
    (reader : ChainReader) (feed : Text)
    → Throws (sequencer_check reader feed) ↔ SequencerThrows reader feed
unfolding sequencer_check
SequencerThrows-iff reader feed =
    let read = unguarded-Throws_iff (reader.get_code feed) (codes "sequencer-policy") in
    let apart = apart_iff feed zero_address in
    elim (Bool-cases (same_lower feed zero_address)) [
      | inl e ↦ rw e ((λ h. let (f, g) = h in absurd cc, λ h. absurd (let f = apart.1 h.0 in cc)))
      | inr e ↦ rw e ((λ h. (apart.0 e, read.0 h), λ h. read.1 h.1))
    ]

-- A controller is supplied, neither zero nor dead, and the read of its code throws.
abbrev pub ControllerThrows : ChainReader → Option Text → Type 0
ControllerThrows reader none = ⊥
ControllerThrows reader (some controller) = IsLive controller × Throws (reader.get_code controller)

ControllerThrows-iff :
    (reader : ChainReader) (controller : Option Text)
    → Throws (controller_check reader controller) ↔ ControllerThrows reader controller
unfolding controller_check
ControllerThrows-iff reader none = (λ h. let (e, f) = h in absurd cc, λ h. absurd h)
ControllerThrows-iff reader (some controller) =
    let read = unguarded-Throws_iff (reader.get_code controller) (codes "controller") in
    let live = IsLive-iff controller in
    elim (Bool-cases (is_zero_or_dead controller)) [
      | inl e ↦ rw e ((λ h. let (f, g) = h in absurd cc, λ h. absurd (let f = live.1 h.0 in cc)))
      | inr e ↦ rw e ((λ h. (live.0 e, read.0 h), λ h. read.1 h.1))
    ]

-- The evaluation of the preflight throws exactly when the read of the sequencer feed's code
-- throws, where one is configured, or the read of the code of a controller throws that is neither
-- zero nor dead; whatever else the chain's reads throw, it returns a report.
pub evaluate_canary_readiness-Throws :
    (viem : Viem) (reader : ChainReader) (config : CanaryPreflightConfig)
    → Throws (evaluate_canary_readiness viem reader config)
      ↔ SequencerThrows reader config.sequencer_feed ⊎ ControllerThrows reader config.controller
unfolding evaluate_canary_readiness
evaluate_canary_readiness-Throws viem reader config =
    Throws-iff (sequencer_check reader config.sequencer_feed) _
      (SequencerThrows-iff reader config.sequencer_feed)
      (λ ss e.
        let read =
          Throws-iff {Q = ⊥} (controller_check reader config.controller) _
            (ControllerThrows-iff reader config.controller)
            (λ cs f. (λ h. let (x, g) = h in absurd cc, λ h. absurd h)) in
        (λ h. elim (read.0 h) [ inl p ↦ p | inr q ↦ absurd q ], λ p. read.1 (inl p)))
