-- ===== src/Rialto/Preflight/Honest.antt =====
-- What every report of the preflight keeps to.
use bps_protocol.Prelude.{
  ◌≡◌, ◌≢◌, ◌↔◌, ◌⊎◌, refl, subst, inl, inr, Bool, true, false, Option, none, some, List, [], ◌∷◌,
  ok, err, >>=-eq-ok, ok-injective, if◌then◌else◌,
}
use bps_protocol.Text.{Text}
use bps_protocol.Rialto.Preflight.{
  flag_controller_required, Read, ChainReader, Viem, CanaryPreflightConfig, paused, read_view,
}
use bps_protocol.Rialto.Preflight.Checks.{
  Entry, check, raised, attempt, has_code, lock_check, executor_check, sequencer_check,
  controller_check,
}
use bps_protocol.Rialto.Preflight.Evaluation.{
  canary_build_ready_execution_locked, CanaryReadinessReport, includes, report_of, chain_entries,
  policy_entries, qex1_entries, report_on, evaluate_canary_readiness,
}
use bps_protocol.Rialto.Preflight.Passed.{IsPassed, failed_of-checks_of_iff}
use bps_protocol.Rialto.Preflight.Raised.{IsRaised, IsRaised-inside, flags_of_iff}
use bps_protocol.Rialto.Preflight.Ready.{status_of_iff, log_parts}

-- The check of the lock passes only where the lock is on.
abbrev IsLockedIf : List Entry × Bool → Type 0
IsLockedIf r = IsPassed r.0 → r.1 ≡ true

attempt-IsLockedIf :
    {A : Type 0} (m : Read A) (caught : List Entry × Bool) (k : A → List Entry × Bool)
    → IsLockedIf caught
    → ((a : A) → IsLockedIf (k a))
    → IsLockedIf (attempt m caught k)
attempt-IsLockedIf (ok a) caught k failed each = each a
attempt-IsLockedIf (err e) caught k failed each = failed

branch-IsLockedIf :
    (test : Bool) (x y : List Entry × Bool)
    → IsLockedIf x
    → IsLockedIf y
    → IsLockedIf (if test then x else y)
branch-IsLockedIf true x y p q = p
branch-IsLockedIf false x y p q = q

executor_check-IsLockedIf :
    (viem : Viem) (reader : ChainReader) (executor : Option Text)
    → IsLockedIf (executor_check viem reader executor)
unfolding executor_check
executor_check-IsLockedIf viem reader none = λ h. refl
executor_check-IsLockedIf viem reader (some executor) =
    attempt-IsLockedIf (reader.get_code executor) (lock_check false) _ (λ h. h.0)
      (λ code.
        branch-IsLockedIf (has_code code) _ _
          (attempt-IsLockedIf (read_view viem reader executor paused) (lock_check false) lock_check
            (λ h. h.0) (λ b h. h.0))
          (λ h. refl))

-- The log of a report whose failed checks are none has passed.
report_on-passed :
    (viem : Viem) (reader : ChainReader) (config : CanaryPreflightConfig) (ss cs : List Entry)
    → (report_on viem reader config ss cs).failed ≡ []
    → (log_parts viem reader config ss cs).asks
unfolding report_of
report_on-passed viem reader config ss cs h =
    let log = log_parts viem reader config ss cs in
    log.passed_iff.0 ((failed_of-checks_of_iff log.entries).0 h)

report_on-ready :
    (viem : Viem) (reader : ChainReader) (config : CanaryPreflightConfig) (ss cs : List Entry)
    → (report_on viem reader config ss cs).status ≡ canary_build_ready_execution_locked
      ↔ (report_on viem reader config ss cs).failed ≡ []
unfolding report_of
report_on-ready viem reader config ss cs =
    let status =
      status_of_iff (report_on viem reader config ss cs).failed
        (executor_check viem reader config.executor).1 in
    (
      (λ h. (status.0 h).0),
      (λ h.
          let (((((p, s), c), y), x), q) = report_on-passed viem reader config ss cs h in
          status.1 (h, executor_check-IsLockedIf viem reader config.executor x)),
    )

-- A missing controller fails its check and raises its flag.
missing_controller :
    (reader : ChainReader) (cs : List Entry)
    → controller_check reader none ≡ ok cs
    → IsRaised flag_controller_required cs × (¬ IsPassed cs)
unfolding controller_check
missing_controller reader cs h =
    let same : check _ false ∷ raised flag_controller_required ∷ [] ≡ cs = ok-injective h in
    (
      subst (IsRaised flag_controller_required) same (inl refl),
      subst (λ es. ¬ IsPassed es) same (λ p. let e = p.0 in cc),
    )

-- A controller is configured, or the report names a failed check and flags its absence.
abbrev pub IsFlagged : Option Text → CanaryReadinessReport → Type 0
IsFlagged controller report =
    ((c : Text) × (controller ≡ some c))
    ⊎ ((includes report.flags flag_controller_required ≡ true) × (report.failed ≢ []))

report_on-IsFlagged :
    (viem : Viem) (reader : ChainReader) (config : CanaryPreflightConfig) (ss cs : List Entry)
    (controller : Option Text)
    → controller_check reader controller ≡ ok cs
    → IsFlagged controller (report_on viem reader config ss cs)
unfolding report_of
report_on-IsFlagged viem reader config ss cs (some c) h = inl (c, refl)
report_on-IsFlagged viem reader config ss cs none h =
    let (lifted, fails) = missing_controller reader cs h in
    let log = log_parts viem reader config ss cs in
    inr (
      (flags_of_iff flag_controller_required [] log.entries).1 (
          inr (
            IsRaised-inside flag_controller_required (chain_entries viem reader config) ss cs
              (policy_entries config) (executor_check viem reader config.executor).0
              (qex1_entries config) lifted)),
      (λ e.
          let (((((p, s), c), y), x), q) = report_on-passed viem reader config ss cs e in fails c),
    )

-- Every report that the evaluation of the preflight returns has the status that the build is ready
-- exactly when it names no failed check; and where no controller is configured, it names a failed
-- check and has the flag CONTROLLER_REQUIRED.
pub evaluate_canary_readiness-IsFlagged :
    (viem : Viem) (reader : ChainReader) (config : CanaryPreflightConfig)
    (report : CanaryReadinessReport)
    → evaluate_canary_readiness viem reader config ≡ ok report
    → (report.status ≡ canary_build_ready_execution_locked ↔ report.failed ≡ [])
      × IsFlagged config.controller report
unfolding evaluate_canary_readiness
evaluate_canary_readiness-IsFlagged viem reader config report e =
    let (ss, es, e') = >>=-eq-ok (sequencer_check reader config.sequencer_feed) _ e in
    let (cs, ec, e'') = >>=-eq-ok (controller_check reader config.controller) _ e' in
    let same : report_on viem reader config ss cs ≡ report = ok-injective e'' in
    subst
      (λ (r : CanaryReadinessReport).
        (r.status ≡ canary_build_ready_execution_locked ↔ r.failed ≡ [])
        × IsFlagged config.controller r)
      same
      (
        report_on-ready viem reader config ss cs,
        report_on-IsFlagged viem reader config ss cs config.controller ec,
      )
