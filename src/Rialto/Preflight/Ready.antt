-- ===== src/Rialto/Preflight/Ready.antt =====
-- The preflight reports that the build is ready exactly when every fact it asks for holds.
use bps_protocol.Prelude.{
  ℕ, ◌≡◌, ◌↔◌, ◌∙◌, refl, ap, Bool, true, false, Option, List, [], ◌∷◌, arith, ok, ok-injective,
  >>=-eq-ok, &&_true,
}
use bps_protocol.Integer.{pos, ◌≤ℤ◌}
use bps_protocol.Text.{Text}
use bps_protocol.Rialto.Preflight.{
  canary_max_sell_weth, ChainReader, Viem, Limit, whole, between, unlimited, no_limit, age_ok,
  CanaryPreflightConfig,
}
use bps_protocol.Rialto.Preflight.Checks.{Entry, executor_check, sequencer_check, controller_check}
use bps_protocol.Rialto.Preflight.Evaluation.{
  canary_build_ready_execution_locked, CanaryReadinessReport, status_of, failed_of, checks_of,
  report_of, chain_entries, policy_entries, qex1_entries, report_on, evaluate_canary_readiness,
}
use bps_protocol.Rialto.Preflight.Passed.{
  IsPassed, Part, plain, ◌followed_by◌, failed_of-checks_of_iff,
}
use bps_protocol.Rialto.Preflight.Chain.{IsChainReady, chain_entries_iff}
use bps_protocol.Rialto.Preflight.Router.{
  IsLocked, executor_check_iff, IsSequencer, sequencer_check_iff, IsController,
  controller_check_iff,
}

-- A feed's age limit that the policy allows.
abbrev pub IsAgeLimit : Limit → Type 0
IsAgeLimit (whole n) = (pos 1 ≤ℤ n) × (n ≤ℤ pos 900)
IsAgeLimit (between n) = ⊥
IsAgeLimit unlimited = ⊥
IsAgeLimit no_limit = ⊥

age_ok_iff : (limit : Limit) → age_ok limit ≡ true ↔ IsAgeLimit limit
unfolding age_ok
age_ok_iff (whole n) = (λ h. (ground arith, ground arith), λ h. ground arith)
age_ok_iff (between n) = (λ h. absurd cc, λ h. absurd h)
age_ok_iff unlimited = (λ h. absurd cc, λ h. absurd h)
age_ok_iff no_limit = (λ h. absurd cc, λ h. absurd h)

-- The cap and the age limits of the configuration.
abbrev pub IsPolicy : CanaryPreflightConfig → Type 0
IsPolicy config =
    ((pos 1 ≤ℤ config.canary_cap_wei) × (config.canary_cap_wei ≤ℤ canary_max_sell_weth))
    × (IsAgeLimit config.max_weth_feed_age_sec × IsAgeLimit config.max_nvda_feed_age_sec)

policy_entries_iff :
    (config : CanaryPreflightConfig) → IsPassed (policy_entries config) ↔ IsPolicy config
unfolding policy_entries
policy_entries_iff config =
    let w = age_ok_iff config.max_weth_feed_age_sec in
    let n = age_ok_iff config.max_nvda_feed_age_sec in
    (
      (λ h.
          let (a, (b, t)) = h in
          let both = &&_true _ _ b in ((ground arith, ground arith), (w.0 both.0, n.0 both.1))),
      (λ h. let (a, (c, d)) = h in (ground arith, (ground (arith, w.1 c, n.1 d), tt))),
    )

pub status_of_iff :
    (failed : List Text) (locked : Bool)
    → status_of failed locked ≡ canary_build_ready_execution_locked
      ↔ (failed ≡ []) × (locked ≡ true)
unfolding status_of
status_of_iff [] true = (λ h. (refl, refl), λ h. refl)
status_of_iff [] false = (λ h. absurd cc, λ h. absurd cc)
status_of_iff (f ∷ fs) locked = (λ h. absurd cc, λ h. absurd cc)

-- A report is ready when all its checks passed and the execution is locked.
report_of-status :
    (chain : Option ℕ) (locked : Bool) (es : List Entry)
    → (report_of chain locked es).status ≡ canary_build_ready_execution_locked
      ↔ IsPassed es × (locked ≡ true)
unfolding report_of
report_of-status chain locked es =
    let status = status_of_iff (failed_of (checks_of es)) locked in
    let passed = failed_of-checks_of_iff es in
    ((λ h. let k = status.0 h in (passed.0 k.0, k.1)), (λ h. status.1 (passed.1 h.0, h.1)))

-- The parts of the whole log, from what the two unguarded reads came to.
abbrev pub log_parts : Viem → ChainReader → CanaryPreflightConfig → List Entry → List Entry → Part
log_parts viem reader config ss cs =
    plain (chain_entries viem reader config)
    followed_by plain ss
    followed_by plain cs
    followed_by plain (policy_entries config)
    followed_by plain (executor_check viem reader config.executor).0
    followed_by plain (qex1_entries config)

-- Every fact that the preflight asks for.
pub record IsCanaryReady (viem : Viem) (reader : ChainReader) (config : CanaryPreflightConfig)
    : Type 0 where
  pub chain : IsChainReady viem reader config
  pub sequencer : IsSequencer reader config.sequencer_feed
  pub controller : IsController reader config.controller
  pub policy : IsPolicy config
  pub locked : IsLocked viem reader config.executor
  pub qex1_consumed : config.qex1_consumed ≡ true

-- The evaluation of the preflight returns a report with the status that the build is ready exactly
-- when: the chain is 4663; there is code at the registry; the registry names a router for feature
-- 2 that is neither zero nor dead and whose code has the expected hash; both tokens have code,
-- 18 decimals and their symbol; both price feeds have code, 8 decimals, their description and a
-- positive, complete round that is not in the future and within its age limit; the stock's
-- oracle is not paused; no sequencer feed is configured or it has code; a controller is supplied,
-- neither zero nor dead, with code; the cap is above 0 and at most 0.001 WETH, and the age limits
-- are whole, above 0 and at most 900 seconds; the executor is missing, has no code or is paused;
-- and QEX-1 is consumed.
pub evaluate_canary_readiness_iff :
    (viem : Viem) (reader : ChainReader) (config : CanaryPreflightConfig)
    → ((report : CanaryReadinessReport) × (evaluate_canary_readiness viem reader config ≡ ok report)
        × (report.status ≡ canary_build_ready_execution_locked))
      ↔ IsCanaryReady viem reader config
unfolding evaluate_canary_readiness
evaluate_canary_readiness_iff viem reader config =
    let chain = chain_entries_iff viem reader config in
    let sequencer = sequencer_check_iff reader config.sequencer_feed in
    let controller = controller_check_iff reader config.controller in
    let executor = executor_check_iff viem reader config.executor in
    let policy = policy_entries_iff config in
    (
      (λ h.
          let (report, e, status) = h in
          let (ss, es, e') = >>=-eq-ok (sequencer_check reader config.sequencer_feed) _ e in
          let (cs, ec, e'') = >>=-eq-ok (controller_check reader config.controller) _ e' in
          let made = (report_of-status _ _ _).0 (ap (λ r. r.status) (ok-injective e'') ∙ status) in
          let (((((p, s), c), y), x), q) =
            (log_parts viem reader config ss cs).passed_iff.0 made.0 in
          record {
            chain = chain.0 p;
            sequencer = sequencer.0 (ss, es, s);
            controller = controller.0 (cs, ec, c);
            policy = policy.0 y;
            locked = executor.0 (x, made.1);
            qex1_consumed = q.0;
          }),
      (λ r.
          let (ss, es, s) = sequencer.1 r.sequencer in
          let (cs, ec, c) = controller.1 r.controller in
          let x = executor.1 r.locked in
          let log =
            (log_parts viem reader config ss cs).passed_iff.1
              (((((chain.1 r.chain, s), c), policy.1 r.policy), x.0), (r.qex1_consumed, tt)) in
          (
            report_on viem reader config ss cs,
            rw es (rw ec refl),
            (report_of-status _ _ _).1 (log, x.1),
          )),
    )
