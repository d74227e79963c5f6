-- ===== src/Rialto/Preflight/Router.antt =====
-- What the checks of the router, of the unguarded reads and of the execution lock ask for.
use bps_protocol.Prelude.{
  ◌≡◌, ◌↔◌, ◌⊎◌, refl, subst, inl, inr, Bool, true, false, Option, none, some, List, [], ◌∷◌, ok,
  err, ◌>>=◌, >>=-eq-ok, Bool-cases, if◌then◌else◌,
}
use bps_protocol.Text.{Text, codes, text_eq_iff, to_lower_case}
use bps_protocol.Pod.Address.{zero_address}
use bps_protocol.Rialto.QuoteExecution.{same_lower}
use bps_protocol.Rialto.Settlement.{official_registry}
use bps_protocol.Rialto.Settlement.Evaluation.Passed.{IsSameLower}
use bps_protocol.Rialto.Preflight.{feature_id, Read, ChainReader, paused, owner_of, Viem, read_view}
use bps_protocol.Rialto.Preflight.Checks.{
  Entry, check, attempt, has_code, is_zero_or_dead, failed_check, router_hash_check, expected_hash,
  router_owner_check, router_check, lock_check, executor_check, sequencer_check, controller_check,
}
use bps_protocol.Rialto.Preflight.Passed.{
  IsCode, has_code_iff, no-IsCode_iff, IsLive, IsLive-iff, IsPassed, attempt_iff, branch_iff,
}
use bps_protocol.Rialto.Preflight.Parts.{HasCode}

-- All checks of a part passed, and what it hands on is true.
abbrev pub IsAllPassed : List Entry × Bool → Type 0
IsAllPassed r = IsPassed r.0 × (r.1 ≡ true)

-- The registry names a router for the feature, which is neither zero nor dead, and whose code has
-- the expected hash.
abbrev pub IsPinnedRouter : Viem → ChainReader → Option Text → Type 0
IsPinnedRouter viem reader expected =
    (router : Text) × (read_view viem reader official_registry (owner_of feature_id) ≡ ok router)
    × (IsLive router
        × ((code : Text) × (reader.get_code router ≡ ok code)
            × (IsCode code × IsSameLower (viem.keccak256 code) (expected_hash expected))))

router_owner_iff :
    (viem : Viem) (reader : ChainReader) (expected router : Text)
    → IsAllPassed (router_owner_check viem reader expected router)
      ↔ IsLive router
        × ((code : Text) × (reader.get_code router ≡ ok code)
            × (IsCode code × IsSameLower (viem.keccak256 code) expected))
router_owner_iff viem reader expected router =
    let hashed =
      attempt_iff IsAllPassed
        (λ code. (has_code code ≡ true) × IsSameLower (viem.keccak256 code) expected)
        (reader.get_code router) (failed_check (codes "router-owner"), false)
        (router_hash_check viem expected) (λ h. let e = h.1 in cc)
        (λ code.
          let same = text_eq_iff (to_lower_case (viem.keccak256 code)) (to_lower_case expected) in
          branch_iff IsAllPassed (has_code code) _ _ (λ h. let e = h.1 in cc)
            (λ h. same.0 h.1, λ h. ((same.1 h, tt), same.1 h))) in
    let live = IsLive-iff router in
    elim (Bool-cases (is_zero_or_dead router)) [
      | inl dead ↦
          rw dead ((λ h. absurd (let e = h.1 in cc), λ h. absurd (let e = live.1 h.0 in cc)))
      | inr alive ↦ rw alive (
          (
            (λ h.
                let (code, e, (c, s)) = hashed.0 (h.0.1, h.1) in
                (live.0 alive, (code, e, ((has_code_iff code).0 c, s)))),
            (λ h.
                let (code, e, (c, s)) = h.1 in
                let k = hashed.1 (code, e, ((has_code_iff code).1 c, s)) in ((refl, k.0), k.1)),
          ))
    ]

pub router_check_iff :
    (viem : Viem) (reader : ChainReader) (expected : Option Text)
    → IsAllPassed (router_check viem reader expected) ↔ IsPinnedRouter viem reader expected
unfolding router_check
router_check_iff viem reader expected =
    attempt_iff IsAllPassed _ _ _ _ (λ h. let e = h.1 in cc)
      (router_owner_iff viem reader (expected_hash expected))

-- The executor, where there is one, has no code or reads as paused.
abbrev pub IsLocked : Viem → ChainReader → Option Text → Type 0
IsLocked viem reader none = Unit
IsLocked viem reader (some executor) =
    (code : Text) × (reader.get_code executor ≡ ok code)
    × ((¬ IsCode code) ⊎ (read_view viem reader executor paused ≡ ok true))

paused_iff : (m : Read Bool) → IsAllPassed (attempt m (lock_check false) lock_check) ↔ (m ≡ ok true)
paused_iff (ok true) = (λ h. refl, λ h. ((refl, tt), refl))
paused_iff (ok false) = (λ h. absurd (let e = h.1 in cc), λ h. absurd cc)
paused_iff (err e) = (λ h. absurd (let f = h.1 in cc), λ h. absurd cc)

code_or_paused_iff :
    (present : Bool) (m : Read Bool)
    → IsAllPassed (if present then attempt m (lock_check false) lock_check else lock_check true)
      ↔ (present ≡ false) ⊎ (m ≡ ok true)
code_or_paused_iff true m =
    let same = paused_iff m in
    (λ h. inr (same.0 h), λ h. elim h [ inl e ↦ absurd cc | inr e ↦ same.1 e ])
code_or_paused_iff false m = (λ h. inl refl, λ h. ((refl, tt), refl))

pub executor_check_iff :
    (viem : Viem) (reader : ChainReader) (executor : Option Text)
    → IsAllPassed (executor_check viem reader executor) ↔ IsLocked viem reader executor
unfolding executor_check
executor_check_iff viem reader none = (λ h. tt, λ h. ((refl, tt), refl))
executor_check_iff viem reader (some executor) =
    attempt_iff IsAllPassed
      (λ code. (¬ IsCode code) ⊎ (read_view viem reader executor paused ≡ ok true))
      (reader.get_code executor) (lock_check false) _ (λ h. let e = h.1 in cc)
      (λ code.
        let known = code_or_paused_iff (has_code code) (read_view viem reader executor paused) in
        let none_there = no-IsCode_iff code in
        (
          (λ h. elim (known.0 h) [ inl e ↦ inl (none_there.0 e) | inr e ↦ inr e ]),
          (λ h. elim h [ inl e ↦ known.1 (inl (none_there.1 e)) | inr e ↦ known.1 (inr e) ]),
        ))

-- The read came to a log all of whose checks passed.
abbrev pub ReadsPassed : Read (List Entry) → Type 0
ReadsPassed m = (es : List Entry) × (m ≡ ok es) × IsPassed es

failed_reads : (id : Text) (rest : List Entry) → ¬ ReadsPassed (ok (check id false ∷ rest))
failed_reads id rest h =
    let (es, e, p) = h in
    let same : es ≡ check id false ∷ rest = cc in let f = (subst IsPassed same p).0 in cc

-- A read that no `try` guards, and the check of its code.
unguarded_iff :
    (reader : ChainReader) (id addr : Text)
    → ReadsPassed (reader.get_code addr >>= λ code. ok (check id (has_code code) ∷ []))
      ↔ HasCode reader addr
unguarded_iff reader id addr = (
  (λ h.
      let (es, e, p) = h in
      let (code, found, made) =
        >>=-eq-ok (reader.get_code addr) (λ code. ok (check id (has_code code) ∷ [])) e in
      let same : es ≡ check id (has_code code) ∷ [] = cc in
      (code, found, (has_code_iff code).0 (subst IsPassed same p).0)),
  (λ h.
      let (code, found, present) = h in
      (check id (has_code code) ∷ [], rw found refl, ((has_code_iff code).1 present, tt))),
)

-- No sequencer feed is configured, or there is code at it.
abbrev pub IsSequencer : ChainReader → Text → Type 0
IsSequencer reader feed = IsSameLower feed zero_address ⊎ HasCode reader feed

pub sequencer_check_iff :
    (reader : ChainReader) (feed : Text)
    → ReadsPassed (sequencer_check reader feed) ↔ IsSequencer reader feed
unfolding sequencer_check
sequencer_check_iff reader feed =
    let same = text_eq_iff (to_lower_case feed) (to_lower_case zero_address) in
    let found = unguarded_iff reader (codes "sequencer-policy") feed in
    elim (Bool-cases (same_lower feed zero_address)) [
      | inl e ↦ rw e ((λ h. inl (same.0 e), λ h. (_, refl, (refl, tt))))
      | inr e ↦ rw e (
          (
            (λ h. inr (found.0 h)),
            (λ h. elim h [ inl k ↦ absurd (let f = same.1 k in cc) | inr k ↦ found.1 k ]),
          ))
    ]

-- A controller is supplied, neither zero nor dead, and there is code at it.
abbrev pub IsController : ChainReader → Option Text → Type 0
IsController reader none = ⊥
IsController reader (some controller) = IsLive controller × HasCode reader controller

pub controller_check_iff :
    (reader : ChainReader) (controller : Option Text)
    → ReadsPassed (controller_check reader controller) ↔ IsController reader controller
unfolding controller_check
controller_check_iff reader none = (λ h. absurd (failed_reads _ _ h), λ h. absurd h)
controller_check_iff reader (some controller) =
    let found = unguarded_iff reader (codes "controller") controller in
    let live = IsLive-iff controller in
    elim (Bool-cases (is_zero_or_dead controller)) [
      | inl e ↦ rw e ((λ h. absurd (failed_reads _ _ h), λ h. absurd (let f = live.1 h.0 in cc)))
      | inr e ↦ rw e ((λ h. (live.0 e, found.0 h), λ h. found.1 h.1))
    ]
