-- ===== src/Rialto/Preflight/Passed.antt =====
-- When all checks of a log passed, by the way the log was written.
use bps_protocol.Prelude.{
  ◌≢◌, inl, inr, Bool-cases, ℕ, ◌≡◌, ◌↔◌, refl, subst, Bool, true, false, not, List, [], ◌∷◌, ◌++◌,
  keep, arith, ◌==◌, if◌then◌else◌, ok, err,
}
use bps_protocol.Text.{Text, codes, text_eq, text_eq_iff, to_lower_case}
use bps_protocol.Rialto.Preflight.{Read}
use bps_protocol.Pod.Address.{zero_address}
use bps_protocol.Rialto.QuoteExecution.{same_lower}
use bps_protocol.Rialto.Settlement.{dead_address}
use bps_protocol.Rialto.Settlement.Evaluation.Passed.{IsSameLower, either_false_iff}
use bps_protocol.Rialto.Preflight.Checks.{
  has_code, is_zero_or_dead, Entry, check, raised, attempt, failed_check,
}
use bps_protocol.Rialto.Preflight.Evaluation.{checks_of, failed_of}

-- Every check of the log is ok.
abbrev pub IsPassed : List Entry → Type 0
IsPassed [] = Unit
IsPassed (check id passed ∷ es) = (passed ≡ true) × IsPassed es
IsPassed (raised f ∷ es) = IsPassed es

pub IsPassed-append_iff :
    {P Q : Type 0} (es fs : List Entry)
    → (IsPassed es ↔ P)
    → (IsPassed fs ↔ Q)
    → IsPassed (es ++ fs) ↔ P × Q
IsPassed-append_iff [] fs p q = (λ h. (p.0 tt, q.0 h), λ h. q.1 h.1)
IsPassed-append_iff {P} {Q} (check id passed ∷ es) fs p q =
    let rest = IsPassed-append_iff es fs (λ h. h, λ h. h) q in
    (
      (λ h. let k = rest.0 h.1 in (p.0 (h.0, k.0), k.1)),
      (λ h. let k = p.1 h.0 in (k.0, rest.1 (k.1, h.1))),
    )
IsPassed-append_iff (raised f ∷ es) fs p q = IsPassed-append_iff es fs p q

-- The log has no failed check exactly when the report names none.
pub failed_of-checks_of_iff : (es : List Entry) → failed_of (checks_of es) ≡ [] ↔ IsPassed es
unfolding failed_of checks_of keep
failed_of-checks_of_iff [] = (λ h. tt, λ h. refl)
failed_of-checks_of_iff (check id true ∷ es) =
    let rest = failed_of-checks_of_iff es in (λ h. (refl, rest.0 h), λ h. rest.1 h.1)
failed_of-checks_of_iff (check id false ∷ es) = (λ h. absurd cc, λ h. absurd (let e = h.0 in cc))
failed_of-checks_of_iff (raised f ∷ es) = failed_of-checks_of_iff es

pub failed_check_fails : (id : Text) → ¬ IsPassed (failed_check id)
failed_check_fails id h = let e = h.0 in cc

-- A `try` block whose handler fails the check: the read came to a value, and the rest holds.
pub attempt_iff :
    {A B : Type 0} (P : B → Type 0) (Q : A → Type 0) (m : Read A) (caught : B) (k : A → B)
    → ¬ P caught
    → ((a : A) → P (k a) ↔ Q a)
    → P (attempt m caught k) ↔ (a : A) × (m ≡ ok a) × Q a
attempt_iff P Q (ok a) caught k bad each = (
  (λ h. (a, refl, (each a).0 h)),
  (λ h. let (b, e, q) = h in let same : b ≡ a = cc in (each a).1 (subst Q same q)),
)
attempt_iff P Q (err e) caught k bad each =
    (λ h. absurd (bad h), λ h. absurd (let (b, f, q) = h in cc))

pub branch_iff :
    {B Q : Type 0} (P : B → Type 0) (test : Bool) (x y : B)
    → ¬ P y
    → (P x ↔ Q)
    → P (if test then x else y) ↔ (test ≡ true) × Q
branch_iff P true x y bad same = (λ h. (refl, same.0 h), λ h. same.1 h.1)
branch_iff P false x y bad same = (λ h. absurd (bad h), λ h. absurd (let e = h.0 in cc))

-- A read whose value is compared with the expected one.
pub exact_iff :
    {A Q : Type 0} (m : Read A) (test : A → Bool) (n : A)
    → ((a : A) → test a ≡ true ↔ a ≡ n)
    → ((a : A) × (m ≡ ok a) × ((test a ≡ true) × Q)) ↔ (m ≡ ok n) × Q
exact_iff m test n tests = (
  (λ h. let (a, e, (t, q)) = h in let same : a ≡ n = (tests a).0 t in (cc, q)),
  (λ h. (n, h.0, ((tests n).1 refl, h.1))),
)

pub exact_read_iff :
    {A Q : Type 0} (m : Read A) (failed : List Entry) (id : Text) (test : A → Bool) (n : A)
    (rest : List Entry)
    → ¬ IsPassed failed
    → ((a : A) → test a ≡ true ↔ a ≡ n)
    → (IsPassed rest ↔ Q)
    → IsPassed (attempt m failed (λ a. check id (test a) ∷ rest)) ↔ (m ≡ ok n) × Q
exact_read_iff {A} {Q} m failed id test n rest bad tests same =
    let read =
      attempt_iff IsPassed (λ a. (test a ≡ true) × Q) m failed _ bad
        (λ a. (λ h. (h.0, same.0 h.1), λ h. (h.0, same.1 h.1))) in
    let exact = exact_iff {Q = Q} m test n tests in
    (λ h. exact.0 (read.0 h), λ h. read.1 (exact.1 h))

pub equal_iff : (n a : ℕ) → (a == n) ≡ true ↔ a ≡ n
equal_iff n a = (λ h. ground arith, λ h. ground arith)

pub not-true_iff : (b : Bool) → not b ≡ true ↔ b ≡ false
not-true_iff true = (λ h. absurd cc, λ h. absurd cc)
not-true_iff false = (λ h. refl, λ h. refl)

-- Some runtime code: neither the empty text nor that of no code.
abbrev pub IsCode : Text → Type 0
IsCode code = (code ≢ []) × (code ≢ codes "0x")

pub has_code_iff : (code : Text) → has_code code ≡ true ↔ IsCode code
unfolding has_code
has_code_iff [] = (λ h. absurd cc, λ h. absurd (h.0 refl))
has_code_iff (c ∷ cs) =
    let bare = text_eq_iff (c ∷ cs) (codes "0x") in
    elim (Bool-cases (text_eq (c ∷ cs) (codes "0x"))) [
      | inl e ↦ rw e ((λ h. absurd cc, λ h. absurd (h.1 (bare.0 e))))
      | inr e ↦ rw e (((λ h. ((λ k. absurd cc), (λ k. let f = bare.1 k in cc))), (λ h. refl)))
    ]

pub no-IsCode_iff : (code : Text) → has_code code ≡ false ↔ ¬ IsCode code
no-IsCode_iff code =
    let some_code = has_code_iff code in
    (
      (λ h k. let e = some_code.1 k in cc),
      (λ h. elim (Bool-cases (has_code code)) [ inl e ↦ absurd (h (some_code.0 e)) | inr e ↦ e ]),
    )

-- Neither the zero nor the dead address, in whatever case.
abbrev pub IsLive : Text → Type 0
IsLive a = (¬ IsSameLower a zero_address) × (¬ IsSameLower a dead_address)

pub apart_iff : (a b : Text) → same_lower a b ≡ false ↔ ¬ IsSameLower a b
apart_iff a b =
    let same = text_eq_iff (to_lower_case a) (to_lower_case b) in
    (
      (λ h k. let e = same.1 k in cc),
      (λ h. elim (Bool-cases (same_lower a b)) [ inl e ↦ absurd (h (same.0 e)) | inr e ↦ e ]),
    )

pub IsLive-iff : (a : Text) → is_zero_or_dead a ≡ false ↔ IsLive a
unfolding is_zero_or_dead
IsLive-iff a = either_false_iff _ _ (apart_iff a zero_address) (apart_iff a dead_address)

-- A part of a log, and what it asks for.
pub record Part : Type 1 where
  pub entries : List Entry
  pub asks : Type 0
  pub passed_iff : IsPassed entries ↔ asks

-- A part that asks for its checks.
abbrev pub plain : List Entry → Part
plain es = record { entries = es; asks = IsPassed es; passed_iff = (λ h. h, λ h. h) }

abbrev pub part : {P : Type 0} (es : List Entry) → (IsPassed es ↔ P) → Part
part {P} es same = record { entries = es; asks = P; passed_iff = same }

infixl 30 ◌followed_by◌
abbrev pub ◌followed_by◌ : Part → Part → Part
p followed_by q = record {
  entries = p.entries ++ q.entries;
  asks = p.asks × q.asks;
  passed_iff = IsPassed-append_iff p.entries q.entries p.passed_iff q.passed_iff;
}
