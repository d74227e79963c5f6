-- ===== src/Rialto/Preflight/Raised.antt =====
-- The flags of a report are those that its log raises.
use bps_protocol.Prelude.{
  ◌≡◌, ◌↔◌, ◌⊎◌, refl, subst, inl, inr, true, List, [], ◌∷◌, ◌++◌, arith, Bool-cases,
}
use bps_protocol.Text.{Text, text_eq, text_eq_iff}
use bps_protocol.Rialto.Preflight.Checks.{Entry, check, raised}
use bps_protocol.Rialto.Preflight.Evaluation.{includes, flags_of}

-- The log raises the flag.
abbrev pub IsRaised : Text → List Entry → Type 0
IsRaised f [] = ⊥
IsRaised f (check id passed ∷ es) = IsRaised f es
IsRaised f (raised g ∷ es) = (g ≡ f) ⊎ IsRaised f es

IsRaised-append : (f : Text) (es fs : List Entry) → IsRaised f fs → IsRaised f (es ++ fs)
IsRaised-append f [] fs h = h
IsRaised-append f (check id passed ∷ es) fs h = IsRaised-append f es fs h
IsRaised-append f (raised g ∷ es) fs h = inr (IsRaised-append f es fs h)

IsRaised-append_left : (f : Text) (es fs : List Entry) → IsRaised f es → IsRaised f (es ++ fs)
IsRaised-append_left f [] fs h = absurd h
IsRaised-append_left f (check id passed ∷ es) fs h = IsRaised-append_left f es fs h
IsRaised-append_left f (raised g ∷ es) fs (inl h) = inl h
IsRaised-append_left f (raised g ∷ es) fs (inr h) = inr (IsRaised-append_left f es fs h)

-- What a middle part raises, the log raises.
pub IsRaised-inside :
    (f : Text) (es fs mid x y z : List Entry)
    → IsRaised f mid
    → IsRaised f (es ++ fs ++ mid ++ x ++ y ++ z)
IsRaised-inside f es fs mid x y z h =
    let found = IsRaised-append f (es ++ fs) mid h in
    let more = IsRaised-append_left f (es ++ fs ++ mid) x found in
    IsRaised-append_left f (es ++ fs ++ mid ++ x ++ y) z
      (IsRaised-append_left f (es ++ fs ++ mid ++ x) y more)

includes-append :
    (fs : List Text) (g f : Text)
    → includes (fs ++ (g ∷ [])) f ≡ true ↔ (includes fs f ≡ true) ⊎ (g ≡ f)
unfolding includes
includes-append [] g f =
    let same = text_eq_iff g f in
    (
      (λ h. inr (same.0 (ground arith))),
      (λ h. elim h [ inl e ↦ absurd cc | inr e ↦ ground (arith, same.1 e) ]),
    )
includes-append (k ∷ fs) g f =
    let rest = includes-append fs g f in
    elim (Bool-cases (text_eq k f)) [
      | inl e ↦ rw e ((λ h. inl refl, λ h. refl))
      | inr e ↦ rw e rest
    ]

-- The flags of a report are those that the log raises.
pub flags_of_iff :
    (f : Text) (fs : List Text) (es : List Entry)
    → includes (flags_of fs es) f ≡ true ↔ (includes fs f ≡ true) ⊎ IsRaised f es
unfolding flags_of
flags_of_iff f fs [] = (λ h. inl h, λ h. elim h [ inl e ↦ e | inr e ↦ absurd e ])
flags_of_iff f fs (check id passed ∷ es) = flags_of_iff f fs es
flags_of_iff f fs (raised g ∷ es) = elim (Bool-cases (includes fs g)) [
  | inl e ↦
      let rest = flags_of_iff f fs es in
      rw e (
        (
          (λ h. elim (rest.0 h) [ inl k ↦ inl k | inr k ↦ inr (inr k) ]),
          (λ h. elim h [
            | inl k ↦ rest.1 (inl k)
            | inr (inl k) ↦ rest.1 (inl (subst (λ t. includes fs t ≡ true) k e))
            | inr (inr k) ↦ rest.1 (inr k)
          ]),
        ))
  | inr e ↦
      let rest = flags_of_iff f (fs ++ (g ∷ [])) es in
      let added = includes-append fs g f in
      rw e (
        (
          (λ h. elim (rest.0 h) [
            | inl k ↦ elim (added.0 k) [ inl p ↦ inl p | inr p ↦ inr (inl p) ]
            | inr k ↦ inr (inr k)
          ]),
          (λ h. elim h [
            | inl k ↦ rest.1 (inl (added.1 (inl k)))
            | inr (inl k) ↦ rest.1 (inl (added.1 (inr k)))
            | inr (inr k) ↦ rest.1 (inr k)
          ]),
        ))
]
