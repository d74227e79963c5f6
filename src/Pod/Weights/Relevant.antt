-- ===== src/Pod/Weights/Relevant.antt =====
-- The relevant wallets: none is twice in the set, and only they are weighed.
use bps_protocol.Prelude.{
  ◌≡◌, inl, inr, refl, true, List, [], ◌∷◌, arith, ok, All, All-of, Any, Bool-cases, >>=-eq-ok,
  subst, ℕ,
}
use bps_protocol.Text.{Text, text_eq, text_eq_iff}
use bps_protocol.Dict.{Dict, put, All-put, has, add}
use bps_protocol.Pod.Address.{zero_address}
use bps_protocol.Pod.Model.{ConfirmedTransfer, EpochStartBalance, LockRecord}
use bps_protocol.Pod.Weights.{
  Sums, WalletWeight, weigh, weigh_all, add_holders, add_party, add_parties, add_lockers,
}
use bps_protocol.Pod.Weights.Accrual.{IsDistinct, add-IsDistinct}

add_holders-IsDistinct :
    (s : List Text) (bs : List EpochStartBalance) → IsDistinct s → IsDistinct (add_holders s bs)
unfolding add_holders
add_holders-IsDistinct s [] h = h
add_holders-IsDistinct s (b ∷ bs) h =
    add_holders-IsDistinct (add s b.wallet) bs (add-IsDistinct s b.wallet h)

add_party-IsDistinct : (s : List Text) (a : Text) → IsDistinct s → IsDistinct (add_party s a)
add_party-IsDistinct s a h = elim (Bool-cases (text_eq a zero_address)) [
  | inl e ↦ rw e h
  | inr e ↦ rw e (add-IsDistinct s a h)
]

add_parties-IsDistinct :
    (s : List Text) (ts : List ConfirmedTransfer) → IsDistinct s → IsDistinct (add_parties s ts)
unfolding add_parties
add_parties-IsDistinct s [] h = h
add_parties-IsDistinct s (t ∷ ts) h =
    add_parties-IsDistinct (add_party (add_party s t.sender) t.recipient) ts
      (add_party-IsDistinct (add_party s t.sender) t.recipient (add_party-IsDistinct s t.sender h))

add_lockers-IsDistinct :
    (s : List Text) (ls : List LockRecord) → IsDistinct s → IsDistinct (add_lockers s ls)
unfolding add_lockers
add_lockers-IsDistinct s [] h = h
add_lockers-IsDistinct s (l ∷ ls) h =
    add_lockers-IsDistinct (add s l.wallet) ls (add-IsDistinct s l.wallet h)

-- The set of relevant wallets has none twice.
pub relevant-IsDistinct :
    (bs : List EpochStartBalance) (ts : List ConfirmedTransfer) (ls : List LockRecord)
    → IsDistinct (add_lockers (add_parties (add_holders [] bs) ts) ls)
relevant-IsDistinct bs ts ls =
    add_lockers-IsDistinct _ ls
      (add_parties-IsDistinct _ ts (add_holders-IsDistinct [] bs (empty-IsDistinct)))
  where
    empty-IsDistinct : IsDistinct []
    empty-IsDistinct = unfold has in λ w. refl

has-Any : (s : List Text) (w : Text) → Any (λ v. v ≡ w) s → has s w ≡ true
unfolding has
has-Any [] w h = absurd h
has-Any (v ∷ s) w (inl e) = ground (arith, (text_eq_iff v w).1 e)
has-Any (v ∷ s) w (inr m) = ground (arith, has-Any s w m)

-- Only wallets of the set are weighed, each by `weigh`.
abbrev pub IsWeighedIn : Dict ℕ → Sums → List Text → Text × WalletWeight → Type 0
IsWeighedIn b s set e = (weigh b s e.0 ≡ ok e.1) × (has set e.0 ≡ true)

weigh_all-each :
    (b : Dict ℕ) (s : Sums) (set ws : List Text) (m m' : Dict WalletWeight)
    → weigh_all b s ws m ≡ ok m'
    → All (λ w. has set w ≡ true) ws
    → All (IsWeighedIn b s set) m
    → All (IsWeighedIn b s set) m'
unfolding weigh_all
weigh_all-each b s set [] m m' e inside h =
    let same : m ≡ m' = ground arith in subst (All (IsWeighedIn b s set)) same h
weigh_all-each b s set (w ∷ ws) m m' e inside h =
    let (x, weighed, rest) = >>=-eq-ok (weigh b s w) _ e in
    weigh_all-each b s set ws (put m w x) m' rest inside.1
      (All-put (IsWeighedIn b s set) m w x (weighed, inside.0) h)

pub weigh_all-IsWeighedIn :
    (b : Dict ℕ) (s : Sums) (set : List Text) (m : Dict WalletWeight)
    → weigh_all b s set [] ≡ ok m
    → All (IsWeighedIn b s set) m
weigh_all-IsWeighedIn b s set m e =
    weigh_all-each b s set set [] m e (All-of _ set (λ w. has-Any set w)) tt
