-- ===== src/Pod/Weights/Balances.antt =====
-- The balances under `applyTransfer`: each wallet's own, and the sum of all.
use bps_protocol.Prelude.{ℕ, ◌+◌, ◌-◌, ◌≡◌, [], ◌∷◌, arith, if◌then◌else◌, ok, sum_of, >>=-eq-ok}
use bps_protocol.Text.{Text, text_eq, text_eq_iff}
use bps_protocol.Dict.{Dict, get, put, get_or, get-put}
use bps_protocol.Pod.Address.{zero_address}
use bps_protocol.Pod.Model.{ConfirmedTransfer}
use bps_protocol.Pod.Weights.{debit, credit, apply_transfer}

-- What a transfer takes from a wallet, and what it brings to it.
abbrev pub outgoing : ConfirmedTransfer → Text → ℕ
outgoing t w =
    if text_eq t.sender zero_address then 0 else if text_eq t.sender w then t.raw_amount else 0

abbrev pub incoming : ConfirmedTransfer → Text → ℕ
incoming t w =
    if text_eq t.recipient zero_address
    then 0
    else if text_eq t.recipient w
    then t.raw_amount
    else 0

-- The sum of all balances.
abbrev pub supply : Dict ℕ → ℕ
supply b = sum_of (λ e. e.1) b

supply-put : (b : Dict ℕ) (k : Text) (v : ℕ) → supply (put b k v) + get_or 0 b k ≡ supply b + v
unfolding get put
supply-put [] k v = omega arith
supply-put ((j, w) ∷ b) k v = ground (arith, supply-put b k v)

debit-balance :
    (b after : Dict ℕ) (t : ConfirmedTransfer) (w : Text)
    → debit b t.sender t.raw_amount ≡ ok after
    → get_or 0 after w + outgoing t w ≡ get_or 0 b w
unfolding debit
debit-balance b after t w h =
    ground
      (arith, get-put b t.sender w (get_or 0 b t.sender - t.raw_amount), text_eq_iff t.sender w)

credit-balance :
    (b : Dict ℕ) (t : ConfirmedTransfer) (w : Text)
    → get_or 0 (credit b t.recipient t.raw_amount) w ≡ get_or 0 b w + incoming t w
unfolding credit
credit-balance b t w = ground (
  arith,
  get-put b t.recipient w (get_or 0 b t.recipient + t.raw_amount),
  text_eq_iff t.recipient w,
)

-- After a transfer that is applied, the balance of every wallet has moved by what the transfer
-- brings to it and takes from it; the zero address has no balance that moves.
pub apply_transfer-balance :
    (b after : Dict ℕ) (t : ConfirmedTransfer) (w : Text)
    → apply_transfer b t ≡ ok after
    → get_or 0 after w + outgoing t w ≡ get_or 0 b w + incoming t w
unfolding apply_transfer
apply_transfer-balance b after t w h =
    let (mid, e, f) = >>=-eq-ok (debit b t.sender t.raw_amount) _ h in
    ground (arith, debit-balance b mid t w e, credit-balance mid t w)

-- A transfer keeps the supply, except that one from the zero address adds its amount, and one to
-- it takes its amount away.
pub apply_transfer-supply :
    (b after : Dict ℕ) (t : ConfirmedTransfer)
    → apply_transfer b t ≡ ok after
    → supply after + (if text_eq t.sender zero_address then 0 else t.raw_amount)
      ≡ supply b + (if text_eq t.recipient zero_address then 0 else t.raw_amount)
unfolding apply_transfer
apply_transfer-supply b after t h =
    let (mid, e, f) = >>=-eq-ok (debit b t.sender t.raw_amount) _ h in
    ground (
      arith,
      supply-put b t.sender (get_or 0 b t.sender - t.raw_amount),
      supply-put mid t.recipient (get_or 0 mid t.recipient + t.raw_amount),
    )
