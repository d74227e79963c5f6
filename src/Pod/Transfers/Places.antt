-- ===== src/Pod/Transfers/Places.antt =====
-- What the tests of `canonicalizeTransfers` on two transfers decide: the same log, the same fields,
-- and which stands first on the chain.
use bps_protocol.Prelude.{◌<◌, ◌≡◌, ◌↔◌, ◌⊎◌, true, ◌∷◌, ◌++◌, arith}
use bps_protocol.Text.{text_eq_iff}
use bps_protocol.Text.Separator.{split_unit, split_last_unit}
use bps_protocol.Pod.Numeric.{to_decimal_string}
use bps_protocol.Pod.Numeric.Decimal.{to_decimal_string-injective, decimal-IsFree}
use bps_protocol.Pod.Model.{ConfirmedTransfer}
use bps_protocol.Pod.Transfers.{identity, same_transfer, compare_canonical, before}

-- One log of one transaction on one chain.
abbrev pub IsSameLog : ConfirmedTransfer → ConfirmedTransfer → Type 0
IsSameLog a b =
    (a.chain_id ≡ b.chain_id)
    × (a.transaction_hash ≡ b.transaction_hash)
    × (a.log_index ≡ b.log_index)

-- The identity is the text of these three, and of nothing else.
pub identity_iff : (a b : ConfirmedTransfer) → identity a ≡ identity b ↔ IsSameLog a b
unfolding identity
identity_iff a b = (
  (λ e.
      let (chain, rest) =
        split_unit b'|' (to_decimal_string a.chain_id) (to_decimal_string b.chain_id)
          (a.transaction_hash ++ (b'|' ∷ to_decimal_string a.log_index))
          (b.transaction_hash ++ (b'|' ∷ to_decimal_string b.log_index)) (decimal-IsFree a.chain_id)
          (decimal-IsFree b.chain_id) e in
      let (hash, log) =
        split_last_unit b'|' a.transaction_hash b.transaction_hash (to_decimal_string a.log_index)
          (to_decimal_string b.log_index) (decimal-IsFree a.log_index) (decimal-IsFree b.log_index)
          rest in
      (
        to_decimal_string-injective a.chain_id b.chain_id chain,
        hash,
        to_decimal_string-injective a.log_index b.log_index log,
      )),
  (λ h. cc (h.0, h.1, h.2)),
)

-- Two transfers with the same block, transaction index, time, parties and amount.
abbrev pub Agrees : ConfirmedTransfer → ConfirmedTransfer → Type 0
Agrees a b =
    (a.block_number ≡ b.block_number)
    × (a.block_hash ≡ b.block_hash)
    × (a.transaction_index ≡ b.transaction_index)
    × (a.timestamp ≡ b.timestamp)
    × (a.sender ≡ b.sender)
    × (a.recipient ≡ b.recipient)
    × (a.raw_amount ≡ b.raw_amount)

pub same_transfer_iff : (a b : ConfirmedTransfer) → same_transfer a b ≡ true ↔ Agrees a b
unfolding same_transfer
same_transfer_iff a b =
    let hash = text_eq_iff a.block_hash b.block_hash in
    let sender = text_eq_iff a.sender b.sender in
    let recipient = text_eq_iff a.recipient b.recipient in
    (
      (λ h. (
        ground arith,
        hash.0 (ground arith),
        ground arith,
        ground arith,
        sender.0 (ground arith),
        recipient.0 (ground arith),
        ground arith,
      )),
      (λ h. let (n, bh, i, t, s, r, m) = h in ground (arith, hash.1 bh, sender.1 s, recipient.1 r)),
    )

-- In an earlier block; in one block, at a lower index of the transaction; in one transaction, at a
-- lower index of the log.
abbrev pub IsEarlier : ConfirmedTransfer → ConfirmedTransfer → Type 0
IsEarlier a b =
    (a.block_number < b.block_number)
    ⊎ ((a.block_number ≡ b.block_number)
        × ((a.transaction_index < b.transaction_index)
            ⊎ ((a.transaction_index ≡ b.transaction_index) × (a.log_index < b.log_index))))

pub before_iff : (a b : ConfirmedTransfer) → before a b ≡ true ↔ IsEarlier a b
unfolding compare_canonical
before_iff a b = (λ h. ground arith, λ h. ground arith)
