-- ===== src/Pod/Transfers.antt =====
-- `canonicalizeTransfers` of twab.ts: the confirmed transfers without duplicates, in chain order.
pub mod Places
pub mod Canonical
pub mod Replay
use bps_protocol.Prelude.{
  ℕ, ◌+◌, ◌≡◌, Bool, true, false, not, ◌&&◌, Option, none, some, List, [], ◌∷◌, ◌++◌, map, arith,
  ltb, ◌==◌, if◌then◌else◌, ok, err, ◌>>=◌, ◌>>◌, fail_if,
}
use bps_protocol.Text.{Text, codes, text_eq}
use bps_protocol.Order.{sort_by}
use bps_protocol.Dict.{Dict, get, put}
use bps_protocol.Pod.Fault.{Result, conflicting_log, ambiguous_order, nonmonotonic_timestamp}
use bps_protocol.Pod.Numeric.{to_decimal_string}
use bps_protocol.Pod.Model.{ConfirmedTransfer}

unfoldable pub identity : ConfirmedTransfer → Text
identity t =
    to_decimal_string t.chain_id
    ++ (b'|' ∷ (t.transaction_hash ++ (b'|' ∷ to_decimal_string t.log_index)))

unfoldable pub same_transfer : ConfirmedTransfer → ConfirmedTransfer → Bool
same_transfer a b =
    a.block_number == b.block_number
    && text_eq a.block_hash b.block_hash
    && a.transaction_index == b.transaction_index
    && a.timestamp == b.timestamp
    && text_eq a.sender b.sender
    && text_eq a.recipient b.recipient
    && a.raw_amount == b.raw_amount

-- The sign of a comparator: less, equal, greater.
pub data Sign : Type 0 where
  minus nought plus : Sign

unfoldable pub compare_canonical : ConfirmedTransfer → ConfirmedTransfer → Sign
compare_canonical a b =
    if not (a.block_number == b.block_number)
    then (if ltb a.block_number b.block_number then minus else plus)
    else if not (a.transaction_index == b.transaction_index)
    then (if ltb a.transaction_index b.transaction_index then minus else plus)
    else if not (a.log_index == b.log_index)
    then (if ltb a.log_index b.log_index then minus else plus)
    else nought

abbrev pub before : ConfirmedTransfer → ConfirmedTransfer → Bool
before a b = elim (compare_canonical a b) [ minus ↦ true | _ ↦ false ]

abbrev pub same_place : ConfirmedTransfer → ConfirmedTransfer → Bool
same_place a b = elim (compare_canonical a b) [ nought ↦ true | _ ↦ false ]

-- One round of the first loop: `m` is `byIdentity`.
unfoldable pub dedupe_step :
    Dict ConfirmedTransfer → ConfirmedTransfer → Result (Dict ConfirmedTransfer)
dedupe_step m t = elim (get m (identity t)) [
  | some existing ↦ if same_transfer existing t then ok m else err conflicting_log
  | none ↦ ok (put m (identity t) t)
]

unfoldable pub dedupe :
    Dict ConfirmedTransfer → List ConfirmedTransfer → Result (Dict ConfirmedTransfer)
dedupe m [] = ok m
dedupe m (t ∷ ts) = dedupe_step m t >>= λ m'. dedupe m' ts

-- The second loop, over the neighbours `prev` and `cur`.
unfoldable pub check_order : List ConfirmedTransfer → Result (Unit {0})
check_order [] = ok tt
check_order (prev ∷ []) = ok tt
check_order (prev ∷ cur ∷ rest) = do
  fail_if (same_place prev cur) ambiguous_order
  fail_if (ltb cur.timestamp prev.timestamp) nonmonotonic_timestamp
  check_order (cur ∷ rest)

unfoldable pub canonicalize_transfers : List ConfirmedTransfer → Result (List ConfirmedTransfer)
canonicalize_transfers transfers = do
  m ← dedupe [] transfers
  let deduped = sort_by before (map (λ e. e.1) m)
  check_order deduped
  ok deduped
