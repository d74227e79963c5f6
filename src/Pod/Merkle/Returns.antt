-- ===== src/Pod/Merkle/Returns.antt =====
-- When `buildMerkle` does not throw.
use bps_protocol.Prelude.{◌<◌}
use bps_protocol.Text.{Text}
use bps_protocol.Text.Separator.{IsFree}
use bps_protocol.Pod.Model.{Entitlement}

-- A positive amount for a wallet in whose text the key's separator does not stand.
abbrev pub IsPayable : Entitlement → Type 0
IsPayable e = (0 < e.amount) × IsFree b'|' e.wallet
