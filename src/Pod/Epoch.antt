-- ===== src/Pod/Epoch.antt =====
-- epoch.ts: epochs of 900 seconds.
use bps_protocol.Prelude.{ℕ, ◌+◌, ◌*◌, ◌/◌, ◌≤◌, ◌<◌, ◌≡◌, ◌↔◌, arith}

abbrev pub epoch_seconds : ℕ
epoch_seconds = 900

pub record EpochBounds : Type 0 where
  pub epoch_id : ℕ
  pub epoch_start : ℕ
  pub epoch_end : ℕ

unfoldable pub epoch_id_of : ℕ → ℕ
epoch_id_of unix_timestamp = unix_timestamp / epoch_seconds

unfoldable pub epoch_start_of : ℕ → ℕ
epoch_start_of epoch_id = epoch_id * epoch_seconds

unfoldable pub epoch_end_of : ℕ → ℕ
unfolding epoch_start_of
epoch_end_of epoch_id = epoch_start_of epoch_id + epoch_seconds

unfoldable pub epoch_bounds_of : ℕ → EpochBounds
unfolding epoch_id_of epoch_start_of epoch_end_of
epoch_bounds_of unix_timestamp =
    let id = epoch_id_of unix_timestamp in
    record { epoch_id = id; epoch_start = epoch_start_of id; epoch_end = epoch_end_of id }

-- A time t lies in the half-open interval from the start to the end of the epoch with a given
-- number exactly when that number is the epoch of t; so the epochs partition time, and the
-- bounds computed for t enclose t.
pub epoch_bounds_of_partition :
    (t id : ℕ)
    → ((epoch_start_of id ≤ t) × (t < epoch_end_of id) ↔ (epoch_id_of t ≡ id))
      × ((epoch_bounds_of t).epoch_start ≤ t)
      × (t < (epoch_bounds_of t).epoch_end)
unfolding epoch_bounds_of
epoch_bounds_of_partition t id = ((λ h. omega arith, λ e. omega arith), omega arith, omega arith)
