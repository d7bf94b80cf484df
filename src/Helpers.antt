-- ===== src/Helpers.antt =====
-- settlement/helpers.ts: the back-off delay.
pub mod Uuids
use settlement_engine.Prelude.{ℕ, ◌-◌, ◌*◌, ◌^◌, min}

-- for the attempts from 1 on
unfoldable pub calculate_backoff_delay : ℕ → ℕ → ℕ → ℕ
calculate_backoff_delay attempt base_ms max_ms = min (base_ms * 2 ^ (attempt - 1)) max_ms
