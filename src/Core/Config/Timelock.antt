-- ===== src/Core/Config/Timelock.antt =====
-- crates/core/src/config.rs: what a validated configuration guarantees.
use rfq_matching_settlement.Prelude.{◌+◌, ◌*◌, ◌≤◌, ◌<◌, ◌≡◌, ◌≢◌, ◌↔◌, arith, u32_max, u64_max}
use rfq_matching_settlement.Prelude.Result.{ok}
use rfq_matching_settlement.Core.Config.{Config, validate}

-- The constraints of a configuration, as inequalities over the numbers.
pub record IsSafe (c : Config) : Type 0 where
  pub legs : c.max_legs ≤ 8
  pub quotes : c.max_quotes_per_leg ≤ 16
  pub accounts : c.max_accounts ≢ u32_max
  pub reservations : c.max_reservations ≢ u32_max
  pub requests : c.max_requests ≢ u32_max
  pub quote_slots : c.max_quotes ≢ u32_max
  pub contracts : c.max_contracts ≢ u32_max
  pub escrows : c.max_escrows ≢ u32_max
  pub horizon : c.max_request_ttl + c.max_settling_time < c.min_horizon
  pub maker_lock :
      c.max_quote_ttl
        + c.block_time * c.confirmations
        + c.max_indexer_lag
        + c.max_settlement_inclusion_time
      < c.withdrawal_delay
  pub requester_lock :
      c.max_request_ttl
        + c.max_settling_time
        + c.block_time * c.confirmations
        + c.max_indexer_lag
        + c.max_settlement_inclusion_time
      < c.withdrawal_delay

validate-IsSafe : (c : Config) → validate c ≡ ok tt → IsSafe c
unfolding validate
validate-IsSafe c h = ground arith

IsSafe-validate :
    (c : Config)
    → c.min_horizon ≤ u64_max
    → c.withdrawal_delay ≤ u64_max
    → IsSafe c
    → validate c ≡ ok tt
unfolding validate
IsSafe-validate c m w h = ground arith

-- For a horizon and a delay that are u64 words, the startup check accepts a configuration exactly
-- when its bounds fit the storage, no capacity is the nil link, the horizon covers the requester's
-- claim window, and the withdrawal delay exceeds either claim window plus every lag term.
pub validate_iff :
    (c : Config)
    → c.min_horizon ≤ u64_max
    → c.withdrawal_delay ≤ u64_max
    → (validate c ≡ ok tt) ↔ IsSafe c
validate_iff c m w = (validate-IsSafe c, IsSafe-validate c m w)
