-- ===== src/Core/Config.antt =====
-- crates/core/src/config.rs: the venue policy and the startup assertions.
use rfq_matching_settlement.Prelude.{
  ℕ, Bool, true, false, ◌||◌, List, [], ◌∷◌, u32_max, ltb, leb, ◌==◌, if◌then◌else◌,
}
use rfq_matching_settlement.Prelude.Partial
use rfq_matching_settlement.Prelude.Result.{Result, ok, err, ok_or, err_if, ◌>>=◌, ◌>>◌}
use rfq_matching_settlement.Core.Types.{Dur, AccountIdx, dur_add, dur_mul}
pub mod Timelock

abbrev pub max_legs_bound : ℕ
max_legs_bound = 8

abbrev pub max_quotes_per_leg_bound : ℕ
max_quotes_per_leg_bound = 16

pub record Config : Type 0 where
  pub max_legs : ℕ
  pub max_quotes_per_leg : ℕ
  pub max_quote_ttl : Dur
  pub max_request_ttl : Dur
  pub min_horizon : Dur
  pub max_settling_time : Dur
  pub stall_grace : Dur
  pub challenge_window : Dur
  pub escalation_authority : AccountIdx
  pub withdrawal_delay : Dur
  pub max_accounts : ℕ
  pub max_reservations : ℕ
  pub max_requests : ℕ
  pub max_quotes : ℕ
  pub max_escrows : ℕ
  pub max_contracts : ℕ
  pub confirmations : ℕ
  pub block_time : Dur
  pub max_indexer_lag : Dur
  pub max_settlement_inclusion_time : Dur

pub data ConfigError : Type 0 where
  max_legs_exceeds_storage max_quotes_per_leg_exceeds_storage capacity_too_large : ConfigError
  horizon_term_overflow horizon_too_short : ConfigError
  timelock_term_overflow withdrawal_delay_too_short : ConfigError

-- `[u32; N]::contains`.
contains : List ℕ → ℕ → Bool
contains [] n = false
contains (x ∷ xs) n = x == n || contains xs n

-- The wider of the two claim windows.
claim_window : Dur → Dur → Dur
claim_window quote_ttl formation = if ltb formation quote_ttl then quote_ttl else formation

-- `claim_window + confirmations * block_time + indexer lag + inclusion time`, each step checked.
must_exceed : Config → Dur → Dur → Result ConfigError Dur
must_exceed c window lag =
    ok_or
      (Partial.◌>>=◌ (dur_add window lag) (λ sum.
        Partial.◌>>=◌ (dur_add sum c.max_indexer_lag)
          (λ total. dur_add total c.max_settlement_inclusion_time)))
      timelock_term_overflow

-- `Config::validate`.
unfoldable pub validate : Config → Result ConfigError (Unit {0})
unfolding contains claim_window must_exceed
validate c = do
  err_if (ltb max_legs_bound c.max_legs) max_legs_exceeds_storage
  err_if (ltb max_quotes_per_leg_bound c.max_quotes_per_leg) max_quotes_per_leg_exceeds_storage
  err_if
      (contains
        (c.max_accounts ∷ c.max_reservations ∷ c.max_requests ∷ c.max_quotes ∷ c.max_contracts
          ∷ c.max_escrows ∷ [])
        u32_max)
      capacity_too_large
  formation ← ok_or (dur_add c.max_request_ttl c.max_settling_time) horizon_term_overflow
  err_if (leb c.min_horizon formation) horizon_too_short
  lag ← ok_or (dur_mul c.block_time c.confirmations) timelock_term_overflow
  bound ← must_exceed c (claim_window c.max_quote_ttl formation) lag
  err_if (leb c.withdrawal_delay bound) withdrawal_delay_too_short

-- `Config::default`.
unfoldable pub default_config : Config
default_config = record {
  max_legs = 4;
  max_quotes_per_leg = 8;
  max_quote_ttl = 30000;
  max_request_ttl = 300000;
  min_horizon = 3600000;
  max_settling_time = 60000;
  stall_grace = 86400000;
  challenge_window = 7200000;
  escalation_authority = 0;
  withdrawal_delay = 600000;
  max_accounts = 256;
  max_reservations = 4096;
  max_requests = 1024;
  max_quotes = 4096;
  max_escrows = 4096;
  max_contracts = 1024;
  confirmations = 0;
  block_time = 0;
  max_indexer_lag = 0;
  max_settlement_inclusion_time = 0;
}
