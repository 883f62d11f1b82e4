-- ===== src/Core/Settlement.antt =====
-- crates/core/src/settlement.rs, and the settlement nonce of crates/core/src/request.rs.
use rfq_matching_settlement.Prelude.{ℕ, Bool, true, false, ◌&&◌, ◌==◌}

-- `(request slot, generation)`.
pub record Nonce : Type 0 where
  pub request : ℕ
  pub generation : ℕ

abbrev pub nonce_eq : Nonce → Nonce → Bool
nonce_eq a b = a.request == b.request && a.generation == b.generation

pub data TxStatus : Type 0 where
  unknown pending settled reverted : TxStatus

-- `TxStatus::is_terminal`.
abbrev pub is_terminal : TxStatus → Bool
is_terminal settled = true
is_terminal reverted = true
is_terminal unknown = false
is_terminal pending = false
