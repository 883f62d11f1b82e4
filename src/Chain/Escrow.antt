-- ===== src/Chain/Escrow.antt =====
-- crates/chain/src/escrow.rs: one leg's worth of locked capital.
use rfq_matching_settlement.Prelude.{Bool, true, false, u64_max, saturating_add}
use rfq_matching_settlement.Core.Types.{Amount, Size, Side, AccountIdx}
use rfq_matching_settlement.Core.Contract.{ContractIdx}

pub data EscrowState : Type 0 where
  locked settled : EscrowState

pub record Escrow : Type 0 where
  pub contract : ContractIdx
  pub side : Side
  pub size : Size
  pub requester : AccountIdx
  pub maker : AccountIdx
  pub requester_contribution : Amount
  pub maker_contribution : Amount
  pub state : EscrowState

-- `Escrow::locked`.
abbrev pub new_locked :
    ContractIdx → Side → Size → AccountIdx → AccountIdx → Amount → Amount → Escrow
new_locked contract side quantity requester maker r m = record {
  contract = contract;
  side = side;
  size = quantity;
  requester = requester;
  maker = maker;
  requester_contribution = r;
  maker_contribution = m;
  state = locked;
}

abbrev pub notional : Escrow → Amount
notional e = saturating_add u64_max e.requester_contribution e.maker_contribution

abbrev pub mark_settled : Escrow → Escrow
mark_settled e = record e { state = settled }

abbrev pub state_is_locked : EscrowState → Bool
state_is_locked locked = true
state_is_locked settled = false

-- `Escrow::is_locked`.
abbrev pub is_locked : Escrow → Bool
is_locked e = state_is_locked e.state
