-- ===== src/Chain/Custody/Payout.antt =====
-- crates/chain/src/custody.rs, `settle_escrow`: paying one escrow out under an outcome.
use rfq_matching_settlement.Prelude.{
  Bool, true, false, not, Option, none, some, get_elem?, set, ◌==◌, u64_max, saturating_add,
  if◌then◌else◌,
}
use rfq_matching_settlement.Prelude.Action.{Action, ◌>>=◌, ◌>>◌, pure, gets, modify, ok_or, err_if}
use rfq_matching_settlement.Core.Types.{Amount, AccountIdx, EscrowId}
use rfq_matching_settlement.Core.Contract.{ContractIdx, Outcome, payout_goes_to_requester}
use rfq_matching_settlement.Chain.Escrow.{Escrow, notional, is_locked, new_locked, mark_settled}
use rfq_matching_settlement.Chain.Custody.{
  CustodyLedger, CustodyError, Balance, unknown_escrow, escrow_contract_mismatch, write_balance,
  log_balance,
}

-- The two credits, in the order in which they are applied.
pub record Credits : Type 0 where
  pub first : AccountIdx × Amount
  pub second : AccountIdx × Amount

abbrev pub credits_of : Option Bool → Escrow → Credits
credits_of (some true) e = record { first = (e.requester, notional e); second = (e.maker, 0) }
credits_of (some false) e = record { first = (e.maker, notional e); second = (e.requester, 0) }
credits_of none e = record {
  first = (e.requester, e.requester_contribution);
  second = (e.maker, e.maker_contribution);
}

-- A credit to an account outside the table is skipped.
abbrev pub credit_found : Option Balance → AccountIdx → Amount → CustodyLedger → CustodyLedger
credit_found none account amount l = l
credit_found (some b) account amount l =
    write_balance account (record b { balance = saturating_add u64_max b.balance amount }) l

unfoldable pub credit : AccountIdx × Amount → CustodyLedger → CustodyLedger
credit (account, amount) l = credit_found (get_elem? l.balances account) account amount l

-- The escrow as it is written back: rebuilt from its parts, then marked settled.
abbrev pub paid_out : Escrow → Escrow
paid_out e = mark_settled (
    new_locked e.contract e.side e.size e.requester e.maker e.requester_contribution
      e.maker_contribution)

unfoldable pub pay : EscrowId → Outcome → Escrow → CustodyLedger → CustodyLedger
unfolding payout_goes_to_requester credit
pay id outcome e l =
    let c = credits_of (payout_goes_to_requester outcome e.side) e in
    let credited = credit c.second (credit c.first l) in
    let logged = log_balance c.second.0 (log_balance c.first.0 credited) in
    record logged { escrows = set logged.escrows id (paid_out e) }

unfoldable pub settle_escrow :
    EscrowId → ContractIdx → Outcome → Action CustodyLedger CustodyError Bool
settle_escrow id contract outcome = do
  found ← gets (λ l. get_elem? l.escrows id)
  escrow ← ok_or found unknown_escrow
  err_if (not (escrow.contract == contract)) escrow_contract_mismatch
  if is_locked escrow then (modify (pay id outcome escrow) >> pure true) else pure false
