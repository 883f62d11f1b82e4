-- ===== src/Chain/Tests.antt =====
-- The theorems on crates/chain, applied to concrete inputs.
mod Feeds
use rfq_matching_settlement.Prelude.{
  ℕ, suc, ◌+◌, ◌-◌, ◌≤◌, ◌<◌, ◌≡◌, ◌≢◌, refl, Bool, true, false, Option, none, some, List, [], ◌∷◌,
  arith, length, sum_by, replicate, get_elem?, All, ltb, map, if◌then◌else◌,
}
use rfq_matching_settlement.Prelude.Result.{Result, ok, err}
use rfq_matching_settlement.Core.Types.{Ts, yes_side, maker_contribution, requester_contribution}
use rfq_matching_settlement.Core.Contract.{yes_outcome, no_outcome, void, in_progress}
use rfq_matching_settlement.Core.Settlement.{Nonce, TxStatus, settled, reverted, unknown}
use rfq_matching_settlement.Chain.Bundle.{Bundle, BundleLeg, legs}
use rfq_matching_settlement.Chain.Escrow.{Escrow, locked}
use rfq_matching_settlement.Chain.Log.{ChainLog, empty_log, append, advance_block, balance_changed}
use rfq_matching_settlement.Chain.Custody.{
  CustodyLedger, Balance, new_ledger, status, nonce_used, log_balance, request_withdrawal,
  execute_withdrawal, withdrawal_not_matured,
}
use rfq_matching_settlement.Chain.Custody.Conservation.{IsSound, balance_of, held}
use rfq_matching_settlement.Chain.Custody.Payout.{settle_escrow}
use rfq_matching_settlement.Chain.Custody.PayoutShares.{
  IsPaid, settle_escrow_pays, settle_escrow_once,
}
use rfq_matching_settlement.Chain.Custody.Transaction.{
  quote_expired, validate, debit_legs, debit_leg, check_entries,
}
use rfq_matching_settlement.Chain.Custody.Inclusion.{
  IncludedTx, SettleReceipt, run_hook, settle, include_all, commit_bundle,
}
use rfq_matching_settlement.Chain.Custody.Settle.Accounts.{
  IsApplied, settle_applies, settle_reverts,
}
use rfq_matching_settlement.Chain.Custody.History.{
  Call, deposits, requests, executes, pays_out, entry_hook, ChainStep, calls, submits, includes,
  drops, run,
}
use rfq_matching_settlement.Chain.Custody.History.Conserves.{history_conserves}
use rfq_matching_settlement.Chain.Custody.History.Finality.{status_final}
use rfq_matching_settlement.Chain.Custody.History.Overturns.{
  revert_nonce, settle_overturns_reverted,
}
use rfq_matching_settlement.Chain.Custody.History.Pending.{due}
use rfq_matching_settlement.Chain.Custody.History.Timelock.{withdrawal_waits}
use rfq_matching_settlement.Chain.Custody.History.Drain.{answered, nonces, include_all_drains}

abbrev leg : BundleLeg
leg = record {
  contract = 0;
  side = yes_side;
  size = 10;
  maker = 1;
  fill_price = 400000;
  quote_expiry = 100;
}

abbrev nonce : Nonce
nonce = record { request = 0; generation = 0 }

abbrev bundle : Bundle
bundle = record { nonce = nonce; requester = 0; slots = replicate 8 leg; n_legs = 1 }

abbrev account : ℕ → Balance
account amount = record { balance = amount; pending = 0; matures_at = 0 }

abbrev funded : CustodyLedger
funded = record {
  balances = account 5000000 ∷ account 7000000 ∷ [];
  escrows = [];
  max_escrows = 4;
  resolved = [];
  pending = [];
  withdrawal_delay = 10;
  deposited = 12000000;
  withdrawn = 0;
  log = empty_log;
}

-- Deposits, a bundle sent and included, and its escrow paid out.
abbrev story : List ChainStep
story =
    calls (deposits 0 5000000)
    ∷ calls (deposits 1 7000000)
    ∷ submits bundle
    ∷ includes (λ now. requests 1 500000 now ∷ []) 50
    ∷ calls (pays_out 0 0 yes_outcome)
    ∷ []

history_conserves_example :
    let l = run story (new_ledger 10 2 4) in
    l.deposited ≡ l.withdrawn + sum_by balance_of l.balances + sum_by held l.escrows
history_conserves_example = history_conserves 10 2 4 story

abbrev receipt : SettleReceipt
receipt = record { escrows = replicate 8 0; n_escrows = 1 }

settles : settle none bundle 50 funded ≡ (ok receipt, (settle none bundle 50 funded).1)
unfolding settle validate nonce_used debit_legs legs debit_leg maker_contribution
    requester_contribution check_entries commit_bundle log_balance
settles = refl

settle_applies_example :
    IsApplied bundle 50 (run_hook none 50 funded) (settle none bundle 50 funded).1
settle_applies_example =
    settle_applies none bundle 50 funded (settle none bundle 50 funded).1 receipt settles

expires : settle none bundle 100 funded ≡ (err (quote_expired 0), (settle none bundle 100 funded).1)
unfolding settle validate nonce_used debit_legs legs debit_leg
expires = refl

settle_reverts_example : (settle none bundle 100 funded).1 ≡ run_hook none 100 funded
settle_reverts_example =
    settle_reverts none bundle 100 funded (settle none bundle 100 funded).1 (quote_expired 0)
      expires

abbrev failed : CustodyLedger
failed = record funded { resolved = (nonce, reverted) ∷ [] }

status_final_example : status (run story failed) nonce ≡ reverted
status_final_example = status_final story failed nonce refl

settle_overturns_reverted_example :
    (status (revert_nonce nonce funded) nonce ≡ reverted)
    × (settle none bundle 50 (revert_nonce nonce funded)
        ≡ (ok receipt, (settle none bundle 50 funded).1))
    × (status (settle none bundle 50 funded).1 nonce ≡ settled)
settle_overturns_reverted_example =
    settle_overturns_reverted bundle 50 funded (settle none bundle 50 funded).1 receipt settles

abbrev escrow : Escrow
escrow = record {
  contract = 3;
  side = yes_side;
  size = 10;
  requester = 0;
  maker = 1;
  requester_contribution = 4000000;
  maker_contribution = 6000000;
  state = locked;
}

abbrev locked_up : CustodyLedger
locked_up = record funded { escrows = escrow ∷ []; deposited = 22000000 }

locked_up-IsSound : IsSound locked_up
locked_up-IsSound = record {
  conserved = refl;
  bounded = omega arith;
  parties = ((omega arith, omega arith), tt);
}

pays : settle_escrow 0 3 void locked_up ≡ (ok true, (settle_escrow 0 3 void locked_up).1)
unfolding settle_escrow
pays = refl

settle_escrow_pays_example :
    (e : Escrow) × IsPaid 0 3 void e locked_up (settle_escrow 0 3 void locked_up).1
settle_escrow_pays_example =
    settle_escrow_pays 0 3 void locked_up (settle_escrow 0 3 void locked_up).1 locked_up-IsSound
      pays

settle_escrow_once_example :
    settle_escrow 0 3 no_outcome (settle_escrow 0 3 void locked_up).1
    ≡ (ok false, (settle_escrow 0 3 void locked_up).1)
settle_escrow_once_example =
    settle_escrow_once 0 3 void no_outcome locked_up (settle_escrow 0 3 void locked_up).1 pays

abbrev asked : CustodyLedger
asked = (request_withdrawal 1 3000000 5 funded).1

accepted : request_withdrawal 1 3000000 5 funded ≡ (ok 15, asked)
unfolding request_withdrawal
accepted = refl

abbrev meanwhile : List ChainStep
meanwhile = calls (executes 1 14) ∷ submits bundle ∷ includes (λ now. executes 1 12 ∷ []) 50 ∷ []

withdrawal_waits_example :
    (15 ≡ 5 + 10)
    × (due (get_elem? (run meanwhile asked).balances 1) ≡ some (3000000, 15))
    × (execute_withdrawal 1 14 (run meanwhile asked)
        ≡ (err withdrawal_not_matured, run meanwhile asked))
withdrawal_waits_example =
    withdrawal_waits 1 3000000 5 14 15 funded asked meanwhile (omega arith) accepted
      (omega arith, (tt, ((omega arith, tt), tt))) (omega arith)

abbrev queued : CustodyLedger
queued = record funded { pending = bundle ∷ bundle ∷ [] }

include_all_drains_example :
    (txs : List IncludedTx) × (l : CustodyLedger) × (include_all 3
        (entry_hook (λ now. []))
        (λ round. 50 + round)
        queued
      ≡ some (txs, l))
    × (answered txs ≡ nonces (bundle ∷ bundle ∷ []))
    × (l.pending ≡ [])
include_all_drains_example = include_all_drains (λ now. []) (λ round. 50 + round) queued
