-- ===== src/Chain/Custody/History/Conserves.antt =====
-- crates/chain/src/custody.rs: no history of custody calls creates or destroys a unit.
use rfq_matching_settlement.Prelude.{ℕ, ◌+◌, ◌≡◌, Option, none, some, List, [], ◌∷◌, arith, sum_by}
use rfq_matching_settlement.Core.Types.{Ts, Dur}
use rfq_matching_settlement.Core.Settlement.{TxStatus}
use rfq_matching_settlement.Chain.Bundle.{Bundle}
use rfq_matching_settlement.Chain.Custody.{CustodyLedger, new_ledger, lookup_nonce}
use rfq_matching_settlement.Chain.Custody.Inclusion.{
  include_bundle, include_next, include_from, submit, drop_next_submission,
}
use rfq_matching_settlement.Chain.Custody.Conservation.{
  IsSound, balance_of, held, deposit-IsSound, request_withdrawal-IsSound,
  execute_withdrawal-IsSound, execute_matured_withdrawals-IsSound, new_ledger-IsSound,
}
use rfq_matching_settlement.Chain.Custody.PayoutConserves.{settle_escrow-IsSound}
use rfq_matching_settlement.Chain.Custody.Settle.Conserves.{settle-IsSound}
use rfq_matching_settlement.Chain.Custody.History.{
  Call, deposits, requests, executes, executes_matured, pays_out, perform, perform_all, entry_hook,
  ChainStep, calls, submits, includes, drops, step, run,
}

perform-IsSound : (c : Call) (l : CustodyLedger) → IsSound l → IsSound (perform c l)
unfolding perform
perform-IsSound (deposits a x) l v = deposit-IsSound a x l v
perform-IsSound (requests a x now) l v = request_withdrawal-IsSound a x now l v
perform-IsSound (executes a now) l v = execute_withdrawal-IsSound a now l v
perform-IsSound (executes_matured now) l v = execute_matured_withdrawals-IsSound now l v
perform-IsSound (pays_out id k o) l v = settle_escrow-IsSound id k o l v

perform_all-IsSound : (cs : List Call) (l : CustodyLedger) → IsSound l → IsSound (perform_all cs l)
unfolding perform_all
perform_all-IsSound [] l v = v
perform_all-IsSound (c ∷ cs) l v = perform_all-IsSound cs (perform c l) (perform-IsSound c l v)

include_bundle-IsSound :
    (hook : Ts → List Call) (b : Bundle) (now : Ts) (known : Option TxStatus) (l : CustodyLedger)
    → IsSound l
    → IsSound (include_bundle (entry_hook hook) b now known l).1
unfolding include_bundle
include_bundle-IsSound hook b now (some s) l v = v
include_bundle-IsSound hook b now none l v =
    let w = settle-IsSound (entry_hook hook) b now l (perform_all-IsSound (hook now) l v) in
    record { conserved = w.conserved; bounded = w.bounded; parties = w.parties }

step-IsSound : (s : ChainStep) (l : CustodyLedger) → IsSound l → IsSound (step s l)
unfolding step submit include_next drop_next_submission
step-IsSound (calls c) l v = perform-IsSound c l v
step-IsSound (submits b) l v = ground arith
step-IsSound (includes hook now) l v = includes_case l.pending
  where
    includes_case : (queue : List Bundle) → IsSound (include_from (entry_hook hook) now queue l).1
    includes_case [] = v
    includes_case (b ∷ rest) =
        include_bundle-IsSound hook b now (lookup_nonce b.nonce l.resolved)
          (record l { pending = rest })
          (record { conserved = v.conserved; bounded = v.bounded; parties = v.parties })
step-IsSound drops l v = ground arith

run-IsSound : (ss : List ChainStep) (l : CustodyLedger) → IsSound l → IsSound (run ss l)
unfolding run
run-IsSound [] l v = v
run-IsSound (s ∷ ss) l v = run-IsSound ss (step s l) (step-IsSound s l v)

-- After any history of calls, submissions, inclusions and dropped submissions on a new ledger,
-- every unit ever deposited is a withdrawal, part of a balance, or locked in an escrow.
pub history_conserves :
    (delay : Dur) (accounts escrows : ℕ) (ss : List ChainStep)
    → let l = run ss (new_ledger delay accounts escrows) in
      l.deposited ≡ l.withdrawn + sum_by balance_of l.balances + sum_by held l.escrows
history_conserves delay accounts escrows ss =
    (run-IsSound ss (new_ledger delay accounts escrows)
      (new_ledger-IsSound delay accounts escrows)).conserved
