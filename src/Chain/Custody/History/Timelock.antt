-- ===== src/Chain/Custody/History/Timelock.antt =====
-- crates/chain/src/custody.rs: nothing pays a withdrawal out before its date.
use rfq_matching_settlement.Prelude.{
  ◌+◌, ◌<◌, ◌≡◌, inl, inr, Option, none, some, List, [], ◌∷◌, arith, Option-cases, get_elem?,
  get_elem?-set_self, get_elem?-lt, length, All,
}
use rfq_matching_settlement.Prelude.Result.{ok, err}
use rfq_matching_settlement.Core.Types.{Ts, AccountIdx, Amount}
use rfq_matching_settlement.Core.Settlement.{TxStatus}
use rfq_matching_settlement.Chain.Bundle.{Bundle}
use rfq_matching_settlement.Chain.Custody.{
  CustodyLedger, request_withdrawal, execute_withdrawal, execute_matured_withdrawals, log_balance,
  withdrawal_not_matured, lookup_nonce,
}
use rfq_matching_settlement.Chain.Custody.Transaction.{entries}
use rfq_matching_settlement.Chain.Custody.Inclusion.{
  include_bundle, include_from, include_next, submit, drop_next_submission,
}
use rfq_matching_settlement.Chain.Custody.Commit.{committed}
use rfq_matching_settlement.Chain.Custody.Settle.{reverts, applies, settle-Settles}
use rfq_matching_settlement.Chain.Custody.History.{
  Call, deposits, requests, executes, executes_matured, pays_out, perform, perform_all, entry_hook,
  ChainStep, calls, submits, includes, drops, step, run,
}
use rfq_matching_settlement.Chain.Custody.History.Pending.{
  due, Pends, Holds, deposit-Holds, request-Holds, execute-Holds, execute_from-Holds,
  settle_escrow-Holds, debit_balances-Holds,
}

-- Every execution in the call, or the step, is made before `t`.
abbrev pub CallBefore : Ts → Call → Type 0
CallBefore t (executes a now) = now < t
CallBefore t (executes_matured now) = now < t
CallBefore t (deposits a x) = Unit
CallBefore t (requests a x now) = Unit
CallBefore t (pays_out id k o) = Unit

abbrev pub Before : Ts → ChainStep → Type 0
Before t (calls c) = CallBefore t c
Before t (submits b) = Unit
Before t (includes hook now) = All (CallBefore t) (hook now)
Before t drops = Unit

module _ (a : AccountIdx) (x : Amount) (t : Ts) (asked : 0 < x) where
  perform-Holds :
      (c : Call) (l : CustodyLedger)
      → CallBefore t c
      → Holds a x t asked l
      → Holds a x t asked (perform c l)
  unfolding perform execute_matured_withdrawals
  perform-Holds (deposits c y) l e h = deposit-Holds a x t asked c y l h
  perform-Holds (requests c y now) l e h = request-Holds a x t asked c y now l h
  perform-Holds (executes c now) l e h = execute-Holds a x t asked c now l e h
  perform-Holds (executes_matured now) l e h =
      execute_from-Holds a x t asked (length l.balances) 0 now 0 l e h
  perform-Holds (pays_out id k o) l e h = settle_escrow-Holds a x t asked id k o l h

  perform_all-Holds :
      (cs : List Call) (l : CustodyLedger)
      → All (CallBefore t) cs
      → Holds a x t asked l
      → Holds a x t asked (perform_all cs l)
  unfolding perform_all
  perform_all-Holds [] l e h = h
  perform_all-Holds (c ∷ cs) l e h =
      perform_all-Holds cs (perform c l) e.1 (perform-Holds c l e.0 h)

  include_bundle-Holds :
      (hook : Ts → List Call) (b : Bundle) (now : Ts) (known : Option TxStatus) (l : CustodyLedger)
      → All (CallBefore t) (hook now)
      → Holds a x t asked l
      → Holds a x t asked (include_bundle (entry_hook hook) b now known l).1
  unfolding include_bundle committed
  include_bundle-Holds hook b now (some s) l e h = h
  include_bundle-Holds hook b now none l e h =
      let entered = perform_all-Holds (hook now) l e h in
      elim (settle-Settles (entry_hook hook) b now l) [
        | reverts cause q ↦ rw q entered
        | applies receipt d admitted fits q ↦ rw q (
            debit_balances-Holds a x t asked (entries d) (perform_all (hook now) l).balances
              entered)
      ]

  step-Holds :
      (s : ChainStep) (l : CustodyLedger)
      → Before t s
      → Holds a x t asked l
      → Holds a x t asked (step s l)
  unfolding step submit include_next include_from drop_next_submission
  step-Holds (calls c) l e h = perform-Holds c l e h
  step-Holds (submits b) l e h = h
  step-Holds drops l e h = ground arith
  step-Holds (includes hook now) l e h = of_queue l.pending
    where
      of_queue :
          (queue : List Bundle) → Holds a x t asked (include_from (entry_hook hook) now queue l).1
      of_queue [] = h
      of_queue (b ∷ rest) =
          include_bundle-Holds hook b now (lookup_nonce b.nonce l.resolved)
            (record l { pending = rest }) e h

  pub run-Holds :
      (ss : List ChainStep) (l : CustodyLedger)
      → All (Before t) ss
      → Holds a x t asked l
      → Holds a x t asked (run ss l)
  unfolding run
  run-Holds [] l e h = h
  run-Holds (s ∷ ss) l e h = run-Holds ss (step s l) e.1 (step-Holds s l e.0 h)

request_withdrawal-Pends :
    (a : AccountIdx) (x : Amount) (now : Ts) (l : CustodyLedger) {t : Ts} {l' : CustodyLedger}
    → request_withdrawal a x now l ≡ (ok t, l')
    → (t ≡ now + l.withdrawal_delay) × Pends a x t l'.balances
unfolding request_withdrawal log_balance
request_withdrawal-Pends a x now l {t} h = elim (Option-cases (get_elem? l.balances a)) [
  | inl e ↦ ground (arith, e)
  | inr (b, e) ↦ ground (
    arith,
    e,
    get_elem?-set_self l.balances a
        (record b { pending = x; matures_at = now + l.withdrawal_delay })
        (get_elem?-lt l.balances a e),
  )
]

execute_early :
    (a : AccountIdx) (x : Amount) (t now : Ts) (l : CustodyLedger)
    → 0 < x
    → now < t
    → Pends a x t l.balances
    → execute_withdrawal a now l ≡ (err withdrawal_not_matured, l)
unfolding execute_withdrawal
execute_early a x t now l asked early h = ground arith

-- A non-zero withdrawal that is accepted at an instant is due one withdrawal delay later. After
-- any history in which no execution, not even by a settlement's hook, is made at or after that
-- date, its amount and date stand unchanged and executing it before the date is refused.
pub withdrawal_waits :
    (a : AccountIdx) (x : Amount) (asked_at now t : Ts) (l l' : CustodyLedger) (ss : List ChainStep)
    → 0 < x
    → request_withdrawal a x asked_at l ≡ (ok t, l')
    → All (Before t) ss
    → now < t
    → (t ≡ asked_at + l.withdrawal_delay)
      × (due (get_elem? (run ss l').balances a) ≡ some (x, t))
      × (execute_withdrawal a now (run ss l') ≡ (err withdrawal_not_matured, run ss l'))
withdrawal_waits a x asked_at now t l l' ss asked accepted before early =
    let (date, pends) = request_withdrawal-Pends a x asked_at l accepted in
    let kept = run-Holds a x t asked ss l' before pends in
    (date, kept, execute_early a x t now (run ss l') asked early kept)
