-- ===== src/Chain/Custody/History/Frame.antt =====
-- crates/chain/src/custody.rs: the calls of the ledger leave the nonces and the queue alone.
use rfq_matching_settlement.Prelude.{
  ℕ, zero, suc, ◌+◌, ◌≡◌, refl, ◌∙◌, inl, inr, List, [], ◌∷◌, arith, Option-cases, Bool-cases,
  get_elem?, length, ltb, u32_max, saturating_add, if◌then◌else◌,
}
use rfq_matching_settlement.Prelude.Result.{is_ok}
use rfq_matching_settlement.Core.Types.{Ts, AccountIdx, EscrowId}
use rfq_matching_settlement.Core.Contract.{ContractIdx, Outcome}
use rfq_matching_settlement.Chain.Escrow.{Escrow}
use rfq_matching_settlement.Chain.Custody.{
  CustodyLedger, deposit, request_withdrawal, execute_withdrawal, execute_from,
  execute_matured_withdrawals, log_balance,
}
use rfq_matching_settlement.Chain.Custody.Payout.{settle_escrow, pay}
use rfq_matching_settlement.Chain.Custody.History.{
  Call, deposits, requests, executes, executes_matured, pays_out, perform, perform_all,
}

abbrev pub SameNonces : CustodyLedger → CustodyLedger → Type 0
SameNonces l l' = (l'.resolved ≡ l.resolved) × (l'.pending ≡ l.pending)

execute-SameNonces :
    (a : AccountIdx) (now : Ts) (l : CustodyLedger) → SameNonces l (execute_withdrawal a now l).1
unfolding execute_withdrawal log_balance
execute-SameNonces a now l = ground arith

execute_from-SameNonces :
    (rounds : ℕ) (a : AccountIdx) (now : Ts) (n : ℕ) (l : CustodyLedger)
    → SameNonces l (execute_from rounds a now n l).1
unfolding execute_from
execute_from-SameNonces zero a now n l = (refl, refl)
execute_from-SameNonces (suc rounds) a now n l =
    let rest =
      execute_from-SameNonces rounds (a + 1) now
        (if is_ok (execute_withdrawal a now l).0 then saturating_add u32_max n 1 else n)
        (execute_withdrawal a now l).1 in
    let first = execute-SameNonces a now l in
    elim (Bool-cases (ltb u32_max a)) [
      | inl e ↦ rw e (refl, refl)
      | inr e ↦ rw e (rest.0 ∙ first.0, rest.1 ∙ first.1)
    ]

pay-SameNonces :
    (id : EscrowId) (o : Outcome) (e : Escrow) (l : CustodyLedger) → SameNonces l (pay id o e l)
unfolding pay log_balance
pay-SameNonces id o e l = ground arith

settle_escrow-SameNonces :
    (id : EscrowId) (k : ContractIdx) (o : Outcome) (l : CustodyLedger)
    → SameNonces l (settle_escrow id k o l).1
unfolding settle_escrow
settle_escrow-SameNonces id k o l = elim (Option-cases (get_elem? l.escrows id)) [
  | inl e ↦ ground arith
  | inr (x, e) ↦ ground (arith, e, pay-SameNonces id o x l)
]

pub perform-SameNonces : (c : Call) (l : CustodyLedger) → SameNonces l (perform c l)
unfolding perform deposit request_withdrawal execute_matured_withdrawals log_balance
perform-SameNonces (deposits a x) l = ground arith
perform-SameNonces (requests a x now) l = ground arith
perform-SameNonces (executes a now) l = execute-SameNonces a now l
perform-SameNonces (executes_matured now) l = execute_from-SameNonces (length l.balances) 0 now 0 l
perform-SameNonces (pays_out id k o) l = settle_escrow-SameNonces id k o l

pub perform_all-SameNonces : (cs : List Call) (l : CustodyLedger) → SameNonces l (perform_all cs l)
unfolding perform_all
perform_all-SameNonces [] l = (refl, refl)
perform_all-SameNonces (c ∷ cs) l =
    let first = perform-SameNonces c l in
    let rest = perform_all-SameNonces cs (perform c l) in (rest.0 ∙ first.0, rest.1 ∙ first.1)
