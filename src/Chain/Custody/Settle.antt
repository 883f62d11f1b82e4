-- ===== src/Chain/Custody/Settle.antt =====
-- crates/chain/src/custody.rs, `Custody::settle`: a settlement applies whole or not at all.
pub mod Conserves
pub mod Accounts
use rfq_matching_settlement.Prelude.{
  ℕ, zero, suc, ◌+◌, ◌-◌, ◌≤◌, ◌<◌, ◌≡◌, ◌≢◌, refl, sym, ap, ◌∙◌, inl, inr, Bool, true, false,
  Option, none, some, List, [], ◌∷◌, ◌++◌, map, arith, Option-cases, Bool-cases, get_elem?, length,
  ltb, narrow, u64_max, replicate, All,
}
use rfq_matching_settlement.Prelude.Result.{Result, ok, err, Result-cases, ◌>>=◌, ◌>>◌}
use rfq_matching_settlement.Core.Types.{Ts, Amount, AccountIdx}
use rfq_matching_settlement.Core.Config.{max_legs_bound}
use rfq_matching_settlement.Core.Settlement.{settled}
use rfq_matching_settlement.Chain.Bundle.{Bundle, legs}
use rfq_matching_settlement.Chain.Custody.{CustodyLedger, nonce_used}
use rfq_matching_settlement.Chain.Custody.Transaction.{
  Debits, entries, no_debits, SettleError, escrow_capacity_exhausted, validate, debit_legs,
  check_entries,
}
use rfq_matching_settlement.Chain.Custody.Inclusion.{
  Hook, run_hook, settle, SettleReceipt, commit_bundle, no_room,
}
use rfq_matching_settlement.Chain.Custody.DebitTable.{owed, Absent, Distinct, packed}
use rfq_matching_settlement.Chain.Custody.Tally.{
  Tally, debit_legs-Tally, IsCovered, check_entries-IsCovered,
}
use rfq_matching_settlement.Chain.Custody.Commit.{committed, commit_bundle_frame}

-- What a bundle that passes validation satisfies.
pub record IsAdmitted (l : CustodyLedger) (b : Bundle) (now : Ts) (d : Debits) : Type 0 where
  pub some_legs : 0 < b.n_legs
  pub few_legs : b.n_legs ≤ max_legs_bound
  pub fresh : nonce_used l b.nonce ≡ false
  pub tally : Tally b.requester now (legs b) no_debits d
  pub covered : All (IsCovered l.balances) (entries d)

validate_ok :
    (l : CustodyLedger) (b : Bundle) (now : Ts) {d : Debits}
    → validate l b now ≡ ok d
    → (0 < b.n_legs)
      × (b.n_legs ≤ max_legs_bound)
      × (nonce_used l b.nonce ≡ false)
      × (debit_legs b.requester now 0 (legs b) no_debits ≡ ok d)
      × (check_entries l (entries d) ≡ ok tt)
unfolding validate
validate_ok l b now h = elim (Result-cases (debit_legs b.requester now 0 (legs b) no_debits)) [
  | inr (e, q) ↦ ground arith
  | inl (d1, q) ↦ elim (Result-cases (check_entries l (entries d1))) [
    | inr (e, q) ↦ ground arith
    | inl (u, q) ↦ ground arith
  ]
]

pub validate-IsAdmitted :
    (l : CustodyLedger) (b : Bundle) (now : Ts) {d : Debits}
    → validate l b now ≡ ok d
    → IsAdmitted l b now d
validate-IsAdmitted l b now {d} h =
    let v = validate_ok l b now h in
    record {
      some_legs = v.0;
      few_legs = v.1;
      fresh = v.2;
      tally = debit_legs-Tally b.requester now 0 (legs b) no_debits refl v.3;
      covered = check_entries-IsCovered l (entries d) v.4;
    }

-- The two ways in which a settlement ends, over the ledger that the entry hook leaves.
pub data Settles (b : Bundle) (now : Ts) (l : CustodyLedger)
    (r : Result SettleError SettleReceipt × CustodyLedger) : Type 0 where
  reverts : (e : SettleError) → r ≡ (err e, l) → Settles b now l r
  applies :
      (receipt : SettleReceipt) (d : Debits)
      → IsAdmitted l b now d
      → length l.escrows + b.n_legs ≤ l.max_escrows
      → r ≡ (ok receipt, committed b d l)
      → Settles b now l r

-- A settlement reverts and changes nothing after the hook, or it commits an admitted bundle for
-- which the escrow table has room.
pub settle-Settles :
    (hook : Hook) (b : Bundle) (now : Ts) (l : CustodyLedger)
    → Settles b now (run_hook hook now l) (settle hook b now l)
unfolding settle
settle-Settles hook b now l =
    let entered = run_hook hook now l in
    elim (Result-cases (validate entered b now)) [
      | inr (e, q) ↦ reverts e (ground (arith, q))
      | inl (d, q) ↦
          elim (Bool-cases
            (no_room (narrow u64_max (length entered.escrows + b.n_legs)) entered.max_escrows)) [
              | inl full ↦ reverts escrow_capacity_exhausted (ground (arith, q, full))
              | inr room ↦
                  applies (commit_bundle b d entered).0 d (validate-IsAdmitted entered b now q)
                    (ground (arith, room))
                    (ground (arith, q, room, commit_bundle_frame b d entered))
            ]
    ]
