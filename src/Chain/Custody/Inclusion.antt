-- ===== src/Chain/Custody/Inclusion.antt =====
-- crates/chain/src/custody.rs: a settlement transaction, and the queue of submissions. The test
-- hook that runs on entry to a settlement is a function on the ledger, handed in as an argument.
use rfq_matching_settlement.Prelude.{
  ℕ, zero, suc, ◌+◌, Bool, true, false, Option, none, some, List, [], ◌∷◌, ◌++◌, length, get_elem?,
  set, replicate, ltb, if◌then◌else◌, u32_max, u64_max, narrow, saturating_sub,
}
use rfq_matching_settlement.Prelude.Result.{Result, ok, err}
use rfq_matching_settlement.Prelude.Action.{Action, ◌>>=◌, ◌>>◌, gets, modify, lift, err_if}
use rfq_matching_settlement.Core.Types.{Amount, Ts, AccountIdx, EscrowId}
use rfq_matching_settlement.Core.Config.{max_legs_bound}
use rfq_matching_settlement.Core.Settlement.{Nonce, TxStatus, settled, reverted}
use rfq_matching_settlement.Chain.Bundle.{
  Bundle, BundleLeg, legs, requester_contribution, maker_contribution,
}
use rfq_matching_settlement.Chain.Escrow.{Escrow, new_locked}
use rfq_matching_settlement.Chain.Log.{append, settlement_resolved}
use rfq_matching_settlement.Chain.Custody.{
  CustodyLedger, Balance, write_balance, log_balance, lookup_nonce, insert_nonce, status,
}
use rfq_matching_settlement.Chain.Custody.Transaction.{
  SettleError, nonce_reused, escrow_capacity_exhausted, Debits, entries, validate,
}

pub record SettleReceipt : Type 0 where
  pub escrows : List EscrowId
  pub n_escrows : ℕ

pub record IncludedTx : Type 0 where
  pub nonce : Nonce
  pub outcome : Result SettleError SettleReceipt
  pub status : TxStatus

abbrev pub Hook : Type 0
Hook = Option (CustodyLedger → Ts → CustodyLedger)

abbrev pub run_hook : Hook → Ts → CustodyLedger → CustodyLedger
run_hook none now l = l
run_hook (some h) now l = h l now

abbrev pub debit_found : Option Balance → AccountIdx → Amount → CustodyLedger → CustodyLedger
debit_found none account amount l = l
debit_found (some b) account amount l =
    write_balance account (record b { balance = saturating_sub b.balance amount }) l

-- The debits are taken from the balances, all of them before any is logged.
unfoldable pub debit_all : List (AccountIdx × Amount) → CustodyLedger → CustodyLedger
debit_all [] l = l
debit_all ((account, amount) ∷ r) l =
    debit_all r (debit_found (get_elem? l.balances account) account amount l)

unfoldable pub log_all : List (AccountIdx × Amount) → CustodyLedger → CustodyLedger
log_all [] l = l
log_all ((account, amount) ∷ r) l = log_all r (log_balance account l)

abbrev or_zero : Option Amount → Amount
or_zero none = 0
or_zero (some a) = a

abbrev pub escrow_for : AccountIdx → BundleLeg → Escrow
escrow_for requester leg =
    new_locked leg.contract leg.side leg.size requester leg.maker
      (or_zero (requester_contribution leg)) (or_zero (maker_contribution leg))

-- `u32::try_from(len).unwrap_or(u32::MAX)`.
abbrev pub next_id : CustodyLedger → EscrowId
next_id l = if ltb u32_max (length l.escrows) then u32_max else length l.escrows

-- One escrow for each leg, in leg order, and the identifiers in the receipt's slots.
unfoldable pub form_escrows :
    AccountIdx → ℕ → List BundleLeg → List EscrowId → CustodyLedger → List EscrowId × CustodyLedger
form_escrows requester index [] ids l = (ids, l)
form_escrows requester index (leg ∷ rest) ids l =
    form_escrows requester (index + 1) rest (set ids index (next_id l))
      (record l { escrows = l.escrows ++ escrow_for requester leg ∷ [] })

-- `escrows.len().checked_add(n_legs).is_none_or(|total| total > max_escrows)`.
unfoldable pub no_room : Option ℕ → ℕ → Bool
no_room none top = true
no_room (some total) top = ltb top total

-- The commit half of `Custody::settle`.
unfoldable pub commit_bundle : Bundle → Debits → CustodyLedger → SettleReceipt × CustodyLedger
unfolding debit_all log_all form_escrows
commit_bundle bundle debits l =
    let debited = log_all (entries debits) (debit_all (entries debits) l) in
    let (ids, formed) =
      form_escrows bundle.requester 0 (legs bundle) (replicate max_legs_bound 0) debited in
    (
      record { escrows = ids; n_escrows = bundle.n_legs },
      record formed { resolved = insert_nonce bundle.nonce settled formed.resolved },
    )

-- `Custody::settle`.
unfoldable pub settle : Hook → Bundle → Ts → Action CustodyLedger SettleError SettleReceipt
unfolding no_room
settle hook bundle now = do
  modify (run_hook hook now)
  checked ← gets (λ l. validate l bundle now)
  debits ← lift checked
  count ← gets (λ l. length l.escrows)
  room ← gets (λ l. l.max_escrows)
  err_if (no_room (narrow u64_max (count + bundle.n_legs)) room) escrow_capacity_exhausted
  λ l. let (receipt, l') = commit_bundle bundle debits l in (ok receipt, l')

-- `Custody::submit`: sent, and nothing more.
unfoldable pub submit : Bundle → CustodyLedger → Nonce × CustodyLedger
submit bundle l = (bundle.nonce, record l { pending = l.pending ++ bundle ∷ [] })

abbrev pub status_of_outcome : Result SettleError SettleReceipt → TxStatus
status_of_outcome (ok r) = settled
status_of_outcome (err e) = reverted

-- `resolved.entry(nonce).or_insert(status)`.
abbrev pub or_insert : Nonce → TxStatus → List (Nonce × TxStatus) → List (Nonce × TxStatus)
or_insert n s r = elim (lookup_nonce n r) [ none ↦ insert_nonce n s r | some t ↦ r ]

-- A submission whose nonce has no answer yet: settled or reverted, recorded and announced.
unfoldable pub resolve_bundle : Hook → Bundle → Ts → CustodyLedger → IncludedTx × CustodyLedger
resolve_bundle hook bundle now l =
    let (outcome, l') = settle hook bundle now l in
    let recorded = record l' {
      resolved = or_insert bundle.nonce (status_of_outcome outcome) l'.resolved;
    } in
    let s = status recorded bundle.nonce in
    (
      record { nonce = bundle.nonce; outcome = outcome; status = s },
      record recorded { log = append (settlement_resolved bundle.nonce s) recorded.log },
    )

unfoldable pub include_bundle :
    Hook → Bundle → Ts → Option TxStatus → CustodyLedger → IncludedTx × CustodyLedger
unfolding resolve_bundle
include_bundle hook bundle now (some existing) l =
    (record { nonce = bundle.nonce; outcome = err nonce_reused; status = existing }, l)
include_bundle hook bundle now none l = resolve_bundle hook bundle now l

unfoldable pub include_from :
    Hook → Ts → List Bundle → CustodyLedger → Option IncludedTx × CustodyLedger
unfolding include_bundle
include_from hook now [] l = (none, l)
include_from hook now (bundle ∷ rest) l =
    let (tx, l') =
      include_bundle hook bundle now (lookup_nonce bundle.nonce l.resolved)
        (record l { pending = rest }) in
    (some tx, l')

-- `Custody::include_next`: the oldest submission.
unfoldable pub include_next : Hook → Ts → CustodyLedger → Option IncludedTx × CustodyLedger
unfolding include_from
include_next hook now l = include_from hook now l.pending l

-- `Custody::drop_next_submission`.
unfoldable pub drop_next_submission : CustodyLedger → Bool × CustodyLedger
drop_next_submission l = elim l.pending [
  | [] ↦ (false, l)
  | b ∷ rest ↦ (true, record l { pending = rest })
]

abbrev pub prepend :
    IncludedTx → Option (List IncludedTx × CustodyLedger) → Option (List IncludedTx × CustodyLedger)
prepend t none = none
prepend t (some (ts, l)) = some (t ∷ ts, l)

-- One round of the loop of `Custody::include_all`: stop on an empty queue, or collect and go on.
abbrev pub collect :
    Option IncludedTx × CustodyLedger
    → (CustodyLedger → Option (List IncludedTx × CustodyLedger))
    → Option (List IncludedTx × CustodyLedger)
collect (none, l) rest = some ([], l)
collect (some t, l) rest = prepend t (rest l)

-- `Custody::include_all`, on fuel: the clock is read anew at each inclusion. `none` is a run that
-- the fuel does not finish.
unfoldable pub include_all :
    ℕ → Hook → (ℕ → Ts) → CustodyLedger → Option (List IncludedTx × CustodyLedger)
include_all zero hook clock l = none
include_all (suc fuel) hook clock l =
    collect (include_next hook (clock 0) l) (λ l'. include_all fuel hook (λ i. clock (i + 1)) l')
