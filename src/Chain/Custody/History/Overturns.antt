-- ===== src/Chain/Custody/History/Overturns.antt =====
-- crates/chain/src/custody.rs: a settlement that is not included from the queue does not look at a
-- nonce that was reverted.
use rfq_matching_settlement.Prelude.{
  ℕ, ◌+◌, ◌≡◌, refl, ◌∙◌, ap, sym, inl, inr, false, Bool-cases, Option, none, some, List, [], ◌∷◌,
  arith, get_elem?, set, length, narrow, u64_max, replicate, ◌++◌,
}
use rfq_matching_settlement.Prelude.Result.{ok, Result-cases}
use rfq_matching_settlement.Core.Types.{Ts, Amount, AccountIdx, EscrowId}
use rfq_matching_settlement.Core.Config.{max_legs_bound}
use rfq_matching_settlement.Core.Settlement.{Nonce, nonce_eq, TxStatus, settled, reverted}
use rfq_matching_settlement.Chain.Bundle.{Bundle, BundleLeg, legs}
use rfq_matching_settlement.Chain.Custody.{
  CustodyLedger, Balance, insert_nonce, nonce_used, status, log_balance,
}
use rfq_matching_settlement.Chain.Custody.Transaction.{
  Debits, entries, validate, debit_legs, no_debits, check_entries,
}
use rfq_matching_settlement.Chain.Custody.Inclusion.{
  settle, SettleReceipt, debit_found, debit_all, log_all, form_escrows, escrow_for, next_id,
  commit_bundle, no_room,
}
use rfq_matching_settlement.Chain.Custody.Commit.{committed, commit_bundle_frame}
use rfq_matching_settlement.Chain.Custody.Settle.{validate-IsAdmitted}
use rfq_matching_settlement.Chain.Custody.History.Finality.{lookup_nonce-insert_nonce}

abbrev with_resolved : List (Nonce × TxStatus) → CustodyLedger → CustodyLedger
with_resolved ns l = record l { resolved = ns }

-- The second write of a nonce is the one that counts.
insert_nonce_twice :
    (n : Nonce) (s t : TxStatus) (ns : List (Nonce × TxStatus))
    → insert_nonce n s (insert_nonce n t ns) ≡ insert_nonce n s ns
insert_nonce_twice n s t [] = ground arith
insert_nonce_twice n s t ((m, u) ∷ ns) = elim (Bool-cases (nonce_eq n m)) [
  | inl y ↦ ground (arith, y)
  | inr other ↦ ground (arith, other, insert_nonce_twice n s t ns)
]

check_entries_frame :
    (ns : List (Nonce × TxStatus)) (es : List (AccountIdx × Amount)) (l : CustodyLedger)
    → check_entries (with_resolved ns l) es ≡ check_entries l es
unfolding check_entries
check_entries_frame ns [] l = refl
check_entries_frame ns ((a, x) ∷ es) l = rw (check_entries_frame ns es l) refl

debit_found_with :
    (ns : List (Nonce × TxStatus)) (o : Option Balance) (a : AccountIdx) (x : Amount)
    (l : CustodyLedger)
    → debit_found o a x (with_resolved ns l) ≡ with_resolved ns (debit_found o a x l)
debit_found_with ns none a x l = refl
debit_found_with ns (some b) a x l = refl

debit_all_with :
    (ns : List (Nonce × TxStatus)) (es : List (AccountIdx × Amount)) (l : CustodyLedger)
    → debit_all es (with_resolved ns l) ≡ with_resolved ns (debit_all es l)
unfolding debit_all
debit_all_with ns [] l = refl
debit_all_with ns ((a, x) ∷ es) l =
    let o = get_elem? l.balances a in
    ap (debit_all es) (debit_found_with ns o a x l) ∙ debit_all_with ns es (debit_found o a x l)

log_all_with :
    (ns : List (Nonce × TxStatus)) (es : List (AccountIdx × Amount)) (l : CustodyLedger)
    → log_all es (with_resolved ns l) ≡ with_resolved ns (log_all es l)
unfolding log_all log_balance
log_all_with ns [] l = refl
log_all_with ns ((a, x) ∷ es) l = log_all_with ns es (log_balance a l)

form_escrows_with :
    (ns : List (Nonce × TxStatus)) (r : AccountIdx) (i : ℕ) (ls : List BundleLeg)
    (ids : List EscrowId) (l : CustodyLedger)
    → form_escrows r i ls ids (with_resolved ns l)
      ≡ ((form_escrows r i ls ids l).0, with_resolved ns (form_escrows r i ls ids l).1)
unfolding form_escrows
form_escrows_with ns r i [] ids l = refl
form_escrows_with ns r i (leg ∷ ls) ids l =
    form_escrows_with ns r (i + 1) ls (set ids i (next_id l))
      (record l { escrows = l.escrows ++ escrow_for r leg ∷ [] })

-- The debits, their log entries and the escrows of a commit.
abbrev formed : Bundle → Debits → CustodyLedger → List EscrowId × CustodyLedger
formed b d l =
    form_escrows b.requester 0 (legs b) (replicate max_legs_bound 0)
      (log_all (entries d) (debit_all (entries d) l))

formed_with :
    (b : Bundle) (d : Debits) (ns : List (Nonce × TxStatus)) (l : CustodyLedger)
    → formed b d (with_resolved ns l) ≡ ((formed b d l).0, with_resolved ns (formed b d l).1)
formed_with b d ns l =
    let ids = replicate max_legs_bound 0 in
    ap (form_escrows b.requester 0 (legs b) ids) (
      ap (log_all (entries d)) (debit_all_with ns (entries d) l)
      ∙ log_all_with ns (entries d) (debit_all (entries d) l))
    ∙ form_escrows_with ns b.requester 0 (legs b) ids
        (log_all (entries d) (debit_all (entries d) l))

-- What a commit leaves does not depend on what was recorded of the bundle's own nonce.
commit_bundle_overwrites :
    (b : Bundle) (d : Debits) (s : TxStatus) (l : CustodyLedger)
    → commit_bundle b d (with_resolved (insert_nonce b.nonce s l.resolved) l) ≡ commit_bundle b d l
unfolding commit_bundle
commit_bundle_overwrites b d s l =
    let same : (formed b d l).1.resolved ≡ l.resolved =
      ap (λ p. p.1.resolved) (formed_with b d l.resolved l) in
    ap spend (formed_with b d (insert_nonce b.nonce s l.resolved) l)
    ∙ ap (λ ns. finish (formed b d l) ns)
        (insert_nonce_twice b.nonce settled s l.resolved
          ∙ ap (insert_nonce b.nonce settled) (sym same))
  where
    finish : List EscrowId × CustodyLedger → List (Nonce × TxStatus) → SettleReceipt × CustodyLedger
    finish p ns = (record { escrows = p.0; n_escrows = b.n_legs }, with_resolved ns p.1)

    spend : List EscrowId × CustodyLedger → SettleReceipt × CustodyLedger
    spend p = finish p (insert_nonce b.nonce settled p.1.resolved)

-- The ledger with the bundle's nonce on record as reverted.
abbrev pub revert_nonce : Nonce → CustodyLedger → CustodyLedger
revert_nonce n l = with_resolved (insert_nonce n reverted l.resolved) l

reverted_unused : (n : Nonce) (l : CustodyLedger) → nonce_used (revert_nonce n l) n ≡ false
unfolding nonce_used
reverted_unused n l = ground (arith, lookup_nonce-insert_nonce n n reverted l.resolved)

validate_reverted :
    (b : Bundle) (now : Ts) (l : CustodyLedger) {d : Debits}
    → validate l b now ≡ ok d
    → validate (revert_nonce b.nonce l) b now ≡ ok d
unfolding validate
validate_reverted b now l {d} h =
    let frame = check_entries_frame (insert_nonce b.nonce reverted l.resolved) in
    let fresh = (validate-IsAdmitted l b now h).fresh in
    elim (Result-cases (debit_legs b.requester now 0 (legs b) no_debits)) [
      | inl (d1, q) ↦ ground (arith, h, q, fresh, reverted_unused b.nonce l, frame (entries d1) l)
      | inr (e, q) ↦ absurd (ground (arith, h, q, fresh))
    ]

-- A bundle that settles, with no entry hook, settles all the same where its nonce was on record as reverted:
-- with the same receipt and the same ledger after it, in which the status of the nonce, which was
-- reverted, is settled.
pub settle_overturns_reverted :
    (b : Bundle) (now : Ts) (l l' : CustodyLedger) (r : SettleReceipt)
    → settle none b now l ≡ (ok r, l')
    → (status (revert_nonce b.nonce l) b.nonce ≡ reverted)
      × (settle none b now (revert_nonce b.nonce l) ≡ (ok r, l'))
      × (status l' b.nonce ≡ settled)
unfolding status settle committed
settle_overturns_reverted b now l l' r h = elim (Result-cases (validate l b now)) [
  | inr (e, q) ↦ absurd (ground (arith, h, q))
  | inl (d, q) ↦
      elim (Bool-cases (no_room (narrow u64_max (length l.escrows + b.n_legs)) l.max_escrows)) [
        | inl full ↦ absurd (ground (arith, h, q, full))
        | inr room ↦
            let done : commit_bundle b d l ≡ (r, l') = ground (arith, h, q, room) in
            let left : committed b d l ≡ l' =
              sym (commit_bundle_frame b d l) ∙ ap (λ p. p.1) done in
            (
              ground (arith, lookup_nonce-insert_nonce b.nonce b.nonce reverted l.resolved),
              ground (
                arith,
                validate_reverted b now l q,
                room,
                commit_bundle_overwrites b d reverted l ∙ done,
              ),
              rw (← left)
                  (ground (arith, lookup_nonce-insert_nonce b.nonce b.nonce settled l.resolved)),
            )
      ]
]
