-- ===== src/Chain/Custody/History/Finality.antt =====
-- crates/chain/src/custody.rs: the fate of a nonce, once it has one.
use rfq_matching_settlement.Prelude.{
  ◌≡◌, refl, ◌∙◌, ap, inl, inr, true, false, some, List, [], ◌∷◌, arith, Option-cases,
  if◌then◌else◌,
}
use rfq_matching_settlement.Core.Types.{Ts}
use rfq_matching_settlement.Core.Settlement.{Nonce, nonce_eq, TxStatus, settled}
use rfq_matching_settlement.Chain.Bundle.{Bundle}
use rfq_matching_settlement.Chain.Custody.{CustodyLedger, lookup_nonce, insert_nonce, status}
use rfq_matching_settlement.Chain.Custody.Inclusion.{
  Hook, run_hook, settle, include_bundle, include_from, include_next, submit, drop_next_submission,
  or_insert, status_of_outcome,
}
use rfq_matching_settlement.Chain.Custody.Commit.{committed}
use rfq_matching_settlement.Chain.Custody.Settle.{reverts, applies, settle-Settles}
use rfq_matching_settlement.Chain.Custody.History.{
  Call, entry_hook, ChainStep, calls, submits, includes, drops, step, run,
}
use rfq_matching_settlement.Chain.Custody.History.Frame.{perform-SameNonces, perform_all-SameNonces}

-- Reading a nonce after a write.
pub lookup_nonce-insert_nonce :
    (n m : Nonce) (s : TxStatus) (r : List (Nonce × TxStatus))
    → lookup_nonce n (insert_nonce m s r) ≡ (if nonce_eq n m then some s else lookup_nonce n r)
lookup_nonce-insert_nonce n m s [] = refl
lookup_nonce-insert_nonce n m s ((k, t) ∷ r) = ground (arith, lookup_nonce-insert_nonce n m s r)

-- A settlement that carries another nonce leaves this one's fate as the hook left it.
lookup_nonce-settle :
    (hook : Hook) (b : Bundle) (now : Ts) (l : CustodyLedger) (n : Nonce)
    → nonce_eq n b.nonce ≡ false
    → lookup_nonce n (settle hook b now l).1.resolved
      ≡ lookup_nonce n (run_hook hook now l).resolved
unfolding committed
lookup_nonce-settle hook b now l n other = elim (settle-Settles hook b now l) [
  | reverts e q ↦ rw q refl
  | applies receipt d admitted fits q ↦
      ground (arith, q, lookup_nonce-insert_nonce n b.nonce settled (run_hook hook now l).resolved)
]

lookup_nonce-or_insert :
    (n m : Nonce) (s : TxStatus) (r : List (Nonce × TxStatus))
    → nonce_eq n m ≡ false
    → lookup_nonce n (or_insert m s r) ≡ lookup_nonce n r
lookup_nonce-or_insert n m s r other = elim (Option-cases (lookup_nonce m r)) [
  | inl e ↦ ground (arith, e, other, lookup_nonce-insert_nonce n m s r)
  | inr (t, e) ↦ ground (arith, e)
]

-- A nonce is looked up by its two numbers.
lookup_nonce_eq :
    (n m : Nonce) (r : List (Nonce × TxStatus))
    → nonce_eq n m ≡ true
    → lookup_nonce n r ≡ lookup_nonce m r
lookup_nonce_eq n m [] same = refl
lookup_nonce_eq n m ((k, t) ∷ r) same = ground (arith, lookup_nonce_eq n m r same)

include_bundle_final :
    (hook : Ts → List Call) (b : Bundle) (now : Ts) (l : CustodyLedger) (n : Nonce) {s : TxStatus}
    → lookup_nonce n l.resolved ≡ some s
    → lookup_nonce n
        (include_bundle (entry_hook hook) b now (lookup_nonce b.nonce l.resolved) l).1.resolved
      ≡ some s
unfolding include_bundle
include_bundle_final hook b now l n {s} h = elim (Option-cases (lookup_nonce b.nonce l.resolved)) [
  | inr (t, e) ↦ rw e h
  | inl e ↦ rw e (
      let other : nonce_eq n b.nonce ≡ false =
        ground (arith, e, lookup_nonce_eq n b.nonce l.resolved) in
      let settled = settle (entry_hook hook) b now l in
      lookup_nonce-or_insert n b.nonce (status_of_outcome settled.0) settled.1.resolved other
      ∙ lookup_nonce-settle (entry_hook hook) b now l n other
      ∙ ap (lookup_nonce n) (perform_all-SameNonces (hook now) l).0
      ∙ h)
]

step_final :
    (c : ChainStep) (l : CustodyLedger) (n : Nonce) {s : TxStatus}
    → lookup_nonce n l.resolved ≡ some s
    → lookup_nonce n (step c l).resolved ≡ some s
unfolding step submit include_next include_from drop_next_submission
step_final (calls c) l n h = ap (lookup_nonce n) (perform-SameNonces c l).0 ∙ h
step_final (submits b) l n h = h
step_final drops l n h = ground arith
step_final (includes hook now) l n {s} h = of_queue l.pending
  where
    of_queue :
        (queue : List Bundle)
        → lookup_nonce n (include_from (entry_hook hook) now queue l).1.resolved ≡ some s
    of_queue [] = h
    of_queue (b ∷ rest) = include_bundle_final hook b now (record l { pending = rest }) n h

-- Once a nonce is resolved, no history of calls, submissions, inclusions and dropped submissions
-- changes what its status reports.
pub status_final :
    (ss : List ChainStep) (l : CustodyLedger) (n : Nonce) {s : TxStatus}
    → lookup_nonce n l.resolved ≡ some s
    → status (run ss l) n ≡ s
unfolding run status
status_final [] l n h = ground arith
status_final (c ∷ ss) l n h = status_final ss (step c l) n (step_final c l n h)
