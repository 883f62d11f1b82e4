-- ===== src/Chain/Custody/History/Drain.antt =====
-- crates/chain/src/custody.rs: the queue of submissions is worked off in order.
use rfq_matching_settlement.Prelude.{
  ℕ, suc, ◌+◌, ◌≡◌, refl, ap, ◌∙◌, Option, none, some, List, [], ◌∷◌, map, arith, length,
}
use rfq_matching_settlement.Core.Types.{Ts}
use rfq_matching_settlement.Core.Settlement.{Nonce, TxStatus}
use rfq_matching_settlement.Chain.Bundle.{Bundle}
use rfq_matching_settlement.Chain.Custody.{CustodyLedger, lookup_nonce}
use rfq_matching_settlement.Chain.Custody.Inclusion.{
  IncludedTx, settle, include_bundle, include_from, include_next, include_all, collect, prepend,
}
use rfq_matching_settlement.Chain.Custody.Commit.{committed}
use rfq_matching_settlement.Chain.Custody.Settle.{reverts, applies, settle-Settles}
use rfq_matching_settlement.Chain.Custody.History.{Call, entry_hook}
use rfq_matching_settlement.Chain.Custody.History.Frame.{perform_all-SameNonces}

abbrev pub nonces : List Bundle → List Nonce
nonces = map (λ b. b.nonce)

abbrev pub answered : List IncludedTx → List Nonce
answered = map (λ t. t.nonce)

settle-pending :
    (hook : Ts → List Call) (b : Bundle) (now : Ts) (l : CustodyLedger)
    → (settle (entry_hook hook) b now l).1.pending ≡ l.pending
unfolding committed
settle-pending hook b now l = elim (settle-Settles (entry_hook hook) b now l) [
  | reverts e q ↦ rw q (perform_all-SameNonces (hook now) l).1
  | applies receipt d admitted fits q ↦ rw q (perform_all-SameNonces (hook now) l).1
]

include_bundle-pending :
    (hook : Ts → List Call) (b : Bundle) (now : Ts) (known : Option TxStatus) (l : CustodyLedger)
    → (include_bundle (entry_hook hook) b now known l).1.pending ≡ l.pending
unfolding include_bundle
include_bundle-pending hook b now (some s) l = refl
include_bundle-pending hook b now none l = settle-pending hook b now l

include_bundle-nonce :
    (hook : Ts → List Call) (b : Bundle) (now : Ts) (known : Option TxStatus) (l : CustodyLedger)
    → (include_bundle (entry_hook hook) b now known l).0.nonce ≡ b.nonce
unfolding include_bundle
include_bundle-nonce hook b now (some s) l = refl
include_bundle-nonce hook b now none l = refl

-- One inclusion answers the oldest submission, and takes it alone off the queue.
include_next_answers :
    (hook : Ts → List Call) (now : Ts) (b : Bundle) (rest : List Bundle) (l : CustodyLedger)
    → l.pending ≡ b ∷ rest
    → (t : IncludedTx) × (l' : CustodyLedger) × (include_next (entry_hook hook) now l
        ≡ (some t, l'))
      × (t.nonce ≡ b.nonce)
      × (l'.pending ≡ rest)
unfolding include_next include_from
include_next_answers hook now b rest l q =
    let popped : CustodyLedger = record l { pending = rest } in
    let known = lookup_nonce b.nonce l.resolved in
    (
      (include_bundle (entry_hook hook) b now known popped).0,
      (include_bundle (entry_hook hook) b now known popped).1,
      ap (λ (qs : List Bundle). include_from (entry_hook hook) now qs l) q,
      include_bundle-nonce hook b now known popped,
      include_bundle-pending hook b now known popped,
    )

include_next_empty :
    (hook : Ts → List Call) (now : Ts) (l : CustodyLedger)
    → l.pending ≡ []
    → include_next (entry_hook hook) now l ≡ (none, l)
unfolding include_next include_from
include_next_empty hook now l q =
    ap (λ (qs : List Bundle). include_from (entry_hook hook) now qs l) q

include_all_of :
    (hook : Ts → List Call) (queue : List Bundle) (clock : ℕ → Ts) (l : CustodyLedger)
    → l.pending ≡ queue
    → (txs : List IncludedTx) × (l' : CustodyLedger) × (include_all
          (suc (length queue))
          (entry_hook hook)
          clock
          l
        ≡ some (txs, l'))
      × (answered txs ≡ nonces queue)
      × (l'.pending ≡ [])
unfolding include_all
include_all_of hook [] clock l q = (
  [],
  l,
  ap
      (λ (r : Option IncludedTx × CustodyLedger).
        collect r (λ m. include_all 0 (entry_hook hook) (λ i. clock (i + 1)) m))
      (include_next_empty hook (clock 0) l q),
  refl,
  q,
)
include_all_of hook (b ∷ rest) clock l q =
    let (t, l1, included, named, left) = include_next_answers hook (clock 0) b rest l q in
    let (txs, l2, ran, order, empty) = include_all_of hook rest (λ i. clock (i + 1)) l1 left in
    (
      t ∷ txs,
      l2,
      ap
            (λ (r : Option IncludedTx × CustodyLedger).
              collect r
                (λ m. include_all (suc (length rest)) (entry_hook hook) (λ i. clock (i + 1)) m))
            included
          ∙ ap (prepend t) ran,
      ground (arith, named, order),
      empty,
    )

-- With fuel for one round more than there are submissions, including everything ends: the queue is
-- empty and each submission has been answered once, in the order in which they were sent.
pub include_all_drains :
    (hook : Ts → List Call) (clock : ℕ → Ts) (l : CustodyLedger)
    → (txs : List IncludedTx) × (l' : CustodyLedger) × (include_all
          (suc (length l.pending))
          (entry_hook hook)
          clock
          l
        ≡ some (txs, l'))
      × (answered txs ≡ nonces l.pending)
      × (l'.pending ≡ [])
include_all_drains hook clock l = include_all_of hook l.pending clock l refl
