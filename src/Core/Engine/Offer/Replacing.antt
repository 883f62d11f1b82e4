-- ===== src/Core/Engine/Offer/Replacing.antt =====
-- crates/core/src/engine.rs, `submit_quote`: what becomes of the quote that a refused one was to
-- replace.
use rfq_matching_settlement.Prelude.{
  ℕ, ◌≡◌, refl, ap, ◌∙◌, sym, inl, inr, Option, none, some, arith, Option-cases, Bool-cases,
}
use rfq_matching_settlement.Prelude.Result.{Result, ok, err, Result-cases}
use rfq_matching_settlement.Prelude.Process.Post.{
  Post, Post-read, Post-err_if, Post-ok_or, Post-check, Post-gets, Post-modify, Post-run_pure,
  Post-change, Post-end_change,
}
use rfq_matching_settlement.Core.Types.{Amount, Price, Size, Ts, LegId, AccountIdx}
use rfq_matching_settlement.Core.Slab
use rfq_matching_settlement.Core.Slab.{Handle, Slab, SlabFull, handle_eq, has_room}
use rfq_matching_settlement.Core.Slab.Reads.{get-remove}
use rfq_matching_settlement.Core.Reservation.{ResOwner, Reservation, quote_owner, new_reserved}
use rfq_matching_settlement.Core.Quote.{Quote, released}
use rfq_matching_settlement.Core.Request.{Request, Leg, leg_at}
use rfq_matching_settlement.Core.Selection.{standing_quote_of}
use rfq_matching_settlement.Core.Ledger.{Ledger, LedgerError, insufficient_free, check_reservable}
use rfq_matching_settlement.Core.Ledger.Phase.{phase_close_quote}
use rfq_matching_settlement.Core.Ledger.Admission.{
  link_claim, finish_claim, take_claim, with_owner, open_quote_reserving,
}
use rfq_matching_settlement.Core.Event.{quote_rejected, replaced}
use rfq_matching_settlement.Core.Engine.{
  EngineError, ledger_refused, Turn, ledger_of, with_ledger, emit, update_quote, set_quote_state,
}
use rfq_matching_settlement.Core.Engine.Release.{release_claim}
use rfq_matching_settlement.Core.Engine.Steps.{Post-check_headroom, Post-run_ledger}
use rfq_matching_settlement.Core.Engine.Legs.{unlink_quote}
use rfq_matching_settlement.Core.Engine.Offer.{
  may_stand, claim_of, finish_replace, replace, admit, submit_quote,
}

-- A claim is only refused for want of a slot once it has been found to be covered.
finish_claim-covered :
    (fuel : ℕ) (a : AccountIdx) (t : Ts) (o : ResOwner) (total : Amount) (l m : Ledger)
    (p : Result SlabFull Handle × Slab Reservation) (h : Handle)
    → with_owner h (finish_claim fuel a t o total l p) ≡ some (err insufficient_free, m)
    → ⊥
finish_claim-covered fuel a t o total l m (err e, s) h q = ground (arith, q)
finish_claim-covered fuel a t o total l m (ok c, s) h q =
    elim (Option-cases (link_claim fuel a c t o total (record l { reservations = s }))) [
      | inl e ↦ ground (arith, e, q)
      | inr (l1, e) ↦ ground (arith, e, q)
    ]

take_claim-covered :
    (fuel : ℕ) (a : AccountIdx) (x : Amount) (t : Ts) (o : ResOwner) (total : Amount) (l m : Ledger)
    (h : Handle)
    → with_owner h (take_claim fuel a x t o total l) ≡ some (err insufficient_free, m)
    → ⊥
unfolding take_claim
take_claim-covered fuel a x t o total l m h q =
    finish_claim-covered fuel a t o total l m (Slab.insert (new_reserved a x o t) l.reservations) h
      q

open_quote-insufficient :
    (fuel : ℕ) (x : Quote) (amount : Amount) (l m : Ledger)
    → open_quote_reserving fuel x amount l ≡ some (err insufficient_free, m)
    → m ≡ l
unfolding open_quote_reserving
open_quote-insufficient fuel x amount l m h =
    elim (Result-cases (check_reservable l x.maker amount)) [
      | inr (e, q) ↦ ground (arith, q, h)
      | inl (total, q) ↦ elim (Bool-cases (has_room l.quotes)) [
        | inr r ↦ ground (arith, q, r, h)
        | inl r ↦ elim (Bool-cases (has_room l.reservations)) [
          | inr k ↦ ground (arith, q, r, k, h)
          | inl k ↦ elim (Result-cases (Slab.insert x l.quotes).0) [
            | inr (e, i) ↦ ground (arith, q, r, k, i, h)
            | inl (g, i) ↦ absurd (
                take_claim-covered fuel x.maker amount x.expires_at (quote_owner g) total
                  (record l { quotes = (Slab.insert x l.quotes).1 }) m g
                  (sym (rw (open_quote_reserving, q, r, k, i) refl) ∙ h))
          ]
        ]
      ]
    ]

closed_gone : (h : Handle) (l : Ledger) → Slab.get (phase_close_quote h l).quotes h ≡ none
unfolding phase_close_quote
closed_gone h l = ground (arith, get-remove h h l.quotes)

finish_replace-gone :
    (h : Handle) (t u : Turn) (o : Option Ledger)
    → finish_replace h t o ≡ some u
    → Slab.get (ledger_of u).quotes h ≡ none
finish_replace-gone h t u none e = absurd (ground (arith, e))
finish_replace-gone h t u (some l) e =
    ap (λ (v : Option Turn). quotes_in v) (sym e) ∙ closed_gone h l
  where
    quotes_in : Option Turn → Option Quote
    quotes_in none = none
    quotes_in (some v) = Slab.get (ledger_of v).quotes h

replace-gone :
    (fuel : ℕ) (request : Handle) (leg : LegId) (maker : AccountIdx) (h : Handle) (t u : Turn)
    → replace fuel request leg maker (some h) t ≡ some u
    → Slab.get (ledger_of u).quotes h ≡ none
unfolding replace
replace-gone fuel request leg maker h t u e =
    let l1 = release_claim (claim_of (Slab.get (ledger_of t).quotes h)) (ledger_of t) in
    let l2 = update_quote h (set_quote_state released) l1 in
    finish_replace-gone h (emit (quote_rejected h maker replaced) (with_ledger l2 t)) u
      (unlink_quote fuel request leg h l2) e

-- Where the capital does not suffice, the standing quote is gone.
abbrev Lost : Handle → Result EngineError (Unit {0}) → Turn → Type 0
Lost h r u = r ≡ err (ledger_refused insufficient_free) → Slab.get (ledger_of u).quotes h ≡ none

admit-Lost :
    (fuel : ℕ) (maker : AccountIdx) (request : Handle) (leg : LegId) (price : Price)
    (quantity : Size) (expires_at now : Ts) (h : Handle) (x : Amount) (t : Turn)
    → Post (Lost h) (admit fuel maker request leg price quantity expires_at now (some h) x t)
unfolding admit
admit-Lost fuel maker request leg price quantity expires_at now h x t =
    let R = Lost h in
    Post-change R _ t _ λ u q.
      let gone = replace-gone fuel request leg maker h t u q in
      Post-gets R _ u _ (
        Post-modify R _ u _ (
          Post-run_ledger R _ _ _
            (λ e m q short.
              let same =
                open_quote-insufficient fuel _ x (ledger_of u) m (rw (refused e short) at q) in
              ap (λ (l : Ledger). Slab.get l.quotes h) same ∙ gone)
            (λ p m q.
              Post-modify R _ _ _
                (Post-end_change R _ _ λ v q short. absurd (ground (arith, short))))))
  where
    refused :
        (e : LedgerError)
        → ◌≡◌ {A = Result EngineError (Unit {0})}
            (err (ledger_refused e))
            (err (ledger_refused insufficient_free))
        → e ≡ insufficient_free
    refused e short = ground (arith, short)

may_stand-error :
    (o : Option Handle) (price : Price) (g : Leg) (limit : ℕ) (l : Ledger)
    → may_stand o price g limit l ≡ err (ledger_refused insufficient_free)
    → ⊥
may_stand-error none price g limit l e = ground (arith, e)
may_stand-error (some h) price g limit l e = elim (Option-cases (Slab.get l.quotes h)) [
  | inl q ↦ ground (arith, q, e)
  | inr (v, q) ↦ ground (arith, q, e)
]

submit_quote-Lost :
    (fuel : ℕ) (maker : AccountIdx) (request : Handle) (leg : LegId) (price : Price)
    (quantity : Size) (expires_at now : Ts) (t : Turn) (entry : Request) (g : Leg) (h : Handle)
    → Slab.get (ledger_of t).requests request ≡ some entry
    → leg_at entry leg ≡ some g
    → standing_quote_of fuel (ledger_of t).quotes g maker ≡ some (some h)
    → Post (Lost h) (submit_quote fuel maker request leg price quantity expires_at now t)
unfolding submit_quote
submit_quote-Lost fuel maker request leg price quantity expires_at now t entry g h at here stands =
    let R = Lost h in
    Post-gets R _ t _ (
      Post-gets R _ t _ (
        Post-ok_or R _ _ t _ (λ e q. absurd (ground (arith, q)))
          λ r found.
            Post-err_if R _ _ t _ (λ e q. absurd (ground (arith, q)))
              λ e.
                Post-err_if R _ _ t _ (λ e q. absurd (ground (arith, q)))
                  λ e.
                    Post-ok_or R _ _ t _ (λ e q. absurd (ground (arith, q)))
                      λ b there.
                        Post-err_if R _ _ t _ (λ e q. absurd (ground (arith, q)))
                          λ e.
                            Post-err_if R _ _ t _ (λ e q. absurd (ground (arith, q)))
                              λ e.
                                Post-err_if R _ _ t _ (λ e q. absurd (ground (arith, q)))
                                  λ e.
                                    Post-err_if R _ _ t _ (λ e q. absurd (ground (arith, q)))
                                      λ e. Post-run_pure R _ t _ λ standing walked.
                                        let limit = t.engine.config.max_quotes_per_leg in
                                        Post-check R
                                          (may_stand standing price b limit (ledger_of t)) t _
                                          (λ e q short. absurd (
                                            may_stand-error standing price b limit (ledger_of t)
                                              (q ∙ short)))
                                          λ q.
                                            Post-ok_or R _ _ t _ (λ e q. absurd (ground (arith, q)))
                                              λ x q.
                                                Post-check_headroom R _ t _
                                                  (λ q. absurd (ground (arith, q)))
                                                  λ q.
                                                    let one : r ≡ entry = cc in
                                                    let two : b ≡ g = cc in
                                                    let same : standing ≡ some h = cc in
                                                    rw same (
                                                      admit-Lost fuel maker request leg price
                                                        quantity expires_at now h x t)))

-- Where a maker's quote stands on a leg and the maker's capital does not cover the quote that is to
-- replace it, the command is rejected, and yet the standing quote is no longer there.
pub replacement_lost :
    (fuel : ℕ) (maker : AccountIdx) (request : Handle) (leg : LegId) (price : Price)
    (quantity : Size) (expires_at now : Ts) (t u : Turn) (entry : Request) (g : Leg) (h : Handle)
    → Slab.get (ledger_of t).requests request ≡ some entry
    → leg_at entry leg ≡ some g
    → standing_quote_of fuel (ledger_of t).quotes g maker ≡ some (some h)
    → submit_quote fuel maker request leg price quantity expires_at now t
      ≡ some (err (ledger_refused insufficient_free), u)
    → Slab.get (ledger_of u).quotes h ≡ none
replacement_lost fuel maker request leg price quantity expires_at now t u entry g h at here stands
      e =
    Post-read (Lost h) (submit_quote fuel maker request leg price quantity expires_at now t)
      (submit_quote-Lost fuel maker request leg price quantity expires_at now t entry g h at here
        stands)
      e refl
