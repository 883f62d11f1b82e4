-- ===== src/Core/Engine/Frame/Legs.antt =====
-- crates/core/src/engine.rs: the helpers of the commit phase stay inside every relation between
-- ledgers that the laws describe.
use rfq_matching_settlement.Prelude.{
  ℕ, zero, suc, ◌+◌, ◌≡◌, refl, inl, inr, Option, none, some, List, [], ◌∷◌, take, arith, get_elem?,
  Option-cases, Bool-cases,
}
use rfq_matching_settlement.Prelude.Result.{Result, ok, err}
use rfq_matching_settlement.Core.Types.{Amount, AccountIdx, Ts, LegId}
use rfq_matching_settlement.Core.Config.{max_legs_bound, max_quotes_per_leg_bound}
use rfq_matching_settlement.Core.Slab
use rfq_matching_settlement.Core.Slab.{nil, Handle, Slab}
use rfq_matching_settlement.Core.Quote.{Quote, released, consumed, is_live_at}
use rfq_matching_settlement.Core.Request.{Request, Leg, Selection, write_leg}
use rfq_matching_settlement.Core.Selection.{NoQuoteReason, quote_at, best_on_leg, walk_leg}
use rfq_matching_settlement.Core.Event.{QuoteRejectReason, request_rejected, outbid}
use rfq_matching_settlement.Core.Ledger.{Ledger}
use rfq_matching_settlement.Core.Ledger.Phase.{phase_close_quote}
use rfq_matching_settlement.Core.Engine.{
  Turn, ledger_of, with_ledger, on_ledger, emit, update_quote, update_request, set_quote_state,
}
use rfq_matching_settlement.Core.Engine.Legs.{
  request_leg, write_found, update_leg, link_quote, names, next_on_leg_of, one_less, unlink_from,
  unlink_quote, publish_best, publish_selection, is_published,
}
use rfq_matching_settlement.Core.Engine.Release.{
  without, release_claim, notice, finish_release, release_found, release_all, release_leg,
  release_legs, spent_quotes, close_all, close_consumed_quotes,
}
use rfq_matching_settlement.Core.Engine.Offer.{claim_of, replace, finish_replace}
use rfq_matching_settlement.Core.Engine.Accept.{consume, settle_legs, winner_at, commit_claim}
use rfq_matching_settlement.Core.Engine.Poll.{notify_failed}
use rfq_matching_settlement.Core.Engine.Frame.Laws.{Laws, Inside, TurnInside}

module _ (K : Ledger → Ledger → Type 0) (laws : Laws K) where
  keeps_update_quote : (h : Handle) (f : Quote → Quote) (l : Ledger) → K l (update_quote h f l)
  unfolding update_quote
  keeps_update_quote h f l = laws.on_quotes (Slab.modify h f l.quotes) l

  keeps_close_quote : (h : Handle) (l : Ledger) → K l (phase_close_quote h l)
  unfolding phase_close_quote
  keeps_close_quote h l = laws.on_quotes (Slab.remove h l.quotes).1 l

  write_found_state :
      (o : Option Leg) (leg : LegId) (f : Leg → Leg) (r : Request)
      → (write_found o leg f r).state ≡ r.state
  unfolding write_leg
  write_found_state none leg f r = refl
  write_found_state (some g) leg f r = ground arith

  keeps_update_leg :
      (request : Handle) (leg : LegId) (f : Leg → Leg) (l : Ledger)
      → K l (update_leg request leg f l)
  unfolding update_leg update_request
  keeps_update_leg request leg f l =
      laws.on_request request (λ r. write_found (get_elem? r.slots leg) leg f r) l
        (λ r. write_found_state (get_elem? r.slots leg) leg f r)

  pub keeps_link_quote :
      (request : Handle) (leg : LegId) (h : Handle) (l : Ledger) → K l (link_quote request leg h l)
  unfolding link_quote
  keeps_link_quote request leg h l =
      laws.transitive (keeps_update_quote h _ l) (keeps_update_leg request leg _ _)

  keeps_unlink_from :
      (fuel : ℕ) (request : Handle) (leg : LegId) (h : Handle) (cursor : ℕ) (l : Ledger)
      → Inside K l (unlink_from fuel request leg h cursor l)
  unfolding unlink_from
  keeps_unlink_from zero request leg h cursor l = tt
  keeps_unlink_from (suc fuel) request leg h cursor l =
      elim (Option-cases (quote_at l.quotes cursor)) [
        | inl e ↦ rw (unlink_from, e) (laws.reflexive l)
        | inr (p, e) ↦
            let after = next_on_leg_of (Slab.get l.quotes h) in
            let f : Quote → Quote = λ (q : Quote). record q { next_on_leg = after } in
            elim (Bool-cases (names p.1.next_on_leg h.index)) [
              | inl y ↦
                  rw (unlink_from, e, y)
                    (laws.transitive (keeps_update_quote p.0 f l)
                      (keeps_update_leg request leg one_less (update_quote p.0 f l)))
              | inr n ↦
                  rw (unlink_from, e, n) (keeps_unlink_from fuel request leg h p.1.next_on_leg l)
            ]
      ]

  pub keeps_unlink_quote :
      (fuel : ℕ) (request : Handle) (leg : LegId) (h : Handle) (l : Ledger)
      → Inside K l (unlink_quote fuel request leg h l)
  unfolding unlink_quote
  keeps_unlink_quote fuel request leg h l = elim (Option-cases (request_leg request leg l)) [
    | inl e ↦ rw (unlink_quote, e) (laws.reflexive l)
    | inr (g, e) ↦ elim (Bool-cases (names g.quotes_head h.index)) [
      | inl y ↦ rw (unlink_quote, e, y) (keeps_update_leg request leg _ l)
      | inr n ↦ rw (unlink_quote, e, n) (keeps_unlink_from fuel request leg h g.quotes_head l)
    ]
  ]

  inside_trans : {l m : Ledger} (o : Option Turn) → K l m → TurnInside K m o → TurnInside K l o
  inside_trans none k n = tt
  inside_trans (some v) k n = laws.transitive k n

  pub inside_read :
      {l : Ledger} {u : Turn} (o : Option Turn) → TurnInside K l o → o ≡ some u → K l (ledger_of u)
  inside_read o k e = rw e at k

  keeps_publish_best :
      (g : Leg) (request : Handle) (leg : LegId) (r : Result NoQuoteReason Selection) (t : Turn)
      → K (ledger_of t) (ledger_of (publish_best g request leg r t))
  keeps_publish_best g request leg (err e) t = laws.reflexive (ledger_of t)
  keeps_publish_best g request leg (ok best) t =
      elim (Bool-cases (is_published g.published best.price)) [
        | inl y ↦ rw (publish_best, y) (laws.reflexive (ledger_of t))
        | inr n ↦ rw (publish_best, n) (keeps_update_leg request leg _ (ledger_of t))
      ]

  pub keeps_publish_selection :
      (fuel : ℕ) (request : Handle) (leg : LegId) (now : Ts) (t : Turn)
      → TurnInside K (ledger_of t) (publish_selection fuel request leg now t)
  unfolding publish_selection
  keeps_publish_selection fuel request leg now t =
      elim (Option-cases (request_leg request leg (ledger_of t))) [
        | inl e ↦ rw (publish_selection, e) (laws.reflexive (ledger_of t))
        | inr (g, e) ↦ elim (Option-cases (best_on_leg fuel (ledger_of t).quotes g now)) [
          | inl q ↦ rw (publish_selection, e, q) tt
          | inr (r, q) ↦ rw (publish_selection, e, q) (keeps_publish_best g request leg r t)
        ]
      ]

  pub keeps_release_claim : (c : Option Handle) (l : Ledger) → K l (release_claim c l)
  keeps_release_claim none l = laws.reflexive l
  keeps_release_claim (some c) l = laws.releases c l

  keeps_finish_release :
      (h : Handle) {l : Ledger} (t : Turn) (o : Option Ledger)
      → K l (ledger_of t)
      → Inside K (ledger_of t) o
      → TurnInside K l (finish_release h t o)
  keeps_finish_release h t none a b = tt
  keeps_finish_release h t (some m) a b =
      laws.transitive a (laws.transitive b (keeps_close_quote h m))

  keeps_release_found :
      (fuel : ℕ) (request : Handle) (leg : LegId) (now : Ts) (reason : QuoteRejectReason)
      (h : Handle) (q : Quote) (t : Turn)
      → TurnInside K (ledger_of t) (release_found fuel request leg now reason h q t)
  unfolding release_found
  keeps_release_found fuel request leg now reason h q t =
      let l1 = release_claim q.claim (ledger_of t) in
      let l2 = update_quote h (set_quote_state released) l1 in
      let t2 = emit (notice (is_live_at q now) h q reason) (with_ledger l2 t) in
      keeps_finish_release h t2 (unlink_quote fuel request leg h l2)
        (laws.transitive (keeps_release_claim q.claim (ledger_of t))
          (keeps_update_quote h (set_quote_state released) l1))
        (keeps_unlink_quote fuel request leg h l2)

  keeps_release_all :
      (fuel : ℕ) (request : Handle) (leg : LegId) (now : Ts) (reason : QuoteRejectReason)
      (hs : List Handle) (t : Turn)
      → TurnInside K (ledger_of t) (release_all fuel request leg now reason hs t)
  unfolding release_all
  keeps_release_all fuel request leg now reason [] t = laws.reflexive (ledger_of t)
  keeps_release_all fuel request leg now reason (h ∷ hs) t =
      elim (Option-cases (Slab.get (ledger_of t).quotes h)) [
        | inl e ↦ rw (release_all, e) (keeps_release_all fuel request leg now reason hs t)
        | inr (q, e) ↦
            let kept = keeps_release_found fuel request leg now reason h q t in
            elim (Option-cases (release_found fuel request leg now reason h q t)) [
              | inl x ↦ rw (release_all, e, x) tt
              | inr (u, x) ↦
                  rw (release_all, e, x)
                    (inside_trans (release_all fuel request leg now reason hs u)
                      (inside_read (release_found fuel request leg now reason h q t) kept x)
                      (keeps_release_all fuel request leg now reason hs u))
            ]
      ]

  keeps_release_leg :
      (fuel : ℕ) (request : Handle) (leg : LegId) (keep : Option Selection) (now : Ts)
      (reason : QuoteRejectReason) (t : Turn)
      → TurnInside K (ledger_of t) (release_leg fuel request leg keep now reason t)
  unfolding release_leg
  keeps_release_leg fuel request leg keep now reason t =
      elim (Option-cases (request_leg request leg (ledger_of t))) [
        | inl e ↦ rw (release_leg, e) (laws.reflexive (ledger_of t))
        | inr (g, e) ↦ elim (Option-cases (walk_leg fuel (ledger_of t).quotes g)) [
          | inl q ↦ rw (release_leg, e, q) tt
          | inr (hs, q) ↦
              rw (release_leg, e, q)
                (keeps_release_all fuel request leg now reason
                  (take max_quotes_per_leg_bound (without keep hs)) t)
        ]
      ]

  pub keeps_release_legs :
      (fuel rounds index : ℕ) (request : Handle) (now : Ts) (t : Turn)
      → TurnInside K (ledger_of t) (release_legs fuel rounds index request now t)
  unfolding release_legs
  keeps_release_legs fuel zero index request now t = laws.reflexive (ledger_of t)
  keeps_release_legs fuel (suc rounds) index request now t =
      let kept = keeps_release_leg fuel request index none now request_rejected t in
      elim (Option-cases (release_leg fuel request index none now request_rejected t)) [
        | inl e ↦ rw (release_legs, e) tt
        | inr (u, e) ↦
            rw (release_legs, e)
              (inside_trans (release_legs fuel rounds (index + 1) request now u)
                (inside_read (release_leg fuel request index none now request_rejected t) kept e)
                (keeps_release_legs fuel rounds (index + 1) request now u))
      ]

  keeps_close_all : (hs : List Handle) (l : Ledger) → K l (close_all hs l)
  unfolding close_all
  keeps_close_all [] l = laws.reflexive l
  keeps_close_all (h ∷ hs) l =
      laws.transitive (keeps_close_quote h l) (keeps_close_all hs (phase_close_quote h l))

  pub keeps_close_consumed : (request : Handle) (l : Ledger) → K l (close_consumed_quotes request l)
  unfolding close_consumed_quotes
  keeps_close_consumed request l =
      keeps_close_all (take max_legs_bound (spent_quotes request (Slab.entries l.quotes))) l

  keeps_finish_replace :
      (h : Handle) {l : Ledger} (t : Turn) (o : Option Ledger)
      → K l (ledger_of t)
      → Inside K (ledger_of t) o
      → TurnInside K l (finish_replace h t o)
  keeps_finish_replace h t none a b = tt
  keeps_finish_replace h t (some m) a b =
      laws.transitive a (laws.transitive b (keeps_close_quote h m))

  pub keeps_replace :
      (fuel : ℕ) (request : Handle) (leg : LegId) (maker : AccountIdx) (o : Option Handle)
      (t : Turn)
      → TurnInside K (ledger_of t) (replace fuel request leg maker o t)
  unfolding replace
  keeps_replace fuel request leg maker none t = laws.reflexive (ledger_of t)
  keeps_replace fuel request leg maker (some h) t =
      let c = claim_of (Slab.get (ledger_of t).quotes h) in
      let l1 = release_claim c (ledger_of t) in
      let l2 = update_quote h (set_quote_state released) l1 in
      keeps_finish_replace h _ (unlink_quote fuel request leg h l2)
        (laws.transitive (keeps_release_claim c (ledger_of t))
          (keeps_update_quote h (set_quote_state released) l1))
        (keeps_unlink_quote fuel request leg h l2)

  keeps_commit_claim :
      (c : Option Handle) (request : Handle) (x : Amount) (l : Ledger)
      → K l (commit_claim c request x l)
  keeps_commit_claim none request x l = laws.reflexive l
  keeps_commit_claim (some c) request x l = laws.commits c request x l

  keeps_consume : (w : Option Selection) (request : Handle) (l : Ledger) → K l (consume w request l)
  unfolding consume
  keeps_consume none request l = laws.reflexive l
  keeps_consume (some w) request l =
      laws.transitive (keeps_update_quote w.quote (set_quote_state consumed) l)
        (keeps_commit_claim (claim_of (Slab.get l.quotes w.quote)) request _ _)

  pub keeps_settle_legs :
      (fuel rounds index : ℕ) (request : Handle) (now : Ts) (winners : List (Option Selection))
      (t : Turn)
      → TurnInside K (ledger_of t) (settle_legs fuel rounds index request now winners t)
  unfolding settle_legs
  keeps_settle_legs fuel zero index request now winners t = laws.reflexive (ledger_of t)
  keeps_settle_legs fuel (suc rounds) index request now winners t =
      let w = winner_at winners index in
      let kept = keeps_release_leg fuel request index w now outbid t in
      elim (Option-cases (release_leg fuel request index w now outbid t)) [
        | inl e ↦ rw (settle_legs, e) tt
        | inr (u, e) ↦
            let v = on_ledger (consume w request) u in
            rw (settle_legs, e)
              (inside_trans (settle_legs fuel rounds (index + 1) request now winners v)
                (laws.transitive
                  (inside_read (release_leg fuel request index w now outbid t) kept e)
                  (keeps_consume w request (ledger_of u)))
                (keeps_settle_legs fuel rounds (index + 1) request now winners v))
      ]

pub notify_failed-ledger :
    (hs : List Handle) (t : Turn) → ledger_of (notify_failed hs t) ≡ ledger_of t
unfolding notify_failed
notify_failed-ledger [] t = refl
notify_failed-ledger (h ∷ hs) t = notify_failed-ledger hs _
