-- ===== src/Core/Engine/Offer.antt =====
-- crates/core/src/engine.rs, `submit_quote`.
pub mod Replacing
use rfq_matching_settlement.Prelude.{ℕ, Option, none, some, ltb, leb, u64_max, saturating_add, not}
use rfq_matching_settlement.Prelude.Result
use rfq_matching_settlement.Prelude.Result.{Result, ok, err}
use rfq_matching_settlement.Prelude.Process.{
  ◌>>=◌, ◌>>◌, gets, modify, lift, change, run_pure, ok_or, err_if,
}
use rfq_matching_settlement.Core.Types.{
  Price, Size, Ts, LegId, AccountIdx, unit, maker_contribution, ts_saturating_sub,
}
use rfq_matching_settlement.Core.Slab
use rfq_matching_settlement.Core.Slab.{Handle}
use rfq_matching_settlement.Core.Quote.{Quote, released, new_quote}
use rfq_matching_settlement.Core.Request.{Leg, leg_at, is_open}
use rfq_matching_settlement.Core.Selection.{standing_quote_of}
use rfq_matching_settlement.Core.Event.{quote_rejected, replaced}
use rfq_matching_settlement.Core.Ledger.{Ledger}
use rfq_matching_settlement.Core.Ledger.Phase.{phase_close_quote}
use rfq_matching_settlement.Core.Ledger.Admission.{open_quote_reserving}
use rfq_matching_settlement.Core.Engine.{
  EngineError, unknown_request, request_not_open, request_deadline_passed, unknown_leg,
  quote_expiry_in_the_past, quote_ttl_too_long, price_out_of_range, quote_too_small, unknown_quote,
  worse_replacement, leg_quote_limit_reached, product_overflow, Turn, Handler, ledger_of,
  with_ledger, on_ledger, emit, check_headroom, run_ledger, update_quote, set_quote_state,
}
use rfq_matching_settlement.Core.Engine.Legs.{link_quote, unlink_quote, publish_selection}
use rfq_matching_settlement.Core.Engine.Release.{release_claim}

-- A standing quote is only replaced by one that is no worse; a further quote needs room on the leg.
abbrev pub may_stand : Option Handle → Price → Leg → ℕ → Ledger → Result EngineError (Unit {0})
may_stand (some h) price g limit l =
    Result.◌>>=◌ (Result.ok_or (Slab.get l.quotes h) unknown_quote)
      (λ existing. Result.err_if (ltb existing.price price) worse_replacement)
may_stand none price g limit l = Result.err_if (leb limit g.quote_count) leg_quote_limit_reached

abbrev pub claim_of : Option Quote → Option Handle
claim_of none = none
claim_of (some q) = q.claim

abbrev pub finish_replace : Handle → Turn → Option Ledger → Option Turn
finish_replace h t none = none
finish_replace h t (some l) = some (with_ledger (phase_close_quote h l) t)

-- The standing quote is released, unlinked and closed.
unfoldable pub replace : ℕ → Handle → LegId → AccountIdx → Option Handle → Turn → Option Turn
unfolding update_quote unlink_quote
replace fuel request leg maker none t = some t
replace fuel request leg maker (some h) t =
    let l1 = release_claim (claim_of (Slab.get (ledger_of t).quotes h)) (ledger_of t) in
    let l2 = update_quote h (set_quote_state released) l1 in
    let t2 = emit (quote_rejected h maker replaced) (with_ledger l2 t) in
    finish_replace h t2 (unlink_quote fuel request leg h l2)

abbrev next_quote : Turn → Turn
next_quote t = record t {
  engine = record t.engine { next_arrival = saturating_add u64_max t.engine.next_arrival 1 };
}

-- The commit phase, which can still be refused by the ledger.
unfoldable pub admit :
    ℕ
    → AccountIdx
    → Handle
    → LegId
    → Price
    → Size
    → Ts
    → Ts
    → Option Handle
    → ℕ
    → Handler (Unit {0})
unfolding replace link_quote publish_selection
admit fuel maker request leg price quantity expires_at now standing contribution = do
  change (replace fuel request leg maker standing)
  arrival ← gets (λ t. t.engine.next_arrival)
  modify next_quote
  opened ← run_ledger (
      open_quote_reserving fuel (new_quote maker request leg price quantity expires_at arrival)
        contribution)
  modify (on_ledger (link_quote request leg opened.0))
  change (publish_selection fuel request leg now)

unfoldable pub submit_quote :
    ℕ → AccountIdx → Handle → LegId → Price → Size → Ts → Ts → Handler (Unit {0})
unfolding admit standing_quote_of leg_at maker_contribution
submit_quote fuel maker request leg price quantity expires_at now = do
  config ← gets (λ t. t.engine.config)
  l ← gets ledger_of
  entry ← ok_or (Slab.get l.requests request) unknown_request
  err_if (not (is_open entry.state)) request_not_open
  err_if (leb entry.deadline now) request_deadline_passed
  g ← ok_or (leg_at entry leg) unknown_leg
  err_if (leb expires_at now) quote_expiry_in_the_past
  err_if (ltb config.max_quote_ttl (ts_saturating_sub expires_at now)) quote_ttl_too_long
  err_if (ltb unit price) price_out_of_range
  err_if (ltb quantity g.size) quote_too_small
  standing ← run_pure (standing_quote_of fuel l.quotes g maker)
  lift (may_stand standing price g config.max_quotes_per_leg l)
  contribution ← ok_or (maker_contribution g.size price) product_overflow
  check_headroom 2
  admit fuel maker request leg price quantity expires_at now standing contribution
