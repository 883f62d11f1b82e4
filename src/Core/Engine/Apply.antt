-- ===== src/Core/Engine/Apply.antt =====
-- crates/core/src/engine.rs, `apply`: normalisation of the accounts that a command touches, then its
-- handler.
use rfq_matching_settlement.Prelude.{ℕ, Option, none, some, List, [], ◌∷◌}
use rfq_matching_settlement.Prelude.Result.{Result}
use rfq_matching_settlement.Prelude.Process.{◌>>=◌, ◌>>◌, throw, gets, change, ok_or}
use rfq_matching_settlement.Core.Types.{Ts, AccountIdx}
use rfq_matching_settlement.Core.Command.{
  Command, credit_account, register_contract, submit_request, reject_request, submit_quote,
  cancel_quote, report_oracle_status, settle_escrow, poll_settlement, accept_request,
}
use rfq_matching_settlement.Core.Slab
use rfq_matching_settlement.Core.Slab.{Handle}
use rfq_matching_settlement.Core.Request.{Request}
use rfq_matching_settlement.Core.Quote.{Quote}
use rfq_matching_settlement.Core.Ledger
use rfq_matching_settlement.Core.Ledger.{Ledger, LedgerError}
use rfq_matching_settlement.Core.Ledger.Phase.{release_expired}
use rfq_matching_settlement.Core.Engine.{
  quotes_are_irrevocable, unknown_quote, Turn, Handler, ledger_of, with_ledger, run_ledger,
}
use rfq_matching_settlement.Core.Engine.Submit
use rfq_matching_settlement.Core.Engine.Offer
use rfq_matching_settlement.Core.Engine.Release
use rfq_matching_settlement.Core.Engine.Accept
use rfq_matching_settlement.Core.Engine.Poll
use rfq_matching_settlement.Core.Engine.Poll.{resolve_nonce}
use rfq_matching_settlement.Core.Engine.Resolve

abbrev requester_of : Option Request → Option AccountIdx
requester_of none = none
requester_of (some r) = some r.requester

abbrev maker_of : Option Quote → Option AccountIdx
maker_of none = none
maker_of (some q) = some q.maker

abbrev request_in : Option Handle → Ledger → Option Request
request_in none l = none
request_in (some h) l = Slab.get l.requests h

-- `touched_accounts`.
unfoldable pub touched_accounts : Command → Ledger → List (Option AccountIdx)
unfolding resolve_nonce
touched_accounts (credit_account account free) l = some account ∷ none ∷ []
touched_accounts (register_contract k date) l = none ∷ none ∷ []
touched_accounts (submit_request requester deadline legs n) l = some requester ∷ none ∷ []
touched_accounts (reject_request request) l = requester_of (Slab.get l.requests request) ∷ none ∷ []
touched_accounts (submit_quote maker request leg price quantity expires_at) l =
    some maker ∷ requester_of (Slab.get l.requests request) ∷ []
touched_accounts (cancel_quote quote) l = maker_of (Slab.get l.quotes quote) ∷ none ∷ []
touched_accounts (report_oracle_status k status) l = none ∷ none ∷ []
touched_accounts (settle_escrow escrow k) l = none ∷ none ∷ []
touched_accounts (poll_settlement nonce status) l =
    requester_of (request_in (resolve_nonce nonce l) l) ∷ none ∷ []
touched_accounts (accept_request request expected n) l =
    requester_of (Slab.get l.requests request) ∷ none ∷ []

-- The result of a normalisation is not looked at.
abbrev pub keep_ledger : Option (Result LedgerError ℕ × Ledger) → Option Ledger
keep_ledger none = none
keep_ledger (some (r, l)) = some l

unfoldable pub normalise_all : ℕ → Ts → List (Option AccountIdx) → Ledger → Option Ledger
normalise_all fuel now [] l = some l
normalise_all fuel now (none ∷ rest) l = normalise_all fuel now rest l
normalise_all fuel now (some account ∷ rest) l =
    elim (keep_ledger (release_expired fuel account now l)) [
      | none ↦ none
      | some l1 ↦ normalise_all fuel now rest l1
    ]

abbrev pub finish_normalise : Option Ledger → Turn → Option Turn
finish_normalise none t = none
finish_normalise (some l) t = some (with_ledger l t)

unfoldable pub normalise : ℕ → Command → Ts → Turn → Option Turn
unfolding normalise_all touched_accounts
normalise fuel c now t =
    finish_normalise (normalise_all fuel now (touched_accounts c (ledger_of t)) (ledger_of t)) t

-- A ledger operation without a loop.
abbrev pub total :
    {A : Type 0} → Result LedgerError A × Ledger → Option (Result LedgerError A × Ledger)
total p = some p

-- The handler of each command.
unfoldable pub dispatch : ℕ → Command → Ts → Handler (Unit {0})
dispatch fuel (credit_account account free) now =
    run_ledger (λ l. total (Ledger.apply_mirror_update account free l))
dispatch fuel (register_contract k date) now =
    run_ledger (λ l. total (Ledger.register_contract k date l))
dispatch fuel (submit_request requester deadline specs n) now =
    Submit.submit_request fuel requester deadline specs n now
dispatch fuel (reject_request request) now = Release.reject_request fuel request now
dispatch fuel (submit_quote maker request leg price quantity expires_at) now =
    Offer.submit_quote fuel maker request leg price quantity expires_at now
dispatch fuel (cancel_quote quote) now = do
  found ← gets (λ t. Slab.get (ledger_of t).quotes quote)
  known ← ok_or found unknown_quote
  throw quotes_are_irrevocable
dispatch fuel (report_oracle_status k status) now = Resolve.report_oracle_status k status
dispatch fuel (settle_escrow escrow k) now = Resolve.settle_escrow escrow k now
dispatch fuel (poll_settlement nonce status) now = Poll.poll_settlement nonce status now
dispatch fuel (accept_request request expected n) now =
    Accept.accept_request fuel request expected n now

-- `apply`.
unfoldable pub apply : ℕ → Command → Ts → Handler (Unit {0})
unfolding normalise dispatch
apply fuel c now = do change (normalise fuel c now); dispatch fuel c now
