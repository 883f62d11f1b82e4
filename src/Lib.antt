-- ===== src/Lib.antt =====
-- RFQ matching and settlement: the matching core, the chain side that settles for it, and what
-- connects them.
--
-- The core crate (crates/core) holds the matching engine: a single writer that applies commands
-- one at a time to its ledger of claims, requests, quotes and contracts, and writes events for
-- others to carry. The runtime crate (crates/runtime) gives external names their indices in its
-- gateway turns the engine's settlement intent into a bundle, and runs the engine on a stream of
-- commands that it logs. The chain crate (crates/chain) holds custody, the oracle, the log and the
-- indexer. An accepted request becomes a bundle that carries the request's nonce; custody
-- validates and settles a bundle as a whole, forms one escrow for each leg, and writes what
-- happened to the log; the indexer turns confirmed log entries into engine commands; the oracle's
-- status of a contract decides how its escrows are paid out.
--
-- Files of the core crate, by module:
--
-- * Core.Types is crates/core/src/types.rs: amounts, prices, sizes and instants as numbers, with
--   the checked and saturating operations of their widths (Prelude.Words). Types.Contributions has
--   the split of a leg's notional.
-- * Core.Config is crates/core/src/config.rs: `validate` and the defaults. Config.Timelock says
--   what a validated policy guarantees.
-- * Core.Contract is crates/core/src/contract.rs: statuses, outcomes and payouts.
--   Contract.Monotone has their laws.
-- * Core.Settlement is crates/core/src/settlement.rs, with the nonce of
--   crates/core/src/request.rs.
-- * Core.Slab is crates/core/src/slab.rs: slots in a list, the free list threaded through the
--   vacant ones. Slab.Fresh, Slab.Free and Slab.Freeing have the well-formedness, Slab.Reads what
--   a handle resolves to, Slab.Past and Slab.Stale what becomes of a removed one.
-- * Core.Command, Core.Quote and Core.Request are the data of crates/core/src/command.rs, quote.rs
--   and request.rs.
-- * Core.Account and Core.Reservation are the data of crates/core/src/account.rs and
--   reservation.rs.
-- * Core.Ledger is crates/core/src/ledger.rs: the tables. Ledger.Chains has the two chains with
--   release and commit, Ledger.Admission the operations that take a claim, Ledger.Phase
--   normalisation and the commit phase. Ledger.Bare says what linking leaves alone, Ledger.Claims
--   and Ledger.Tallies compare the stored totals with the sums of the claims, and Ledger.Release,
--   Commit, Committed, Reserve, Covered, Atomic and Phase.Keeps have the operations. Ledger.Sound
--   is the state of the books that the engine relies on.
-- * Core.Event is crates/core/src/event.rs, and Event.Room the room of the buffer.
-- * Core.Engine is crates/core/src/engine.rs. Engine.Terms and Submit are submit_request, Offer is
--   submit_quote, Plan and Accept are accept_request, Poll is poll_settlement, Resolve is
--   report_oracle_status and settle_escrow, Release is reject_request with the release of a leg,
--   Legs the chain of quotes of a leg, Apply the whole of a command. Engine.Steps has the rules by
--   which the handlers are taken apart, Frame what the operations on the ledger leave alone, with
--   Frame.Laws the laws a relation on ledgers needs to hold over a handler, Books the totals over
--   a command, Lifecycle what becomes of requests and contracts; Plan.Fills, Poll.Waiting,
--   Submit.Refused and Offer.Replacing are on single handlers.
-- * Core.Selection is crates/core/src/selection.rs: the walks over a leg's chain of quotes.
--   Selection.Best has the comparison with the best candidate.
--
-- Files of the chain crate, by module:
--
-- * Chain.Bundle, Chain.Escrow and Chain.Log are crates/chain/src/bundle.rs, escrow.rs and log.rs.
-- * Chain.Custody is crates/chain/src/custody.rs: the record CustodyLedger and the account
--   operations. Custody.Payout is settle_escrow, Custody.Transaction the validation of a bundle
--   with its table of debits, Custody.Inclusion the settlement, the queue and its inclusion.
-- * Custody.Conservation, PayoutConserves, PayoutShares, DebitTable, Tally, Commit and Settle have
--   the lemmas on single operations, and Custody.History those on sequences of calls, with
--   History.Overturns on a nonce that was reverted.
-- * Chain.Oracle is crates/chain/src/oracle.rs, with Oracle.Histories and Oracle.Window on
--   sequences of calls.
-- * Chain.Indexer is crates/chain/src/indexer.rs, with Indexer.Replay on draining a log twice.
--
-- Files of the runtime crate, by module:
--
-- * Runtime.Settlement is crates/runtime/src/settlement.rs: `bundle_from`. Settlement.Legs
--   compares the legs.
-- * Runtime.Gateway is crates/runtime/src/gateway.rs: `account_index`, `contract_index` and
--   `submit_terms` are account, contract and submit_request. Gateway.Interning has the index of a
--   contract.
-- * Runtime.Venue is crates/runtime/src/venue.rs with the sequence numbers of handoff.rs:
--   `run_engine` is the engine thread's loop over the commands it receives, `replay` the replay of
--   a log. An arrival has the command, the instant the clock gives for it, and whether the
--   channels to the logger and the publisher take what is sent. Venue.Replay and Venue.Unrecorded
--   compare a round with the replay of its log.
--
-- Conventions. A word is a native number, and each operation names the largest value of its width.
-- A method that changes its object and may fail returns the new state with an error too
-- (Prelude.Action, and Prelude.Process where its loops are on fuel). The engine's handlers act on
-- the engine together with the caller's event buffer. An instant is an argument where the source
-- samples its clock. A map is an association list. The test hook that runs on entry to a
-- settlement is a function on the ledger.
--
-- Fuel. `include_all` runs on fuel, and one round more than there are submissions is enough. The
-- walks of Core.Selection run on fuel, and one round more than the chain has quotes is enough. The
-- walk back along an expiry chain needs one round more than the chain has claims. Normalisation
-- and the handlers of the engine, a round of the venue and a replay run on fuel too: the theorems
-- on commands are about every command that ends, whatever the fuel. The walk of a committed list
-- is bounded by the capacity of the slab, as in the source.
--
-- Not modelled: the executable invariant checks of the ledger and the debug assertions; the size
-- of the contract registry; the threads of the venue with its publisher and logger, which only
-- receive; wall clocks, the harness and the scenario programs, which are input and output around
-- the rest.
pub mod Prelude
pub mod Core
pub mod Chain
pub mod Runtime
