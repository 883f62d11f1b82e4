-- ===== src/Core/Ledger.antt =====
-- crates/core/src/ledger.rs: the ledger of claims, and the operations on its tables. The debug
-- assertions, which release builds drop, are not part of the model.
pub mod Chains
pub mod Claims
pub mod Bare
pub mod Tallies
pub mod Release
pub mod Commit
pub mod Committed
pub mod Admission
pub mod Reserve
pub mod Covered
pub mod Atomic
pub mod Sound
pub mod Phase
use rfq_matching_settlement.Prelude.{
  ℕ, Bool, true, false, not, Option, none, some, List, get_elem?, set, replicate, ltb, ◌==◌,
  if◌then◌else◌,
}
use rfq_matching_settlement.Prelude.Partial
use rfq_matching_settlement.Prelude.Result
use rfq_matching_settlement.Prelude.Result.{Result, ok, err}
use rfq_matching_settlement.Prelude.Action.{Action, ◌>>=◌, ◌>>◌, gets, modify, ok_or, err_if}
use rfq_matching_settlement.Core.Types.{Amount, Ts, AccountIdx, amount_add}
use rfq_matching_settlement.Core.Config.{Config}
use rfq_matching_settlement.Core.Contract.{
  Contract, ContractIdx, OracleStatus, new_contract, set_oracle_status,
}
use rfq_matching_settlement.Core.Slab
use rfq_matching_settlement.Core.Slab.{nil, Handle, Slab}
use rfq_matching_settlement.Core.Account.{MirroredBalance, link_index, empty_balance}
use rfq_matching_settlement.Core.Reservation.{ResOwner, quote_owner, request_owner, Reservation}
use rfq_matching_settlement.Core.Quote.{Quote}
use rfq_matching_settlement.Core.Request.{Request}

pub data SlabKind : Type 0 where
  reservation_slab request_slab quote_slab : SlabKind

pub data LedgerError : Type 0 where
  unknown_account : LedgerError
  slab_exhausted : (slab : SlabKind) → LedgerError
  stale_reservation reservation_committed stale_owner owner_already_claimed : LedgerError
  owner_still_claimed stale_request insufficient_free amount_overflow : LedgerError
  unknown_contract contract_identity_changed : LedgerError

pub record Ledger : Type 0 where
  pub accounts : List MirroredBalance
  pub contracts : List (Option Contract)
  pub reservations : Slab Reservation
  pub requests : Slab Request
  pub quotes : Slab Quote

abbrev tables :
    Config → Option (Slab Reservation) → Option (Slab Request) → Option (Slab Quote) → Option Ledger
tables c none s t = none
tables c (some r) none t = none
tables c (some r) (some s) none = none
tables c (some r) (some s) (some t) = some (record {
  accounts = replicate c.max_accounts empty_balance;
  contracts = replicate c.max_contracts none;
  reservations = r;
  requests = s;
  quotes = t;
})

-- `Ledger::new`: `none` is the startup panic on a slab as large as the nil link.
unfoldable pub new_tables : Config → Option Ledger
new_tables c =
    tables c (Slab.with_capacity c.max_reservations) (Slab.with_capacity c.max_requests)
      (Slab.with_capacity c.max_quotes)

abbrev pub write_account : AccountIdx → MirroredBalance → Ledger → Ledger
write_account account entry l = record l { accounts = set l.accounts account entry }

-- `if let Some(entry) = self.accounts.get_mut(..)`, and a write through it.
abbrev pub update_found :
    Option MirroredBalance → AccountIdx → (MirroredBalance → MirroredBalance) → Ledger → Ledger
update_found none account f l = l
update_found (some entry) account f l = write_account account (f entry) l

unfoldable pub update_account : AccountIdx → (MirroredBalance → MirroredBalance) → Ledger → Ledger
update_account account f l = update_found (get_elem? l.accounts account) account f l

-- `Ledger::apply_mirror_update`.
unfoldable pub apply_mirror_update : AccountIdx → Amount → Action Ledger LedgerError (Unit {0})
apply_mirror_update account amount = do
  found ← gets (λ l. get_elem? l.accounts account)
  entry ← ok_or found unknown_account
  modify (write_account account (record entry { free = amount }))

abbrev register_in : Option Contract → ContractIdx → Ts → Action Ledger LedgerError (Unit {0})
register_in (some existing) k date l =
    if existing.event_date == date then (ok tt, l) else (err contract_identity_changed, l)
register_in none k date l =
    (ok tt, record l { contracts = set l.contracts k (some (new_contract date)) })

-- `Ledger::register_contract`.
unfoldable pub register_contract : ContractIdx → Ts → Action Ledger LedgerError (Unit {0})
register_contract k date = do
  found ← gets (λ l. get_elem? l.contracts k)
  entry ← ok_or found unknown_contract
  register_in entry k date

abbrev record_status : Option (Option Contract) → ContractIdx → OracleStatus → Ledger → Ledger
record_status none k s l = l
record_status (some none) k s l = l
record_status (some (some c)) k s l = record l {
  contracts = set l.contracts k (some (set_oracle_status c s));
}

-- `Ledger::set_oracle_status`.
unfoldable pub record_oracle_status : ContractIdx → OracleStatus → Ledger → Ledger
record_oracle_status k s l = record_status (get_elem? l.contracts k) k s l

abbrev pub is_some : {A : Type 0} → Option A → Bool
is_some none = false
is_some (some a) = true

-- `Ledger::close_quote`.
unfoldable pub close_quote : Handle → Action Ledger LedgerError (Unit {0})
close_quote h = do
  found ← gets (λ l. Slab.get l.quotes h)
  quote ← ok_or found stale_owner
  err_if (is_some quote.claim) owner_still_claimed
  modify (λ l. record l { quotes = (Slab.remove h l.quotes).1 })

-- `Ledger::close_request`.
unfoldable pub close_request : Handle → Action Ledger LedgerError (Unit {0})
close_request h = do
  found ← gets (λ l. Slab.get l.requests h)
  entry ← ok_or found stale_request
  err_if (if is_some entry.claim then true else is_some (link_index entry.committed_head))
      owner_still_claimed
  modify (λ l. record l { requests = (Slab.remove h l.requests).1 })

-- `Ledger::check_reservable`: what the reserved total becomes.
unfoldable pub check_reservable : Ledger → AccountIdx → Amount → Result LedgerError Amount
check_reservable l account amount =
    Result.◌>>=◌ (Result.ok_or (get_elem? l.accounts account) unknown_account) (λ entry.
      Result.◌>>=◌
        (Result.ok_or
          (Partial.◌>>=◌ (amount_add entry.reserved entry.committed)
            (λ total. amount_add total amount))
          amount_overflow)
        (λ claimed.
          Result.◌>>=◌ (Result.err_if (ltb entry.free claimed) insufficient_free)
            (λ _. Result.ok_or (amount_add entry.reserved amount) amount_overflow)))

-- The claim of an owner, if the owner resolves.
abbrev pub claim_of_quote : Option Quote → Option (Option Handle)
claim_of_quote none = none
claim_of_quote (some q) = some q.claim

abbrev pub claim_of_request : Option Request → Option (Option Handle)
claim_of_request none = none
claim_of_request (some r) = some r.claim

abbrev pub owner_claim : ResOwner → Ledger → Option (Option Handle)
owner_claim (quote_owner h) l = claim_of_quote (Slab.get l.quotes h)
owner_claim (request_owner h) l = claim_of_request (Slab.get l.requests h)

-- `Ledger::set_owner_claim`.
unfoldable pub set_owner_claim : ResOwner → Option Handle → Ledger → Ledger
set_owner_claim (quote_owner h) claim l = record l {
  quotes = Slab.modify h (λ q. record q { claim = claim }) l.quotes;
}
set_owner_claim (request_owner h) claim l = record l {
  requests = Slab.modify h (λ r. record r { claim = claim }) l.requests;
}
