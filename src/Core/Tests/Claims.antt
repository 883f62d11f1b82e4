-- ===== src/Core/Tests/Claims.antt =====
-- The theorems on the ledger of crates/core, applied to concrete inputs.
use rfq_matching_settlement.Prelude.{
  zero, suc, ◌+◌, ◌≤◌, ◌≡◌, refl, [], ◌∷◌, some, arith, get_elem?, u64_max,
}
use rfq_matching_settlement.Prelude.Result.{Result, ok, err}
use rfq_matching_settlement.Core.Slab
use rfq_matching_settlement.Core.Slab.{nil, Handle, Slab, vacant, occupied}
use rfq_matching_settlement.Core.Account.{MirroredBalance}
use rfq_matching_settlement.Core.Reservation.{Reservation, quote_owner, request_owner, new_reserved}
use rfq_matching_settlement.Core.Quote.{Quote, new_quote}
use rfq_matching_settlement.Core.Request.{Request, new_request}
use rfq_matching_settlement.Core.Ledger.{
  Ledger, LedgerError, reservation_committed, insufficient_free, slab_exhausted, request_slab,
  check_reservable,
}
use rfq_matching_settlement.Core.Ledger.Chains.{release, commit, reservation_at}
use rfq_matching_settlement.Core.Ledger.Tallies.{Tallied}
use rfq_matching_settlement.Core.Ledger.Committed.{commit-Tallied, committed_not_released}
use rfq_matching_settlement.Core.Ledger.Admission.{
  reserve, open_quote_reserving, open_request_reserving,
}
use rfq_matching_settlement.Core.Ledger.Reserve.{Back, starts, follows}
use rfq_matching_settlement.Core.Slab.Free.{IsWell}
use rfq_matching_settlement.Core.Ledger.Atomic.{open_quote-atomic}
use rfq_matching_settlement.Core.Ledger.Covered.{Reserves, reserve-Reserves, tail_of}

abbrev claim : Handle
claim = record { index = 0; generation = 0 }

abbrev request : Handle
request = record { index = 0; generation = 0 }

abbrev standing : Reservation
standing = new_reserved 0 30 (request_owner request) 50

abbrev balance : MirroredBalance
balance = record { free = 100; reserved = 30; committed = 0; expiry_head = 0; expiry_tail = 0 }

-- One account with one claim, backing one request; one quote without a claim.
abbrev books : Ledger
books = record {
  accounts = balance ∷ [];
  contracts = [];
  reservations = record {
    slots =
        record { generation = 0; state = occupied standing }
        ∷ record { generation = 0; state = vacant nil }
        ∷ [];
    free_head = 1;
    live = 1;
  };
  requests = record {
    slots =
        record {
          generation = 0;
          state = occupied (record (new_request 0 50 [] 0) { claim = some claim });
        }
        ∷ [];
    free_head = nil;
    live = 1;
  };
  quotes = record {
    slots = record { generation = 0; state = occupied (new_quote 0 request 0 400000 10 60 0) } ∷ [];
    free_head = nil;
    live = 1;
  };
}

books-Tallied : Tallied books
books-Tallied zero e h = ground arith
books-Tallied (suc a) e h = ground arith

known :
    (r : Reservation)
    → Slab.get books.reservations claim ≡ some r
    → (b : MirroredBalance) × (get_elem? books.accounts r.account ≡ some b)
      × (b.reserved + b.committed ≤ u64_max)
unfolding Slab.get
known r h = (balance, ground arith, omega arith)

commit-Tallied_example : Tallied (commit claim request books).1
commit-Tallied_example = commit-Tallied claim request books books-Tallied

commits : commit claim request books ≡ (ok tt, (commit claim request books).1)
unfolding commit Slab.get
commits = refl

committed_not_released_example :
    release claim (commit claim request books).1
    ≡ (err reservation_committed, (commit claim request books).1)
committed_not_released_example =
    committed_not_released claim request books (commit claim request books).1 commits

releases : release claim books ≡ (ok 30, (release claim books).1)
unfolding release Slab.get
releases = refl

chain : Back books.reservations (tail_of (get_elem? books.accounts 0)) (0 ∷ [])
unfolding reservation_at Slab.handle_at Slab.get
chain = follows 0 standing 50 nil nil [] refl refl refl starts

reserve-Reserves_example :
    (out : Result LedgerError Handle × Ledger) × (reserve 2 0 70 60
        (quote_owner (record { index = 0; generation = 0 }))
        books
      ≡ some out)
    × Reserves 0 70 books out
reserve-Reserves_example =
    reserve-Reserves 0 70 60 (quote_owner (record { index = 0; generation = 0 })) books (0 ∷ [])
      books-Tallied chain

reservations-IsWell : IsWell books.reservations (1 ∷ [])
reservations-IsWell = record {
  head = refl;
  chained = (refl, tt);
  distinct = (tt, tt);
  counted = refl;
  small = omega arith;
}

quotes-IsWell : IsWell books.quotes []
quotes-IsWell = record {
  head = refl;
  chained = tt;
  distinct = tt;
  counted = refl;
  small = omega arith;
}

requests-IsWell : IsWell books.requests []
requests-IsWell = record {
  head = refl;
  chained = tt;
  distinct = tt;
  counted = refl;
  small = omega arith;
}

abbrev offer : Quote
offer = new_quote 0 request 0 400000 10 60 1

quote_refused : open_quote_reserving 2 offer 80 books ≡ some (err insufficient_free, books)
unfolding open_quote_reserving check_reservable
quote_refused = refl

open_quote-atomic_example : books ≡ books
open_quote-atomic_example =
    open_quote-atomic 2 offer 80 books [] (1 ∷ []) quotes-IsWell reservations-IsWell quote_refused

abbrev ask : Request
ask = new_request 0 60 [] 0

request_refused :
    open_request_reserving 2 ask 70 books ≡ some (err (slab_exhausted request_slab), books)
unfolding open_request_reserving check_reservable
request_refused = refl
