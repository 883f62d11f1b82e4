-- ===== src/Core/Reservation.antt =====
-- crates/core/src/reservation.rs: claims, each on one of two chains.
use rfq_matching_settlement.Prelude.{ℕ, Bool, true, false, Option, none, some, leb}
use rfq_matching_settlement.Core.Types.{Amount, Ts, AccountIdx}
use rfq_matching_settlement.Core.Slab.{nil, Handle}

pub data ResOwner : Type 0 where
  quote_owner : Handle → ResOwner
  request_owner : Handle → ResOwner

pub data ClaimLinks : Type 0 where
  reserved_links : (expires_at : Ts) → (prev : ℕ) → (next : ℕ) → ClaimLinks
  committed_links : (request : Handle) → (prev : ℕ) → (next : ℕ) → ClaimLinks

pub record Reservation : Type 0 where
  pub account : AccountIdx
  pub amount : Amount
  pub owner : ResOwner
  pub links : ClaimLinks

-- `Reservation::reserved`.
abbrev pub new_reserved : AccountIdx → Amount → ResOwner → Ts → Reservation
new_reserved account amount owner expires_at = record {
  account = account;
  amount = amount;
  owner = owner;
  links = reserved_links expires_at nil nil;
}

abbrev pub links_committed : ClaimLinks → Bool
links_committed (reserved_links t prev next) = false
links_committed (committed_links r prev next) = true

-- `Reservation::is_committed`.
abbrev pub is_committed : Reservation → Bool
is_committed r = links_committed r.links

abbrev pub links_request : ClaimLinks → Option Handle
links_request (reserved_links t prev next) = none
links_request (committed_links r prev next) = some r

-- `Reservation::committed_to`.
abbrev pub committed_to : Reservation → Option Handle
committed_to r = links_request r.links

abbrev pub links_expiry : ClaimLinks → Option Ts
links_expiry (reserved_links t prev next) = some t
links_expiry (committed_links r prev next) = none

-- `Reservation::expires_at`.
abbrev pub expires_at : Reservation → Option Ts
expires_at r = links_expiry r.links

abbrev pub links_expired : ClaimLinks → Ts → Option Bool
links_expired (reserved_links t prev next) now = some (leb t now)
links_expired (committed_links r prev next) now = none

-- `Reservation::is_expired_at`.
abbrev pub is_expired_at : Reservation → Ts → Option Bool
is_expired_at r now = links_expired r.links now

-- `Reservation::neighbours`.
abbrev pub prev_of : ClaimLinks → ℕ
prev_of (reserved_links t prev next) = prev
prev_of (committed_links r prev next) = prev

abbrev pub next_of : ClaimLinks → ℕ
next_of (reserved_links t prev next) = next
next_of (committed_links r prev next) = next

abbrev pub with_prev : ℕ → ClaimLinks → ClaimLinks
with_prev link (reserved_links t prev next) = reserved_links t link next
with_prev link (committed_links r prev next) = committed_links r link next

abbrev pub with_next : ℕ → ClaimLinks → ClaimLinks
with_next link (reserved_links t prev next) = reserved_links t prev link
with_next link (committed_links r prev next) = committed_links r prev link

-- `Reservation::set_prev`, `Reservation::set_next`.
abbrev pub set_prev : ℕ → Reservation → Reservation
set_prev link r = record r { links = with_prev link r.links }

abbrev pub set_next : ℕ → Reservation → Reservation
set_next link r = record r { links = with_next link r.links }
