-- ===== src/Core/Account.antt =====
-- crates/core/src/account.rs: the mirrored balance with its two claim totals and the endpoints of
-- its expiry chain. A link is a slot's index, or nil.
use rfq_matching_settlement.Prelude.{ℕ, Option, none, some, ◌==◌, if◌then◌else◌, saturating_sub}
use rfq_matching_settlement.Core.Types.{Amount}
use rfq_matching_settlement.Core.Slab.{nil}

-- `Link::index`.
abbrev pub link_index : ℕ → Option ℕ
link_index link = if link == nil then none else some link

pub record MirroredBalance : Type 0 where
  pub free : Amount
  pub reserved : Amount
  pub committed : Amount
  pub expiry_head : ℕ
  pub expiry_tail : ℕ

-- `MirroredBalance::default`.
abbrev pub empty_balance : MirroredBalance
empty_balance = record {
  free = 0;
  reserved = 0;
  committed = 0;
  expiry_head = nil;
  expiry_tail = nil;
}

-- `MirroredBalance::available`.
abbrev pub available : MirroredBalance → Amount
available b = saturating_sub (saturating_sub b.free b.reserved) b.committed
