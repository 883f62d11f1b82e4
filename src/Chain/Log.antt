-- ===== src/Chain/Log.antt =====
-- crates/chain/src/log.rs: the append-only chain log.
use rfq_matching_settlement.Prelude.{
  ℕ, zero, suc, ◌+◌, ◌/◌, ◌%◌, ◌^◌, List, [], ◌∷◌, ◌++◌, replicate, ltb, leb, u32_max,
  if◌then◌else◌, u64_max, saturating_add, saturating_sub,
}
use rfq_matching_settlement.Core.Types.{Amount, AccountIdx, EscrowId}
use rfq_matching_settlement.Core.Contract.{ContractIdx, OracleStatus, Outcome}
use rfq_matching_settlement.Core.Settlement.{Nonce, TxStatus}

-- 32 bytes.
abbrev pub TxHash : Type 0
TxHash = List ℕ

pub data ChainPayload : Type 0 where
  balance_changed : (account : AccountIdx) → (available : Amount) → ChainPayload
  oracle_status_reported : (contract : ContractIdx) → (status : OracleStatus) → ChainPayload
  settlement_resolved : (nonce : Nonce) → (status : TxStatus) → ChainPayload
  escrow_settled :
      (escrow : EscrowId) → (contract : ContractIdx) → (outcome : Outcome) → ChainPayload

pub record ChainEvent : Type 0 where
  pub block : ℕ
  pub tx_hash : TxHash
  pub log_index : ℕ
  pub payload : ChainPayload

pub record ChainLog : Type 0 where
  pub entries : List ChainEvent
  pub head : ℕ
  pub next_tx : ℕ

-- `ChainLog::new`.
abbrev pub empty_log : ChainLog
empty_log = record { entries = []; head = 0; next_tx = 0 }

-- The `width` low bytes of a number, the most significant first (`to_be_bytes`).
abbrev pub be_bytes : ℕ → ℕ → List ℕ
be_bytes zero n = []
be_bytes (suc width) n = n / 256 ^ width % 256 ∷ be_bytes width n

-- The transaction counter in the first eight bytes, then zeros.
unfoldable pub hash_of : ℕ → TxHash
hash_of tx = be_bytes 8 tx ++ replicate 24 0

unfoldable pub advance_block : ChainLog → ChainLog
advance_block log = record log { head = saturating_add u64_max log.head 1 }

-- The entry that `append` writes, at the current head and in a transaction of its own.
unfoldable pub entry_for : ChainPayload → ChainLog → ChainEvent
entry_for payload log = record {
  block = log.head;
  tx_hash = hash_of log.next_tx;
  log_index = 0;
  payload = payload;
}

unfoldable pub append : ChainPayload → ChainLog → ChainLog
append payload log = record log {
  next_tx = saturating_add u64_max log.next_tx 1;
  entries = log.entries ++ entry_for payload log ∷ [];
}

-- `u32::try_from(index).unwrap_or(u32::MAX)`.
abbrev capped_index : ℕ → ℕ
capped_index i = if leb i u32_max then i else u32_max

-- The entries of one transaction, from index `i` on.
entries_from : ℕ → TxHash → ℕ → List ChainPayload → List ChainEvent
entries_from block hash i [] = []
entries_from block hash i (p ∷ ps) =
    record { block = block; tx_hash = hash; log_index = capped_index i; payload = p }
    ∷ entries_from block hash (i + 1) ps

unfoldable pub append_transaction : List ChainPayload → ChainLog → ChainLog
unfolding entries_from
append_transaction payloads log = record log {
  next_tx = saturating_add u64_max log.next_tx 1;
  entries = log.entries ++ entries_from log.head (hash_of log.next_tx) 0 payloads;
}

-- `entries.retain(|entry| entry.block < block)`.
unfoldable pub retain_below : ℕ → List ChainEvent → List ChainEvent
retain_below block [] = []
retain_below block (e ∷ es) =
    let rest = retain_below block es in if ltb e.block block then e ∷ rest else rest

unfoldable pub reorg : ℕ → ChainLog → ChainLog
unfolding retain_below
reorg block log = record log {
  entries = retain_below block log.entries;
  head = saturating_sub block 1;
}
