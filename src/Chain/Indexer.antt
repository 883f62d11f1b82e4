-- ===== src/Chain/Indexer.antt =====
-- crates/chain/src/indexer.rs: from log entries to engine commands. The set of delivered keys is a
-- list without repetitions.
pub mod Replay
use rfq_matching_settlement.Prelude.{
  ℕ, zero, suc, ◌+◌, ◌-◌, Bool, true, false, ◌&&◌, ◌||◌, Option, none, some, List, [], ◌∷◌, ◌++◌,
  length, ltb, ◌==◌, if◌then◌else◌, get_elem?, u64_max, checked_sub, saturating_add,
}
use rfq_matching_settlement.Core.Command.{
  Command, credit_account, report_oracle_status, poll_settlement, settle_escrow,
}
use rfq_matching_settlement.Chain.Log.{
  TxHash, ChainPayload, balance_changed, oracle_status_reported, settlement_resolved,
  escrow_settled, ChainEvent, ChainLog,
}

pub record Indexer : Type 0 where
  pub cursor : ℕ
  pub confirmations : ℕ
  pub delivered : List (TxHash × ℕ)

-- `Indexer::new`.
unfoldable pub new_indexer : ℕ → Indexer
new_indexer confirmations = record { cursor = 0; confirmations = confirmations; delivered = [] }

-- `Indexer::horizon`.
abbrev pub horizon : Indexer → ℕ → Option ℕ
horizon x head = checked_sub head x.confirmations

unfoldable pub rewind : Indexer → Indexer
rewind x = record x { cursor = 0 }

unfoldable pub forget_everything : Indexer → Indexer
forget_everything x = record x { cursor = 0; delivered = [] }

-- Equality of byte strings.
abbrev pub hash_eq : TxHash → TxHash → Bool
hash_eq [] [] = true
hash_eq [] (b ∷ bs) = false
hash_eq (a ∷ rest) [] = false
hash_eq (a ∷ rest) (b ∷ bs) = a == b && hash_eq rest bs

-- `BTreeSet::contains`.
abbrev pub seen : TxHash × ℕ → List (TxHash × ℕ) → Bool
seen key [] = false
seen key (k ∷ ks) = (hash_eq key.0 k.0 && key.1 == k.1) || seen key ks

abbrev pub key_of : ChainEvent → TxHash × ℕ
key_of e = (e.tx_hash, e.log_index)

abbrev pub command_of : ChainPayload → Command
command_of (balance_changed account available) = credit_account account available
command_of (oracle_status_reported contract status) = report_oracle_status contract status
command_of (settlement_resolved nonce status) = poll_settlement nonce status
command_of (escrow_settled escrow contract _) = settle_escrow escrow contract

-- `Indexer::translate`.
unfoldable pub translate : ChainEvent → Command
translate e = command_of e.payload

-- One round of the loop of `Indexer::drain` on a confirmed entry: the cursor moves on, and the
-- entry is translated unless its key was delivered before.
unfoldable pub read_entry : ChainEvent → Indexer → List Command × Indexer
unfolding translate
read_entry e x =
    let moved : Indexer = record x { cursor = saturating_add u64_max x.cursor 1 } in
    if seen (key_of e) x.delivered
    then ([], moved)
    else (translate e ∷ [], record moved { delivered = key_of e ∷ x.delivered })

-- The entries from the cursor on.
abbrev pub skip : ℕ → List ChainEvent → List ChainEvent
skip zero es = es
skip (suc n) [] = []
skip (suc n) (e ∷ es) = skip n es

-- The loop of `Indexer::drain`: an entry past the horizon stops it.
unfoldable pub drain_from : ℕ → List ChainEvent → Indexer → List Command × Indexer
drain_from top [] x = ([], x)
drain_from top (e ∷ es) x =
    let (commands, read) = read_entry e x in
    let (more, drained) = drain_from top es read in
    if ltb top e.block then ([], x) else (commands ++ more, drained)

-- `Indexer::drain`.
unfoldable pub drain : ChainLog → Indexer → List Command × Indexer
drain log x = elim (horizon x log.head) [
  | none ↦ ([], x)
  | some top ↦ drain_from top (skip x.cursor log.entries) x
]
