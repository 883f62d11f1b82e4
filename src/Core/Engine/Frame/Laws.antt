-- ===== src/Core/Engine/Frame/Laws.antt =====
-- crates/core/src/engine.rs: what a relation between ledgers must allow for the engine's handlers to
-- stay inside it.
use rfq_matching_settlement.Prelude.{ℕ, ◌≡◌, Option, none, some}
use rfq_matching_settlement.Prelude.Process.Post.{Post}
use rfq_matching_settlement.Core.Types.{Amount}
use rfq_matching_settlement.Core.Slab
use rfq_matching_settlement.Core.Slab.{Handle, Slab}
use rfq_matching_settlement.Core.Quote.{Quote}
use rfq_matching_settlement.Core.Request.{Request}
use rfq_matching_settlement.Core.Ledger.{Ledger}
use rfq_matching_settlement.Core.Ledger.Admission.{open_quote_reserving, open_request_reserving}
use rfq_matching_settlement.Core.Ledger.Phase.{phase_release, phase_commit}
use rfq_matching_settlement.Core.Engine.{Turn, ledger_of}

-- A relation that the steps between a command's checks and its last write respect.
pub record Laws (K : Ledger → Ledger → Type 0) : Type 0 where
  pub reflexive : (l : Ledger) → K l l
  pub transitive : {l m n : Ledger} → K l m → K m n → K l n
  pub on_quotes : (s : Slab Quote) (l : Ledger) → K l (record l { quotes = s })
  pub on_request :
      (h : Handle) (f : Request → Request) (l : Ledger)
      → ((r : Request) → (f r).state ≡ r.state)
      → K l (record l { requests = Slab.modify h f l.requests })
  pub releases : (claim : Handle) (l : Ledger) → K l (phase_release claim l)
  pub commits :
      (claim request : Handle) (keep : Amount) (l : Ledger)
      → K l (phase_commit claim request keep l)
  pub opens_quote :
      (fuel : ℕ) (x : Quote) (amount : Amount) (l : Ledger)
      → Post (λ r m. K l m) (open_quote_reserving fuel x amount l)
  pub opens_request :
      (fuel : ℕ) (x : Request) (amount : Amount) (l : Ledger)
      → Post (λ r m. K l m) (open_request_reserving fuel x amount l)

module _ (K : Ledger → Ledger → Type 0) where
  -- Wherever an operation on fuel ends.
  abbrev pub Inside : Ledger → Option Ledger → Type 0
  Inside l none = Unit
  Inside l (some m) = K l m

  abbrev pub TurnInside : Ledger → Option Turn → Type 0
  TurnInside l none = Unit
  TurnInside l (some u) = K l (ledger_of u)
