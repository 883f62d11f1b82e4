-- ===== src/Core/Engine/Steps.antt =====
-- crates/core/src/engine.rs: the steps that handlers share, and what holds where they end.
use rfq_matching_settlement.Prelude.{ℕ, ◌≡◌, refl, Option, none, some}
use rfq_matching_settlement.Prelude.Result.{Result, ok, err}
use rfq_matching_settlement.Prelude.Process.{and_then, ◌>>=◌, ◌>>◌}
use rfq_matching_settlement.Prelude.Process.Post.{Post}
use rfq_matching_settlement.Core.Event.{EventBufferFull, headroom}
use rfq_matching_settlement.Core.Ledger.{Ledger, LedgerError}
use rfq_matching_settlement.Core.Engine.{
  EngineError, no_headroom, ledger_refused, Turn, Handler, ledger_of, with_ledger, check_headroom,
  run_ledger, ask_ledger, from_buffer, from_ledger, planned,
}

module _ {B : Type 0} (Q : Result EngineError B → Turn → Type 0) where
  pub Post-check_headroom :
      (n : ℕ) (t : Turn) (k : Handler B)
      → Q (err no_headroom) t
      → (headroom n t.buffer ≡ ok tt → Post Q (k t))
      → Post Q ((check_headroom n >> k) t)
  unfolding ◌>>◌ check_headroom
  Post-check_headroom n t k bad good = go (headroom n t.buffer) refl
    where
      go :
          (r : Result EventBufferFull (Unit {0}))
          → headroom n t.buffer ≡ r
          → Post Q (and_then (some (from_buffer r, t)) (λ _. k))
      go (ok u) e = good e
      go (err e) q = bad

  pub Post-run_ledger :
      {A : Type 0} (f : Ledger → Option (Result LedgerError A × Ledger)) (t : Turn)
      (k : A → Handler B)
      → ((e : LedgerError) (m : Ledger)
          → f (ledger_of t) ≡ some (err e, m)
          → Q (err (ledger_refused e)) (with_ledger m t))
      → ((a : A) (m : Ledger) → f (ledger_of t) ≡ some (ok a, m) → Post Q (k a (with_ledger m t)))
      → Post Q ((run_ledger f >>= k) t)
  unfolding ◌>>=◌ run_ledger
  Post-run_ledger {A} f t k bad good = go (f t.engine.ledger) refl
    where
      go :
          (o : Option (Result LedgerError A × Ledger))
          → f t.engine.ledger ≡ o
          → Post Q (and_then (ask_ledger o t) k)
      go none e = tt
      go (some (ok a, m)) e = good a m e
      go (some (err x, m)) e = bad x m e

  pub Post-planned :
      {A : Type 0} (o : Option (Result EngineError A)) (t : Turn) (k : A → Handler B)
      → ((e : EngineError) → o ≡ some (err e) → Q (err e) t)
      → ((a : A) → o ≡ some (ok a) → Post Q (k a t))
      → Post Q ((planned o >>= k) t)
  unfolding ◌>>=◌ planned
  Post-planned none t k bad good = tt
  Post-planned (some (ok a)) t k bad good = good a refl
  Post-planned (some (err e)) t k bad good = bad e refl

module _ (Q : Result EngineError (Unit {0}) → Turn → Type 0) where
  pub Post-end_ledger :
      (f : Ledger → Option (Result LedgerError (Unit {0}) × Ledger)) (t : Turn)
      → ((r : Result EngineError (Unit {0})) (q : Result LedgerError (Unit {0})) (m : Ledger)
          → f (ledger_of t) ≡ some (q, m)
          → Q r (with_ledger m t))
      → Post Q (run_ledger f t)
  unfolding run_ledger
  Post-end_ledger f t good = go (f t.engine.ledger) refl
    where
      go :
          (o : Option (Result LedgerError (Unit {0}) × Ledger))
          → f t.engine.ledger ≡ o
          → Post Q (ask_ledger o t)
      go none e = tt
      go (some (r, m)) e = good (from_ledger r) r m e
