-- ===== src/Core/Engine/Submit/Refused.antt =====
-- crates/core/src/engine.rs, `submit_request`: a refusal changes nothing.
use rfq_matching_settlement.Prelude.{ℕ, ◌≡◌, refl, ap, some, List}
use rfq_matching_settlement.Prelude.Result.{Result, ok, err}
use rfq_matching_settlement.Prelude.Process.Post.{
  Post, Post-read, Post-err_if, Post-lift, Post-gets, Post-end,
}
use rfq_matching_settlement.Core.Types.{Ts, AccountIdx}
use rfq_matching_settlement.Core.Command.{LegSpec}
use rfq_matching_settlement.Core.Slab.Free.{IsWell}
use rfq_matching_settlement.Core.Ledger.Atomic.{open_request-atomic}
use rfq_matching_settlement.Core.Engine.{EngineError, Turn, ledger_of, with_ledger}
use rfq_matching_settlement.Core.Engine.Steps.{Post-check_headroom, Post-run_ledger}
use rfq_matching_settlement.Core.Engine.Submit.{submit_request}

abbrev Untouched : Turn → Result EngineError (Unit {0}) → Turn → Type 0
Untouched t (ok a) u = Unit
Untouched t (err e) u = u ≡ t

submit-Untouched :
    (fuel : ℕ) (a : AccountIdx) (deadline : Ts) (specs : List LegSpec) (n : ℕ) (now : Ts) (t : Turn)
    (fs gs : List ℕ)
    → IsWell (ledger_of t).requests fs
    → IsWell (ledger_of t).reservations gs
    → Post (Untouched t) (submit_request fuel a deadline specs n now t)
unfolding submit_request
submit-Untouched fuel a deadline specs n now t fs gs w v =
    let R = Untouched t in
    Post-gets R _ t _ (
      Post-err_if R _ _ t _ (λ e. refl)
        λ e.
          Post-err_if R _ _ t _ (λ e. refl)
            λ e.
              Post-err_if R _ _ t _ (λ e. refl)
                λ e.
                  Post-err_if R _ _ t _ (λ e. refl)
                    λ e. Post-gets R _ t _ (
                      Post-lift R _ t _ (λ e q. refl)
                        λ terms q. Post-check_headroom R _ t _ refl λ q.
                          Post-run_ledger R _ t _
                            (λ e m q.
                              ap (λ l. with_ledger l t)
                                (open_request-atomic fuel _ _ (ledger_of t) fs gs w v q))
                            (λ p m q. Post-end R _ _ tt)))

-- In an engine whose slabs of requests and of claims are well formed, a request that is refused, for
-- its terms, for want of room in the buffer or by the ledger, changes neither the engine nor the
-- buffer.
pub submit_request-atomic :
    (fuel : ℕ) (a : AccountIdx) (deadline : Ts) (specs : List LegSpec) (n : ℕ) (now : Ts)
    (t u : Turn) (fs gs : List ℕ) (e : EngineError)
    → IsWell (ledger_of t).requests fs
    → IsWell (ledger_of t).reservations gs
    → submit_request fuel a deadline specs n now t ≡ some (err e, u)
    → u ≡ t
submit_request-atomic fuel a deadline specs n now t u fs gs e w v q =
    Post-read (Untouched t) (submit_request fuel a deadline specs n now t)
      (submit-Untouched fuel a deadline specs n now t fs gs w v) q
