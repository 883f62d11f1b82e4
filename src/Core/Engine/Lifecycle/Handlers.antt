-- ===== src/Core/Engine/Lifecycle/Handlers.antt =====
-- crates/core/src/engine.rs: each handler stays inside every relation between
-- ledgers that allows for its steps and for the moves of the life cycle.
use rfq_matching_settlement.Prelude.{ℕ, ◌≡◌, false, true, not, Option, some, List, arith}
use rfq_matching_settlement.Prelude.Result.{Result}
use rfq_matching_settlement.Prelude.Process.Post.{
  Post, Post-err_if, Post-ok_or, Post-lift, Post-check, Post-gets, Post-modify, Post-run_pure,
  Post-change, Post-end, Post-end_change,
}
use rfq_matching_settlement.Core.Types.{Amount, Price, Size, Ts, LegId, AccountIdx}
use rfq_matching_settlement.Core.Command.{LegSpec, ExpectedFill}
use rfq_matching_settlement.Core.Contract.{
  Contract, ContractIdx, OracleStatus, may_report, silent, in_progress, final,
}
use rfq_matching_settlement.Core.Slab
use rfq_matching_settlement.Core.Slab.{Handle}
use rfq_matching_settlement.Core.Request.{
  Request, RequestState, open_state, rejected, is_open, nonce_of,
}
use rfq_matching_settlement.Core.Ledger.{Ledger, record_oracle_status}
use rfq_matching_settlement.Core.Ledger.Phase.{phase_commit}
use rfq_matching_settlement.Core.Engine.{
  EngineError, Turn, ledger_of, on_ledger, update_request, set_request_state, contract_at,
}
use rfq_matching_settlement.Core.Engine.Release.{release_claim, reject_request}
use rfq_matching_settlement.Core.Engine.Submit.{submit_request}
use rfq_matching_settlement.Core.Engine.Offer.{admit, submit_quote}
use rfq_matching_settlement.Core.Engine.Accept.{accept_request}
use rfq_matching_settlement.Core.Engine.Resolve.{report_oracle_status, settle_escrow, announce}
use rfq_matching_settlement.Core.Engine.Frame.{state_at}
use rfq_matching_settlement.Core.Engine.Frame.Laws.{Laws}
use rfq_matching_settlement.Core.Engine.Frame.Legs.{
  inside_read, keeps_release_legs, keeps_release_claim, keeps_settle_legs, keeps_replace,
  keeps_link_quote, keeps_publish_selection,
}
use rfq_matching_settlement.Core.Engine.Lifecycle.{Moves, accepts, rejects}
use rfq_matching_settlement.Core.Engine.Steps.{Post-check_headroom, Post-run_ledger, Post-planned}

abbrev pub From :
    (Ledger → Ledger → Type 0) → Ledger → Result EngineError (Unit {0}) → Turn → Type 0
From A l r u = A l (ledger_of u)

-- Where a handler that starts on a ledger ends.
abbrev pub Progress :
    (Ledger → Ledger → Type 0) → Ledger → Option (Result EngineError (Unit {0}) × Turn) → Type 0
Progress A l = Post (From A l)

-- What a relation between the ledgers at the two ends of a command must allow.
pub record Ends (K A : Ledger → Ledger → Type 0) : Type 0 where
  pub keeps : {l m : Ledger} → K l m → A l m
  pub sets :
      (request : Handle) (old st : RequestState) {l : Ledger} (m : Ledger)
      → K l m
      → state_at request l ≡ some old
      → Moves old st
      → A l (update_request request (set_request_state st) m)
  pub reports :
      (k : ContractIdx) (c : Contract) (status : OracleStatus) (l : Ledger)
      → contract_at k l ≡ some c
      → may_report c status ≡ true
      → A l (record_oracle_status k status l)

open_request-state :
    (h : Handle) (r : Request) (l : Ledger)
    → Slab.get l.requests h ≡ some r
    → not (is_open r.state) ≡ false
    → state_at h l ≡ some open_state
unfolding state_at
open_request-state h r l at is = ground (arith, at, is)

module _ (K A : Ledger → Ledger → Type 0) (laws : Laws K) (ends : Ends K A) where
  still : (t : Turn) → A (ledger_of t) (ledger_of t)
  still t = ends.keeps (laws.reflexive (ledger_of t))

  kept_read :
      {E B : Type 0} {l m : Ledger} (o : Option (Result E B × Ledger)) {r : Result E B}
      → Post (λ q m. K l m) o
      → o ≡ some (r, m)
      → K l m
  kept_read o k e = rw e at k

  pub submit_request-Progress :
      (fuel : ℕ) (a : AccountIdx) (deadline : Ts) (specs : List LegSpec) (n : ℕ) (now : Ts)
      (t : Turn)
      → Progress A (ledger_of t) (submit_request fuel a deadline specs n now t)
  unfolding submit_request
  submit_request-Progress fuel a deadline specs n now t =
      let l = ledger_of t in
      let R = From A l in
      let stop = still t in
      Post-gets R _ t _ (
        Post-err_if R _ _ t _ (λ e. stop)
          λ e.
            Post-err_if R _ _ t _ (λ e. stop)
              λ e.
                Post-err_if R _ _ t _ (λ e. stop)
                  λ e.
                    Post-err_if R _ _ t _ (λ e. stop)
                      λ e. Post-gets R _ t _ (
                        Post-lift R _ t _ (λ e q. stop)
                          λ terms q. Post-check_headroom R _ t _ stop λ q.
                            Post-run_ledger R _ t _
                              (λ e m q. ends.keeps (kept_read _ (laws.opens_request fuel _ _ l) q))
                              (λ p m q.
                                Post-end R _ _
                                  (ends.keeps (kept_read _ (laws.opens_request fuel _ _ l) q)))))

  pub reject_request-Progress :
      (fuel : ℕ) (request : Handle) (now : Ts) (t : Turn)
      → Progress A (ledger_of t) (reject_request fuel request now t)
  unfolding reject_request
  reject_request-Progress fuel request now t =
      let l = ledger_of t in
      let R = From A l in
      let stop = still t in
      Post-gets R _ t _ (
        Post-ok_or R _ _ t _ (λ e. stop)
          λ r at.
            Post-err_if R _ _ t _ (λ e. stop)
              λ is. Post-gets R _ t _ (
                Post-ok_or R _ _ t _ (λ e. stop)
                  λ worst q. Post-check_headroom R _ t _ stop λ q. Post-change R _ t _ λ v q.
                    Post-modify R _ v _ (
                      Post-end R _ _ (
                        ends.sets request open_state rejected (release_claim r.claim (ledger_of v))
                          (laws.transitive
                            (inside_read K laws _
                              (keeps_release_legs K laws fuel r.n_legs 0 request now t) q)
                            (keeps_release_claim K laws r.claim (ledger_of v)))
                          (open_request-state request r l at is) rejects))))

  admit-Progress :
      (fuel : ℕ) (maker : AccountIdx) (request : Handle) (leg : LegId) (price : Price)
      (quantity : Size) (expires_at now : Ts) (standing : Option Handle) (x : Amount) (t : Turn)
      → Progress A
          (ledger_of t)
          (admit fuel maker request leg price quantity expires_at now standing x t)
  unfolding admit
  admit-Progress fuel maker request leg price quantity expires_at now standing x t =
      let R = From A (ledger_of t) in
      Post-change R _ t _ λ u q.
        let one = inside_read K laws _ (keeps_replace K laws fuel request leg maker standing t) q in
        Post-gets R _ u _ (
          Post-modify R _ u _ (
            Post-run_ledger R _ _ _
              (λ e m q.
                ends.keeps
                  (laws.transitive one (kept_read _ (laws.opens_quote fuel _ _ (ledger_of u)) q)))
              (λ p m q.
                let two =
                  laws.transitive one (kept_read _ (laws.opens_quote fuel _ _ (ledger_of u)) q) in
                Post-modify R _ _ _ (
                  Post-end_change R _ _ λ v q. ends.keeps (
                    laws.transitive two (
                      laws.transitive (keeps_link_quote K laws request leg p.0 m) (
                        inside_read K laws _ (keeps_publish_selection K laws fuel request leg now _)
                          q)))))))

  pub submit_quote-Progress :
      (fuel : ℕ) (maker : AccountIdx) (request : Handle) (leg : LegId) (price : Price)
      (quantity : Size) (expires_at now : Ts) (t : Turn)
      → Progress A
          (ledger_of t)
          (submit_quote fuel maker request leg price quantity expires_at now t)
  unfolding submit_quote
  submit_quote-Progress fuel maker request leg price quantity expires_at now t =
      let R = From A (ledger_of t) in
      let stop = still t in
      Post-gets R _ t _ (
        Post-gets R _ t _ (
          Post-ok_or R _ _ t _ (λ e. stop)
            λ r at.
              Post-err_if R _ _ t _ (λ e. stop)
                λ e.
                  Post-err_if R _ _ t _ (λ e. stop)
                    λ e.
                      Post-ok_or R _ _ t _ (λ e. stop)
                        λ g here.
                          Post-err_if R _ _ t _ (λ e. stop)
                            λ e.
                              Post-err_if R _ _ t _ (λ e. stop)
                                λ e.
                                  Post-err_if R _ _ t _ (λ e. stop)
                                    λ e.
                                      Post-err_if R _ _ t _ (λ e. stop)
                                        λ e. Post-run_pure R _ t _ λ standing q.
                                          Post-check R _ t _ (λ e q. stop)
                                            λ q.
                                              Post-ok_or R _ _ t _ (λ e. stop)
                                                λ x q. Post-check_headroom R _ t _ stop λ q.
                                                  admit-Progress fuel maker request leg price
                                                    quantity expires_at now standing x t))

  pub accept_request-Progress :
      (fuel : ℕ) (request : Handle) (expected : List ExpectedFill) (n : ℕ) (now : Ts) (t : Turn)
      → Progress A (ledger_of t) (accept_request fuel request expected n now t)
  unfolding accept_request
  accept_request-Progress fuel request expected n now t =
      let l = ledger_of t in
      let R = From A l in
      let stop = still t in
      Post-gets R _ t _ (
        Post-gets R _ t _ (
          Post-ok_or R _ _ t _ (λ e. stop)
            λ r at.
              Post-err_if R _ _ t _ (λ e. stop)
                λ is.
                  Post-err_if R _ _ t _ (λ e. stop)
                    λ e.
                      Post-err_if R _ _ t _ (λ e. stop)
                        λ e.
                          Post-planned R _ t _ (λ e q. stop)
                            λ plan q.
                              Post-ok_or R _ _ t _ (λ e. stop)
                                λ claim q.
                                  Post-ok_or R _ _ t _ (λ e. stop)
                                    λ reserved q.
                                      Post-err_if R _ _ t _ (λ e. stop)
                                        λ e.
                                          Post-ok_or R _ _ t _ (λ e. stop)
                                            λ worst q. Post-check_headroom R _ t _ stop λ q.
                                              Post-lift R _ t _ (λ e q. stop)
                                                λ intent q. Post-change R _ t _ λ v q.
                                                  Post-modify R _ v _ (
                                                    Post-modify R _ _ _ (
                                                      Post-end R _ _ (
                                                        ends.sets request open_state _
                                                          (phase_commit claim request plan.total
                                                            (ledger_of v))
                                                          (laws.transitive
                                                            (inside_read K laws _
                                                            (keeps_settle_legs K laws fuel r.n_legs
                                                            0 request now plan.winners t)
                                                            q)
                                                            (laws.commits claim request plan.total
                                                            (ledger_of v)))
                                                          (open_request-state request r l at is)
                                                          (accepts (nonce_of request) _))))))

  pub report_oracle_status-Progress :
      (k : ContractIdx) (status : OracleStatus) (t : Turn)
      → Progress A (ledger_of t) (report_oracle_status k status t)
  unfolding report_oracle_status
  report_oracle_status-Progress k status t =
      let R = From A (ledger_of t) in
      let stop = still t in
      Post-gets R _ t _ (
        Post-ok_or R _ _ t _ (λ e. stop)
          λ c at.
            Post-err_if R _ _ t _ (λ e. stop)
              λ may. Post-check_headroom R _ t _ stop λ q. Post-modify R _ t _ (
                Post-end R _ _ (
                  announced status
                    (ends.reports k c status (ledger_of t) at (ground (arith, may))))))
    where
      announced :
          (s : OracleStatus)
          → A (ledger_of t) (record_oracle_status k status (ledger_of t))
          → A (ledger_of t) (ledger_of (announce k s (on_ledger (record_oracle_status k status) t)))
      announced silent a = a
      announced in_progress a = a
      announced (final o) a = a

  pub settle_escrow-Progress :
      (escrow k : ℕ) (now : Ts) (t : Turn) → Progress A (ledger_of t) (settle_escrow escrow k now t)
  unfolding settle_escrow
  settle_escrow-Progress escrow k now t =
      let R = From A (ledger_of t) in
      let stop = still t in
      Post-gets R _ t _ (
        Post-gets R _ t _ (
          Post-ok_or R _ _ t _ (λ e. stop)
            λ c at.
              Post-lift R _ t _ (λ e q. stop)
                λ o q. Post-check_headroom R _ t _ stop λ q. Post-end R _ _ stop))
