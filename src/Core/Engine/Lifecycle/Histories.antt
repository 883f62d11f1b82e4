-- ===== src/Core/Engine/Lifecycle/Histories.antt =====
-- crates/core/src/engine.rs: sequences of commands. A request that has ended stays as it ended, and
-- a contract keeps the outcome that the oracle gave it.
use rfq_matching_settlement.Prelude.{
  ℕ, ◌≡◌, ◌≢◌, refl, ap, ◌∙◌, inl, inr, true, Option, none, some, List, [], ◌∷◌, arith,
  Option-cases,
}
use rfq_matching_settlement.Prelude.Result.{Result}
use rfq_matching_settlement.Prelude.Process.{throw}
use rfq_matching_settlement.Prelude.Process.Post.{Post-read, Post-ok_or, Post-gets, Post-change}
use rfq_matching_settlement.Core.Types.{Ts, AccountIdx}
use rfq_matching_settlement.Core.Command.{
  Command, credit_account, register_contract, submit_request, reject_request, submit_quote,
  cancel_quote, report_oracle_status, settle_escrow, poll_settlement, accept_request,
}
use rfq_matching_settlement.Core.Contract.{
  Contract, ContractIdx, Outcome, OracleStatus, silent, in_progress, final, may_report,
}
use rfq_matching_settlement.Core.Slab.{Handle}
use rfq_matching_settlement.Core.Request.{RequestState, is_terminal}
use rfq_matching_settlement.Core.Ledger
use rfq_matching_settlement.Core.Ledger.{Ledger}
use rfq_matching_settlement.Core.Ledger.Phase.{release_expired}
use rfq_matching_settlement.Core.Engine.{EngineError, Engine, Turn, ledger_of, contract_at}
use rfq_matching_settlement.Core.Engine.Apply.{
  normalise_all, keep_ledger, touched_accounts, normalise, finish_normalise, dispatch, apply,
}
use rfq_matching_settlement.Core.Engine.Frame.{state_at, Keeps, Keeps-refl, Keeps-trans}
use rfq_matching_settlement.Core.Engine.Frame.Admission.{KeptIn, KeptBy, Keeps-release_expired}
use rfq_matching_settlement.Core.Engine.Frame.Laws.{TurnInside}
use rfq_matching_settlement.Core.Engine.Frame.Legs.{inside_read}
use rfq_matching_settlement.Core.Engine.Lifecycle.{
  Moves, stays, accepts, rejects, settles, fails, Reports, same, reported, Advances, Keeps-Advances,
  Advances-after,
}
use rfq_matching_settlement.Core.Engine.Lifecycle.Handlers.{
  From, Progress, submit_request-Progress, reject_request-Progress, submit_quote-Progress,
  accept_request-Progress, report_oracle_status-Progress, settle_escrow-Progress,
}
use rfq_matching_settlement.Core.Engine.Lifecycle.Commands.{
  laws_of_frames, advance_ends, stay, poll_settlement-Progress, mirror-Keeps, register-Advances,
  run-Progress,
}

KeptIn-trans : {l m : Ledger} (o : Option Ledger) → Keeps l m → KeptIn m o → KeptIn l o
KeptIn-trans none k n = tt
KeptIn-trans (some m') k n = Keeps-trans k n

kept_ledger :
    (o : Option (Result Ledger.LedgerError ℕ × Ledger)) {l m : Ledger}
    → KeptBy l o
    → keep_ledger o ≡ some m
    → Keeps l m
kept_ledger none k e = absurd (ground (arith, e))
kept_ledger (some (r, m')) k e = rw (show e) at k
  where
    show : {a b : Ledger} → some a ≡ some b → a ≡ b
    show e = cc

Keeps-normalise_all :
    (fuel : ℕ) (now : Ts) (accounts : List (Option AccountIdx)) (l : Ledger)
    → KeptIn l (normalise_all fuel now accounts l)
unfolding normalise_all
Keeps-normalise_all fuel now [] l = Keeps-refl l
Keeps-normalise_all fuel now (none ∷ rest) l = Keeps-normalise_all fuel now rest l
Keeps-normalise_all fuel now (some a ∷ rest) l =
    elim (Option-cases (keep_ledger (release_expired fuel a now l))) [
      | inl e ↦ rw (normalise_all, e) tt
      | inr (m, e) ↦
          rw (normalise_all, e)
            (KeptIn-trans (normalise_all fuel now rest m)
              (kept_ledger (release_expired fuel a now l) (Keeps-release_expired fuel a now l) e)
              (Keeps-normalise_all fuel now rest m))
    ]

Keeps-finish_normalise :
    (o : Option Ledger) (l : Ledger) (t : Turn)
    → KeptIn l o
    → TurnInside Keeps l (finish_normalise o t)
Keeps-finish_normalise none l t k = tt
Keeps-finish_normalise (some m) l t k = k

Keeps-normalise :
    (fuel : ℕ) (c : Command) (now : Ts) (t : Turn)
    → TurnInside Keeps (ledger_of t) (normalise fuel c now t)
unfolding normalise
Keeps-normalise fuel c now t =
    Keeps-finish_normalise (normalise_all fuel now (touched_accounts c (ledger_of t)) (ledger_of t))
      (ledger_of t) t
      (Keeps-normalise_all fuel now (touched_accounts c (ledger_of t)) (ledger_of t))

dispatch-Progress :
    (fuel : ℕ) (c : Command) (now : Ts) (t : Turn)
    → Progress Advances (ledger_of t) (dispatch fuel c now t)
unfolding dispatch throw
dispatch-Progress fuel (credit_account account free) now t =
    run-Progress (Ledger.apply_mirror_update account free) t
      (Keeps-Advances (mirror-Keeps account free (ledger_of t)))
dispatch-Progress fuel (register_contract k date) now t =
    run-Progress (Ledger.register_contract k date) t (register-Advances k date (ledger_of t))
dispatch-Progress fuel (submit_request requester deadline specs n) now t =
    submit_request-Progress Keeps Advances laws_of_frames advance_ends fuel requester deadline specs
      n now t
dispatch-Progress fuel (reject_request request) now t =
    reject_request-Progress Keeps Advances laws_of_frames advance_ends fuel request now t
dispatch-Progress fuel (submit_quote maker request leg price quantity expires_at) now t =
    submit_quote-Progress Keeps Advances laws_of_frames advance_ends fuel maker request leg price
      quantity expires_at now t
dispatch-Progress fuel (cancel_quote quote) now t =
    let R = From Advances (ledger_of t) in
    Post-gets R _ t _ (Post-ok_or R _ _ t _ (λ e. stay t) λ q at. stay t)
dispatch-Progress fuel (report_oracle_status k status) now t =
    report_oracle_status-Progress Keeps Advances laws_of_frames advance_ends k status t
dispatch-Progress fuel (settle_escrow escrow k) now t =
    settle_escrow-Progress Keeps Advances laws_of_frames advance_ends escrow k now t
dispatch-Progress fuel (poll_settlement nonce status) now t =
    poll_settlement-Progress nonce status now t
dispatch-Progress fuel (accept_request request expected n) now t =
    accept_request-Progress Keeps Advances laws_of_frames advance_ends fuel request expected n now t

apply-Progress :
    (fuel : ℕ) (c : Command) (now : Ts) (t : Turn)
    → Progress Advances (ledger_of t) (apply fuel c now t)
unfolding apply
apply-Progress fuel c now t = Post-change (From Advances (ledger_of t)) _ t _ λ u q. later u q
  where
    weaken :
        (u : Turn) (o : Option (Result EngineError (Unit {0}) × Turn))
        → Keeps (ledger_of t) (ledger_of u)
        → Progress Advances (ledger_of u) o
        → Progress Advances (ledger_of t) o
    weaken u none k p = tt
    weaken u (some (r, v)) k p = Advances-after k p

    later :
        (u : Turn)
        → normalise fuel c now t ≡ some u
        → Progress Advances (ledger_of t) (dispatch fuel c now u)
    later u q =
        weaken u (dispatch fuel c now u)
          (inside_read Keeps laws_of_frames _ (Keeps-normalise fuel c now t) q)
          (dispatch-Progress fuel c now u)

-- Whatever the command and whether it is rejected or not, once it has been applied every request is still
-- there, in the state that it had or one step further along the life cycle (open to settling or
-- rejected, settling to escrowed or failed), and every contract is as it was or has taken one
-- report that may follow the one it had.
pub apply-Advances :
    (fuel : ℕ) (c : Command) (now : Ts) (t u : Turn) (r : Result EngineError (Unit {0}))
    → apply fuel c now t ≡ some (r, u)
    → Advances (ledger_of t) (ledger_of u)
apply-Advances fuel c now t u r e =
    Post-read (From Advances (ledger_of t)) (apply fuel c now t) (apply-Progress fuel c now t) e

-- What an engine becomes by commands, each applied with some buffer.
pub data Reachable (fuel : ℕ) (e : Engine) : Engine → Type 0 where
  begins : Reachable fuel e e
  serves :
      (t u : Turn) (c : Command) (now : Ts) (r : Result EngineError (Unit {0}))
      → Reachable fuel e t.engine
      → apply fuel c now t ≡ some (r, u)
      → Reachable fuel e u.engine

-- A request that has reached a terminal state is in that state after every sequence of commands.
pub terminal_for_ever :
    (fuel : ℕ) (e f : Engine) (h : Handle) (s : RequestState)
    → Reachable fuel e f
    → is_terminal s ≡ true
    → state_at h e.ledger ≡ some s
    → state_at h f.ledger ≡ some s
terminal_for_ever fuel e f h s begins final_state at = at
terminal_for_ever fuel e f h s (serves t u c now r before step) final_state at =
    let there = terminal_for_ever fuel e t.engine h s before final_state at in
    let (s', after, v) = (apply-Advances fuel c now t u r step).requests h s there in
    after ∙ ap some (ended v final_state)
  where
    ended : {a b : RequestState} → Moves a b → is_terminal a ≡ true → b ≡ a
    ended (stays a) q = refl
    ended (accepts n d) q = absurd (ground (arith, q))
    ended rejects q = absurd (ground (arith, q))
    ended (settles n d) q = absurd (ground (arith, q))
    ended (fails n d) q = absurd (ground (arith, q))

-- No sequence of commands frees the slot of a request: a handle that resolves to a request does so for ever.
pub request_kept :
    (fuel : ℕ) (e f : Engine) (h : Handle)
    → Reachable fuel e f
    → state_at h e.ledger ≢ none
    → state_at h f.ledger ≢ none
request_kept fuel e f h begins at = at
request_kept fuel e f h (serves t u c now r before step) at = λ gone.
    elim (Option-cases (state_at h (ledger_of t))) [
      | inl q ↦ request_kept fuel e t.engine h before at q
      | inr (s, q) ↦
          let (s', after, v) = (apply-Advances fuel c now t u r step).requests h s q in
          ground (arith, after, gone)
    ]

-- Once the oracle's status of a contract is final, the contract is the same after every sequence of
-- commands, so its outcome is the same at every instant.
pub outcome_fixed :
    (fuel : ℕ) (e f : Engine) (k : ContractIdx) (c : Contract) (o : Outcome)
    → Reachable fuel e f
    → contract_at k e.ledger ≡ some c
    → c.oracle_status ≡ final o
    → contract_at k f.ledger ≡ some c
unfolding may_report
outcome_fixed fuel e f k c o begins at done = at
outcome_fixed fuel e f k c o (serves t u cmd now r before step) at done =
    let there = outcome_fixed fuel e t.engine k c o before at done in
    let (c', after, v) = (apply-Advances fuel cmd now t u r step).contracts k c there in
    after ∙ ap some (unmoved v)
  where
    past : (status : OracleStatus) → may_report c status ≡ true → ⊥
    past silent may = ground arith
    past in_progress may = ground arith
    past (final p) may = ground arith

    unmoved : {d : Contract} → Reports c d → d ≡ c
    unmoved same = refl
    unmoved (reported status may) = absurd (past status may)
