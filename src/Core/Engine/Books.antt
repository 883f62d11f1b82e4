-- ===== src/Core/Engine/Books.antt =====
-- crates/core/src/engine.rs: the handlers keep the books of the ledger in order, on acceptance and
-- on rejection alike.
use rfq_matching_settlement.Prelude.{
  ℕ, ◌≡◌, refl, ap, inl, inr, false, Bool, Option, none, some, get_elem?, Bool-cases, ◌==◌,
}
use rfq_matching_settlement.Prelude.Result.{Result}
use rfq_matching_settlement.Prelude.Process.{throw}
use rfq_matching_settlement.Prelude.Process.Post.{Post, Post-read, Post-ok_or, Post-gets}
use rfq_matching_settlement.Core.Types.{Ts}
use rfq_matching_settlement.Core.Command.{
  Command, credit_account, register_contract, submit_request, reject_request, submit_quote,
  cancel_quote, report_oracle_status, settle_escrow, poll_settlement, accept_request,
}
use rfq_matching_settlement.Core.Contract.{Contract, ContractIdx, OracleStatus}
use rfq_matching_settlement.Core.Settlement.{is_terminal}
use rfq_matching_settlement.Core.Ledger
use rfq_matching_settlement.Core.Ledger.{Ledger, LedgerError, record_oracle_status}
use rfq_matching_settlement.Core.Ledger.Sound.{IsSound}
use rfq_matching_settlement.Core.Ledger.Sound.Release.{phase_release-IsSound, phase_commit-IsSound}
use rfq_matching_settlement.Core.Ledger.Sound.Admission.{
  same-IsSound, open_quote-IsSound, open_request-IsSound, mirror-IsSound,
}
use rfq_matching_settlement.Core.Engine.{EngineError, Turn, ledger_of, run_ledger, update_request}
use rfq_matching_settlement.Core.Engine.Poll.Waiting.{poll_undecided}
use rfq_matching_settlement.Core.Engine.Poll
use rfq_matching_settlement.Core.Engine.Apply.{dispatch, total}
use rfq_matching_settlement.Core.Engine.Steps.{Post-end_ledger}
use rfq_matching_settlement.Core.Engine.Frame.Laws.{Laws}
use rfq_matching_settlement.Core.Engine.Lifecycle.Handlers.{
  From, Progress, Ends, submit_request-Progress, reject_request-Progress, submit_quote-Progress,
  accept_request-Progress, report_oracle_status-Progress, settle_escrow-Progress,
}

-- Books that were in order are in order.
abbrev Orderly : Ledger → Ledger → Type 0
Orderly l m = IsSound l → IsSound m

given :
    {E A : Type 0} (l : Ledger) (o : Option (Result E A × Ledger))
    → (IsSound l → Post (λ r m. IsSound m) o)
    → Post (λ r m. Orderly l m) o
given l none f = tt
given l (some (r, m)) f = f

laws_of_books : Laws Orderly
laws_of_books = record {
  reflexive = λ l s. s;
  transitive = λ {l} {m} {n} a b s. b (a s);
  on_quotes = λ q l s. same-IsSound refl refl s;
  on_request = λ h f l same s. same-IsSound refl refl s;
  releases = phase_release-IsSound;
  commits = phase_commit-IsSound;
  opens_quote = λ fuel x amount l. given l _ (open_quote-IsSound fuel x amount l);
  opens_request = λ fuel x amount l. given l _ (open_request-IsSound fuel x amount l);
}

report-IsSound :
    (k : ContractIdx) (status : OracleStatus) (l : Ledger)
    → Orderly l (record_oracle_status k status l)
unfolding record_oracle_status
report-IsSound k status l s = go (get_elem? l.contracts k) refl
  where
    go :
        (o : Option (Option Contract))
        → get_elem? l.contracts k ≡ o
        → IsSound (record_oracle_status k status l)
    go none e = rw (record_oracle_status, e) s
    go (some none) e = rw (record_oracle_status, e) s
    go (some (some c)) e = rw (record_oracle_status, e) (same-IsSound refl refl s)

ends_of_books : Ends Orderly Orderly
unfolding update_request
ends_of_books = record {
  keeps = λ {l} {m} k. k;
  sets = λ request old st {l} m k at v s. same-IsSound refl refl (k s);
  reports = λ k c status l at may. report-IsSound k status l;
}

register-IsSound :
    (k : ContractIdx) (date : Ts) (l : Ledger) → Orderly l (Ledger.register_contract k date l).1
unfolding Ledger.register_contract
register-IsSound k date l s = go (get_elem? l.contracts k) refl
  where
    go :
        (o : Option (Option Contract))
        → get_elem? l.contracts k ≡ o
        → IsSound (Ledger.register_contract k date l).1
    go none e = rw (Ledger.register_contract, e) s
    go (some none) e = rw (Ledger.register_contract, e) (same-IsSound refl refl s)
    go (some (some c)) e = elim (Bool-cases (c.event_date == date)) [
      | inl y ↦ rw (Ledger.register_contract, e, y) s
      | inr n ↦ rw (Ledger.register_contract, e, n) s
    ]

-- The outcome of a settlement, which discharges committed claims.
abbrev pub is_answer : Command → Bool
is_answer (credit_account account free) = false
is_answer (register_contract k date) = false
is_answer (submit_request requester deadline specs n) = false
is_answer (reject_request request) = false
is_answer (submit_quote maker request leg price quantity expires_at) = false
is_answer (cancel_quote quote) = false
is_answer (report_oracle_status k status) = false
is_answer (settle_escrow escrow k) = false
is_answer (poll_settlement nonce status) = is_terminal status
is_answer (accept_request request expected n) = false

abbrev Lawful : Turn → Option (Result EngineError (Unit {0}) × Turn) → Type 0
Lawful t o = Progress Orderly (ledger_of t) o

run-Lawful :
    (f : Ledger → Result LedgerError (Unit {0}) × Ledger) (t : Turn)
    → Orderly (ledger_of t) (f (ledger_of t)).1
    → Lawful t (run_ledger (λ l. total (f l)) t)
run-Lawful f t a = Post-end_ledger (From Orderly (ledger_of t)) _ t λ r q m e. moved m e
  where
    last_of : Option (Result LedgerError (Unit {0}) × Ledger) → Ledger
    last_of none = ledger_of t
    last_of (some p) = p.1

    moved :
        (m : Ledger) {q : Result LedgerError (Unit {0})}
        → total (f (ledger_of t)) ≡ some (q, m)
        → Orderly (ledger_of t) m
    moved m e s = rw (ap last_of e) at (a s)

poll-Lawful :
    (t : Turn) (o : Option (Result EngineError (Unit {0}) × Turn))
    → ((r : Result EngineError (Unit {0})) (u : Turn) → o ≡ some (r, u) → u.engine ≡ t.engine)
    → Lawful t o
poll-Lawful t none same = tt
poll-Lawful t (some (r, u)) same = λ s. rw (same r u refl) s

dispatch-Lawful :
    (fuel : ℕ) (c : Command) (now : Ts) (t : Turn)
    → is_answer c ≡ false
    → Lawful t (dispatch fuel c now t)
unfolding dispatch throw
dispatch-Lawful fuel (credit_account account free) now t q =
    run-Lawful (Ledger.apply_mirror_update account free) t
      (mirror-IsSound account free (ledger_of t))
dispatch-Lawful fuel (register_contract k date) now t q =
    run-Lawful (Ledger.register_contract k date) t (register-IsSound k date (ledger_of t))
dispatch-Lawful fuel (submit_request requester deadline specs n) now t q =
    submit_request-Progress Orderly Orderly laws_of_books ends_of_books fuel requester deadline
      specs n now t
dispatch-Lawful fuel (reject_request request) now t q =
    reject_request-Progress Orderly Orderly laws_of_books ends_of_books fuel request now t
dispatch-Lawful fuel (submit_quote maker request leg price quantity expires_at) now t q =
    submit_quote-Progress Orderly Orderly laws_of_books ends_of_books fuel maker request leg price
      quantity expires_at now t
dispatch-Lawful fuel (cancel_quote quote) now t q =
    let R = From Orderly (ledger_of t) in
    Post-gets R _ t _ (Post-ok_or R _ _ t _ (λ e s. s) λ x at s. s)
dispatch-Lawful fuel (report_oracle_status k status) now t q =
    report_oracle_status-Progress Orderly Orderly laws_of_books ends_of_books k status t
dispatch-Lawful fuel (settle_escrow escrow k) now t q =
    settle_escrow-Progress Orderly Orderly laws_of_books ends_of_books escrow k now t
dispatch-Lawful fuel (poll_settlement nonce status) now t q =
    poll-Lawful t (Poll.poll_settlement nonce status now t)
      (λ r u e. poll_undecided nonce status now t u r q e)
dispatch-Lawful fuel (accept_request request expected n) now t q =
    accept_request-Progress Orderly Orderly laws_of_books ends_of_books fuel request expected n now
      t

-- Every command but the final answer on a settlement, whether it is carried out or rejected, leaves the books in
-- order if the accounts' normalisation has left them so: the stored totals of every account are the
-- sums of its claims, every claim names an account of the mirror, and what an account owes fits a
-- u64.
pub dispatch-IsSound :
    (fuel : ℕ) (c : Command) (now : Ts) (t u : Turn) (r : Result EngineError (Unit {0}))
    → is_answer c ≡ false
    → IsSound (ledger_of t)
    → dispatch fuel c now t ≡ some (r, u)
    → IsSound (ledger_of u)
dispatch-IsSound fuel c now t u r q s e =
    Post-read (From Orderly (ledger_of t)) (dispatch fuel c now t) (dispatch-Lawful fuel c now t q)
      e s
