-- ===== src/Core/Engine/Lifecycle/Commands.antt =====
-- crates/core/src/engine.rs, `apply`: every command advances requests and contracts as the life
-- cycle allows.
use rfq_matching_settlement.Prelude.{
  ℕ, ltb, ◌≡◌, refl, ap, inl, inr, Option, none, some, set, arith, get_elem?, get_elem?-set_ne,
  take, Option-cases, Bool-cases, ◌==◌,
}
use native.Mathlib.Decide.{ℕ_discrete}
use mathlib.Core.Path.{subst}
use rfq_matching_settlement.Prelude.Result.{Result}
use rfq_matching_settlement.Prelude.Process.{pure}
use rfq_matching_settlement.Prelude.Process.Post.{Post-err_if, Post-ok_or, Post-gets, Post-end}
use rfq_matching_settlement.Core.Types.{Amount, Ts, AccountIdx}
use rfq_matching_settlement.Core.Config.{max_legs_bound}
use rfq_matching_settlement.Core.Contract.{Contract, ContractIdx, new_contract}
use rfq_matching_settlement.Core.Settlement.{Nonce, TxStatus, unknown, pending, settled, reverted}
use rfq_matching_settlement.Core.Slab
use rfq_matching_settlement.Core.Slab.{Handle}
use rfq_matching_settlement.Core.Request.{
  Request, RequestState, open_state, settling, escrowed, rejected, settlement_failed,
}
use rfq_matching_settlement.Core.Ledger
use rfq_matching_settlement.Core.Ledger.{Ledger, LedgerError}
use rfq_matching_settlement.Core.Ledger.Phase.{discharge_committed}
use rfq_matching_settlement.Core.Engine.{
  run_ledger, Turn, ledger_of, with_ledger, update_request, set_request_state,
}
use rfq_matching_settlement.Core.Engine.Release.{close_consumed_quotes}
use rfq_matching_settlement.Core.Engine.Poll
use rfq_matching_settlement.Core.Engine.Poll.{
  in_flight, settle_request, fail_request, act_on, notify_failed, quotes_of,
}
use rfq_matching_settlement.Core.Engine.Apply.{total}
use rfq_matching_settlement.Core.Engine.Steps.{Post-check_headroom, Post-end_ledger}
use rfq_matching_settlement.Core.Engine.Frame.{
  state_at, Keeps, Keeps-refl, Keeps-trans, Keeps-same, Keeps-modify,
}
use rfq_matching_settlement.Core.Engine.Frame.Claims.{
  Keeps-phase_release, Keeps-phase_commit, Keeps-discharge_committed,
}
use rfq_matching_settlement.Core.Engine.Frame.Admission.{Keeps-open_quote, Keeps-open_request}
use rfq_matching_settlement.Core.Engine.Frame.Laws.{Laws}
use rfq_matching_settlement.Core.Engine.Frame.Legs.{keeps_close_consumed, notify_failed-ledger}
use rfq_matching_settlement.Core.Engine.Lifecycle.{
  stays, settles, fails, same, Advances, Keeps-Advances, Advances-then, Advances-set,
  Advances-report,
}
use rfq_matching_settlement.Core.Engine.Lifecycle.Handlers.{From, Progress, Ends}

-- Keeping and advancing allow for what the handlers do.
pub laws_of_frames : Laws Keeps
laws_of_frames = record {
  reflexive = Keeps-refl;
  transitive = Keeps-trans;
  on_quotes = λ s l. Keeps-same l (record l { quotes = s }) refl refl;
  on_request = λ h f l same. Keeps-modify h f l same;
  releases = Keeps-phase_release;
  commits = Keeps-phase_commit;
  opens_quote = Keeps-open_quote;
  opens_request = Keeps-open_request;
}

pub advance_ends : Ends Keeps Advances
advance_ends = record { keeps = Keeps-Advances; sets = Advances-set; reports = Advances-report }

pub stay : (t : Turn) → Advances (ledger_of t) (ledger_of t)
stay t = Keeps-Advances (Keeps-refl (ledger_of t))

settling_state :
    (h : Handle) (r : Request) (l : Ledger) (nonce : Nonce) (deadline : Ts)
    → Slab.get l.requests h ≡ some r
    → in_flight r.state ≡ some (nonce, deadline)
    → state_at h l ≡ some (settling nonce deadline)
unfolding state_at
settling_state h r l nonce deadline at e = rw at (ap some (go r.state e))
  where
    go : (s : RequestState) → in_flight s ≡ some (nonce, deadline) → s ≡ settling nonce deadline
    go open_state e = ground arith
    go (settling n d) e = ground arith
    go escrowed e = ground arith
    go rejected e = ground arith
    go settlement_failed e = ground arith

settle_request-Advances :
    (request : Handle) (nonce : Nonce) (deadline : Ts) (t : Turn)
    → state_at request (ledger_of t) ≡ some (settling nonce deadline)
    → Advances (ledger_of t) (ledger_of (settle_request request nonce t))
unfolding settle_request
settle_request-Advances request nonce deadline t at =
    let l1 = (discharge_committed request (ledger_of t)).1 in
    Advances-then
      (Advances-set request (settling nonce deadline) escrowed l1
        (Keeps-discharge_committed request (ledger_of t)) at (settles nonce deadline))
      (keeps_close_consumed Keeps laws_of_frames request
        (update_request request (set_request_state escrowed) l1))

fail_request-Advances :
    (request : Handle) (nonce : Nonce) (deadline : Ts) (t : Turn)
    → state_at request (ledger_of t) ≡ some (settling nonce deadline)
    → Advances (ledger_of t) (ledger_of (fail_request request nonce t))
unfolding fail_request
fail_request-Advances request nonce deadline t at =
    let (visited, l1) = discharge_committed request (ledger_of t) in
    let t1 = notify_failed (take max_legs_bound (quotes_of visited)) (with_ledger l1 t) in
    let quiet : Keeps l1 (ledger_of t1) =
      rw (notify_failed-ledger (take max_legs_bound (quotes_of visited)) (with_ledger l1 t))
        (Keeps-refl l1) in
    Advances-set request (settling nonce deadline) settlement_failed
      (close_consumed_quotes request (ledger_of t1))
      (Keeps-trans (Keeps-discharge_committed request (ledger_of t))
        (Keeps-trans quiet (keeps_close_consumed Keeps laws_of_frames request (ledger_of t1))))
      at (fails nonce deadline)

wait-Progress :
    (request : Handle) (nonce : Nonce) (deadline : Ts) (status : TxStatus) (now : Ts) (t : Turn)
    → Progress Advances (ledger_of t) (Poll.wait request nonce deadline status now t)
unfolding pure
wait-Progress request nonce deadline status now t =
    let R = From Advances (ledger_of t) in
    elim (Bool-cases (ltb now deadline)) [
      | inl e ↦ rw e (stay t)
      | inr e ↦ rw e (Post-check_headroom R _ t _ (stay t) λ q. Post-end R _ _ (stay t))
    ]

act_on-Progress :
    (request : Handle) (n : ℕ) (nonce : Nonce) (deadline : Ts) (status : TxStatus) (now : Ts)
    (t : Turn)
    → state_at request (ledger_of t) ≡ some (settling nonce deadline)
    → Progress Advances (ledger_of t) (act_on request n nonce deadline status now t)
unfolding act_on
act_on-Progress request n nonce deadline unknown now t at =
    wait-Progress request nonce deadline unknown now t
act_on-Progress request n nonce deadline pending now t at =
    wait-Progress request nonce deadline pending now t
act_on-Progress request n nonce deadline settled now t at =
    let R = From Advances (ledger_of t) in
    Post-check_headroom R _ t _ (stay t)
      λ q. Post-end R _ _ (settle_request-Advances request nonce deadline t at)
act_on-Progress request n nonce deadline reverted now t at =
    let R = From Advances (ledger_of t) in
    Post-ok_or R _ _ t _ (λ e. stay t)
      λ worst q.
        Post-check_headroom R _ t _ (stay t)
          λ q. Post-end R _ _ (fail_request-Advances request nonce deadline t at)

pub poll_settlement-Progress :
    (nonce : Nonce) (status : TxStatus) (now : Ts) (t : Turn)
    → Progress Advances (ledger_of t) (Poll.poll_settlement nonce status now t)
unfolding Poll.poll_settlement
poll_settlement-Progress nonce status now t =
    let R = From Advances (ledger_of t) in
    let stop = stay t in
    Post-gets R _ t _ (
      Post-ok_or R _ _ t _ (λ e. stop)
        λ request found.
          Post-ok_or R _ _ t _ (λ e. stop)
            λ r at.
              Post-ok_or R _ _ t _ (λ e. stop)
                λ flight q.
                  Post-err_if R _ _ t _ (λ e. stop)
                    λ e.
                      act_on-Progress request r.n_legs flight.0 flight.1 status now t
                        (settling_state request r (ledger_of t) flight.0 flight.1 at q))

pub mirror-Keeps :
    (a : AccountIdx) (x : Amount) (l : Ledger) → Keeps l (Ledger.apply_mirror_update a x l).1
unfolding Ledger.apply_mirror_update
mirror-Keeps a x l = elim (Option-cases (get_elem? l.accounts a)) [
  | inl e ↦ rw (Ledger.apply_mirror_update, e) (Keeps-refl l)
  | inr (b, e) ↦ rw (Ledger.apply_mirror_update, e) (Keeps-same l _ refl refl)
]

-- A contract registered where there was none.
Advances-register_new :
    (k : ContractIdx) (date : Ts) (l : Ledger)
    → get_elem? l.contracts k ≡ some none
    → Advances l (record l { contracts = set l.contracts k (some (new_contract date)) })
unfolding state_at
Advances-register_new k date l vacant = record {
  requests = λ h s e. (s, e, stays s);
  contracts = λ j c e. elim (ℕ_discrete k j) [
    | yes y ↦ absurd (ground (arith, vacant, e, ap (get_elem? l.contracts) y))
    | no n ↦
        (c, ground (arith, e, get_elem?-set_ne l.contracts k j (some (new_contract date)) n), same)
  ];
}

pub register-Advances :
    (k : ContractIdx) (date : Ts) (l : Ledger) → Advances l (Ledger.register_contract k date l).1
unfolding Ledger.register_contract
register-Advances k date l = go (get_elem? l.contracts k) refl
  where
    stop : Advances l l
    stop = Keeps-Advances (Keeps-refl l)

    go :
        (o : Option (Option Contract))
        → get_elem? l.contracts k ≡ o
        → Advances l (Ledger.register_contract k date l).1
    go none e = rw (Ledger.register_contract, e) stop
    go (some none) e = rw (Ledger.register_contract, e) (Advances-register_new k date l e)
    go (some (some c)) e = elim (Bool-cases (c.event_date == date)) [
      | inl y ↦ rw (Ledger.register_contract, e, y) stop
      | inr n ↦ rw (Ledger.register_contract, e, n) stop
    ]

-- An operation on the ledger without a loop.
pub run-Progress :
    (f : Ledger → Result LedgerError (Unit {0}) × Ledger) (t : Turn)
    → Advances (ledger_of t) (f (ledger_of t)).1
    → Progress Advances (ledger_of t) (run_ledger (λ l. total (f l)) t)
run-Progress f t a =
    Post-end_ledger (From Advances (ledger_of t)) _ t
      λ r q m e. subst (Advances (ledger_of t)) (ap last_of e) a
  where
    last_of : Option (Result LedgerError (Unit {0}) × Ledger) → Ledger
    last_of none = ledger_of t
    last_of (some p) = p.1
