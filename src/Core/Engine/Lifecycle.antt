-- ===== src/Core/Engine/Lifecycle.antt =====
-- crates/core/src/engine.rs, `apply`: what becomes of a request and of a contract over a command.
use rfq_matching_settlement.Prelude.{
  ℕ, ◌≡◌, refl, sym, ap, ◌∙◌, inl, inr, Bool, true, false, Option, none, some, List, set, arith,
  get_elem?, get_elem?-set_ne, get_elem?-set_self, get_elem?-lt, Option-cases, Bool-cases, ◌==◌,
  if◌then◌else◌,
}
pub mod Handlers
pub mod Commands
pub mod Histories
use native.Mathlib.Decide.{ℕ_discrete}
use rfq_matching_settlement.Prelude.Result.{Result, ok, err}
use rfq_matching_settlement.Prelude.Process.{Process, and_then}
use rfq_matching_settlement.Prelude.Process.Post.{Post}
use rfq_matching_settlement.Core.Types.{Ts}
use rfq_matching_settlement.Core.Contract.{
  Contract, ContractIdx, OracleStatus, may_report, set_oracle_status,
}
use rfq_matching_settlement.Core.Settlement.{Nonce}
use rfq_matching_settlement.Core.Slab
use rfq_matching_settlement.Core.Slab.{Handle, Slab, handle_eq}
use rfq_matching_settlement.Core.Slab.Reads.{get-modify}
use rfq_matching_settlement.Core.Request.{
  Request, RequestState, open_state, settling, escrowed, rejected, settlement_failed,
}
use rfq_matching_settlement.Core.Ledger.{Ledger, LedgerError, record_oracle_status}
use rfq_matching_settlement.Core.Engine.{
  EngineError, Turn, ledger_of, with_ledger, ask_ledger, ledger_refused, update_request,
  set_request_state, contract_at,
}
use rfq_matching_settlement.Core.Engine.Frame.{state_of, state_at, Keeps}

-- The life cycle of a request, as a relation between the states before and after a command.
pub data Moves : RequestState → RequestState → Type 0 where
  stays : (s : RequestState) → Moves s s
  accepts : (nonce : Nonce) → (deadline : Ts) → Moves open_state (settling nonce deadline)
  rejects : Moves open_state rejected
  settles : (nonce : Nonce) → (deadline : Ts) → Moves (settling nonce deadline) escrowed
  fails : (nonce : Nonce) → (deadline : Ts) → Moves (settling nonce deadline) settlement_failed

-- A contract is as it was, or has taken a report that may follow.
pub data Reports (c : Contract) : Contract → Type 0 where
  same : Reports c c
  reported :
      (status : OracleStatus) → may_report c status ≡ true → Reports c (set_oracle_status c status)

-- No request and no contract is forgotten, and each moves as it may.
pub record Advances (l l' : Ledger) : Type 0 where
  pub requests :
      (h : Handle) (s : RequestState)
      → state_at h l ≡ some s
      → (s' : RequestState) × (state_at h l' ≡ some s') × Moves s s'
  pub contracts :
      (k : ContractIdx) (c : Contract)
      → contract_at k l ≡ some c
      → (c' : Contract) × (contract_at k l' ≡ some c') × Reports c c'

contract_at-same :
    (k : ContractIdx) (l m : Ledger) → m.contracts ≡ l.contracts → contract_at k m ≡ contract_at k l
contract_at-same k l m e = rw e refl

pub Keeps-Advances : {l m : Ledger} → Keeps l m → Advances l m
Keeps-Advances {l} {m} k = record {
  requests = λ h s e. (s, k.states h s e, stays s);
  contracts = λ i c e. (c, contract_at-same i l m k.contracts ∙ e, same);
}

pub Advances-after : {l m n : Ledger} → Keeps l m → Advances m n → Advances l n
Advances-after {l} {m} {n} k a = record {
  requests = λ h s e. a.requests h s (k.states h s e);
  contracts = λ i c e. a.contracts i c (contract_at-same i l m k.contracts ∙ e);
}

pub Advances-then : {l m n : Ledger} → Advances l m → Keeps m n → Advances l n
Advances-then {l} {m} {n} a k = record {
  requests = λ h s e. let (s', e', v) = a.requests h s e in (s', k.states h s' e', v);
  contracts = λ i c e.
      let (c', e', v) = a.contracts i c e in (c', contract_at-same i m n k.contracts ∙ e', v);
}

pub handle_eq_sound : (a b : Handle) → handle_eq a b ≡ true → a ≡ b
handle_eq_sound a b e = ground arith

-- A state written to one request.
state_at-set :
    (h request : Handle) (st s : RequestState) (l : Ledger)
    → state_at h l ≡ some s
    → state_at h (update_request request (set_request_state st) l)
      ≡ some (if handle_eq h request then st else s)
unfolding state_at update_request
state_at-set h request st s l e =
    let read = get-modify request h (set_request_state st) l.requests in
    elim (Option-cases (Slab.get l.requests h)) [
      | inl q ↦ ground (arith, q, e)
      | inr (r, q) ↦ elim (Bool-cases (handle_eq h request)) [
        | inl y ↦ rw (read, q, y) (ground arith)
        | inr n ↦ rw (read, q, n) (ground (arith, q, e))
      ]
    ]

pub Advances-set :
    (request : Handle) (old st : RequestState) {l : Ledger} (m : Ledger)
    → Keeps l m
    → state_at request l ≡ some old
    → Moves old st
    → Advances l (update_request request (set_request_state st) m)
unfolding update_request
Advances-set request old st {l} m k at v = record {
  requests = λ h s e.
      let written = state_at-set h request st s m (k.states h s e) in
      elim (Bool-cases (handle_eq h request)) [
        | inl y ↦
            let there : state_at request l ≡ some s = rw (handle_eq_sound h request y) at e in
            let known : old ≡ s = cc in
            let moved : Moves s st = rw known at v in (st, rw y at written, moved)
        | inr n ↦ (s, rw n at written, stays s)
      ];
  contracts = λ i c e. (c, contract_at-same i l m k.contracts ∙ e, same);
}

contract_at-set :
    (k j : ContractIdx) (c : Contract) (l : Ledger)
    → contract_at k l ≡ some c
    → (v : Contract)
    → contract_at j (record l { contracts = set l.contracts k (some v) })
      ≡ (if k == j then some v else contract_at j l)
contract_at-set k j c l at v = elim (ℕ_discrete k j) [
  | yes e ↦ elim (Option-cases (get_elem? l.contracts k)) [
    | inl q ↦ ground (arith, q, at)
    | inr (o, q) ↦ ground (
      arith,
      e,
      get_elem?-set_self l.contracts k (some v) (get_elem?-lt l.contracts k q),
      ap (get_elem? (set l.contracts k (some v))) e,
    )
  ]
  | no n ↦ ground (arith, get_elem?-set_ne l.contracts k j (some v) n)
]

contract_at-found :
    (k : ContractIdx) (l : Ledger) {c : Contract}
    → contract_at k l ≡ some c
    → get_elem? l.contracts k ≡ some (some c)
contract_at-found k l {c} at = go (get_elem? l.contracts k) refl
  where
    go :
        (o : Option (Option Contract))
        → get_elem? l.contracts k ≡ o
        → get_elem? l.contracts k ≡ some (some c)
    go none e = absurd (ground (arith, e, at))
    go (some none) e = absurd (ground (arith, e, at))
    go (some (some d)) e = ground (arith, e, at)

-- A contract written over one that it may follow.
Advances-write :
    (k : ContractIdx) (c d : Contract) (l : Ledger)
    → contract_at k l ≡ some c
    → Reports c d
    → Advances l (record l { contracts = set l.contracts k (some d) })
unfolding state_at
Advances-write k c d l at v = record {
  requests = λ h s e. (s, e, stays s);
  contracts = λ j b e.
      let written = contract_at-set k j c l at d in
      elim (ℕ_discrete k j) [
        | yes y ↦
            let known : c ≡ b = ground (arith, at, e, ap (λ i. contract_at i l) y) in
            let follows : Reports b d = rw known at v in (d, ground (arith, written, y), follows)
        | no n ↦ (b, ground (arith, written, n, e), same)
      ];
}

-- A report that may follow.
pub Advances-report :
    (k : ContractIdx) (c : Contract) (status : OracleStatus) (l : Ledger)
    → contract_at k l ≡ some c
    → may_report c status ≡ true
    → Advances l (record_oracle_status k status l)
unfolding record_oracle_status
Advances-report k c status l at may =
    rw (record_oracle_status, contract_at-found k l at)
      (Advances-write k c (set_oracle_status c status) l at (reported status may))
