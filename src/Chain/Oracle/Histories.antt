-- ===== src/Chain/Oracle/Histories.antt =====
-- crates/chain/src/oracle.rs: what a history of calls can make of a contract's status.
use rfq_matching_settlement.Prelude.{
  ℕ, ◌≤◌, ◌≡◌, refl, ap, ◌∙◌, inl, inr, true, Option, none, some, List, [], ◌∷◌, arith, Bool-cases,
  ltb, ◌==◌, if◌then◌else◌,
}
use rfq_matching_settlement.Core.Types.{Ts, AccountIdx, ts_add}
use rfq_matching_settlement.Core.Contract.{ContractIdx, Outcome, OracleStatus, rank}
use rfq_matching_settlement.Chain.Oracle.{
  Oracle, Proposal, proposed, contested, decided, record_proposal, lookup, put, status, status_of,
  propose, contest, finalise, escalate,
}

-- The calls that change the oracle, each with the instant at which it is made.
pub data OracleCall : Type 0 where
  proposes : ContractIdx → Outcome → Ts → OracleCall
  contests : ContractIdx → OracleCall
  finalises : ContractIdx → Ts → OracleCall
  escalates : ContractIdx → Outcome → AccountIdx → OracleCall

unfoldable pub perform : OracleCall → Oracle → Oracle
perform (proposes k o now) s = (propose k o now s).1
perform (contests k) s = (contest k s).1
perform (finalises k now) s = (finalise k now s).1
perform (escalates k o who) s = (escalate k o who s).1

unfoldable pub run : List OracleCall → Oracle → Oracle
run [] s = s
run (c ∷ cs) s = run cs (perform c s)

abbrev pub rank_of : OracleStatus → ℕ
rank_of = rank

pub lookup-put :
    (k j : ContractIdx) (p : Proposal) (r : List (ContractIdx × Proposal))
    → lookup k (put j p r) ≡ (if k == j then some p else lookup k r)
lookup-put k j p [] = refl
lookup-put k j p ((i, q) ∷ r) = ground (arith, lookup-put k j p r)

-- Entries with equal keys are the same entry.
pub lookup_eq :
    (k j : ContractIdx) (r : List (ContractIdx × Proposal)) → k ≡ j → lookup k r ≡ lookup j r
lookup_eq k j r e = ap (λ (i : ℕ). lookup i r) e

-- No step back: the rank does not fall, and a status that keeps its rank is the same.
abbrev pub Forward : OracleStatus → OracleStatus → Type 0
Forward a b = (rank_of a ≤ rank_of b) × (rank_of a ≡ rank_of b → a ≡ b)

Forward-trans : (a b c : OracleStatus) → Forward a b → Forward b c → Forward a c
Forward-trans a b c h k =
    (omega (arith, h.0, k.0), λ e. h.1 (omega (arith, h.0, k.0)) ∙ k.1 (omega (arith, h.0, k.0)))

-- Writing a proposal steps forward on every contract if it does on the one written.
put-Forward :
    (k j : ContractIdx) (p : Proposal) (r : List (ContractIdx × Proposal))
    → Forward (status_of (lookup j r)) (status_of (some p))
    → Forward (status_of (lookup k r)) (status_of (lookup k (put j p r)))
put-Forward k j p r h = elim (Bool-cases (k == j)) [
  | inl e ↦
      let same : k ≡ j = ground (arith, e) in
      rw (lookup-put k j p r) (rw e (rw (lookup_eq k j r same) h))
  | inr e ↦ rw (lookup-put k j p r) (rw e (omega arith, λ q. refl))
]

-- What a call does to the oracle: nothing, or one proposal written, a step forward.
pub data Writes (s s' : Oracle) : Type 0 where
  nothing : s' ≡ s → Writes s s'
  writes :
      (j : ContractIdx) (p : Proposal)
      → s' ≡ record_proposal j p s
      → Forward (status_of (lookup j s.contracts)) (status_of (some p))
      → Writes s s'

propose-Writes :
    (j : ContractIdx) (p : Outcome) (now : Ts) (s : Oracle) → Writes s (propose j p now s).1
unfolding propose
propose-Writes j p now s = go (lookup j s.contracts) refl (ts_add now s.challenge_window) refl
  where
    go :
        (q : Option Proposal)
        → lookup j s.contracts ≡ q
        → (t : Option Ts) → ts_add now s.challenge_window ≡ t
        → Writes s (propose j p now s).1
    go none e none f = nothing (rw (propose, e, f) refl)
    go none e (some t) f =
        writes j (proposed p t) (rw (propose, e, f) refl) (rw e (omega arith, λ q. ground arith))
    go (some (proposed o t)) e u f = nothing (rw (propose, e) refl)
    go (some contested) e u f = nothing (rw (propose, e) refl)
    go (some (decided o)) e u f = nothing (rw (propose, e) refl)

contest-Writes : (j : ContractIdx) (s : Oracle) → Writes s (contest j s).1
unfolding contest
contest-Writes j s = go (lookup j s.contracts) refl
  where
    go : (q : Option Proposal) → lookup j s.contracts ≡ q → Writes s (contest j s).1
    go none e = nothing (rw (contest, e) refl)
    go (some (proposed o t)) e =
        writes j contested (rw (contest, e) refl) (rw e (omega arith, λ q. refl))
    go (some contested) e = nothing (rw (contest, e) refl)
    go (some (decided o)) e = nothing (rw (contest, e) refl)

finalise-Writes : (j : ContractIdx) (now : Ts) (s : Oracle) → Writes s (finalise j now s).1
unfolding finalise
finalise-Writes j now s = go (lookup j s.contracts) refl
  where
    go : (q : Option Proposal) → lookup j s.contracts ≡ q → Writes s (finalise j now s).1
    go none e = nothing (rw (finalise, e) refl)
    go (some (proposed o t)) e = elim (Bool-cases (ltb now t)) [
      | inl early ↦ nothing (rw (finalise, e, early) refl)
      | inr late ↦
          writes j (decided o) (rw (finalise, e, late) refl) (rw e (omega arith, λ q. ground arith))
    ]
    go (some contested) e = nothing (rw (finalise, e) refl)
    go (some (decided o)) e = nothing (rw (finalise, e) refl)

escalate-Writes :
    (j : ContractIdx) (p : Outcome) (who : AccountIdx) (s : Oracle)
    → Writes s (escalate j p who s).1
unfolding escalate
escalate-Writes j p who s = elim (Bool-cases (who == s.escalation_authority)) [
  | inr other ↦ nothing (rw other refl)
  | inl ruler ↦ go ruler (lookup j s.contracts) refl
]
  where
    go :
        who == s.escalation_authority ≡ true
        → (q : Option Proposal) → lookup j s.contracts ≡ q
        → Writes s (escalate j p who s).1
    go ruler none e =
        writes j (decided p) (rw (ruler, e) refl) (rw e (omega arith, λ q. ground arith))
    go ruler (some (proposed o t)) e =
        writes j (decided p) (rw (ruler, e) refl) (rw e (omega arith, λ q. ground arith))
    go ruler (some contested) e =
        writes j (decided p) (rw (ruler, e) refl) (rw e (omega arith, λ q. ground arith))
    go ruler (some (decided o)) e = nothing (rw (ruler, e) refl)

pub perform-Writes : (c : OracleCall) (s : Oracle) → Writes s (perform c s)
unfolding perform
perform-Writes (proposes j p now) s = propose-Writes j p now s
perform-Writes (contests j) s = contest-Writes j s
perform-Writes (finalises j now) s = finalise-Writes j now s
perform-Writes (escalates j p w) s = escalate-Writes j p w s

perform-Forward :
    (c : OracleCall) (s : Oracle) (k : ContractIdx) → Forward (status s k) (status (perform c s) k)
unfolding status
perform-Forward c s k = elim (perform-Writes c s) [
  | nothing q ↦ rw q (omega arith, λ e. refl)
  | writes j p q forward ↦ rw q (put-Forward k j p s.contracts forward)
]

-- No history of oracle calls moves a contract's status back: its rank does not fall, and while
-- the rank stays the status does, so that an outcome once final is the outcome for ever.
pub run-Forward :
    (cs : List OracleCall) (s : Oracle) (k : ContractIdx)
    → Forward (status s k) (status (run cs s) k)
unfolding run
run-Forward [] s k = (omega arith, λ e. refl)
run-Forward (c ∷ cs) s k =
    Forward-trans (status s k) (status (perform c s) k) (status (run cs (perform c s)) k)
      (perform-Forward c s k) (run-Forward cs (perform c s) k)
