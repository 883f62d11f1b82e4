-- ===== src/Chain/Oracle/Window.antt =====
-- crates/chain/src/oracle.rs: the challenge window, and what a contest does to it.
use rfq_matching_settlement.Prelude.{
  ◌+◌, ◌<◌, ◌≡◌, ◌⊎◌, ◌≢◌, refl, ◌∙◌, inl, inr, Option, none, some, List, [], ◌∷◌, arith, All,
}
use native.Mathlib.Decide.{ℕ_discrete}
use rfq_matching_settlement.Prelude.Result.{ok}
use rfq_matching_settlement.Core.Types.{Ts, AccountIdx}
use rfq_matching_settlement.Core.Contract.{ContractIdx, Outcome, in_progress}
use rfq_matching_settlement.Chain.Oracle.{
  Oracle, Proposal, proposed, contested, decided, lookup, status, propose, contest, finalise,
  escalate,
}
use rfq_matching_settlement.Chain.Oracle.Histories.{
  OracleCall, proposes, contests, finalises, escalates, perform, run, lookup-put, lookup_eq,
  nothing, writes, perform-Writes,
}

-- Not a ruling of the authority on the contract.
abbrev pub Unruled : ContractIdx → AccountIdx → OracleCall → Type 0
Unruled k a (escalates j o who) = k ≡ j → who ≢ a
Unruled k a (proposes j o now) = Unit
Unruled k a (contests j) = Unit
Unruled k a (finalises j now) = Unit

-- Not a finalisation of the contract at or after the instant.
abbrev pub Early : ContractIdx → Ts → OracleCall → Type 0
Early k t (finalises j now) = k ≡ j → now < t
Early k t (proposes j o now) = Unit
Early k t (contests j) = Unit
Early k t (escalates j o who) = Unit

perform_authority :
    (c : OracleCall) (s : Oracle) → (perform c s).escalation_authority ≡ s.escalation_authority
perform_authority c s = elim (perform-Writes c s) [
  | nothing q ↦ rw q refl
  | writes j p q f ↦ rw q refl
]

-- A finalisation touches no other contract.
finalise_other :
    (k j : ContractIdx) (now : Ts) (s : Oracle)
    → k ≢ j
    → lookup k (finalise j now s).1.contracts ≡ lookup k s.contracts
unfolding finalise
finalise_other k j now s n = go (lookup j s.contracts) refl
  where
    go :
        (q : Option Proposal)
        → lookup j s.contracts ≡ q
        → lookup k (finalise j now s).1.contracts ≡ lookup k s.contracts
    go none e = ground (arith, e)
    go (some (proposed o t)) e = ground (arith, e, lookup-put k j (decided o) s.contracts)
    go (some contested) e = ground (arith, e)
    go (some (decided o)) e = ground (arith, e)

-- A contested proposal stays contested under any call but a ruling.
perform_contested :
    (c : OracleCall) (s : Oracle) (k : ContractIdx)
    → Unruled k s.escalation_authority c
    → lookup k s.contracts ≡ some contested
    → lookup k (perform c s).contracts ≡ some contested
unfolding perform propose contest finalise escalate
perform_contested (proposes j o now) s k u h = ground (
  arith,
  lookup_eq k j s.contracts,
  lookup-put k j (proposed o (now + s.challenge_window)) s.contracts,
)
perform_contested (contests j) s k u h =
    ground (arith, lookup_eq k j s.contracts, lookup-put k j contested s.contracts)
perform_contested (finalises j now) s k u h = elim (ℕ_discrete k j) [
  | yes q ↦ ground (arith, lookup_eq k j s.contracts)
  | no n ↦ finalise_other k j now s n ∙ h
]
perform_contested (escalates j o who) s k u h =
    ground (arith, lookup_eq k j s.contracts, lookup-put k j (decided o) s.contracts)

-- A contested proposal stays in progress through any history without a ruling of the escalation
-- authority on that contract, however late it is finalised.
pub contested_waits :
    (cs : List OracleCall) (s : Oracle) (k : ContractIdx)
    → lookup k s.contracts ≡ some contested
    → All (Unruled k s.escalation_authority) cs
    → (lookup k (run cs s).contracts ≡ some contested) × (status (run cs s) k ≡ in_progress)
unfolding run status
contested_waits [] s k h u = (h, rw h refl)
contested_waits (c ∷ cs) s k h u =
    contested_waits cs (perform c s) k (perform_contested c s k u.0 h)
      (rw (perform_authority c s) u.1)

perform_stands :
    (c : OracleCall) (s : Oracle) (k : ContractIdx) (o : Outcome) (t : Ts)
    → Unruled k s.escalation_authority c
    → Early k t c
    → lookup k s.contracts ≡ some (proposed o t)
    → (lookup k (perform c s).contracts ≡ some (proposed o t))
      ⊎ (lookup k (perform c s).contracts ≡ some contested)
unfolding perform propose contest finalise escalate
perform_stands (proposes j p now) s k o t u e h = inl (
    ground (
      arith,
      lookup_eq k j s.contracts,
      lookup-put k j (proposed p (now + s.challenge_window)) s.contracts,
    ))
perform_stands (contests j) s k o t u e h = elim (ℕ_discrete k j) [
  | yes q ↦ inr (ground (arith, lookup_eq k j s.contracts, lookup-put k j contested s.contracts))
  | no n ↦ inl (ground (arith, lookup-put k j contested s.contracts))
]
perform_stands (finalises j now) s k o t u e h = inl (elim (ℕ_discrete k j) [
  | yes q ↦ ground (arith, lookup_eq k j s.contracts)
  | no n ↦ finalise_other k j now s n ∙ h
])
perform_stands (escalates j p who) s k o t u e h =
    inl (ground (arith, lookup_eq k j s.contracts, lookup-put k j (decided p) s.contracts))

propose_ok :
    (k : ContractIdx) (o : Outcome) (now t : Ts) (s s' : Oracle)
    → propose k o now s ≡ (ok t, s')
    → (t ≡ now + s.challenge_window)
      × (lookup k s'.contracts ≡ some (proposed o t))
      × (s'.escalation_authority ≡ s.escalation_authority)
unfolding propose
propose_ok k o now t s s' h = ground (arith, lookup-put k k (proposed o t) s.contracts)

stands_run :
    (cs : List OracleCall) (s : Oracle) (k : ContractIdx) (o : Outcome) (t : Ts)
    → lookup k s.contracts ≡ some (proposed o t)
    → All (Unruled k s.escalation_authority) cs
    → All (Early k t) cs
    → status (run cs s) k ≡ in_progress
unfolding run status
stands_run [] s k o t h u e = rw h refl
stands_run (c ∷ cs) s k o t h u e =
    let rulings : All (Unruled k (perform c s).escalation_authority) cs =
      rw (perform_authority c s) u.1 in
    elim (perform_stands c s k o t u.0 e.0 h) [
      | inl stands ↦ stands_run cs (perform c s) k o t stands rulings e.1
      | inr disputed ↦ (contested_waits cs (perform c s) k disputed rulings).1
    ]

-- An accepted proposal has the whole challenge window: its window closes that long after it was
-- made, and through any history in which the contract is neither ruled on by the escalation
-- authority nor finalised at or after the close, its status is in progress.
pub challenge_window_enforced :
    (k : ContractIdx) (o : Outcome) (now t : Ts) (s s' : Oracle) (cs : List OracleCall)
    → propose k o now s ≡ (ok t, s')
    → All (Unruled k s.escalation_authority) cs
    → All (Early k t) cs
    → (t ≡ now + s.challenge_window) × (status (run cs s') k ≡ in_progress)
challenge_window_enforced k o now t s s' cs h u e =
    let (date, stands, same) = propose_ok k o now t s s' h in
    (date, stands_run cs s' k o t stands (rw same u) e)
