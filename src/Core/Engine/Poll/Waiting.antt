-- ===== src/Core/Engine/Poll/Waiting.antt =====
-- crates/core/src/engine.rs, `poll_settlement`: nonces name requests, and without an answer nothing
-- moves.
use rfq_matching_settlement.Prelude.{
  ℕ, ◌≡◌, ◌↔◌, refl, inl, inr, false, some, arith, ltb, Option-cases, Bool-cases, get_elem?,
}
use rfq_matching_settlement.Prelude.Result.{Result}
use rfq_matching_settlement.Prelude.Process.{pure}
use rfq_matching_settlement.Prelude.Process.Post.{
  Post, Post-read, Post-err_if, Post-ok_or, Post-gets, Post-end,
}
use rfq_matching_settlement.Core.Types.{Ts}
use rfq_matching_settlement.Core.Settlement.{
  Nonce, TxStatus, is_terminal, unknown, pending, settled, reverted,
}
use rfq_matching_settlement.Core.Slab
use rfq_matching_settlement.Core.Slab.{Handle, Slab, occupied}
use rfq_matching_settlement.Core.Request.{Request, nonce_of}
use rfq_matching_settlement.Core.Ledger.{Ledger}
use rfq_matching_settlement.Core.Ledger.Commit.{handle_at-get}
use rfq_matching_settlement.Core.Engine.{EngineError, Turn}
use rfq_matching_settlement.Core.Engine.Steps.{Post-check_headroom}
use rfq_matching_settlement.Core.Engine.Poll.{resolve_nonce, wait, act_on, poll_settlement}

-- A handle that is read off a slot names that slot.
handle_at-index :
    {A : Type 0} (s : Slab A) (i : ℕ) {h : Handle} → Slab.handle_at s i ≡ some h → h.index ≡ i
unfolding Slab.handle_at
handle_at-index s i e = elim (Option-cases (get_elem? s.slots i)) [
  | inl q ↦ absurd (ground (arith, q, e))
  | inr (slot, q) ↦ ground (arith, q, e)
]

-- The nonce of a request that is there resolves to that request, and whatever request a nonce
-- resolves to has that nonce: nonces and handles are two names for the same thing.
pub resolve_nonce-nonce_of :
    (l : Ledger) (h : Handle) (r : Request) (nonce : Nonce)
    → Slab.get l.requests h ≡ some r
    → (resolve_nonce nonce l ≡ some h) ↔ (nonce ≡ nonce_of h)
unfolding resolve_nonce
resolve_nonce-nonce_of l h r nonce at = (forth, back)
  where
    forth : resolve_nonce nonce l ≡ some h → nonce ≡ nonce_of h
    forth e = elim (Option-cases (Slab.handle_at l.requests nonce.request)) [
      | inl q ↦ absurd (ground (arith, q, e))
      | inr (g, q) ↦ ground (arith, q, e, handle_at-index l.requests nonce.request q)
    ]

    back : nonce ≡ nonce_of h → resolve_nonce nonce l ≡ some h
    back e = rw (e, resolve_nonce, handle_at-get l.requests h at) (ground arith)

abbrev Unmoved : Turn → Result EngineError (Unit {0}) → Turn → Type 0
Unmoved t r u = u.engine ≡ t.engine

wait-Unmoved :
    (request : Handle) (nonce : Nonce) (deadline : Ts) (status : TxStatus) (now : Ts) (t : Turn)
    → Post (Unmoved t) (wait request nonce deadline status now t)
unfolding pure
wait-Unmoved request nonce deadline status now t = elim (Bool-cases (ltb now deadline)) [
  | inl e ↦ rw e refl
  | inr e ↦ rw e (Post-check_headroom (Unmoved t) _ t _ refl λ q. Post-end (Unmoved t) _ _ refl)
]

act_on-Unmoved :
    (request : Handle) (n : ℕ) (nonce : Nonce) (deadline : Ts) (status : TxStatus) (now : Ts)
    (t : Turn)
    → is_terminal status ≡ false
    → Post (Unmoved t) (act_on request n nonce deadline status now t)
unfolding act_on
act_on-Unmoved request n nonce deadline unknown now t e =
    wait-Unmoved request nonce deadline unknown now t
act_on-Unmoved request n nonce deadline pending now t e =
    wait-Unmoved request nonce deadline pending now t
act_on-Unmoved request n nonce deadline settled now t e = absurd (ground (arith, e))
act_on-Unmoved request n nonce deadline reverted now t e = absurd (ground (arith, e))

poll-Unmoved :
    (nonce : Nonce) (status : TxStatus) (now : Ts) (t : Turn)
    → is_terminal status ≡ false
    → Post (Unmoved t) (poll_settlement nonce status now t)
unfolding poll_settlement
poll-Unmoved nonce status now t undecided =
    let R = Unmoved t in
    Post-gets R _ t _ (
      Post-ok_or R _ _ t _ (λ e. refl)
        λ request found.
          Post-ok_or R _ _ t _ (λ e. refl)
            λ r at.
              Post-ok_or R _ _ t _ (λ e. refl)
                λ flight q.
                  Post-err_if R _ _ t _ (λ e. refl)
                    λ e. act_on-Unmoved request r.n_legs flight.0 flight.1 status now t undecided)

-- A poll that has no final answer moves nothing: whatever the instant, and also where the deadline
-- has passed and an alert goes out, the engine is as it was, with all capital where it was.
pub poll_undecided :
    (nonce : Nonce) (status : TxStatus) (now : Ts) (t u : Turn) (r : Result EngineError (Unit {0}))
    → is_terminal status ≡ false
    → poll_settlement nonce status now t ≡ some (r, u)
    → u.engine ≡ t.engine
poll_undecided nonce status now t u r undecided e =
    Post-read (Unmoved t) (poll_settlement nonce status now t)
      (poll-Unmoved nonce status now t undecided) e
