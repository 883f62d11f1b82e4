-- ===== src/Core/Engine/Plan/Fills.antt =====
-- crates/core/src/engine.rs, `plan_accept`: every leg of a plan fills within the leg's limit and at
-- or better than the requester was shown.
use rfq_matching_settlement.Prelude.{
  ℕ, zero, suc, ◌+◌, ◌*◌, ◌≤◌, ◌<◌, ◌≡◌, ◌∙◌, refl, ap, inl, inr, Option, none, some, List, arith,
  get_elem?, set, length, length-set, get_elem?-set_self, get_elem?-set_ne, Option-cases,
  Bool-cases, ltb, ◌==◌,
}
use native.Mathlib.Decide.{ℕ_discrete}
use rfq_matching_settlement.Prelude.Result.{ok, Result-cases}
use rfq_matching_settlement.Core.Types.{Ts, size_mul, requester_contribution, amount_add}
use rfq_matching_settlement.Core.Config.{max_legs_bound}
use rfq_matching_settlement.Core.Command.{ExpectedFill}
use rfq_matching_settlement.Core.Slab.{Handle, Slab}
use rfq_matching_settlement.Core.Quote.{Quote, is_live_at}
use rfq_matching_settlement.Core.Request.{Leg, Request, legs, Selection}
use rfq_matching_settlement.Core.Selection.{
  Scan, fresh_scan, better, visit, scan, verdict, best_on_leg, quote_at,
}
use rfq_matching_settlement.Core.Engine.Plan.{
  Plan, no_plan, fill_leg, plan_leg, plan_legs, plan_accept,
}

-- No selection is outside the limit.
abbrev Within : Leg → Option Selection → Type 0
Within g none = Unit
Within g (some b) = b.price ≤ g.limit

visit-Within :
    (g : Leg) (now : Ts) (h : Handle) (q : Quote) (s : Scan)
    → Within g s.best
    → Within g (visit g now h q s).best
unfolding visit
visit-Within g now h q s w = elim (Bool-cases (is_live_at q now)) [
  | inr e ↦ rw (visit, e) w
  | inl e ↦ elim (Bool-cases (ltb q.size g.size)) [
    | inl f ↦ rw (visit, e, f) w
    | inr f ↦ elim (Bool-cases (ltb g.limit q.price)) [
      | inl i ↦ rw (visit, e, f, i) w
      | inr i ↦ elim (Bool-cases (better q s.best s.best_arrival)) [
        | inr n ↦ rw (visit, e, f, i, n) w
        | inl y ↦ rw (visit, e, f, i, y) (ground (arith, i))
      ]
    ]
  ]
]

scan-Within :
    (fuel : ℕ) (quotes : Slab Quote) (g : Leg) (now : Ts) (cursor : ℕ) (s : Scan) {r : Scan}
    → Within g s.best
    → scan fuel quotes g now cursor s ≡ some r
    → Within g r.best
unfolding scan
scan-Within zero quotes g now cursor s w e = absurd (ground (arith, e))
scan-Within (suc fuel) quotes g now cursor s {r} w e =
    elim (Option-cases (quote_at quotes cursor)) [
      | inl q ↦ let same : s ≡ r = ground (arith, q, e) in rw same at w
      | inr (p, q) ↦
          let rest : scan fuel quotes g now p.1.next_on_leg (visit g now p.0 p.1 s) ≡ some r =
            ground (arith, q, e) in
          scan-Within fuel quotes g now p.1.next_on_leg (visit g now p.0 p.1 s)
            (visit-Within g now p.0 p.1 s w) rest
    ]

verdict-best : (s : Scan) (b : Selection) → verdict s ≡ ok b → s.best ≡ some b
unfolding verdict
verdict-best s b e = elim (Option-cases s.best) [
  | inr (c, q) ↦ ground (arith, q, e)
  | inl q ↦ elim (Bool-cases s.saw_quote) [
    | inr f ↦ absurd (ground (arith, q, f, e))
    | inl f ↦ elim (Bool-cases s.saw_live) [
      | inr i ↦ absurd (ground (arith, q, f, i, e))
      | inl i ↦ absurd (ground (arith, q, f, i, e))
    ]
  ]
]

best_on_leg-limit :
    (fuel : ℕ) (quotes : Slab Quote) (g : Leg) (now : Ts) (b : Selection)
    → best_on_leg fuel quotes g now ≡ some (ok b)
    → b.price ≤ g.limit
unfolding best_on_leg
best_on_leg-limit fuel quotes g now b e =
    elim (Option-cases (scan fuel quotes g now g.quotes_head fresh_scan)) [
      | inl q ↦ absurd (ground (arith, q, e))
      | inr (s, q) ↦
          let at : s.best ≡ some b = verdict-best s b (ground (arith, q, e)) in
          let w = scan-Within fuel quotes g now g.quotes_head fresh_scan tt q in rw at at w
    ]

-- How a leg of a plan is filled.
pub record IsFilled (entry : Request) (expected : List ExpectedFill)
    (winners : List (Option Selection)) (i : ℕ) : Type 0 where
  pub leg : Leg
  pub best : Selection
  pub view : ExpectedFill
  pub of_request : get_elem? (legs entry) i ≡ some leg
  pub wins : get_elem? winners i ≡ some (some best)
  pub shown : get_elem? expected i ≡ some view
  pub same_leg : view.leg ≡ i
  pub no_worse : best.price ≤ view.price
  pub in_limit : best.price ≤ leg.limit

-- What the first legs of a request cost at the prices of their winners.
abbrev pub leg_cost : Option Leg → Option (Option Selection) → ℕ
leg_cost none w = 0
leg_cost (some g) none = 0
leg_cost (some g) (some none) = 0
leg_cost (some g) (some (some b)) = g.size * b.price

abbrev pub cost : List Leg → List (Option Selection) → ℕ → ℕ
cost gs ws zero = 0
cost gs ws (suc n) = cost gs ws n + leg_cost (get_elem? gs n) (get_elem? ws n)

cost-set :
    (gs : List Leg) (ws : List (Option Selection)) (n i : ℕ) (v : Option Selection)
    → n ≤ i
    → cost gs (set ws i v) n ≡ cost gs ws n
cost-set gs ws zero i v h = refl
cost-set gs ws (suc n) i v h =
    rw (cost-set gs ws n i v (omega arith), get_elem?-set_ne ws i n v (λ e. omega arith)) refl

record IsSound (entry : Request) (expected : List ExpectedFill) (n : ℕ) (p : Plan) : Type 0 where
  room : length p.winners ≡ max_legs_bound
  filled : (i : ℕ) → i < n → IsFilled entry expected p.winners i
  paid : p.total ≡ cost (legs entry) p.winners n

-- What a round adds.
record Fill (g : Leg) (i : ℕ) (expected : List ExpectedFill) (b : Selection) (p q : Plan)
    : Type 0 where
  view : ExpectedFill
  shown : get_elem? expected i ≡ some view
  same_leg : view.leg ≡ i
  no_worse : b.price ≤ view.price
  winners : q.winners ≡ set p.winners i (some b)
  total : q.total ≡ p.total + g.size * b.price

fill_leg-Fill :
    (g : Leg) (i : ℕ) (expected : List ExpectedFill) (b : Selection) (p q : Plan)
    → fill_leg g i expected b p ≡ ok q
    → Fill g i expected b p q
unfolding fill_leg requester_contribution size_mul
fill_leg-Fill g i expected b p q e = elim (Option-cases (get_elem? expected i)) [
  | inl n ↦ absurd (ground (arith, n, e))
  | inr (v, n) ↦ elim (Bool-cases (v.leg == i)) [
    | inr x ↦ absurd (ground (arith, n, x, e))
    | inl x ↦ elim (Bool-cases (ltb v.price b.price)) [
      | inl y ↦ absurd (ground (arith, n, x, y, e))
      | inr y ↦ elim (Option-cases (requester_contribution g.size b.price)) [
        | inl c ↦ absurd (ground (arith, n, x, y, c, e))
        | inr (c, at) ↦ elim (Option-cases (amount_add p.total c)) [
          | inl d ↦ absurd (ground (arith, n, x, y, at, d, e))
          | inr (d, sum) ↦
              let made : record { winners = set p.winners i (some b); total = d } ≡ q =
                ground (arith, n, x, y, at, sum, e) in
              rw (← made) (record {
                view = v;
                shown = n;
                same_leg = ground (arith, x);
                no_worse = ground (arith, y);
                winners = refl;
                total = ground (arith, at, sum);
              })
        ]
      ]
    ]
  ]
]

-- A leg that is filled stays so when another is.
IsFilled-set :
    (entry : Request) (expected : List ExpectedFill) (ws : List (Option Selection)) (i j : ℕ)
    (v : Option Selection)
    → i < j
    → IsFilled entry expected ws i
    → IsFilled entry expected (set ws j v) i
IsFilled-set entry expected ws i j v less f = record {
  leg = f.leg;
  best = f.best;
  view = f.view;
  of_request = f.of_request;
  wins = get_elem?-set_ne ws j i v (λ e. omega arith) ∙ f.wins;
  shown = f.shown;
  same_leg = f.same_leg;
  no_worse = f.no_worse;
  in_limit = f.in_limit;
}

extend :
    (entry : Request) (expected : List ExpectedFill) (n : ℕ) (p q : Plan) (g : Leg) (b : Selection)
    → n < max_legs_bound
    → IsSound entry expected n p
    → get_elem? (legs entry) n ≡ some g
    → b.price ≤ g.limit
    → Fill g n expected b p q
    → IsSound entry expected (suc n) q
extend entry expected n p q g b small s at limit f =
    let wins : get_elem? q.winners n ≡ some (some b) =
      ap (λ ws. get_elem? ws n) f.winners
      ∙ get_elem?-set_self p.winners n (some b) (omega (arith, s.room)) in
    record {
      room = ap length f.winners ∙ length-set p.winners n (some b) ∙ s.room;
      filled = λ i less. elim (ℕ_discrete i n) [
        | yes e ↦ rw e (record {
          leg = g;
          best = b;
          view = f.view;
          of_request = at;
          wins = wins;
          shown = f.shown;
          same_leg = f.same_leg;
          no_worse = f.no_worse;
          in_limit = limit;
        })
        | no e ↦ rw f.winners (
            IsFilled-set entry expected p.winners i n (some b) (omega arith)
              (s.filled i (omega arith)))
      ];
      paid =
          let before : cost (legs entry) q.winners n ≡ cost (legs entry) p.winners n =
            ap (λ ws. cost (legs entry) ws n) f.winners
            ∙ cost-set (legs entry) p.winners n n (some b) (omega arith) in
          rw (at, wins) (omega (arith, f.total, s.paid, before));
    }

plan_leg-IsSound :
    (fuel : ℕ) (quotes : Slab Quote) (entry : Request) (expected : List ExpectedFill) (now : Ts)
    (n : ℕ) (p q : Plan)
    → n < max_legs_bound
    → IsSound entry expected n p
    → plan_leg fuel quotes entry expected now n p ≡ some (ok q)
    → IsSound entry expected (suc n) q
unfolding plan_leg
plan_leg-IsSound fuel quotes entry expected now n p q small s e =
    elim (Option-cases (get_elem? (legs entry) n)) [
      | inl x ↦ absurd (ground (arith, x, e))
      | inr (g, x) ↦ elim (Option-cases (best_on_leg fuel quotes g now)) [
        | inl y ↦ absurd (ground (arith, x, y, e))
        | inr (r, y) ↦ elim (Result-cases r) [
          | inr (reason, z) ↦ absurd (ground (arith, x, y, z, e))
          | inl (b, z) ↦
              extend entry expected n p q g b small s x
                (best_on_leg-limit fuel quotes g now b (rw z at y))
                (fill_leg-Fill g n expected b p q (ground (arith, x, y, z, e)))
        ]
      ]
    ]

plan_legs-IsSound :
    (fuel rounds n m : ℕ) (quotes : Slab Quote) (entry : Request) (expected : List ExpectedFill)
    (now : Ts) (p q : Plan)
    → n + rounds ≡ m
    → m ≤ max_legs_bound
    → IsSound entry expected n p
    → plan_legs fuel rounds n quotes entry expected now p ≡ some (ok q)
    → IsSound entry expected m q
unfolding plan_legs
plan_legs-IsSound fuel zero n m quotes entry expected now p q sum small s e =
    let same : p ≡ q = ground (arith, e) in let here : n ≡ m = omega arith in rw (same, here) at s
plan_legs-IsSound fuel (suc rounds) n m quotes entry expected now p q sum small s e =
    elim (Option-cases (plan_leg fuel quotes entry expected now n p)) [
      | inl x ↦ absurd (ground (arith, x, e))
      | inr (r, x) ↦ elim (Result-cases r) [
        | inr (c, y) ↦ absurd (ground (arith, x, y, e))
        | inl (more, y) ↦
            let next =
              plan_leg-IsSound fuel quotes entry expected now n p more (omega arith) s
                (rw y at x) in
            let one : suc n ≡ n + 1 = omega arith in
            plan_legs-IsSound fuel rounds (n + 1) m quotes entry expected now more q (omega arith)
              small (rw one at next) (ground (arith, x, y, e))
      ]
    ]

-- Where a request with at most eight legs is planned, every leg has a winner whose price is within the
-- leg's limit and no worse than the one that the requester was shown for that leg, and the total is
-- the sum, over all legs, of the leg's size times its winner's price.
pub plan_accept-IsFilled :
    (fuel : ℕ) (quotes : Slab Quote) (entry : Request) (expected : List ExpectedFill) (now : Ts)
    (p : Plan)
    → entry.n_legs ≤ max_legs_bound
    → plan_accept fuel quotes entry expected now ≡ some (ok p)
    → ((i : ℕ) → i < entry.n_legs → IsFilled entry expected p.winners i)
      × (p.total ≡ cost (legs entry) p.winners entry.n_legs)
unfolding plan_accept
plan_accept-IsFilled fuel quotes entry expected now p small e =
    let start : IsSound entry expected 0 no_plan = record {
      room = refl;
      filled = λ i less. absurd (omega arith);
      paid = refl;
    } in
    let s =
      plan_legs-IsSound fuel entry.n_legs 0 entry.n_legs quotes entry expected now no_plan p
        (omega arith) small start e in
    (s.filled, s.paid)
