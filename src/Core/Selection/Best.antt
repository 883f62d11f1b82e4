-- ===== src/Core/Selection/Best.antt =====
-- crates/core/src/selection.rs: what a selection is the best of.
use rfq_matching_settlement.Prelude.{
  ℕ, suc, ◌≡◌, refl, ◌∙◌, inl, inr, Bool, true, false, ◌&&◌, ◌||◌, Option, none, some, List, [],
  ◌∷◌, arith, Bool-cases, All, length, get_elem?, ltb, leb, ◌==◌, u64_max, if◌then◌else◌,
}
use rfq_matching_settlement.Prelude.Result.{Result, ok, err}
use mathlib.Core.Path.{subst}
use rfq_matching_settlement.Core.Types.{Ts, Price}
use rfq_matching_settlement.Core.Slab.{Handle, Slab}
use rfq_matching_settlement.Core.Quote.{Quote, is_live_at}
use rfq_matching_settlement.Core.Request.{Leg, Selection}
use rfq_matching_settlement.Core.Selection.{
  NoQuoteReason, no_quotes, all_expired, outside_limit, size_too_small, quote_at, Scan, fresh_scan,
  visit, better, scan, verdict, best_on_leg,
}

-- The quotes on the chain that a link starts, in the order in which the links lead to them.
pub data Chain (quotes : Slab Quote) : ℕ → List (Handle × Quote) → Type 0 where
  ends : (cursor : ℕ) → quote_at quotes cursor ≡ none → Chain quotes cursor []
  links :
      (cursor : ℕ) (h : Handle) (q : Quote) (rest : List (Handle × Quote))
      → quote_at quotes cursor ≡ some (h, q)
      → Chain quotes q.next_on_leg rest
      → Chain quotes cursor ((h, q) ∷ rest)

-- The loop as a fold over the quotes of the chain.
unfoldable pub fold : Leg → Ts → List (Handle × Quote) → Scan → Scan
fold leg now [] s = s
fold leg now ((h, q) ∷ qs) s = fold leg now qs (visit leg now h q s)

scan-fold :
    (quotes : Slab Quote) (leg : Leg) (now : Ts) (cursor : ℕ) (qs : List (Handle × Quote))
    (s : Scan)
    → Chain quotes cursor qs
    → scan (suc (length qs)) quotes leg now cursor s ≡ some (fold leg now qs s)
unfolding scan fold
scan-fold quotes leg now cursor [] s (ends c e) = rw (scan, e) refl
scan-fold quotes leg now cursor ((h, q) ∷ qs) s (links c g p rest e chain) =
    rw (scan, e) (scan-fold quotes leg now q.next_on_leg qs (visit leg now h q s) chain)

-- A candidate: live, of sufficient size and within the limit.
abbrev pub eligible : Leg → Ts → Quote → Bool
eligible leg now q = is_live_at q now && (leb leg.size q.size && leb q.price leg.limit)

-- Cheaper, or as cheap and earlier.
abbrev pub preferred : Quote → Price → ℕ → Bool
preferred q price arrival = ltb q.price price || (q.price == price && ltb q.arrival arrival)

-- The quote is no candidate that is preferred to the given price and arrival.
abbrev pub Unbeaten : Leg → Ts → Price → ℕ → Handle × Quote → Type 0
Unbeaten leg now price arrival e = (eligible leg now e.1 && preferred e.1 price arrival) ≡ false

abbrev pub any : (Quote → Bool) → List (Handle × Quote) → Bool
any f [] = false
any f (e ∷ es) = f e.1 || any f es

-- What a fold makes of the best that it started with: it stays, and beats the quotes folded, or a
-- candidate that is preferred to it takes its place.
data Folds (leg : Leg) (now : Ts) (qs : List (Handle × Quote)) (s r : Scan) : Type 0 where
  keeps :
      r.best ≡ s.best
      → r.best_arrival ≡ s.best_arrival
      → All (λ e. (eligible leg now e.1 && better e.1 s.best s.best_arrival) ≡ false) qs
      → Folds leg now qs s r
  takes :
      (i : ℕ) (h : Handle) (q : Quote)
      → get_elem? qs i ≡ some (h, q)
      → eligible leg now q ≡ true
      → better q s.best s.best_arrival ≡ true
      → r.best ≡ some (record { quote = h; price = q.price })
      → r.best_arrival ≡ q.arrival
      → All (Unbeaten leg now q.price q.arrival) qs
      → Folds leg now qs s r

-- What a visit makes of the best: the quote that it takes, or what was there.
visit_won :
    (leg : Leg) (now : Ts) (h : Handle) (q : Quote) (s : Scan)
    → (eligible leg now q && better q s.best s.best_arrival) ≡ true
    → ((visit leg now h q s).best ≡ some (record { quote = h; price = q.price }))
      × ((visit leg now h q s).best_arrival ≡ q.arrival)
unfolding visit
visit_won leg now h q s won = ground arith

visit_lost :
    (leg : Leg) (now : Ts) (h : Handle) (q : Quote) (s : Scan)
    → (eligible leg now q && better q s.best s.best_arrival) ≡ false
    → ((visit leg now h q s).best ≡ s.best) × ((visit leg now h q s).best_arrival ≡ s.best_arrival)
unfolding visit
visit_lost leg now h q s lost = ground arith

-- The quotes that do not beat the best.
abbrev Behind : Leg → Ts → Option Selection → ℕ → Handle × Quote → Type 0
Behind leg now best arrival e = (eligible leg now e.1 && better e.1 best arrival) ≡ false

Behind-same :
    (leg : Leg) (now : Ts) (b c : Option Selection) (a d : ℕ) (qs : List (Handle × Quote))
    → b ≡ c
    → a ≡ d
    → All (Behind leg now b a) qs
    → All (Behind leg now c d) qs
Behind-same leg now b c a d qs e f h =
    subst (λ o. All (Behind leg now o d) qs) e (subst (λ n. All (Behind leg now b n) qs) f h)

fold-Folds :
    (leg : Leg) (now : Ts) (qs : List (Handle × Quote)) (s : Scan)
    → Folds leg now qs s (fold leg now qs s)
unfolding fold
fold-Folds leg now [] s = keeps refl refl tt
fold-Folds leg now ((h, q) ∷ qs) s =
    let s1 = visit leg now h q s in
    elim (Bool-cases (eligible leg now q && better q s.best s.best_arrival)) [
      | inl won ↦
          let (best, arrival) = visit_won leg now h q s won in
          elim (fold-Folds leg now qs s1) [
            | keeps b a behind ↦
                takes 0 h q refl (ground arith) (ground arith) (b ∙ best) (a ∙ arrival) (
                  ground arith,
                  Behind-same leg now s1.best (some (record { quote = h; price = q.price }))
                      s1.best_arrival q.arrival qs best arrival behind,
                )
            | takes i g p at fit won' b a behind ↦
                takes (suc i) g p at fit (ground arith) b a (ground arith, behind)
          ]
      | inr lost ↦
          let (best, arrival) = visit_lost leg now h q s lost in
          elim (fold-Folds leg now qs s1) [
            | keeps b a behind ↦ keeps (b ∙ best) (a ∙ arrival) (
              lost,
              Behind-same leg now s1.best s.best s1.best_arrival s.best_arrival qs best arrival
                  behind,
            )
            | takes i g p at fit won' b a behind ↦
                takes (suc i) g p at fit (ground arith) b a (ground arith, behind)
          ]
    ]

-- What the flags say of the quotes seen.
abbrev pub big_enough : Leg → Ts → Quote → Bool
big_enough leg now q = is_live_at q now && leb leg.size q.size

fold_flags :
    (leg : Leg) (now : Ts) (qs : List (Handle × Quote)) (s : Scan)
    → ((fold leg now qs s).saw_quote ≡ (s.saw_quote || any (λ q. true) qs))
      × ((fold leg now qs s).saw_live ≡ (s.saw_live || any (λ q. is_live_at q now) qs))
      × ((fold leg now qs s).saw_big_enough ≡ (s.saw_big_enough || any (big_enough leg now) qs))
unfolding fold visit
fold_flags leg now [] s = ground arith
fold_flags leg now ((h, q) ∷ qs) s = ground (arith, fold_flags leg now qs (visit leg now h q s))

-- Why a leg has no candidate: nobody quoted, no quote is live, no live quote is large enough, or
-- every live quote that is large enough is past the limit.
abbrev pub reason_of : Leg → Ts → List (Handle × Quote) → NoQuoteReason
reason_of leg now qs =
    if any (big_enough leg now) qs
    then outside_limit
    else (if any (λ q. is_live_at q now) qs
        then size_too_small
        else (if any (λ q. true) qs then all_expired else no_quotes))

-- The right answer for the quotes of a leg: the candidate that none beats, or why there is none.
pub data Answer (leg : Leg) (now : Ts) (qs : List (Handle × Quote))
    (r : Result NoQuoteReason Selection) : Type 0 where
  chosen :
      (i : ℕ) (h : Handle) (q : Quote)
      → get_elem? qs i ≡ some (h, q)
      → eligible leg now q ≡ true
      → All (Unbeaten leg now q.price q.arrival) qs
      → r ≡ ok (record { quote = h; price = q.price })
      → Answer leg now qs r
  none_fits :
      All (λ e. eligible leg now e.1 ≡ false) qs
      → r ≡ err (reason_of leg now qs)
      → Answer leg now qs r

Behind-none :
    (leg : Leg) (now : Ts) (a : ℕ) (qs : List (Handle × Quote))
    → All (Behind leg now none a) qs
    → All (λ e. eligible leg now e.1 ≡ false) qs
Behind-none leg now a [] h = tt
Behind-none leg now a (e ∷ qs) h = (ground arith, Behind-none leg now a qs h.1)

any_big_live :
    (leg : Leg) (now : Ts) (qs : List (Handle × Quote))
    → any (big_enough leg now) qs ≡ true
    → any (λ q. is_live_at q now) qs ≡ true
any_big_live leg now [] h = h
any_big_live leg now (e ∷ qs) h = ground (arith, any_big_live leg now qs)

any_live :
    (now : Ts) (qs : List (Handle × Quote))
    → any (λ q. is_live_at q now) qs ≡ true
    → any (λ q. true) qs ≡ true
any_live now [] h = h
any_live now (e ∷ qs) h = refl

verdict-Answer :
    (leg : Leg) (now : Ts) (qs : List (Handle × Quote))
    → Answer leg now qs (verdict (fold leg now qs fresh_scan))
unfolding verdict
verdict-Answer leg now qs = elim (fold-Folds leg now qs fresh_scan) [
  | keeps b a behind ↦ none_fits (Behind-none leg now u64_max qs behind) (
      ground (arith, b, fold_flags leg now qs fresh_scan, any_big_live leg now qs, any_live now qs))
  | takes i h q at fit won b a behind ↦ chosen i h q at fit behind (rw b refl)
]

-- With fuel for one round more than the leg's chain has quotes, the walk of the chain answers: the
-- live quote of sufficient size and within the limit that no other such quote beats, by price and
-- then by arrival, or else the reason why there is none.
pub best_on_leg-Answer :
    (quotes : Slab Quote) (leg : Leg) (now : Ts) (qs : List (Handle × Quote))
    → Chain quotes leg.quotes_head qs
    → (r : Result NoQuoteReason Selection) × (best_on_leg (suc (length qs)) quotes leg now ≡ some r)
      × Answer leg now qs r
unfolding best_on_leg
best_on_leg-Answer quotes leg now qs chain = (
  verdict (fold leg now qs fresh_scan),
  rw (best_on_leg, scan-fold quotes leg now leg.quotes_head qs fresh_scan chain) refl,
  verdict-Answer leg now qs,
)
