-- ===== src/Runtime/Settlement/Legs.antt =====
-- crates/runtime/src/settlement.rs: a bundle has the legs of its intent.
use mathlib.Core.Option
use rfq_matching_settlement.Prelude.{
  ℕ, zero, suc, ◌+◌, ◌≤◌, ◌<◌, ◌≡◌, refl, ap, ◌∙◌, sym, some, List, [], ◌∷◌, arith, get_elem?, set,
  take, replicate, length, length-set, length-take, get_elem?-set_self, get_elem?-set_ne,
}
use rfq_matching_settlement.Core.Types.{AccountIdx}
use rfq_matching_settlement.Core.Config.{max_legs_bound}
use rfq_matching_settlement.Core.Settlement.{Nonce}
use rfq_matching_settlement.Core.Slab.{Handle}
use rfq_matching_settlement.Core.Event.{IntentLeg, submit_intent}
use rfq_matching_settlement.Chain.Bundle.{BundleLeg, Bundle, legs}
use rfq_matching_settlement.Runtime.Settlement.{empty_bundle_leg, bundle_leg, convert, bundle_from}

length-convert :
    (i : ℕ) (xs : List IntentLeg) (ys : List BundleLeg) → length (convert i xs ys) ≡ length ys
unfolding convert
length-convert i [] ys = refl
length-convert i (x ∷ xs) ys =
    length-convert (i + 1) xs (set ys i (bundle_leg x)) ∙ length-set ys i (bundle_leg x)

-- Before the start of the loop, nothing is written.
convert_before :
    (i j : ℕ) (xs : List IntentLeg) (ys : List BundleLeg)
    → j < i
    → get_elem? (convert i xs ys) j ≡ get_elem? ys j
unfolding convert
convert_before i j [] ys h = refl
convert_before i j (x ∷ xs) ys h =
    convert_before (i + 1) j xs (set ys i (bundle_leg x)) (omega arith)
    ∙ get_elem?-set_ne ys i j (bundle_leg x) (λ e. omega arith)

convert_at :
    (i k : ℕ) (xs : List IntentLeg) (ys : List BundleLeg)
    → i + length xs ≤ length ys
    → k < length xs
    → get_elem? (convert i xs ys) (i + k) ≡ Option.map bundle_leg (get_elem? xs k)
unfolding convert
convert_at i k [] ys room less = absurd (omega arith)
convert_at i zero (x ∷ xs) ys room less =
    let here : i + 0 ≡ i = omega arith in
    rw here (
      convert_before (i + 1) i xs (set ys i (bundle_leg x)) (omega arith)
      ∙ get_elem?-set_self ys i (bundle_leg x) (omega arith))
convert_at i (suc k) (x ∷ xs) ys room less =
    let next : i + suc k ≡ (i + 1) + k = omega arith in
    rw next (
      convert_at (i + 1) k xs (set ys i (bundle_leg x))
        (omega (arith, length-set ys i (bundle_leg x))) (omega arith))

get_elem?-take :
    {A : Type 0} (n k : ℕ) (xs : List A) → k < n → get_elem? (take n xs) k ≡ get_elem? xs k
get_elem?-take zero k xs h = absurd (omega arith)
get_elem?-take (suc n) k [] h = refl
get_elem?-take (suc n) zero (x ∷ xs) h = refl
get_elem?-take (suc n) (suc k) (x ∷ xs) h = get_elem?-take n k xs (omega arith)

-- A leg of a bundle has the terms of a leg of an intent.
pub record HasTerms (leg : IntentLeg) (y : BundleLeg) : Type 0 where
  pub same_contract : y.contract ≡ leg.contract
  pub same_side : y.side ≡ leg.side
  pub same_size : y.size ≡ leg.size
  pub same_maker : y.maker ≡ leg.maker
  pub same_price : y.fill_price ≡ leg.fill_price
  pub same_expiry : y.quote_expiry ≡ leg.quote_expiry

bundle_leg-HasTerms : (x : IntentLeg) → HasTerms x (bundle_leg x)
bundle_leg-HasTerms x = record {
  same_contract = refl;
  same_side = refl;
  same_size = refl;
  same_maker = refl;
  same_price = refl;
  same_expiry = refl;
}

-- An intent with at most eight legs, all of them there, becomes a bundle with the same nonce and requester and
-- with as many legs; and the leg of the intent at a place before that count has, at the same place of
-- the bundle, a leg with its contract, side, size, maker, price and expiry.
pub bundle_from-legs :
    (request : Handle) (nonce : Nonce) (requester : AccountIdx) (xs : List IntentLeg) (n k : ℕ)
    (x : IntentLeg)
    → n ≤ max_legs_bound
    → n ≤ length xs
    → k < n
    → get_elem? xs k ≡ some x
    → (b : Bundle) × (bundle_from (submit_intent request nonce requester xs n) ≡ some b)
      × (b.nonce ≡ nonce)
      × (b.requester ≡ requester)
      × (length (legs b) ≡ n)
      × (y : BundleLeg) × (get_elem? (legs b) k ≡ some y)
      × HasTerms x y
unfolding bundle_from legs
bundle_from-legs request nonce requester xs n k x few there before at =
    let slots = convert 0 (take n xs) (replicate max_legs_bound empty_bundle_leg) in
    let made : Bundle = record {
      nonce = nonce;
      requester = requester;
      slots = slots;
      n_legs = n;
    } in
    let size : length slots ≡ max_legs_bound =
      length-convert 0 (take n xs) (replicate max_legs_bound empty_bundle_leg) in
    let shown : legs made ≡ take n slots = ground (arith, few, size) in
    let taken : length (take n xs) ≡ n = omega (arith, length-take n xs, there) in
    let from_start : 0 + k ≡ k = omega arith in
    (
      made,
      refl,
      refl,
      refl,
      rw shown (omega (arith, length-take n slots, few, size)),
      bundle_leg x,
      ap (λ ls. get_elem? ls k) shown
          ∙ get_elem?-take n k slots before
          ∙ ap (get_elem? slots) (sym from_start)
          ∙ convert_at 0 k (take n xs) (replicate max_legs_bound empty_bundle_leg)
              (omega (arith, taken, few)) (omega (arith, taken, before))
          ∙ ap (Option.map bundle_leg) (get_elem?-take n k xs before ∙ at),
      bundle_leg-HasTerms x,
    )
