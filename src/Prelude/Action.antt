-- ===== src/Prelude/Action.antt =====
-- `fn(&mut self, ..) -> Result<A, E>`: the state comes back with an error too, so that what a
-- rejected call has changed is not hidden.
use mathlib.Core.Bool.{Bool}
use mathlib.Core.Option.{Option}
use rfq_matching_settlement.Prelude.Result
use rfq_matching_settlement.Prelude.Result.{Result, ok, err}

abbrev pub Action : Type 0 → Type 0 → Type 0 → Type 0
Action S E A = S → Result E A × S

module _ {S E : Type 0} where
  infixl 5 ◌>>=◌ ◌>>◌
  abbrev pub ◌>>=◌ : {A B : Type 0} → Action S E A → (A → Action S E B) → Action S E B
  ◌>>=◌ m f s = let (r, s') = m s in elim r [ ok a ↦ f a s' | err e ↦ (err e, s') ]

  abbrev pub ◌>>◌ : {A B : Type 0} → Action S E A → Action S E B → Action S E B
  m >> k = m >>= λ _. k

  abbrev pub pure : {A : Type 0} → A → Action S E A
  pure a s = (ok a, s)

  abbrev pub lift : {A : Type 0} → Result E A → Action S E A
  lift r s = (r, s)

  abbrev pub gets : {A : Type 0} → (S → A) → Action S E A
  gets f s = (ok (f s), s)

  abbrev pub modify : (S → S) → Action S E (Unit {0})
  modify f s = (ok tt, f s)

  abbrev pub ok_or : {A : Type 0} → Option A → E → Action S E A
  ok_or o e s = (Result.ok_or o e, s)

  abbrev pub err_if : Bool → E → Action S E (Unit {0})
  err_if c e s = (Result.err_if c e, s)
