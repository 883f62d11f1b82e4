-- ===== src/Prelude/Process.antt =====
-- `fn(&mut self, ..) -> Result<A, E>` whose loops are on fuel: `none` is a run that the fuel does
-- not finish.
pub mod Post
use mathlib.Core.Bool.{Bool}
use mathlib.Core.Option.{Option, none, some}
use rfq_matching_settlement.Prelude.Result
use rfq_matching_settlement.Prelude.Result.{Result, ok, err}

abbrev pub Process : Type 0 → Type 0 → Type 0 → Type 0
Process S E A = S → Option (Result E A × S)

module _ {S E : Type 0} where
  abbrev pub and_then :
      {A B : Type 0} → Option (Result E A × S) → (A → Process S E B) → Option (Result E B × S)
  and_then none f = none
  and_then (some (ok a, s)) f = f a s
  and_then (some (err e, s)) f = some (err e, s)

  infixl 5 ◌>>=◌ ◌>>◌
  unfoldable pub ◌>>=◌ : {A B : Type 0} → Process S E A → (A → Process S E B) → Process S E B
  ◌>>=◌ m f s = and_then (m s) f

  unfoldable pub ◌>>◌ : {A B : Type 0} → Process S E A → Process S E B → Process S E B
  unfolding ◌>>=◌
  m >> k = m >>= λ _. k

  unfoldable pub pure : {A : Type 0} → A → Process S E A
  pure a s = some (ok a, s)

  unfoldable pub throw : {A : Type 0} → E → Process S E A
  throw e s = some (err e, s)

  unfoldable pub lift : {A : Type 0} → Result E A → Process S E A
  lift r s = some (r, s)

  unfoldable pub gets : {A : Type 0} → (S → A) → Process S E A
  gets f s = some (ok (f s), s)

  -- A pure computation on fuel.
  abbrev finish_pure : {A : Type 0} → Option A → S → Option (Result E A × S)
  finish_pure none s = none
  finish_pure (some a) s = some (ok a, s)

  unfoldable pub run_pure : {A : Type 0} → Option A → Process S E A
  run_pure o s = finish_pure o s

  unfoldable pub modify : (S → S) → Process S E (Unit {0})
  modify f s = some (ok tt, f s)

  -- A change of the state on fuel that cannot fail.
  abbrev pub finish_change : Option S → Option (Result E (Unit {0}) × S)
  finish_change none = none
  finish_change (some s) = some (ok tt, s)

  unfoldable pub change : (S → Option S) → Process S E (Unit {0})
  change f s = finish_change (f s)

  unfoldable pub ok_or : {A : Type 0} → Option A → E → Process S E A
  ok_or o e s = some (Result.ok_or o e, s)

  unfoldable pub err_if : Bool → E → Process S E (Unit {0})
  err_if c e s = some (Result.err_if c e, s)
