-- ===== src/Prelude/Process/Post.antt =====
-- What holds where a process ends, by the steps of its do block. A run that the fuel does not
-- finish promises nothing.
use mathlib.Core.Bool.{Bool, true, false}
use mathlib.Core.Option.{Option, none, some}
use mathlib.Core.Path.{◌≡◌, refl}
use rfq_matching_settlement.Prelude.Result.{Result, ok, err}
use rfq_matching_settlement.Prelude.Process.{
  Process, ◌>>=◌, ◌>>◌, gets, modify, lift, run_pure, change, and_then, finish_change, ok_or,
  err_if,
}

module _ {S E : Type 0} {A : Type 0} where
  abbrev pub Post : (Result E A → S → Type 0) → Option (Result E A × S) → Type 0
  Post Q none = Unit
  Post Q (some (r, s)) = Q r s

  pub Post-read :
      (Q : Result E A → S → Type 0) (o : Option (Result E A × S)) {r : Result E A} {s : S}
      → Post Q o
      → o ≡ some (r, s)
      → Q r s
  Post-read Q o p e = rw e at p

module _ {S E : Type 0} {B : Type 0} (Q : Result E B → S → Type 0) where
  pub Post-err_if :
      (c : Bool) (e : E) (s : S) (k : Process S E B)
      → (c ≡ true → Q (err e) s)
      → (c ≡ false → Post Q (k s))
      → Post Q ((err_if c e >> k) s)
  unfolding ◌>>◌ err_if
  Post-err_if true e s k bad good = bad refl
  Post-err_if false e s k bad good = good refl

  pub Post-ok_or :
      {A : Type 0} (o : Option A) (e : E) (s : S) (k : A → Process S E B)
      → (o ≡ none → Q (err e) s)
      → ((a : A) → o ≡ some a → Post Q (k a s))
      → Post Q ((ok_or o e >>= k) s)
  unfolding ◌>>=◌ ok_or
  Post-ok_or none e s k bad good = bad refl
  Post-ok_or (some a) e s k bad good = good a refl

  pub Post-lift :
      {A : Type 0} (r : Result E A) (s : S) (k : A → Process S E B)
      → ((e : E) → r ≡ err e → Q (err e) s)
      → ((a : A) → r ≡ ok a → Post Q (k a s))
      → Post Q ((lift r >>= k) s)
  unfolding ◌>>=◌ lift
  Post-lift (err e) s k bad good = bad e refl
  Post-lift (ok a) s k bad good = good a refl

  pub Post-check :
      (r : Result E (Unit {0})) (s : S) (k : Process S E B)
      → ((e : E) → r ≡ err e → Q (err e) s)
      → (r ≡ ok tt → Post Q (k s))
      → Post Q ((lift r >> k) s)
  unfolding ◌>>◌ lift
  Post-check (err e) s k bad good = bad e refl
  Post-check (ok u) s k bad good = good refl

  pub Post-gets :
      {A : Type 0} (f : S → A) (s : S) (k : A → Process S E B)
      → Post Q (k (f s) s)
      → Post Q ((gets f >>= k) s)
  unfolding ◌>>=◌ gets
  Post-gets f s k good = good

  pub Post-modify :
      (f : S → S) (s : S) (k : Process S E B) → Post Q (k (f s)) → Post Q ((modify f >> k) s)
  unfolding ◌>>◌ modify
  Post-modify f s k good = good

  pub Post-run_pure :
      {A : Type 0} (o : Option A) (s : S) (k : A → Process S E B)
      → ((a : A) → o ≡ some a → Post Q (k a s))
      → Post Q ((run_pure o >>= k) s)
  unfolding ◌>>=◌ run_pure
  Post-run_pure none s k good = tt
  Post-run_pure (some a) s k good = good a refl

  pub Post-change :
      (f : S → Option S) (s : S) (k : Process S E B)
      → ((u : S) → f s ≡ some u → Post Q (k u))
      → Post Q ((change f >> k) s)
  unfolding ◌>>◌ change
  Post-change f s k good = go (f s) good
    where
      go :
          (o : Option S)
          → ((u : S) → o ≡ some u → Post Q (k u))
          → Post Q (and_then (finish_change o) (λ _. k))
      go none good = tt
      go (some u) good = good u refl

module _ {S E : Type 0} (Q : Result E (Unit {0}) → S → Type 0) where
  pub Post-end : (f : S → S) (s : S) → Q (ok tt) (f s) → Post Q (modify f s)
  unfolding modify
  Post-end f s good = good

  pub Post-end_change :
      (f : S → Option S) (s : S) → ((u : S) → f s ≡ some u → Q (ok tt) u) → Post Q (change f s)
  unfolding change
  Post-end_change f s good = go (f s) good
    where
      go : (o : Option S) → ((u : S) → o ≡ some u → Q (ok tt) u) → Post Q (finish_change o)
      go none good = tt
      go (some u) good = good u refl
