-- ===== src/Engine/Run.antt =====
-- Code that reads and writes the engine's globals and may panic.
use phper.Base.{Outcome, returns, panics, undefined, Result, ok, err}
use phper.Engine.{Globals}

abbrev pub Run : Type 0 → Type 0 → Type 0
Run R A = Globals R → Outcome (A × Globals R)

abbrev pub pure : {R A : Type 0} → A → Run R A
pure a g = returns (a, g)

abbrev pub panic : {R A : Type 0} → Run R A
panic g = panics

module _ {R A B : Type 0} where
  abbrev pub continue : Outcome (A × Globals R) → (A → Run R B) → Outcome (B × Globals R)
  continue (returns (a, g)) f = f a g
  continue panics f = panics
  continue undefined f = undefined

  infixl 5 ◌>>=◌ ◌>>◌
  abbrev pub ◌>>=◌ : Run R A → (A → Run R B) → Run R B
  ◌>>=◌ m f g = continue (m g) f

  abbrev pub ◌>>◌ : Run R A → Run R B → Run R B
  m >> n = m >>= λ _. n

-- A step of the engine that only changes the globals, and ones that also return a value.
abbrev pub step : {R : Type 0} → (Globals R → Globals R) → Run R (Unit {0})
step f g = returns (tt, f g)

module _ {R A : Type 0} where
  abbrev pub call : (Globals R → A × Globals R) → Run R A
  call f g = returns (f g)

  abbrev pub reads : (R → A) → Run R A
  reads f g = returns (f g.rest, g)

  abbrev pub lift : Outcome A → Run R A
  lift (returns a) g = returns (a, g)
  lift panics g = panics
  lift undefined g = undefined

-- `?`: an error ends the function.
abbrev pub or_return :
    {R A B E : Type 0} → Result A E → (A → Run R (Result B E)) → Run R (Result B E)
or_return (ok a) f = f a
or_return (err e) f = pure (err e)
