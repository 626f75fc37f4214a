-- ===== src/Base/Steps.antt =====
-- Code that reads and writes a state and may panic.
use phper.Base.Runs.{Outcome, returns, panics, undefined}

abbrev pub Steps : Type 0 → Type 0 → Type 0
Steps S A = S → Outcome (A × S)

module _ {S A B : Type 0} where
  abbrev pub and_then : Outcome (A × S) → (A → Steps S B) → Outcome (B × S)
  and_then (returns (a, s)) f = f a s
  and_then panics f = panics
  and_then undefined f = undefined

  infixl 5 ◌>>=◌ ◌>>◌
  abbrev pub ◌>>=◌ : Steps S A → (A → Steps S B) → Steps S B
  ◌>>=◌ m f s = and_then (m s) f

  abbrev pub ◌>>◌ : Steps S A → Steps S B → Steps S B
  m >> n = m >>= λ _. n

abbrev pub modify : {S : Type 0} → (S → S) → Steps S (Unit {0})
modify f s = returns (tt, f s)

module _ {S A : Type 0} where
  abbrev pub done : A → Steps S A
  done a s = returns (a, s)

  abbrev pub gets : (S → A) → Steps S A
  gets f s = returns (f s, s)

  abbrev pub try : Outcome A → Steps S A
  try (returns a) s = returns (a, s)
  try panics s = panics
  try undefined s = undefined
