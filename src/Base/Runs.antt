-- ===== src/Base/Runs.antt =====
-- Rust's `Result`, and runs that end in a value, a panic or undefined behaviour.
use mathlib.Core.Option.{Option, none, some}

pub data Result {ℓ} (A E : Type ℓ) : Type ℓ where
  ok : A → Result A E
  err : E → Result A E

-- `Result::ok` forgets the error.
abbrev pub to_option {ℓ} : {A E : Type ℓ} → Result A E → Option A
to_option (ok a) = some a
to_option (err e) = none

abbrev pub map_ok {ℓ} : {A B E : Type ℓ} → (A → B) → Result A E → Result B E
map_ok f (ok a) = ok (f a)
map_ok f (err e) = err e

-- `panics` stands for `panic!`, a failed `unwrap`, `expect` or `assert!`; `undefined` for undefined
-- behaviour, such as a read of a union at a member that was not written.
pub data Outcome {ℓ} (A : Type ℓ) : Type ℓ where
  returns : A → Outcome A
  panics : Outcome A
  undefined : Outcome A

infixl 5 ◌>>=◌ ◌>>◌
abbrev pub ◌>>=◌ {ℓ κ} : {A : Type ℓ} {B : Type κ} → Outcome A → (A → Outcome B) → Outcome B
returns a >>= f = f a
panics >>= f = panics
undefined >>= f = undefined

abbrev pub ◌>>◌ {ℓ κ} : {A : Type ℓ} {B : Type κ} → Outcome A → Outcome B → Outcome B
m >> k = m >>= λ _. k

-- `Option::unwrap` and `Option::expect`.
abbrev pub unwrap {ℓ} : {A : Type ℓ} → Option A → Outcome A
unwrap none = panics
unwrap (some a) = returns a

abbrev pub unwrap_ok {ℓ} : {A E : Type ℓ} → Result A E → Outcome A
unwrap_ok (ok a) = returns a
unwrap_ok (err e) = panics
