-- ===== src/Throwing/Examples.antt =====
-- A conversion of errors that never succeeds, in phper/src/errors.rs.
use phper.Base.{ℕ, ◌+◌, ◌≡◌, refl, returns, err, Result, panics}
use phper.Engine.Run.{Run, pure}
use phper.Throwing.{from_result}
use phper.Throwing.Retry.{from_result-convert}
use phper.Throwing.{throw_error}
use phper.Throwing.Objects.{throw_error-throw, throw_error-argument_count}
use phper.Base.{ok, bytes, []}
use phper.Objects.{new_object}
use phper.Types.{is_undef, is_null}
use phper.Errors.{ArgumentCountError, argument_count, throw}
use phper.Samples.{calm, php8, macros8, no_texts, engine8}

abbrev again : ℕ → Run (Unit {0}) (Result ℕ ℕ)
again e = pure (err (e + 1))

from_result-convert_example : from_result again (λ e g. g) (err 0) calm ≡ panics
from_result-convert_example = from_result-convert again (λ e g. g) (err 0) calm

throw_error-throw_example :
    throw_error engine8 no_texts ⦃php = php8⦄ ⦃macros = macros8⦄
      (throw (record { object = 8 }))
      calm
    ≡ returns (tt, record calm { exception = 60 })
throw_error-throw_example =
    throw_error-throw engine8 no_texts ⦃php = php8⦄ ⦃macros = macros8⦄ 8 calm refl

abbrev too_few : ArgumentCountError
too_few = record { function_name = bytes "f"; expect_count = 2; given_count = 1 }

too_few_object : new_object engine8 ⦃php = php8⦄ 5 [] calm ≡ returns (ok 50, calm)
unfolding new_object is_undef is_null
too_few_object = refl

throw_error-argument_count_example :
    throw_error engine8 no_texts ⦃php = php8⦄ ⦃macros = macros8⦄ (argument_count too_few) calm
    ≡ returns (tt, record calm { exception = 60 })
throw_error-argument_count_example =
    throw_error-argument_count engine8 no_texts ⦃php = php8⦄ ⦃macros = macros8⦄ too_few 50 calm calm
      too_few_object refl
