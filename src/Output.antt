-- ===== src/Output.antt =====
-- phper/src/output.rs: `log` and `echo`; phper/src/macros.rs: the macros that call them. What the engine
-- writes and logs is a parameter: `write` is `zend_write`, `docref` is `php_error_docref1` (level, format).
use phper.Base.{
  ℕ, ◌≡◌, refl, List, returns, panics, if◌then◌else◌, has_nul, ensure_end_with_zero, Bool-cases,
  inl, inr,
}
use phper.Base.Steps.{Steps, ◌>>=◌, modify, try}

pub data LogLevel : Type 0 where
  error : LogLevel
  warning : LogLevel
  notice : LogLevel
  deprecated : LogLevel

-- `E_ERROR`, `E_WARNING`, `E_NOTICE` and `E_DEPRECATED`.
pub record LogLevels : Type 0 where
  pub e_error : ℕ
  pub e_warning : ℕ
  pub e_notice : ℕ
  pub e_deprecated : ℕ

unfoldable pub level_value : LogLevels → LogLevel → ℕ
level_value levels error = levels.e_error
level_value levels warning = levels.e_warning
level_value levels notice = levels.e_notice
level_value levels deprecated = levels.e_deprecated

pub record Printer (W : Type 0) : Type 0 where
  pub write : List ℕ → W → W
  -- A format with a conversion that has no argument is undefined.
  pub docref : ℕ → List ℕ → Steps W (Unit {0})

module _ {W : Type 0} (printer : Printer W) (levels : LogLevels) where
  -- The message stands where `php_error_docref1` takes its format.
  unfoldable pub log : LogLevel → List ℕ → Steps W (Unit {0})
  unfolding ensure_end_with_zero level_value
  log level message = do
    message ← try (ensure_end_with_zero message)
    printer.docref (level_value levels level) message

  unfoldable pub echo : List ℕ → Steps W (Unit {0})
  unfolding ensure_end_with_zero
  echo message = do message ← try (ensure_end_with_zero message); modify (printer.write message)

  -- `error!`, `warning!`, `notice!` and `deprecated!`, of the formatted message.
  unfoldable pub log_error : List ℕ → Steps W (Unit {0})
  unfolding log
  log_error message = log error message

  unfoldable pub log_warning : List ℕ → Steps W (Unit {0})
  unfolding log
  log_warning message = log warning message

  unfoldable pub log_notice : List ℕ → Steps W (Unit {0})
  unfolding log
  log_notice message = log notice message

  unfoldable pub log_deprecated : List ℕ → Steps W (Unit {0})
  unfolding log
  log_deprecated message = log deprecated message

  -- `echo!`.
  unfoldable pub echo_macro : List ℕ → Steps W (Unit {0})
  unfolding echo
  echo_macro message = echo message

module _ {W : Type 0} (printer : Printer W) (levels : LogLevels) where
  -- `echo` writes exactly the bytes of a message without NUL, and panics at a message with one.
  echo_lem :
      (message : List ℕ) (w : W)
      → echo printer levels message w
        ≡ (if has_nul message then panics else returns (tt, printer.write message w))
  unfolding echo ensure_end_with_zero
  echo_lem message w = elim (Bool-cases (has_nul message)) [ inl e ↦ rw e refl | inr e ↦ rw e refl ]

  -- `log` panics at a message with a NUL, and else passes its bytes on as the format.
  log_lem :
      (level : LogLevel) (message : List ℕ) (w : W)
      → log printer levels level message w
        ≡ (if has_nul message then panics else printer.docref (level_value levels level) message w)
  unfolding log ensure_end_with_zero
  log_lem level message w = elim (Bool-cases (has_nul message)) [
    | inl e ↦ rw e refl
    | inr e ↦ rw e refl
  ]
