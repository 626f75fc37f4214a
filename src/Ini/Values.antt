-- ===== src/Ini/Values.antt =====
-- phper/src/ini.rs: `IntoIniValue`, `FromIniValue` and `ini_get`. The values of the engine's entries are a
-- parameter, with `zend_ini_long`, `zend_ini_double` and the `Display` of an `f64` on their texts.
use phper.Base.{
  ℕ, ℤ, ◌≡◌, refl, ap, ◌∙◌, Bool, true, false, Option, none, some, List, [], ◌∷◌, arith, ◌==◌,
  if◌then◌else◌, has_nul,
}
use phper.Ini.{ini_of_bool, ini_of_i64, ini_of_string, bool_of_ini, Policy, new_ini_entity}

-- `find` is the value of an entry, `none` for a null pointer.
pub record IniReader (W : Type 0) : Type 0 where
  pub find : List ℕ → W → Option (List ℕ)
  pub long_of : Option (List ℕ) → ℤ
  pub double_of : Option (List ℕ) → ℕ
  pub double_text : ℕ → List ℕ

-- `CStr::from_ptr` ends at the first NUL.
abbrev pub until_nul : List ℕ → List ℕ
until_nul [] = []
until_nul (b ∷ rest) = if b == 0 then [] else b ∷ until_nul rest

pub record FromIniValue {W : Type 0} (reader : IniReader W) (T : Type 0) : Type 0 where
  pub from_ini_value : List ℕ → W → T

pub record IntoIniValue {W : Type 0} (reader : IniReader W) (T : Type 0) : Type 0 where
  pub into_ini_value : T → List ℕ

module _ {W : Type 0} (reader : IniReader W) where
  unfoldable pub c_str_from_ini : FromIniValue reader (Option (List ℕ))
  c_str_from_ini = record {
    from_ini_value =
        λ name w. elim (reader.find name w) [ none ↦ none | some s ↦ some (until_nul s) ];
  }

  unfoldable pub bool_from_ini : FromIniValue reader Bool
  unfolding c_str_from_ini bool_of_ini
  bool_from_ini = record {
    from_ini_value = λ name w. bool_of_ini (c_str_from_ini.from_ini_value name w);
  }

  unfoldable pub i64_from_ini : FromIniValue reader ℤ
  i64_from_ini = record { from_ini_value = λ name w. reader.long_of (reader.find name w) }

  unfoldable pub f64_from_ini : FromIniValue reader ℕ
  f64_from_ini = record { from_ini_value = λ name w. reader.double_of (reader.find name w) }

  unfoldable pub bool_into_ini : IntoIniValue reader Bool
  unfolding ini_of_bool
  bool_into_ini = record { into_ini_value = ini_of_bool }

  unfoldable pub i64_into_ini : IntoIniValue reader ℤ
  unfolding ini_of_i64
  i64_into_ini = record { into_ini_value = ini_of_i64 }

  unfoldable pub f64_into_ini : IntoIniValue reader ℕ
  f64_into_ini = record { into_ini_value = reader.double_text }

  unfoldable pub string_into_ini : IntoIniValue reader (List ℕ)
  unfolding ini_of_string
  string_into_ini = record { into_ini_value = ini_of_string }

  unfoldable pub ini_get : {T : Type 0} → FromIniValue reader T → List ℕ → W → T
  ini_get from name w = from.from_ini_value name w

  -- `unregister`, through the engine's `zend_unregister_ini_entries`.
  unfoldable pub unregister_ini : (ℕ → W → W) → ℕ → W → W
  unregister_ini unregister_entries module_number w = unregister_entries module_number w

until_nul-id : (s : List ℕ) → has_nul s ≡ false → until_nul s ≡ s
until_nul-id [] h = refl
until_nul-id (b ∷ rest) h = ground (arith, until_nul-id rest)

bool_of_ini-ini_of_bool : (b : Bool) → bool_of_ini (some (ini_of_bool b)) ≡ b
unfolding bool_of_ini ini_of_bool
bool_of_ini-ini_of_bool true = refl
bool_of_ini-ini_of_bool false = refl

ini_of_bool-until_nul : (b : Bool) → until_nul (ini_of_bool b) ≡ ini_of_bool b
unfolding ini_of_bool
ini_of_bool-until_nul true = refl
ini_of_bool-until_nul false = refl

module _ {W : Type 0} (reader : IniReader W) where
  -- While the engine has the default value of an entity for its name, `ini_get` reads back what the
  -- entity was made from: a Boolean, or a text without NUL.
  ini_get-new_ini_entity :
      (name s : List ℕ) (b : Bool) (policy : Policy) (w w' : W)
      → reader.find name w
        ≡ some (new_ini_entity name ((bool_into_ini reader).into_ini_value b) policy).default_value
      → reader.find name w'
        ≡ some
            (new_ini_entity name ((string_into_ini reader).into_ini_value s) policy).default_value
      → has_nul s ≡ false
      → (ini_get reader (bool_from_ini reader) name w ≡ b)
        × (ini_get reader (c_str_from_ini reader) name w' ≡ some s)
  unfolding ini_get bool_from_ini c_str_from_ini bool_into_ini string_into_ini new_ini_entity
      ini_of_string
  ini_get-new_ini_entity name s b policy w w' hb hs no_nul =
      let texts : (o : Option (List ℕ)) → Option (List ℕ) =
        λ o. elim o [ none ↦ none | some t ↦ some (until_nul t) ] in
      (
        ap (λ o. bool_of_ini (texts o)) hb
            ∙ (ap (λ t. bool_of_ini (some t)) (ini_of_bool-until_nul b)
                ∙ bool_of_ini-ini_of_bool b),
        ap texts hs ∙ ap (λ t. some t) (until_nul-id s no_nul),
      )
