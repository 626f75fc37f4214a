-- ===== src/Objects/Examples.antt =====
-- An object whose constructor returns (phper/src/classes.rs).
use phper.Base.{◌≡◌, refl, [], arith}
use phper.Values.Union.{obj}
use phper.Values.From.{default}
use phper.Engine.{Globals}
use phper.Calls.{guard_default}
use phper.Calls.Guard.{outcome_of}
use phper.Objects.{new_object}
use phper.Objects.Construct.{SameExceptions, constructor_call, constructed, new_object-constructed}
use phper.Samples.{php8, engine8, engine8-IsBalanced, calm}

new_object-constructed_example :
    (g₃ g₄ : Globals (Unit {0})) × SameExceptions calm g₃
    × SameExceptions calm g₄
    × (new_object engine8 ⦃php = php8⦄ 5 [] calm
        ≡ constructed engine8 ⦃php = php8⦄ 50
            (outcome_of engine8 ⦃php = php8⦄
              (constructor_call engine8 ⦃php = php8⦄ 77 50 []
                (default ⦃php = php8⦄)
                (guard_default g₃)).0
              (constructor_call engine8 ⦃php = php8⦄ 77 50 []
                (default ⦃php = php8⦄)
                (guard_default g₃)).1)
            g₄)
unfolding guard_default
new_object-constructed_example =
    new_object-constructed engine8 ⦃php = php8⦄ 5 50 77 17 [] (λ p g. (77, g))
      (record { type_info = 8; value = obj 50 }) calm calm (guard_default calm) engine8-IsBalanced
      refl refl (omega arith) refl refl refl refl (omega arith) refl (omega arith) (λ g. refl)
