-- ===== src/BasicFactory/Tests.antt =====
-- Tests of the sample factory, and the theorem on `make` at it.
use cpp_tricks.Prelude.{◌≡◌, refl, some}
use cpp_tricks.Prelude.Text.{Text, codes}
use mathlib.Core.Option
use cpp_tricks.BasicFactory.{
  FactoryElement, make, type_a, type_b, product_a, product_b, Product, status, test_factory,
}

-- What the program's `main` prints.
statuses :
    (Option.map status (make type_a (codes "123") test_factory) ≡ some (codes "A(123)"))
    × (Option.map status (make type_b (codes "456") test_factory) ≡ some (codes "B(456)"))
unfolding make status
statuses = (refl, refl)

abbrev element_a : FactoryElement Text Product
element_a = record { id = type_a; construct = product_a }

abbrev element_b : FactoryElement Text Product
element_b = record { id = type_b; construct = product_b }
