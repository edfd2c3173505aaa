-- ===== src/BasicFactory.antt =====
-- factory/basic_factory.cpp: `Factory<Base, FactoryElement<Ids, Types>...>`, which makes an object from
-- the integer identifier that the list of types gives it.
pub mod Laws
mod Tests
use cpp_tricks.Prelude.{List, [], ◌∷◌, ◌++◌, Option, none, some, if◌then◌else◌}
use cpp_tricks.Prelude.Int.{ℤ, pos, same_ℤ}
use cpp_tricks.Prelude.Text.{Text, codes}

-- `FactoryElement<Id, T>` and the constructor of `T`. `A` is the type of the constructor's arguments, `B`
-- stands for `Base*`.
pub record FactoryElement (A B : Type 0) : Type 0 where
  pub id : ℤ
  pub construct : A → B

-- `make`; the loop over `items` and `ctors` runs over one list of pairs.
unfoldable pub make : {A B : Type 0} → ℤ → A → List (FactoryElement A B) → Option B
make key args [] = none
make key args (t ∷ ts) = if same_ℤ key t.id then some (t.construct args) else make key args ts

-- `Types`
abbrev pub type_a : ℤ
type_a = pos 0

abbrev pub type_b : ℤ
type_b = pos 1

-- The structs `A` and `B`, with their `data_`.
pub data Product : Type 0 where
  product_a product_b : Text → Product

unfoldable pub status : Product → Text
status (product_a s) = codes "A(" ++ (s ++ codes ")")
status (product_b s) = codes "B(" ++ (s ++ codes ")")

-- `TestFactory`
abbrev pub test_factory : List (FactoryElement Text Product)
test_factory =
    record { id = type_a; construct = product_a }
    ∷ record { id = type_b; construct = product_b }
    ∷ []
