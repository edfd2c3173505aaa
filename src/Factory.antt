-- ===== src/Factory.antt =====
-- factory/factory.cpp: `Factory<Base, Types...>`, which makes an object from the identifier of its
-- type and hands an object to the visitor's method for its type. The parameter pack is a list; a
-- created object is paired with the index of the type whose constructor made it.
pub mod Laws
mod Tests
use cpp_tricks.Prelude.{
  ℕ, zero, suc, ◌+◌, Bool, true, false, List, [], ◌∷◌, Option, none, some, if◌then◌else◌,
}
use cpp_tricks.Prelude.Text.{Text, codes, same_text}

-- One type of the pack: `T::id()`, the constructor and the visitor's method for it. `A` is the type of
-- the constructor's arguments, `B` stands for `Base*`, `V` for the visitor.
pub record Entry (A B V : Type 0) : Type 0 where
  pub id : Text
  pub construct : A → B
  pub dispatch : B → V → V

module _ {A B V : Type 0} where
  -- The loop of `make`, over the rest of the types.
  unfoldable pub make : Text → A → List (Entry A B V) → Option B
  make key args [] = none
  make key args (t ∷ ts) = if same_text key t.id then some (t.construct args) else make key args ts

  -- The loop of `accept`; `visitor.operator()()`, the default handler, is `fallback`.
  unfoldable pub accept : Text → B → V → (V → V) → List (Entry A B V) → V
  accept key item visitor fallback [] = fallback visitor
  accept key item visitor fallback (t ∷ ts) =
      if same_text key t.id then t.dispatch item visitor else accept key item visitor fallback ts

-- The types of the sample: `A` and `B`, each with its `arg`.
pub data Sample : Type 0 where
  a b : Text → Sample

unfoldable pub arg : Sample → Text
arg (a s) = s
arg (b s) = s

-- `A::parse` and `B::parse` print a line and return true.
unfoldable pub parse : Sample → Text → Bool
parse x s = true

-- `ControllerVisitor`, whose state is `data`. A `static_cast` to the other type is undefined; `data` is
-- then read from the same base object.
unfoldable pub handle : Sample → Text → Text
unfolding arg
handle x v = arg x

unfoldable pub handle_default : Text → Text
handle_default v = codes "default"

-- `typedef Factory<Base, A, B> TestFactory`
unfoldable pub test_factory : List (Entry Text Sample Text)
unfolding handle
test_factory =
    record { id = codes "a"; construct = a; dispatch = handle }
    ∷ record { id = codes "b"; construct = b; dispatch = handle }
    ∷ []
