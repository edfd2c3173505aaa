-- ===== src/Session/Steps.antt =====
-- Steps of a session: they change the session, and give a value, or end the handler with `return false`,
-- or never return.
use cpp_tricks.Prelude.{Bool, true, false}

pub data Result (A : Type 0) : Type 0 where
  done : A → Result A
  refused : Result A
  spins : Result A

abbrev pub Action : Type 0 → Type 0 → Type 0
Action S A = S → Result A × S

module _ {S A : Type 0} where
  abbrev pub pure : A → Action S A
  pure a s = (done a, s)

  abbrev pub refuse : Action S A
  refuse s = (refused, s)

module _ {S A B : Type 0} where
  abbrev pub then_do : (A → Action S B) → Result A × S → Result B × S
  then_do f (done a, s) = f a s
  then_do f (refused, s) = (refused, s)
  then_do f (spins, s) = (spins, s)

  infixl 5 ◌>>=◌
  abbrev pub ◌>>=◌ : Action S A → (A → Action S B) → Action S B
  ◌>>=◌ m f s = then_do f (m s)

infixl 5 ◌>>◌
abbrev pub ◌>>◌ : {S B : Type 0} → Action S (Unit {0}) → Action S B → Action S B
m >> k = m >>= λ _. k

module _ {S : Type 0} where
  abbrev pub refuse_if : Bool → Action S (Unit {0})
  refuse_if true s = (refused, s)
  refuse_if false s = (done tt, s)

  abbrev pub get : Action S S
  get s = (done s, s)

  abbrev pub modify : (S → S) → Action S (Unit {0})
  modify f s = (done tt, f s)
