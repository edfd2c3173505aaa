-- ===== src/Errors/Stack.antt =====
-- The class `ErrorStack` of error_stack/error.hpp and error_stack/error.cpp. The static empty error
-- that `top` returns a reference to is the value `none_error`.
use cpp_tricks.Prelude.{ℕ, ◌+◌, Bool, true, false, List, [], ◌∷◌, ◌++◌, length, if◌then◌else◌}
use cpp_tricks.Prelude.Text.{Text, codes, is_empty, decimal}
use cpp_tricks.Errors.Error.{Error}
use cpp_tricks.Errors.Error

-- The stack; the top is the last item.
pub record ErrorStack : Type 0 where
  pub items_ : List Error

unfoldable pub new : ErrorStack
new = record { items_ = [] }

-- `a.swap( b )` gives the new `a` and the new `b`.
unfoldable pub swap : ErrorStack → ErrorStack → ErrorStack × ErrorStack
swap a b = (b, a)

unfoldable pub empty : ErrorStack → Bool
empty s = elim s.items_ [ [] ↦ true | e ∷ es ↦ false ]

unfoldable pub size : ErrorStack → ℕ
size s = length s.items_

unfoldable pub push : ErrorStack → Error → ErrorStack
push s e = record { items_ = s.items_ ++ (e ∷ []) }

unfoldable pub back : Error → List Error → Error
back e [] = e
back e (f ∷ fs) = back f fs

unfoldable pub top : ErrorStack → Error
unfolding Error.none_error back
top s = elim s.items_ [ [] ↦ Error.none_error | e ∷ es ↦ back e es ]

unfoldable pub clear : ErrorStack → ErrorStack
clear s = record { items_ = [] }

-- The line that `to_string` makes of one item.
unfoldable pub line : ℕ → Error → Text
unfolding Error.to_string
line n e = codes "[" ++ (decimal n ++ (codes "] " ++ Error.to_string e))

-- The loop of `to_string`, over the rest of the items.
unfoldable pub lines : Text → ℕ → List Error → Text
unfolding line
lines out n [] = out
lines out n (e ∷ es) =
    let out' = if is_empty out then out else out ++ codes "\n" in
    lines (out' ++ line n e) (n + 1) es

unfoldable pub to_string : ErrorStack → Text
unfolding lines
to_string s = lines [] 1 s.items_
