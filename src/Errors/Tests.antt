-- ===== src/Errors/Tests.antt =====
-- Tests of the error stack, and its theorems at concrete values.
use cpp_tricks.Prelude.{◌≡◌, refl, true, [], ◌∷◌}
use mathlib.Core.List.{reverse}
use cpp_tricks.Prelude.Text.{codes, decimal}
use cpp_tricks.Errors.Error.{Error, equal, of_code, format, none_error}
use cpp_tricks.Errors.Error
use cpp_tricks.Errors.Stack.{ErrorStack, new, line, lines, to_string}
use cpp_tricks.Errors.Laws.{pushes, clears, run, latest, Sees, run-Sees}

abbrev failed : Error
failed = record { code_ = 1; tag_ = codes "Generic error"; description_ = [] }

abbrev no_data : Error
no_data = record { code_ = 2; tag_ = codes "Test"; description_ = codes "no data" }

abbrev two : ErrorStack
two = record { items_ = failed ∷ no_data ∷ [] }

-- What the program's `main` checks.
two_text : to_string two ≡ codes "[1] Generic error (1) \n[2] Test (2) no data"
unfolding to_string lines line Error.to_string decimal
two_text = refl

cleared_empty : Error.empty (Error.clear no_data) ≡ true
unfolding Error.empty Error.clear
cleared_empty = refl

run-Sees_example :
    Sees
      (run new (reverse (pushes no_data ∷ clears ∷ pushes failed ∷ [])))
      (latest [] (pushes no_data ∷ clears ∷ pushes failed ∷ []))
run-Sees_example = run-Sees (pushes no_data ∷ clears ∷ pushes failed ∷ [])
