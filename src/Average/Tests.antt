-- ===== src/Average/Tests.antt =====
-- The program's tests of the average, and the theorems at concrete samples.
use cpp_tricks.Prelude.{ℕ, ◌≡◌, refl, List, [], ◌∷◌, Option, some}
use cpp_tricks.Prelude.Int.{ℤ, pos, negsuc}
use cpp_tricks.Average.{Average, new, put, get_unsigned, get_int}

-- What `get` gives before the first sample and after each of them.
abbrev readings : {T : Type 0} → (Average T → Option T) → Average T → List T → List (Option T)
readings get s [] = get s ∷ []
readings get s (v ∷ vs) = get s ∷ readings get (put s v) vs

abbrev test_uint : List (Option ℕ)
unfolding get_unsigned new put
test_uint = readings get_unsigned (new 3) (2 ∷ 6 ∷ 10 ∷ 1 ∷ 2 ∷ 14 ∷ [])

test_uint_passes : test_uint ≡ some 0 ∷ some 2 ∷ some 4 ∷ some 6 ∷ some 5 ∷ some 4 ∷ some 5 ∷ []
unfolding get_unsigned new put
test_uint_passes = refl

abbrev test_int : List (Option ℤ)
unfolding get_int new put
test_int = readings get_int (new 3) (pos 2 ∷ pos 6 ∷ pos 10 ∷ negsuc 0 ∷ pos 2 ∷ pos 14 ∷ [])

test_int_passes :
    test_int
    ≡ some (pos 0)
      ∷ some (pos 2)
      ∷ some (pos 4)
      ∷ some (pos 6)
      ∷ some (pos 5)
      ∷ some (pos 3)
      ∷ some (pos 5)
      ∷ []
unfolding get_int new put
test_int_passes = refl

-- The mean of -1 and -1.
negative_mean : get_int (put (put (new 3) (negsuc 0)) (negsuc 0)) ≡ some (negsuc 0)
unfolding get_int new put
negative_mean = refl

-- The mean of -3, -3 and -3.
negative_mean_of_three :
    get_int (put (put (put (new 3) (negsuc 2)) (negsuc 2)) (negsuc 2)) ≡ some (pos 1431655762)
unfolding get_int new put
negative_mean_of_three = refl

abbrev samples : List ℕ
samples = 5 ∷ 6 ∷ 9 ∷ []
