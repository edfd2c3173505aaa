-- ===== src/Factory/Tests.antt =====
-- Tests of the sample factory, and the theorems on factories at it.
use cpp_tricks.Prelude.{◌≡◌, refl, some}
use cpp_tricks.Prelude.Text.{Text, codes}
use cpp_tricks.Factory.{Entry, Sample, a, b, make, handle, test_factory}

made : make (codes "b") (codes "B argument") test_factory ≡ some (b (codes "B argument"))
unfolding make test_factory
made = refl

abbrev entry_a : Entry Text Sample Text
entry_a = record { id = codes "a"; construct = a; dispatch = handle }

abbrev entry_b : Entry Text Sample Text
entry_b = record { id = codes "b"; construct = b; dispatch = handle }
