-- ===== src/ScopeExit/Tests.antt =====
-- Guards that are moved, released and overwritten.
use cpp_tricks.Prelude.{◌+◌, ◌≡◌, refl, List, [], ◌∷◌}
use cpp_tricks.ScopeExit.{Program, Op, make, move, assign, release, destroy, run}
use cpp_tricks.ScopeExit.Laws.{runs, waiting, made_all, lost_all, run_count}

abbrev begun : Program
begun = record { guards = []; ran = [] }

-- The first guard is moved to a third and runs there; the second is released.
abbrev moves : List Op
moves = make 7 ∷ make 8 ∷ move 0 ∷ release 1 ∷ destroy 2 ∷ destroy 1 ∷ destroy 0 ∷ []

run_count_example :
    runs 7 (run moves begun) + waiting 7 (run moves begun) + lost_all 7 moves begun
    ≡ runs 7 begun + waiting 7 begun + made_all 7 moves
run_count_example = run_count 7 moves begun

only_moved : (run moves begun).ran ≡ 7 ∷ []
unfolding run
only_moved = refl

-- A guard that another is moved to forgets its function without running it.
overwritten : (run (make 7 ∷ make 8 ∷ assign 0 1 ∷ destroy 1 ∷ destroy 0 ∷ []) begun).ran ≡ 8 ∷ []
unfolding run
overwritten = refl
