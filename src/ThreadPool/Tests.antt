-- ===== src/ThreadPool/Tests.antt =====
-- Tests of the pool, and its theorems at a concrete pool.
use cpp_tricks.Prelude.{◌≡◌, refl, true, false, [], ◌∷◌, none, some, All}
use cpp_tricks.ThreadPool.{Worker, ThreadPool, run, finish, join_pool}
use cpp_tricks.ThreadPool.Laws.{IsSound, here, next, ends, Reach-IsSound}

-- One worker runs job 4, one is done with job 5, and one is new.
abbrev busy : Worker
busy = record { thread_ = some 4; started_ = true; done_ = false }

abbrev idle : Worker
idle = record { thread_ = some 5; started_ = true; done_ = true }

abbrev fresh : Worker
fresh = record { thread_ = none; started_ = false; done_ = false }

abbrev pool : ThreadPool
pool = record { workers_ = busy ∷ idle ∷ fresh ∷ []; joining_ = false }

sound : All IsSound pool.workers_
sound = (
  record { threaded = refl; done_started = λ e. refl },
  (
    record { threaded = refl; done_started = λ e. refl },
    (record { threaded = refl; done_started = λ e. e }, tt),
  ),
)

run_joinable : run busy 9 ≡ none
unfolding run
run_joinable = refl

join_waits : join_pool pool ≡ none
unfolding join_pool
join_waits = refl

Reach-IsSound_example : All IsSound (finish busy ∷ idle ∷ fresh ∷ [])
Reach-IsSound_example = Reach-IsSound {p = pool} sound (next here (ends 0 busy refl refl))
