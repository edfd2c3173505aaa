-- ===== src/ThreadPool.antt =====
-- thread_pool/thread_pool.hpp and thread_pool/thread_pool.cpp. A thread object is `none`, or `some j`
-- for a thread that runs job `j` or has run it and is not joined. Assigning to a thread object that is
-- joinable, or destroying it, ends the program: that is `none` in the results below, and so is a wait
-- that cannot end before a job ends.
pub mod Laws
mod Tests
use cpp_tricks.Prelude.{
  ℕ, zero, suc, Bool, true, false, not, ◌&&◌, ◌||◌, List, [], ◌∷◌, Option, none, some, get_elem?,
  set, if◌then◌else◌,
}

pub record Worker : Type 0 where
  pub thread_ : Option ℕ
  pub started_ : Bool
  pub done_ : Bool

unfoldable pub new_worker : Worker
new_worker = record { thread_ = none; started_ = false; done_ = false }

-- `operator bool`: the worker can take a job.
unfoldable pub is_free : Worker → Bool
is_free w = not w.started_ || (w.started_ && w.done_)

-- `w.swap( rhs )` exchanges the three fields, which are all that the model keeps.
unfoldable pub swap : Worker → Worker → Worker × Worker
swap w rhs = (
  record { thread_ = rhs.thread_; started_ = rhs.started_; done_ = rhs.done_ },
  record { thread_ = w.thread_; started_ = w.started_; done_ = w.done_ },
)

-- `run`, which starts a thread; `none` if the old thread object is joinable.
unfoldable pub run : Worker → ℕ → Option Worker
run w j = elim w.thread_ [
  | none ↦ some (record w { thread_ = some j; started_ = true })
  | some k ↦ none
]

-- The end of `wrapper`, in the worker's own thread, when its job has returned.
unfoldable pub finish : Worker → Worker
finish w = record w { done_ = true }

-- `Worker::join`; `none` while it waits for the job.
unfoldable pub join : Worker → Option Worker
join w =
    if not w.started_
    then some w
    else if w.done_
    then some (record { thread_ = none; started_ = false; done_ = false })
    else none

-- The destructor: `join`, and then the thread object must not be joinable.
unfoldable pub destroy : Worker → Option (Unit {0})
unfolding join
destroy w = elim (join w) [
  | none ↦ none
  | some v ↦ elim v.thread_ [ none ↦ some tt | some j ↦ none ]
]

pub record ThreadPool : Type 0 where
  pub workers_ : List Worker
  pub joining_ : Bool

-- The scan of `get`: the first free worker is exchanged with a new one, whose old self is destroyed.
-- The result has the worker's index, the workers, and what the destructor did.
unfoldable pub scan : List Worker → Option (ℕ × List Worker × Option (Unit {0}))
unfolding is_free swap new_worker destroy
scan [] = none
scan (w ∷ ws) =
    let rest = scan ws in
    if is_free w
    then (let (w', tmp) = swap w new_worker in some (0, w' ∷ ws, destroy tmp))
    else elim rest [ none ↦ none | some (i, vs, d) ↦ some (suc i, w ∷ vs, d) ]

-- `get`, once a scan finds a free worker; `none` while it waits for one.
unfoldable pub get : ThreadPool → Option (ℕ × ThreadPool × Option (Unit {0}))
unfolding scan
get p = elim (scan p.workers_) [
  | none ↦ none
  | some (i, ws, d) ↦ some (i, record p { workers_ = ws }, d)
]

unfoldable pub join_all : List Worker → Option (List Worker)
unfolding join
join_all [] = some []
join_all (w ∷ ws) =
    let rest = join_all ws in
    elim (join w) [ none ↦ none | some v ↦ elim rest [ none ↦ none | some vs ↦ some (v ∷ vs) ] ]

-- `ThreadPool::join`, as one step: no client starts a job while it waits for the workers in turn.
unfoldable pub join_pool : ThreadPool → Option ThreadPool
unfolding join_all
join_pool p = if p.joining_ then some p else elim (join_all p.workers_) [
  | none ↦ none
  | some ws ↦ some (record { workers_ = ws; joining_ = true })
]
