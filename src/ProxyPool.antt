-- ===== src/ProxyPool.antt =====
-- PostgresProxy/thread_pool.hpp and PostgresProxy/thread_pool.cpp. The class is that of
-- thread_pool/, except for where `get` waits: it takes the mutex for one scan at a time, so `join` and
-- other calls of `get` can come in between two scans. A call of `get` is a number of scans here, and
-- what the other threads do before each of them is an argument.
pub mod Laws
mod Tests
use cpp_tricks.Prelude.{ℕ, Bool, List, [], ◌∷◌, Option, none, some}
use cpp_tricks.ThreadPool

abbrev pub Worker : Type 0
Worker = ThreadPool.Worker

abbrev pub Pool : Type 0
Pool = ThreadPool.ThreadPool

abbrev pub new_worker : Worker
new_worker = ThreadPool.new_worker

abbrev pub is_free : Worker → Bool
is_free = ThreadPool.is_free

abbrev pub swap : Worker → Worker → Worker × Worker
swap = ThreadPool.swap

abbrev pub run : Worker → ℕ → Option Worker
run = ThreadPool.run

abbrev pub finish : Worker → Worker
finish = ThreadPool.finish

abbrev pub join : Worker → Option Worker
join = ThreadPool.join

abbrev pub destroy : Worker → Option (Unit {0})
destroy = ThreadPool.destroy

abbrev pub join_pool : Pool → Option Pool
join_pool = ThreadPool.join_pool

-- One round of the loop of `get`, under the mutex.
abbrev pub scan_once : Pool → Option (ℕ × Pool × Option (Unit {0}))
scan_once = ThreadPool.get

-- `get`: between two rounds the other threads change the pool, each time by the next of these
-- functions. `none` means that the call still waits after all of them.
unfoldable pub get : List (Pool → Pool) → Pool → Option (ℕ × Pool × Option (Unit {0}))
get [] p = scan_once p
get (others ∷ more) p =
    let rest = get more (others p) in elim (scan_once p) [ none ↦ rest | some r ↦ some r ]
