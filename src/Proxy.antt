-- ===== src/Proxy.antt =====
-- PostgresProxy/proxy.cpp: the thread that accepts connections and the worker that hands sessions to the
-- pool, which share a mutex, a condition variable and flags.
pub mod Scan
pub mod Laws
pub mod Hold
pub mod Stuck
mod Tests
use cpp_tricks.Prelude.{
  ℕ, ◌+◌, ◌≡◌, Bool, true, false, not, List, [], ◌∷◌, ◌++◌, Option, none, some, get_elem?, set,
  if◌then◌else◌,
}
use cpp_tricks.Prelude.Int.{ℤ}
use cpp_tricks.Sockets.{Link, TcpSocket}
use cpp_tricks.Sockets
use cpp_tricks.Session.Steps.{Result, done, refused, spins}
use cpp_tricks.Session.Stage.{Session, Junk}
use cpp_tricks.Session.{start, process, is_alive, work_pending}

-- Where the listening thread stands in `run` and `handle_request( s )`.
pub data Main (N : Type 0) : Type 0 where
  -- `run`, between two connections
  accepting : Main N
  -- `new_connection` is raised, the mutex is next
  locking : TcpSocket N → Main N
  -- `cv.wait`: has the mutex, tests `worker_on_hold`
  testing : TcpSocket N → Main N
  -- `cv.wait`: has the mutex, has seen the flag down, is to block
  blocking : TcpSocket N → Main N
  -- `cv.wait`: blocked, without the mutex
  blocked : TcpSocket N → Main N
  -- has the mutex, has seen the flag raised
  adding : TcpSocket N → Main N
  -- the session is in the list, `new_connection = false` is next
  lowering : Main N
  -- `lk.unlock()` is next
  unlocking : Main N
  -- `cv.notify_one()` is next
  notifying : Main N
  -- `finalize`
  ending : Main N
  ended : Main N

-- Where the worker stands in its loop.
pub data Worker : Type 0 where
  -- before the test of `stop`
  looping : Worker
  -- before the test of `new_connection`
  checking : Worker
  -- `worker_on_hold = true` is next
  holding : Worker
  -- `cv.notify_one()` is next
  calling : Worker
  -- the mutex is next
  entering : Worker
  -- `cv.wait`: has the mutex, tests `new_connection`
  watching : Worker
  -- has seen the flag raised, is to block
  pausing : Worker
  -- blocked, without the mutex
  paused : Worker
  -- has the mutex, `worker_on_hold = false` is next
  resuming : Worker
  -- the end of the block, which releases the mutex
  leaving : Worker
  -- before the mutex for the round
  scan_locking : Worker
  -- has the mutex, the round is next
  scanning : Worker
  -- the end of the block
  scanned : Worker
  finished : Worker

pub record Proxy (N : Type 0) : Type 0 where
  pub main : Main N
  pub worker : Worker
  pub stop : Bool
  pub new_connection : Bool
  pub worker_on_hold : Bool
  -- is the mutex held?
  pub session_mtx : Bool
  pub sessions : List (Session N)

-- The waiting thread returns from `cv.wait` to take the mutex again, if it waits.
abbrev pub wake_worker : Worker → Worker
wake_worker paused = entering
wake_worker w = w

module _ {N : Type 0} where
  abbrev pub wake_main : Main N → Main N
  wake_main (blocked k) = locking k
  wake_main m = m

  -- A session whose sockets were asked for work; `start_processing` raises its flag.
  abbrev pub start_ready : Result Bool × Session N → List (Session N) × ℕ → List (Session N) × ℕ
  start_ready (done true, s) (rest, n) = (record s { processing_ = true } ∷ rest, 1 + n)
  start_ready (done false, s) (rest, n) = (s ∷ rest, n)
  start_ready (refused, s) (rest, n) = (s ∷ rest, n)
  start_ready (spins, s) (rest, n) = (s ∷ rest, n)

module _ {N : Type 0} (l : Link N) where
  -- A round of the worker: the sessions that stay, and how many are handed to the pool. The list holds
  -- each session as the round finds it. `pool.get()`, which can wait for a worker of the pool while the round has
  -- the mutex, always finds one here.
  unfoldable pub scan : List (Session N) → List (Session N) × ℕ
  scan [] = ([], 0)
  scan (s ∷ rest) =
      let r = scan rest in
      if s.processing_
      then (s ∷ r.0, r.1)
      else if not (is_alive s)
      then r
      else start_ready (work_pending l s) r

  -- One step of the listening thread, of the worker or of a thread of the pool, or an interrupt. `run` is in
  -- `accepting` once it has bound the port; `wait` and `accept` are one step, which raises `new_connection`
  -- too.
  pub data Step (p : Proxy N) : Proxy N → Type 0 where
    accept :
        (k : TcpSocket N)
        → p.main ≡ accepting
        → p.stop ≡ false
        → Step p (record p { main = locking k; new_connection = true })
    lock :
        (k : TcpSocket N)
        → p.main ≡ locking k
        → p.session_mtx ≡ false
        → Step p (record p { main = testing k; session_mtx = true })
    see_hold :
        (k : TcpSocket N)
        → p.main ≡ testing k
        → p.worker_on_hold ≡ true
        → Step p (record p { main = adding k })
    see_no_hold :
        (k : TcpSocket N)
        → p.main ≡ testing k
        → p.worker_on_hold ≡ false
        → Step p (record p { main = blocking k })
    block :
        (k : TcpSocket N)
        → p.main ≡ blocking k
        → Step p (record p { main = blocked k; session_mtx = false })
    push_back :
        (k : TcpSocket N) (fresh : ℤ × N) (connected : Bool × N)
        → p.main ≡ adding k
        → Step p (record p {
          main = lowering;
          sessions = p.sessions ++ (start k fresh connected [] ∷ []);
        })
    lower : p.main ≡ lowering → Step p (record p { main = unlocking; new_connection = false })
    unlock : p.main ≡ unlocking → Step p (record p { main = notifying; session_mtx = false })
    notify :
        p.main ≡ notifying → Step p (record p { main = accepting; worker = wake_worker p.worker })
    finalize : p.main ≡ accepting → p.stop ≡ true → Step p (record p { main = ending })
    join : p.main ≡ ending → p.worker ≡ finished → Step p (record p { main = ended })
    go_on : p.worker ≡ looping → p.stop ≡ false → Step p (record p { worker = checking })
    finish : p.worker ≡ looping → p.stop ≡ true → Step p (record p { worker = finished })
    see_connection :
        p.worker ≡ checking → p.new_connection ≡ true → Step p (record p { worker = holding })
    see_no_connection :
        p.worker ≡ checking → p.new_connection ≡ false → Step p (record p { worker = scan_locking })
    hold : p.worker ≡ holding → Step p (record p { worker = calling; worker_on_hold = true })
    call : p.worker ≡ calling → Step p (record p { worker = entering; main = wake_main p.main })
    enter :
        p.worker ≡ entering
        → p.session_mtx ≡ false
        → Step p (record p { worker = watching; session_mtx = true })
    see_added :
        p.worker ≡ watching → p.new_connection ≡ false → Step p (record p { worker = resuming })
    see_not_added :
        p.worker ≡ watching → p.new_connection ≡ true → Step p (record p { worker = pausing })
    pause : p.worker ≡ pausing → Step p (record p { worker = paused; session_mtx = false })
    resume : p.worker ≡ resuming → Step p (record p { worker = leaving; worker_on_hold = false })
    leave : p.worker ≡ leaving → Step p (record p { worker = scan_locking; session_mtx = false })
    scan_lock :
        p.worker ≡ scan_locking
        → p.session_mtx ≡ false
        → Step p (record p { worker = scanning; session_mtx = true })
    scan_all :
        p.worker ≡ scanning → Step p (record p { worker = scanned; sessions = (scan p.sessions).0 })
    scan_unlock : p.worker ≡ scanned → Step p (record p { worker = looping; session_mtx = false })
    work :
        (i : ℕ) (s : Session N) (junk junk' : Junk)
        → get_elem? p.sessions i ≡ some s
        → s.processing_ ≡ true
        → Step p (record p { sessions = set p.sessions i (process l junk junk' s).1 })
    interrupt : p.stop ≡ false → Step p (record p { stop = true })

  -- A waiting thread may wake up without a call of `notify_one`.
  pub data Wakes (p : Proxy N) : Proxy N → Type 0 where
    wakes_main : Wakes p (record p { main = wake_main p.main })
    wakes_worker : Wakes p (record p { worker = wake_worker p.worker })

  pub data Reach (p : Proxy N) : Proxy N → Type 0 where
    here : Reach p p
    next : {q r : Proxy N} → Reach p q → Step q r → Reach p r
    wake : {q r : Proxy N} → Reach p q → Wakes q r → Reach p r

module _ {N : Type 0} where
  -- `start_worker`, with an empty list.
  abbrev pub started : Proxy N
  started = record {
    main = accepting;
    worker = looping;
    stop = false;
    new_connection = false;
    worker_on_hold = false;
    session_mtx = false;
    sessions = [];
  }

  -- The start of `run`, whose calls of `bind` and `listen` succeed or not; `none` is its result false.
  unfoldable pub begin : TcpSocket N → Bool → Bool → Option (Proxy N)
  unfolding Sockets.bind Sockets.listen
  begin listener binds listens =
      if not (Sockets.bind binds listener)
      then none
      else if not (Sockets.listen listens listener)
      then none
      else some started
