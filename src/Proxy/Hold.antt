-- ===== src/Proxy/Hold.antt =====
-- A connection is added only while the worker is on hold.
use cpp_tricks.Prelude.{◌≤◌, ◌≡◌, refl, sym, ap, ◌∙◌, Bool, true, false, arith, one_if}
use cpp_tricks.Sockets.{Link}
use cpp_tricks.Proxy.{
  Main, accepting, locking, testing, blocking, blocked, adding, lowering, unlocking, notifying,
  ending, ended, Proxy, wake_main, Step, Wakes, Reach, here, next, wake, started, accept, lock,
  see_hold, see_no_hold, block, push_back, lower, unlock, notify, finalize, join, go_on, finish,
  see_connection, see_no_connection, hold, call, enter, see_added, see_not_added, pause, resume,
  leave, scan_lock, scan_all, scan_unlock, work, interrupt, wakes_main, wakes_worker,
}
use cpp_tricks.Proxy.Laws.{
  main_owns, raises, adds, worker_owns, holds, IsValid, Reach-IsValid, one_if_le, wake_worker_lem,
}

true_of_one : (b : Bool) → 1 ≤ one_if b → b ≡ true
true_of_one true h = refl
true_of_one false h = absurd (omega arith)

false_of_zero : (b : Bool) → one_if b ≡ 0 → b ≡ false
false_of_zero true h = absurd (omega arith)
false_of_zero false h = refl

module _ {N : Type 0} where
  abbrev IsReady : Proxy N → Type 0
  IsReady p = one_if (adds p.main) ≤ one_if (holds p.worker)

  adds_owns : (m : Main N) → one_if (adds m) ≤ one_if (main_owns m)
  adds_owns accepting = omega arith
  adds_owns (locking k) = omega arith
  adds_owns (testing k) = omega arith
  adds_owns (blocking k) = omega arith
  adds_owns (blocked k) = omega arith
  adds_owns (adding k) = omega arith
  adds_owns lowering = omega arith
  adds_owns unlocking = omega arith
  adds_owns notifying = omega arith
  adds_owns ending = omega arith
  adds_owns ended = omega arith

  adds-wake_main : (m : Main N) → adds (wake_main m) ≡ adds m
  adds-wake_main accepting = refl
  adds-wake_main (locking k) = refl
  adds-wake_main (testing k) = refl
  adds-wake_main (blocking k) = refl
  adds-wake_main (blocked k) = refl
  adds-wake_main (adding k) = refl
  adds-wake_main lowering = refl
  adds-wake_main unlocking = refl
  adds-wake_main notifying = refl
  adds-wake_main ending = refl
  adds-wake_main ended = refl

  adds-raises : (m : Main N) → adds m ≡ true → raises m ≡ true
  adds-raises accepting h = cc
  adds-raises (locking k) h = cc
  adds-raises (testing k) h = cc
  adds-raises (blocking k) h = cc
  adds-raises (blocked k) h = cc
  adds-raises (adding k) h = refl
  adds-raises lowering h = refl
  adds-raises unlocking h = cc
  adds-raises notifying h = cc
  adds-raises ending h = cc
  adds-raises ended h = cc

module _ {N : Type 0} (l : Link N) where
  Step-IsReady : {p q : Proxy N} → Step l p q → IsValid p → IsReady p → IsReady q
  Step-IsReady {p} (accept k h f) v r = omega arith
  Step-IsReady {p} (lock k h f) v r = omega arith
  Step-IsReady {p} (see_hold k h f) v r = omega (arith, ap one_if (sym f ∙ v.held))
  Step-IsReady {p} (see_no_hold k h f) v r = omega arith
  Step-IsReady {p} (block k h) v r = omega arith
  Step-IsReady {p} (push_back k a b h) v r = rw h at r
  Step-IsReady {p} (lower h) v r = omega arith
  Step-IsReady {p} (unlock h) v r = omega arith
  Step-IsReady {p} (notify h) v r = omega arith
  Step-IsReady {p} (finalize h f) v r = omega arith
  Step-IsReady {p} (join h f) v r = omega arith
  Step-IsReady {p} (go_on h f) v r = rw h at r
  Step-IsReady {p} (finish h f) v r = rw h at r
  Step-IsReady {p} (see_connection h f) v r = rw h at r
  Step-IsReady {p} (see_no_connection h f) v r = rw h at r
  Step-IsReady {p} (hold h) v r = omega (arith, one_if_le (adds p.main))
  Step-IsReady {p} (call h) v r = rw (adds-wake_main p.main) (rw h at r)
  Step-IsReady {p} (enter h f) v r = rw h at r
  Step-IsReady {p} (see_added h f) v r = rw h at r
  Step-IsReady {p} (see_not_added h f) v r = rw h at r
  Step-IsReady {p} (pause h) v r = rw h at r
  Step-IsReady {p} (resume h) v r =
      omega (arith, rw h at v.locked, one_if_le p.session_mtx, adds_owns p.main)
  Step-IsReady {p} (leave h) v r = rw h at r
  Step-IsReady {p} (scan_lock h f) v r = rw h at r
  Step-IsReady {p} (scan_all h) v r = rw h at r
  Step-IsReady {p} (scan_unlock h) v r = rw h at r
  Step-IsReady (work i s j j' g h) v r = r
  Step-IsReady (interrupt f) v r = r

  Wakes-IsReady : {p q : Proxy N} → Wakes l p q → IsReady p → IsReady q
  Wakes-IsReady {p} wakes_main r = rw (adds-wake_main p.main) r
  Wakes-IsReady {p} wakes_worker r = omega (arith, ap one_if (wake_worker_lem p.worker).1)

  Reach-IsReady : {p q : Proxy N} → Reach l p q → IsValid p → IsReady p → IsReady q
  Reach-IsReady here v r = r
  Reach-IsReady (next t s) v r = Step-IsReady s (Reach-IsValid l t v) (Reach-IsReady t v r)
  Reach-IsReady (wake t s) v r = Wakes-IsReady s (Reach-IsReady t v r)

  -- In a run from the start, with any wake-ups, while the listening thread adds a session it holds the
  -- mutex and has `new_connection` raised, and the worker is on hold, without the mutex.
  pub adding_alone :
      {p : Proxy N}
      → Reach l started p
      → adds p.main ≡ true
      → (p.session_mtx ≡ true)
        × (p.new_connection ≡ true)
        × (holds p.worker ≡ true)
        × (worker_owns p.worker ≡ false)
  adding_alone {p} reach a =
      let v = Reach-IsValid l reach (record { locked = refl; raised = refl; held = refl }) in
      let r =
        Reach-IsReady reach (record { locked = refl; raised = refl; held = refl }) (omega arith) in
      let adding_now = ap one_if a in
      let owner = adds_owns p.main in
      let one = one_if_le p.session_mtx in
      let free = v.locked in
      (
        true_of_one p.session_mtx (omega arith),
        v.raised ∙ adds-raises p.main a,
        true_of_one (holds p.worker) (omega arith),
        false_of_zero (worker_owns p.worker) (omega arith),
      )
