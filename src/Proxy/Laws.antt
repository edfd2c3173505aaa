-- ===== src/Proxy/Laws.antt =====
-- What the mutex, the condition variable and the flags guarantee.
use cpp_tricks.Prelude.{◌+◌, ◌≤◌, ◌≡◌, refl, sym, ap, ◌∙◌, Bool, true, false, arith, one_if}
use cpp_tricks.Sockets.{Link}
use cpp_tricks.Proxy.{
  Main, accepting, locking, testing, blocking, blocked, adding, lowering, unlocking, notifying,
  ending, ended, Worker, looping, checking, holding, calling, entering, watching, pausing, paused,
  resuming, leaving, scan_locking, scanning, scanned, finished, Proxy, wake_worker, wake_main, Step,
  Wakes, Reach, here, next, wake, accept, lock, see_hold, see_no_hold, block, push_back, lower,
  unlock, notify, finalize, join, go_on, finish, see_connection, see_no_connection, hold, call,
  enter, see_added, see_not_added, pause, resume, leave, scan_lock, scan_all, scan_unlock, work,
  interrupt, wakes_main, wakes_worker,
}

module _ {N : Type 0} where
  -- Has the mutex.
  abbrev pub main_owns : Main N → Bool
  main_owns (testing k) = true
  main_owns (blocking k) = true
  main_owns (adding k) = true
  main_owns lowering = true
  main_owns unlocking = true
  main_owns m = false

  -- Has raised `new_connection`.
  abbrev pub raises : Main N → Bool
  raises (locking k) = true
  raises (testing k) = true
  raises (blocking k) = true
  raises (blocked k) = true
  raises (adding k) = true
  raises lowering = true
  raises m = false

  -- Changes the list or has just done so.
  abbrev pub adds : Main N → Bool
  adds (adding k) = true
  adds lowering = true
  adds m = false

abbrev pub worker_owns : Worker → Bool
worker_owns watching = true
worker_owns pausing = true
worker_owns resuming = true
worker_owns leaving = true
worker_owns scanning = true
worker_owns scanned = true
worker_owns w = false

-- Has raised `worker_on_hold`.
abbrev pub holds : Worker → Bool
holds calling = true
holds entering = true
holds watching = true
holds pausing = true
holds paused = true
holds resuming = true
holds w = false

pub one_if_le : (b : Bool) → one_if b ≤ 1
one_if_le true = omega arith
one_if_le false = omega arith

pub wake_worker_lem :
    (w : Worker) → (worker_owns (wake_worker w) ≡ worker_owns w) × (holds (wake_worker w) ≡ holds w)
wake_worker_lem looping = (refl, refl)
wake_worker_lem checking = (refl, refl)
wake_worker_lem holding = (refl, refl)
wake_worker_lem calling = (refl, refl)
wake_worker_lem entering = (refl, refl)
wake_worker_lem watching = (refl, refl)
wake_worker_lem pausing = (refl, refl)
wake_worker_lem paused = (refl, refl)
wake_worker_lem resuming = (refl, refl)
wake_worker_lem leaving = (refl, refl)
wake_worker_lem scan_locking = (refl, refl)
wake_worker_lem scanning = (refl, refl)
wake_worker_lem scanned = (refl, refl)
wake_worker_lem finished = (refl, refl)

module _ {N : Type 0} where
  pub record IsValid (p : Proxy N) : Type 0 where
    pub locked : one_if p.session_mtx ≡ one_if (main_owns p.main) + one_if (worker_owns p.worker)
    pub raised : p.new_connection ≡ raises p.main
    pub held : p.worker_on_hold ≡ holds p.worker

  wake_main_lem :
      (m : Main N) → (main_owns (wake_main m) ≡ main_owns m) × (raises (wake_main m) ≡ raises m)
  wake_main_lem accepting = (refl, refl)
  wake_main_lem (locking k) = (refl, refl)
  wake_main_lem (testing k) = (refl, refl)
  wake_main_lem (blocking k) = (refl, refl)
  wake_main_lem (blocked k) = (refl, refl)
  wake_main_lem (adding k) = (refl, refl)
  wake_main_lem lowering = (refl, refl)
  wake_main_lem unlocking = (refl, refl)
  wake_main_lem notifying = (refl, refl)
  wake_main_lem ending = (refl, refl)
  wake_main_lem ended = (refl, refl)

module _ {N : Type 0} (l : Link N) where
  Step-IsValid : {p q : Proxy N} → Step l p q → IsValid p → IsValid q
  Step-IsValid {p} (accept k h f) v = record {
    locked = rw h at v.locked;
    raised = refl;
    held = v.held;
  }
  Step-IsValid {p} (lock k h f) v = record {
    locked = let a = rw (h, f) at v.locked in omega arith;
    raised = rw h at v.raised;
    held = v.held;
  }
  Step-IsValid {p} (see_hold k h f) v = record {
    locked = rw h at v.locked;
    raised = rw h at v.raised;
    held = v.held;
  }
  Step-IsValid {p} (see_no_hold k h f) v = record {
    locked = rw h at v.locked;
    raised = rw h at v.raised;
    held = v.held;
  }
  Step-IsValid {p} (block k h) v = record {
    locked = omega (arith, rw h at v.locked, one_if_le p.session_mtx);
    raised = rw h at v.raised;
    held = v.held;
  }
  Step-IsValid {p} (push_back k a b h) v = record {
    locked = rw h at v.locked;
    raised = rw h at v.raised;
    held = v.held;
  }
  Step-IsValid {p} (lower h) v = record { locked = rw h at v.locked; raised = refl; held = v.held }
  Step-IsValid {p} (unlock h) v = record {
    locked = omega (arith, rw h at v.locked, one_if_le p.session_mtx);
    raised = rw h at v.raised;
    held = v.held;
  }
  Step-IsValid {p} (notify h) v = record {
    locked = rw h at v.locked ∙ ap (λ b. 0 + one_if b) (sym (wake_worker_lem p.worker).0);
    raised = rw h at v.raised;
    held = v.held ∙ sym (wake_worker_lem p.worker).1;
  }
  Step-IsValid {p} (finalize h f) v = record {
    locked = rw h at v.locked;
    raised = rw h at v.raised;
    held = v.held;
  }
  Step-IsValid {p} (join h f) v = record {
    locked = rw h at v.locked;
    raised = rw h at v.raised;
    held = v.held;
  }
  Step-IsValid {p} (go_on h f) v = record {
    locked = rw h at v.locked;
    raised = v.raised;
    held = rw h at v.held;
  }
  Step-IsValid {p} (finish h f) v = record {
    locked = rw h at v.locked;
    raised = v.raised;
    held = rw h at v.held;
  }
  Step-IsValid {p} (see_connection h f) v = record {
    locked = rw h at v.locked;
    raised = v.raised;
    held = rw h at v.held;
  }
  Step-IsValid {p} (see_no_connection h f) v = record {
    locked = rw h at v.locked;
    raised = v.raised;
    held = rw h at v.held;
  }
  Step-IsValid {p} (hold h) v = record { locked = rw h at v.locked; raised = v.raised; held = refl }
  Step-IsValid {p} (call h) v = record {
    locked = rw h at v.locked ∙ ap (λ b. one_if b + 0) (sym (wake_main_lem p.main).0);
    raised = v.raised ∙ sym (wake_main_lem p.main).1;
    held = rw h at v.held;
  }
  Step-IsValid {p} (enter h f) v = record {
    locked = let a = rw (h, f) at v.locked in omega arith;
    raised = v.raised;
    held = rw h at v.held;
  }
  Step-IsValid {p} (see_added h f) v = record {
    locked = rw h at v.locked;
    raised = v.raised;
    held = rw h at v.held;
  }
  Step-IsValid {p} (see_not_added h f) v = record {
    locked = rw h at v.locked;
    raised = v.raised;
    held = rw h at v.held;
  }
  Step-IsValid {p} (pause h) v = record {
    locked = omega (arith, rw h at v.locked, one_if_le p.session_mtx);
    raised = v.raised;
    held = rw h at v.held;
  }
  Step-IsValid {p} (resume h) v = record {
    locked = rw h at v.locked;
    raised = v.raised;
    held = refl;
  }
  Step-IsValid {p} (leave h) v = record {
    locked = omega (arith, rw h at v.locked, one_if_le p.session_mtx);
    raised = v.raised;
    held = rw h at v.held;
  }
  Step-IsValid {p} (scan_lock h f) v = record {
    locked = let a = rw (h, f) at v.locked in omega arith;
    raised = v.raised;
    held = rw h at v.held;
  }
  Step-IsValid {p} (scan_all h) v = record {
    locked = rw h at v.locked;
    raised = v.raised;
    held = rw h at v.held;
  }
  Step-IsValid {p} (scan_unlock h) v = record {
    locked = omega (arith, rw h at v.locked, one_if_le p.session_mtx);
    raised = v.raised;
    held = rw h at v.held;
  }
  Step-IsValid (work i s j j' g h) v = record {
    locked = v.locked;
    raised = v.raised;
    held = v.held;
  }
  Step-IsValid (interrupt f) v = record { locked = v.locked; raised = v.raised; held = v.held }

  Wakes-IsValid : {p q : Proxy N} → Wakes l p q → IsValid p → IsValid q
  Wakes-IsValid {p} wakes_main v = record {
    locked =
        v.locked
        ∙ ap (λ b. one_if b + one_if (worker_owns p.worker)) (sym (wake_main_lem p.main).0);
    raised = v.raised ∙ sym (wake_main_lem p.main).1;
    held = v.held;
  }
  Wakes-IsValid {p} wakes_worker v = record {
    locked =
        v.locked
        ∙ ap (λ b. one_if (main_owns p.main) + one_if b) (sym (wake_worker_lem p.worker).0);
    raised = v.raised;
    held = v.held ∙ sym (wake_worker_lem p.worker).1;
  }

  pub Reach-IsValid : {p q : Proxy N} → Reach l p q → IsValid p → IsValid q
  Reach-IsValid here v = v
  Reach-IsValid (next r s) v = Step-IsValid s (Reach-IsValid r v)
  Reach-IsValid (wake r s) v = Wakes-IsValid s (Reach-IsValid r v)
