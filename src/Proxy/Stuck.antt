-- ===== src/Proxy/Stuck.antt =====
-- A wake-up that is lost.
use cpp_tricks.Prelude.{◌≡◌, refl, true}
use cpp_tricks.Sockets.{Link, TcpSocket}
use cpp_tricks.Proxy.{
  blocked, paused, Proxy, Step, Reach, here, next, started, accept, lock, see_hold, see_no_hold,
  block, push_back, lower, unlock, notify, finalize, join, go_on, finish, see_connection,
  see_no_connection, hold, call, enter, see_added, see_not_added, pause, resume, leave, scan_lock,
  scan_all, scan_unlock, work, interrupt,
}

-- Steps without a wake-up that nobody called for.
pub data Runs {N : Type 0} (l : Link N) (p : Proxy N) : Proxy N → Type 0 where
  stay : Runs l p p
  run : {q r : Proxy N} → Runs l p q → Step l q r → Runs l p r

-- Both threads are blocked in `cv.wait`.
abbrev pub asleep : {N : Type 0} → TcpSocket N → Proxy N
asleep k = record started {
  main = blocked k;
  worker = paused;
  new_connection = true;
  worker_on_hold = true;
}

module _ {N : Type 0} where
  abbrev Sleeps : TcpSocket N → Proxy N → Type 0
  Sleeps k p = (p.main ≡ blocked k) × (p.worker ≡ paused)

module _ {N : Type 0} (l : Link N) where
  Step-Sleeps : {p q : Proxy N} (s : TcpSocket N) → Step l p q → Sleeps s p → Sleeps s q
  Step-Sleeps s' (accept k h f) a = absurd (cc (h, a.0))
  Step-Sleeps s' (lock k h f) a = absurd (cc (h, a.0))
  Step-Sleeps s' (see_hold k h f) a = absurd (cc (h, a.0))
  Step-Sleeps s' (see_no_hold k h f) a = absurd (cc (h, a.0))
  Step-Sleeps s' (block k h) a = absurd (cc (h, a.0))
  Step-Sleeps s' (push_back k d e h) a = absurd (cc (h, a.0))
  Step-Sleeps s' (lower h) a = absurd (cc (h, a.0))
  Step-Sleeps s' (unlock h) a = absurd (cc (h, a.0))
  Step-Sleeps s' (notify h) a = absurd (cc (h, a.0))
  Step-Sleeps s' (finalize h f) a = absurd (cc (h, a.0))
  Step-Sleeps s' (join h f) a = absurd (cc (h, a.0))
  Step-Sleeps s' (go_on h f) a = absurd (cc (h, a.1))
  Step-Sleeps s' (finish h f) a = absurd (cc (h, a.1))
  Step-Sleeps s' (see_connection h f) a = absurd (cc (h, a.1))
  Step-Sleeps s' (see_no_connection h f) a = absurd (cc (h, a.1))
  Step-Sleeps s' (hold h) a = absurd (cc (h, a.1))
  Step-Sleeps s' (call h) a = absurd (cc (h, a.1))
  Step-Sleeps s' (enter h f) a = absurd (cc (h, a.1))
  Step-Sleeps s' (see_added h f) a = absurd (cc (h, a.1))
  Step-Sleeps s' (see_not_added h f) a = absurd (cc (h, a.1))
  Step-Sleeps s' (pause h) a = absurd (cc (h, a.1))
  Step-Sleeps s' (resume h) a = absurd (cc (h, a.1))
  Step-Sleeps s' (leave h) a = absurd (cc (h, a.1))
  Step-Sleeps s' (scan_lock h f) a = absurd (cc (h, a.1))
  Step-Sleeps s' (scan_all h) a = absurd (cc (h, a.1))
  Step-Sleeps s' (scan_unlock h) a = absurd (cc (h, a.1))
  Step-Sleeps s' (work i s j j' g h) a = a
  Step-Sleeps s' (interrupt f) a = a

  Runs-Sleeps : {p q : Proxy N} (s : TcpSocket N) → Runs l p q → Sleeps s p → Sleeps s q
  Runs-Sleeps s stay a = a
  Runs-Sleeps s (run r t) a = Step-Sleeps s t (Runs-Sleeps s r a)

  -- The worker raises its flag and calls `notify_one` between the listening thread's test of the flag and
  -- its block.
  Reach-asleep : (k : TcpSocket N) → Reach l started (asleep k)
  Reach-asleep k =
      let a = next (next here (go_on refl refl)) (accept k refl refl) in
      let b = next (next a (see_connection refl refl)) (lock k refl refl) in
      let c = next (next (next b (see_no_hold k refl refl)) (hold refl)) (call refl) in
      next (next (next (next c (block k refl)) (enter refl refl)) (see_not_added refl refl))
        (pause refl)

  -- Both threads can come to wait for each other: the state in which they do is reached from the start, for
  -- every connection, and in every run from there, but for wake-ups that nobody calls for, they wait on.
  pub lost_wakeup :
      (k : TcpSocket N) (q : Proxy N)
      → Runs l (asleep k) q
      → Reach l started (asleep k) × (q.main ≡ blocked k) × (q.worker ≡ paused)
  lost_wakeup k q r = let a = Runs-Sleeps k r (refl, refl) in (Reach-asleep k, a.0, a.1)
