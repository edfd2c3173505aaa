-- ===== src/Epoll/Tests.antt =====
-- A dispatcher over a kernel that accepts all and returns a given list of events.
use cpp_tricks.Prelude.{ℕ, ◌≡◌, refl, true, false, List, [], ◌∷◌, ◌++◌, some, none, arith}
use cpp_tricks.Prelude.Int.{ℤ, pos}
use cpp_tricks.Epoll.{
  Epoll, Kernel, Event, in_ready, hangup, epollin, epollhup, epollout, find, is_open, add, remove,
  wait, events, has,
}
use cpp_tricks.Epoll.Events.{priority, peer_hung_up, bit}
use cpp_tricks.Epoll.Dispatch.{handle_all, wakes, wait_lem}
use cpp_tricks.Epoll.Handlers.{callbacks_lem}

-- The events, and the callbacks that have run.
abbrev Log : Type 0
Log = List (ℤ × ℕ) × List ℕ

abbrev sys : Kernel Log
sys = record {
  ctl_add = λ k fd e. (true, k);
  ctl_del = λ k fd. (true, k);
  ctl_mod = λ k fd e. (true, k);
  pwait = λ k timeout. (some k.0, k);
  eventfd_write = λ k. k;
  eventfd_read = λ k. (k.0, k.1 ++ (0 ∷ []));
  close = λ k fd. k;
}

abbrev run : ℕ → ℤ → Event → Epoll ℕ Log → Epoll ℕ Log
run c fd e s = record s { kernel = (s.kernel.0, s.kernel.1 ++ (c ∷ [])) }

abbrev poll : Epoll ℕ Log
poll = record {
  m_fd = pos 3;
  m_wake_fd = pos 4;
  m_cb = some 1;
  m_handlers = (pos 7, 70) ∷ [];
  kernel = ((pos 7, epollin) ∷ (pos 8, epollhup) ∷ (pos 4, epollin) ∷ (pos 9, epollout) ∷ [], []);
}

hangup_flags :
    (has (bit peer_hung_up) (events (in_ready ∷ hangup ∷ [])) ≡ true)
    × (has (bit priority) (events (hangup ∷ [])) ≡ false)
hangup_flags = (refl, refl)

wait_lem_example : wait sys run none poll ≡ (
  true,
  wakes sys run
      (λ c fd e s. refl)
      true
      (handle_all run ((pos 7, epollin) ∷ (pos 8, epollhup) ∷ []) poll),
)
unfolding is_open
wait_lem_example = wait_lem sys run (λ c fd e s. refl) none poll poll.kernel.0 poll.kernel refl refl

callbacks_lem_example :
    ((add sys (pos 7) epollin (some 5) poll).0 ≡ true)
    × (find (add sys (pos 7) epollin (some 5) poll).1.m_handlers (pos 7) ≡ some 70)
    × ((remove sys (pos 7) poll).0 ≡ true)
    × (find (remove sys (pos 7) poll).1.m_handlers (pos 7) ≡ none)
unfolding is_open find
callbacks_lem_example =
    callbacks_lem sys poll (pos 7) epollin (some 5) (pos 7) refl refl (omega arith)
