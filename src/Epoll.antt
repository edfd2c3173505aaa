-- ===== src/Epoll.antt =====
-- epoll/epoll.hpp and epoll/epoll.cpp: a dispatcher of the events on descriptors. The kernel is a
-- parameter, and so is what a callback does, which may call the dispatcher again.
pub mod Events
pub mod Dispatch
pub mod Handlers
mod Tests
use cpp_tricks.Prelude.{
  ℕ, ◌+◌, ◌/◌, ◌%◌, Bool, true, false, not, ◌&&◌, ◌||◌, List, [], ◌∷◌, ◌++◌, Option, none, some,
  ◌==◌, if◌then◌else◌,
}
use cpp_tricks.Prelude.Int.{ℤ, pos, ltb_ℤ, same_ℤ}

pub data Event : Type 0 where
  in_ready out_ready hangup one_shot edge_trigger : Event

-- The flags of the header `sys/epoll.h`.
abbrev pub epollin : ℕ
epollin = 1

abbrev pub epollpri : ℕ
epollpri = 2

abbrev pub epollout : ℕ
epollout = 4

abbrev pub epollerr : ℕ
epollerr = 8

abbrev pub epollhup : ℕ
epollhup = 16

abbrev pub epollrdhup : ℕ
epollrdhup = 8192

abbrev pub epolloneshot : ℕ
epolloneshot = 1073741824

abbrev pub epollet : ℕ
epollet = 2147483648

-- `e & flag` and `e | flag`, for a flag of one bit.
abbrev pub has : ℕ → ℕ → Bool
has flag e = e / flag % 2 == 1

abbrev pub put : ℕ → ℕ → ℕ
put flag e = if has flag e then e else e + flag

abbrev pub put_event : Event → ℕ → ℕ
put_event in_ready e = put epollin e
put_event out_ready e = put epollout e
put_event hangup e = put epollhup (put epollerr (put epollrdhup e))
put_event one_shot e = put epolloneshot e
put_event edge_trigger e = put epollet e

abbrev pub put_all : List Event → ℕ → ℕ
put_all [] e = e
put_all (i ∷ l) e = put_all l (put_event i e)

-- `Events( l )`
abbrev pub events : List Event → ℕ
events l = put_all l 0

-- The kernel's side, with a state `K`: the calls of `epoll_ctl`, and whether they return 0;
-- `epoll_pwait2`, with the time that it may take (`none` is a negative result); the counter that wakes a
-- waiting thread; and `close`.
pub record Kernel (K : Type 0) : Type 0 where
  pub ctl_add : K → ℤ → ℕ → Bool × K
  pub ctl_del : K → ℤ → Bool × K
  pub ctl_mod : K → ℤ → ℕ → Bool × K
  pub pwait : K → Option ℕ → Option (List (ℤ × ℕ)) × K
  pub eventfd_write : K → K
  pub eventfd_read : K → K
  pub close : K → ℤ → K

-- `Epoll::Impl`; a callback has a name of type `C`. The keys of `m_handlers` are unique.
pub record Epoll (C K : Type 0) : Type 0 where
  pub m_fd : ℤ
  pub m_wake_fd : ℤ
  pub m_cb : Option C
  pub m_handlers : List (ℤ × C)
  pub kernel : K

module _ {C : Type 0} where
  unfoldable pub find : List (ℤ × C) → ℤ → Option C
  find [] fd = none
  find ((k, c) ∷ m) fd = if same_ℤ k fd then some c else find m fd

  -- `emplace` changes nothing if the key is there.
  unfoldable pub emplace : ℤ → C → List (ℤ × C) → List (ℤ × C)
  emplace fd c [] = (fd, c) ∷ []
  emplace fd c ((k, d) ∷ m) = if same_ℤ k fd then (k, d) ∷ m else (k, d) ∷ emplace fd c m

  unfoldable pub erase : ℤ → List (ℤ × C) → List (ℤ × C)
  erase fd [] = []
  erase fd ((k, d) ∷ m) = if same_ℤ k fd then erase fd m else (k, d) ∷ erase fd m

  abbrev pub handlers_after : Bool → ℤ → Option C → List (ℤ × C) → List (ℤ × C)
  handlers_after true fd (some c) m = emplace fd c m
  handlers_after true fd none m = m
  handlers_after false fd cb m = m

module _ {C K : Type 0} where
  unfoldable pub is_open : Epoll C K → Bool
  is_open s = ltb_ℤ (pos 0) s.m_fd

  -- `it->second`, or the common callback.
  unfoldable pub get_callback : Epoll C K → ℤ → Option C
  get_callback s fd = elim (find s.m_handlers fd) [ some c ↦ some c | none ↦ s.m_cb ]

module _ {C K : Type 0} (sys : Kernel K) where
  -- The constructor, with what `epoll_create` and `eventfd` return.
  unfoldable pub create : Option C → ℤ → ℤ → K → Epoll C K
  create cb fd wake_fd k =
      let r = sys.ctl_add k wake_fd epollin in
      let s : Epoll C K = record {
        m_fd = fd;
        m_wake_fd = wake_fd;
        m_cb = cb;
        m_handlers = [];
        kernel = r.1;
      } in
      if ltb_ℤ wake_fd (pos 0)
      then record s { kernel = k }
      else if r.0
      then s
      else record s { m_wake_fd = pos 0; kernel = sys.close r.1 wake_fd }

  unfoldable pub destroy : Epoll C K → K
  destroy s =
      let k = if ltb_ℤ (pos 0) s.m_wake_fd then sys.close s.kernel s.m_wake_fd else s.kernel in
      if ltb_ℤ (pos 0) s.m_fd then sys.close k s.m_fd else k

  -- `Epoll::Add` and `Impl::Add`
  unfoldable pub add : ℤ → ℕ → Option C → Epoll C K → Bool × Epoll C K
  add fd e cb s =
      let r = sys.ctl_add s.kernel fd e in
      if ltb_ℤ fd (pos 0)
      then (false, s)
      else if not (is_open s) || e == 0
      then (false, s)
      else (r.0, record s { kernel = r.1; m_handlers = handlers_after r.0 fd cb s.m_handlers })

  unfoldable pub remove : ℤ → Epoll C K → Bool × Epoll C K
  remove fd s =
      let r = sys.ctl_del s.kernel fd in
      if not (is_open s)
      then (false, s)
      else (r.0, record s { kernel = r.1; m_handlers = erase fd s.m_handlers })

  unfoldable pub modify : ℤ → ℕ → Epoll C K → Bool × Epoll C K
  modify fd e s =
      let r = sys.ctl_mod s.kernel fd e in
      if not (is_open s) then (false, s) else (r.0, record s { kernel = r.1 })

  unfoldable pub stop_wait : Epoll C K → Epoll C K
  stop_wait s = if not (is_open s) then s else record s { kernel = sys.eventfd_write s.kernel }

module _ {C K : Type 0} (run : C → ℤ → Event → Epoll C K → Epoll C K) where
  -- A callback that removes its own descriptor destroys the function that is running; what then happens is left to
  -- `run`.
  abbrev pub fire : Option C → ℤ → Event → Epoll C K → Epoll C K
  fire none fd e s = s
  fire (some c) fd e s = run c fd e s

  -- The body of the loop for an event that is not the wake-up.
  unfoldable pub handle : ℤ → ℕ → Epoll C K → Epoll C K
  handle fd e s =
      if has epollrdhup e || has epollpri e || has epollerr e || has epollhup e
      then fire (get_callback s fd) fd hangup s
      else if has epollin e
      then fire (get_callback s fd) fd in_ready s
      else if has epollout e
      then fire (get_callback s fd) fd out_ready s
      else s

module _ {C K : Type 0} (sys : Kernel K) (run : C → ℤ → Event → Epoll C K → Epoll C K) where
  -- The loop over the events.
  unfoldable pub dispatch : List (ℤ × ℕ) → Epoll C K → Epoll C K
  dispatch [] s = s
  dispatch ((fd, e) ∷ rest) s =
      if same_ℤ fd s.m_wake_fd
      then record s { kernel = sys.eventfd_read s.kernel }
      else dispatch rest (handle run fd e s)

  abbrev pub dispatched : Option (List (ℤ × ℕ)) → Epoll C K → Bool × Epoll C K
  dispatched none s = (false, s)
  dispatched (some l) s = (true, dispatch l s)

  unfoldable pub wait : Option ℕ → Epoll C K → Bool × Epoll C K
  wait timeout s =
      let r = sys.pwait s.kernel timeout in
      if not (is_open s) then (false, s) else dispatched r.0 (record s { kernel = r.1 })
