-- ===== src/Epoll/Dispatch.antt =====
-- The loop over the events that `epoll_pwait2` returns.
use cpp_tricks.Prelude.{
  ℕ, ◌≡◌, refl, sym, ap, ◌∙◌, Bool, true, false, ◌||◌, List, [], ◌∷◌, some, none, Option,
  if◌then◌else◌, inl, inr, Bool-cases,
}
use cpp_tricks.Prelude.Int.{ℤ, same_ℤ}
use cpp_tricks.Epoll.{
  find, Epoll, Event, Kernel, get_callback, is_open, wait, in_ready, out_ready, hangup, fire,
  handle, dispatch, has, epollin, epollout, epollpri, epollerr, epollhup, epollrdhup,
}

-- The events before the first wake-up, and whether there is one.
abbrev pub until_wake : ℤ → List (ℤ × ℕ) → List (ℤ × ℕ) × Bool
until_wake wake [] = ([], false)
until_wake wake ((fd, e) ∷ l) =
    let r = until_wake wake l in if same_ℤ fd wake then ([], true) else ((fd, e) ∷ r.0, r.1)

-- What a descriptor's flags are reported as: the event of the first row with one of them.
abbrev pub rows : List (List ℕ × Event)
rows =
    (epollrdhup ∷ epollpri ∷ epollerr ∷ epollhup ∷ [], hangup)
    ∷ (epollin ∷ [], in_ready)
    ∷ (epollout ∷ [], out_ready)
    ∷ []

abbrev pub any_flag : List ℕ → ℕ → Bool
any_flag [] e = false
any_flag (f ∷ []) e = has f e
any_flag (f ∷ g ∷ fs) e = has f e || any_flag (g ∷ fs) e

abbrev pub event_of : List (List ℕ × Event) → ℕ → Option Event
event_of [] e = none
event_of ((fs, v) ∷ l) e = if any_flag fs e then some v else event_of l e

module _ {C K : Type 0} (run : C → ℤ → Event → Epoll C K → Epoll C K) where
  -- The callback that was added for the descriptor, or else the common one if there is one.
  abbrev pub call : Option C → Option C → ℤ → Event → Epoll C K → Epoll C K
  call (some c) common fd v s = run c fd v s
  call none (some c) fd v s = run c fd v s
  call none none fd v s = s

  abbrev pub report : ℤ → Option Event → Epoll C K → Epoll C K
  report fd none s = s
  report fd (some v) s = call (find s.m_handlers fd) s.m_cb fd v s

  -- The callbacks for a list of events, one after the other.
  abbrev pub handle_all : List (ℤ × ℕ) → Epoll C K → Epoll C K
  handle_all [] s = s
  handle_all ((fd, e) ∷ l) s = handle_all l (report fd (event_of rows e) s)

  -- Callbacks leave the descriptor of the wake-up alone, as all operations of the class do.
  abbrev pub KeepsWake : Type 0
  KeepsWake = (c : C) (fd : ℤ) (e : Event) (s : Epoll C K) → (run c fd e s).m_wake_fd ≡ s.m_wake_fd

  fire-call :
      (fd : ℤ) (v : Event) (s : Epoll C K)
      → fire run (get_callback s fd) fd v s ≡ call (find s.m_handlers fd) s.m_cb fd v s
  unfolding get_callback
  fire-call fd v s = either (find s.m_handlers fd) s.m_cb
    where
      either :
          (own common : Option C)
          → fire run (elim own [ some c ↦ some c | none ↦ common ]) fd v s ≡ call own common fd v s
      either (some c) common = refl
      either none (some c) = refl
      either none none = refl

  branches :
      (ends reads writes : Bool) (fd : ℤ) (s : Epoll C K)
      → let cb = get_callback s fd in
        (if ends
          then fire run cb fd hangup s
          else if reads
          then fire run cb fd in_ready s
          else if writes
          then fire run cb fd out_ready s
          else s)
        ≡ report fd
            (if ends
              then some hangup
              else if reads
              then some in_ready
              else if writes
              then some out_ready
              else none)
            s
  branches true reads writes fd s = fire-call fd hangup s
  branches false true writes fd s = fire-call fd in_ready s
  branches false false true fd s = fire-call fd out_ready s
  branches false false false fd s = refl

  or_four : (a b c d : Bool) → (a || b || c || d) ≡ (a || (b || (c || d)))
  or_four true b c d = refl
  or_four false true c d = refl
  or_four false false c d = refl

  -- Each branch of the body of the loop is a row.
  handle_lem : (fd : ℤ) (e : ℕ) (s : Epoll C K) → handle run fd e s ≡ report fd (event_of rows e) s
  unfolding handle
  handle_lem fd e s =
      rw (or_four (has epollrdhup e) (has epollpri e) (has epollerr e) (has epollhup e)) (
        branches (any_flag (epollrdhup ∷ epollpri ∷ epollerr ∷ epollhup ∷ []) e) (has epollin e)
          (has epollout e) fd s)

  fire_keeps :
      KeepsWake
      → (cb : Option C) (fd : ℤ) (e : Event) (s : Epoll C K)
      → (fire run cb fd e s).m_wake_fd ≡ s.m_wake_fd
  fire_keeps keep none fd e s = refl
  fire_keeps keep (some c) fd e s = keep c fd e s

  handle_keeps :
      KeepsWake → (fd : ℤ) (e : ℕ) (s : Epoll C K) → (handle run fd e s).m_wake_fd ≡ s.m_wake_fd
  unfolding handle
  handle_keeps keep fd e s =
      let cb = get_callback s fd in
      let ends : Bool = has epollrdhup e || has epollpri e || has epollerr e || has epollhup e in
      elim (Bool-cases ends) [
        | inl t ↦ rw t (fire_keeps keep cb fd hangup s)
        | inr f ↦ elim (Bool-cases (has epollin e)) [
          | inl t ↦ rw (f, t) (fire_keeps keep cb fd in_ready s)
          | inr g ↦ elim (Bool-cases (has epollout e)) [
            | inl t ↦ rw (f, g, t) (fire_keeps keep cb fd out_ready s)
            | inr h ↦ rw (f, g, h) refl
          ]
        ]
      ]

module _ {C K : Type 0} (sys : Kernel K) (run : C → ℤ → Event → Epoll C K → Epoll C K)
    (keep : KeepsWake run) where
  abbrev pub wakes : Bool → Epoll C K → Epoll C K
  wakes true s = record s { kernel = sys.eventfd_read s.kernel }
  wakes false s = s

  dispatch_lem :
      (l : List (ℤ × ℕ)) (s : Epoll C K)
      → let r = until_wake s.m_wake_fd l in dispatch sys run l s ≡ wakes r.1 (handle_all run r.0 s)
  unfolding dispatch
  dispatch_lem [] s = refl
  dispatch_lem ((fd, e) ∷ l) s = elim (Bool-cases (same_ℤ fd s.m_wake_fd)) [
    | inl t ↦ rw t refl
    | inr f ↦
        let next = report run fd (event_of rows e) s in
        let same = handle_lem run fd e s in
        let kept : next.m_wake_fd ≡ s.m_wake_fd =
          sym (ap (λ t. t.m_wake_fd) same) ∙ handle_keeps run keep fd e s in
        rw f (
          ap (dispatch sys run l) same
          ∙ dispatch_lem l next
          ∙ ap (λ w. wakes (until_wake w l).1 (handle_all run (until_wake w l).0 next)) kept)
  ]

  -- When the dispatcher is open and the kernel returns a list of events, `Wait` returns true and has run the
  -- callbacks, in order, for the events before the first wake-up, which it consumes; the events after it
  -- are dropped. For each event the callback of the descriptor, or else the common one, is run with a hang-up if
  -- there is a flag of an error, a hang-up or priority data, else with In or else with Out if there is their flag,
  -- and not at all if there is none. Callbacks may call the dispatcher, and leave the descriptor of the wake-up alone.
  pub wait_lem :
      (timeout : Option ℕ) (s : Epoll C K) (l : List (ℤ × ℕ)) (k : K)
      → is_open s ≡ true
      → sys.pwait s.kernel timeout ≡ (some l, k)
      → let r = until_wake s.m_wake_fd l in
        wait sys run timeout s ≡ (true, wakes r.1 (handle_all run r.0 (record s { kernel = k })))
  unfolding wait
  wait_lem timeout s l k o e =
      rw (o, e) (ap (λ t. (true, t)) (dispatch_lem l (record s { kernel = k })))
