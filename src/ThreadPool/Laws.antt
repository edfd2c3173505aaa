-- ===== src/ThreadPool/Laws.antt =====
-- Which workers `get` gives out, and what the pool waits for.
use mathlib.Core.Option
use cpp_tricks.Prelude.{
  ℕ, zero, suc, ◌≡◌, refl, sym, subst, ap, ◌∙◌, ◌≢◌, inl, inr, Bool, true, false, ◌&&◌, List, [],
  ◌∷◌, Option, none, some, Option-cases, get_elem?, set, All, arith, if◌then◌else◌, Bool-cases,
}
use cpp_tricks.ThreadPool.{
  Worker, ThreadPool, new_worker, is_free, run, finish, join, destroy, scan, get, join_all,
  join_pool,
}

abbrev joinable : Option ℕ → Bool
joinable none = false
joinable (some j) = true

-- A worker has a thread object exactly while it is started, and is done only if it is started.
pub record IsSound (w : Worker) : Type 0 where
  pub threaded : w.started_ ≡ joinable w.thread_
  pub done_started : w.done_ ≡ true → w.started_ ≡ true

new-IsSound : IsSound new_worker
unfolding new_worker
new-IsSound = record { threaded = refl; done_started = λ e. e }

run-IsSound : (w v : Worker) (j : ℕ) → IsSound w → run w j ≡ some v → IsSound v
unfolding run
run-IsSound w v j h e = ground arith

finish-IsSound : (w : Worker) → IsSound w → w.started_ ≡ true → IsSound (finish w)
unfolding finish
finish-IsSound w h e = record { threaded = h.threaded; done_started = λ d. e }

join-IsSound : (w v : Worker) → IsSound w → join w ≡ some v → IsSound v × (v.started_ ≡ false)
unfolding join
join-IsSound w v h e = ground arith

-- Destroying a free worker neither waits nor ends the program.
destroy_free : (w : Worker) → IsSound w → is_free w ≡ true → destroy w ≡ some tt
unfolding destroy is_free
destroy_free w h e = ground arith

-- The index of the first free worker.
unfoldable pub first_free : List Worker → Option ℕ
first_free [] = none
first_free (w ∷ ws) = if is_free w then some 0 else Option.map suc (first_free ws)

abbrev taken : List Worker → ℕ → ℕ × List Worker × Option (Unit {0})
taken ws i = (i, set ws i new_worker, some tt)

scan_lem : (ws : List Worker) → All IsSound ws → scan ws ≡ Option.map (taken ws) (first_free ws)
unfolding scan first_free
scan_lem [] h = refl
scan_lem (w ∷ ws) h = elim (Bool-cases (is_free w)) [
  | inl f ↦ rw f (ap (λ (d : Option (Unit {0})). some (0, new_worker ∷ ws, d)) (old_self w h.0 f))
  | inr f ↦ rw f (elim (Option-cases (first_free ws)) [
    | inl e ↦ rw (scan_lem ws h.1, e)
    | inr (i, e) ↦ rw (scan_lem ws h.1, e)
  ])
]
  where
    old_self :
        (v : Worker)
        → IsSound v
        → is_free v ≡ true
        → destroy (record { thread_ = v.thread_; started_ = v.started_; done_ = v.done_ }) ≡ some tt
    old_self v g f = destroy_free v g f

new-is_free : is_free new_worker ≡ true
unfolding is_free new_worker
new-is_free = refl

map-suc-eq : (o : Option ℕ) (i : ℕ) → Option.map suc o ≡ some (suc i) → o ≡ some i
map-suc-eq none i e = cc
map-suc-eq (some j) i e = cc

first_free-taken :
    (ws : List Worker) (i : ℕ)
    → first_free ws ≡ some i
    → (first_free (set ws i new_worker) ≡ some i)
      × ((w : Worker) × (get_elem? ws i ≡ some w) × (is_free w ≡ true))
unfolding first_free
first_free-taken [] i e = cc
first_free-taken (w ∷ ws) zero e = elim (Bool-cases (is_free w)) [
  | inl f ↦ (rw new-is_free, (w, refl, f))
  | inr f ↦ absurd (suc_ne (first_free ws) (rw f at e))
]
  where
    suc_ne : (o : Option ℕ) → Option.map suc o ≢ some 0
    suc_ne none e = cc
    suc_ne (some j) e = cc
first_free-taken (w ∷ ws) (suc i) e = elim (Bool-cases (is_free w)) [
  | inl f ↦ let g = rw f at e in cc
  | inr f ↦
      let m = first_free-taken ws i (map-suc-eq (first_free ws) i (rw f at e)) in (rw (f, m.0), m.1)
]

-- In a pool of sound workers `get` gives out the first free worker, if there is one, as a new worker; destroying what it was
-- neither waits nor ends the program, and the other workers stay as they are. It waits exactly if no
-- worker is free.
pub get-first_free :
    (p : ThreadPool)
    → All IsSound p.workers_
    → get p ≡ elim (first_free p.workers_) [
      | none ↦ none
      | some i ↦ some (i, record p { workers_ = set p.workers_ i new_worker }, some tt)
    ]
unfolding get
get-first_free p h = elim (Option-cases (first_free p.workers_)) [
  | inl e ↦ rw (scan_lem p.workers_ h, get) (rw e)
  | inr (i, e) ↦ rw (scan_lem p.workers_ h, get) (rw e)
]

set-IsSound :
    (ws : List Worker) (i : ℕ) (w : Worker) → IsSound w → All IsSound ws → All IsSound (set ws i w)
set-IsSound [] i w g h = tt
set-IsSound (v ∷ ws) zero w g h = (g, h.1)
set-IsSound (v ∷ ws) (suc i) w g h = (h.0, set-IsSound ws i w g h.1)

set-set : (ws : List Worker) (i : ℕ) (w : Worker) → set (set ws i w) i w ≡ set ws i w
set-set [] i w = refl
set-set (v ∷ ws) zero w = refl
set-set (v ∷ ws) (suc i) w = ap (λ (l : List Worker). v ∷ l) (set-set ws i w)

-- `get` does not reserve the worker that it gives out, in a pool of sound workers: a second call, before the client of the first
-- has run a job on it, gives out the same worker again.
pub get_twice :
    (p : ThreadPool) (i : ℕ)
    → All IsSound p.workers_
    → first_free p.workers_ ≡ some i
    → let q = record p { workers_ = set p.workers_ i new_worker } in
      (get p ≡ some (i, q, some tt)) × (get q ≡ some (i, q, some tt))
get_twice p i h f =
    let q : ThreadPool = record p { workers_ = set p.workers_ i new_worker } in
    let twice : get q
        ≡ some
            (i, record p { workers_ = set (set p.workers_ i new_worker) i new_worker }, some tt) =
      get-first_free q (set-IsSound p.workers_ i new_worker new-IsSound h)
      ∙ rw (first_free-taken p.workers_ i f).0 in
    (
      get-first_free p h ∙ rw f,
      twice
          ∙ ap (λ (l : List Worker). some (i, record p { workers_ = l }, some tt))
              (set-set p.workers_ i new_worker),
    )

-- The worker that is there, or a new one.
abbrev or_new : Option Worker → Worker
or_new none = new_worker
or_new (some w) = w

abbrev pool_or : ThreadPool → Option (ℕ × ThreadPool × Option (Unit {0})) → ThreadPool
pool_or p none = p
pool_or p (some (i, q, d)) = q

abbrev joined_or : ThreadPool → Option ThreadPool → ThreadPool
joined_or p none = p
joined_or p (some q) = q

nth-IsSound :
    (ws : List Worker) (i : ℕ) {w : Worker} → All IsSound ws → get_elem? ws i ≡ some w → IsSound w
nth-IsSound [] i h e = cc
nth-IsSound (v ∷ ws) zero h e = subst (λ o. IsSound (or_new o)) e h.0
nth-IsSound (v ∷ ws) (suc i) h e = nth-IsSound ws i h.1 e

-- What can happen to a pool: a client calls `get`, a client runs a job on a worker that is not started,
-- a job returns, or `join` returns.
pub data Step (p : ThreadPool) : ThreadPool → Type 0 where
  gets : {i : ℕ} {q : ThreadPool} {d : Option (Unit {0})} → get p ≡ some (i, q, d) → Step p q
  runs :
      (i j : ℕ) (w v : Worker)
      → get_elem? p.workers_ i ≡ some w
      → run w j ≡ some v
      → Step p (record p { workers_ = set p.workers_ i v })
  ends :
      (i : ℕ) (w : Worker)
      → get_elem? p.workers_ i ≡ some w
      → w.started_ ≡ true
      → Step p (record p { workers_ = set p.workers_ i (finish w) })
  joins : {q : ThreadPool} → join_pool p ≡ some q → Step p q

pub data Reach (p : ThreadPool) : ThreadPool → Type 0 where
  here : Reach p p
  next : {q r : ThreadPool} → Reach p q → Step q r → Reach p r

-- No worker has a job that has not returned.
unfoldable pub all_free : List Worker → Bool
all_free [] = true
all_free (w ∷ ws) = is_free w && all_free ws

abbrev renew : List Worker → List Worker
renew [] = []
renew (w ∷ ws) = new_worker ∷ renew ws

join-free : (w : Worker) → IsSound w → join w ≡ (if is_free w then some new_worker else none)
unfolding join is_free new_worker
join-free w h = ground arith

join_all_lem :
    (ws : List Worker)
    → All IsSound ws
    → join_all ws ≡ (if all_free ws then some (renew ws) else none)
unfolding join_all all_free
join_all_lem [] h = refl
join_all_lem (w ∷ ws) h = elim (Bool-cases (is_free w)) [
  | inl f ↦
      rw (join-free w h.0, join_all)
        (rw f (
          rw (join_all_lem ws h.1)
            (elim (Bool-cases (all_free ws)) [ inl g ↦ rw g | inr g ↦ rw g ])))
  | inr f ↦ rw (join-free w h.0, join_all) (rw f)
]

-- In a pool of sound workers, where no client starts a job while it waits, the first `join` returns
-- exactly when no job runs any more, and leaves only new workers, without threads. Every later `join` returns at once and changes nothing, whatever jobs run.
pub join_pool_lem :
    (p : ThreadPool)
    → All IsSound p.workers_
    → join_pool p ≡ (
        if p.joining_
        then some p
        else if all_free p.workers_
        then some (record { workers_ = renew p.workers_; joining_ = true })
        else none)
unfolding join_pool
join_pool_lem p h = elim (Bool-cases p.joining_) [
  | inl e ↦ rw e
  | inr e ↦
      rw (join_all_lem p.workers_ h)
        (rw e (elim (Bool-cases (all_free p.workers_)) [ inl g ↦ rw g | inr g ↦ rw g ]))
]

renew-IsSound : (ws : List Worker) → All IsSound (renew ws)
renew-IsSound [] = tt
renew-IsSound (w ∷ ws) = (new-IsSound, renew-IsSound ws)

get-IsSound :
    (p : ThreadPool) {i : ℕ} {q : ThreadPool} {d : Option (Unit {0})}
    → All IsSound p.workers_
    → get p ≡ some (i, q, d)
    → All IsSound q.workers_
get-IsSound p h e =
    subst (λ o. All IsSound (pool_or p o).workers_) (sym (get-first_free p h) ∙ e)
      (elim (Option-cases (first_free p.workers_)) [
        | inl f ↦ rw f h
        | inr (k, f) ↦ rw f (set-IsSound p.workers_ k new_worker new-IsSound h)
      ])

join_pool-IsSound :
    (p : ThreadPool) {q : ThreadPool}
    → All IsSound p.workers_
    → join_pool p ≡ some q
    → All IsSound q.workers_
join_pool-IsSound p h e =
    subst (λ o. All IsSound (joined_or p o).workers_) (sym (join_pool_lem p h) ∙ e)
      (elim (Bool-cases p.joining_) [
        | inl f ↦ rw f h
        | inr f ↦ rw f (elim (Bool-cases (all_free p.workers_)) [
          | inl g ↦ rw g (renew-IsSound p.workers_)
          | inr g ↦ rw g h
        ])
      ])

-- In a pool of sound workers every worker stays sound, whatever clients and jobs do: its thread object is joinable exactly while it
-- is started, so `run` on a worker that is not started and the destruction of a free worker never meet
-- a joinable thread object.
pub Reach-IsSound : {p q : ThreadPool} → All IsSound p.workers_ → Reach p q → All IsSound q.workers_
Reach-IsSound h here = h
Reach-IsSound h (next r s) = one s (Reach-IsSound h r)
  where
    one : {a b : ThreadPool} → Step a b → All IsSound a.workers_ → All IsSound b.workers_
    one {a} (gets e) g = get-IsSound a g e
    one {a} (runs i j w v e f) g =
        set-IsSound a.workers_ i v (run-IsSound w v j (nth-IsSound a.workers_ i g e) f) g
    one {a} (ends i w e f) g =
        set-IsSound a.workers_ i (finish w) (finish-IsSound w (nth-IsSound a.workers_ i g e) f) g
    one {a} (joins e) g = join_pool-IsSound a g e
