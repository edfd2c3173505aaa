-- ===== src/ProxyPool/Laws.antt =====
-- When a call of `get` ends.
use cpp_tricks.Prelude.{
  ℕ, ◌≡◌, List, [], ◌∷◌, ◌++◌, Option-cases, none, some, inl, inr, set, All, ◌∙◌,
}
use cpp_tricks.ThreadPool.{new_worker}
use cpp_tricks.ThreadPool.Laws.{IsSound, first_free, get-first_free}
use cpp_tricks.ProxyPool.{Pool, scan_once, get}

-- The pool after what the other threads do.
unfoldable pub after : List (Pool → Pool) → Pool → Pool
after [] p = p
after (others ∷ more) p = after more (others p)

get-append :
    (before later : List (Pool → Pool)) (others : Pool → Pool) (p : Pool)
    → get before p ≡ none
    → get (before ++ (others ∷ later)) p ≡ get later (others (after before p))
unfolding get after
get-append [] later others p e = let now : scan_once p ≡ none = e in rw (now, get)
get-append (o ∷ before) later others p e = elim (Option-cases (scan_once p)) [
  | inl h ↦ rw (h, get) (get-append before later others (o p) (rw (h, get) at e))
  | inr (a, h) ↦ absurd (cc (rw (h, get) at e))
]

get_now :
    (later : List (Pool → Pool)) (q : Pool) (i : ℕ)
    → All IsSound q.workers_
    → first_free q.workers_ ≡ some i
    → get later q ≡ some (i, record q { workers_ = set q.workers_ i new_worker }, some tt)
unfolding get
get_now [] q i h e = rw (get-first_free q h) (rw e)
get_now (o ∷ later) q i h e = rw (get-first_free q h, get) (rw e)

-- A call of `get` that has waited ends in its first round that finds a free worker, whatever the other
-- threads did in between, as long as every worker of the pool is sound then. It gives out the first
-- free worker, as a new one, and what the threads would do later does not matter.
pub get_ends :
    (before later : List (Pool → Pool)) (others : Pool → Pool) (p : Pool) (i : ℕ)
    → get before p ≡ none
    → All IsSound (others (after before p)).workers_
    → first_free (others (after before p)).workers_ ≡ some i
    → get (before ++ (others ∷ later)) p
      ≡ some (
        i,
        record (others (after before p)) {
          workers_ = set (others (after before p)).workers_ i new_worker;
        },
        some tt,
      )
get_ends before later others p i e h f =
    get-append before later others p e ∙ get_now later (others (after before p)) i h f
