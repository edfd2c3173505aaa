-- ===== src/ProxyPool/Tests.antt =====
-- A pool that is waited for.
use cpp_tricks.Prelude.{◌≡◌, refl, true, false, [], ◌∷◌, ◌++◌, none, some, set}
use cpp_tricks.ThreadPool.{Worker, ThreadPool, new_worker}
use cpp_tricks.ThreadPool
use cpp_tricks.ThreadPool.Laws.{first_free}
use cpp_tricks.ProxyPool.{Pool, get}
use cpp_tricks.ProxyPool.Laws.{after, get_ends}

abbrev waiting : Pool
waiting = record {
  workers_ = record { thread_ = some 4; started_ = true; done_ = false } ∷ [];
  joining_ = false;
}

abbrev idles : Pool → Pool
idles p = p

-- The job of the only worker ends.
abbrev ends : Pool → Pool
ends p = record p { workers_ = record { thread_ = some 4; started_ = true; done_ = true } ∷ [] }

still_waits : get (idles ∷ []) waiting ≡ none
unfolding get ThreadPool.get ThreadPool.scan ThreadPool.is_free
still_waits = refl

get_ends_example :
    get ((idles ∷ []) ++ (ends ∷ idles ∷ [])) waiting
    ≡ some
        (0, record (ends waiting) { workers_ = set (ends waiting).workers_ 0 new_worker }, some tt)
unfolding after first_free ThreadPool.is_free
get_ends_example =
    get_ends (idles ∷ []) (idles ∷ []) ends waiting 0 still_waits
      (record { threaded = refl; done_started = λ e. refl }, tt) refl
