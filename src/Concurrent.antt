-- ===== src/Concurrent.antt =====
-- concurrent_read_write/concurrency.cpp: `ConcurrentContainer`, whose methods run in any number of
-- threads.
pub mod Laws
mod Tests
use cpp_tricks.Prelude.{ℕ, ◌+◌, ◌-◌, ◌≡◌, Bool, true, false, List, some, get_elem?, set}

-- Where a thread stands in `get` or `set( v )`: each constructor is named for the next atomic
-- operation or, inside a lock, for what is done there.
pub data Place (T : Type 0) : Type 0 where
  -- in neither method
  outside : Place T
  -- `acquire_read`: the loop that loads `write_flag_`
  checking : Place T
  -- `acquire_read`: the flag was seen down, `readers_++` is next
  counting : Place T
  -- `get`: inside the read lock, up to `release_read`
  reading : Place T
  -- `acquire_write`: the loop of `compare_exchange_strong`
  claiming : T → Place T
  -- `acquire_write`: the loop that loads `readers_`
  draining : T → Place T
  -- `set`: inside the write lock, before `data_ = value`
  writing : T → Place T
  -- `set`: inside the write lock, `release_write` is next
  written : Place T

pub record Container (T : Type 0) : Type 0 where
  pub data_ : T
  pub readers_ : ℕ
  pub write_flag_ : Bool
  pub threads : List (Place T)

-- Thread `i` goes to another place.
abbrev pub go : {T : Type 0} → Container T → ℕ → Place T → Container T
go s i p = record s { threads = set s.threads i p }

abbrev pub IsAt : {T : Type 0} → Container T → ℕ → Place T → Type 0
IsAt s i p = get_elem? s.threads i ≡ some p

-- One atomic operation of one thread. A round of a waiting loop that goes on changes nothing, and is
-- left out.
pub data Step {T : Type 0} (s : Container T) : Container T → Type 0 where
  call_get : (i : ℕ) → IsAt s i outside → Step s (go s i checking)
  see_no_writer : (i : ℕ) → IsAt s i checking → s.write_flag_ ≡ false → Step s (go s i counting)
  count_in :
      (i : ℕ)
      → IsAt s i counting
      → Step s (record s { readers_ = s.readers_ + 1; threads = set s.threads i reading })
  count_out :
      (i : ℕ)
      → IsAt s i reading
      → Step s (record s { readers_ = s.readers_ - 1; threads = set s.threads i outside })
  call_set : (i : ℕ) (v : T) → IsAt s i outside → Step s (go s i (claiming v))
  claim :
      (i : ℕ) (v : T)
      → IsAt s i (claiming v)
      → s.write_flag_ ≡ false
      → Step s (record s { write_flag_ = true; threads = set s.threads i (draining v) })
  see_no_readers :
      (i : ℕ) (v : T) → IsAt s i (draining v) → s.readers_ ≡ 0 → Step s (go s i (writing v))
  store :
      (i : ℕ) (v : T)
      → IsAt s i (writing v)
      → Step s (record s { data_ = v; threads = set s.threads i written })
  release_write :
      (i : ℕ)
      → IsAt s i written
      → Step s (record s { write_flag_ = false; threads = set s.threads i outside })

pub data Reach {T : Type 0} (s : Container T) : Container T → Type 0 where
  here : Reach s s
  next : {t u : Container T} → Reach s t → Step t u → Reach s u
