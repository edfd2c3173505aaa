-- ===== src/ScopeExit.antt =====
-- scope_exit/scope_exit.hpp: `ScopeExit`. A function is a number, a guard its function and its mark, and the
-- guards of a program stand in a list; a guard that is gone is none.
pub mod Laws
mod Tests
use cpp_tricks.Prelude.{
  ℕ, Bool, true, false, List, [], ◌∷◌, ◌++◌, Option, none, some, get_elem?, set, if◌then◌else◌,
}

pub record Guard : Type 0 where
  pub on_exit_ : ℕ
  pub valid_ : Bool

-- The guards, and the functions that have been run.
pub record Program : Type 0 where
  pub guards : List (Option Guard)
  pub ran : List ℕ

pub data Op : Type 0 where
  -- `ScopeExit( f )`
  make : ℕ → Op
  -- `ScopeExit( std::move( g ) )`
  move : ℕ → Op
  -- `g = std::move( h )`
  assign : ℕ → ℕ → Op
  release : ℕ → Op
  -- the destructor
  destroy : ℕ → Op

-- `rhs.valid_ = false`
abbrev pub disarm : Guard → Guard
disarm g = record g { valid_ = false }

abbrev pub add_moved : ℕ → Option (Option Guard) → Program → Program
add_moved j (some (some g)) p = record p {
  guards = set p.guards j (some (disarm g)) ++ (some g ∷ []);
}
add_moved j _ p = p

-- The one that is assigned first, and then the one that is moved from.
abbrev pub put_moved : ℕ → ℕ → Option (Option Guard) → Option (Option Guard) → Program → Program
put_moved i j (some (some g)) (some (some h)) p = record p {
  guards = set (set p.guards i (some h)) j (some (disarm h));
}
put_moved i j _ _ p = p

abbrev pub set_free : ℕ → Option (Option Guard) → Program → Program
set_free i (some (some g)) p = record p { guards = set p.guards i (some (disarm g)) }
set_free i _ p = p

abbrev pub leave : ℕ → Option (Option Guard) → Program → Program
leave i (some (some g)) p = record p {
  guards = set p.guards i none;
  ran = if g.valid_ then g.on_exit_ ∷ p.ran else p.ran;
}
leave i _ p = p

-- An operation on a guard that is gone does nothing here.
unfoldable pub step : Op → Program → Program
step (make f) p = record p {
  guards = p.guards ++ (some (record { on_exit_ = f; valid_ = true }) ∷ []);
}
step (move j) p = add_moved j (get_elem? p.guards j) p
step (assign i j) p = put_moved i j (get_elem? p.guards i) (get_elem? p.guards j) p
step (release i) p = set_free i (get_elem? p.guards i) p
step (destroy i) p = leave i (get_elem? p.guards i) p

unfoldable pub run : List Op → Program → Program
unfolding step
run [] p = p
run (op ∷ l) p = run l (step op p)
