-- ===== src/ScopeExit/Laws.antt =====
-- A function is run at most as often as guards are made for it.
use cpp_tricks.Prelude.{
  ℕ, ◌+◌, ◌≡◌, ◌≢◌, ◌∙◌, Bool, true, false, ◌&&◌, List, [], ◌∷◌, ◌++◌, Option, none, some,
  get_elem?, set, count_if, count_if-set, one_if, get_elem?-set_self, get_elem?-set_ne, ◌==◌, arith,
  inl, inr, Option-cases, Bool-cases,
}
use cpp_tricks.ScopeExit.{
  Guard, Program, Op, make, move, assign, release, destroy, disarm, add_moved, put_moved, set_free,
  leave, step, run,
}

module _ (f : ℕ) where
  -- Is it a guard that will run the function?
  abbrev pub armed : Option Guard → Bool
  armed none = false
  armed (some g) = g.valid_ && g.on_exit_ == f

  abbrev pub runs : Program → ℕ
  runs p = count_if (λ g. g == f) p.ran

  abbrev pub waiting : Program → ℕ
  waiting p = count_if armed p.guards

  count-last :
      (l : List (Option Guard)) (g : Option Guard)
      → count_if armed (l ++ (g ∷ [])) ≡ count_if armed l + one_if (armed g)
  count-last [] g = omega arith
  count-last (x ∷ l) g = omega (arith, count-last l g)

  -- How many guards an operation makes for the function.
  abbrev pub made : Op → ℕ
  made (make g) = one_if (g == f)
  made op = 0

  abbrev pub made_all : List Op → ℕ
  made_all [] = 0
  made_all (op ∷ l) = made op + made_all l

  -- How many guards for the function lose their mark: those that are released, and those that another is moved to.
  abbrev lost_free : Option (Option Guard) → ℕ
  lost_free (some (some g)) = one_if (armed (some g))
  lost_free _ = 0

  abbrev lost_moved : Option (Option Guard) → Option (Option Guard) → ℕ
  lost_moved (some (some g)) (some (some h)) = one_if (armed (some g))
  lost_moved _ _ = 0

  abbrev lost : Op → Program → ℕ
  lost (release i) p = lost_free (get_elem? p.guards i)
  lost (assign i j) p = lost_moved (get_elem? p.guards i) (get_elem? p.guards j)
  lost op p = 0

  abbrev pub lost_all : List Op → Program → ℕ
  lost_all [] p = 0
  lost_all (op ∷ l) p = lost op p + lost_all l (step op p)

  -- Runs and guards to come, with those that are lost: as many as before and those that are made.
  abbrev Keeps : ℕ → ℕ → Program → Program → Type 0
  Keeps n m p q = runs q + waiting q + m ≡ runs p + waiting p + n

  add_moved-Keeps : (j : ℕ) (p : Program) → Keeps 0 0 p (add_moved j (get_elem? p.guards j) p)
  add_moved-Keeps j p = elim (Option-cases (get_elem? p.guards j)) [
    | inl e ↦ rw e (omega arith)
    | inr (none, e) ↦ rw e (omega arith)
    | inr (some g, e) ↦ rw e (
        omega (
          arith,
          count_if-set armed p.guards j (some (disarm g)) e,
          count-last (set p.guards j (some (disarm g))) (some g),
        ))
  ]

  set_free-Keeps :
      (i : ℕ) (p : Program)
      → Keeps 0 (lost_free (get_elem? p.guards i)) p (set_free i (get_elem? p.guards i) p)
  set_free-Keeps i p = elim (Option-cases (get_elem? p.guards i)) [
    | inl e ↦ rw e (omega arith)
    | inr (none, e) ↦ rw e (omega arith)
    | inr (some g, e) ↦ rw e (omega (arith, count_if-set armed p.guards i (some (disarm g)) e))
  ]

  leave-Keeps : (i : ℕ) (p : Program) → Keeps 0 0 p (leave i (get_elem? p.guards i) p)
  leave-Keeps i p = elim (Option-cases (get_elem? p.guards i)) [
    | inl e ↦ rw e (omega arith)
    | inr (none, e) ↦ rw e (omega arith)
    | inr (some g, e) ↦ rw e (ground (arith, count_if-set armed p.guards i none e))
  ]

  moved_there :
      (l : List (Option Guard)) (i j : ℕ) (g h : Guard)
      → get_elem? l i ≡ some (some g)
      → get_elem? l j ≡ some (some h)
      → get_elem? (set l i (some h)) j ≡ some (some h)
  moved_there l i j g h e d = elim (Bool-cases (i == j)) [
    | inl same ↦ let q : i ≡ j = ground arith in rw (← q) (get_elem?-set_self l i (some h) e)
    | inr other ↦ let q : i ≢ j = ground arith in get_elem?-set_ne l (some h) q ∙ d
  ]

  put_moved-Keeps :
      (i j : ℕ) (p : Program)
      → Keeps 0
          (lost_moved (get_elem? p.guards i) (get_elem? p.guards j))
          p
          (put_moved i j (get_elem? p.guards i) (get_elem? p.guards j) p)
  put_moved-Keeps i j p = elim (Option-cases (get_elem? p.guards i)) [
    | inl e ↦ rw e (omega arith)
    | inr (none, e) ↦ rw e (omega arith)
    | inr (some g, e) ↦ elim (Option-cases (get_elem? p.guards j)) [
      | inl d ↦ rw (e, d) (omega arith)
      | inr (none, d) ↦ rw (e, d) (omega arith)
      | inr (some h, d) ↦
          rw (e, d)
            (omega (
              arith,
              count_if-set armed p.guards i (some h) e,
              count_if-set armed (set p.guards i (some h)) j (some (disarm h))
                  (moved_there p.guards i j g h e d),
            ))
    ]
  ]

  step-Keeps : (op : Op) (p : Program) → Keeps (made op) (lost op p) p (step op p)
  unfolding step
  step-Keeps (make g) p =
      ground (arith, count-last p.guards (some (record { on_exit_ = g; valid_ = true })))
  step-Keeps (move j) p = add_moved-Keeps j p
  step-Keeps (assign i j) p = put_moved-Keeps i j p
  step-Keeps (release i) p = set_free-Keeps i p
  step-Keeps (destroy i) p = leave-Keeps i p

  -- Whatever is made, moved, assigned, released and destroyed, also a guard from itself: the times that a function
  -- is run, and will be run by the guards that are left, are as many as guards have been made for it, less those
  -- that were armed when they were released or another guard was moved to them.
  pub run_count :
      (l : List Op) (p : Program)
      → runs (run l p) + waiting (run l p) + lost_all l p ≡ runs p + waiting p + made_all l
  unfolding run
  run_count [] p = omega arith
  run_count (op ∷ l) p = omega (arith, step-Keeps op p, run_count l (step op p))
